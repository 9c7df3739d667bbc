-- ===== src/Examples/Env.antt =====
-- Strings, shapes and tables at concrete inputs.
use tcvm.Common.{ℕ, ◌<◌, ◌≡◌, ◌↔◌, refl, sym, ap, ◌∙◌, arith, true, false, not, Option, none}
use tcvm.Common.{some, [], ◌∷◌, if◌then◌else◌}
use tcvm.Common.Int.{pos}
use tcvm.Env.{put, discriminant}
use tcvm.Pattern.{Bytes}
use tcvm.Env.Value.{of_kind, Value, is_nil, of_boolean, of_string, get_kind, has_kind}
use tcvm.Env.Value.{get_integer}
use tcvm.Env.Strings.{Interner, empty, intern, intern_all, metamethod_table}
use tcvm.Env.Strings.{metamethod_bit_of_bytes}
use tcvm.Env.Strings.Laws.{Keeps-refl, empty-Sound, intern_all_lem, intern-injective}
use tcvm.Env.Strings.Symbols.{intern_all-Interned}
use tcvm.Env.Shape.{Heap, find_slot, initial, root_empty, has_mm, transition_add_prop}
use tcvm.Env.Shape.Valid.{layout, grown, Arrives}
use tcvm.Env.Shape.Transitions.{transition_add_prop_lem, transition_add_prop-again}
use tcvm.Env.Table.{Context, TableState, new, raw_get, raw_set, array_index, migrate_to_dict}
use tcvm.Env.Table.Valid.{Plain, TableOk}
use tcvm.Env.Table.Modes.{Migrated, migrate_to_dict_lem}
use tcvm.Env.Table.Places.{place, same_place}
use tcvm.Env.Table.Whole.{Grows-refl, Fits, raw_get-raw_set}
use tcvm.Env.Cache.{get_fast, set_fast, fill_ic}
use tcvm.Env.Cache.Hits.{Answers, Sets, get_fast-fill_ic, set_fast-fill_ic}
use tcvm.Env.World.{World, start, new_table, table_raw_set, set_metatable, get_metamethod}
use tcvm.Env.World.Valid.{Interned, WorldOk}
use tcvm.Env.World.Writes.{table_raw_set_lem}
use tcvm.Env.World.Shapes.{set_metatable_lem}
use tcvm.Env.World.Steps.{Reachable, started, next, create, write, adopt, initial-Valid}
use tcvm.Env.World.Steps.{Reachable-WorldOk, has_mm-get_metamethod}

abbrev symbols_interned : Interner
symbols_interned = (intern_all metamethod_table empty).1

-- The interner after `Lua::new`; no value is a float here.
abbrev runtime : Context
runtime = record {
  bytes = symbols_interned.bytes;
  symbols = (intern_all metamethod_table empty).0;
  float_to_i64 = λ f. pos f;
  float_of_i64 = λ i. 0;
  float_eq = λ f g. false;
}

runtime-Interned : Interned runtime
runtime-Interned =
    let (sound, keeps, names) = intern_all_lem metamethod_table empty empty-Sound in
    intern_all-Interned runtime symbols_interned sound (Keeps-refl symbols_interned) refl refl

intern_all-Interned_example : Interned runtime
intern_all-Interned_example =
    intern_all-Interned runtime symbols_interned
      ((intern_all_lem metamethod_table empty empty-Sound).0) (Keeps-refl symbols_interned) refl
      refl

-- `__index` is the string at the first address.
first_symbol : metamethod_bit_of_bytes (runtime.bytes 0) ≡ some 0
unfolding metamethod_bit_of_bytes intern_all intern empty put
first_symbol = refl

intern-injective_example :
    let (s, i1) = intern (1 ∷ []) empty in
    let (t, i2) = intern (2 ∷ []) i1 in (s ≡ t) ↔ ◌≡◌ {A = Bytes} (1 ∷ []) (2 ∷ [])
intern-injective_example = intern-injective (1 ∷ []) (2 ∷ []) empty empty-Sound

no_key : (k : ℕ) → find_slot (initial.shapes 0).descriptors k ≡ none
unfolding initial put root_empty find_slot
no_key k = refl

transition_add_prop_lem_example :
    Arrives initial (grown 5 (layout (initial.shapes 0))) (transition_add_prop 0 5 initial)
unfolding initial
transition_add_prop_lem_example =
    transition_add_prop_lem initial 0 5 initial-Valid ((initial-Valid.empty_ok).0) (no_key 5)
      (omega arith)

transition_add_prop-again_example :
    transition_add_prop 0 5 ((transition_add_prop 0 5 initial).1) ≡ transition_add_prop 0 5 initial
unfolding transition_add_prop initial
transition_add_prop-again_example = transition_add_prop-again initial 0 5 refl

empty_table-Ok : TableOk initial (new 0)
unfolding new initial put root_empty
empty_table-Ok = record {
  shape_in = initial-Valid.empty_ok.0;
  fast = λ e. refl;
  counted = λ e. refl;
  slow = λ m e. absurd (ground (arith, e));
  plain = λ i v e. absurd (ground (arith, e));
}

true-Plain : Plain (of_boolean true)
unfolding is_nil of_boolean
true-Plain e = absurd (ground (arith, e))

string-Fits : (t : TableState) (s : ℕ) → Fits runtime t (of_string s)
unfolding array_index get_kind get_integer has_kind of_kind discriminant
string-Fits t s i e = absurd (ground (arith, e))

string_not_nil : (s : ℕ) → is_nil (of_string s) ≡ false
unfolding is_nil of_kind
string_not_nil s = refl

raw_get-raw_set_example :
    (t' : TableState) × (h' : Heap) × (raw_set runtime
        (of_string 3)
        (of_boolean true)
        (new 0)
        initial
      ≡ some (t', h'))
    × ((j : Value)
        → raw_get runtime h' t' j ≡ (
            if same_place (place runtime j) (place runtime (of_string 3))
            then some (of_boolean true)
            else raw_get runtime initial (new 0) j))
raw_get-raw_set_example =
    raw_get-raw_set runtime initial (new 0) (of_string 3) (of_boolean true) initial-Valid
      empty_table-Ok true-Plain (string_not_nil 3) (string-Fits (new 0) 3)

migrate_to_dict_lem_example :
    (t' : TableState) × (h' : Heap) × (migrate_to_dict (new 0) initial ≡ some (t', h'))
    × Migrated initial (new 0) t' h'
unfolding new
migrate_to_dict_lem_example = migrate_to_dict_lem initial (new 0) initial-Valid empty_table-Ok refl

get_fast-fill_ic_example :
    Answers initial (new 0) 3 (get_fast (fill_ic initial (new 0) 3) initial (new 0))
get_fast-fill_ic_example =
    get_fast-fill_ic initial initial (new 0) (new 0) 3 (empty_table-Ok.shape_in)
      (Grows-refl initial) initial-Valid empty_table-Ok

set_fast-fill_ic_example :
    Sets runtime initial
      (new 0)
      3
      (of_boolean true)
      (set_fast runtime (fill_ic initial (new 0) 3) 3 (of_boolean true) initial (new 0))
set_fast-fill_ic_example =
    set_fast-fill_ic runtime initial initial (new 0) (new 0) 3 (of_boolean true)
      (empty_table-Ok.shape_in) (Grows-refl initial) initial-Valid empty_table-Ok true-Plain

-- Two tables; the second gets `__index` and becomes the metatable of the first.
abbrev two_tables : World
two_tables = (new_table ((new_table start).1)).1

two-Reachable : Reachable runtime two_tables
two-Reachable = next (next started create) create

two_count : two_tables.table_count ≡ 2
unfolding new_table start
two_count = refl

abbrev get_world : Option World → World
get_world none = start
get_world (some w) = w

get_world_lem :
    (o : Option World) (P : World → Type 0)
    → ((w : World) × (o ≡ some w) × P w)
    → o ≡ some (get_world o)
get_world_lem o P (w, e, ok) = e ∙ ap some (ap get_world (sym e))

abbrev with_index : World
with_index = get_world (table_raw_set runtime 1 (of_string 0) (of_boolean true) two_tables)

with_index-Reachable : Reachable runtime with_index
with_index-Reachable =
    let ok = Reachable-WorldOk runtime two_tables runtime-Interned two-Reachable in
    let in_two : 1 < two_tables.table_count = omega (arith, two_count) in
    let fits = string-Fits (two_tables.tables 1) 0 in
    next two-Reachable (
      write 1 (of_string 0) (of_boolean true) in_two true-Plain (string_not_nil 0) fits (
        get_world_lem _ (WorldOk runtime) (
          table_raw_set_lem runtime 1 (of_string 0) (of_boolean true) two_tables runtime-Interned ok
            in_two true-Plain (string_not_nil 0) fits)))

with_index_count : with_index.table_count ≡ 2
unfolding table_raw_set new_table start raw_set get_kind of_kind
with_index_count = refl

abbrev adopted : World
adopted = get_world (set_metatable runtime 0 (some 1) with_index)

adopted-Reachable : Reachable runtime adopted
adopted-Reachable =
    let ok = Reachable-WorldOk runtime with_index runtime-Interned with_index-Reachable in
    let first : 0 < with_index.table_count = omega (arith, with_index_count) in
    let second : 1 < with_index.table_count = omega (arith, with_index_count) in
    next with_index-Reachable (
      adopt 0 (some 1) first second (
        get_world_lem _ (WorldOk runtime)
          (set_metatable_lem runtime 0 (some 1) with_index runtime-Interned ok first second)))

adopted_count : adopted.table_count ≡ 2
unfolding set_metatable table_raw_set new_table start raw_set get_kind of_kind intern_all empty
adopted_count = refl

Reachable-WorldOk_example : WorldOk runtime adopted
Reachable-WorldOk_example = Reachable-WorldOk runtime adopted runtime-Interned adopted-Reachable

-- The first table has `__index` through its metatable.
index_found : get_metamethod runtime adopted 0 0 ≡ some (of_boolean true)
unfolding get_metamethod set_metatable table_raw_set new_table start raw_set raw_get get_kind
    of_kind intern_all empty
index_found = refl

has_mm-get_metamethod_example :
    has_mm adopted.heap ((adopted.tables 0).shape) 0 ≡ not (is_nil (of_boolean true))
has_mm-get_metamethod_example =
    has_mm-get_metamethod runtime adopted 0 0 0 (of_boolean true) runtime-Interned adopted-Reachable
      (omega (arith, adopted_count)) first_symbol index_found
