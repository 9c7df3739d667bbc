-- ===== src/Env/Table/Writes.antt =====
-- `set_string_key` of src/env/table/mod.rs.
use tcvm.Common.{ℕ, ◌≡◌, refl, ◌∙◌, arith, inl, inr, true, Option, none, some, ltb, leb, length}
use tcvm.Common.{Bool-cases}
use tcvm.Env.Value.{Value, is_nil}
use tcvm.Env.Shape.{Heap, find_slot, max_properties_fast, transition_add_prop}
use tcvm.Env.Shape.Growth.{Extends-trans}
use tcvm.Env.Table.{migrate_and_set, set_slot, Context, TableState, set_string_key}
use tcvm.Env.Table.{set_string_key_dict, migrate_to_dict}
use tcvm.Env.Shape.Valid.{Valid}
use tcvm.Env.Shape.Transitions.{transition_add_prop_lem}
use tcvm.Env.Table.Valid.{Plain, TableOk}
use tcvm.Env.Table.Reads.{Stored, Set}
use tcvm.Env.Table.Strings.{set_string_key_dict_lem, set_property-Stored, push_property-Stored}
use tcvm.Env.Table.Modes.{Migrated, migrate_to_dict_lem}

Migrated-Stored :
    {h h1 h' : Heap} {t t1 t' : TableState} {key : ℕ} {value : Value}
    → Migrated h t t1 h1
    → Stored h1 t1 key value t' h'
    → Stored h t key value t' h'
Migrated-Stored m s =
    let (cache, metatable, array, misc) = m.same_rest in
    record {
      valid = s.valid;
      extends = Extends-trans m.extends s.extends;
      table_ok = s.table_ok;
      reads = λ k. ground (arith, s.reads k, m.keeps k);
      same_mt = s.same_mt ∙ m.same_mt;
      same_cache = s.same_cache ∙ cache;
      same_metatable = s.same_metatable ∙ metatable;
      same_array = s.same_array ∙ array;
      same_misc = s.same_misc ∙ misc;
    }

migrate_and_set_lem :
    (c : Context) (h : Heap) (t : TableState) (key : ℕ) (value : Value)
    → Valid h
    → TableOk h t
    → Plain value
    → t.dict ≡ none
    → Set c h t key value (migrate_and_set c key value (migrate_to_dict t h))
migrate_and_set_lem c h t key value v ok plain e =
    let (t1, h1, eq, m) = migrate_to_dict_lem h t v ok e in
    let (table, dict) = m.table in
    let (t', h', eq', s) =
      set_string_key_dict_lem c h1 t1 table key value m.valid m.table_ok plain dict in
    (t', h', rw eq eq', Migrated-Stored m s)

set_slot_lem :
    (c : Context) (h : Heap) (t : TableState) (key : ℕ) (value : Value) (o : Option ℕ)
    → Valid h
    → TableOk h t
    → Plain value
    → t.dict ≡ none
    → find_slot (h.shapes t.shape).descriptors key ≡ o
    → Set c h t key value (set_slot c key value t h o)
unfolding set_slot
set_slot_lem c h t key value (some slot) v ok plain e f = elim (Bool-cases (is_nil value)) [
  | inl n ↦ rw n (migrate_and_set_lem c h t key value v ok plain e)
  | inr n ↦
      let (b, s) = set_property-Stored h t key slot value v ok plain e f in
      let b' : ltb slot (length t.properties) ≡ true = ground arith in rw (n, b') (_, h, refl, s)
]
set_slot_lem c h t key value none v ok plain e f =
    let full = leb max_properties_fast (h.shapes t.shape).slot_count in
    elim (Bool-cases full) [
      | inl n ↦ rw n (migrate_and_set_lem c h t key value v ok plain e)
      | inr n ↦
          let arrives = transition_add_prop_lem h t.shape key v ok.shape_in f (ground arith) in
          let (s, h') = transition_add_prop t.shape key h in
          rw n (_, h', refl, push_property-Stored h t key value s h' v ok plain e f arrives)
    ]

-- `set_string_key` never panics; the table then holds `value` for `key` and what it held for every
-- other string, in whatever mode it is and goes to, and the shapes stay valid.
pub set_string_key_lem :
    (c : Context) (h : Heap) (t : TableState) (key : ℕ) (value : Value)
    → Valid h
    → TableOk h t
    → Plain value
    → Set c h t key value (set_string_key c key value t h)
unfolding set_string_key
set_string_key_lem c h t key value v ok plain = by_mode _ refl
  where
    by_mode :
        (m : Option (ℕ → Option Value))
        → t.dict ≡ m
        → Set c h t key value (elim m [
          | some table ↦ set_string_key_dict c key value t h
          | none ↦ set_slot c key value t h (find_slot (h.shapes t.shape).descriptors key)
        ])
    by_mode (some table) e = set_string_key_dict_lem c h t table key value v ok plain e
    by_mode none e = set_slot_lem c h t key value _ v ok plain e refl
