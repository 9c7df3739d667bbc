-- ===== src/Env/World.antt =====
-- The tables of a runtime with their metatables: `Table` of src/env/table/mod.rs on the heap of
-- shapes and caches. A table is named by its address.
pub mod Valid
pub mod Writes
pub mod Seeds
pub mod Metatables
pub mod Shapes
pub mod Steps
use tcvm.Common.{ℕ, suc, Bool, true, false, Option, none, some, List, [], ◌∷◌, if◌then◌else◌}
use tcvm.Env.{put}
use tcvm.Env.Value.{Value, nil, is_nil, of_string}
use tcvm.Env.Shape.{Heap, MetamethodBits, set_bit, new_cache, transition_set_metatable, initial}
use tcvm.Env.Table.{Context, TableState, raw_get, raw_set, new}

pub record World : Type 0 where
  pub heap : Heap
  pub table_count : ℕ
  pub tables : ℕ → TableState

-- `Table::new_with_shape`
unfoldable pub new_table : World → ℕ × World
unfolding put new
new_table w = (
  w.table_count,
  record w {
    table_count = suc w.table_count;
    tables = put w.tables w.table_count (new (w.heap).empty_shape);
  },
)

-- A table is borrowed, and written back with the heap.
abbrev pub write_back : World → ℕ → Option (TableState × Heap) → Option World
write_back w i none = none
write_back w i (some (t, h)) = some (record w { heap = h; tables = put w.tables i t })

-- `Table::raw_set`
unfoldable pub table_raw_set : Context → ℕ → Value → Value → World → Option World
unfolding put raw_set
table_raw_set c i key value w = write_back w i (raw_set c key value (w.tables i) w.heap)

-- `if !state.raw_get(Value::string(name)).is_nil() { bits |= bit }`
abbrev pub seed_bit : ℕ → MetamethodBits → Value → MetamethodBits
seed_bit bit bits v = if is_nil v then bits else set_bit bit bits

-- The loop of `ensure_mt_cache` over the symbols.
unfoldable pub seed_bits :
    Context → Heap → TableState → List (ℕ × ℕ) → MetamethodBits → Option MetamethodBits
unfolding raw_get set_bit
seed_bits c h t [] bits = some bits
seed_bits c h t ((s, bit) ∷ rest) bits = elim (raw_get c h t (of_string s)) [
  | none ↦ none
  | some v ↦ seed_bits c h t rest (seed_bit bit bits v)
]

abbrev pub adopt : World → ℕ → ℕ × Heap → ℕ × World
adopt w i (cache, h) = (
  cache,
  record w { heap = h; tables = put w.tables i (record (w.tables i) { mt_cache = some cache }) },
)

-- `Table::ensure_mt_cache`
unfoldable pub ensure_mt_cache : Context → ℕ → World → Option (ℕ × World)
unfolding seed_bits new_cache put
ensure_mt_cache c i w = elim ((w.tables i).mt_cache) [
  | some cache ↦ some (cache, w)
  | none ↦ elim (seed_bits c w.heap (w.tables i) c.symbols (λ bit. false)) [
    | none ↦ none
    | some bits ↦ some (adopt w i (new_cache bits w.heap))
  ]
]

abbrev pub reshape : ℕ → Option ℕ → World → ℕ × Heap → World
reshape i mt w (s, h) = record w {
  heap = h;
  tables = put w.tables i (record (w.tables i) { shape = s; metatable = mt });
}

-- `Table::set_metatable`
unfoldable pub set_metatable : Context → ℕ → Option ℕ → World → Option World
unfolding ensure_mt_cache transition_set_metatable put
set_metatable c i none w =
    some (reshape i none w (transition_set_metatable ((w.tables i).shape) none w.heap))
set_metatable c i (some m) w = elim (ensure_mt_cache c m w) [
  | none ↦ none
  | some (cache, w') ↦
      some (
        reshape i (some m) w' (transition_set_metatable ((w'.tables i).shape) (some cache) w'.heap))
]

-- `Table::get_metamethod`
unfoldable pub get_metamethod : Context → World → ℕ → ℕ → Option Value
unfolding raw_get nil
get_metamethod c w i name = elim ((w.tables i).metatable) [
  | none ↦ some nil
  | some m ↦ raw_get c w.heap (w.tables m) (of_string name)
]

-- The state of `Lua::new`, before its first table.
unfoldable pub start : World
unfolding initial new
start = record { heap = initial; table_count = 0; tables = λ i. new 0 }
