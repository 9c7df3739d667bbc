-- ===== src/Env/Table.antt =====
-- src/env/table/mod.rs: a table keeps its string keys in slots that its shape numbers, or in a
-- dictionary, its positive integer keys in an array and the other keys in a hash map. A panic is
-- `none`; hashbrown's maps are functions from keys to values.
pub mod Valid
pub mod Migrate
pub mod Reads
pub mod Strings
pub mod Modes
pub mod Writes
pub mod Bits
pub mod Places
pub mod Named
pub mod Array
pub mod Whole
use tcvm.Common.{ℕ, zero, suc, ◌+◌, ◌-◌, ◌^◌, Bool, true, false, not, ◌&&◌, Option, none, some}
use tcvm.Common.{List, [], ◌∷◌, ◌++◌, ◌==◌, ltb, leb, if◌then◌else◌, length, get_elem?, set}
use tcvm.Common.{replicate}
use tcvm.Common.Int.{ℤ, pos, negsuc, leb_ℤ, pos_part}
use tcvm.Env.{put}
use tcvm.Env.Value.{Value, nil, is_nil, same, get_integer, get_float, get_string, of_string}
use tcvm.Env.Shape.{Descriptor, Heap, MtCacheData, MetamethodBits, find_slot, update}
use tcvm.Env.Shape.{transition_add_prop, sentinel_for, max_properties_fast}
use tcvm.Env.Strings.{metamethod_bit_of_bytes}
use tcvm.Pattern.{Bytes}

-- What a table needs of `Context`: the contents of the interned strings, the symbols of the
-- metamethods with their bits, and the conversions between f64, by its bits, and i64.
pub record Context : Type 0 where
  pub bytes : ℕ → Bytes
  pub symbols : List (ℕ × ℕ)
  pub float_to_i64 : ℕ → ℤ
  pub float_of_i64 : ℤ → ℕ
  pub float_eq : ℕ → ℕ → Bool

pub record TableState : Type 0 where
  pub shape : ℕ
  pub properties : List Value
  pub array : List Value
  pub misc_hash : Value → Option Value
  pub dict : Option (ℕ → Option Value)
  pub metatable : Option ℕ
  pub mt_cache : Option ℕ

unfoldable pub new : ℕ → TableState
new shape = record {
  shape = shape;
  properties = [];
  array = [];
  misc_hash = λ k. none;
  dict = none;
  metatable = none;
  mt_cache = none;
}

-- The most values that a `Vec` can hold: `resize` panics behind isize::MAX bytes.
abbrev pub max_array : ℕ
max_array = 2 ^ 59 - 1

unfoldable pub array_index : Context → Value → Option ℕ
unfolding get_integer
array_index c key = elim (get_integer key) [
  | some i ↦ if leb_ℤ (pos 1) i then some (pos_part i) else none
  | none ↦ elim (get_float key) [
    | some f ↦
        let i = c.float_to_i64 f in
        if leb_ℤ (pos 1) i && c.float_eq (c.float_of_i64 i) f then some (pos_part i) else none
    | none ↦ none
  ]
]

abbrev pub or_nil : Option Value → Value
or_nil none = nil
or_nil (some v) = v

unfoldable pub get_string_key : Heap → TableState → ℕ → Option Value
unfolding find_slot nil
get_string_key h t key = elim t.dict [
  | some table ↦ some (or_nil (table key))
  | none ↦ elim (find_slot (h.shapes t.shape).descriptors key) [
    | some slot ↦ get_elem? t.properties slot
    | none ↦ some nil
  ]
]

unfoldable pub misc_hash_get : TableState → Value → Value
unfolding nil
misc_hash_get t key = or_nil (t.misc_hash key)

unfoldable pub raw_get : Context → Heap → TableState → Value → Option Value
unfolding get_string_key array_index misc_hash_get nil
raw_get c h t key = elim (get_string key) [
  | some s ↦ get_string_key h t s
  | none ↦ elim (array_index c key) [
    | some index ↦ some (or_nil (get_elem? t.array (index - 1)))
    | none ↦ some (misc_hash_get t key)
  ]
]

-- `maybe_update_mt_bit`: only the bits in the cache of the table change.
unfoldable pub set_bits : ℕ → (MetamethodBits → MetamethodBits) → Heap → Heap
unfolding put
set_bits cache f h =
    let d = h.caches cache in
    record h { caches = put h.caches cache (record d { bits = f d.bits }) }

unfoldable pub maybe_update_mt_bit : Context → TableState → Value → Value → Heap → Heap
unfolding set_bits update metamethod_bit_of_bytes
maybe_update_mt_bit c t key value h = elim (get_string key) [
  | none ↦ h
  | some s ↦ elim t.mt_cache [
    | none ↦ h
    | some cache ↦ elim (metamethod_bit_of_bytes (c.bytes s)) [
      | none ↦ h
      | some bit ↦ set_bits cache (update bit value) h
    ]
  ]
]

-- An entry of a hash map is removed, replaced or, where there was none, put in.
abbrev pub dict_entry : Option Value → Value → Option Value
dict_entry old value = if is_nil value then none else some value

unfoldable pub set_string_key_dict :
    Context → ℕ → Value → TableState → Heap → Option (TableState × Heap)
unfolding maybe_update_mt_bit put is_nil
set_string_key_dict c key value t h = elim t.dict [
  | none ↦ none
  | some table ↦
      let t' = record t { dict = some (put table key (dict_entry (table key) value)) } in
      some (t', maybe_update_mt_bit c t' (of_string key) value h)
]

-- The loop of `migrate_to_dict`, which copies the slots to `table`.
unfoldable pub copy_slots :
    List Value → List Descriptor → (ℕ → Option Value) → Option (ℕ → Option Value)
unfolding put is_nil
copy_slots properties [] table = some table
copy_slots properties (d ∷ ds) table = elim (get_elem? properties d.slot) [
  | none ↦ none
  | some v ↦ copy_slots properties ds (if is_nil v then table else put table d.key (some v))
]

abbrev pub into_dict : TableState → (ℕ → Option Value) → ℕ × Heap → TableState × Heap
into_dict t table (s, h) = (record t { properties = []; shape = s; dict = some table }, h)

unfoldable pub migrate_to_dict : TableState → Heap → Option (TableState × Heap)
unfolding copy_slots
migrate_to_dict t h =
    let d = h.shapes t.shape in
    elim (copy_slots t.properties d.descriptors (λ k. none)) [
      | none ↦ none
      | some table ↦ some (into_dict t table (sentinel_for d.mt_cache h))
    ]

-- `self.migrate_to_dict(ctx); self.set_string_key_dict(key, value)`
abbrev pub migrate_and_set :
    Context → ℕ → Value → Option (TableState × Heap) → Option (TableState × Heap)
migrate_and_set c key value none = none
migrate_and_set c key value (some (t, h)) = set_string_key_dict c key value t h

abbrev pub push_property : Context → ℕ → Value → TableState → ℕ × Heap → TableState × Heap
push_property c key value t (s, h) =
    let t' = record t { shape = s; properties = t.properties ++ (value ∷ []) } in
    (t', maybe_update_mt_bit c t' (of_string key) value h)

-- Fast mode, for the slot that the shape has.
unfoldable pub set_slot :
    Context → ℕ → Value → TableState → Heap → Option ℕ → Option (TableState × Heap)
unfolding is_nil migrate_to_dict transition_add_prop maybe_update_mt_bit set_string_key_dict
set_slot c key value t h (some slot) =
    if is_nil value
    then migrate_and_set c key value (migrate_to_dict t h)
    else if ltb slot (length t.properties)
    then (let t' = record t { properties = set t.properties slot value } in
        some (t', maybe_update_mt_bit c t' (of_string key) value h))
    else none
set_slot c key value t h none =
    if leb max_properties_fast (h.shapes t.shape).slot_count
    then migrate_and_set c key value (migrate_to_dict t h)
    else some (push_property c key value t (transition_add_prop t.shape key h))

unfoldable pub set_string_key : Context → ℕ → Value → TableState → Heap → Option (TableState × Heap)
unfolding find_slot set_string_key_dict set_slot
set_string_key c key value t h = elim t.dict [
  | some table ↦ set_string_key_dict c key value t h
  | none ↦ set_slot c key value t h (find_slot (h.shapes t.shape).descriptors key)
]

unfoldable pub array_set : List Value → ℕ → Value → Option (List Value)
unfolding nil
array_set array index value =
    if ltb (length array) index
    then if ltb max_array index
      then none
      else some (set (array ++ replicate (index - length array) nil) (index - 1) value)
    else some (set array (index - 1) value)

-- `misc_hash_set`: an entry that is new is put in even for nil.
abbrev pub misc_entry : Option Value → Value → Option Value
misc_entry none value = some value
misc_entry (some old) value = if is_nil value then none else some value

unfoldable pub misc_hash_set : Value → Value → TableState → TableState
unfolding same is_nil
misc_hash_set key value t = record t {
  misc_hash = λ k. if same k key then misc_entry (t.misc_hash key) value else t.misc_hash k;
}

abbrev pub with_array : TableState → Heap → Option (List Value) → Option (TableState × Heap)
with_array t h none = none
with_array t h (some array) = some (record t { array = array }, h)

unfoldable pub raw_set : Context → Value → Value → TableState → Heap → Option (TableState × Heap)
unfolding set_string_key array_index array_set misc_hash_set is_nil
raw_set c key value t h = elim (get_string key) [
  | some s ↦ set_string_key c s value t h
  | none ↦ elim (array_index c key) [
    | some index ↦ with_array t h (array_set t.array index value)
    | none ↦ if is_nil key then none else some (misc_hash_set key value t, h)
  ]
]

unfoldable pub raw_len : TableState → ℕ
raw_len t = length t.array
