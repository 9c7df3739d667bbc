-- ===== src/Env/Table/Reads.antt =====
-- What a table holds for its string keys, read through its shape or its dictionary.
use tcvm.Common.{ℕ, ◌≡◌, ◌≢◌, ap, ◌∙◌, arith, inl, inr, Option, none, some, ◌==◌, if◌then◌else◌}
use tcvm.Common.{get_elem?, Option-cases, get_elem?-some}
use tcvm.Env.{ℕ-cases}
use tcvm.Env.Value.{Value, nil, of_string}
use tcvm.Env.Shape.{Heap, find_slot}
use tcvm.Env.Shape.Slots.{find_slot_bound}
use tcvm.Env.Shape.Valid.{Valid, Extends}
use tcvm.Env.Table.{Context, TableState, get_string_key, maybe_update_mt_bit, or_nil, dict_entry}
use tcvm.Env.Table.Valid.{Plain, TableOk}

-- What `t` holds for the string keys after `value` was stored for `key`.
abbrev pub overwritten : Heap → TableState → ℕ → Value → ℕ → Option Value
overwritten h t key value k = if k == key then some value else get_string_key h t k

-- `key` is stored: from `t` and `h` the table is `t'` and the shapes are those of `h'`.
pub record Stored (h : Heap) (t : TableState) (key : ℕ) (value : Value) (t' : TableState)
    (h' : Heap) : Type 0 where
  pub valid : Valid h'
  pub extends : Extends h h'
  pub table_ok : TableOk h' t'
  pub reads : (k : ℕ) → get_string_key h' t' k ≡ overwritten h t key value k
  pub same_mt : (h'.shapes t'.shape).mt_cache ≡ (h.shapes t.shape).mt_cache
  pub same_cache : t'.mt_cache ≡ t.mt_cache
  pub same_metatable : t'.metatable ≡ t.metatable
  pub same_array : t'.array ≡ t.array
  pub same_misc : t'.misc_hash ≡ t.misc_hash

-- The bits of the metatable's cache are brought up to date when everything is stored.
abbrev pub Set : Context → Heap → TableState → ℕ → Value → Option (TableState × Heap) → Type 0
Set c h t key value o =
    (t' : TableState) × (h' : Heap) × (o
      ≡ some (t', maybe_update_mt_bit c t' (of_string key) value h'))
    × Stored h t key value t' h'

pub get_string_key-dict :
    (h : Heap) (t : TableState) (m : ℕ → Option Value) (k : ℕ)
    → t.dict ≡ some m
    → get_string_key h t k ≡ some (or_nil (m k))
unfolding get_string_key
get_string_key-dict h t m k e = rw (get_string_key, e)

pub get_string_key-fast :
    (h : Heap) (t : TableState) (k slot : ℕ)
    → t.dict ≡ none
    → find_slot (h.shapes t.shape).descriptors k ≡ some slot
    → get_string_key h t k ≡ get_elem? t.properties slot
unfolding get_string_key
get_string_key-fast h t k slot e f = rw (get_string_key, e, f)

pub get_string_key-absent :
    (h : Heap) (t : TableState) (k : ℕ)
    → t.dict ≡ none
    → find_slot (h.shapes t.shape).descriptors k ≡ none
    → get_string_key h t k ≡ some nil
unfolding get_string_key
get_string_key-absent h t k e f = rw (get_string_key, e, f)

pub dict_entry-or_nil : (old : Option Value) (v : Value) → Plain v → or_nil (dict_entry old v) ≡ v
dict_entry-or_nil old v plain = ground (arith, plain)

pub reads_by :
    (h : Heap) (t : TableState) (h' : Heap) (t' : TableState) (key : ℕ) (value : Value)
    → get_string_key h' t' key ≡ some value
    → ((k : ℕ) → k ≢ key → get_string_key h' t' k ≡ get_string_key h t k)
    → (k : ℕ) → get_string_key h' t' k ≡ overwritten h t key value k
reads_by h t h' t' key value self others k = elim (ℕ-cases k key) [
  | inl same ↦ ground (arith, self, ap (get_string_key h' t') same)
  | inr ne ↦ ground (arith, others k ne)
]

-- A string key can always be read.
pub get_string_key_total :
    (h : Heap) (t : TableState) (k : ℕ)
    → Valid h
    → TableOk h t
    → (v : Value) × (get_string_key h t k ≡ some v)
get_string_key_total h t k valid ok = elim (Option-cases t.dict) [
  | inr (m, e) ↦ (or_nil (m k), get_string_key-dict h t m k e)
  | inl e ↦ elim (Option-cases (find_slot (h.shapes t.shape).descriptors k)) [
    | inl f ↦ (nil, get_string_key-absent h t k e f)
    | inr (slot, f) ↦
        let good = (valid.shapes_ok t.shape ok.shape_in).ok in
        let (low, high) = find_slot_bound 0 _ k slot good.numbered f in
        let (v, at) =
          get_elem?-some t.properties slot (omega (arith, ok.counted e, good.counted)) in
        (v, get_string_key-fast h t k slot e f ∙ at)
  ]
]
