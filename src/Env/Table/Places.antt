-- ===== src/Env/Table/Places.antt =====
-- The places that keys lead to, and a table as a map from places to values.
use tcvm.Common.{ℕ, zero, suc, ◌-◌, ◌≤◌, ◌≡◌, ap, arith, inl, inr, Bool, false, Option, none}
use tcvm.Common.{some, ◌==◌, if◌then◌else◌, get_elem?, Option-cases}
use tcvm.Env.Value.{Value, nil, same, get_string}
use tcvm.Env.Shape.{Heap}
use tcvm.Env.Shape.Valid.{Valid, Grows}
use tcvm.Env.Table.{Context, TableState, raw_get, array_index, misc_hash_get, or_nil}
use tcvm.Env.Table.{get_string_key}
use tcvm.Env.Table.Valid.{TableOk}
use tcvm.Env.Table.Bits.{noted}

-- Where a key leads.
pub data Place : Type 0 where
  named : ℕ → Place
  element : ℕ → Place
  other : Value → Place

unfoldable pub place : Context → Value → Place
unfolding array_index
place c key = elim (get_string key) [
  | some s ↦ named s
  | none ↦ elim (array_index c key) [ some i ↦ element i | none ↦ other key ]
]

abbrev pub same_place : Place → Place → Bool
same_place (named a) (named b) = a == b
same_place (element a) (element b) = a == b
same_place (other a) (other b) = same a b
same_place (named a) (element b) = false
same_place (named a) (other b) = false
same_place (element a) (named b) = false
same_place (element a) (other b) = false
same_place (other a) (named b) = false
same_place (other a) (element b) = false

abbrev pub read : Heap → TableState → Place → Option Value
read h t (named s) = get_string_key h t s
read h t (element zero) = some nil
read h t (element (suc i)) = some (or_nil (get_elem? t.array i))
read h t (other key) = some (misc_hash_get t key)

pub array_index_low : (c : Context) (key : Value) (i : ℕ) → array_index c key ≡ some i → 1 ≤ i
unfolding array_index
array_index_low c key i e = ground (arith, e)

read-element :
    (h : Heap) (t : TableState) (i : ℕ)
    → 1 ≤ i
    → some (or_nil (get_elem? t.array (i - 1))) ≡ read h t (element i)
read-element h t zero low = absurd (omega arith)
read-element h t (suc i) low = ap (λ j. some (or_nil (get_elem? t.array j))) (omega arith)

pub raw_get-read :
    (c : Context) (h : Heap) (t : TableState) (key : Value)
    → raw_get c h t key ≡ read h t (place c key)
unfolding raw_get place
raw_get-read c h t key = elim (Option-cases (get_string key)) [
  | inr (s, e) ↦ rw (raw_get, place, e)
  | inl e ↦ elim (Option-cases (array_index c key)) [
    | inl f ↦ rw (raw_get, place, e, f)
    | inr (i, f) ↦ rw (raw_get, place, e, f) (read-element h t i (array_index_low c key i f))
  ]
]

-- `key`, which leads to `at`, is written: the table is a map in which `at` has the new value.
pub record Wrote (c : Context) (h : Heap) (t : TableState) (at : Place) (key value : Value)
    (t' : TableState) (h' : Heap) : Type 0 where
  pub valid : Valid h'
  pub grows : Grows h h'
  pub table_ok : TableOk h' t'
  pub reads : (p : Place) → read h' t' p ≡ (if same_place p at then some value else read h t p)
  pub same_mt : (h'.shapes t'.shape).mt_cache ≡ (h.shapes t.shape).mt_cache
  pub same_cache : t'.mt_cache ≡ t.mt_cache
  pub same_metatable : t'.metatable ≡ t.metatable
  pub bits :
      (i b : ℕ) → (h'.caches i).bits b ≡ noted c t.mt_cache key value i b ((h.caches i).bits b)
