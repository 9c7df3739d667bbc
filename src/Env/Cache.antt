-- ===== src/Env/Cache.antt =====
-- src/env/function.rs and src/vm/interp.rs: the inline caches of GETFIELD, SETFIELD, GETTABUP and
-- SETTABUP, which name the shape and the slot of the last access.
pub mod Hits
use tcvm.Common.{ℕ, suc, ◌-◌, ◌^◌, ◌≤◌, ◌<◌, ◌≡◌, ◌≢◌, refl, sym, ap, ◌∙◌, subst, arith, inl, inr}
use tcvm.Common.{Bool, true, false, not, ◌&&◌, Option, none, some, ◌==◌, if◌then◌else◌, get_elem?}
use tcvm.Common.{[], get_elem?-some, length, set, ltb, Option-cases, Bool-cases}
use tcvm.Env.Value.{Value, nil, is_nil, of_string}
use tcvm.Env.Shape.{Heap, find_slot, has_mm}
use tcvm.Env.Shape.Slots.{find_slot_bound}
use tcvm.Env.Shape.Valid.{layout, Layout, Valid, Grows}
use tcvm.Env.Table.{Context, TableState, get_string_key, maybe_update_mt_bit}
use tcvm.Env.Table.Valid.{Plain, TableOk}
use tcvm.Env.Table.Reads.{get_string_key-fast, get_string_key-dict}
use tcvm.Env.Table.Strings.{set_property-Stored}
use tcvm.Env.Table.Places.{named, Wrote}
use tcvm.Env.Table.Named.{Stored-Wrote}

pub data InlineCache : Type 0 where
  empty : InlineCache
  mono : ℕ → ℕ → InlineCache

-- `InlineCache::ABSENT_SLOT`, which is `u32::MAX`
abbrev pub absent_slot : ℕ
absent_slot = 2 ^ 32 - 1

unfoldable pub ic_check : InlineCache → ℕ → Option ℕ
ic_check empty live = none
ic_check (mono shape slot) live = if live == shape then some slot else none

abbrev pub slot_or_absent : Option ℕ → ℕ
slot_or_absent none = absent_slot
slot_or_absent (some slot) = slot

-- `fill_ic_for_constant_key`
unfoldable pub fill_ic : Heap → TableState → ℕ → InlineCache
unfolding find_slot
fill_ic h t key = mono t.shape (slot_or_absent (find_slot (h.shapes t.shape).descriptors key))

-- What the fast path of an access does: it goes on to the slow path, or it is done.
pub data Fast (A : Type 0) : Type 0 where
  slow : Fast A
  out_of_bounds : Fast A
  done : A → Fast A

-- The bit of `__index`, and of `__newindex`.
abbrev pub index_bit : ℕ
index_bit = 0

abbrev pub newindex_bit : ℕ
newindex_bit = 1

abbrev pub loaded : Heap → TableState → Option Value → Fast Value
loaded h t none = out_of_bounds
loaded h t (some v) = if is_nil v && has_mm h t.shape index_bit then slow else done v

-- The fast path of `op_getfield` and of `op_gettabup`.
unfoldable pub get_fast : InlineCache → Heap → TableState → Fast Value
unfolding ic_check is_nil has_mm
get_fast cache h t = elim (ic_check cache t.shape) [
  | none ↦ slow
  | some slot ↦ if slot == absent_slot then slow else loaded h t (get_elem? t.properties slot)
]

abbrev pub stored :
    Context → ℕ → Value → ℕ → Heap → TableState → Option Value → Fast (TableState × Heap)
stored c key value slot h t none = out_of_bounds
stored c key value slot h t (some existing) =
    if is_nil existing && has_mm h t.shape newindex_bit
    then slow
    else (let t' = record t { properties = set t.properties slot value } in
        done (t', maybe_update_mt_bit c t' (of_string key) value h))

-- The fast path of `op_setfield` and of `op_settabup`.
unfoldable pub set_fast :
    Context → InlineCache → ℕ → Value → Heap → TableState → Fast (TableState × Heap)
unfolding ic_check is_nil has_mm maybe_update_mt_bit
set_fast c cache key value h t = elim (ic_check cache t.shape) [
  | none ↦ slow
  | some slot ↦
      if slot == absent_slot
      then slow
      else stored c key value slot h t (get_elem? t.properties slot)
]

-- A cache for `key` that was filled at some time names the slot that its shape has for it.
abbrev pub CacheOk : Heap → ℕ → InlineCache → Type 0
CacheOk h key empty = Unit
CacheOk h key (mono shape slot) =
    (shape < h.shape_count) × (slot ≡ slot_or_absent (find_slot (h.shapes shape).descriptors key))
