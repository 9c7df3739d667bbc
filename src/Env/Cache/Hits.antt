-- ===== src/Env/Cache/Hits.antt =====
-- The fast paths of src/vm/interp.rs on a hit of an inline cache.
use tcvm.Common.{ℕ, ◌<◌, ◌≡◌, refl, sym, ap, ◌∙◌, arith, inl, inr, false, ◌&&◌, Option, none}
use tcvm.Common.{some, ◌==◌, if◌then◌else◌, get_elem?, [], get_elem?-some, Option-cases}
use tcvm.Common.{Bool-cases}
use tcvm.Env.Value.{Value, is_nil, of_string}
use tcvm.Env.Shape.{Heap, find_slot, has_mm}
use tcvm.Env.Shape.Slots.{find_slot_bound}
use tcvm.Env.Shape.Valid.{Layout, Valid, Grows}
use tcvm.Env.Table.{Context, TableState, get_string_key}
use tcvm.Env.Table.Valid.{Plain, TableOk}
use tcvm.Env.Table.Reads.{get_string_key-fast}
use tcvm.Env.Table.Strings.{set_property-Stored}
use tcvm.Env.Table.Places.{named, Wrote}
use tcvm.Env.Table.Named.{Stored-Wrote}
use tcvm.Env.Cache.{InlineCache, empty, mono, absent_slot, ic_check, slot_or_absent, fill_ic}
use tcvm.Env.Cache.{Fast, slow, done, index_bit, newindex_bit, loaded, get_fast, stored, set_fast}
use tcvm.Env.Cache.{CacheOk}

pub data Answers (h : Heap) (t : TableState) (key : ℕ) : Fast Value → Type 0 where
  to_slow : Answers h t key slow
  answered :
      {v : Value}
      → get_string_key h t key ≡ some v
      → (is_nil v && has_mm h t.shape index_bit) ≡ false
      → Answers h t key (done v)

pub data Sets (c : Context) (h : Heap) (t : TableState) (key : ℕ) (value : Value)
    : Fast (TableState × Heap) → Type 0 where
  to_slow_set : Sets c h t key value slow
  written :
      {t' : TableState} {h' : Heap}
      → Wrote c h t (named key) (of_string key) value t' h'
      → Sets c h t key value (done (t', h'))

-- A hit that is not absent names the slot of the key in the shape of the table.
hit :
    (cache : InlineCache) (h : Heap) (t : TableState) (key slot : ℕ)
    → CacheOk h key cache
    → ic_check cache t.shape ≡ some slot
    → (slot == absent_slot) ≡ false
    → find_slot (h.shapes t.shape).descriptors key ≡ some slot
unfolding ic_check
hit empty h t key slot ok e ne = absurd (ground (arith, e))
hit (mono shape cached) h t key slot (b, is_slot) e ne =
    let same : t.shape ≡ shape = ground (arith, e) in
    let slots : cached ≡ slot = ground (arith, e) in
    elim (Option-cases (find_slot (h.shapes shape).descriptors key)) [
      | inl f ↦ absurd (ground (arith, ap slot_or_absent f, is_slot, slots, ne))
      | inr (x, f) ↦
          let at : x ≡ slot = ground (arith, ap slot_or_absent f, is_slot, slots) in
          ap (λ s. find_slot (h.shapes s).descriptors key) same ∙ f ∙ ap some at
    ]

no_slot : (key slot : ℕ) → ¬ (find_slot [] key ≡ some slot)
unfolding find_slot
no_slot key slot e = ground (arith, e)

-- A table whose shape gives a slot is in fast mode, and has that slot.
slot_there :
    (h : Heap) (t : TableState) (key slot : ℕ)
    → Valid h
    → TableOk h t
    → find_slot (h.shapes t.shape).descriptors key ≡ some slot
    → (t.dict ≡ none) × (v : Value) × (get_elem? t.properties slot ≡ some v)
slot_there h t key slot valid ok f =
    let good = (valid.shapes_ok t.shape ok.shape_in).ok in
    let fast : t.dict ≡ none = elim (Option-cases t.dict) [
      | inl e ↦ e
      | inr (m, e) ↦
          let flat =
            ap (λ (l : Layout). find_slot l.descriptors key) (good.dict_empty (ok.slow m e)) in
          absurd (no_slot key slot (sym flat ∙ f))
    ] in
    let (low, high) = find_slot_bound 0 _ key slot good.numbered f in
    let (v, at) = get_elem?-some t.properties slot (omega (arith, ok.counted fast, good.counted)) in
    (fast, v, at)

-- A fast read answers what the table holds, and never reads out of bounds.
get_fast_lem :
    (cache : InlineCache) (h : Heap) (t : TableState) (key : ℕ)
    → Valid h
    → TableOk h t
    → CacheOk h key cache
    → Answers h t key (get_fast cache h t)
unfolding get_fast
get_fast_lem cache h t key valid ok cok = by_check _ refl
  where
    by_value : (v : Value) → get_string_key h t key ≡ some v → Answers h t key (loaded h t (some v))
    by_value v e = elim (Bool-cases (is_nil v && has_mm h t.shape index_bit)) [
      | inl n ↦ rw n to_slow
      | inr n ↦ rw n (answered e n)
    ]

    by_check :
        (o : Option ℕ)
        → ic_check cache t.shape ≡ o
        → Answers h t key (elim o [
          | none ↦ slow
          | some slot ↦
              if slot == absent_slot then slow else loaded h t (get_elem? t.properties slot)
        ])
    by_check none e = to_slow
    by_check (some slot) e = elim (Bool-cases (slot == absent_slot)) [
      | inl n ↦ rw n to_slow
      | inr n ↦
          let f = hit cache h t key slot cok e n in
          let (fast, v, at) = slot_there h t key slot valid ok f in
          rw (n, at) (by_value v (get_string_key-fast h t key slot fast f ∙ at))
    ]

-- A fast write is a write: the table holds the new value, and the bit of its cache follows.
set_fast_lem :
    (c : Context) (cache : InlineCache) (h : Heap) (t : TableState) (key : ℕ) (value : Value)
    → Valid h
    → TableOk h t
    → Plain value
    → CacheOk h key cache
    → Sets c h t key value (set_fast c cache key value h t)
unfolding set_fast
set_fast_lem c cache h t key value valid ok plain cok = by_check _ refl
  where
    by_existing :
        (slot : ℕ) (existing : Value)
        → t.dict ≡ none
        → find_slot (h.shapes t.shape).descriptors key ≡ some slot
        → Sets c h t key value (stored c key value slot h t (some existing))
    by_existing slot existing fast f =
        elim (Bool-cases (is_nil existing && has_mm h t.shape newindex_bit)) [
          | inl n ↦ rw n to_slow_set
          | inr n ↦
              let (b, st) = set_property-Stored h t key slot value valid ok plain fast f in
              rw n (written (Stored-Wrote c h t key value _ h st))
        ]

    by_check :
        (o : Option ℕ)
        → ic_check cache t.shape ≡ o
        → Sets c h t key value (elim o [
          | none ↦ slow
          | some slot ↦
              if slot == absent_slot
              then slow
              else stored c key value slot h t (get_elem? t.properties slot)
        ])
    by_check none e = to_slow_set
    by_check (some slot) e = elim (Bool-cases (slot == absent_slot)) [
      | inl n ↦ rw n to_slow_set
      | inr n ↦
          let f = hit cache h t key slot cok e n in
          let (fast, v, at) = slot_there h t key slot valid ok f in
          rw (n, at) (by_existing slot v fast f)
    ]

fill_ic-CacheOk :
    (h h' : Heap) (t : TableState) (key : ℕ)
    → t.shape < h.shape_count
    → Grows h h'
    → CacheOk h' key (fill_ic h t key)
unfolding fill_ic
fill_ic-CacheOk h h' t key b grows = (
  omega (arith, grows.count),
  ap (λ (l : Layout). slot_or_absent (find_slot l.descriptors key)) (sym (grows.kept t.shape b)),
)

-- A cache that was filled for `key` from any table answers at any later time, for any table, what
-- the table holds for `key`, or it leaves the access to the slow path. It never reads out of bounds.
pub get_fast-fill_ic :
    (h h' : Heap) (filled t : TableState) (key : ℕ)
    → filled.shape < h.shape_count
    → Grows h h'
    → Valid h'
    → TableOk h' t
    → Answers h' t key (get_fast (fill_ic h filled key) h' t)
get_fast-fill_ic h h' filled t key b grows valid ok =
    get_fast_lem (fill_ic h filled key) h' t key valid ok (fill_ic-CacheOk h h' filled key b grows)

-- A write through such a cache leaves the table with the new value for `key` and the old values at
-- every other place, a state in order and the bit of its cache up to date, or it is left to the slow
-- path. It never reads out of bounds.
pub set_fast-fill_ic :
    (c : Context) (h h' : Heap) (filled t : TableState) (key : ℕ) (value : Value)
    → filled.shape < h.shape_count
    → Grows h h'
    → Valid h'
    → TableOk h' t
    → Plain value
    → Sets c h' t key value (set_fast c (fill_ic h filled key) key value h' t)
set_fast-fill_ic c h h' filled t key value b grows valid ok plain =
    set_fast_lem c (fill_ic h filled key) h' t key value valid ok plain
      (fill_ic-CacheOk h h' filled key b grows)
