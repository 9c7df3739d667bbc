-- ===== src/Env/Table/Bits.antt =====
-- `maybe_update_mt_bit` of src/env/table/mod.rs.
use tcvm.Common.{ℕ, ◌≡◌, refl, ap, ◌∙◌, arith, inl, inr, Bool, false, not, Option, none, some}
use tcvm.Common.{◌==◌, if◌then◌else◌, ◌&&◌, Option-cases}
use tcvm.Env.{put, put_self, put-ne, ℕ-cases}
use tcvm.Env.Value.{Value, is_nil, get_string}
use tcvm.Env.Strings.{metamethod_bit_of_bytes}
use tcvm.Env.Shape.{Heap, MtCacheData, MetamethodBits, update}
use tcvm.Env.Table.{Context, TableState, set_bits, maybe_update_mt_bit}

abbrev pub is : Option ℕ → ℕ → Bool
is none n = false
is (some m) n = n == m

-- The bit of the metamethod that a key names.
unfoldable pub metamethod_bit : Context → Value → Option ℕ
metamethod_bit c key = elim (get_string key) [
  | none ↦ none
  | some s ↦ metamethod_bit_of_bytes (c.bytes s)
]

-- The bit of the cache after `value` was written for `key` to the table of `own`.
abbrev pub noted : Context → Option ℕ → Value → Value → ℕ → ℕ → Bool → Bool
noted c own key value cache bit old =
    if is own cache && is (metamethod_bit c key) bit then not (is_nil value) else old

-- Nothing but bits changed.
pub record BitsOnly (h h' : Heap) : Type 0 where
  pub shapes : h'.shapes ≡ h.shapes
  pub count : h'.shape_count ≡ h.shape_count
  pub cache_count : h'.cache_count ≡ h.cache_count
  pub sentinels : (i : ℕ) → (h'.caches i).dict_sentinel ≡ (h.caches i).dict_sentinel
  pub empty : h'.empty_shape ≡ h.empty_shape
  pub empty_dict : h'.empty_dict_sentinel ≡ h.empty_dict_sentinel

BitsOnly-refl : (h : Heap) → BitsOnly h h
BitsOnly-refl h = record {
  shapes = refl;
  count = refl;
  cache_count = refl;
  sentinels = λ i. refl;
  empty = refl;
  empty_dict = refl;
}

update_lem :
    (bit : ℕ) (value : Value) (bits : MetamethodBits) (b : ℕ)
    → update bit value bits b ≡ (if b == bit then not (is_nil value) else bits b)
unfolding update put
update_lem bit value bits b = ground arith

set_bits-BitsOnly :
    (cache : ℕ) (f : MetamethodBits → MetamethodBits) (h : Heap) → BitsOnly h (set_bits cache f h)
unfolding set_bits
set_bits-BitsOnly cache f h = record {
  shapes = refl;
  count = refl;
  cache_count = refl;
  sentinels = λ i. elim (ℕ-cases i cache) [
    | inl same ↦ rw same (ap (λ (x : MtCacheData). x.dict_sentinel) (put_self h.caches cache _))
    | inr ne ↦ ap (λ (x : MtCacheData). x.dict_sentinel) (put-ne h.caches _ ne)
  ];
  empty = refl;
  empty_dict = refl;
}

set_bits_lem :
    (cache bit : ℕ) (value : Value) (h : Heap) (i b : ℕ)
    → ((set_bits cache (update bit value) h).caches i).bits b
      ≡ (if i == cache && (b == bit) then not (is_nil value) else (h.caches i).bits b)
unfolding set_bits
set_bits_lem cache bit value h i b = elim (ℕ-cases i cache) [
  | inl same ↦
      ap (λ (x : MtCacheData). x.bits b)
        (ap (put h.caches cache _) same ∙ put_self h.caches cache _)
      ∙ ground (arith, update_lem bit value (h.caches cache).bits b, same)
  | inr ne ↦ ap (λ (x : MtCacheData). x.bits b) (put-ne h.caches _ ne) ∙ ground arith
]

-- What the write of a key leaves of the state.
pub maybe_update_mt_bit_lem :
    (c : Context) (t : TableState) (key value : Value) (h : Heap)
    → BitsOnly h (maybe_update_mt_bit c t key value h)
      × ((i b : ℕ)
          → ((maybe_update_mt_bit c t key value h).caches i).bits b
            ≡ noted c t.mt_cache key value i b ((h.caches i).bits b))
unfolding maybe_update_mt_bit metamethod_bit
maybe_update_mt_bit_lem c t key value h = elim (Option-cases (get_string key)) [
  | inl e ↦ rw (maybe_update_mt_bit, metamethod_bit, e) (BitsOnly-refl h, λ i b. ground arith)
  | inr (s, e) ↦ elim (Option-cases t.mt_cache) [
    | inl f ↦ rw (maybe_update_mt_bit, e, f) (BitsOnly-refl h, λ i b. refl)
    | inr (cache, f) ↦ elim (Option-cases (metamethod_bit_of_bytes (c.bytes s))) [
      | inl g ↦
          rw (maybe_update_mt_bit, metamethod_bit, e, f, g) (BitsOnly-refl h, λ i b. ground arith)
      | inr (bit, g) ↦
          rw (maybe_update_mt_bit, metamethod_bit, e, f, g)
            (set_bits-BitsOnly cache (update bit value) h, set_bits_lem cache bit value h)
    ]
  ]
]
