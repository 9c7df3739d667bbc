-- ===== src/Env/World/Seeds.antt =====
-- The loop of `Table::ensure_mt_cache` over the symbols, and the cache that it makes.
use tcvm.Common.{ℕ, ◌≡◌, ◌⊎◌, refl, sym, ap, ◌∙◌, subst, arith, inl, inr, true, false, not, none}
use tcvm.Common.{some, Bool-cases, List, [], ◌∷◌}
use tcvm.Env.{put, put_self, put-ne, ValueKind, ℕ-cases}
use tcvm.Env.Value.{Value, is_nil, of_string, get_kind-of_kind}
use tcvm.Env.Strings.{metamethod_bit_of_bytes}
use tcvm.Env.Shape.{Heap, MetamethodBits, MtCacheData, set_bit, new_cache}
use tcvm.Env.Shape.Valid.{Valid, Grows}
use tcvm.Env.Shape.Growth.{Grows-Has, Grows-Good}
use tcvm.Env.Table.{Context, TableState, get_string_key, raw_get}
use tcvm.Env.Table.Valid.{TableOk}
use tcvm.Env.Table.Reads.{get_string_key_total}
use tcvm.Env.World.{seed_bit, seed_bits}
use tcvm.Env.World.Valid.{Interned, Listed, here, later}

pub raw_get-of_string :
    (c : Context) (h : Heap) (t : TableState) (s : ℕ)
    → raw_get c h t (of_string s) ≡ get_string_key h t s
unfolding raw_get
raw_get-of_string c h t s = rw (raw_get, get_kind-of_kind ValueKind.string s)

-- `t` has something for a string.
abbrev pub Present : Heap → TableState → ℕ → Type 0
Present h t s = (v : Value) × (get_string_key h t s ≡ some v) × (is_nil v ≡ false)

-- The bits that the loop adds to `before`.
pub record Seeded (h : Heap) (t : TableState) (rows : List (ℕ × ℕ)) (before after : MetamethodBits)
    : Type 0 where
  pub keeps : (b : ℕ) → before b ≡ true → after b ≡ true
  pub adds : (s b : ℕ) → Listed s b rows → Present h t s → after b ≡ true
  pub only :
      (b : ℕ) → after b ≡ true → (before b ≡ true) ⊎ ((s : ℕ) × Listed s b rows × Present h t s)

seed_bit-keeps :
    (bit : ℕ) (bits : MetamethodBits) (v : Value) (b : ℕ)
    → bits b ≡ true
    → seed_bit bit bits v b ≡ true
unfolding set_bit put
seed_bit-keeps bit bits v b e = ground arith

seed_bit-adds :
    (bit : ℕ) (bits : MetamethodBits) (v : Value)
    → is_nil v ≡ false
    → seed_bit bit bits v bit ≡ true
unfolding set_bit put
seed_bit-adds bit bits v e = ground arith

seed_bit-only :
    (bit : ℕ) (bits : MetamethodBits) (v : Value) (b : ℕ)
    → seed_bit bit bits v b ≡ true
    → (bits b ≡ true) ⊎ ((b ≡ bit) × (is_nil v ≡ false))
unfolding set_bit put
seed_bit-only bit bits v b e = ground arith

Listed-cons :
    {s b : ℕ} {r : ℕ × ℕ} {rest : List (ℕ × ℕ)}
    → Listed s b (r ∷ rest)
    → (r ≡ (s, b)) ⊎ Listed s b rest
Listed-cons (here e) = inl e
Listed-cons (later l) = inr l

pub seed_bits_lem :
    (c : Context) (h : Heap) (t : TableState) (rows : List (ℕ × ℕ)) (bits : MetamethodBits)
    → Valid h
    → TableOk h t
    → (after : MetamethodBits) × (seed_bits c h t rows bits ≡ some after)
      × Seeded h t rows bits after
unfolding seed_bits
seed_bits_lem c h t [] bits valid ok =
    (bits, refl, record { keeps = λ b e. e; adds = λ s b l p. elim l [ ]; only = λ b e. inl e })
seed_bits_lem c h t ((s, bit) ∷ rows) bits valid ok =
    let (v, got) = get_string_key_total h t s valid ok in
    let (after, eq, sd) = seed_bits_lem c h t rows (seed_bit bit bits v) valid ok in
    (
      after,
      seed_step v (raw_get-of_string c h t s ∙ got) ∙ eq,
      record {
        keeps = λ b e. sd.keeps b (seed_bit-keeps bit bits v b e);
        adds = λ s' b l p. elim (Listed-cons l) [
          | inl same ↦
              let one : s ≡ s' = ap (λ r. r.0) same in
              let bits_same : bit ≡ b = ap (λ r. r.1) same in
              let (v', got', nn) = p in
              let value : v ≡ v' = ground (arith, got, got', ap (get_string_key h t) one) in
              subst (λ x. after x ≡ true) bits_same
                (sd.keeps bit (seed_bit-adds bit bits v (ap is_nil value ∙ nn)))
          | inr l' ↦ sd.adds s' b l' p
        ];
        only = λ b e. elim (sd.only b e) [
          | inl old ↦ elim (seed_bit-only bit bits v b old) [
            | inl before ↦ inl before
            | inr (same, nn) ↦ inr (s, here (ap (λ x. (s, x)) (sym same)), (v, got, nn))
          ]
          | inr (s', l, p) ↦ inr (s', later l, p)
        ];
      },
    )
  where
    seed_step :
        (v : Value)
        → raw_get c h t (of_string s) ≡ some v
        → seed_bits c h t ((s, bit) ∷ rows) bits ≡ seed_bits c h t rows (seed_bit bit bits v)
    seed_step v e = rw (seed_bits, e)

-- The bits of a new cache agree with its table.
pub Seeded-bit :
    (c : Context) (h : Heap) (t : TableState) (bits : MetamethodBits) (s b : ℕ) (v : Value)
    → Interned c
    → Seeded h t c.symbols (λ bit. false) bits
    → metamethod_bit_of_bytes (c.bytes s) ≡ some b
    → get_string_key h t s ≡ some v
    → bits b ≡ not (is_nil v)
Seeded-bit c h t bits s b v known sd e got = elim (Bool-cases (is_nil v)) [
  | inr nn ↦ rw (sd.adds s b (known.symbol s b e) (v, got, nn), nn)
  | inl n ↦ elim (Bool-cases (bits b)) [
    | inr off ↦ rw (off, n)
    | inl on ↦ elim (sd.only b on) [
      | inl before ↦ absurd (ground (arith, before))
      | inr (s', l, (v', got', nn)) ↦
          let one : s' ≡ s = known.one_name s' s b (known.named s' b l) e in
          let value : v ≡ v' = ground (arith, got, got', ap (get_string_key h t) one) in
          absurd (ground (arith, n, nn, value))
    ]
  ]
]

pub new_cache-Grows : (h : Heap) (bits : MetamethodBits) → Grows h ((new_cache bits h).1)
unfolding new_cache
new_cache-Grows h bits = record {
  count = omega arith;
  kept = λ s b. refl;
  caches_count = omega arith;
}

pub new_cache-Valid : (h : Heap) (bits : MetamethodBits) → Valid h → Valid ((new_cache bits h).1)
unfolding new_cache
new_cache-Valid h bits v =
    let grows = new_cache-Grows h bits in
    record {
      shapes_ok = λ s b. Grows-Good grows (v.shapes_ok s b);
      sentinels = λ c s e. elim (ℕ-cases c h.cache_count) [
        | inl same ↦
            let d : MtCacheData = record { bits = bits; dict_sentinel = none } in
            let none_yet : (put h.caches h.cache_count d c).dict_sentinel ≡ none =
              ap (λ (x : MtCacheData). x.dict_sentinel)
                (ap (put h.caches h.cache_count d) same ∙ put_self h.caches h.cache_count d) in
            absurd (ground (arith, e, none_yet))
        | inr ne ↦ Grows-Has grows (
            v.sentinels c s
              (ap (λ (x : MtCacheData). x.dict_sentinel) (sym (put-ne h.caches _ ne)) ∙ e))
      ];
      empty_ok = v.empty_ok;
      empty_dict_ok = v.empty_dict_ok;
    }
