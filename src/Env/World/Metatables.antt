-- ===== src/Env/World/Metatables.antt =====
-- `Table::ensure_mt_cache` of src/env/table/mod.rs.
use tcvm.Common.{ℕ, suc, ◌<◌, ◌≡◌, ◌⊎◌, refl, sym, ap, ◌∙◌, subst, arith, inl, inr, false, none}
use tcvm.Common.{some, Option-cases}
use tcvm.Env.{put, put-all, put_self, put-ne, ℕ-cases}
use tcvm.Env.Shape.{Heap, MetamethodBits, MtCacheData, new_cache}
use tcvm.Env.Shape.Valid.{Grows}
use tcvm.Env.Table.{Context, TableState, get_string_key}
use tcvm.Env.Table.Valid.{TableOk}
use tcvm.Env.Table.Named.{Grows-TableOk, get_string_key-Grows}
use tcvm.Env.World.{World, seed_bits, adopt, ensure_mt_cache}
use tcvm.Env.World.Valid.{Interned, Mirrors, Agrees, WorldOk}
use tcvm.Env.World.Writes.{Agrees-Grows, Mirrors-same}
use tcvm.Env.World.Seeds.{Seeded, seed_bits_lem, Seeded-bit, new_cache-Grows, new_cache-Valid}

-- `w'` is in order and differs from `w` in the cache of `m` alone.
pub record Adopted (c : Context) (w w' : World) (m cache : ℕ) : Type 0 where
  pub ok : WorldOk c w'
  pub count : w'.table_count ≡ w.table_count
  pub own : (w'.tables m).mt_cache ≡ some cache

adopt-WorldOk :
    (c : Context) (w : World) (m : ℕ) (bits : MetamethodBits)
    → Interned c
    → WorldOk c w
    → m < w.table_count
    → (w.tables m).mt_cache ≡ none
    → Seeded w.heap (w.tables m) c.symbols (λ bit. false) bits
    → Adopted c w ((adopt w m (new_cache bits w.heap)).1) m (w.heap).cache_count
unfolding new_cache get_string_key
adopt-WorldOk c w m bits known ok b no_cache sd = record {
  ok = record {
    valid = new_cache-Valid h bits ok.valid;
    tables_ok =
        put-all (λ j t. j < w.table_count → TableOk h' t) w.tables m t'
          (λ below. TableOk-cache (Grows-TableOk grows (ok.tables_ok m b)))
          (λ j ne below. Grows-TableOk grows (ok.tables_ok j below));
    mirrored =
        put-all (λ j t. j < w.table_count → Mirrors w' t.metatable (h'.shapes t.shape).mt_cache)
          w.tables m t'
          (λ below. Mirrors-same w w' _ _ _ (omega arith) keeps refl (ok.mirrored m b))
          (λ j ne below. Mirrors-same w w' _ _ _ (omega arith) keeps refl (ok.mirrored j below));
    allocated =
        put-all (λ j t. (e : ℕ) → j < w.table_count → t.mt_cache ≡ some e → e < suc cache) w.tables
          m t' (λ e below own. ground (arith, own))
          (λ j ne e below own. omega (arith, ok.allocated j e below own));
    agree =
        put-all (λ j t. (e : ℕ) → j < w.table_count → t.mt_cache ≡ some e → Agrees c h' t e)
          w.tables m t' (λ e below own. subst (Agrees c h' t') (ground (arith, own)) agrees)
          (λ j ne e below own.
            let old = ok.allocated j e below own in
            Agrees-Grows c h h' (w.tables j) e grows ((ok.tables_ok j below).shape_in)
              (λ bit. ap (λ (x : MtCacheData). x.bits bit) (put-ne h.caches _ (omega arith)))
              (ok.agree j e below own));
    owned =
        λ j k e bj bk own_j own_k. one_owner j k e bj bk (whose j e bj own_j) (whose k e bk own_k);
  };
  count = refl;
  own = ap (λ (t : TableState). t.mt_cache) (put_self w.tables m t');
}
  where
    h : Heap
    h = w.heap

    cache : ℕ
    cache = h.cache_count

    h' : Heap
    h' = (new_cache bits h).1

    grows : Grows h h'
    grows = new_cache-Grows h bits

    t' : TableState
    t' = record (w.tables m) { mt_cache = some cache }

    w' : World
    w' = record w { heap = h'; tables = put w.tables m t' }

    TableOk-cache : TableOk h' (w.tables m) → TableOk h' t'
    TableOk-cache tok = record {
      shape_in = tok.shape_in;
      fast = tok.fast;
      counted = tok.counted;
      slow = tok.slow;
      plain = tok.plain;
    }

    keeps :
        (k e : ℕ)
        → k < w.table_count
        → (w.tables k).mt_cache ≡ some e
        → (w'.tables k).mt_cache ≡ some e
    keeps k e below own = elim (ℕ-cases k m) [
      | inl same ↦ absurd (ground (arith, no_cache, own, ap (λ i. (w.tables i).mt_cache) same))
      | inr ne ↦ ap (λ (t : TableState). t.mt_cache) (put-ne w.tables t' ne) ∙ own
    ]

    agrees : Agrees c h' t' cache
    agrees s bit v e got =
        ap (λ (x : MtCacheData). x.bits bit) (put_self h.caches cache _)
        ∙ Seeded-bit c h (w.tables m) bits s bit v known sd e (
            sym (get_string_key-Grows h h' (w.tables m) s grows ((ok.tables_ok m b).shape_in))
            ∙ got)

    whose :
        (j e : ℕ)
        → j < w.table_count
        → (w'.tables j).mt_cache ≡ some e
        → ((j ≡ m) × (e ≡ cache)) ⊎ ((w.tables j).mt_cache ≡ some e)
    whose j e below own = elim (ℕ-cases j m) [
      | inl same ↦
          let here : (put w.tables m t' j).mt_cache ≡ some cache =
            ap (λ (t : TableState). t.mt_cache)
              (ap (put w.tables m t') same ∙ put_self w.tables m t') in
          inl (same, ground (arith, here, own))
      | inr ne ↦ inr (ap (λ (t : TableState). t.mt_cache) (sym (put-ne w.tables t' ne)) ∙ own)
    ]

    one_owner :
        (j k e : ℕ)
        → j < w.table_count
        → k < w.table_count
        → ((j ≡ m) × (e ≡ cache)) ⊎ ((w.tables j).mt_cache ≡ some e)
        → ((k ≡ m) × (e ≡ cache)) ⊎ ((w.tables k).mt_cache ≡ some e)
        → j ≡ k
    one_owner j k e bj bk (inl (p, q)) (inl (p', q')) = omega arith
    one_owner j k e bj bk (inl (p, q)) (inr own_k) =
        let old = ok.allocated k e bk own_k in absurd (omega (arith, q))
    one_owner j k e bj bk (inr own_j) (inl (p, q)) =
        let old = ok.allocated j e bj own_j in absurd (omega (arith, q))
    one_owner j k e bj bk (inr own_j) (inr own_k) = ok.owned j k e bj bk own_j own_k

pub ensure_mt_cache_lem :
    (c : Context) (m : ℕ) (w : World)
    → Interned c
    → WorldOk c w
    → m < w.table_count
    → (cache : ℕ) × (w' : World) × (ensure_mt_cache c m w ≡ some (cache, w'))
      × Adopted c w w' m cache
unfolding ensure_mt_cache
ensure_mt_cache_lem c m w known ok b = elim (Option-cases ((w.tables m).mt_cache)) [
  | inr (cache, e) ↦ (cache, w, rw (ensure_mt_cache, e), record { ok = ok; count = refl; own = e })
  | inl e ↦
      let (bits, eq, sd) =
        seed_bits_lem c w.heap (w.tables m) c.symbols (λ bit. false) ok.valid (ok.tables_ok m b) in
      (_, _, by_bits bits e eq, adopt-WorldOk c w m bits known ok b e sd)
]
  where
    by_bits :
        (bits : MetamethodBits)
        → (w.tables m).mt_cache ≡ none
        → seed_bits c w.heap (w.tables m) c.symbols (λ bit. false) ≡ some bits
        → ensure_mt_cache c m w ≡ some (adopt w m (new_cache bits w.heap))
    by_bits bits e eq = rw (ensure_mt_cache, e, eq)
