-- ===== src/Env/World/Writes.antt =====
-- `Table::raw_set` of src/env/table/mod.rs.
use tcvm.Common.{ℕ, ◌≤◌, ◌<◌, ◌≡◌, ◌≢◌, refl, sym, ap, ◌∙◌, subst, arith, inl, inr, ◌==◌, Bool}
use tcvm.Common.{true, false, Option, none, some, if◌then◌else◌, Option-cases}
use tcvm.Env.{put, put-all, ℕ-cases}
use tcvm.Env.Table.Reads.{get_string_key_total}
use tcvm.Env.Value.{Value, is_nil, get_string}
use tcvm.Env.Strings.{metamethod_bit_of_bytes}
use tcvm.Env.Shape.{Heap}
use tcvm.Env.Shape.Valid.{Layout, Grows}
use tcvm.Env.Table.{Context, TableState, array_index, get_string_key}
use tcvm.Env.Table.Valid.{TableOk, Plain}
use tcvm.Env.Table.Bits.{metamethod_bit, noted, is}
use tcvm.Env.Table.Places.{named, place, same_place, Wrote}
use tcvm.Env.Table.Named.{Grows-TableOk, get_string_key-Grows}
use tcvm.Env.Table.Whole.{Fits, raw_set_lem}
use tcvm.Env.World.{World, table_raw_set}
use tcvm.Env.World.Valid.{Interned, Mirrors, Agrees, WorldOk}

-- The key of a write names the metamethod of a bit exactly if it is that string.
is_name :
    (c : Context) (k s b : ℕ)
    → Interned c
    → metamethod_bit_of_bytes (c.bytes s) ≡ some b
    → is (metamethod_bit_of_bytes (c.bytes k)) b ≡ (s == k)
is_name c k s b known e = elim (ℕ-cases s k) [
  | inl same ↦
      let here : metamethod_bit_of_bytes (c.bytes k) ≡ some b =
        ap (λ x. metamethod_bit_of_bytes (c.bytes x)) (sym same) ∙ e in
      rw here (ground arith)
  | inr ne ↦ elim (Option-cases (metamethod_bit_of_bytes (c.bytes k))) [
    | inl f ↦ rw f (ground arith)
    | inr (b', f) ↦
        let apart : b' ≢ b = λ q. ne (known.one_name s k b e (f ∙ ap some q)) in rw f (ground arith)
  ]
]

named_bit :
    (c : Context) (key : Value) (s b : ℕ)
    → Interned c
    → metamethod_bit_of_bytes (c.bytes s) ≡ some b
    → is (metamethod_bit c key) b ≡ same_place (named s) (place c key)
unfolding metamethod_bit place
named_bit c key s b known e = elim (Option-cases (get_string key)) [
  | inl f ↦ elim (Option-cases (array_index c key)) [
    | inl g ↦ rw (metamethod_bit, place, f, g)
    | inr (i, g) ↦ rw (metamethod_bit, place, f, g)
  ]
  | inr (k, f) ↦ rw (metamethod_bit, place, f) (is_name c k s b known e)
]

-- The cache of the written table follows the write.
Wrote-Agrees :
    (c : Context) (h : Heap) (t : TableState) (key value : Value) (t' : TableState) (h' : Heap)
    (cache : ℕ)
    → Interned c
    → Wrote c h t (place c key) key value t' h'
    → t.mt_cache ≡ some cache
    → Agrees c h t cache
    → ((s : ℕ) → (v : Value) × (get_string_key h t s ≡ some v))
    → Agrees c h' t' cache
Wrote-Agrees c h t key value t' h' cache known wr own agree total s b v e got =
    let (old, before) = total s in
    let hit = named_bit c key s b known e in
    let own_here : is t.mt_cache cache ≡ true = rw own (ground arith) in
    let was = agree s b old e before in
    let reads : some v
        ≡ (if same_place (named s) (place c key) then some value else get_string_key h t s) =
      sym got ∙ wr.reads (named s) in
    wr.bits cache b ∙ ground (arith, hit, own_here, was, reads, before)

-- A table whose cache is not written stays in agreement with it.
pub Agrees-Grows :
    (c : Context) (h h' : Heap) (t : TableState) (cache : ℕ)
    → Grows h h'
    → t.shape < h.shape_count
    → ((b : ℕ) → (h'.caches cache).bits b ≡ (h.caches cache).bits b)
    → Agrees c h t cache
    → Agrees c h' t cache
Agrees-Grows c h h' t cache grows b kept agree s bit v e got =
    kept bit ∙ agree s bit v e (sym (get_string_key-Grows h h' t s grows b) ∙ got)

pub Mirrors-same :
    (w w' : World) (o mt mt' : Option ℕ)
    → w.table_count ≤ w'.table_count
    → ((m cache : ℕ)
        → m < w.table_count
        → (w.tables m).mt_cache ≡ some cache
        → (w'.tables m).mt_cache ≡ some cache)
    → mt' ≡ mt
    → Mirrors w o mt
    → Mirrors w' o mt'
Mirrors-same w w' none mt mt' count same e mirror = e ∙ mirror
Mirrors-same w w' (some m) mt mt' count same e (b, cache, own, is_mt) =
    (omega arith, cache, same m cache b own, e ∙ is_mt)

unnoted_other :
    (c : Context) (own : Option ℕ) (key value : Value) (cache b : ℕ) (old : Bool)
    → own ≢ some cache
    → noted c own key value cache b old ≡ old
unnoted_other c none key value cache b old ne = refl
unnoted_other c (some own) key value cache b old ne =
    let apart : (cache == own) ≡ false = ground (arith, ne) in rw apart

Wrote-WorldOk :
    (c : Context) (w : World) (i : ℕ) (key value : Value) (t' : TableState) (h' : Heap)
    → Interned c
    → WorldOk c w
    → i < w.table_count
    → Wrote c w.heap (w.tables i) (place c key) key value t' h'
    → WorldOk c (record w { heap = h'; tables = put w.tables i t' })
Wrote-WorldOk c w i key value t' h' known ok b wr = record {
  valid = wr.valid;
  tables_ok =
      put-all (λ j t. j < w.table_count → TableOk h' t) w.tables i t' (λ below. wr.table_ok)
        (λ j ne below. Grows-TableOk wr.grows (ok.tables_ok j below));
  mirrored =
      put-all (λ j t. j < w.table_count → Mirrors w' t.metatable (h'.shapes t.shape).mt_cache)
        w.tables i t'
        (λ below.
          subst (λ m. Mirrors w' m (h'.shapes t'.shape).mt_cache) (sym wr.same_metatable)
            (Mirrors-same w w' _ _ _ (omega arith) keeps wr.same_mt (ok.mirrored i b)))
        (λ j ne below.
          Mirrors-same w w' _ _ _ (omega arith) keeps
            (ap (λ (l : Layout). l.mt_cache)
              (wr.grows.kept ((w.tables j).shape) ((ok.tables_ok j below).shape_in)))
            (ok.mirrored j below));
  allocated = λ j cache below own.
      let old = ok.allocated j cache below (sym (same_caches j) ∙ own) in
      omega (arith, wr.grows.caches_count, old);
  agree =
      put-all
        (λ j t. (cache : ℕ) → j < w.table_count → t.mt_cache ≡ some cache → Agrees c h' t cache)
        w.tables i t'
        (λ cache below own.
          let before = sym wr.same_cache ∙ own in
          Wrote-Agrees c w.heap (w.tables i) key value t' h' cache known wr before
            (ok.agree i cache b before)
            (λ s. get_string_key_total w.heap (w.tables i) s ok.valid (ok.tables_ok i b)))
        (λ j ne cache below own.
          Agrees-Grows c w.heap h' (w.tables j) cache wr.grows ((ok.tables_ok j below).shape_in)
            (λ bit.
              wr.bits cache bit
              ∙ unnoted_other c ((w.tables i).mt_cache) key value cache bit _
                  (λ same. ne (ok.owned j i cache below b own same)))
            (ok.agree j cache below own));
  owned = λ j k cache bj bk own_j own_k.
      ok.owned j k cache bj bk (sym (same_caches j) ∙ own_j) (sym (same_caches k) ∙ own_k);
}
  where
    w' : World
    w' = record w { heap = h'; tables = put w.tables i t' }

    same_caches : (j : ℕ) → (put w.tables i t' j).mt_cache ≡ (w.tables j).mt_cache
    same_caches =
        put-all (λ j t. t.mt_cache ≡ (w.tables j).mt_cache) w.tables i t' wr.same_cache
          (λ j ne. refl)

    keeps :
        (m cache : ℕ)
        → m < w.table_count
        → (w.tables m).mt_cache ≡ some cache
        → (w'.tables m).mt_cache ≡ some cache
    keeps m cache below own = same_caches m ∙ own

-- `Table::raw_set` on a table of the runtime ends, and keeps the runtime in order.
pub table_raw_set_lem :
    (c : Context) (i : ℕ) (key value : Value) (w : World)
    → Interned c
    → WorldOk c w
    → i < w.table_count
    → Plain value
    → is_nil key ≡ false
    → Fits c (w.tables i) key
    → (w' : World) × (table_raw_set c i key value w ≡ some w') × WorldOk c w'
unfolding table_raw_set
table_raw_set_lem c i key value w known ok b plain nn fits =
    let (t', h', eq, wr) =
      raw_set_lem c w.heap (w.tables i) key value ok.valid (ok.tables_ok i b) plain nn fits in
    (_, rw eq, Wrote-WorldOk c w i key value t' h' known ok b wr)
