-- ===== src/Env/Table/Named.antt =====
-- The write of a string key, with the bit that goes with it.
use tcvm.Common.{ℕ, zero, suc, ◌<◌, ◌≡◌, refl, sym, ap, ◌∙◌, subst, arith, inl, inr, some}
use tcvm.Common.{if◌then◌else◌, get_elem?, Option-cases}
use tcvm.Env.Value.{Value, of_string}
use tcvm.Env.Shape.{Heap}
use tcvm.Env.Shape.Valid.{layout, Layout, Good, Valid, Grows}
use tcvm.Env.Shape.Growth.{Extends-Grows, Grows-Has, Grows-Good}
use tcvm.Env.Table.{Context, TableState, misc_hash_get, or_nil, get_string_key}
use tcvm.Env.Table.{maybe_update_mt_bit}
use tcvm.Env.Table.Valid.{TableOk}
use tcvm.Env.Table.Bits.{BitsOnly, maybe_update_mt_bit_lem, noted}
use tcvm.Env.Table.Reads.{Stored}
use tcvm.Env.Table.Places.{Place, named, element, other, same_place, read, Wrote}

pub BitsOnly-Grows : {h h' : Heap} → BitsOnly h h' → Grows h h'
BitsOnly-Grows b = record {
  count = omega (arith, b.count);
  kept = λ s below. ap (λ f. layout (f s)) b.shapes;
  caches_count = omega (arith, b.cache_count);
}

pub BitsOnly-Valid : {h h' : Heap} → BitsOnly h h' → Valid h → Valid h'
BitsOnly-Valid {h' = h'} b v =
    let grows = BitsOnly-Grows b in
    record {
      shapes_ok = λ s below.
          subst (Good h') (ap (λ f. f s) (sym b.shapes))
            (Grows-Good grows (v.shapes_ok s (omega (arith, b.count))));
      sentinels = λ c s e. Grows-Has grows (v.sentinels c s (sym (b.sentinels c) ∙ e));
      empty_ok = rw b.empty (Grows-Has grows v.empty_ok);
      empty_dict_ok = rw b.empty_dict (Grows-Has grows v.empty_dict_ok);
    }

pub Grows-TableOk : {h h' : Heap} {t : TableState} → Grows h h' → TableOk h t → TableOk h' t
Grows-TableOk {t = t} g ok =
    let lay = g.kept t.shape ok.shape_in in
    record {
      shape_in = omega (arith, g.count, ok.shape_in);
      fast = λ e. ap (λ (l : Layout). l.is_dict) lay ∙ ok.fast e;
      counted = λ e. ok.counted e ∙ sym (ap (λ (l : Layout). l.slot_count) lay);
      slow = λ m e. ap (λ (l : Layout). l.is_dict) lay ∙ ok.slow m e;
      plain = ok.plain;
    }

-- A table that is not written reads the same.
pub get_string_key-Grows :
    (h h' : Heap) (t : TableState) (k : ℕ)
    → Grows h h'
    → t.shape < h.shape_count
    → get_string_key h' t k ≡ get_string_key h t k
unfolding get_string_key
get_string_key-Grows h h' t k g b =
    let descs = ap (λ (l : Layout). l.descriptors) (g.kept t.shape b) in
    elim (Option-cases t.dict) [
      | inr (m, e) ↦ rw (get_string_key, e)
      | inl e ↦ rw (get_string_key, e, descs)
    ]

pub Grows-trans : {h h1 h' : Heap} → Grows h h1 → Grows h1 h' → Grows h h'
Grows-trans e f = record {
  count = omega (arith, e.count, f.count);
  kept = λ s b. f.kept s (omega (arith, e.count)) ∙ e.kept s b;
  caches_count = omega (arith, e.caches_count, f.caches_count);
}

-- The end of a write to a string key.
pub Stored-Wrote :
    (c : Context) (h : Heap) (t : TableState) (s : ℕ) (value : Value) (t' : TableState) (h1 : Heap)
    → Stored h t s value t' h1
    → Wrote c h t (named s) (of_string s) value t' (maybe_update_mt_bit c t' (of_string s) value h1)
unfolding misc_hash_get
Stored-Wrote c h t s value t' h1 st =
    let (only, noted_bits) = maybe_update_mt_bit_lem c t' (of_string s) value h1 in
    let grows = BitsOnly-Grows only in
    record {
      valid = BitsOnly-Valid only st.valid;
      grows = Grows-trans (Extends-Grows st.extends) grows;
      table_ok = Grows-TableOk grows st.table_ok;
      reads = reads;
      same_mt = ap (λ f. (f t'.shape).mt_cache) only.shapes ∙ st.same_mt;
      same_cache = st.same_cache;
      same_metatable = st.same_metatable;
      bits = λ i b.
          noted_bits i b
          ∙ ap (λ m. noted c m (of_string s) value i b ((h1.caches i).bits b)) st.same_cache
          ∙ ap (noted c t.mt_cache (of_string s) value i b) (st.extends.bits_kept i b);
    }
  where
    h2 : Heap
    h2 = maybe_update_mt_bit c t' (of_string s) value h1

    grown : Grows h1 h2
    grown = BitsOnly-Grows ((maybe_update_mt_bit_lem c t' (of_string s) value h1).0)

    reads : (p : Place) → read h2 t' p ≡ (if same_place p (named s) then some value else read h t p)
    reads (named k) = get_string_key-Grows h1 h2 t' k grown st.table_ok.shape_in ∙ st.reads k
    reads (element zero) = refl
    reads (element (suc i)) = ap (λ a. some (or_nil (get_elem? a i))) st.same_array
    reads (other k) = ap (λ m. some (or_nil (m k))) st.same_misc
