-- ===== src/Env/World/Shapes.antt =====
-- `Table::set_metatable` of src/env/table/mod.rs.
use tcvm.Common.{ℕ, ◌<◌, ◌≡◌, refl, sym, ap, ◌∙◌, arith, inl, inr, Option, none, some}
use tcvm.Common.{Option-cases}
use tcvm.Env.{put, put-all}
use tcvm.Env.Shape.{Heap}
use tcvm.Env.Shape.Valid.{layout, Layout, Grows, Arrives}
use tcvm.Env.Shape.Growth.{Extends-Grows}
use tcvm.Env.Shape.Transitions.{transition_set_metatable_lem}
use tcvm.Env.Table.{Context, TableState, get_string_key}
use tcvm.Env.Table.Valid.{TableOk}
use tcvm.Env.Table.Named.{Grows-TableOk}
use tcvm.Env.World.{World, reshape, set_metatable}
use tcvm.Env.World.Valid.{Interned, Mirrors, Agrees, WorldOk}
use tcvm.Env.World.Writes.{Agrees-Grows, Mirrors-same}
use tcvm.Env.World.Metatables.{ensure_mt_cache_lem}

-- Two shapes with the same keys read the same.
get_string_key-descriptors :
    (h h' : Heap) (t : TableState) (s : ℕ) (mt : Option ℕ) (k : ℕ)
    → (h'.shapes s).descriptors ≡ (h.shapes t.shape).descriptors
    → get_string_key h' (record t { shape = s; metatable = mt }) k ≡ get_string_key h t k
unfolding get_string_key
get_string_key-descriptors h h' t s mt k descs = elim (Option-cases t.dict) [
  | inr (m, e) ↦ rw (get_string_key, e)
  | inl e ↦ rw (get_string_key, e, descs)
]

reshape-WorldOk :
    (c : Context) (w : World) (i : ℕ) (mt cache : Option ℕ) (s : ℕ) (h' : Heap)
    → WorldOk c w
    → i < w.table_count
    → Mirrors w mt cache
    → Arrives w.heap
        (record (layout ((w.heap).shapes ((w.tables i).shape))) { mt_cache = cache })
        (s, h')
    → WorldOk c (reshape i mt w (s, h'))
reshape-WorldOk c w i mt cache s h' ok b mirror (v', ext, (in_heap, lay)) = record {
  valid = v';
  tables_ok =
      put-all (λ j u. j < w.table_count → TableOk h' u) w.tables i t' (λ below. reshaped)
        (λ j ne below. Grows-TableOk grows (ok.tables_ok j below));
  mirrored =
      put-all (λ j u. j < w.table_count → Mirrors w' u.metatable (h'.shapes u.shape).mt_cache)
        w.tables i t'
        (λ below.
          Mirrors-same w w' mt _ _ (omega arith) keeps (ap (λ (l : Layout). l.mt_cache) lay) mirror)
        (λ j ne below.
          Mirrors-same w w' _ _ _ (omega arith) keeps
            (ap (λ (l : Layout). l.mt_cache)
              (grows.kept ((w.tables j).shape) ((ok.tables_ok j below).shape_in)))
            (ok.mirrored j below));
  allocated = λ j e below own.
      let old = ok.allocated j e below (sym (same_caches j) ∙ own) in
      omega (arith, grows.caches_count, old);
  agree =
      put-all (λ j u. (e : ℕ) → j < w.table_count → u.mt_cache ≡ some e → Agrees c h' u e) w.tables
        i t'
        (λ e below own k bit v known got.
          ext.bits_kept e bit ∙ ok.agree i e b own k bit v known (sym (same_reads k) ∙ got))
        (λ j ne e below own.
          Agrees-Grows c w.heap h' (w.tables j) e grows ((ok.tables_ok j below).shape_in)
            (ext.bits_kept e) (ok.agree j e below own));
  owned = λ j k e bj bk own_j own_k.
      ok.owned j k e bj bk (sym (same_caches j) ∙ own_j) (sym (same_caches k) ∙ own_k);
}
  where
    grows : Grows w.heap h'
    grows = Extends-Grows ext

    t : TableState
    t = w.tables i

    t' : TableState
    t' = record t { shape = s; metatable = mt }

    w' : World
    w' = reshape i mt w (s, h')

    same_reads : (k : ℕ) → get_string_key h' t' k ≡ get_string_key w.heap t k
    same_reads k =
        get_string_key-descriptors w.heap h' t s mt k (ap (λ (l : Layout). l.descriptors) lay)

    reshaped : TableOk h' t'
    reshaped =
        let tok = ok.tables_ok i b in
        record {
          shape_in = in_heap;
          fast = λ e. ap (λ (l : Layout). l.is_dict) lay ∙ tok.fast e;
          counted = λ e. tok.counted e ∙ sym (ap (λ (l : Layout). l.slot_count) lay);
          slow = λ m e. ap (λ (l : Layout). l.is_dict) lay ∙ tok.slow m e;
          plain = tok.plain;
        }

    same_caches : (j : ℕ) → (put w.tables i t' j).mt_cache ≡ (w.tables j).mt_cache
    same_caches =
        put-all (λ j u. u.mt_cache ≡ (w.tables j).mt_cache) w.tables i t' refl (λ j ne. refl)

    keeps :
        (m e : ℕ)
        → m < w.table_count
        → (w.tables m).mt_cache ≡ some e
        → (w'.tables m).mt_cache ≡ some e
    keeps m e below own = same_caches m ∙ own

-- The metatable, if there is one, is a table.
abbrev pub Exists : World → Option ℕ → Type 0
Exists w none = Unit
Exists w (some m) = m < w.table_count

-- `Table::set_metatable` ends, and keeps the runtime in order.
pub set_metatable_lem :
    (c : Context) (i : ℕ) (mt : Option ℕ) (w : World)
    → Interned c
    → WorldOk c w
    → i < w.table_count
    → Exists w mt
    → (w' : World) × (set_metatable c i mt w ≡ some w') × WorldOk c w'
unfolding set_metatable
set_metatable_lem c i none w known ok b ex = (
  _,
  refl,
  reshape-WorldOk c w i none none _ _ ok b refl (
      transition_set_metatable_lem w.heap ((w.tables i).shape) none ok.valid
        ((ok.tables_ok i b).shape_in)),
)
set_metatable_lem c i (some m) w known ok b ex =
    let (cache, w', eq, ad) = ensure_mt_cache_lem c m w known ok ex in
    let b' : i < w'.table_count = omega (arith, ad.count) in
    let m_in : m < w'.table_count = omega (arith, ad.count) in
    let arrives =
      transition_set_metatable_lem w'.heap ((w'.tables i).shape) (some cache) (ad.ok.valid)
        ((ad.ok.tables_ok i b').shape_in) in
    (
      _,
      rw (set_metatable, eq),
      reshape-WorldOk c w' i (some m) (some cache) _ _ ad.ok b' (m_in, cache, ad.own, refl) arrives,
    )
