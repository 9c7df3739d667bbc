-- ===== src/Env/Shape/Transitions.antt =====
-- The transitions between shapes of src/env/shape/mod.rs.
use tcvm.Common.{ℕ, ◌<◌, ◌≡◌, refl, sym, ap, ◌∙◌, arith, Bool, true, false, Option, none, some}
use tcvm.Common.{if◌then◌else◌, subst}
use tcvm.Env.Shape.{max_properties_fast, set_sentinel, dict_sentinel_of, prop_child, mt_sibling}
use tcvm.Env.Shape.{sentinel_for, ShapeData, Heap, find_slot, alloc_shape, put_prop, put_mt}
use tcvm.Env.Shape.{upgrade, transition_add_prop, transition_set_metatable, ensure_dict_sentinel}
use tcvm.Env.{put_self}
use tcvm.Env.Shape.Valid.{layout, grown, with_mt, dictionary, Has, Valid, Arrives}
use tcvm.Env.Shape.Growth.{alloc_shape-Arrives}
use tcvm.Env.Shape.Edges.{put_prop-Arrives, put_mt-Arrives, set_sentinel-Arrives, upgrade_found}
use tcvm.Env.Shape.Edges.{Arrives-trans, Arrives-here, fresh-Good, grown-Ok, with_mt-Ok}
use tcvm.Env.Shape.Edges.{dictionary-Ok}

-- For a key that `parent` does not have, below the limit of slots, `transition_add_prop` reaches the
-- layout of `parent` with the key behind it, be the child an old one or a new one; the shapes stay
-- valid, no layout changes, and no bit of a cache.
pub transition_add_prop_lem :
    (h : Heap) (parent key : ℕ)
    → Valid h
    → parent < h.shape_count
    → find_slot (h.shapes parent).descriptors key ≡ none
    → (h.shapes parent).slot_count < max_properties_fast
    → Arrives h (grown key (layout (h.shapes parent))) (transition_add_prop parent key h)
unfolding transition_add_prop alloc_shape prop_child
transition_add_prop_lem h parent key v b absent room = by_edge _ refl
  where
    by_edge :
        (o : Option ℕ)
        → upgrade h ((h.shapes parent).transitions.by_prop key) ≡ o
        → Arrives h (grown key (layout (h.shapes parent))) (elim o [
          | some child ↦ (child, h)
          | none ↦ put_prop parent key (alloc_shape (prop_child h parent key) h)
        ])
    by_edge (some child) e =
        Arrives-here child v
          ((v.shapes_ok parent b).prop_edges key child (upgrade_found h _ child e))
    by_edge none e =
        let d = h.shapes parent in
        let good =
          fresh-Good h (prop_child h parent key)
            (grown-Ok (layout d) key ((v.shapes_ok parent b).ok) absent room) (λ k. refl)
            (λ m. refl) in
        let (v', ext, has) = alloc_shape-Arrives h (prop_child h parent key) v good in
        let h' = (alloc_shape (prop_child h parent key) h).1 in
        let same = ext.kept parent b in
        let has' = subst (λ l. Has h' h.shape_count (grown key l)) (sym same) has in
        let r = put_prop-Arrives h' parent key h.shape_count v' (omega arith) has' in
        Arrives-trans ext
          (subst (λ l. Arrives h' (grown key l) (put_prop parent key (h.shape_count, h'))) same r)

-- `MtCache::ensure_dict_sentinel` reaches the shape of dictionaries for the cache.
pub ensure_dict_sentinel_lem :
    (h : Heap) (c : ℕ) → Valid h → Arrives h (dictionary (some c)) (ensure_dict_sentinel c h)
unfolding ensure_dict_sentinel alloc_shape dict_sentinel_of
ensure_dict_sentinel_lem h c v = by_cached _ refl
  where
    by_cached :
        (o : Option ℕ)
        → (h.caches c).dict_sentinel ≡ o
        → Arrives h (dictionary (some c)) (elim o [
          | some s ↦ (s, h)
          | none ↦ set_sentinel c (alloc_shape (dict_sentinel_of (some c)) h)
        ])
    by_cached (some s) e = Arrives-here s v (v.sentinels c s e)
    by_cached none e =
        let good =
          fresh-Good h (dict_sentinel_of (some c)) (dictionary-Ok (some c)) (λ k. refl)
            (λ m. refl) in
        let (v', ext, has) = alloc_shape-Arrives h (dict_sentinel_of (some c)) v good in
        Arrives-trans ext (set_sentinel-Arrives _ c h.shape_count v' has)

pub sentinel_for-Arrives :
    (h : Heap) (mt : Option ℕ) → Valid h → Arrives h (dictionary mt) (sentinel_for mt h)
sentinel_for-Arrives h none v = Arrives-here h.empty_dict_sentinel v v.empty_dict_ok
sentinel_for-Arrives h (some c) v = ensure_dict_sentinel_lem h c v

-- `transition_set_metatable` reaches the layout of `parent` under the new metatable.
pub transition_set_metatable_lem :
    (h : Heap) (parent : ℕ) (mt : Option ℕ)
    → Valid h
    → parent < h.shape_count
    → Arrives h
        (record (layout (h.shapes parent)) { mt_cache = mt })
        (transition_set_metatable parent mt h)
unfolding transition_set_metatable alloc_shape mt_sibling
transition_set_metatable_lem h parent mt v b = by_mode _ refl
  where
    d : ShapeData
    d = h.shapes parent

    by_edge :
        (o : Option ℕ)
        → upgrade h (d.transitions.by_mt mt) ≡ o
        → Arrives h (with_mt mt (layout d)) (elim o [
          | some child ↦ (child, h)
          | none ↦ put_mt parent mt (alloc_shape (mt_sibling h parent mt) h)
        ])
    by_edge (some child) e =
        Arrives-here child v ((v.shapes_ok parent b).mt_edges mt child (upgrade_found h _ child e))
    by_edge none e =
        let good =
          fresh-Good h (mt_sibling h parent mt)
            (with_mt-Ok (layout d) mt ((v.shapes_ok parent b).ok)) (λ k. refl) (λ m. refl) in
        let (v', ext, has) = alloc_shape-Arrives h (mt_sibling h parent mt) v good in
        let h' = (alloc_shape (mt_sibling h parent mt) h).1 in
        let same = ext.kept parent b in
        let has' = subst (λ l. Has h' h.shape_count (with_mt mt l)) (sym same) has in
        let r = put_mt-Arrives h' parent mt h.shape_count v' (omega arith) has' in
        Arrives-trans ext
          (subst (λ l. Arrives h' (with_mt mt l) (put_mt parent mt (h.shape_count, h'))) same r)

    by_mode :
        (m : Bool)
        → d.is_dict ≡ m
        → Arrives h
            (record (layout d) { mt_cache = mt })
            (if m then sentinel_for mt h else elim (upgrade h (d.transitions.by_mt mt)) [
              | some child ↦ (child, h)
              | none ↦ put_mt parent mt (alloc_shape (mt_sibling h parent mt) h)
            ])
    by_mode true e =
        let flat : layout d ≡ dictionary d.mt_cache = (v.shapes_ok parent b).ok.dict_empty e in
        subst (λ l. Arrives h (record l { mt_cache = mt }) (sentinel_for mt h)) (sym flat)
          (sentinel_for-Arrives h mt v)
    by_mode false e =
        subst
          (λ m.
            Arrives h (record (with_mt mt (layout d)) { is_dict = m })
              (elim (upgrade h (d.transitions.by_mt mt)) [
                | some child ↦ (child, h)
                | none ↦ put_mt parent mt (alloc_shape (mt_sibling h parent mt) h)
              ]))
          (sym e) (by_edge _ refl)

found_again : (h : Heap) (s : ℕ) → h.freed s ≡ false → upgrade h (some s) ≡ some s
unfolding upgrade
found_again h s e = rw (upgrade, e)

reused :
    (h : Heap) (parent key s : ℕ)
    → upgrade h ((h.shapes parent).transitions.by_prop key) ≡ some s
    → transition_add_prop parent key h ≡ (s, h)
unfolding transition_add_prop
reused h parent key s e = rw (transition_add_prop, e)

edge_there :
    (h : Heap) (parent key s : ℕ)
    → ((put_prop parent key (s, h)).1.shapes parent).transitions.by_prop key ≡ some s
unfolding put_prop
edge_there h parent key s =
    ap (λ (d : ShapeData). d.transitions.by_prop key) (put_self h.shapes parent _)
    ∙ put_self ((h.shapes parent).transitions.by_prop) key (some s)

abbrev Again : ℕ → ℕ → ℕ × Heap → Type 0
Again parent key (s, h) = h.freed s ≡ false → transition_add_prop parent key h ≡ (s, h)

-- Adding the same key to the same shape a second time returns the shape of the first time, unless
-- that was freed, and allocates nothing.
pub transition_add_prop-again :
    (h : Heap) (parent key : ℕ)
    → (transition_add_prop parent key h).1.freed ((transition_add_prop parent key h).0) ≡ false
    → transition_add_prop parent key ((transition_add_prop parent key h).1)
      ≡ transition_add_prop parent key h
unfolding transition_add_prop put_prop
transition_add_prop-again h parent key = by_edge _ refl
  where
    by_edge :
        (o : Option ℕ)
        → upgrade h ((h.shapes parent).transitions.by_prop key) ≡ o
        → Again parent key (elim o [
          | some child ↦ (child, h)
          | none ↦ put_prop parent key (alloc_shape (prop_child h parent key) h)
        ])
    by_edge (some child) e alive = reused h parent key child e
    by_edge none e alive =
        let (s, h1) = alloc_shape (prop_child h parent key) h in
        let h' = (put_prop parent key (s, h1)).1 in
        let kept = found_again h' s alive in
        reused h' parent key s (ap (upgrade h') (edge_there h1 parent key s) ∙ kept)
