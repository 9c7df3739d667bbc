-- ===== src/Env/Shape/Edges.antt =====
-- The writes of edges and of sentinels in src/env/shape/mod.rs, and the layouts of new shapes.
use tcvm.Common.{ℕ, ◌+◌, ◌<◌, ◌≡◌, refl, sym, ap, ◌∙◌, arith, true, inl, inr, length-append}
use tcvm.Common.{Option, none, some, if◌then◌else◌, length, Bool-cases, subst}
use tcvm.Env.Shape.{max_properties_fast, MtCacheData, set_sentinel, ShapeData, Heap, find_slot}
use tcvm.Env.Shape.{put_prop, put_mt, upgrade, mt_edge_eq}
use tcvm.Env.Shape.Slots.{append-Numbered, append-Distinct}
use tcvm.Env.{ℕ-cases, put, put_self, put-ne}
use tcvm.Env.Shape.Valid.{Layout, layout, grown, with_mt, dictionary, Ok, Has, Good, Valid}
use tcvm.Env.Shape.Valid.{Extends, Arrives}
use tcvm.Env.Shape.Growth.{Extends-refl, Extends-trans, Extends-Has, Extends-Good, write-Valid}

overwrite-Extends :
    (h : Heap) (p : ℕ) (d : ShapeData)
    → layout d ≡ layout (h.shapes p)
    → Extends h (record h { shapes = put h.shapes p d })
overwrite-Extends h p d e = record {
  count = omega arith;
  kept = λ s below. elim (ℕ-cases s p) [
    | inl same ↦ rw same (ap layout (put_self h.shapes p d) ∙ e)
    | inr ne ↦ ap layout (put-ne h.shapes d ne)
  ];
  bits_kept = λ e bit. refl;
  caches_kept = refl;
}

mt_edge_eq_sound : (a b : Option ℕ) → mt_edge_eq a b ≡ true → a ≡ b
unfolding mt_edge_eq
mt_edge_eq_sound none none e = refl
mt_edge_eq_sound none (some y) e = absurd (ground (arith, e))
mt_edge_eq_sound (some x) none e = absurd (ground (arith, e))
mt_edge_eq_sound (some x) (some y) e = ap some (ground (arith, e))

-- An edge is added to `p`.
pub put_prop-Arrives :
    (h : Heap) (p k c : ℕ)
    → Valid h
    → p < h.shape_count
    → Has h c (grown k (layout (h.shapes p)))
    → Arrives h (grown k (layout (h.shapes p))) (put_prop p k (c, h))
unfolding put_prop
put_prop-Arrives h p k c v b has =
    let d = h.shapes p in
    let g = v.shapes_ok p b in
    let d' : ShapeData = record d {
      transitions = record d.transitions { by_prop = put d.transitions.by_prop k (some c) };
    } in
    let h' : Heap = record h { shapes = put h.shapes p d' } in
    let ext : Extends h h' = overwrite-Extends h p d' refl in
    let good : Good h' d' = record {
      ok = g.ok;
      prop_edges = λ j e eq. elim (ℕ-cases j k) [
        | inl same ↦
            let found : some c ≡ some e =
              sym (put_self d.transitions.by_prop k (some c))
              ∙ ap (λ x. put d.transitions.by_prop k (some c) x) (sym same)
              ∙ eq in
            let here : c ≡ e = ground arith in
            subst (λ x. Has h' x (grown j (layout d))) here (rw same (Extends-Has ext has))
        | inr ne ↦
            Extends-Has ext (g.prop_edges j e (sym (put-ne d.transitions.by_prop (some c) ne) ∙ eq))
      ];
      mt_edges = λ m e eq. Extends-Has ext (g.mt_edges m e eq);
    } in
    (
      write-Valid p d' v ext refl (λ i ne below. below) good refl refl refl,
      ext,
      Extends-Has ext has,
    )

pub put_mt-Arrives :
    (h : Heap) (p : ℕ) (mt : Option ℕ) (c : ℕ)
    → Valid h
    → p < h.shape_count
    → Has h c (with_mt mt (layout (h.shapes p)))
    → Arrives h (with_mt mt (layout (h.shapes p))) (put_mt p mt (c, h))
unfolding put_mt
put_mt-Arrives h p mt c v b has =
    let d = h.shapes p in
    let g = v.shapes_ok p b in
    let edges : Option ℕ → Option ℕ =
      λ m. if mt_edge_eq m mt then some c else d.transitions.by_mt m in
    let d' : ShapeData = record d { transitions = record d.transitions { by_mt = edges } } in
    let h' : Heap = record h { shapes = put h.shapes p d' } in
    let ext : Extends h h' = overwrite-Extends h p d' refl in
    let good : Good h' d' = record {
      ok = g.ok;
      prop_edges = λ j e eq. Extends-Has ext (g.prop_edges j e eq);
      mt_edges = λ m e eq. elim (Bool-cases (mt_edge_eq m mt)) [
        | inl t ↦
            let found : c ≡ e = ground arith in
            subst (λ x. Has h' x (with_mt m (layout d))) found
              (rw (mt_edge_eq_sound m mt t) (Extends-Has ext has))
        | inr f ↦ Extends-Has ext (g.mt_edges m e (ground arith))
      ];
    } in
    (
      write-Valid p d' v ext refl (λ i ne below. below) good refl refl refl,
      ext,
      Extends-Has ext has,
    )

pub set_sentinel-Arrives :
    (h : Heap) (c s : ℕ)
    → Valid h
    → Has h s (dictionary (some c))
    → Arrives h (dictionary (some c)) (set_sentinel c (s, h))
unfolding set_sentinel
set_sentinel-Arrives h c s v has =
    let d : MtCacheData = record (h.caches c) { dict_sentinel = some s } in
    let h' : Heap = record h { caches = put h.caches c d } in
    let ext : Extends h h' = record {
      count = omega arith;
      kept = λ t b. refl;
      bits_kept = λ e bit. elim (ℕ-cases e c) [
        | inl same ↦ rw same (ap (λ (x : MtCacheData). x.bits bit) (put_self h.caches c d))
        | inr ne ↦ ap (λ (x : MtCacheData). x.bits bit) (put-ne h.caches d ne)
      ];
      caches_kept = refl;
    } in
    (
      record {
        shapes_ok = λ t b. Extends-Good ext (v.shapes_ok t b);
        sentinels = λ e t eq. elim (ℕ-cases e c) [
          | inl same ↦
              let there : some s ≡ some t =
                sym (ap (λ (x : MtCacheData). x.dict_sentinel) (put_self h.caches c d))
                ∙ ap (λ i. (put h.caches c d i).dict_sentinel) (sym same)
                ∙ eq in
              let here : s ≡ t = ground arith in
              subst (λ x. Has h' x (dictionary (some e))) here (rw same (Extends-Has ext has))
          | inr ne ↦ Extends-Has ext (
              v.sentinels e t
                (ap (λ (x : MtCacheData). x.dict_sentinel) (sym (put-ne h.caches d ne)) ∙ eq))
        ];
        empty_ok = v.empty_ok;
        empty_dict_ok = v.empty_dict_ok;
      },
      ext,
      Extends-Has ext has,
    )

pub upgrade_found : (h : Heap) (o : Option ℕ) (c : ℕ) → upgrade h o ≡ some c → o ≡ some c
unfolding upgrade
upgrade_found h none c e = e
upgrade_found h (some x) c e = ground arith

pub Arrives-trans :
    {h h' : Heap} {l : Layout} {r : ℕ × Heap} → Extends h h' → Arrives h' l r → Arrives h l r
Arrives-trans ext (v, e, has) = (v, Extends-trans ext e, has)

pub Arrives-here : {h : Heap} {l : Layout} (s : ℕ) → Valid h → Has h s l → Arrives h l (s, h)
Arrives-here s v has = (v, Extends-refl _, has)

pub fresh-Good :
    (h : Heap) (d : ShapeData)
    → Ok (layout d)
    → ((k : ℕ) → d.transitions.by_prop k ≡ none)
    → ((m : Option ℕ) → d.transitions.by_mt m ≡ none)
    → Good h d
fresh-Good h d ok no_prop no_mt = record {
  ok = ok;
  prop_edges = λ k c e. absurd (ground (arith, e, no_prop k));
  mt_edges = λ m c e. absurd (ground (arith, e, no_mt m));
}

pub grown-Ok :
    (l : Layout) (k : ℕ)
    → Ok l
    → find_slot l.descriptors k ≡ none
    → l.slot_count < max_properties_fast
    → Ok (grown k l)
grown-Ok l k ok e b = record {
  counted = omega (arith, length-append l.descriptors _, ok.counted);
  numbered =
      let e : 0 + length l.descriptors ≡ l.slot_count = omega (arith, ok.counted) in
      rw (sym e) (append-Numbered 0 l.descriptors k ok.numbered);
  distinct = append-Distinct l.descriptors _ ok.distinct e;
  bounded = omega arith;
  dict_empty = λ t. absurd (ground (arith, t));
}

pub with_mt-Ok : (l : Layout) (mt : Option ℕ) → Ok l → Ok (with_mt mt l)
with_mt-Ok l mt ok = record {
  counted = ok.counted;
  numbered = ok.numbered;
  distinct = ok.distinct;
  bounded = ok.bounded;
  dict_empty = λ t. absurd (ground (arith, t));
}

pub dictionary-Ok : (mt : Option ℕ) → Ok (dictionary mt)
dictionary-Ok mt = record {
  counted = refl;
  numbered = tt;
  distinct = tt;
  bounded = omega arith;
  dict_empty = λ t. refl;
}
