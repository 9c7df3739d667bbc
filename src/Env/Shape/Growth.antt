-- ===== src/Env/Shape/Growth.antt =====
-- The allocation of a shape and the write over one, in src/env/shape/mod.rs.
use tcvm.Common.{ℕ, ◌<◌, ◌≡◌, refl, sym, ap, ◌∙◌, arith, inl, inr, ◌≢◌, subst}
use tcvm.Env.Shape.{ShapeData, Heap, alloc_shape}
use tcvm.Env.{ℕ-cases, put, put_self, put-ne}
use tcvm.Env.Shape.Valid.{Layout, layout, Has, Good, Valid, Grows, Extends, Arrives}

pub Extends-refl : (h : Heap) → Extends h h
Extends-refl h = record {
  count = omega arith;
  kept = λ s b. refl;
  bits_kept = λ c bit. refl;
  caches_kept = refl;
}

pub Extends-trans : {h h' h'' : Heap} → Extends h h' → Extends h' h'' → Extends h h''
Extends-trans e f = record {
  count = omega (arith, e.count, f.count);
  kept = λ s b. f.kept s (omega (arith, e.count)) ∙ e.kept s b;
  bits_kept = λ c bit. f.bits_kept c bit ∙ e.bits_kept c bit;
  caches_kept = f.caches_kept ∙ e.caches_kept;
}

pub Extends-Grows : {h h' : Heap} → Extends h h' → Grows h h'
Extends-Grows e = record {
  count = e.count;
  kept = e.kept;
  caches_count = omega (arith, e.caches_kept);
}

pub Grows-Has : {h h' : Heap} {s : ℕ} {l : Layout} → Grows h h' → Has h s l → Has h' s l
Grows-Has {s = s} e (b, eq) = (omega (arith, e.count), e.kept s b ∙ eq)

pub Grows-Good : {h h' : Heap} {d : ShapeData} → Grows h h' → Good h d → Good h' d
Grows-Good e g = record {
  ok = g.ok;
  prop_edges = λ k c eq. Grows-Has e (g.prop_edges k c eq);
  mt_edges = λ m c eq. Grows-Has e (g.mt_edges m c eq);
}

pub Extends-Has : {h h' : Heap} {s : ℕ} {l : Layout} → Extends h h' → Has h s l → Has h' s l
Extends-Has e has = Grows-Has (Extends-Grows e) has

pub Extends-Good : {h h' : Heap} {d : ShapeData} → Extends h h' → Good h d → Good h' d
Extends-Good e g = Grows-Good (Extends-Grows e) g

-- The write of a shape, at a fresh address or over an old one.
pub write-Valid :
    {h h' : Heap} (s : ℕ) (d : ShapeData)
    → Valid h
    → Extends h h'
    → h'.shapes ≡ put h.shapes s d
    → ((i : ℕ) → i ≢ s → i < h'.shape_count → i < h.shape_count)
    → Good h' d
    → h'.caches ≡ h.caches
    → h'.empty_shape ≡ h.empty_shape
    → h'.empty_dict_sentinel ≡ h.empty_dict_sentinel
    → Valid h'
write-Valid {h = h} {h' = h'} s d v ext shapes others good caches e f = record {
  shapes_ok = λ i b. elim (ℕ-cases i s) [
    | inl same ↦
        let here : h'.shapes i ≡ d = rw (same, shapes) (put_self h.shapes s d) in
        subst (Good h') (sym here) good
    | inr ne ↦
        let here : h'.shapes i ≡ h.shapes i = rw shapes (put-ne h.shapes d ne) in
        subst (Good h') (sym here) (Extends-Good ext (v.shapes_ok i (others i ne b)))
  ];
  sentinels =
      λ c t eq. Extends-Has ext (v.sentinels c t (ap (λ g. (g c).dict_sentinel) (sym caches) ∙ eq));
  empty_ok = rw e (Extends-Has ext v.empty_ok);
  empty_dict_ok = rw f (Extends-Has ext v.empty_dict_ok);
}

alloc_shape-Extends : (h : Heap) (d : ShapeData) → Extends h ((alloc_shape d h).1)
unfolding alloc_shape
alloc_shape-Extends h d = record {
  count = omega arith;
  kept = λ s b. ap layout (put-ne h.shapes d (omega arith));
  bits_kept = λ c bit. refl;
  caches_kept = refl;
}

pub alloc_shape-Arrives :
    (h : Heap) (d : ShapeData) → Valid h → Good h d → Arrives h (layout d) (alloc_shape d h)
unfolding alloc_shape
alloc_shape-Arrives h d v good =
    let ext = alloc_shape-Extends h d in
    (
      write-Valid h.shape_count d v ext refl (λ i ne b. omega arith) (Extends-Good ext good) refl
          refl refl,
      ext,
      (omega arith, ap layout (put_self h.shapes h.shape_count d)),
    )
