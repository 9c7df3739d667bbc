-- ===== src/Env/Table/Array.antt =====
-- The array part of a table, in src/env/table/mod.rs.
use tcvm.Common.{ℕ, zero, suc, ◌-◌, ◌≤◌, ◌≡◌, ◌⊎◌, refl, ap, ◌∙◌, arith, inl, inr, false, some}
use tcvm.Common.{List, [], ◌∷◌, ◌++◌, ◌==◌, ltb, if◌then◌else◌, length, get_elem?, set, replicate}
use tcvm.Common.{Bool-cases, get_elem?-set_self, get_elem?-set_ne, length-append}
use tcvm.Common.{length-replicate}
use tcvm.Env.Value.{Value, nil, same}
use tcvm.Env.{ℕ-cases}
use tcvm.Env.Table.{array_set, or_nil, max_array}

nils : (n i : ℕ) → or_nil (get_elem? (replicate n nil) i) ≡ nil
nils zero i = refl
nils (suc n) zero = refl
nils (suc n) (suc i) = nils n i

padded :
    (xs : List Value) (n i : ℕ)
    → or_nil (get_elem? (xs ++ replicate n nil) i) ≡ or_nil (get_elem? xs i)
padded [] n i = nils n i
padded (x ∷ xs) n zero = refl
padded (x ∷ xs) n (suc i) = padded xs n i

set_element :
    (ys : List Value) (index : ℕ) (value : Value)
    → 1 ≤ index
    → index ≤ length ys
    → (i : ℕ) → 1 ≤ i
    → or_nil (get_elem? (set ys (index - 1) value) (i - 1))
      ≡ (if i == index then value else or_nil (get_elem? ys (i - 1)))
set_element ys index value low len i p = elim (ℕ-cases (index - 1) (i - 1)) [
  | inl same ↦
      let e : i ≡ index = omega arith in
      ground (
        arith,
        ap (get_elem? (set ys (index - 1) value)) same,
        get_elem?-set_self ys (index - 1) value (omega arith),
      )
  | inr ne ↦ ground (arith, get_elem?-set_ne ys value ne)
]

-- The array after a write to an element that it has, or that fits into a `Vec`.
pub array_set_lem :
    (xs : List Value) (index : ℕ) (value : Value)
    → 1 ≤ index
    → (index ≤ length xs) ⊎ (index ≤ max_array)
    → (ys : List Value) × (array_set xs index value ≡ some ys)
      × ((i : ℕ)
          → 1 ≤ i
          → or_nil (get_elem? ys (i - 1))
            ≡ (if i == index then value else or_nil (get_elem? xs (i - 1))))
unfolding array_set
array_set_lem xs index value low room = elim (Bool-cases (ltb (length xs) index)) [
  | inr n ↦
      (set xs (index - 1) value, rw (array_set, n), set_element xs index value low (ground arith))
  | inl n ↦
      let small : ltb max_array index ≡ false = ground arith in
      let pad = replicate (index - length xs) nil in
      let len : index ≤ length (xs ++ pad) =
        omega (arith, length-append xs pad, length-replicate (index - length xs) nil) in
      (
        set (xs ++ pad) (index - 1) value,
        rw (array_set, n, small),
        λ i p.
            set_element (xs ++ pad) index value low len i p
            ∙ ap (λ v. if i == index then value else v) (padded xs (index - length xs) (i - 1)),
      )
]
