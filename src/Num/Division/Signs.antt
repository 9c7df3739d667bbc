-- ===== src/Num/Division/Signs.antt =====
-- Floor division of integers by the quotient and the remainder of their magnitudes, as the `/` and
-- `%` of src/vm/num.rs have them, for each pair of signs.
use tcvm.Common.{ℕ, zero, suc, ◌+◌, ◌-◌, ◌*◌, ◌≤◌, ◌<◌, ◌≡◌, refl, ◌∙◌}
use tcvm.Common.{arith, inl, inr, true, false, leb, Bool-cases}
use tcvm.Common.Int.{ℤ, pos, negsuc, ◌+ℤ◌, ◌*ℤ◌, sub_ℕ, pos_part, neg_part}
use tcvm.Num.{negated}

-- A remainder of the divisor's sign, and less than it.
abbrev pub Below : ℤ → ℤ → Type 0
Below (pos b) (pos m) = m < b
Below (pos b) (negsuc m) = ⊥
Below (negsuc b) (pos m) = m ≡ 0
Below (negsuc b) (negsuc m) = m < b

-- How the remainder of `a` by a divisor comes out, with the quotient `q` of the magnitudes.
abbrev pub FloorDivides : ℤ → ℤ → ℤ → ℤ → Type 0
FloorDivides a b q m = ((q *ℤ b) +ℤ m ≡ a) × Below b m

pub sub_pos : (x y n : ℕ) → x ≡ n + y → sub_ℕ x y ≡ pos n
sub_pos x y n e =
    let test : leb y x ≡ true = ground (arith, e) in
    let n' : x - y ≡ n = omega (arith, e) in rw (test, n') refl

pub sub_neg : (x y n : ℕ) → y ≡ x + n + 1 → sub_ℕ x y ≡ negsuc n
sub_neg x y n e =
    let test : leb y x ≡ false = ground (arith, e) in
    let n' : y - x - 1 ≡ n = omega (arith, e) in rw (test, n') refl

sub-eq : (x y x' y' : ℕ) → x + y' ≡ x' + y → sub_ℕ x y ≡ sub_ℕ x' y'
sub-eq x y x' y' e = ground (arith, e)

sub-add : (x y : ℕ) (m : ℤ) → sub_ℕ x y +ℤ m ≡ sub_ℕ (x + pos_part m) (y + neg_part m)
unfolding ◌+ℤ◌
sub-add x y m = elim (Bool-cases (leb y x)) [
  | inl t ↦ rw t (
      sub-eq (x - y + pos_part m) (0 + neg_part m) (x + pos_part m) (y + neg_part m)
        (ground (arith, t)))
  | inr f ↦ rw f (
      sub-eq (0 + pos_part m) (suc (y - x - 1) + neg_part m) (x + pos_part m) (y + neg_part m)
        (ground (arith, f)))
]

-- Each pair of signs, for a quotient `k` and a remainder `r` of the magnitudes.
pub pos_pos : (a b k r : ℕ) → a ≡ k * b + r → r < b → FloorDivides (pos a) (pos b) (pos k) (pos r)
unfolding ◌+ℤ◌ ◌*ℤ◌
pos_pos a b k r e less = (sub-add _ _ (pos r) ∙ sub_pos _ _ a (omega (arith, e)), less)

pub pos_neg :
    (a b k r : ℕ)
    → a ≡ k * suc b + suc r
    → r < b
    → FloorDivides (pos a) (negsuc b) (negsuc k) (negsuc (b - suc r))
unfolding ◌+ℤ◌ ◌*ℤ◌
pos_neg a b k r e less =
    (sub-add _ _ (negsuc (b - suc r)) ∙ sub_pos _ _ a (omega (arith, e, less)), omega (arith, less))

pub neg_pos :
    (a b k r : ℕ)
    → suc a ≡ k * b + suc r
    → suc r < b
    → FloorDivides (negsuc a) (pos b) (negsuc k) (pos (b - suc r))
unfolding ◌+ℤ◌ ◌*ℤ◌
neg_pos a b k r e less =
    (sub-add _ _ (pos (b - suc r)) ∙ sub_neg _ _ a (omega (arith, e, less)), omega (arith, less))

pub neg_neg :
    (a b k r : ℕ)
    → suc a ≡ k * suc b + suc r
    → r < b
    → FloorDivides (negsuc a) (negsuc b) (pos k) (negsuc r)
unfolding ◌+ℤ◌ ◌*ℤ◌
neg_neg a b k r e less = (sub-add _ _ (negsuc r) ∙ sub_neg _ _ a (omega (arith, e)), less)

pub pos_neg_exact :
    (a b k : ℕ) → a ≡ k * suc b → FloorDivides (pos a) (negsuc b) (negated k) (pos 0)
unfolding ◌+ℤ◌ ◌*ℤ◌
pos_neg_exact a b zero e = (sub-add _ _ (pos 0) ∙ sub_pos _ _ a (omega (arith, e)), refl)
pos_neg_exact a b (suc k) e = (sub-add _ _ (pos 0) ∙ sub_pos _ _ a (omega (arith, e)), refl)

pub neg_pos_exact :
    (a b k : ℕ) → suc a ≡ k * b → 1 ≤ b → FloorDivides (negsuc a) (pos b) (negated k) (pos 0)
unfolding ◌+ℤ◌ ◌*ℤ◌
neg_pos_exact a b zero e some_ = absurd (omega (arith, e))
neg_pos_exact a b (suc k) e some_ =
    (sub-add _ _ (pos 0) ∙ sub_neg _ _ a (omega (arith, e)), omega (arith, some_))

pub neg_neg_exact :
    (a b k : ℕ) → suc a ≡ k * suc b → FloorDivides (negsuc a) (negsuc b) (pos k) (pos 0)
unfolding ◌+ℤ◌ ◌*ℤ◌
neg_neg_exact a b k e = (sub-add _ _ (pos 0) ∙ sub_neg _ _ a (omega (arith, e)), refl)
