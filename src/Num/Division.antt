-- ===== src/Num/Division.antt =====
-- `%` and `//` on integers, of src/vm/num.rs, are the remainder and the quotient of floor division.
pub mod Signs
use tcvm.Common.{ℕ, zero, suc, ◌+◌, ◌-◌, ◌*◌, ◌/◌, ◌%◌, ◌^◌, ◌≤◌, ◌<◌, ◌≡◌, ◌⊎◌, refl, ap, ◌∙◌}
use tcvm.Common.{arith, inl, inr, true, false, ltb, leb, Bool-cases, if◌then◌else◌}
use tcvm.Common.Int.{ℤ, pos, negsuc, ◌+ℤ◌, ◌-ℤ◌, ◌*ℤ◌, sub_ℕ, pos_part, neg_part}
use tcvm.Num.{to_bits, of_bits, wrap, mod_int, idiv_int, negated}
use tcvm.Num.Division.Signs.{FloorDivides, sub_pos, sub_neg, pos_pos, pos_neg, neg_pos, neg_neg}
use tcvm.Num.Division.Signs.{pos_neg_exact, neg_pos_exact, neg_neg_exact}

-- The integers of 64 bits.
abbrev pub IsI64 : ℤ → Type 0
IsI64 (pos n) = n < 2 ^ 63
IsI64 (negsuc n) = n < 2 ^ 63

wrap-IsI64 : (z : ℤ) → IsI64 z → wrap z ≡ z
unfolding to_bits of_bits
wrap-IsI64 (pos n) h = ground arith
wrap-IsI64 (negsuc n) h = ground arith

add_neg : (x b n : ℕ) → suc b ≡ x + n + 1 → pos x +ℤ negsuc b ≡ negsuc n
unfolding ◌+ℤ◌
add_neg x b n e = sub_neg _ _ n (omega (arith, e))

add_pos : (r b n : ℕ) → b ≡ n + suc r → negsuc r +ℤ pos b ≡ pos n
unfolding ◌+ℤ◌
add_pos r b n e = sub_pos _ _ n (omega (arith, e))

-- The results, for each pair of signs.
mod_pos_pos : (a b : ℕ) → mod_int (pos a) (pos b) ≡ pos (a % b)
unfolding mod_int
mod_pos_pos a b = ground arith

mod_pos_neg :
    (a b r : ℕ)
    → a % suc b ≡ suc r
    → r < b
    → b < 2 ^ 63
    → mod_int (pos a) (negsuc b) ≡ negsuc (b - suc r)
unfolding mod_int
mod_pos_neg a b r e less fits =
    let sum = add_neg (suc r) b (b - suc r) (omega (arith, less)) in
    let kept = wrap-IsI64 (negsuc (b - suc r)) (omega (arith, fits)) in ground (arith, e, sum, kept)

mod_pos_neg_exact : (a b : ℕ) → a % suc b ≡ 0 → mod_int (pos a) (negsuc b) ≡ pos 0
unfolding mod_int
mod_pos_neg_exact a b e = ground (arith, e)

mod_neg_pos_exact : (a b : ℕ) → suc a % b ≡ 0 → mod_int (negsuc a) (pos b) ≡ pos 0
unfolding mod_int
mod_neg_pos_exact a b e = ground (arith, e)

mod_neg_pos :
    (a b r : ℕ)
    → suc a % b ≡ suc r
    → suc r < b
    → b < 2 ^ 63
    → mod_int (negsuc a) (pos b) ≡ pos (b - suc r)
unfolding mod_int
mod_neg_pos a b r e less fits =
    let sum = add_pos r b (b - suc r) (omega (arith, less)) in
    let kept = wrap-IsI64 (pos (b - suc r)) (omega (arith, fits)) in ground (arith, e, sum, kept)

mod_neg_neg : (a b : ℕ) → mod_int (negsuc a) (negsuc b) ≡ negated (suc a % suc b)
unfolding mod_int
mod_neg_neg a b = by_rest (suc a % suc b) refl
  where
    by_rest : (r : ℕ) → suc a % suc b ≡ r → mod_int (negsuc a) (negsuc b) ≡ negated r
    by_rest zero e = ground (arith, e)
    by_rest (suc r) e = ground (arith, e)

wrap-negated : (k : ℕ) → k ≤ 2 ^ 63 → wrap (negated k) ≡ negated k
wrap-negated zero h = wrap-IsI64 (pos 0) (omega arith)
wrap-negated (suc k) h = wrap-IsI64 (negsuc k) h

less_one : (k : ℕ) → negated k -ℤ pos 1 ≡ negsuc k
unfolding ◌-ℤ◌
less_one zero = refl
less_one (suc k) = sub_neg _ _ (suc k) (omega arith)

idiv_pos_pos : (a b : ℕ) → a < 2 ^ 63 → idiv_int (pos a) (pos b) ≡ pos (a / b)
unfolding idiv_int
idiv_pos_pos a b fits = let kept = wrap-IsI64 (pos (a / b)) (omega arith) in ground (arith, kept)

idiv_neg_neg :
    (a b : ℕ) → suc a / suc b < 2 ^ 63 → idiv_int (negsuc a) (negsuc b) ≡ pos (suc a / suc b)
unfolding idiv_int
idiv_neg_neg a b fits = let kept = wrap-IsI64 (pos (suc a / suc b)) fits in ground (arith, kept)

idiv_pos_neg_exact :
    (a b : ℕ) → a % suc b ≡ 0 → a < 2 ^ 63 → idiv_int (pos a) (negsuc b) ≡ negated (a / suc b)
unfolding idiv_int
idiv_pos_neg_exact a b e fits =
    let kept = wrap-negated (a / suc b) (omega arith) in ground (arith, e, kept)

idiv_neg_pos_exact :
    (a b : ℕ) → suc a % b ≡ 0 → a < 2 ^ 63 → idiv_int (negsuc a) (pos b) ≡ negated (suc a / b)
unfolding idiv_int
idiv_neg_pos_exact a b e fits =
    let kept = wrap-negated (suc a / b) (omega arith) in ground (arith, e, kept)

idiv_pos_neg :
    (a b r : ℕ) → a % suc b ≡ suc r → a < 2 ^ 63 → idiv_int (pos a) (negsuc b) ≡ negsuc (a / suc b)
unfolding idiv_int
idiv_pos_neg a b r e fits =
    let kept = wrap-negated (a / suc b) (omega arith) in
    let less = less_one (a / suc b) in
    let kept' = wrap-IsI64 (negsuc (a / suc b)) (omega arith) in
    ground (arith, e, kept, less, kept')

idiv_neg_pos :
    (a b r : ℕ)
    → suc a % b ≡ suc r
    → suc a / b < 2 ^ 63
    → idiv_int (negsuc a) (pos b) ≡ negsuc (suc a / b)
unfolding idiv_int
idiv_neg_pos a b r e fits =
    let kept = wrap-negated (suc a / b) (omega arith) in
    let less = less_one (suc a / b) in
    let kept' = wrap-IsI64 (negsuc (suc a / b)) fits in ground (arith, e, kept, less, kept')

-- A quotient with a remainder, or by two or more, is less than what is divided.
less_quotient : (x b r : ℕ) → x % b ≡ suc r → 1 ≤ b → x / b < x
less_quotient x zero r e some_ = absurd (omega (arith, some_))
less_quotient x (suc b) r e some_ = omega arith

halved : (x b : ℕ) → 1 ≤ x → x / suc (suc b) < x
halved x b some_ = omega arith

floor_pos_neg :
    (a b r : ℕ)
    → a % suc b ≡ r
    → a < 2 ^ 63
    → b < 2 ^ 63
    → FloorDivides (pos a) (negsuc b) (idiv_int (pos a) (negsuc b)) (mod_int (pos a) (negsuc b))
floor_pos_neg a b zero e fits fits' =
    rw (idiv_pos_neg_exact a b e fits, mod_pos_neg_exact a b e)
      (pos_neg_exact a b (a / suc b) (omega (arith, e)))
floor_pos_neg a b (suc r) e fits fits' =
    let less : r < b = omega (arith, e) in
    rw (idiv_pos_neg a b r e fits, mod_pos_neg a b r e less fits')
      (pos_neg a b (a / suc b) r (omega (arith, e)) less)

floor_neg_pos :
    (a b r : ℕ)
    → suc a % b ≡ r
    → 1 ≤ b
    → a < 2 ^ 63
    → b < 2 ^ 63
    → FloorDivides (negsuc a) (pos b) (idiv_int (negsuc a) (pos b)) (mod_int (negsuc a) (pos b))
floor_neg_pos a b zero e some_ fits fits' =
    rw (idiv_neg_pos_exact a b e fits, mod_neg_pos_exact a b e)
      (neg_pos_exact a b (suc a / b) (omega (arith, e, some_)) some_)
floor_neg_pos a b (suc r) e some_ fits fits' =
    let less : suc r < b = omega (arith, e, some_) in
    let small = less_quotient (suc a) b r e some_ in
    rw (idiv_neg_pos a b r e (omega (arith, small, fits)), mod_neg_pos a b r e less fits')
      (neg_pos a b (suc a / b) r (omega (arith, e, some_)) less)

floor_neg_neg :
    (a b r : ℕ)
    → suc a % suc b ≡ r
    → suc a / suc b < 2 ^ 63
    → FloorDivides
        (negsuc a)
        (negsuc b)
        (idiv_int (negsuc a) (negsuc b))
        (mod_int (negsuc a) (negsuc b))
floor_neg_neg a b zero e fits =
    rw (idiv_neg_neg a b fits, mod_neg_neg a b, e)
      (neg_neg_exact a b (suc a / suc b) (omega (arith, e)))
floor_neg_neg a b (suc r) e fits =
    rw (idiv_neg_neg a b fits, mod_neg_neg a b, e)
      (neg_neg a b (suc a / suc b) r (omega (arith, e)) (omega (arith, e)))

quotient_fits : (a b : ℕ) → a < 2 ^ 63 → ¬ ((a ≡ 2 ^ 63 - 1) × (b ≡ 0)) → suc a / suc b < 2 ^ 63
quotient_fits a zero fits other =
    let less : ¬ (a ≡ 2 ^ 63 - 1) = λ e. other (e, refl) in omega (arith, fits, less)
quotient_fits a (suc b) fits other =
    let small = halved (suc a) b (omega arith) in omega (arith, small, fits)

-- For i64 numbers and a divisor that is not 0, but for the least i64 divided by -1, `//` and `%`
-- give the quotient and the remainder of floor division: the quotient times the divisor plus the
-- remainder is exactly the dividend, with no wrap-around, and the remainder has the sign of the
-- divisor and a lesser magnitude.
pub idiv_int-mod_int :
    (a b : ℤ)
    → IsI64 a
    → IsI64 b
    → ¬ (b ≡ pos 0)
    → ¬ ((a ≡ negsuc (2 ^ 63 - 1)) × (b ≡ negsuc 0))
    → FloorDivides a b (idiv_int a b) (mod_int a b)
idiv_int-mod_int a (pos zero) fits fits' some_ other = absurd (some_ refl)
idiv_int-mod_int (pos a) (pos (suc b)) fits fits' some_ other =
    rw (idiv_pos_pos a (suc b) fits, mod_pos_pos a (suc b))
      (pos_pos a (suc b) (a / suc b) (a % suc b) (omega arith) (omega arith))
idiv_int-mod_int (pos a) (negsuc b) fits fits' some_ other = floor_pos_neg a b _ refl fits fits'
idiv_int-mod_int (negsuc a) (pos (suc b)) fits fits' some_ other =
    floor_neg_pos a (suc b) _ refl (omega arith) fits fits'
idiv_int-mod_int (negsuc a) (negsuc b) fits fits' some_ other =
    floor_neg_neg a b _ refl
      (quotient_fits a b fits (λ (x, y). other (ap ℤ.negsuc x, ap ℤ.negsuc y)))
