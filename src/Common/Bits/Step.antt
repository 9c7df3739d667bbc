-- ===== src/Common/Bits/Step.antt =====
-- One equation for the lowest digit of each native bit operation. The operations stand for
-- `bitwise`, which counts digits by its first number: any larger count gives the same digits.
use Prim.Native.Nat.{ℕ, zero, suc, ◌+◌, ◌*◌, ◌/◌, ◌%◌, ◌≤◌, bit_and, bit_or, min, max, digits}
use Prim.Native.Nat.{bitwise, bit_and-bitwise, bit_or-bitwise}
use mathlib.Core.Path.{◌≡◌, refl, ◌∙◌}
use native.Mathlib.Decide.{dec_le}
use native.Mathlib.Omega.{arith}

module _ (rest : ℕ → ℕ) (digit : ℕ → ℕ → ℕ) where
  one_more : (n a b : ℕ) → a ≤ n → digits rest digit (suc n) a b ≡ digits rest digit n a b
  one_more zero zero b h = refl
  one_more zero (suc a) b h = absurd (omega arith)
  one_more (suc n) zero b h = refl
  one_more (suc n) (suc a) b h = rw (one_more n (suc a / 2) (b / 2) (omega arith))

  own_count : (n a b : ℕ) → a ≤ n → digits rest digit n a b ≡ bitwise rest digit a b
  own_count zero zero b h = refl
  own_count zero (suc a) b h = absurd (omega arith)
  own_count (suc n) a b h = elim (dec_le a n) [
    | yes p ↦ one_more n a b p ∙ own_count n a b p
    | no p ↦ let e : a ≡ suc n = omega arith in rw e
  ]

  bitwise-suc :
      (a b : ℕ)
      → bitwise rest digit (suc a) b
        ≡ bitwise rest digit (suc a / 2) (b / 2) * 2 + digit (suc a % 2) (b % 2)
  bitwise-suc a b = rw (own_count a (suc a / 2) (b / 2) (omega arith))

pub bit_and_digit : (x y : ℕ) → bit_and x y ≡ min (x % 2) (y % 2) + 2 * bit_and (x / 2) (y / 2)
bit_and_digit zero y = simp bit_and-bitwise (omega arith)
bit_and_digit (suc x) y =
    simp bit_and-bitwise (let e = bitwise-suc (λ none_left. 0) min x y in omega (arith, e))

pub bit_or_digit : (x y : ℕ) → bit_or x y ≡ max (x % 2) (y % 2) + 2 * bit_or (x / 2) (y / 2)
bit_or_digit zero y = simp bit_or-bitwise (omega arith)
bit_or_digit (suc x) y =
    simp bit_or-bitwise (let e = bitwise-suc (λ left. left) max x y in omega (arith, e))
