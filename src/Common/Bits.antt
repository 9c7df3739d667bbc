-- ===== src/Common/Bits.antt =====
-- `&`, `|` and `^` on native numbers as arithmetic: masks at every width, and tables on a byte.
mod Step
use Step.{bit_and_digit, bit_or_digit}
use Prim.Native.Nat.{ℕ, zero, suc, ◌+◌, ◌*◌, ◌/◌, ◌%◌, ◌^◌, ◌-◌, ◌<◌, bit_and, bit_or, bit_xor}
use mathlib.Core.Path.{◌≡◌, refl, sym, ap, ap₂, ◌∙◌}
use mathlib.Core.Bool.{Bool, true, false}
use mathlib.Core.Logic.{ite}
use native.Mathlib.Decide.{ℕ_discrete}
use native.Mathlib.Nat.{pow-suc, one-le-pow, mul-add-mod_self_left, mod-eq_of_lt, mod-lt}
use native.Mathlib.Nat.{div-add-mod}
use native.Mathlib.Omega.{arith}

module _ (f g : ℕ → ℕ) where
  unfoldable pub agree_below : ℕ → Bool
  unfolding ℕ_discrete
  agree_below zero = true
  agree_below (suc n) = ite (ℕ_discrete (f n) (g n)) (agree_below n) false

  -- Two functions that agree on a table agree at each entry.
  pub agree_below→eq : (n : ℕ) → agree_below n ≡ true → (i : ℕ) → i < n → f i ≡ g i
  unfolding agree_below
  agree_below→eq zero e i h = absurd (omega arith)
  agree_below→eq (suc n) e i h = ground (arith, agree_below→eq n (ground arith) i)

bit_and-zero : (n a : ℕ) → a < n → bit_and a 0 ≡ 0
bit_and-zero zero a h = absurd (omega arith)
bit_and-zero (suc n) zero h = refl
bit_and-zero (suc n) (suc a) h =
    omega (arith, bit_and_digit (suc a) 0, bit_and-zero n (suc a / 2) (omega arith))

-- The remainder by `2 * m`, lowest bit first.
mod-two-mul : (a m : ℕ) → 0 < m → a % (2 * m) ≡ a % 2 + 2 * (a / 2 % m)
mod-two-mul a m h =
    let regrouped : a ≡ 2 * m * (a / 2 / m) + (a % 2 + 2 * (a / 2 % m)) =
      omega (arith, ap (λ (t : ℕ). 2 * t) (div-add-mod (a / 2) m)) in
    ap (λ (t : ℕ). t % (2 * m)) regrouped
    ∙ mul-add-mod_self_left (2 * m) (a / 2 / m) (a % 2 + 2 * (a / 2 % m))
    ∙ mod-eq_of_lt (omega (arith, mod-lt (a / 2) h))

-- A mask of `k` low bits is the remainder by `2 ^ k`.
pub bit_and_mask : (k a : ℕ) → bit_and a (2 ^ k - 1) ≡ a % 2 ^ k
bit_and_mask zero a = omega (arith, bit_and-zero (suc a) a (omega arith))
bit_and_mask (suc k) a =
    let width : 2 ^ suc k ≡ 2 * 2 ^ k = omega (arith, pow-suc 2 k) in
    let mask_half : (2 ^ suc k - 1) / 2 ≡ 2 ^ k - 1 = omega (arith, one-le-pow k 2) in
    omega (
      arith,
      bit_and_digit a (2 ^ suc k - 1),
      ap (bit_and (a / 2)) mask_half,
      bit_and_mask k (a / 2),
      one-le-pow k 2,
      ap (λ (t : ℕ). a % t) width,
      mod-two-mul a (2 ^ k) (omega (arith, one-le-pow k 2)),
    )

bit_or-zero : (n a : ℕ) → a < n → bit_or a 0 ≡ a
bit_or-zero zero a h = absurd (omega arith)
bit_or-zero (suc n) zero h = refl
bit_or-zero (suc n) (suc a) h =
    omega (arith, bit_or_digit (suc a) 0, bit_or-zero n (suc a / 2) (omega arith))

-- `|` of a shifted number and one that fits the free bits is their sum.
pub bit_or_shifted : (k a r : ℕ) → r < 2 ^ k → bit_or (2 ^ k * a) r ≡ 2 ^ k * a + r
bit_or_shifted zero a r h =
    let none_left : r ≡ 0 = omega arith in
    let same : 2 ^ 0 * a ≡ a = omega arith in
    rw (none_left, same) (omega (arith, bit_or-zero (suc a) a (omega arith)))
bit_or_shifted (suc k) a r h =
    let width : 2 ^ suc k ≡ 2 * 2 ^ k = omega (arith, pow-suc 2 k) in
    let shifted : 2 ^ suc k * a ≡ 2 * (2 ^ k * a) = omega (arith, ap (λ (t : ℕ). t * a) width) in
    let half : 2 * (2 ^ k * a) / 2 ≡ 2 ^ k * a = omega arith in
    rw shifted (
      omega (
        arith,
        bit_or_digit (2 * (2 ^ k * a)) r,
        ap (λ (t : ℕ). bit_or t (r / 2)) half,
        bit_or_shifted k a (r / 2) (omega arith),
      ))

none_below : (a : ℕ) → a % 1 ≡ 0
none_below a = omega arith

half_mod : (a m : ℕ) → 0 < m → (a % (2 * m) / 2 ≡ a / 2 % m) × (a % (2 * m) % 2 ≡ a % 2)
half_mod a m h = (omega (arith, mod-two-mul a m h), omega (arith, mod-two-mul a m h))

bit_or_half : (a b : ℕ) → bit_or a b / 2 ≡ bit_or (a / 2) (b / 2)
bit_or_half a b = omega (arith, bit_or_digit a b)

-- The low bits of `|` are those of its arguments.
pub bit_or-mod : (k a b : ℕ) → bit_or a b % 2 ^ k ≡ bit_or (a % 2 ^ k) (b % 2 ^ k)
bit_or-mod zero a b = rw (none_below a, none_below b, none_below (bit_or a b))
bit_or-mod (suc k) a b =
    let width : 2 ^ suc k ≡ 2 * 2 ^ k = omega (arith, pow-suc 2 k) in
    let some_room : 0 < 2 ^ k = omega (arith, one-le-pow k 2) in
    let (half_a, low_a) = half_mod a (2 ^ k) some_room in
    let (half_b, low_b) = half_mod b (2 ^ k) some_room in
    rw width (
      omega (
        arith,
        mod-two-mul (bit_or a b) (2 ^ k) some_room,
        bit_or_digit a b,
        ap (λ (t : ℕ). t % 2 ^ k) (bit_or_half a b),
        bit_or_digit (a % (2 * 2 ^ k)) (b % (2 * 2 ^ k)),
        bit_or-mod k (a / 2) (b / 2),
        ap₂ bit_or half_a half_b,
        low_a,
        low_b,
      ))
