-- ===== src/Num/Errors.antt =====
-- When `op_arith` of src/vm/num.rs raises an error.
use tcvm.Common.{◌≡◌, ◌↔◌, refl, ap, arith, true, none, some, if◌then◌else◌}
use tcvm.Common.Int.{ℤ, pos, negsuc, eqb_ℤ}
use tcvm.Num.{Number, integer, float, other, op_arith, Operation, plus, minus, times, modulo}
use tcvm.Num.{power, division, floor_division, implementation}

is_zero : (b : ℤ) → eqb_ℤ b (pos 0) ≡ true → b ≡ pos 0
is_zero (pos n) e = let z : n ≡ 0 = ground (arith, e) in ap ℤ.pos z
is_zero (negsuc n) e = absurd (ground (arith, e))

raised :
    {A : Type 0} (b : ℤ) (v : A)
    → (if eqb_ℤ b (pos 0) then none else some v) ≡ none
    → eqb_ℤ b (pos 0) ≡ true
raised b v e = ground (arith, e)

module _ (F : Type 0) (of_int : ℤ → F) where
  -- The operations that have no integer result for the divisor 0.
  abbrev pub DividesIntegers : Operation F of_int → Type 0
  DividesIntegers plus = ⊥
  DividesIntegers minus = ⊥
  DividesIntegers times = ⊥
  DividesIntegers modulo = Unit {0}
  DividesIntegers power = ⊥
  DividesIntegers division = ⊥
  DividesIntegers floor_division = Unit {0}

  abbrev pub Refused : Operation F of_int → Number F → Number F → Type 0
  Refused o other r = Unit {0}
  Refused o (integer a) (integer b) = DividesIntegers o × (b ≡ pos 0)
  Refused o (integer a) (float y) = ⊥
  Refused o (integer a) other = Unit {0}
  Refused o (float x) (integer b) = ⊥
  Refused o (float x) (float y) = ⊥
  Refused o (float x) other = Unit {0}

  -- For each of the seven operations, `op_arith` raises an error exactly when an operand is no
  -- number, or when both are integers, the operation is `%` or `//` and the divisor is 0.
  pub op_arith-Refused :
      (f : Operation F of_int → F → F → F) (o : Operation F of_int) (l r : Number F)
      → (op_arith F of_int (implementation F of_int f o) l r ≡ none) ↔ Refused o l r
  unfolding op_arith implementation
  op_arith-Refused f o other r = (λ e. tt, λ h. refl)
  op_arith-Refused f o (integer a) other = (λ e. tt, λ h. refl)
  op_arith-Refused f o (float x) other = (λ e. tt, λ h. refl)
  op_arith-Refused f o (integer a) (float y) = (λ e. ground (arith, e), λ h. absurd h)
  op_arith-Refused f o (float x) (integer b) = (λ e. ground (arith, e), λ h. absurd h)
  op_arith-Refused f o (float x) (float y) = (λ e. ground (arith, e), λ h. absurd h)
  op_arith-Refused f plus (integer a) (integer b) = (λ e. ground (arith, e), λ h. absurd h.0)
  op_arith-Refused f minus (integer a) (integer b) = (λ e. ground (arith, e), λ h. absurd h.0)
  op_arith-Refused f times (integer a) (integer b) = (λ e. ground (arith, e), λ h. absurd h.0)
  op_arith-Refused f power (integer a) (integer b) = (λ e. ground (arith, e), λ h. absurd h.0)
  op_arith-Refused f division (integer a) (integer b) = (λ e. ground (arith, e), λ h. absurd h.0)
  op_arith-Refused f modulo (integer a) (integer b) =
      (λ e. (tt, is_zero b (raised b _ e)), λ h. ground (arith, h.1))
  op_arith-Refused f floor_division (integer a) (integer b) =
      (λ e. (tt, is_zero b (raised b _ e)), λ h. ground (arith, h.1))
