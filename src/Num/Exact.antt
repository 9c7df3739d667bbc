-- ===== src/Num/Exact.antt =====
-- The bit operations of src/vm/num.rs on operands that hold an exact integer, and on others.
use tcvm.Common.{◌≡◌, refl, ap, ◌∙◌, arith, inl, inr, Bool, true, false, not, ◌&&◌, ◌||◌, Option}
use tcvm.Common.{none, some, if◌then◌else◌, Bool-cases, Option-cases}
use tcvm.Common.Int.{ℤ, pos, negsuc, leb_ℤ, ltb_ℤ}
use tcvm.Pattern.{Outcome, ok, panic, ◌>>=◌}
use tcvm.Num.{Number, integer, float, other, FloatOps, exact_float_to_int, unwrapped, bit_operand}
use tcvm.Num.{op_bit, exact_min, exact_max}

-- Between -2 ^ 53 and 2 ^ 53.
abbrev pub is_exact : ℤ → Bool
is_exact z = leb_ℤ exact_min z && leb_ℤ z exact_max

-- The documented behaviour of the f64: `value` is the integer that a float is equal to, if there is
-- one.
pub record IsF64 {F : Type 0} (ops : FloatOps F) (value : F → Option ℤ) : Type 0 where
  pub as_f64-value : (z : ℤ) → is_exact z ≡ true → value (ops.as_f64 z) ≡ some z
  pub is_finite-value : (x : F) (z : ℤ) → value x ≡ some z → ops.is_finite x ≡ true
  pub float_lt-value :
      (x y : F) (a b : ℤ) → value x ≡ some a → value y ≡ some b → ops.float_lt x y ≡ ltb_ℤ a b
  pub trunc-value : (x : F) (z : ℤ) → value x ≡ some z → ops.float_eq (ops.trunc x) x ≡ true
  pub trunc-no_value :
      (x : F) → value x ≡ none → (ops.is_finite x && ops.float_eq (ops.trunc x) x) ≡ false
  pub to_int-value :
      (x : F) (z : ℤ) → value x ≡ some z → is_exact z ≡ true → ops.to_int_unchecked x ≡ z

-- What an operand holds for a bit operation.
pub data Held : Type 0 where
  no_number : Held
  inexact : Held
  exact : ℤ → Held

outside : (z : ℤ) → (ltb_ℤ z exact_min || ltb_ℤ exact_max z) ≡ not (is_exact z)
outside (pos n) = ground arith
outside (negsuc n) = ground arith

abbrev operand_of : Held → Outcome (Option ℤ)
operand_of no_number = ok none
operand_of inexact = panic
operand_of (exact z) = ok (some z)

module _ {F : Type 0} (ops : FloatOps F) (value : F → Option ℤ) where
  abbrev pub exact_value : Option ℤ → Option ℤ
  exact_value none = none
  exact_value (some z) = if is_exact z then some z else none

  abbrev pub held_value : Option ℤ → Held
  held_value none = inexact
  held_value (some z) = exact z

  abbrev pub held : Number F → Held
  held (integer i) = exact i
  held (float x) = held_value (exact_value (value x))
  held other = no_number

  -- The result for what the operands hold.
  abbrev pub on_held : (ℤ → ℤ → ℤ) → Held → Held → Outcome (Option (Number F))
  on_held int no_number r = ok none
  on_held int inexact r = panic
  on_held int (exact a) no_number = ok none
  on_held int (exact a) inexact = panic
  on_held int (exact a) (exact b) = ok (some (integer (int a b)))

  abbrev both : (ℤ → ℤ → ℤ) → Outcome (Option ℤ) → Outcome (Option ℤ) → Outcome (Option (Number F))
  both int x y = x >>= λ a. elim a [
    | none ↦ ok none
    | some a ↦ y >>= λ b. elim b [ none ↦ ok none | some b ↦ ok (some (integer (int a b))) ]
  ]

  both-on_held :
      (int : ℤ → ℤ → ℤ) (l r : Held) → both int (operand_of l) (operand_of r) ≡ on_held int l r
  both-on_held int no_number r = refl
  both-on_held int inexact r = refl
  both-on_held int (exact a) no_number = refl
  both-on_held int (exact a) inexact = refl
  both-on_held int (exact a) (exact b) = refl

  module _ (f64 : IsF64 ops value) where
    limits :
        (x : F) (z : ℤ)
        → value x ≡ some z
        → (ops.float_lt x (ops.as_f64 exact_min) || ops.float_lt (ops.as_f64 exact_max) x)
          ≡ not (is_exact z)
    limits x z e =
        let low = f64.float_lt-value x _ z _ e (f64.as_f64-value exact_min refl) in
        let high = f64.float_lt-value _ x _ z (f64.as_f64-value exact_max refl) e in
        rw (low, high) (outside z)

    exact_float_to_int-value : (x : F) → exact_float_to_int F ops x ≡ exact_value (value x)
    unfolding exact_float_to_int
    exact_float_to_int-value x = elim (Option-cases (value x)) [
      | inl absent ↦ let h = f64.trunc-no_value x absent in ground (arith, h, absent)
      | inr (z, e) ↦
          let fin = f64.is_finite-value x z e in
          let whole = f64.trunc-value x z e in
          elim (Bool-cases (is_exact z)) [
            | inl fits ↦
                rw (e, fin, limits x z e, fits, whole)
                  (ap (λ (i : ℤ). some i) (f64.to_int-value x z e fits))
            | inr far ↦ rw (e, fin, limits x z e, far) refl
          ]
    ]

    bit_operand-held : (n : Number F) → bit_operand F ops n ≡ operand_of (held n)
    unfolding bit_operand
    bit_operand-held (integer i) = refl
    bit_operand-held (float x) =
        ap (unwrapped F ops) (exact_float_to_int-value x) ∙ named (exact_value (value x))
      where
        named : (o : Option ℤ) → unwrapped F ops o ≡ operand_of (held_value o)
        named none = refl
        named (some z) = refl
    bit_operand-held other = refl

    -- A bit operation gives the operation on the integers of its operands if both hold one between
    -- -2 ^ 53 and 2 ^ 53 or are integers, and no value if one is no number; it panics if the left
    -- operand is a float that holds no such integer, or if the left one holds one and the right one
    -- is such a float.
    pub op_bit-held :
        (int : ℤ → ℤ → ℤ) (l r : Number F) → op_bit F ops int l r ≡ on_held int (held l) (held r)
    unfolding op_bit
    op_bit-held int l r =
        ap (λ (x : Outcome (Option ℤ)). both int x (bit_operand F ops r)) (bit_operand-held l)
        ∙ ap (λ (y : Outcome (Option ℤ)). both int (operand_of (held l)) y) (bit_operand-held r)
        ∙ both-on_held int (held l) (held r)
