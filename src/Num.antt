-- ===== src/Num.antt =====
-- src/vm/num.rs: arithmetic and bit operations on the values of the VM. The floats are the f64 of
-- the hardware: a type and its operations are parameters.
pub mod Errors
pub mod Exact
pub mod Division
use Prim.Native.Nat.{bit_and, bit_or, bit_xor}
use tcvm.Common.{ℕ, zero, suc, ◌-◌, ◌*◌, ◌/◌, ◌%◌, ◌^◌, Bool, true, false, not, ◌&&◌, ◌||◌}
use tcvm.Common.{Option, none, some, ltb, if◌then◌else◌}
use tcvm.Common.Int.{ℤ, pos, negsuc, ◌+ℤ◌, ◌-ℤ◌, ◌*ℤ◌, eqb_ℤ}
use tcvm.Pattern.{Outcome, ok, panic, ◌>>=◌}

-- The 64 bits of an i64, and the i64 of 64 bits.
unfoldable pub to_bits : ℤ → ℕ
to_bits (pos n) = n % 2 ^ 64
to_bits (negsuc n) = 2 ^ 64 - 1 - n % 2 ^ 64

unfoldable pub of_bits : ℕ → ℤ
of_bits b = if ltb b (2 ^ 63) then pos b else negsuc (2 ^ 64 - 1 - b)

abbrev wrap : ℤ → ℤ
wrap z = of_bits (to_bits z)

-- Division and remainder towards zero; a zero divisor does not come here.
abbrev negated : ℕ → ℤ
negated zero = pos 0
negated (suc n) = negsuc n

abbrev quotient : ℤ → ℤ → ℤ
quotient (pos a) (pos b) = pos (a / b)
quotient (pos a) (negsuc b) = negated (a / suc b)
quotient (negsuc a) (pos b) = negated (suc a / b)
quotient (negsuc a) (negsuc b) = pos (suc a / suc b)

abbrev magnitude : ℤ → ℕ
magnitude (pos n) = n
magnitude (negsuc n) = suc n

abbrev remainder : ℤ → ℤ → ℤ
remainder (pos a) b = pos (a % magnitude b)
remainder (negsuc a) b = negated (suc a % magnitude b)

-- `(a ^ b) < 0`
abbrev signs_differ : ℤ → ℤ → Bool
signs_differ (pos a) (pos b) = false
signs_differ (pos a) (negsuc b) = true
signs_differ (negsuc a) (pos b) = true
signs_differ (negsuc a) (negsuc b) = false

unfoldable pub mod_int : ℤ → ℤ → ℤ
mod_int a b =
    let r = remainder a b in if not (eqb_ℤ r (pos 0)) && signs_differ r b then wrap (r +ℤ b) else r

unfoldable pub idiv_int : ℤ → ℤ → ℤ
idiv_int a b =
    let q = wrap (quotient a b) in
    if not (eqb_ℤ (remainder a b) (pos 0)) && signs_differ a b then wrap (q -ℤ pos 1) else q

-- `wrapping_shl` and `wrapping_shr`, which take the count modulo 64; the second keeps the sign.
unfoldable pub shl_int : ℤ → ℤ → ℤ
shl_int a b = of_bits (to_bits a * 2 ^ (to_bits b % 64) % 2 ^ 64)

unfoldable pub shr_int : ℤ → ℤ → ℤ
shr_int (pos a) b = pos (a / 2 ^ (to_bits b % 64))
shr_int (negsuc a) b = negsuc (a / 2 ^ (to_bits b % 64))

abbrev pub band_int : ℤ → ℤ → ℤ
band_int a b = of_bits (bit_and (to_bits a) (to_bits b))

abbrev pub bor_int : ℤ → ℤ → ℤ
bor_int a b = of_bits (bit_or (to_bits a) (to_bits b))

abbrev pub bxor_int : ℤ → ℤ → ℤ
bxor_int a b = of_bits (bit_xor (to_bits a) (to_bits b))

-- `MIN` and `MAX` of `exact_float_to_int`
abbrev pub exact_min : ℤ
exact_min = negsuc (2 ^ 53 - 1)

abbrev pub exact_max : ℤ
exact_max = pos (2 ^ 53)

module _ (F : Type 0) where
  -- The values that matter here: a value of another kind is `other`.
  pub data Number : Type 0 where
    integer : ℤ → Number
    float : F → Number
    other : Number

  -- `ArithOp`
  pub record ArithOp : Type 0 where
    pub int_zero_divisor_raises : Bool
    pub int : ℤ → ℤ → Number
    pub float_op : F → F → Number

  abbrev pub add : (F → F → F) → ArithOp
  add f = record {
    int_zero_divisor_raises = false;
    int = λ a b. integer (wrap (a +ℤ b));
    float_op = λ x y. float (f x y);
  }

  abbrev pub sub : (F → F → F) → ArithOp
  sub f = record {
    int_zero_divisor_raises = false;
    int = λ a b. integer (wrap (a -ℤ b));
    float_op = λ x y. float (f x y);
  }

  abbrev pub mul : (F → F → F) → ArithOp
  mul f = record {
    int_zero_divisor_raises = false;
    int = λ a b. integer (wrap (a *ℤ b));
    float_op = λ x y. float (f x y);
  }

  abbrev pub mod_op : (F → F → F) → ArithOp
  mod_op f = record {
    int_zero_divisor_raises = true;
    int = λ a b. integer (mod_int a b);
    float_op = λ x y. float (f x y);
  }

  abbrev pub idiv_op : (F → F → F) → ArithOp
  idiv_op f = record {
    int_zero_divisor_raises = true;
    int = λ a b. integer (idiv_int a b);
    float_op = λ x y. float (f x y);
  }

  module _ (of_int : ℤ → F) where
    -- `Pow` and `Div`, which work on floats only.
    abbrev pub float_only : (F → F → F) → ArithOp
    float_only f = record {
      int_zero_divisor_raises = false;
      int = λ a b. float (f (of_int a) (of_int b));
      float_op = λ x y. float (f x y);
    }

    abbrev pub as_float : Number → Option F
    as_float (integer i) = some (of_int i)
    as_float (float x) = some x
    as_float other = none

    abbrev pub on_floats : ArithOp → Option F → Option F → Option Number
    on_floats op none y = none
    on_floats op (some x) none = none
    on_floats op (some x) (some y) = some (op.float_op x y)

    unfoldable pub op_arith : ArithOp → Number → Number → Option Number
    op_arith op (integer a) (integer b) =
        if op.int_zero_divisor_raises && eqb_ℤ b (pos 0) then none else some (op.int a b)
    op_arith op l r = on_floats op (as_float l) (as_float r)

    -- The types that implement `ArithOp`, with their operations on floats.
    pub data Operation : Type 0 where
      plus minus times modulo power division floor_division : Operation

    unfoldable pub implementation : (Operation → F → F → F) → Operation → ArithOp
    implementation f plus = add (f plus)
    implementation f minus = sub (f minus)
    implementation f times = mul (f times)
    implementation f modulo = mod_op (f modulo)
    implementation f power = float_only (f power)
    implementation f division = float_only (f division)
    implementation f floor_division = idiv_op (f floor_division)

  -- What is used of the f64: `as f64`, the comparisons, `trunc` and `to_int_unchecked`.
  pub record FloatOps : Type 0 where
    pub as_f64 : ℤ → F
    pub is_finite : F → Bool
    pub float_lt : F → F → Bool
    pub float_eq : F → F → Bool
    pub trunc : F → F
    pub to_int_unchecked : F → ℤ

  module _ (ops : FloatOps) where
    -- `exact_float_to_int`; `2 << 53 - 1` is `2 << 52`.
    unfoldable pub exact_float_to_int : F → Option ℤ
    exact_float_to_int x =
        if not (ops.is_finite x)
        then none
        else if ops.float_lt x (ops.as_f64 exact_min) || ops.float_lt (ops.as_f64 exact_max) x
        then none
        else if not (ops.float_eq (ops.trunc x) x)
        then none
        else some (ops.to_int_unchecked x)

    abbrev pub unwrapped : Option ℤ → Outcome (Option ℤ)
    unwrapped none = panic
    unwrapped (some i) = ok (some i)

    -- An operand of a bit operation; `none` is no number, and the unwrap may panic.
    unfoldable pub bit_operand : Number → Outcome (Option ℤ)
    bit_operand (integer i) = ok (some i)
    bit_operand (float x) = unwrapped (exact_float_to_int x)
    bit_operand other = ok none

    unfoldable pub op_bit : (ℤ → ℤ → ℤ) → Number → Number → Outcome (Option Number)
    op_bit int l r = bit_operand l >>= λ a. elim a [
      | none ↦ ok none
      | some a ↦
          bit_operand r >>= λ b. elim b [ none ↦ ok none | some b ↦ ok (some (integer (int a b))) ]
    ]
