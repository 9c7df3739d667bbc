-- ===== src/Examples/Num.antt =====
-- Arithmetic at the ends of the range, and bit operations on floats. The floats are the integers,
-- and `none` for a float that is none.
use tcvm.Common.{◌≡◌, ◌↔◌, refl, ap, Bool, true, false, ◌&&◌, Option, none, some, arith}
use tcvm.Common.Int.{◌-ℤ◌, ℤ, pos, negsuc, ltb_ℤ}
use tcvm.Num.{integer, float, op_arith, op_bit, implementation, FloatOps, Operation, modulo}
use tcvm.Num.{to_bits, of_bits, band_int, idiv_int, mod_int}
use tcvm.Num.Division.{idiv_int-mod_int}
use tcvm.Num.Division.Signs.{FloorDivides}
use tcvm.Num.Errors.{Refused, op_arith-Refused}
use tcvm.Num.Exact.{IsF64, held, on_held, op_bit-held}

-- -7 // 2 = -4
rounded : idiv_int (negsuc 6) (pos 2) ≡ negsuc 3
unfolding idiv_int of_bits to_bits ◌-ℤ◌
rounded = refl

abbrev Float : Type 0
Float = Option ℤ

abbrev as_float : ℤ → Float
as_float i = some i

abbrev lt : Float → Float → Bool
lt none y = false
lt (some a) none = false
lt (some a) (some b) = ltb_ℤ a b

abbrev is_some : Float → Bool
is_some none = false
is_some (some z) = true

abbrev or_zero : Float → ℤ
or_zero none = pos 0
or_zero (some z) = z

abbrev ops : FloatOps Float
ops = record {
  as_f64 = as_float;
  is_finite = is_some;
  float_lt = lt;
  float_eq = λ x y. true;
  trunc = λ x. x;
  to_int_unchecked = or_zero;
}

abbrev first_float : Operation Float as_float → Float → Float → Float
first_float o x y = x

lt-some : (x y : Float) (a b : ℤ) → x ≡ some a → y ≡ some b → lt x y ≡ ltb_ℤ a b
lt-some x y a b e e' = rw (e, e') refl

is_some-none : (x : Float) → x ≡ none → (is_some x && true) ≡ false
is_some-none x e = rw e refl

ops-IsF64 : IsF64 ops (λ x. x)
ops-IsF64 = record {
  as_f64-value = λ z e. refl;
  is_finite-value = λ x z e. ap is_some e;
  float_lt-value = lt-some;
  trunc-value = λ x z e. refl;
  trunc-no_value = is_some-none;
  to_int-value = λ x z e fits. ap or_zero e;
}

op_arith-Refused_example :
    (op_arith Float as_float
        (implementation Float as_float first_float modulo)
        (integer (pos 1))
        (integer (pos 0))
      ≡ none)
    ↔ Refused Float as_float modulo (integer (pos 1)) (integer (pos 0))
op_arith-Refused_example =
    op_arith-Refused Float as_float first_float modulo (integer (pos 1)) (integer (pos 0))

-- 6 & 3.0
op_bit-held_example :
    op_bit Float ops band_int (integer (pos 6)) (float (some (pos 3)))
    ≡ on_held ops
        (λ x. x)
        band_int
        (held ops (λ x. x) (integer (pos 6)))
        (held ops (λ x. x) (float (some (pos 3))))
op_bit-held_example =
    op_bit-held ops (λ x. x) ops-IsF64 band_int (integer (pos 6)) (float (some (pos 3)))

-- -7 = -4 * 2 + 1
idiv_int-mod_int_example :
    FloorDivides (negsuc 6) (pos 2) (idiv_int (negsuc 6) (pos 2)) (mod_int (negsuc 6) (pos 2))
idiv_int-mod_int_example =
    idiv_int-mod_int (negsuc 6) (pos 2) (omega arith) (omega arith) (λ e. ground (arith, e))
      (λ (x, y). ground (arith, x, y))
