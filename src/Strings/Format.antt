-- ===== src/Strings/Format.antt =====
-- `parse_spec` of src/builtin/string/mod.rs: one conversion specification of `string.format`.
pub mod Bounds
use tcvm.Common.{ℕ, zero, suc, ◌+◌, ◌-◌, ◌*◌, ◌%◌, ◌^◌, ◌≤◌, ◌<◌, ◌≡◌, refl, arith, inl, inr}
use tcvm.Common.{Bool, true, false, not, ◌&&◌, ◌||◌, Option, none, some, List, [], ◌∷◌, ltb, leb}
use tcvm.Common.{◌==◌, if◌then◌else◌, length, get_elem?, get_elem?_bound, Bool-cases}
use tcvm.Common.{Option-cases}
use tcvm.Pattern.{Bytes}
use tcvm.Pattern.Class.{is_digit, is_alpha, has_at}
use tcvm.Pattern.Search.{contains}

-- The flags, in the order of their fields, and the rest of `FmtSpec`.
pub record FmtSpec : Type 0 where
  pub flag_minus : Bool
  pub flag_plus : Bool
  pub flag_space : Bool
  pub flag_hash : Bool
  pub flag_zero : Bool
  pub width : ℕ
  pub precision : Option ℕ
  pub conv : ℕ

-- A specification and where it ends, or one of the two errors.
pub data Parsed : Type 0 where
  parsed : FmtSpec → ℕ → Parsed
  invalid_conv_spec cannot_have_modifiers : Parsed

abbrev pub empty_spec : FmtSpec
empty_spec = record {
  flag_minus = false;
  flag_plus = false;
  flag_space = false;
  flag_hash = false;
  flag_zero = false;
  width = 0;
  precision = none;
  conv = 0;
}

-- The field that a flag sets; `none` for a byte that is no flag.
abbrev pub set_flag : ℕ → FmtSpec → Option FmtSpec
set_flag c spec =
    if c == b'-'
    then some (record spec { flag_minus = true })
    else if c == b'+'
    then some (record spec { flag_plus = true })
    else if c == b' '
    then some (record spec { flag_space = true })
    else if c == b'#'
    then some (record spec { flag_hash = true })
    else if c == b'0'
    then some (record spec { flag_zero = true })
    else none

-- The counts of digits are i32, here their 32 bits, which wrap around: `< 2` and `> 2`.
abbrev pub below_two : ℕ → Bool
below_two n = ltb n 2 || leb (2 ^ 31) n

abbrev pub above_two : ℕ → Bool
above_two n = ltb 2 n && ltb n (2 ^ 31)

abbrev pub next_value : ℕ → ℕ → ℕ → ℕ
next_value value n c = if below_two n then (value * 10 + (c - b'0')) % 2 ^ 64 else value

module _ (fmt : Bytes) where
  -- The loop over the flags; the fuel is at least what is left of the text.
  unfoldable pub flags_loop : ℕ → FmtSpec → ℕ → FmtSpec × ℕ
  flags_loop zero spec i = (spec, i)
  flags_loop (suc fuel) spec i = elim (get_elem? fmt i) [
    | none ↦ (spec, i)
    | some c ↦ elim (set_flag c spec) [
      | none ↦ (spec, i)
      | some spec' ↦ flags_loop fuel spec' (i + 1)
    ]
  ]

  -- The loop over digits, of which the first two count: the value, how many there are, the end.
  unfoldable pub two_digits : ℕ → ℕ → ℕ → ℕ → ℕ × ℕ × ℕ
  two_digits zero value n i = (value, n, i)
  two_digits (suc fuel) value n i = elim (get_elem? fmt i) [
    | none ↦ (value, n, i)
    | some c ↦ elim (is_digit c) [
      | false ↦ (value, n, i)
      | true ↦ two_digits fuel (next_value value n c) ((n + 1) % 2 ^ 32) (i + 1)
    ]
  ]

  -- The flags that a conversion allows, and whether it allows a precision.
  unfoldable pub allowed : ℕ → Option (Bytes × Bool)
  allowed c =
      if c == b'd' || c == b'i'
      then some (b'-' ∷ b'+' ∷ b'0' ∷ b' ' ∷ [], true)
      else if c == b'u'
      then some (b'-' ∷ b'0' ∷ [], true)
      else if c == b'o' || (c == b'x' || c == b'X')
      then some (b'-' ∷ b'#' ∷ b'0' ∷ [], true)
      else if contains (b'a' ∷ b'A' ∷ b'e' ∷ b'E' ∷ b'f' ∷ b'F' ∷ b'g' ∷ b'G' ∷ []) c
      then some (b'-' ∷ b'+' ∷ b'#' ∷ b'0' ∷ b' ' ∷ [], true)
      else if c == b'c'
      then some (b'-' ∷ [], false)
      else if c == b's'
      then some (b'-' ∷ [], true)
      else none

  abbrev pub is_some : Option ℕ → Bool
  is_some none = false
  is_some (some p) = true

  unfoldable pub has_mods : FmtSpec → Bool
  has_mods spec =
      spec.flag_minus
      || (spec.flag_plus
          || (spec.flag_space
              || (spec.flag_hash
                  || (spec.flag_zero || (not (spec.width == 0) || is_some spec.precision)))))

  unfoldable pub flag_rejected : FmtSpec → Bytes → Bool
  flag_rejected spec flags =
      spec.flag_minus && not (contains flags b'-')
      || (spec.flag_plus && not (contains flags b'+')
          || (spec.flag_space && not (contains flags b' ')
              || (spec.flag_hash && not (contains flags b'#')
                  || (spec.flag_zero && not (contains flags b'0')))))

  -- What follows the precision, with the number of digits of the width and of the precision.
  unfoldable pub check_conv : FmtSpec → ℕ → ℕ → ℕ → Parsed
  unfolding allowed has_mods flag_rejected
  check_conv spec wdigits pdigits i = elim (get_elem? fmt i) [
    | none ↦ invalid_conv_spec
    | some c ↦
        let spec' = record spec { conv = c } in
        if c == b'%'
        then parsed spec' (i + 1)
        else if c == b'q'
        then (if has_mods spec then cannot_have_modifiers else parsed spec' (i + 1))
        else if not (is_alpha c) || (above_two wdigits || above_two pdigits)
        then invalid_conv_spec
        else elim (allowed c) [
          | none ↦ parsed spec' (i + 1)
          | some (flags, precision_ok) ↦
              if flag_rejected spec flags || (is_some spec.precision && not precision_ok)
              then invalid_conv_spec
              else parsed spec' (i + 1)
        ]
  ]

  unfoldable pub parse_spec : ℕ → Parsed
  unfolding flags_loop two_digits check_conv
  parse_spec start =
      let fuel = length fmt in
      let (spec, i) = flags_loop fuel empty_spec start in
      let (width, wdigits, i) = two_digits fuel 0 0 i in
      let spec = record spec { width = width } in
      if has_at fmt i b'.'
      then (let (p, pdigits, i) = two_digits fuel 0 0 (i + 1) in
          check_conv (record spec { precision = some p }) wdigits pdigits i)
      else check_conv spec wdigits 0 i
