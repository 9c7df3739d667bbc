-- ===== src/Literal/Escapes.antt =====
-- The numeric escapes against the value of their digits.
use tcvm.Common.{leb, ltb, if◌then◌else◌, take-append, length-append, length, Option-cases, take}
use tcvm.Common.{ℕ, ◌+◌, ◌-◌, ◌*◌, ◌^◌, ◌≤◌, ◌<◌, ◌≡◌, ◌≢◌, ap, ◌∙◌, arith, Option, none, some}
use tcvm.Common.{List, [], ◌∷◌, ◌++◌, inl, inr}
use tcvm.Utf8.{Bytes, encode}
use tcvm.Literal.{to_digit, digits_loop, from_str_radix, unicode_result, byte_result}
use tcvm.Literal.{parse_unicode_escape, parse_decimal_escape, parse_hex_escape}
use tcvm.Literal.Encoder.{utf8_encode-eq-encode}

-- The number that a text names in the radix, with no bound; `none` if it holds another character.
unfoldable pub digits_value : ℕ → List ℕ → ℕ → Option ℕ
digits_value radix [] value = some value
digits_value radix (c ∷ cs) value = elim (to_digit radix c) [
  | none ↦ none
  | some d ↦ digits_value radix cs (value * radix + d)
]

abbrev below : ℕ → Option ℕ → Option ℕ
below limit none = none
below limit (some n) = if ltb n limit then some n else none

value_grows :
    (radix : ℕ) (cs : List ℕ) (value n : ℕ)
    → 1 ≤ radix
    → digits_value radix cs value ≡ some n
    → value ≤ n
unfolding digits_value
value_grows radix [] value n h e = ground arith
value_grows radix (c ∷ cs) value n h e = elim (Option-cases (to_digit radix c)) [
  | inl bad ↦ absurd (ground (arith, bad))
  | inr (d, good) ↦ grind (arith, good, value_grows radix cs (value * radix + d) n h)
]

digit_bound : (radix c d : ℕ) → to_digit radix c ≡ some d → d < radix
unfolding to_digit
digit_bound radix c d e = ground arith

-- The checks for overflow refuse exactly the values that do not fit.
digits_loop-below :
    (radix limit : ℕ) (cs : List ℕ) (value : ℕ)
    → 1 ≤ radix
    → value < limit
    → digits_loop radix limit cs value ≡ below limit (digits_value radix cs value)
unfolding digits_loop digits_value
digits_loop-below radix limit [] value h fits = ground arith
digits_loop-below radix limit (c ∷ cs) value h fits = elim (Option-cases (to_digit radix c)) [
  | inl bad ↦ ground (arith, bad)
  | inr (d, good) ↦ elim (Option-cases (digits_value radix cs (value * radix + d))) [
    | inl invalid ↦
        ground (arith, good, invalid, digits_loop-below radix limit cs (value * radix + d) h)
    | inr (n, valid) ↦ ground (
      arith,
      good,
      valid,
      value_grows radix cs (value * radix + d) n h valid,
      digits_loop-below radix limit cs (value * radix + d) h,
    )
  ]
]

-- A digit, not a sign, stands in front.
abbrev pub Unsigned : List ℕ → Type 0
Unsigned [] = ⊥
Unsigned (c ∷ cs) = c ≢ b'+'

from_str_radix-below :
    (radix limit : ℕ) (cs : List ℕ)
    → 1 ≤ radix
    → 1 ≤ limit
    → Unsigned cs
    → from_str_radix radix limit cs ≡ below limit (digits_value radix cs 0)
unfolding from_str_radix
from_str_radix-below radix limit [] h k u = absurd u
from_str_radix-below radix limit (c ∷ []) h k u = digits_loop-below radix limit (c ∷ []) 0 h k
from_str_radix-below radix limit (c ∷ d ∷ cs) h k u =
    ground (arith, digits_loop-below radix limit (c ∷ d ∷ cs) 0 h k)

-- `\u{digits}`
abbrev pub unicode_token : List ℕ → Bytes
unicode_token ds = b'\\' ∷ b'u' ∷ b'{' ∷ (ds ++ (b'}' ∷ []))

braced-token : (ds : List ℕ) → take (length (unicode_token ds) - 1 - 3) (ds ++ (b'}' ∷ [])) ≡ ds
braced-token ds =
    let e : length (unicode_token ds) - 1 - 3 ≡ length ds =
      omega (arith, length-append ds (b'}' ∷ [])) in
    rw e (take-append ds (b'}' ∷ []))

-- What the escapes of Lua mean: a code point up to 0x7fffffff in UTF-8, a byte.
abbrev pub code_point_of : Bytes → Option ℕ → Option Bytes
code_point_of dst none = none
code_point_of dst (some cp) = if leb cp 0x7fffffff then some (encode cp dst) else none

abbrev pub byte_of : Bytes → Option ℕ → Option Bytes
byte_of dst none = none
byte_of dst (some c) = if leb c 255 then some (dst ++ (c ∷ [])) else none

code_point_below :
    (dst : Bytes) (value parsed : Option ℕ)
    → parsed ≡ below (2 ^ 64) value
    → unicode_result dst parsed ≡ code_point_of dst value
code_point_below dst none parsed e = ground (arith, e)
code_point_below dst (some cp) parsed e = ground (arith, e, utf8_encode-eq-encode dst cp)

byte_below :
    (dst : Bytes) (value parsed : Option ℕ)
    → parsed ≡ below (2 ^ 8) value
    → byte_result dst parsed ≡ byte_of dst value
byte_below dst none parsed e = ground (arith, e)
byte_below dst (some c) parsed e = ground (arith, e)

-- For a text in the braces that is not empty and does not start with `+`: `\u{…}` appends the
-- UTF-8 encoding of the number that its hexadecimal digits name, if that is at most 0x7fffffff; a
-- larger number, also one past 64 bits, and a text that is not all digits are refused.
pub parse_unicode_escape_lem :
    (dst : Bytes) (ds : List ℕ)
    → Unsigned ds
    → parse_unicode_escape dst (unicode_token ds) ≡ code_point_of dst (digits_value 16 ds 0)
unfolding parse_unicode_escape
parse_unicode_escape_lem dst ds u = code_point_below dst (digits_value 16 ds 0) _ (
    ap (from_str_radix 16 (2 ^ 64)) (braced-token ds)
    ∙ from_str_radix-below 16 (2 ^ 64) ds (omega arith) (omega arith) u)

-- For a text behind the backslash that is not empty and does not start with `+`: `\ddd` appends
-- the byte that its decimal digits name, and is refused if they name no byte.
pub parse_decimal_escape_lem :
    (dst : Bytes) (ds : List ℕ)
    → Unsigned ds
    → parse_decimal_escape dst (b'\\' ∷ ds) ≡ byte_of dst (digits_value 10 ds 0)
unfolding parse_decimal_escape
parse_decimal_escape_lem dst ds u =
    byte_below dst (digits_value 10 ds 0) _
      (from_str_radix-below 10 (2 ^ 8) ds (omega arith) (omega arith) u)

-- `\x` with two hexadecimal digits, the first no `+`, appends the byte that they name, so that
-- the `expect` of its parser never panics.
pub parse_hex_escape_lem :
    (dst : Bytes) (c d : ℕ) {h l : ℕ}
    → to_digit 16 c ≡ some h
    → to_digit 16 d ≡ some l
    → c ≢ b'+'
    → parse_hex_escape dst (b'\\' ∷ b'x' ∷ c ∷ d ∷ []) ≡ some (dst ++ ((h * 16 + l) ∷ []))
unfolding parse_hex_escape from_str_radix digits_loop
parse_hex_escape_lem dst c d {h} {l} high low u =
    ground (arith, high, low, digit_bound 16 c h high, digit_bound 16 d l low)
