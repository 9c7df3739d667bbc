-- ===== src/Literal.antt =====
-- src/parser/lit.rs: the escapes of string literals that hold a number, and the UTF-8 encoder of
-- the parser, which fills a buffer of eight bytes from its end. The split of a literal into
-- escapes is the work of a generated lexer, and an escape arrives here as the text of one token.
pub mod Encoder
pub mod Escapes
use Prim.Native.Nat.{bit_and, bit_or}
use tcvm.Common.{ℕ, zero, suc, ◌+◌, ◌-◌, ◌*◌, ◌/◌, ◌%◌, ◌^◌, ◌≤◌, ◌<◌, Bool, true, false, ◌&&◌}
use tcvm.Common.{◌||◌, Option, none, some, List, [], ◌∷◌, ◌++◌, ltb, leb, ◌==◌, if◌then◌else◌}
use tcvm.Common.{length, set, drop, take, replicate, dec_le, dite, Acc, lt_wf}
use tcvm.Utf8.{Bytes, shift_shrinks}

-- `(0x80 | (x & 0x3f)) as u8`
unfoldable pub buffer_continuation : ℕ → ℕ
buffer_continuation x = bit_or 0x80 (bit_and x 0x3f) % 2 ^ 8

-- `((!mfb << 1) | x) as u8`
unfoldable pub buffer_lead : ℕ → ℕ → ℕ
buffer_lead mfb x = bit_or ((2 ^ 32 - 1 - mfb) * 2 % 2 ^ 32) x % 2 ^ 8

-- The loop of `utf8_encode`, the lead byte behind it and the slice `buff[SZ - n..]`.
unfoldable pub fill : Bytes → ℕ → ℕ → (x : ℕ) → Acc ◌<◌ x → Bytes
unfolding buffer_continuation buffer_lead
fill buff n mfb x (Acc.intro _ smaller) =
    let buff' = set buff (8 - n) (buffer_continuation x) in
    dite (dec_le (x / 2 ^ 6) (mfb / 2))
      (λ _. drop (8 - (n + 1)) (set buff' (8 - (n + 1)) (buffer_lead (mfb / 2) (x / 2 ^ 6))))
      (λ more. fill buff' (n + 1) (mfb / 2) (x / 2 ^ 6) (smaller _ (shift_shrinks x mfb more)))

unfoldable pub utf8_encode : Bytes → ℕ → Bytes
unfolding fill lt_wf dec_le
utf8_encode dst cp =
    if ltb cp 0x80 then dst ++ (cp ∷ []) else dst ++ fill (replicate 8 0) 1 0x3f cp (lt_wf.apply cp)

-- `char::to_digit`
unfoldable pub to_digit : ℕ → ℕ → Option ℕ
to_digit radix c =
    let d =
      if leb b'0' c && leb c b'9'
      then c - b'0'
      else if leb b'a' c && leb c b'z'
      then c - b'a' + 10
      else if leb b'A' c && leb c b'Z'
      then c - b'A' + 10
      else radix in
    if ltb d radix then some d else none

-- The digits of `from_str_radix` for an unsigned type below `limit`.
unfoldable pub digits_loop : ℕ → ℕ → List ℕ → ℕ → Option ℕ
digits_loop radix limit [] value = some value
digits_loop radix limit (c ∷ cs) value = elim (to_digit radix c) [
  | none ↦ none
  | some d ↦
      let rest = digits_loop radix limit cs (value * radix + d) in
      if ltb (value * radix + d) limit then rest else none
]

-- `from_str_radix`: no digits are an error, and one `+` may stand in front.
unfoldable pub from_str_radix : ℕ → ℕ → List ℕ → Option ℕ
from_str_radix radix limit [] = none
from_str_radix radix limit (c ∷ []) = digits_loop radix limit (c ∷ []) 0
from_str_radix radix limit (c ∷ d ∷ cs) =
    if c == b'+' then digits_loop radix limit (d ∷ cs) 0 else digits_loop radix limit (c ∷ d ∷ cs) 0

-- `&s[3..s.len() - 1]`
abbrev braced : Bytes → Bytes
braced s = take (length s - 1 - 3) (drop 3 s)

abbrev pub unicode_result : Bytes → Option ℕ → Option Bytes
unicode_result dst none = none
unicode_result dst (some cp) = if ltb 0x7fffffff cp then none else some (utf8_encode dst cp)

abbrev pub byte_result : Bytes → Option ℕ → Option Bytes
byte_result dst none = none
byte_result dst (some c) = some (dst ++ (c ∷ []))

unfoldable pub parse_unicode_escape : Bytes → Bytes → Option Bytes
parse_unicode_escape dst s = unicode_result dst (from_str_radix 16 (2 ^ 64) (braced s))

unfoldable pub parse_decimal_escape : Bytes → Bytes → Option Bytes
parse_decimal_escape dst s = byte_result dst (from_str_radix 10 (2 ^ 8) (drop 1 s))

-- `none` is the panic of `expect`.
unfoldable pub parse_hex_escape : Bytes → Bytes → Option Bytes
parse_hex_escape dst s = byte_result dst (from_str_radix 16 (2 ^ 8) (drop 2 s))
