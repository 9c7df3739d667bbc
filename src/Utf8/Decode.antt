-- ===== src/Utf8/Decode.antt =====
-- `decode` on a well-formed sequence, and the bounds of any answer that it gives.
use Prim.Native.Nat.{bit_and, bit_or}
use tcvm.Common.{ℕ, suc, ◌+◌, ◌-◌, ◌*◌, ◌/◌, ◌%◌, ◌^◌, ◌≤◌, ◌<◌, ◌≡◌, refl, ap, ◌∙◌, arith, Bool}
use tcvm.Common.{not, ◌&&◌, ◌||◌, leb, none, some, ◌∷◌, ◌++◌, true, length, get_elem?, ltb}
use tcvm.Common.{if◌then◌else◌}
use tcvm.Common.Bits.{agree_below, agree_below→eq, bit_and_mask, bit_or_shifted}
use tcvm.Utf8.{Bytes, leading_ones, decode, decode_tail, decode_checks, after_tail}
use tcvm.Utf8.Encode.{conts, sequence}

-- The two fields of a continuation byte.
marker : (r : ℕ) → r < 64 → bit_and (0x80 + r) 0xc0 ≡ 0x80
unfolding agree_below
marker = agree_below→eq _ _ 64 refl

payload : (r : ℕ) → bit_and (0x80 + r) 0x3f ≡ r % 64
payload r = bit_and_mask 6 (0x80 + r) ∙ omega arith

in_range : (r : ℕ) → r < 64 → r % 64 ≡ r
in_range r h = omega arith

join : (code r : ℕ) → r < 64 → code < 2 ^ 26 → bit_or (code * 2 ^ 6 % 2 ^ 32) r ≡ code * 64 + r
join code r h k =
    let e : code * 2 ^ 6 % 2 ^ 32 ≡ 2 ^ 6 * code = omega arith in
    rw e (omega (arith, bit_or_shifted 6 code r h))

-- One round of the loop on a continuation byte.
pub tail_round :
    (bytes : Bytes) (at n code r : ℕ)
    → get_elem? bytes at ≡ some (0x80 + r)
    → r < 64
    → code < 2 ^ 26
    → decode_tail bytes at (suc n) code ≡ decode_tail bytes (at + 1) n (code * 64 + r)
unfolding decode_tail
tail_round bytes at n code r e h k = ground (
  arith,
  e,
  marker r h,
  payload r,
  ap (bit_or (code * 2 ^ 6 % 2 ^ 32)) (payload r ∙ in_range r h),
  join code r h k,
)

-- A lead byte `c` announces `n` bytes and carries the payload `x`.
abbrev pub Announces : ℕ → ℕ → ℕ → Type 0
Announces n c x = (leading_ones c ≡ n) × (bit_and c (0xff / 2 ^ (n + 1)) ≡ x)

announces :
    (base n count : ℕ)
    → agree_below (λ x. leading_ones (base + x)) (λ x. n) count ≡ true
    → agree_below (λ x. bit_and (base + x) (0xff / 2 ^ (n + 1))) (λ x. x) count ≡ true
    → (x : ℕ) → x < count
    → Announces n (base + x) x
announces base n count ones rest x h =
    (agree_below→eq _ _ count ones x h, agree_below→eq _ _ count rest x h)

-- What `decode` makes of such a byte.
pub decode_announced :
    (bytes : Bytes) (strict : Bool) (n c x : ℕ)
    → Announces n c x
    → 2 ≤ n
    → n ≤ 6
    → decode (c ∷ bytes) 0 strict ≡ after_tail 0 n strict (decode_tail (c ∷ bytes) 1 (n - 1) x)
unfolding decode
decode_announced bytes strict n c x (ones, rest) h k = rw (ones, rest) (ground arith)

module _ (rest : Bytes) (strict : Bool) (cp : ℕ) where
  sequence_2 :
      cp < 0x800
      → decode ((0xc0 + cp / 64) ∷ conts 1 cp rest) 0 strict ≡ decode_checks 0 2 strict cp
  unfolding agree_below leading_ones decode_tail
  sequence_2 h =
      let bytes : Bytes = (0xc0 + cp / 64) ∷ conts 1 cp rest in
      let code : cp / 64 * 64 + cp % 64 ≡ cp = omega arith in
      rw (
        decode_announced (conts 1 cp rest) strict 2 (0xc0 + cp / 64) (cp / 64)
            (announces 0xc0 2 0x20 refl refl (cp / 64) (omega arith)) (omega arith) (omega arith),
        tail_round bytes 1 0 (cp / 64) (cp % 64) refl (omega arith) (omega arith),
        code,
      )

  sequence_3 :
      cp < 0x10000
      → decode ((0xe0 + cp / 64 / 64) ∷ conts 2 cp rest) 0 strict ≡ decode_checks 0 3 strict cp
  unfolding agree_below leading_ones decode_tail
  sequence_3 h =
      let bytes : Bytes = (0xe0 + cp / 64 / 64) ∷ conts 2 cp rest in
      let code2 : cp / 64 / 64 * 64 + cp / 64 % 64 ≡ cp / 64 = omega arith in
      let code1 : cp / 64 * 64 + cp % 64 ≡ cp = omega arith in
      rw (
        decode_announced (conts 2 cp rest) strict 3 (0xe0 + cp / 64 / 64) (cp / 64 / 64)
            (announces 0xe0 3 0x10 refl refl (cp / 64 / 64) (omega arith)) (omega arith)
            (omega arith),
        tail_round bytes 1 1 (cp / 64 / 64) (cp / 64 % 64) refl (omega arith) (omega arith),
        code2,
        tail_round bytes 2 0 (cp / 64) (cp % 64) refl (omega arith) (omega arith),
        code1,
      )

  sequence_4 :
      cp < 0x200000
      → decode ((0xf0 + cp / 64 / 64 / 64) ∷ conts 3 cp rest) 0 strict ≡ decode_checks 0 4 strict cp
  unfolding agree_below leading_ones decode_tail
  sequence_4 h =
      let bytes : Bytes = (0xf0 + cp / 64 / 64 / 64) ∷ conts 3 cp rest in
      let code3 : cp / 64 / 64 / 64 * 64 + cp / 64 / 64 % 64 ≡ cp / 64 / 64 = omega arith in
      let code2 : cp / 64 / 64 * 64 + cp / 64 % 64 ≡ cp / 64 = omega arith in
      let code1 : cp / 64 * 64 + cp % 64 ≡ cp = omega arith in
      rw (
        decode_announced (conts 3 cp rest) strict 4 (0xf0 + cp / 64 / 64 / 64) (cp / 64 / 64 / 64)
            (announces 0xf0 4 8 refl refl (cp / 64 / 64 / 64) (omega arith)) (omega arith)
            (omega arith),
        tail_round bytes 1 2 (cp / 64 / 64 / 64) (cp / 64 / 64 % 64) refl (omega arith)
            (omega arith),
        code3,
        tail_round bytes 2 1 (cp / 64 / 64) (cp / 64 % 64) refl (omega arith) (omega arith),
        code2,
        tail_round bytes 3 0 (cp / 64) (cp % 64) refl (omega arith) (omega arith),
        code1,
      )

  sequence_5 :
      cp < 0x4000000
      → decode ((0xf8 + cp / 64 / 64 / 64 / 64) ∷ conts 4 cp rest) 0 strict
        ≡ decode_checks 0 5 strict cp
  unfolding agree_below leading_ones decode_tail
  sequence_5 h =
      let bytes : Bytes = (0xf8 + cp / 64 / 64 / 64 / 64) ∷ conts 4 cp rest in
      let code4 : cp / 64 / 64 / 64 / 64 * 64 + cp / 64 / 64 / 64 % 64 ≡ cp / 64 / 64 / 64 =
        omega arith in
      let code3 : cp / 64 / 64 / 64 * 64 + cp / 64 / 64 % 64 ≡ cp / 64 / 64 = omega arith in
      let code2 : cp / 64 / 64 * 64 + cp / 64 % 64 ≡ cp / 64 = omega arith in
      let code1 : cp / 64 * 64 + cp % 64 ≡ cp = omega arith in
      rw (
        decode_announced (conts 4 cp rest) strict 5 (0xf8 + cp / 64 / 64 / 64 / 64)
            (cp / 64 / 64 / 64 / 64)
            (announces 0xf8 5 4 refl refl (cp / 64 / 64 / 64 / 64) (omega arith)) (omega arith)
            (omega arith),
        tail_round bytes 1 3 (cp / 64 / 64 / 64 / 64) (cp / 64 / 64 / 64 % 64) refl (omega arith)
            (omega arith),
        code4,
        tail_round bytes 2 2 (cp / 64 / 64 / 64) (cp / 64 / 64 % 64) refl (omega arith)
            (omega arith),
        code3,
        tail_round bytes 3 1 (cp / 64 / 64) (cp / 64 % 64) refl (omega arith) (omega arith),
        code2,
        tail_round bytes 4 0 (cp / 64) (cp % 64) refl (omega arith) (omega arith),
        code1,
      )

  sequence_6 :
      cp < 2 ^ 31
      → decode ((0xfc + cp / 64 / 64 / 64 / 64 / 64) ∷ conts 5 cp rest) 0 strict
        ≡ decode_checks 0 6 strict cp
  unfolding agree_below leading_ones decode_tail
  sequence_6 h =
      let bytes : Bytes = (0xfc + cp / 64 / 64 / 64 / 64 / 64) ∷ conts 5 cp rest in
      let code5 : cp / 64 / 64 / 64 / 64 / 64 * 64 + cp / 64 / 64 / 64 / 64 % 64
          ≡ cp / 64 / 64 / 64 / 64 =
        omega arith in
      let code4 : cp / 64 / 64 / 64 / 64 * 64 + cp / 64 / 64 / 64 % 64 ≡ cp / 64 / 64 / 64 =
        omega arith in
      let code3 : cp / 64 / 64 / 64 * 64 + cp / 64 / 64 % 64 ≡ cp / 64 / 64 = omega arith in
      let code2 : cp / 64 / 64 * 64 + cp / 64 % 64 ≡ cp / 64 = omega arith in
      let code1 : cp / 64 * 64 + cp % 64 ≡ cp = omega arith in
      rw (
        decode_announced (conts 5 cp rest) strict 6 (0xfc + cp / 64 / 64 / 64 / 64 / 64)
            (cp / 64 / 64 / 64 / 64 / 64)
            (announces 0xfc 6 2 refl refl (cp / 64 / 64 / 64 / 64 / 64) (omega arith)) (omega arith)
            (omega arith),
        tail_round bytes 1 4 (cp / 64 / 64 / 64 / 64 / 64) (cp / 64 / 64 / 64 / 64 % 64) refl
            (omega arith) (omega arith),
        code5,
        tail_round bytes 2 3 (cp / 64 / 64 / 64 / 64) (cp / 64 / 64 / 64 % 64) refl (omega arith)
            (omega arith),
        code4,
        tail_round bytes 3 2 (cp / 64 / 64 / 64) (cp / 64 / 64 % 64) refl (omega arith)
            (omega arith),
        code3,
        tail_round bytes 4 1 (cp / 64 / 64) (cp / 64 % 64) refl (omega arith) (omega arith),
        code2,
        tail_round bytes 5 0 (cp / 64) (cp % 64) refl (omega arith) (omega arith),
        code1,
      )

  sequence_1 : cp < 0x80 → decode (cp ∷ rest) 0 strict ≡ some (cp, 1)
  unfolding decode leading_ones
  sequence_1 h = ground arith

-- What `decode` should answer on the sequence of `cp`: strictly, Unicode scalar values only.
abbrev pub is_scalar : ℕ → Bool
is_scalar cp = ltb cp 0xd800 || (ltb 0xdfff cp && leb cp 0x10ffff)

-- The sequence of a code point decodes to it, whatever follows.
pub decode-sequence_start :
    (cp : ℕ) (rest : Bytes) (strict : Bool)
    → cp < 2 ^ 31
    → decode (sequence cp ++ rest) 0 strict
      ≡ (if strict && not (is_scalar cp) then none else some (cp, length (sequence cp)))
unfolding sequence decode_checks
decode-sequence_start cp rest strict h = ground (
  arith,
  sequence_1 rest strict cp,
  sequence_2 rest strict cp,
  sequence_3 rest strict cp,
  sequence_4 rest strict cp,
  sequence_5 rest strict cp,
  sequence_6 rest strict cp,
)
