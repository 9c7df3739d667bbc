-- ===== src/Utf8/Encode.antt =====
-- What `encode` writes, in plain arithmetic.
use tcvm.Common.{ℕ, zero, suc, ◌+◌, ◌/◌, ◌%◌, ◌^◌, ◌≤◌, ◌<◌, ◌≡◌, refl, ap, ◌∙◌, arith, length}
use tcvm.Common.{Bool-cases, inl, inr, [], ◌∷◌, ◌++◌, ltb, if◌then◌else◌, dec_le, dec_lt, dif_pos}
use tcvm.Common.{dif_neg, Acc, lt_wf}
use Prim.Native.Nat.{bit_and, bit_or}
use native.Mathlib.Bridge.{le_prop}
use tcvm.Common.Bits.{agree_below, agree_below→eq, bit_and_mask}
use tcvm.Utf8.{Bytes, encode, encode_loop, continuation, lead_byte, shift_shrinks}

or_0x80 : (r : ℕ) → r < 64 → bit_or 0x80 (r % 2 ^ 8) ≡ 0x80 + r
unfolding agree_below
or_0x80 = agree_below→eq _ _ 64 refl

masked : (x : ℕ) → bit_and x 0x3f ≡ x % 64
masked x = bit_and_mask 6 x

pub continuation_lem : (x : ℕ) → continuation x ≡ 0x80 + x % 64
unfolding continuation
continuation_lem x =
    ap (λ (r : ℕ). bit_or 0x80 (r % 2 ^ 8)) (masked x) ∙ or_0x80 (x % 64) (omega arith)

lead_2 : (x : ℕ) → x < 0x20 → lead_byte 0x1f x ≡ 0xc0 + x
unfolding agree_below lead_byte
lead_2 = agree_below→eq _ _ 0x20 refl

lead_3 : (x : ℕ) → x < 0x10 → lead_byte 0xf x ≡ 0xe0 + x
unfolding agree_below lead_byte
lead_3 = agree_below→eq _ _ 0x10 refl

lead_4 : (x : ℕ) → x < 8 → lead_byte 7 x ≡ 0xf0 + x
unfolding agree_below lead_byte
lead_4 = agree_below→eq _ _ 8 refl

lead_5 : (x : ℕ) → x < 4 → lead_byte 3 x ≡ 0xf8 + x
unfolding agree_below lead_byte
lead_5 = agree_below→eq _ _ 4 refl

lead_6 : (x : ℕ) → x < 2 → lead_byte 1 x ≡ 0xfc + x
unfolding agree_below lead_byte
lead_6 = agree_below→eq _ _ 2 refl

-- The `k` continuation bytes of `x`, most significant first, before `tail`.
abbrev pub conts : ℕ → ℕ → Bytes → Bytes
conts zero x tail = tail
conts (suc k) x tail = conts k (x / 64) ((0x80 + x % 64) ∷ tail)

-- The sequence of one to six bytes that stands for `cp`.
unfoldable pub sequence : ℕ → Bytes
sequence cp =
    if ltb cp 0x80
    then cp ∷ []
    else if ltb cp 0x800
    then (0xc0 + cp / 64) ∷ conts 1 cp []
    else if ltb cp 0x10000
    then (0xe0 + cp / 64 / 64) ∷ conts 2 cp []
    else if ltb cp 0x200000
    then (0xf0 + cp / 64 / 64 / 64) ∷ conts 3 cp []
    else if ltb cp 0x4000000
    then (0xf8 + cp / 64 / 64 / 64 / 64) ∷ conts 4 cp []
    else (0xfc + cp / 64 / 64 / 64 / 64 / 64) ∷ conts 5 cp []

sequence_low : (cp : ℕ) → cp < 0x80 → sequence cp ≡ cp ∷ []
unfolding sequence
sequence_low cp h = ground arith

module _ (mfb : ℕ) (tail : Bytes) (x : ℕ) where
  last_round :
      (w : Acc ◌<◌ x)
      → x / 64 ≤ mfb / 2
      → encode_loop mfb tail x w ≡ lead_byte (mfb / 2) (x / 64) ∷ (0x80 + x % 64) ∷ tail
  unfolding encode_loop
  last_round (Acc.intro _ smaller) h =
      rw (dif_pos (dec_le (x / 64) (mfb / 2)) le_prop h _ _, continuation_lem)

  next_round :
      (w : Acc ◌<◌ x)
      → mfb / 2 < x / 64
      → (w' : Acc ◌<◌ (x / 64)) × (encode_loop mfb tail x w
          ≡ encode_loop (mfb / 2) ((0x80 + x % 64) ∷ tail) (x / 64) w')
  unfolding encode_loop
  next_round (Acc.intro _ smaller) h =
      let more : ¬ (x / 64 ≤ mfb / 2) = omega arith in
      (
        smaller _ (shift_shrinks x mfb more),
        rw (dif_neg (dec_le (x / 64) (mfb / 2)) more _ _, continuation_lem),
      )

from_0x3 :
    (tail : Bytes) (x : ℕ) (w : Acc ◌<◌ x)
    → x < 0x80
    → encode_loop 0x3 tail x w ≡ (0xfc + x / 64) ∷ conts 1 x tail
from_0x3 tail x w h =
    ground (arith, last_round 0x3 tail x w (omega arith), lead_6 (x / 64) (omega arith))

from_0x7 :
    (tail : Bytes) (x : ℕ) (w : Acc ◌<◌ x)
    → x < 0x2000
    → encode_loop 0x7 tail x w ≡ (
        if ltb x 0x100
        then (0xf8 + x / 64) ∷ conts 1 x tail
        else (0xfc + x / 64 / 64) ∷ conts 2 x tail)
from_0x7 tail x w h = elim (dec_le (x / 64) 3) [
  | yes p ↦ ground (arith, last_round 0x7 tail x w p, lead_5 (x / 64) (omega arith))
  | no p ↦
      let (w', e) = next_round 0x7 tail x w (omega arith) in
      ground (arith, e, from_0x3 ((0x80 + x % 64) ∷ tail) (x / 64) w' (omega arith))
]

from_0xf :
    (tail : Bytes) (x : ℕ) (w : Acc ◌<◌ x)
    → x < 0x80000
    → encode_loop 0xf tail x w ≡ (
        if ltb x 0x200
        then (0xf0 + x / 64) ∷ conts 1 x tail
        else if ltb x 0x4000
        then (0xf8 + x / 64 / 64) ∷ conts 2 x tail
        else (0xfc + x / 64 / 64 / 64) ∷ conts 3 x tail)
from_0xf tail x w h = elim (dec_le (x / 64) 7) [
  | yes p ↦ ground (arith, last_round 0xf tail x w p, lead_4 (x / 64) (omega arith))
  | no p ↦
      let (w', e) = next_round 0xf tail x w (omega arith) in
      ground (arith, e, from_0x7 ((0x80 + x % 64) ∷ tail) (x / 64) w' (omega arith))
]

from_0x1f :
    (tail : Bytes) (x : ℕ) (w : Acc ◌<◌ x)
    → x < 0x2000000
    → encode_loop 0x1f tail x w ≡ (
        if ltb x 0x400
        then (0xe0 + x / 64) ∷ conts 1 x tail
        else if ltb x 0x8000
        then (0xf0 + x / 64 / 64) ∷ conts 2 x tail
        else if ltb x 0x100000
        then (0xf8 + x / 64 / 64 / 64) ∷ conts 3 x tail
        else (0xfc + x / 64 / 64 / 64 / 64) ∷ conts 4 x tail)
from_0x1f tail x w h = elim (dec_le (x / 64) 0xf) [
  | yes p ↦ ground (arith, last_round 0x1f tail x w p, lead_3 (x / 64) (omega arith))
  | no p ↦
      let (w', e) = next_round 0x1f tail x w (omega arith) in
      ground (arith, e, from_0xf ((0x80 + x % 64) ∷ tail) (x / 64) w' (omega arith))
]

from_0x3f : (x : ℕ) (w : Acc ◌<◌ x) → 0x80 ≤ x → x < 2 ^ 31 → encode_loop 0x3f [] x w ≡ sequence x
unfolding sequence
from_0x3f x w low h = elim (dec_le (x / 64) 0x1f) [
  | yes p ↦ ground (arith, last_round 0x3f [] x w p, lead_2 (x / 64) (omega arith))
  | no p ↦
      let (w', e) = next_round 0x3f [] x w (omega arith) in
      ground (arith, e, from_0x1f ((0x80 + x % 64) ∷ []) (x / 64) w' (omega arith))
]

-- `encode` appends the sequence of a code point that Lua accepts.
pub encode-sequence : (cp : ℕ) (out : Bytes) → cp < 2 ^ 31 → encode cp out ≡ out ++ sequence cp
unfolding encode
encode-sequence cp out h = elim (dec_lt cp 0x80) [
  | yes p ↦ ground (arith, sequence_low cp p)
  | no p ↦ ground (arith, from_0x3f cp (lt_wf.apply cp) (omega arith) h)
]

pub length-sequence : (cp : ℕ) → 1 ≤ length (sequence cp)
unfolding sequence
length-sequence cp = ground arith

-- What `encode` appends does not depend on what it appends to.
pub encode-append : (cp : ℕ) (out : Bytes) → encode cp out ≡ out ++ encode cp []
unfolding encode
encode-append cp out = elim (Bool-cases (ltb cp 0x80)) [ inl low ↦ rw low | inr high ↦ rw high ]
