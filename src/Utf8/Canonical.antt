-- ===== src/Utf8/Canonical.antt =====
-- Every sequence that `decode` accepts is the one that `encode` writes.
use Prim.Native.Nat.{bit_and}
use tcvm.Common.{ℕ, zero, suc, ◌+◌, ◌-◌, ◌*◌, ◌/◌, ◌%◌, ◌^◌, ◌≤◌, ◌<◌, ◌≡◌, refl, ap, sym, ◌∙◌}
use tcvm.Common.{arith, Bool, true, false, Option, none, some, [], ◌∷◌, ◌++◌, inl, inr, ◌⊎◌}
use tcvm.Common.{length, All}
use tcvm.Common.Bits.{agree_below, agree_below→eq, bit_and_mask}
use tcvm.Utf8.{Bytes, leading_ones, encode, decode, decode_tail, decode_checks, after_tail}
use tcvm.Utf8.Encode.{conts, sequence, encode-sequence}
use tcvm.Utf8.Decode.{tail_round, decode_announced}
use tcvm.Utf8.Shift.{shift, decode_tail-append, decode-append}

abbrev pub IsByte : ℕ → Type 0
IsByte b = b < 256

-- What is left of a code point when `n` groups of six bits are dropped.
shr6 : ℕ → ℕ → ℕ
shr6 zero x = x
shr6 (suc n) x = shr6 n (x / 64)

shr6_last : (n x : ℕ) → shr6 (suc n) x ≡ shr6 n x / 64
unfolding shr6
shr6_last zero x = refl
shr6_last (suc n) x = shr6_last n (x / 64)

-- The first of the continuation bytes that `conts` writes.
conts-front :
    (n x : ℕ) (tail : Bytes) → (0x80 + shr6 n x % 64) ∷ conts n x tail ≡ conts (suc n) x tail
unfolding shr6
conts-front zero x tail = refl
conts-front (suc n) x tail = conts-front n (x / 64) ((0x80 + x % 64) ∷ tail)

-- 64 ^ n
room : ℕ → ℕ
room zero = 1
room (suc n) = 64 * room n

high_bits : (c : ℕ) → c < 256 → bit_and c 0xc0 ≡ c / 64 * 64
unfolding agree_below
high_bits = agree_below→eq _ _ 256 refl

is_continuation :
    (bytes : Bytes) (n code r b : ℕ)
    → IsByte b
    → decode_tail (b ∷ bytes) 0 (suc n) code ≡ some r
    → b ≡ 0x80 + b % 64
unfolding decode_tail
is_continuation bytes n code r b h e = ground (arith, high_bits b h)

room_pos : (n : ℕ) → 1 ≤ room n
unfolding room
room_pos zero = omega arith
room_pos (suc n) = omega (arith, room_pos n)

-- A group of six bits uses up one factor of the room.
fits_next :
    (n code d : ℕ)
    → d < 64
    → suc code * room (suc n) ≤ 2 ^ 31
    → (code < 2 ^ 26) × (suc (code * 64 + d) * room n ≤ 2 ^ 31)
unfolding room
fits_next n code d h fits = (grind (arith, room_pos n), grind arith)

-- A loop that ends well has read the continuation bytes of its answer.
decode_tail_inv :
    (n code r : ℕ) (bytes : Bytes)
    → All IsByte bytes
    → suc code * room n ≤ 2 ^ 31
    → decode_tail bytes 0 n code ≡ some r
    → (rest : Bytes) × (bytes ≡ conts n r rest) × (shr6 n r ≡ code) × (r < 2 ^ 31)
unfolding shr6 room decode_tail
decode_tail_inv zero code r bytes all fits e = (bytes, refl, ground arith, ground arith)
decode_tail_inv (suc n) code r [] all fits e = cc
decode_tail_inv (suc n) code r (b ∷ bytes) all fits e =
    let shape = is_continuation bytes n code r b all.0 e in
    let (small, fits') = fits_next n code (b % 64) (omega arith) fits in
    let read : decode_tail bytes 0 n (code * 64 + b % 64) ≡ some r =
      sym (decode_tail-append (b ∷ []) bytes 0 n (code * 64 + b % 64))
      ∙ sym (tail_round (b ∷ bytes) 0 n code (b % 64) (ap some shape) (omega arith) small)
      ∙ e in
    let (rest, whole, front, bound) =
      decode_tail_inv n (code * 64 + b % 64) r bytes all.1 fits' read in
    let digit : b ≡ 0x80 + shr6 n r % 64 = omega (arith, shape, front) in
    (
      rest,
      (λ i. digit i ∷ whole i) ∙ conts-front n r rest,
      shr6_last n r ∙ omega (arith, front),
      bound,
    )

-- The lead bytes, by the number of bytes that they announce, and what they hold.
abbrev Lead : ℕ → ℕ → ℕ → Type 0
Lead n base count =
    (c : ℕ)
    → IsByte c
    → leading_ones c ≡ n
    → (base ≤ c) × (c < base + count) × (bit_and c (0xff / 2 ^ (n + 1)) ≡ c - base)

Lead-2 : Lead 2 0xc0 0x20
unfolding leading_ones
Lead-2 c h e = (ground arith, ground arith, ground (arith, bit_and_mask 5 c))

Lead-3 : Lead 3 0xe0 0x10
unfolding leading_ones
Lead-3 c h e = (ground arith, ground arith, ground (arith, bit_and_mask 4 c))

Lead-4 : Lead 4 0xf0 8
unfolding leading_ones
Lead-4 c h e = (ground arith, ground arith, ground (arith, bit_and_mask 3 c))

Lead-5 : Lead 5 0xf8 4
unfolding leading_ones
Lead-5 c h e = (ground arith, ground arith, ground (arith, bit_and_mask 2 c))

Lead-6 : Lead 6 0xfc 2
unfolding leading_ones
Lead-6 c h e = (ground arith, ground arith, ground (arith, bit_and_mask 1 c))

-- The two parts of an answer past the lead byte.
after_tail_inv :
    (n : ℕ) (tail : Option ℕ) (code next : ℕ)
    → after_tail 0 n false tail ≡ some (code, next)
    → (tail ≡ some code) × (next ≡ n) × (decode_checks 0 n false code ≡ some (code, n))
unfolding decode_checks
after_tail_inv n none code next e = cc
after_tail_inv n (some r) code next e = ground arith

-- What `decode` has accepted: the sequence of a code point below 2 ^ 31, and no more.
abbrev Accepted : Bytes → ℕ → ℕ → Type 0
Accepted bytes code next =
    (rest : Bytes) × (bytes ≡ sequence code ++ rest)
    × (next ≡ length (sequence code))
    × (code < 2 ^ 31)

module _ (c : ℕ) (bytes : Bytes) (all : All IsByte (c ∷ bytes)) (code next : ℕ) where
  -- The loop behind a lead byte, from the list behind it.
  behind_lead :
      (n x : ℕ)
      → suc x * room n ≤ 2 ^ 31
      → decode_tail (c ∷ bytes) 1 n x ≡ some code
      → (rest : Bytes) × (bytes ≡ conts n code rest) × (shr6 n code ≡ x) × (code < 2 ^ 31)
  behind_lead n x fits e =
      decode_tail_inv n x code bytes all.1 fits (sym (decode_tail-append (c ∷ []) bytes 0 n x) ∙ e)

  Accepted-2 :
      leading_ones c ≡ 2
      → after_tail 0 2 false (decode_tail (c ∷ bytes) 1 1 (bit_and c 0x1f)) ≡ some (code, next)
      → Accepted (c ∷ bytes) code next
  unfolding shr6 room sequence decode_checks
  Accepted-2 ones e =
      let (low, high, payload) = Lead-2 c all.0 ones in
      let (read, end, checked) = after_tail_inv 2 _ code next e in
      let (rest, whole, front, bound) =
        behind_lead 1 (bit_and c 0x1f) (omega (arith, payload, high)) read in
      let head : c ≡ 0xc0 + code / 64 = omega (arith, front, payload, low) in
      let lower : 0x80 ≤ code = ground (arith, checked) in
      let shape : sequence code ≡ (0xc0 + code / 64) ∷ conts 1 code [] =
        ground (arith, lower, bound, head, high) in
      (
        rest,
        (λ i. head i ∷ whole i) ∙ ap (λ (l : Bytes). l ++ rest) (sym shape),
        end ∙ ap length (sym shape),
        bound,
      )

  Accepted-3 :
      leading_ones c ≡ 3
      → after_tail 0 3 false (decode_tail (c ∷ bytes) 1 2 (bit_and c 0xf)) ≡ some (code, next)
      → Accepted (c ∷ bytes) code next
  unfolding shr6 room sequence decode_checks
  Accepted-3 ones e =
      let (low, high, payload) = Lead-3 c all.0 ones in
      let (read, end, checked) = after_tail_inv 3 _ code next e in
      let (rest, whole, front, bound) =
        behind_lead 2 (bit_and c 0xf) (omega (arith, payload, high)) read in
      let head : c ≡ 0xe0 + code / 64 / 64 = omega (arith, front, payload, low) in
      let lower : 0x800 ≤ code = ground (arith, checked) in
      let shape : sequence code ≡ (0xe0 + code / 64 / 64) ∷ conts 2 code [] =
        ground (arith, lower, bound, head, high) in
      (
        rest,
        (λ i. head i ∷ whole i) ∙ ap (λ (l : Bytes). l ++ rest) (sym shape),
        end ∙ ap length (sym shape),
        bound,
      )

  Accepted-4 :
      leading_ones c ≡ 4
      → after_tail 0 4 false (decode_tail (c ∷ bytes) 1 3 (bit_and c 7)) ≡ some (code, next)
      → Accepted (c ∷ bytes) code next
  unfolding shr6 room sequence decode_checks
  Accepted-4 ones e =
      let (low, high, payload) = Lead-4 c all.0 ones in
      let (read, end, checked) = after_tail_inv 4 _ code next e in
      let (rest, whole, front, bound) =
        behind_lead 3 (bit_and c 7) (omega (arith, payload, high)) read in
      let head : c ≡ 0xf0 + code / 64 / 64 / 64 = omega (arith, front, payload, low) in
      let lower : 0x10000 ≤ code = ground (arith, checked) in
      let shape : sequence code ≡ (0xf0 + code / 64 / 64 / 64) ∷ conts 3 code [] =
        ground (arith, lower, bound, head, high) in
      (
        rest,
        (λ i. head i ∷ whole i) ∙ ap (λ (l : Bytes). l ++ rest) (sym shape),
        end ∙ ap length (sym shape),
        bound,
      )

  Accepted-5 :
      leading_ones c ≡ 5
      → after_tail 0 5 false (decode_tail (c ∷ bytes) 1 4 (bit_and c 3)) ≡ some (code, next)
      → Accepted (c ∷ bytes) code next
  unfolding shr6 room sequence decode_checks
  Accepted-5 ones e =
      let (low, high, payload) = Lead-5 c all.0 ones in
      let (read, end, checked) = after_tail_inv 5 _ code next e in
      let (rest, whole, front, bound) =
        behind_lead 4 (bit_and c 3) (omega (arith, payload, high)) read in
      let head : c ≡ 0xf8 + code / 64 / 64 / 64 / 64 = omega (arith, front, payload, low) in
      let lower : 0x200000 ≤ code = ground (arith, checked) in
      let shape : sequence code ≡ (0xf8 + code / 64 / 64 / 64 / 64) ∷ conts 4 code [] =
        ground (arith, lower, bound, head, high) in
      (
        rest,
        (λ i. head i ∷ whole i) ∙ ap (λ (l : Bytes). l ++ rest) (sym shape),
        end ∙ ap length (sym shape),
        bound,
      )

  Accepted-6 :
      leading_ones c ≡ 6
      → after_tail 0 6 false (decode_tail (c ∷ bytes) 1 5 (bit_and c 1)) ≡ some (code, next)
      → Accepted (c ∷ bytes) code next
  unfolding shr6 room sequence decode_checks
  Accepted-6 ones e =
      let (low, high, payload) = Lead-6 c all.0 ones in
      let (read, end, checked) = after_tail_inv 6 _ code next e in
      let (rest, whole, front, bound) =
        behind_lead 5 (bit_and c 1) (omega (arith, payload, high)) read in
      let head : c ≡ 0xfc + code / 64 / 64 / 64 / 64 / 64 = omega (arith, front, payload, low) in
      let lower : 0x4000000 ≤ code = ground (arith, checked) in
      let shape : sequence code ≡ (0xfc + code / 64 / 64 / 64 / 64 / 64) ∷ conts 5 code [] =
        ground (arith, lower, bound, head, high) in
      (
        rest,
        (λ i. head i ∷ whole i) ∙ ap (λ (l : Bytes). l ++ rest) (sym shape),
        end ∙ ap length (sym shape),
        bound,
      )

-- A strict answer is the lax one.
strict_checks :
    (n code next : ℕ) (tail : Option ℕ)
    → after_tail 0 n true tail ≡ some (code, next)
    → after_tail 0 n false tail ≡ some (code, next)
unfolding decode_checks
strict_checks n code next none e = cc
strict_checks n code next (some r) e = ground arith

decode_empty : (code next : ℕ) → ¬ (decode [] 0 false ≡ some (code, next))
unfolding decode
decode_empty code next e = cc

shift_inv :
    (k : ℕ) (r : Option (ℕ × ℕ)) (code next : ℕ)
    → shift k r ≡ some (code, next)
    → (at : ℕ) × (r ≡ some (code, at)) × (next ≡ k + at)
shift_inv k none code next e = cc
shift_inv k (some (c, at)) code next e = (at, ground arith, ground arith)

lax_empty :
    (code next : ℕ) → decode [] 0 true ≡ some (code, next) → decode [] 0 false ≡ some (code, next)
unfolding decode
lax_empty code next e = cc

lax_some :
    (c : ℕ) (bytes : Bytes) (code next : ℕ)
    → decode (c ∷ bytes) 0 true ≡ some (code, next)
    → decode (c ∷ bytes) 0 false ≡ some (code, next)
unfolding decode
lax_some c bytes code next e = ground (
  arith,
  strict_checks (leading_ones c) code next (
      decode_tail (c ∷ bytes) 1 (leading_ones c - 1) (bit_and c (0xff / 2 ^ (leading_ones c + 1)))),
)

lax :
    (bytes : Bytes) (strict : Bool) (code next : ℕ)
    → decode bytes 0 strict ≡ some (code, next)
    → decode bytes 0 false ≡ some (code, next)
lax bytes false code next e = e
lax [] true code next e = lax_empty code next e
lax (c ∷ bytes) true code next e = lax_some c bytes code next e

module _ (c : ℕ) (bytes : Bytes) (all : All IsByte (c ∷ bytes)) (code next : ℕ)
    (e : decode (c ∷ bytes) 0 false ≡ some (code, next)) where
  Accepted-low : leading_ones c ≡ 0 → Accepted (c ∷ bytes) code next
  unfolding decode sequence leading_ones
  Accepted-low ones = (bytes, ground arith, ground arith, ground arith)

  refused : (leading_ones c ≡ 1) ⊎ (6 < leading_ones c) → Accepted (c ∷ bytes) code next
  unfolding decode
  refused h = absurd (ground arith)

  Accepted-lead : (n : ℕ) → leading_ones c ≡ n → Accepted (c ∷ bytes) code next
  Accepted-lead zero ones = Accepted-low ones
  Accepted-lead (suc zero) ones = refused (inl ones)
  Accepted-lead (suc (suc zero)) ones =
      Accepted-2 c bytes all code next ones
        (sym (decode_announced bytes false 2 c _ (ones, refl) (omega arith) (omega arith)) ∙ e)
  Accepted-lead (suc (suc (suc zero))) ones =
      Accepted-3 c bytes all code next ones
        (sym (decode_announced bytes false 3 c _ (ones, refl) (omega arith) (omega arith)) ∙ e)
  Accepted-lead (suc (suc (suc (suc zero)))) ones =
      Accepted-4 c bytes all code next ones
        (sym (decode_announced bytes false 4 c _ (ones, refl) (omega arith) (omega arith)) ∙ e)
  Accepted-lead (suc (suc (suc (suc (suc zero))))) ones =
      Accepted-5 c bytes all code next ones
        (sym (decode_announced bytes false 5 c _ (ones, refl) (omega arith) (omega arith)) ∙ e)
  Accepted-lead (suc (suc (suc (suc (suc (suc zero)))))) ones =
      Accepted-6 c bytes all code next ones
        (sym (decode_announced bytes false 6 c _ (ones, refl) (omega arith) (omega arith)) ∙ e)
  Accepted-lead (suc (suc (suc (suc (suc (suc (suc n))))))) ones =
      refused (inr (omega (arith, ones)))

Accepted-any :
    (bytes : Bytes) (code next : ℕ)
    → All IsByte bytes
    → decode bytes 0 false ≡ some (code, next)
    → Accepted bytes code next
Accepted-any [] code next all e = absurd (decode_empty code next e)
Accepted-any (c ∷ bytes) code next all e =
    Accepted-lead c bytes all code next e (leading_ones c) refl

-- An answer of `decode` at the end of `before` names a code point below 2 ^ 31; what stands there
-- begins with exactly the encoding of it, and the position returned is the one behind it.
pub decode-canonical :
    (before bytes : Bytes) (strict : Bool) (code next : ℕ)
    → All IsByte bytes
    → decode (before ++ bytes) (length before) strict ≡ some (code, next)
    → (rest : Bytes) × (bytes ≡ encode code [] ++ rest)
      × (next ≡ length before + length (encode code []))
      × (code < 2 ^ 31)
decode-canonical before bytes strict code next all e =
    let (at, here, moved) =
      shift_inv (length before) (decode bytes 0 strict) code next
        (sym (decode-append before bytes strict) ∙ e) in
    let (rest, whole, end, bound) =
      Accepted-any bytes code at all (lax bytes strict code at here) in
    let written : sequence code ≡ encode code [] = sym (encode-sequence code [] bound) in
    (
      rest,
      whole ∙ ap (λ (l : Bytes). l ++ rest) written,
      moved ∙ ap (λ (n : ℕ). length before + n) (end ∙ ap length written),
      bound,
    )
