-- ===== src/Utf8/Shift.antt =====
-- `decode` reads forwards only: bytes before the position do not matter.
use Prim.Native.Nat.{bit_and, bit_or}
use tcvm.Common.{Option-cases, inl, inr, ◌*◌, ◌/◌, ◌%◌, ◌^◌, ℕ, zero, suc, ◌+◌, ◌-◌, ◌≡◌, refl}
use tcvm.Common.{arith, Bool, Option, none, some, ◌++◌, length, get_elem?, get_elem?-append}
use tcvm.Utf8.{Bytes, leading_ones, decode, decode_tail, decode_checks, after_tail, decode_lead}

abbrev pub shift : ℕ → Option (ℕ × ℕ) → Option (ℕ × ℕ)
shift k none = none
shift k (some (code, next)) = some (code, k + next)

-- The loop, `i` bytes into what stands behind `before`.
pub decode_tail-append :
    (before bytes : Bytes) (i n code : ℕ)
    → decode_tail (before ++ bytes) (length before + i) n code ≡ decode_tail bytes i n code
unfolding decode_tail
decode_tail-append before bytes i zero code = refl
decode_tail-append before bytes i (suc n) code =
    let onward : length before + i + 1 ≡ length before + (i + 1) = omega arith in
    elim (Option-cases (get_elem? bytes i)) [
      | inl missing ↦ rw (get_elem?-append before bytes i, missing, decode_tail)
      | inr (cc, found) ↦ ground (
        arith,
        found,
        onward,
        get_elem?-append before bytes i,
        decode_tail-append before bytes (i + 1) n
            (bit_or (code * 2 ^ 6 % 2 ^ 32) (bit_and cc 0x3f)),
      )
    ]

checks-shift :
    (pos lead : ℕ) (strict : Bool) (code : ℕ)
    → decode_checks pos lead strict code ≡ shift pos (decode_checks 0 lead strict code)
unfolding decode_checks
checks-shift pos lead strict code = ground arith

tail-shift :
    (pos lead : ℕ) (strict : Bool) (r : Option ℕ)
    → after_tail pos lead strict r ≡ shift pos (after_tail 0 lead strict r)
tail-shift pos lead strict none = refl
tail-shift pos lead strict (some code) = checks-shift pos lead strict code

decode_lead-append :
    (before bytes : Bytes) (strict : Bool) (c : ℕ)
    → decode_lead (before ++ bytes) (length before) strict c
      ≡ shift (length before) (decode_lead bytes 0 strict c)
unfolding decode_lead
decode_lead-append before bytes strict c = ground (
  arith,
  decode_tail-append before bytes 1 (leading_ones c - 1)
      (bit_and c (0xff / 2 ^ (leading_ones c + 1))),
  tail-shift (length before) (leading_ones c) strict
      (decode_tail bytes 1 (leading_ones c - 1) (bit_and c (0xff / 2 ^ (leading_ones c + 1)))),
)

pub decode-append :
    (before bytes : Bytes) (strict : Bool)
    → decode (before ++ bytes) (length before) strict
      ≡ shift (length before) (decode bytes 0 strict)
unfolding decode
decode-append before bytes strict =
    let start : length before + 0 ≡ length before = omega arith in
    elim (Option-cases (get_elem? bytes 0)) [
      | inl missing ↦ ground (arith, missing, start, get_elem?-append before bytes 0)
      | inr (c, found) ↦ ground (
        arith,
        found,
        start,
        get_elem?-append before bytes 0,
        decode_lead-append before bytes strict c,
      )
    ]
