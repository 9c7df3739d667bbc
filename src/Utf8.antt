-- ===== src/Utf8.antt =====
-- src/builtin/utf8.rs: the codec of Lua's original UTF-8, one to six bytes to a code point.
-- A byte slice is a list of numbers; a `u32` is a number, its shifts and casts written out.
pub mod Encode
pub mod Decode
pub mod Shift
pub mod RoundTrip
pub mod Canonical
pub mod Library
use Prim.Native.Nat.{bit_and, bit_or}
use tcvm.Common.{ℕ, zero, suc, ◌+◌, ◌-◌, ◌*◌, ◌/◌, ◌%◌, ◌^◌, ◌≤◌, ◌<◌, ◌≡◌, arith, Bool, true}
use tcvm.Common.{false, ◌&&◌, ◌||◌, not, Option, none, some, List, [], ◌∷◌, ◌++◌, ltb, leb, ◌==◌}
use tcvm.Common.{if◌then◌else◌, get_elem?, get_or, length, dec_le, dite, Acc, lt_wf}

abbrev pub Bytes : Type 0
Bytes = List ℕ

-- `u8::leading_ones`, the most significant of `k` bits first.
abbrev ones_from : ℕ → ℕ → ℕ
ones_from zero c = 0
ones_from (suc k) c = let rest = suc (ones_from k (c - 2 ^ k)) in if leb (2 ^ k) c then rest else 0

unfoldable pub leading_ones : ℕ → ℕ
leading_ones c = ones_from 8 c

-- The table `LIMITS`, by the number of continuation bytes.
abbrev limits : List ℕ
limits = 0 ∷ 0x80 ∷ 0x800 ∷ 0x10000 ∷ 0x200000 ∷ 0x4000000 ∷ []

-- The loop `for k in 1..lead`, with `n` rounds left.
unfoldable pub decode_tail : Bytes → ℕ → ℕ → ℕ → Option ℕ
decode_tail bytes at zero code = some code
decode_tail bytes at (suc n) code = elim (get_elem? bytes at) [
  | none ↦ none
  | some cc ↦
      let rest = decode_tail bytes (at + 1) n (bit_or (code * 2 ^ 6 % 2 ^ 32) (bit_and cc 0x3f)) in
      if bit_and cc 0xc0 == 0x80 then rest else none
]

-- The tests that follow the loop.
unfoldable pub decode_checks : ℕ → ℕ → Bool → ℕ → Option (ℕ × ℕ)
decode_checks pos lead strict code =
    if ltb code (get_or limits (lead - 1) 0)
    then none
    else if strict && (ltb 0x10ffff code || (leb 0xd800 code && leb code 0xdfff))
    then none
    else some (code, pos + lead)

abbrev pub after_tail : ℕ → ℕ → Bool → Option ℕ → Option (ℕ × ℕ)
after_tail pos lead strict none = none
after_tail pos lead strict (some code) = decode_checks pos lead strict code

unfoldable pub decode_lead : Bytes → ℕ → Bool → ℕ → Option (ℕ × ℕ)
decode_lead bytes pos strict c =
    let lead = leading_ones c in
    if lead == 0
    then some (c, pos + 1)
    else if lead == 1 || ltb 6 lead
    then none
    else after_tail pos lead strict
        (decode_tail bytes (pos + 1) (lead - 1) (bit_and c (0xff / 2 ^ (lead + 1))))

unfoldable pub decode : Bytes → ℕ → Bool → Option (ℕ × ℕ)
unfolding decode_lead
decode bytes pos strict = elim (get_elem? bytes pos) [
  | none ↦ none
  | some c ↦ decode_lead bytes pos strict c
]

-- `0x80 | (x & 0x3f) as u8`
unfoldable pub continuation : ℕ → ℕ
continuation x = bit_or 0x80 (bit_and x 0x3f % 2 ^ 8)

-- `(!mfb << 1) as u8 | x as u8`
unfoldable pub lead_byte : ℕ → ℕ → ℕ
lead_byte mfb x = bit_or ((2 ^ 32 - 1 - mfb) * 2 % 2 ^ 32 % 2 ^ 8) (x % 2 ^ 8)

pub shift_shrinks : (x mfb : ℕ) → ¬ (x / 2 ^ 6 ≤ mfb / 2) → x / 2 ^ 6 < x
shift_shrinks x mfb h = omega arith

-- The loop of `encode`. `tail` is kept newest first, as the final `reverse` leaves it.
unfoldable pub encode_loop : ℕ → Bytes → (x : ℕ) → Acc ◌<◌ x → Bytes
unfolding continuation lead_byte
encode_loop mfb tail x (Acc.intro _ smaller) =
    dite (dec_le (x / 2 ^ 6) (mfb / 2))
      (λ _. lead_byte (mfb / 2) (x / 2 ^ 6) ∷ continuation x ∷ tail)
      (λ more.
        encode_loop (mfb / 2) (continuation x ∷ tail) (x / 2 ^ 6)
          (smaller _ (shift_shrinks x mfb more)))

-- `encode` pushes on `out`.
unfoldable pub encode : ℕ → Bytes → Bytes
unfolding encode_loop lt_wf dec_le
encode cp out =
    if ltb cp 0x80 then out ++ (cp ∷ []) else out ++ encode_loop 0x3f [] cp (lt_wf.apply cp)
