-- ===== src/Utf8/Library/Loops.antt =====
-- The loops end within their fuel on every input.
use Prim.Native.Nat.{bit_and}
use tcvm.Common.{◌/◌, ◌^◌, ℕ, zero, suc, ◌+◌, ◌-◌, ◌≤◌, ◌<◌, ◌≡◌, ◌≢◌, arith, Bool, Option, none}
use tcvm.Common.{some, List, length, get_elem?, inl, inr, Option-cases, ◌∷◌, [], ◌++◌}
use tcvm.Common.Int.{ℤ, pos, negsuc, pos_part}
use tcvm.Utf8.{Bytes, decode, decode_tail, decode_checks, after_tail, leading_ones, decode_lead}
use tcvm.Utf8.Library.{stuck, lua_len, len_checked, len_loop, posrelat, lua_codepoint}
use tcvm.Utf8.Library.{codepoint_checked, codepoint_loop, or_else}

next_checks :
    (at lead : ℕ) (strict : Bool) (tail : Option ℕ) (code next : ℕ)
    → after_tail at lead strict tail ≡ some (code, next)
    → next ≡ at + lead
unfolding decode_checks
next_checks at lead strict none code next e = cc
next_checks at lead strict (some r) code next e = ground arith

next_lead :
    (bytes : Bytes) (at : ℕ) (strict : Bool) (c code next : ℕ)
    → decode_lead bytes at strict c ≡ some (code, next)
    → (at < next) × (next ≤ at + 6)
unfolding decode_lead
next_lead bytes at strict c code next e = ground (
  arith,
  next_checks at (leading_ones c) strict
      (decode_tail bytes (at + 1) (leading_ones c - 1)
        (bit_and c (0xff / 2 ^ (leading_ones c + 1))))
      code next,
)

-- `decode` goes forwards, by six bytes at most.
pub decode_forwards :
    (bytes : Bytes) (at : ℕ) (strict : Bool) (code next : ℕ)
    → decode bytes at strict ≡ some (code, next)
    → (at < next) × (next ≤ at + 6)
unfolding decode
decode_forwards bytes at strict code next e = elim (Option-cases (get_elem? bytes at)) [
  | inl missing ↦ absurd (ground (arith, missing))
  | inr (c, found) ↦ next_lead bytes at strict c code next (ground (arith, found))
]

len_loop-ne-stuck :
    (fuel : ℕ) (bytes : Bytes) (strict : Bool) (posi posj n : ℕ)
    → 1 ≤ posi
    → 1 ≤ fuel
    → posj + 2 ≤ fuel + posi
    → len_loop fuel bytes strict posi posj n ≢ stuck
unfolding len_loop
len_loop-ne-stuck zero bytes strict posi posj n low some_fuel enough = absurd (omega arith)
len_loop-ne-stuck (suc fuel) bytes strict posi posj n low some_fuel enough =
    elim (Option-cases (decode bytes (posi - 1) strict)) [
      | inl bad ↦ ground (arith, bad)
      | inr ((code, next), good) ↦ ground (
        arith,
        good,
        decode_forwards bytes (posi - 1) strict code next good,
        len_loop-ne-stuck fuel bytes strict (next + 1) posj (n + 1),
      )
    ]

len_checked-ne-stuck :
    (bytes : Bytes) (posi posj : ℤ) (strict : Bool) → len_checked bytes posi posj strict ≢ stuck
unfolding len_checked
len_checked-ne-stuck bytes posi posj strict =
    ground
      (arith, len_loop-ne-stuck (length bytes + 1) bytes strict (pos_part posi) (pos_part posj) 0)

-- `utf8.len` ends on every text, with any positions.
pub lua_len-ne-stuck :
    (bytes : Bytes) (i j : Option ℤ) (strict : Bool) → lua_len bytes i j strict ≢ stuck
unfolding lua_len
lua_len-ne-stuck bytes i j strict =
    len_checked-ne-stuck bytes (posrelat (or_else i (pos 1)) (length bytes))
      (posrelat (or_else j (negsuc 0)) (length bytes)) strict

codepoint_loop-ne-stuck :
    (fuel : ℕ) (bytes : Bytes) (strict : Bool) (at end : ℕ) (out : List ℕ)
    → 1 ≤ fuel
    → end + 1 ≤ fuel + at
    → codepoint_loop fuel bytes strict at end out ≢ stuck
unfolding codepoint_loop
codepoint_loop-ne-stuck zero bytes strict at end out some_fuel enough = absurd (omega arith)
codepoint_loop-ne-stuck (suc fuel) bytes strict at end out some_fuel enough =
    elim (Option-cases (decode bytes at strict)) [
      | inl bad ↦ ground (arith, bad)
      | inr ((code, next), good) ↦ ground (
        arith,
        good,
        decode_forwards bytes at strict code next good,
        codepoint_loop-ne-stuck fuel bytes strict next end (out ++ (code ∷ [])),
      )
    ]

codepoint_checked-ne-stuck :
    (bytes : Bytes) (posi posj : ℤ) (strict : Bool)
    → codepoint_checked bytes posi posj strict ≢ stuck
unfolding codepoint_checked
codepoint_checked-ne-stuck bytes posi posj strict = ground (
  arith,
  codepoint_loop-ne-stuck (length bytes + 1) bytes strict (pos_part posi - 1) (pos_part posj) [],
)

-- `utf8.codepoint` ends on every text, with any positions.
pub lua_codepoint-ne-stuck :
    (bytes : Bytes) (i j : Option ℤ) (strict : Bool) → lua_codepoint bytes i j strict ≢ stuck
unfolding lua_codepoint
lua_codepoint-ne-stuck bytes i j strict =
    codepoint_checked-ne-stuck bytes (posrelat (or_else i (pos 1)) (length bytes))
      (posrelat (or_else j (or_else i (pos 1))) (length bytes)) strict
