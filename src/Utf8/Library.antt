-- ===== src/Utf8/Library.antt =====
-- The functions `char`, `codepoint`, `len` and `codes` of src/builtin/utf8.rs, from the point where
-- their arguments are checked: a text is its bytes, a number an i64, and `none` an argument that is
-- nil. Each loop runs on fuel, and `stuck` means that the fuel ran out. `offset` is in Offset.
pub mod Offset
pub mod Loops
pub mod Texts
use tcvm.Common.{ℕ, zero, suc, ◌+◌, ◌-◌, arith, Bool, true, false, ◌&&◌, ◌||◌, not, Option, none}
use tcvm.Common.{some, List, [], ◌∷◌, ◌++◌, ltb, leb, ◌==◌, if◌then◌else◌, length}
use tcvm.Common.Int.{ℤ, pos, negsuc, pos_part, neg_part, ltb_ℤ, leb_ℤ, sub_ℕ}
use tcvm.Utf8.{Bytes, decode, encode}

-- The messages that the functions raise.
pub data Message : Type 0 where
  value_out_of_range : ℕ → Message
  arg_out_of_bounds : ℕ → Message
  initial_out_of_bounds final_out_of_bounds invalid_code : Message

pub data Outcome (A : Type 0) : Type 0 where
  returns : A → Outcome A
  raises : Message → Outcome A
  stuck : Outcome A

infixl 5 ◌>>=◌
abbrev pub ◌>>=◌ : {A B : Type 0} → Outcome A → (A → Outcome B) → Outcome B
returns a >>= f = f a
raises m >>= f = raises m
stuck >>= f = stuck

-- A byte position: from the end where it is negative, 0 where that lies before the start.
unfoldable pub posrelat : ℤ → ℕ → ℤ
posrelat (pos n) len = pos n
posrelat (negsuc n) len = if ltb len (suc n) then pos 0 else pos (len - n)

-- `lua_char`: the loop over the arguments, `i` of them done.
unfoldable pub char_loop : List ℤ → ℕ → Bytes → Outcome Bytes
char_loop [] i out = returns out
char_loop (c ∷ cs) i out =
    let rest = char_loop cs (i + 1) (encode (pos_part c) out) in
    if leb_ℤ (pos 0) c && leb_ℤ c (pos 0x7fffffff)
    then rest
    else raises (value_out_of_range (i + 1))

unfoldable pub lua_char : List ℤ → Outcome Bytes
unfolding char_loop
lua_char cs = char_loop cs 0 []

-- `while pos < end { … }`
unfoldable pub codepoint_loop : ℕ → Bytes → Bool → ℕ → ℕ → List ℕ → Outcome (List ℕ)
codepoint_loop zero bytes strict at end out = stuck
codepoint_loop (suc fuel) bytes strict at end out = elim (ltb at end) [
  | false ↦ returns out
  | true ↦ elim (decode bytes at strict) [
    | none ↦ raises invalid_code
    | some (code, next) ↦ codepoint_loop fuel bytes strict next end (out ++ (code ∷ []))
  ]
]

abbrev or_else : Option ℤ → ℤ → ℤ
or_else none d = d
or_else (some i) d = i

unfoldable pub codepoint_checked : Bytes → ℤ → ℤ → Bool → Outcome (List ℕ)
unfolding codepoint_loop
codepoint_checked bytes posi posj strict =
    if ltb_ℤ posi (pos 1)
    then raises (arg_out_of_bounds 2)
    else if ltb_ℤ (pos (length bytes)) posj
    then raises (arg_out_of_bounds 3)
    else codepoint_loop (length bytes + 1) bytes strict (pos_part posi - 1) (pos_part posj) []

unfoldable pub lua_codepoint : Bytes → Option ℤ → Option ℤ → Bool → Outcome (List ℕ)
unfolding codepoint_checked posrelat
lua_codepoint bytes i j strict =
    let i' = or_else i (pos 1) in
    let j' = or_else j i' in
    codepoint_checked bytes (posrelat i' (length bytes)) (posrelat j' (length bytes)) strict

-- What `len` pushes: the count, or nil and the position of the malformed sequence.
pub data Len : Type 0 where
  count : ℕ → Len
  malformed : ℕ → Len

-- `while posi <= posj { … }`; a final position below 1 is none that `posi` reaches.
unfoldable pub len_loop : ℕ → Bytes → Bool → ℕ → ℕ → ℕ → Outcome Len
len_loop zero bytes strict posi posj n = stuck
len_loop (suc fuel) bytes strict posi posj n = elim (leb posi posj) [
  | false ↦ returns (count n)
  | true ↦ elim (decode bytes (posi - 1) strict) [
    | none ↦ returns (malformed posi)
    | some (code, next) ↦ len_loop fuel bytes strict (next + 1) posj (n + 1)
  ]
]

unfoldable pub len_checked : Bytes → ℤ → ℤ → Bool → Outcome Len
unfolding len_loop
len_checked bytes posi posj strict =
    if ltb_ℤ posi (pos 1) || ltb_ℤ (pos (length bytes + 1)) posi
    then raises initial_out_of_bounds
    else if ltb_ℤ (pos (length bytes)) posj
    then raises final_out_of_bounds
    else len_loop (length bytes + 1) bytes strict (pos_part posi) (pos_part posj) 0

unfoldable pub lua_len : Bytes → Option ℤ → Option ℤ → Bool → Outcome Len
unfolding len_checked posrelat
lua_len bytes i j strict =
    len_checked bytes (posrelat (or_else i (pos 1)) (length bytes))
      (posrelat (or_else j (negsuc 0)) (length bytes)) strict

-- The second half of `codes_aux`: nothing at the end of the text, else a position and a code point.
unfoldable pub codes_at : Bytes → ℕ → Outcome (Option (ℕ × ℕ))
codes_at bytes at = if leb (length bytes) at then returns none else elim (decode bytes at true) [
  | some (code, next) ↦ returns (some (at + 1, code))
  | none ↦ raises invalid_code
]

-- `codes_aux` with the control variable `i`, which is 0 or a position that it returned.
unfoldable pub codes_aux : Bytes → ℕ → Outcome (Option (ℕ × ℕ))
unfolding codes_at
codes_aux bytes zero = codes_at bytes 0
codes_aux bytes (suc i) = elim (decode bytes i true) [
  | some (code, next) ↦ codes_at bytes next
  | none ↦ raises invalid_code
]

-- `for p, c in utf8.codes(s)`: the pairs that the iterator yields.
unfoldable pub iterate : ℕ → Bytes → ℕ → Outcome (List (ℕ × ℕ))
unfolding codes_aux
iterate zero bytes i = stuck
iterate (suc fuel) bytes i = codes_aux bytes i >>= λ step. elim step [
  | none ↦ returns []
  | some (at, code) ↦ iterate fuel bytes at >>= λ rest. returns ((at, code) ∷ rest)
]
