-- ===== src/Utf8/Library/Texts.antt =====
-- `char`, `codepoint`, `len` and `codes` on well-formed texts.
use tcvm.Common.{ℕ, zero, suc, ◌+◌, ◌^◌, ◌≤◌, ◌<◌, ◌≡◌, ◌∙◌, arith, Bool, true, false, not, ◌&&◌}
use tcvm.Common.{none, some, List, [], ◌∷◌, ◌++◌, map, length, length-append, All}
use tcvm.Common.Int.{pos, negsuc}
use mathlib.Core.List.{append_assoc, append-nil}
use tcvm.Utf8.{Bytes, encode, decode}
use tcvm.Utf8.Encode.{encode-sequence, length-sequence, encode-append}
use tcvm.Utf8.Decode.{is_scalar}
use tcvm.Utf8.RoundTrip.{decode-encode}
use tcvm.Utf8.Library.{◌>>=◌, returns, count, codes_at, codes_aux, iterate, lua_char, char_loop}
use tcvm.Utf8.Library.{lua_codepoint, codepoint_loop, lua_len, len_loop}

-- The text of a list of code points.
abbrev pub text : List ℕ → Bytes
text [] = []
text (cp ∷ cps) = encode cp [] ++ text cps

-- What the decoder takes: any code point below 2 ^ 31, or, strictly, a Unicode scalar value.
abbrev pub Decodable : Bool → ℕ → Type 0
Decodable strict cp = (cp < 2 ^ 31) × ((strict && not (is_scalar cp)) ≡ false)

encode_pos : (cp : ℕ) → cp < 2 ^ 31 → 1 ≤ length (encode cp [])
encode_pos cp h = rw (encode-sequence cp [] h) (length-sequence cp)

decode_here :
    (before after : Bytes) (cp : ℕ) (strict : Bool)
    → Decodable strict cp
    → decode (before ++ (encode cp [] ++ after)) (length before) strict
      ≡ some (cp, length before + length (encode cp []))
decode_here before after cp strict (bound, ok) = decode-encode cp before after strict bound ∙ rw ok

codepoint_loop-text :
    (fuel : ℕ) (before : Bytes) (cps : List ℕ) (strict : Bool) (out : List ℕ)
    → length cps < fuel
    → All (Decodable strict) cps
    → codepoint_loop fuel
        (before ++ text cps)
        strict
        (length before)
        (length (before ++ text cps))
        out
      ≡ returns (out ++ cps)
unfolding codepoint_loop
codepoint_loop-text zero before cps strict out h all = absurd (omega arith)
codepoint_loop-text (suc fuel) before [] strict out h all =
    ground (arith, append-nil before, append-nil out)
codepoint_loop-text (suc fuel) before (cp ∷ cps) strict out h all = ground (
  arith,
  decode_here before (text cps) cp strict all.0,
  encode_pos cp all.0.0,
  append_assoc before (encode cp []) (text cps),
  append_assoc out (cp ∷ []) cps,
  length-append before (encode cp []),
  length-append (before ++ encode cp []) (text cps),
  codepoint_loop-text fuel (before ++ encode cp []) cps strict (out ++ (cp ∷ [])),
)

len_loop-text :
    (fuel : ℕ) (before : Bytes) (cps : List ℕ) (strict : Bool) (n : ℕ)
    → length cps < fuel
    → All (Decodable strict) cps
    → len_loop fuel (before ++ text cps) strict (length before + 1) (length (before ++ text cps)) n
      ≡ returns (count (n + length cps))
unfolding len_loop
len_loop-text zero before cps strict n h all = absurd (omega arith)
len_loop-text (suc fuel) before [] strict n h all = ground (arith, append-nil before)
len_loop-text (suc fuel) before (cp ∷ cps) strict n h all = ground (
  arith,
  decode_here before (text cps) cp strict all.0,
  encode_pos cp all.0.0,
  append_assoc before (encode cp []) (text cps),
  length-append before (encode cp []),
  length-append (before ++ encode cp []) (text cps),
  len_loop-text fuel (before ++ encode cp []) cps strict (n + 1),
)

char_loop-text :
    (cps : List ℕ) (strict : Bool) (i : ℕ) (out : Bytes)
    → All (Decodable strict) cps
    → char_loop (map pos cps) i out ≡ returns (out ++ text cps)
unfolding char_loop
char_loop-text [] strict i out all = ground (arith, append-nil out)
char_loop-text (cp ∷ cps) strict i out all = ground (
  arith,
  encode-append cp out,
  append_assoc out (encode cp []) (text cps),
  char_loop-text cps strict (i + 1) (out ++ encode cp []),
)

length-text :
    (cps : List ℕ) (strict : Bool) → All (Decodable strict) cps → length cps ≤ length (text cps)
length-text [] strict all = omega arith
length-text (cp ∷ cps) strict all = omega (
  arith,
  length-append (encode cp []) (text cps),
  encode_pos cp all.0.0,
  length-text cps strict all.1,
)

-- On decodable code points `utf8.char` builds the text of their encodings; from that text
-- `utf8.codepoint(s, 1, -1)` returns the same code points, and `utf8.len(s)` their number.
pub char-codepoint-len :
    (cps : List ℕ) (strict : Bool)
    → All (Decodable strict) cps
    → (lua_char (map pos cps) ≡ returns (text cps))
      × (lua_codepoint (text cps) (some (pos 1)) (some (negsuc 0)) strict ≡ returns cps)
      × (lua_len (text cps) none none strict ≡ returns (count (length cps)))
unfolding lua_char lua_codepoint lua_len
char-codepoint-len cps strict all = (
  char_loop-text cps strict 0 [] all,
  ground (
    arith,
    length-text cps strict all,
    codepoint_loop-text (length (text cps) + 1) [] cps strict [],
  ),
  ground (arith, length-text cps strict all, len_loop-text (length (text cps) + 1) [] cps strict 0),
)

-- The pairs of a position and a code point, from the byte position `at` on.
abbrev pub positions : ℕ → List ℕ → List (ℕ × ℕ)
positions at [] = []
positions at (cp ∷ cps) = (at + 1, cp) ∷ positions (at + length (encode cp [])) cps

codes_at-text :
    (before : Bytes) (cp : ℕ) (cps : List ℕ)
    → Decodable true cp
    → codes_at (before ++ text (cp ∷ cps)) (length before) ≡ returns (some (length before + 1, cp))
unfolding codes_at
codes_at-text before cp cps ok = ground (
  arith,
  decode_here before (text cps) cp true ok,
  encode_pos cp ok.0,
  length-append before (encode cp [] ++ text cps),
  length-append (encode cp []) (text cps),
)

codes_at-end : (before : Bytes) → codes_at (before ++ []) (length before) ≡ returns none
unfolding codes_at
codes_at-end before = ground (arith, append-nil before)

-- A call with the position of a code point looks behind its encoding.
codes_aux-text :
    (before : Bytes) (cp : ℕ) (cps : List ℕ)
    → Decodable true cp
    → codes_aux (before ++ (encode cp [] ++ text cps)) (suc (length before))
      ≡ codes_at ((before ++ encode cp []) ++ text cps) (length (before ++ encode cp []))
unfolding codes_aux
codes_aux-text before cp cps ok = ground (
  arith,
  decode_here before (text cps) cp true ok,
  append_assoc before (encode cp []) (text cps),
  length-append before (encode cp []),
)

iterate_one :
    (fuel : ℕ) (bytes : Bytes) (i at cp : ℕ)
    → codes_aux bytes i ≡ returns (some (at, cp))
    → iterate (suc fuel) bytes i ≡ (iterate fuel bytes at >>= λ rest. returns ((at, cp) ∷ rest))
unfolding iterate
iterate_one fuel bytes i at cp e = rw e

iterate_end :
    (fuel : ℕ) (bytes : Bytes) (i : ℕ)
    → codes_aux bytes i ≡ returns none
    → iterate (suc fuel) bytes i ≡ returns []
unfolding iterate
iterate_end fuel bytes i e = rw e

-- From a code point that was yielded, the iterator goes on with those behind it.
iterate-text :
    (fuel : ℕ) (before : Bytes) (cp : ℕ) (cps : List ℕ)
    → length cps < fuel
    → Decodable true cp
    → All (Decodable true) cps
    → iterate fuel (before ++ (encode cp [] ++ text cps)) (suc (length before))
      ≡ returns (positions (length before + length (encode cp [])) cps)
iterate-text zero before cp cps h ok all = absurd (omega arith)
iterate-text (suc fuel) before cp [] h ok all =
    iterate_end fuel _ _ (codes_aux-text before cp [] ok ∙ codes_at-end (before ++ encode cp []))
iterate-text (suc fuel) before cp (next ∷ cps) h ok all =
    let before' : Bytes = before ++ encode cp [] in
    ground (
      arith,
      iterate_one fuel (before ++ (encode cp [] ++ text (next ∷ cps))) (suc (length before))
          (length before' + 1) next
          (codes_aux-text before cp (next ∷ cps) ok ∙ codes_at-text before' next cps all.0),
      append_assoc before (encode cp []) (text (next ∷ cps)),
      length-append before (encode cp []),
      iterate-text fuel before' next cps (omega arith) all.0 all.1,
    )

iterate_start :
    (cps : List ℕ)
    → All (Decodable true) cps
    → (fuel : ℕ) → length cps < fuel
    → iterate fuel (text cps) 0 ≡ returns (positions 0 cps)
unfolding codes_aux
iterate_start cps all zero h = absurd (omega arith)
iterate_start [] all (suc fuel) h = iterate_end fuel [] 0 (codes_at-end [])
iterate_start (cp ∷ cps) all (suc fuel) h = ground (
  arith,
  iterate_one fuel (text (cp ∷ cps)) 0 1 cp (codes_at-text [] cp cps all.0),
  iterate-text fuel [] cp cps (omega arith) all.0 all.1,
)

-- A loop over `utf8.codes` of the text of Unicode scalar values yields each of them in order,
-- with the position of its first byte, and then ends.
pub iterate_lem :
    (cps : List ℕ)
    → All (Decodable true) cps
    → iterate (length (text cps) + 1) (text cps) 0 ≡ returns (positions 0 cps)
iterate_lem cps all =
    iterate_start cps all (length (text cps) + 1) (omega (arith, length-text cps true all))
