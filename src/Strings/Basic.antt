-- ===== src/Strings/Basic.antt =====
-- The functions of src/builtin/string/mod.rs that match no pattern: `byte`, `char`, `sub`, `rep`,
-- from the point where their arguments are checked; `none` is an argument that is nil.
use Prim.Native.Nat.{max, min}
use tcvm.Common.{ℕ, zero, suc, ◌+◌, ◌-◌, ◌*◌, ◌^◌, ◌≤◌, ◌<◌, ◌≡◌, refl, sym, ap, ◌∙◌, arith, inl}
use tcvm.Common.{inr, ◌&&◌, Option, none, some, List, [], ◌∷◌, ◌++◌, length, take, drop}
use tcvm.Common.{get_elem?, ltb, leb, if◌then◌else◌, get_elem?-some, length-append, Bool-cases}
use tcvm.Common.{All, map}
use tcvm.Common.Int.{ℤ, pos, negsuc, leb_ℤ, pos_part}
use tcvm.Pattern.{Bytes, Outcome, ok, ◌>>=◌}
use tcvm.Pattern.Class.{index, is_lower, to_lower}
use mathlib.Core.List.{append_assoc, append-nil}
use tcvm.Strings.{range}

-- `posrelat`, whose result is never negative.
unfoldable pub relative_pos : ℤ → ℕ → ℕ
relative_pos (pos n) len = n
relative_pos (negsuc n) len = if ltb len (suc n) then 0 else len - n

abbrev default : ℤ → Option ℤ → ℤ
default d none = d
default d (some i) = i

abbrev pub first_pos : Bytes → ℤ → ℕ
first_pos src i = max (relative_pos i (length src)) 1

abbrev pub last_pos : Bytes → ℤ → ℕ
last_pos src j = min (relative_pos j (length src)) (length src)

-- `while k <= end { … }`, with `n` rounds to go.
unfoldable pub byte_loop : Bytes → ℕ → ℕ → Outcome (List ℕ)
byte_loop src zero k = ok []
byte_loop src (suc n) k = index src (k - 1) >>= λ b. byte_loop src n (k + 1) >>= λ bs. ok (b ∷ bs)

unfoldable pub lua_byte : Bytes → Option ℤ → Option ℤ → Outcome (List ℕ)
unfolding byte_loop
lua_byte src i_arg j_arg =
    let i = default (pos 1) i_arg in
    let j = default i j_arg in
    byte_loop src (last_pos src j + 1 - first_pos src i) (first_pos src i)

unfoldable pub lua_sub : Bytes → Option ℤ → Option ℤ → Outcome Bytes
lua_sub src i_arg j_arg =
    let i = default (pos 1) i_arg in
    let j = default (negsuc 0) j_arg in
    if leb (first_pos src i) (last_pos src j)
    then range src (first_pos src i - 1) (last_pos src j)
    else ok []

-- What `char` answers: a text, or the number of the argument that is out of range.
pub data CharResult : Type 0 where
  text : Bytes → CharResult
  bad_argument : ℕ → CharResult

unfoldable pub char_bytes : List ℤ → ℕ → Bytes → CharResult
char_bytes [] i out = text out
char_bytes (c ∷ cs) i out =
    let rest = char_bytes cs (i + 1) (out ++ (pos_part c ∷ [])) in
    if leb_ℤ (pos 0) c && leb_ℤ c (pos 255) then rest else bad_argument (i + 1)

unfoldable pub lua_char_bytes : List ℤ → CharResult
unfolding char_bytes
lua_char_bytes cs = char_bytes cs 0 []

-- `checked_add` and `checked_mul` of a `usize`, and the subtraction that follows them.
abbrev checked : ℕ → Option ℕ
checked n = if ltb n (2 ^ 64) then some n else none

abbrev pub total_length : ℕ → ℕ → ℕ → Option ℕ
total_length body sep n = elim (checked (body + sep)) [
  | none ↦ none
  | some per ↦ elim (checked (per * n)) [
    | none ↦ none
    | some t ↦
        if ltb t sep then none else if leb (t - sep) (2 ^ 63 - 1) then some (t - sep) else none
  ]
]

-- `for k in 0..n`, from the round `k` on with `n` to go.
unfoldable pub rep_loop : Bytes → Bytes → ℕ → ℕ → Bytes → Bytes
rep_loop body sep zero k out = out
rep_loop body sep (suc n) k out =
    rep_loop body sep n (k + 1) ((if ltb 0 k then out ++ sep else out) ++ body)

-- `none` is the error "resulting string too large".
unfoldable pub lua_rep : Bytes → ℤ → Bytes → Option Bytes
unfolding rep_loop
lua_rep body n sep =
    if leb_ℤ n (pos 0)
    then some []
    else elim (total_length (length body) (length sep) (pos_part n)) [
      | none ↦ none
      | some total ↦ some (rep_loop body sep (pos_part n) 0 [])
    ]

pub take-length : {A : Type 0} (xs : List A) → take (length xs) xs ≡ xs
take-length [] = refl
take-length {A = A} (x ∷ xs) = ap (λ (l : List A). x ∷ l) (take-length xs)

take-drop :
    (src : Bytes) (n at b : ℕ)
    → get_elem? src at ≡ some b
    → take (suc n) (drop at src) ≡ b ∷ take n (drop (at + 1) src)
take-drop [] n at b e = absurd (ground (arith, e))
take-drop (c ∷ src) n zero b e = grind (arith, e)
take-drop (c ∷ src) n (suc at) b e = let h = take-drop src n at b e in grind (arith, h)

byte_loop_lem :
    (src : Bytes) (n at : ℕ)
    → at + n ≤ length src
    → byte_loop src n (at + 1) ≡ ok (take n (drop at src))
unfolding byte_loop
byte_loop_lem src zero at fit = refl
byte_loop_lem src (suc n) at fit =
    let (b, here) = get_elem?-some src at (omega (arith, fit)) in
    let back : at + 1 - 1 ≡ at = omega arith in
    let rest = byte_loop_lem src n (at + 1) (omega (arith, fit)) in
    ground (arith, here, back, rest, take-drop src n at b here)

bytes_between :
    (src : Bytes) (low high : ℕ)
    → 1 ≤ low
    → high ≤ length src
    → byte_loop src (high + 1 - low) low
      ≡ (if leb low high then range src (low - 1) high else ok [])
unfolding byte_loop
bytes_between src low high one within = elim (Bool-cases (leb low high)) [
  | inl some_ ↦
      let at : low ≡ low - 1 + 1 = omega (arith, one) in
      let n : high + 1 - low ≡ high - (low - 1) = ground (arith, some_, one) in
      let loop = byte_loop_lem src (high - (low - 1)) (low - 1) (ground (arith, some_, one)) in
      let same : byte_loop src (high + 1 - low) low
          ≡ byte_loop src (high - (low - 1)) (low - 1 + 1) =
        cc in
      same ∙ loop ∙ sym (ground (arith, some_, one, within))
  | inr empty ↦ let n : high + 1 - low ≡ 0 = ground (arith, empty) in ground (arith, n, empty)
]

range_total :
    (src : Bytes) (low high : ℕ)
    → high ≤ length src
    → (bs : Bytes) × ((if leb low high then range src (low - 1) high else ok []) ≡ ok bs)
range_total src low high within = elim (Bool-cases (leb low high)) [
  | inl some_ ↦ (take (high - (low - 1)) (drop (low - 1) src), ground (arith, some_, within))
  | inr empty ↦ ([], ground (arith, empty))
]

-- For every text and all positions, neither `byte` nor `sub` panics, and `byte` pushes exactly the
-- bytes of the text that `sub` makes of the same two positions.
pub lua_byte-lua_sub :
    (src : Bytes) (i j : ℤ)
    → (bs : Bytes) × (lua_byte src (some i) (some j) ≡ ok bs)
      × (lua_sub src (some i) (some j) ≡ ok bs)
unfolding lua_byte lua_sub
lua_byte-lua_sub src i j =
    let (bs, cut) = range_total src (first_pos src i) (last_pos src j) (omega arith) in
    let same = bytes_between src (first_pos src i) (last_pos src j) (omega arith) (omega arith) in
    (bs, same ∙ cut, cut)

rep_loop-length :
    (body sep : Bytes) (n k : ℕ) (out : Bytes)
    → length (rep_loop body sep n (k + 1) out) ≡ length out + (length sep + length body) * n
unfolding rep_loop
rep_loop-length body sep zero k out = omega arith
rep_loop-length body sep (suc n) k out =
    let out' = (out ++ sep) ++ body in
    let rest = rep_loop-length body sep n (k + 1) out' in
    let more : length out' ≡ length out + length sep + length body =
      omega (arith, length-append (out ++ sep) body, length-append out sep) in
    let step : (length sep + length body) * suc n
        ≡ (length sep + length body) * n + (length sep + length body) =
      omega arith in
    ground (arith, rest, more, step)

-- `rep` of a positive count is refused, or its text has `n` times the length of the body and
-- `n - 1` times that of the separator, which fits an i64, as its capacity was computed.
pub lua_rep_lem :
    (body sep out : Bytes) (n : ℕ)
    → lua_rep body (pos (suc n)) sep ≡ some out
    → (length out ≡ length body * suc n + length sep * n) × (length out < 2 ^ 63)
unfolding lua_rep rep_loop
lua_rep_lem body sep out n e = by_total (total_length (length body) (length sep) (suc n)) refl e
  where
    by_total :
        (o : Option ℕ)
        → total_length (length body) (length sep) (suc n) ≡ o
        → (if leb_ℤ (pos (suc n)) (pos 0)
            then some []
            else elim o [ none ↦ none | some total ↦ some (rep_loop body sep (suc n) 0 []) ])
          ≡ some out
        → (length out ≡ length body * suc n + length sep * n) × (length out < 2 ^ 63)
    by_total none t e = absurd (ground (arith, e))
    by_total (some total) t e =
        let same : rep_loop body sep n 1 body ≡ out = ground (arith, e) in
        let size : length out ≡ length body + (length sep + length body) * n =
          ap (λ (l : Bytes). length l) (sym same) ∙ rep_loop-length body sep n 0 body in
        let poly : length body + (length sep + length body) * n
            ≡ length body * suc n + length sep * n =
          omega arith in
        let whole : (length body + length sep) * suc n
            ≡ length sep + (length body + (length sep + length body) * n) =
          omega arith in
        (size ∙ poly, ground (arith, size, whole, t))

char_loop_lem :
    (bytes : Bytes) (i : ℕ) (out : Bytes)
    → All (λ b. b < 256) bytes
    → char_bytes (map pos bytes) i out ≡ text (out ++ bytes)
unfolding char_bytes
char_loop_lem [] i out all = ground (arith, append-nil out)
char_loop_lem (b ∷ bs) i out (h, all) =
    ground (arith, h, append_assoc out (b ∷ []) bs, char_loop_lem bs (i + 1) (out ++ (b ∷ [])) all)

bytes_all : (bytes : Bytes) → lua_byte bytes (some (pos 1)) (some (negsuc 0)) ≡ ok bytes
unfolding lua_byte relative_pos
bytes_all [] = refl
bytes_all (b ∷ bs) =
    let last : last_pos (b ∷ bs) (negsuc 0) ≡ length (b ∷ bs) = ground arith in
    let first : first_pos (b ∷ bs) (pos 1) ≡ 1 = refl in
    let loop = byte_loop_lem (b ∷ bs) (length (b ∷ bs)) 0 (omega arith) in
    let whole : take (length (b ∷ bs)) (b ∷ bs) ≡ b ∷ bs = take-length (b ∷ bs) in
    ground (arith, last, loop, whole)

-- On the bytes of a text, `char` gives back the text, and `byte(s, 1, -1)` of it the bytes.
pub lua_char-lua_byte :
    (bytes : Bytes)
    → All (λ b. b < 256) bytes
    → (lua_char_bytes (map pos bytes) ≡ text bytes)
      × (lua_byte bytes (some (pos 1)) (some (negsuc 0)) ≡ ok bytes)
unfolding lua_char_bytes
lua_char-lua_byte bytes all = (char_loop_lem bytes 0 [] all, bytes_all bytes)

abbrev to_upper : ℕ → ℕ
to_upper c = if is_lower c then c - 32 else c

unfoldable pub lua_lower : Bytes → Bytes
lua_lower s = map to_lower s

unfoldable pub lua_upper : Bytes → Bytes
lua_upper s = map to_upper s

to_upper-to_lower : (c : ℕ) → to_upper (to_lower c) ≡ to_upper c
to_upper-to_lower c = ground arith

to_lower-to_upper : (c : ℕ) → to_lower (to_upper c) ≡ to_lower c
to_lower-to_upper c = ground arith

-- Of every text, `upper` and `lower` each forget what the other has done.
pub lua_upper-lua_lower :
    (s : Bytes) → (lua_upper (lua_lower s) ≡ lua_upper s) × (lua_lower (lua_upper s) ≡ lua_lower s)
unfolding lua_lower lua_upper
lua_upper-lua_lower [] = (refl, refl)
lua_upper-lua_lower (c ∷ cs) =
    let (u, l) = lua_upper-lua_lower cs in
    let hu = to_upper-to_lower c in let hl = to_lower-to_upper c in (cc, cc)
