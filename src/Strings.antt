-- ===== src/Strings.antt =====
-- src/builtin/string/mod.rs: `find`, `match`, `gmatch` and `gsub` with a template, on top of the
-- matcher. A function starts where its arguments are checked, and answers what it pushes.
pub mod Basic
pub mod Format
pub mod Gsub
pub mod Searches
pub mod Matches
pub mod Replacements
pub mod Whole
use tcvm.Common.{ℕ, zero, suc, ◌+◌, ◌-◌, arith, Bool, true, false, ◌&&◌, ◌||◌, Option, none, some}
use tcvm.Common.{List, [], ◌∷◌, ltb, leb, ◌==◌, if◌then◌else◌, length, take, drop}
use tcvm.Common.Int.{ℤ, pos, negsuc}
use tcvm.Pattern.{Bytes, CapValue, str, Outcome, ok, err, panic, stuck, ◌>>=◌}
use tcvm.Pattern.Class.{has_at}
use tcvm.Pattern.Matcher.{Matcher, new, match_at, num_captures, get_onecapture}
use tcvm.Pattern.Search.{nospecials, plain_find}

-- The values that the functions push.
pub data Value : Type 0 where
  nil : Value
  integer : ℕ → Value
  string : Bytes → Value

-- `src[start..end]`
abbrev pub range : Bytes → ℕ → ℕ → Outcome Bytes
range src start end =
    if leb start end && leb end (length src)
    then ok (take (end - start) (drop start src))
    else panic

unfoldable pub cap_to_value : Bytes → CapValue → Outcome Value
cap_to_value src (str start end) = range src start end >>= λ text. ok (string text)
cap_to_value src (CapValue.pos n) = ok (integer n)

abbrev fit : ℕ → ℕ → Option ℕ
fit init len = if leb init len then some init else none

unfoldable pub init_pos : ℤ → ℕ → Option ℕ
init_pos (pos zero) len = fit 0 len
init_pos (pos (suc n)) len = fit n len
init_pos (negsuc n) len = if ltb len (suc n) then fit 0 len else fit (len - suc n) len

-- `pat.first() == Some(&b'^')`, and the pattern behind the anchor.
abbrev pub anchored : Bytes → Bool
anchored pat = has_at pat 0 b'^'

abbrev pub body : Bytes → Bytes
body pat = if anchored pat then drop 1 pat else pat

module _ (src pat : Bytes) where
  -- The loop that pushes `n` captures from the `i`-th on, for the match from `s` to `e`.
  unfoldable pub captures : Matcher → ℕ → ℕ → ℕ → ℕ → Outcome (List Value)
  unfolding cap_to_value
  captures m s e zero i = ok []
  captures m s e (suc n) i = get_onecapture src pat m i s e >>= λ cv.
      cap_to_value src cv >>= λ v. captures m s e n (i + 1) >>= λ vs. ok (v ∷ vs)

  -- The loop over the start of the match: where it starts and ends, and the state.
  unfoldable pub search : Bool → ℕ → Matcher → ℕ → Outcome (Option (ℕ × ℕ × Matcher))
  search anchor zero m s1 = stuck
  search anchor (suc fuel) m s1 = match_at src pat m s1 >>= λ (r, m'). elim r [
    | some e ↦ ok (some (s1, e, m'))
    | none ↦
        let rest = search anchor fuel m' (s1 + 1) in
        if anchor || leb (length src) s1 then ok none else rest
  ]

  -- What `find` and `match` push.
  abbrev pub find_values : Option (ℕ × ℕ × Matcher) → Outcome (List Value)
  find_values none = ok (nil ∷ [])
  find_values (some (s, e, m)) = captures m s e (num_captures src pat m false) 0 >>= λ vs.
      ok (integer (s + 1) ∷ integer e ∷ vs)

  abbrev pub match_values : Option (ℕ × ℕ × Matcher) → Outcome (List Value)
  match_values none = ok (nil ∷ [])
  match_values (some (s, e, m)) = captures m s e (num_captures src pat m true) 0

-- The branch of `find` for a plain search.
abbrev pub plain_values : Bytes → ℕ → Option ℕ → List Value
plain_values pat init none = nil ∷ []
plain_values pat init (some off) = integer (init + off + 1) ∷ integer (init + off + length pat) ∷ []

-- `plain` is the flag of the fourth argument.
unfoldable pub lua_find : Bytes → Bytes → ℤ → Bool → Outcome (List Value)
unfolding search captures
lua_find src pat init_raw plain = elim (init_pos init_raw (length src)) [
  | none ↦ ok (nil ∷ [])
  | some init ↦
      if plain || nospecials pat
      then (plain_find (drop init src) pat >>= λ o. ok (plain_values pat init o))
      else (search src (body pat) (anchored pat) (length src + 1) new init
          >>= find_values src (body pat))
]

unfoldable pub lua_match : Bytes → Bytes → ℤ → Outcome (List Value)
unfolding search captures
lua_match src pat init_raw = elim (init_pos init_raw (length src)) [
  | none ↦ ok (nil ∷ [])
  | some init ↦
      search src (body pat) (anchored pat) (length src + 1) new init >>= match_values src (body pat)
]

-- `GmatchState`
pub record GmatchState : Type 0 where
  pub pos : ℕ
  pub lastmatch : Option ℕ

-- `lua_gmatch`
unfoldable pub lua_gmatch : Bytes → ℤ → GmatchState
unfolding init_pos
lua_gmatch src init_raw = record {
  pos = elim (init_pos init_raw (length src)) [ none ↦ length src + 1 | some init ↦ init ];
  lastmatch = none;
}

-- `Some(e) != lastmatch`
abbrev pub differs : ℕ → Option ℕ → Bool
differs e none = true
differs e (some l) = if e == l then false else true

module _ (src pat : Bytes) where
  -- The loop of `gmatch_aux`; a match that ends where the last one did is passed over.
  unfoldable pub gmatch_loop : ℕ → Matcher → Option ℕ → ℕ → Outcome (Option (ℕ × ℕ × Matcher))
  gmatch_loop zero m lastmatch at = stuck
  gmatch_loop (suc fuel) m lastmatch at = elim (ltb (length src) at) [
    | true ↦ ok none
    | false ↦ match_at src pat m at >>= λ (r, m').
        let rest = gmatch_loop fuel m' lastmatch (at + 1) in
        elim r [
          | some e ↦ if differs e lastmatch then ok (some (at, e, m')) else rest
          | none ↦ rest
        ]
  ]

  abbrev pub gmatch_values :
      GmatchState → Option (ℕ × ℕ × Matcher) → Outcome (Option (List Value) × GmatchState)
  gmatch_values st none = ok (none, st)
  gmatch_values st (some (at, e, m)) =
      captures src pat m at e (num_captures src pat m true) 0 >>= λ vs.
      ok (some vs, record { pos = e; lastmatch = some e })

  unfoldable pub gmatch_aux : GmatchState → Outcome (Option (List Value) × GmatchState)
  unfolding gmatch_loop captures
  gmatch_aux st = gmatch_loop (length src + 2) new st.lastmatch st.pos >>= gmatch_values st
