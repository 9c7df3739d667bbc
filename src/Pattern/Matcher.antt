-- ===== src/Pattern/Matcher.antt =====
-- `MatchState` and the functions that match on it. `level`, `matchdepth` and the capture array are
-- the state; an error ends the whole match, so that no state goes with it.
pub mod Captures
pub mod Invariant
pub mod Total
pub mod Rounds
pub mod Arms
pub mod Safety
use tcvm.Common.{◌^◌, ◌%◌, ℕ, zero, suc, ◌+◌, ◌-◌, arith, Bool, true, false, not, ◌&&◌, ◌||◌}
use tcvm.Common.{Option, none, some, List, [], ◌∷◌, ltb, leb, ◌==◌, if◌then◌else◌, get_elem?}
use tcvm.Common.{length, set, replicate, take, drop}
use tcvm.Pattern.{Bytes, PatError, Capture, CapLen, unfinished, position, len, CapValue, str, pos}
use tcvm.Pattern.{balance_args, missing_frontier_bracket, invalid_capture_index}
use tcvm.Pattern.{invalid_pattern_capture, unfinished_capture, too_many_captures}
use tcvm.Pattern.{pattern_too_complex, Outcome, ok, err, panic, stuck, ◌>>=◌}
use tcvm.Pattern.Class.{index, has_at, between, classend, single_match, match_bracket_class}

-- `MAX_CAPTURES` and `MAX_CCALLS`
abbrev pub max_captures : ℕ
max_captures = 32

abbrev pub max_ccalls : ℕ
max_ccalls = 200

pub record Matcher : Type 0 where
  pub level : ℕ
  pub matchdepth : ℕ
  pub capture : List Capture

-- `MatchState::new`
unfoldable pub new : Matcher
new = record {
  level = 0;
  matchdepth = max_ccalls;
  capture = replicate max_captures (record { init = 0; kind = unfinished });
}

-- A match: where it ends, if it succeeds, and the state that it leaves.
abbrev pub Match : Type 0
Match = Outcome (Option ℕ × Matcher)

abbrev pub Continue : Type 0
Continue = ℕ → ℕ → Matcher → Match

-- `Step`
pub data Step : Type 0 where
  init : ℕ → ℕ → Matcher → Step
  done : Option ℕ → Matcher → Step

abbrev pub finish : Option ℕ × Matcher → Outcome Step
finish (r, m) = ok (done r m)

-- `if let Some(res) = … { return Ok(Some(res)) }`, and what follows it.
abbrev pub or_retry : (Matcher → Match) → Option ℕ × Matcher → Match
or_retry g (some e, m) = ok (some e, m)
or_retry g (none, m) = g m

-- `self.capture[i]`
abbrev pub capture_at : Matcher → ℕ → Outcome Capture
capture_at m i = elim (get_elem? m.capture i) [ none ↦ panic | some c ↦ ok c ]

abbrev pub set_kind : List Capture → ℕ → CapLen → List Capture
set_kind [] i k = []
set_kind (c ∷ cs) zero k = record c { kind = k } ∷ cs
set_kind (c ∷ cs) (suc i) k = c ∷ set_kind cs i k

-- `self.capture[i].len = kind`
abbrev pub set_capture : Matcher → ℕ → CapLen → Matcher
set_capture m i k = record m { capture = set_kind m.capture i k }

unfoldable pub bytes_eq : Bytes → Bytes → Bool
bytes_eq [] [] = true
bytes_eq (b ∷ bs) (c ∷ cs) = b == c && bytes_eq bs cs
bytes_eq _ _ = false

-- The second loop: the rest of the pattern behind `i` repetitions, then behind fewer.
unfoldable pub back_off : Continue → ℕ → ℕ → ℕ → Matcher → Match
back_off do_match s zero ep m = do_match (s + 0) (ep + 1) m
back_off do_match s (suc i) ep m =
    do_match (s + suc i) (ep + 1) m >>= or_retry (λ m'. back_off do_match s i ep m')

-- `for level in (0..self.level).rev()`, the levels below `n`.
unfoldable pub open_below : Matcher → ℕ → Outcome ℕ
open_below m zero = err invalid_pattern_capture
open_below m (suc n) = capture_at m n >>= λ c. elim c.kind [
  | unfinished ↦ ok n
  | position ↦ open_below m n
  | len k ↦ open_below m n
]

unfoldable pub capture_to_close : Matcher → Outcome ℕ
unfolding open_below
capture_to_close m = open_below m m.level

-- What follows `do_match` in `start_capture`.
abbrev pub undo_start : Option ℕ × Matcher → Option ℕ × Matcher
undo_start (some e, m) = (some e, m)
undo_start (none, m) = (none, record m { level = m.level - 1 })

unfoldable pub start_capture : Continue → ℕ → ℕ → CapLen → Matcher → Match
start_capture do_match s p what m =
    if leb max_captures m.level
    then err too_many_captures
    else (do_match s p (record m {
      level = m.level + 1;
      capture = set m.capture m.level (record { init = s; kind = what });
    })
        >>= λ r. ok (undo_start r))

-- `self.capture[l].len = CapLen::Unfinished` after a failure.
abbrev pub undo_end : ℕ → Option ℕ × Matcher → Option ℕ × Matcher
undo_end l (some e, m) = (some e, m)
undo_end l (none, m) = (none, set_capture m l unfinished)

-- A capture that would end before its start is the overflow of `s - init`.
unfoldable pub end_capture : Continue → ℕ → ℕ → Matcher → Match
unfolding capture_to_close
end_capture do_match s p m = capture_to_close m >>= λ l. capture_at m l >>= λ c.
    if ltb s c.init
    then panic
    else (do_match s p (set_capture m l (len (s - c.init))) >>= λ r. ok (undo_end l r))

-- `check_capture`; the error names the digit.
unfoldable pub check_capture : Matcher → ℕ → Outcome ℕ
check_capture m digit =
    if ltb digit b'1' || leb m.level (digit - b'1')
    then err (invalid_capture_index (digit - b'0'))
    else (capture_at m (digit - b'1') >>= λ c. elim c.kind [
      | unfinished ↦ err (invalid_capture_index (digit - b'0'))
      | position ↦ ok (digit - b'1')
      | len n ↦ ok (digit - b'1')
    ])

abbrev pub init_or_fail : ℕ → Matcher → Option ℕ → Outcome Step
init_or_fail p m none = ok (done none m)
init_or_fail p m (some s) = ok (init s p m)

-- `do_match` around its loop: the depth goes down, and up again unless an error is raised.
abbrev pub deeper : Continue → Continue
deeper loop s p m = elim (m.matchdepth == 0) [
  | true ↦ err pattern_too_complex
  | false ↦ loop s p (record m { matchdepth = m.matchdepth - 1 }) >>= λ (r, m').
      ok (r, record m' { matchdepth = m'.matchdepth + 1 })
]

module _ (src pat : Bytes) where
  -- The loop of `match_balance`; `cont`, how deep it is, is an i32, which wraps around.
  unfoldable pub balance_loop : ℕ → ℕ → ℕ → ℕ → ℕ → Outcome (Option ℕ)
  balance_loop zero b e s cont = stuck
  balance_loop (suc fuel) b e s cont = elim (get_elem? src s) [
    | none ↦ ok none
    | some c ↦
        let less = (cont + (2 ^ 32 - 1)) % 2 ^ 32 in
        let closed = balance_loop fuel b e (s + 1) less in
        let opened = balance_loop fuel b e (s + 1) ((cont + 1) % 2 ^ 32) in
        let other = balance_loop fuel b e (s + 1) cont in
        if c == e
        then (if less == 0 then ok (some (s + 1)) else closed)
        else if c == b
        then opened
        else other
  ]

  unfoldable pub match_balance : ℕ → ℕ → Outcome (Option ℕ)
  unfolding balance_loop
  match_balance s p =
      if leb (length pat) (p + 1)
      then err balance_args
      else (index pat p >>= λ b. index pat (p + 1) >>= λ e.
          if has_at src s b then balance_loop (length src + 1) b e (s + 1) 1 else ok none)

  -- The first loop of `max_expand`: how often the item matches from `s` on.
  unfoldable pub count_matches : ℕ → ℕ → ℕ → ℕ → ℕ → Outcome ℕ
  count_matches zero s i p ep = stuck
  count_matches (suc fuel) s i p ep = single_match src pat (s + i) p ep >>= λ more. elim more [
    | true ↦ count_matches fuel s (i + 1) p ep
    | false ↦ ok i
  ]

  unfoldable pub max_expand : Continue → ℕ → ℕ → ℕ → Matcher → Match
  unfolding count_matches back_off
  max_expand do_match s p ep m =
      count_matches (length src + 1) s 0 p ep >>= λ i. back_off do_match s i ep m

  unfoldable pub min_expand : Continue → ℕ → ℕ → ℕ → ℕ → Matcher → Match
  min_expand do_match zero s p ep m = stuck
  min_expand do_match (suc fuel) s p ep m =
      do_match s (ep + 1) m
      >>= or_retry λ m'. single_match src pat s p ep >>= λ more. elim more [
        | true ↦ min_expand do_match fuel (s + 1) p ep m'
        | false ↦ ok (none, m')
      ]

  -- `src[i..i + n]`
  unfoldable pub slice : ℕ → ℕ → Outcome Bytes
  slice i n = if leb (i + n) (length src) then ok (take n (drop i src)) else panic

  unfoldable pub match_capture : ℕ → ℕ → Matcher → Outcome (Option ℕ)
  unfolding check_capture slice
  match_capture s digit m = check_capture m digit >>= λ l. capture_at m l >>= λ c. elim c.kind [
    | unfinished ↦ ok none
    | position ↦ ok none
    | len n ↦
        if ltb (length src) s
        then panic
        else if leb n (length src - s)
        then (slice c.init n >>= λ text.
            slice s n >>= λ here. ok (if bytes_eq text here then some (s + n) else none))
        else ok none
  ]

  -- `match_default`, with the suffix that follows the item.
  unfoldable pub after_mismatch : ℕ → ℕ → Matcher → Outcome Step
  after_mismatch s ep m =
      if has_at pat ep b'*' || has_at pat ep b'?' || has_at pat ep b'-'
      then ok (init s (ep + 1) m)
      else ok (done none m)

  abbrev pub after_optional : ℕ → ℕ → Option ℕ × Matcher → Outcome Step
  after_optional s ep (some e, m) = ok (done (some e) m)
  after_optional s ep (none, m) = ok (init s (ep + 1) m)

  unfoldable pub after_match : Continue → ℕ → ℕ → ℕ → Matcher → Outcome Step
  unfolding max_expand min_expand
  after_match do_match s p ep m =
      if has_at pat ep b'?'
      then (do_match (s + 1) (ep + 1) m >>= after_optional s ep)
      else if has_at pat ep b'+'
      then (max_expand do_match (s + 1) p ep m >>= finish)
      else if has_at pat ep b'*'
      then (max_expand do_match s p ep m >>= finish)
      else if has_at pat ep b'-'
      then (min_expand do_match (length src + 1) s p ep m >>= finish)
      else ok (init (s + 1) ep m)

  unfoldable pub match_default : Continue → ℕ → ℕ → Matcher → Outcome Step
  unfolding after_mismatch after_match
  match_default do_match s p m = classend pat p >>= λ ep. single_match src pat s p ep >>= λ matches.
      if matches then after_match do_match s p ep m else after_mismatch s ep m

  -- The byte before `s` and the byte at `s`, 0 beyond either end.
  abbrev pub previous : ℕ → Outcome ℕ
  previous zero = ok 0
  previous (suc s) = index src s

  abbrev pub byte_or_zero : ℕ → ℕ
  byte_or_zero s = elim (get_elem? src s) [ none ↦ 0 | some c ↦ c ]

  unfoldable pub frontier : ℕ → ℕ → Matcher → Outcome Step
  frontier s fp m =
      if has_at pat fp b'['
      then (classend pat fp >>= λ ep. previous s >>= λ before.
          match_bracket_class before pat fp (ep - 1) >>= λ inside_before.
          if inside_before
          then ok (done none m)
          else (match_bracket_class (byte_or_zero s) pat fp (ep - 1) >>= λ inside.
              ok (if inside then init s ep m else done none m)))
      else err missing_frontier_bracket

  -- The arm of the escape `%`: what follows it decides.
  unfoldable pub escape : Continue → ℕ → ℕ → Matcher → Outcome Step
  unfolding match_default frontier match_balance match_capture
  escape do_match s p m = elim (get_elem? pat (p + 1)) [
    | none ↦ match_default do_match s p m
    | some c ↦
        if c == b'b'
        then (match_balance s (p + 2) >>= init_or_fail (p + 4) m)
        else if c == b'f'
        then frontier s (p + 2) m
        else if between b'0' b'9' c
        then (match_capture s c m >>= init_or_fail (p + 2) m)
        else match_default do_match s p m
  ]

  -- One round of the loop of `do_match`, with `c` at `p`.
  unfoldable pub round : Continue → ℕ → ℕ → ℕ → Matcher → Outcome Step
  unfolding escape start_capture end_capture
  round do_match c s p m =
      if c == b'('
      then (if has_at pat (p + 1) b')'
          then (start_capture do_match s (p + 2) position m >>= finish)
          else (start_capture do_match s (p + 1) unfinished m >>= finish))
      else if c == b')'
      then (end_capture do_match s (p + 1) m >>= finish)
      else if c == b'$' && (p + 1) == length pat
      then ok (done (if s == length src then some s else none) m)
      else if c == b'%'
      then escape do_match s p m
      else match_default do_match s p m

  -- Every round and every nested match goes forwards in the pattern, so the fuel bounds both.
  unfoldable pub loop : ℕ → Continue
  loop zero s p m = stuck
  loop (suc fuel) s p m = elim (get_elem? pat p) [
    | none ↦ ok (some s, m)
    | some c ↦ round (deeper (loop fuel)) c s p m >>= λ step. elim step [
      | init s' p' m' ↦ loop fuel s' p' m'
      | done r m' ↦ ok (r, m')
    ]
  ]

  unfoldable pub do_match : Continue
  unfolding loop round
  do_match s p m = deeper (loop (length pat + 1)) s p m

  -- `match_at`
  unfoldable pub match_at : Matcher → ℕ → Match
  unfolding do_match
  match_at m s = do_match s 0 (record m { level = 0; matchdepth = max_ccalls })

  unfoldable pub num_captures : Matcher → Bool → ℕ
  num_captures m has_whole = if m.level == 0 && has_whole then 1 else m.level

  -- `get_onecapture`; positions count from 1.
  unfoldable pub get_onecapture : Matcher → ℕ → ℕ → ℕ → Outcome CapValue
  get_onecapture m i ws we =
      if leb m.level i
      then (if i == 0 then ok (str ws we) else err (invalid_capture_index (i + 1)))
      else (capture_at m i >>= λ c. elim c.kind [
        | unfinished ↦ err unfinished_capture
        | position ↦ ok (pos (c.init + 1))
        | len n ↦ ok (str c.init (c.init + n))
      ])
