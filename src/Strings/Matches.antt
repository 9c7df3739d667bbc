-- ===== src/Strings/Matches.antt =====
-- A step of the iterator of `gmatch`.
use tcvm.Common.{ℕ, zero, suc, ◌+◌, ◌-◌, ◌*◌, ◌≤◌, ◌<◌, ◌≡◌, refl, arith, true, leb, Option, none}
use tcvm.Common.{some, List, inl, inr, ltb, if◌then◌else◌, length, Bool-cases}
use tcvm.Common.Int.{ℤ, negsuc}
use native.Mathlib.Nat.{le_refl}
use tcvm.Pattern.{Bytes, ok, Returns}
use tcvm.Pattern.Matcher.{Matcher, new, match_at, num_captures}
use tcvm.Pattern.Matcher.Invariant.{Valid, Returns-bind, Returns-if, Returns-mono}
use tcvm.Pattern.Matcher.Safety.{Matched, found, missed, match_at_total}
use tcvm.Strings.{Value, GmatchState, differs, captures, gmatch_loop, gmatch_values, gmatch_aux}
use tcvm.Strings.{lua_gmatch, init_pos}
use tcvm.Strings.Searches.{captures_total, num_captures_pos, new_size}

-- A new match: it does not end where the last one did.
abbrev New : ℕ → ℕ → Option ℕ → Option (ℕ × ℕ × Matcher) → Type 0
New top low last none = Unit
New top low last (some (s, e, m)) =
    (low ≤ s) × (s ≤ e) × (e ≤ top) × (differs e last ≡ true) × Valid e m

New-weaken :
    (top low : ℕ) (last : Option ℕ) (r : Option (ℕ × ℕ × Matcher))
    → New top (low + 1) last r
    → New top low last r
New-weaken top low last none h = tt
New-weaken top low last (some (s, e, m)) (a, b, c, d, v) = (omega arith, b, c, d, v)

-- The iterator's place: the last match ended at the position, if there was one.
pub data IsPlaced (top : ℕ) : GmatchState → Type 0 where
  fresh : {p : ℕ} → p ≤ top + 1 → IsPlaced top (record { pos = p; lastmatch = none })
  after : {p : ℕ} → p ≤ top → IsPlaced top (record { pos = p; lastmatch = some p })

-- What is left to iterate: two for each byte behind the position, one for an empty match at it.
unfoldable pub remaining : ℕ → GmatchState → ℕ
remaining top st = 2 * (top + 1 - st.pos) + (elim st.lastmatch [ none ↦ 1 | some e ↦ 0 ])

-- A step that yields values leaves less to iterate; one that yields none leaves the state alone.
pub data Stepped (top : ℕ) (st : GmatchState) : Option (List Value) × GmatchState → Type 0 where
  yielded :
      {vs : List Value} {st' : GmatchState}
      → 1 ≤ length vs
      → IsPlaced top st'
      → remaining top st' < remaining top st
      → Stepped top st (some vs, st')
  ended : Stepped top st (none, st)

module _ (src pat : Bytes) where
  abbrev Served : ℕ → Type 0
  Served fuel =
      (m : Matcher) (last : Option ℕ) (at : ℕ)
      → length m.capture ≡ 32
      → length src + 1 < fuel + at
      → at ≤ length src + 1
      → Returns (New (length src) at last) (gmatch_loop src pat fuel m last at)

  later :
      (fuel : ℕ) (m : Matcher) (last : Option ℕ) (at : ℕ)
      → Served fuel
      → length m.capture ≡ 32
      → length src + 1 < suc fuel + at
      → at ≤ length src
      → Returns (New (length src) at last) (gmatch_loop src pat fuel m last (at + 1))
  later fuel m last at served kept enough low =
      Returns-mono _ _ (gmatch_loop src pat fuel m last (at + 1))
        (served m last (at + 1) kept (omega (arith, enough)) (omega arith))
        (λ r h. New-weaken (length src) at last r h)

  after_attempt :
      (fuel : ℕ) (last : Option ℕ) (at : ℕ) (r : Option ℕ × Matcher)
      → Served fuel
      → length src + 1 < suc fuel + at
      → at ≤ length src
      → Matched (length src) at r
      → Returns (New (length src) at last) (elim r.0 [
        | some e ↦
            if differs e last
            then ok (some (at, e, r.1))
            else gmatch_loop src pat fuel r.1 last (at + 1)
        | none ↦ gmatch_loop src pat fuel r.1 last (at + 1)
      ])
  after_attempt fuel last at (some e, n) served enough low (found forwards within v) =
      Returns-if _ (differs e last) _ _ (λ new_. (le_refl at, forwards, within, new_, v))
        (λ _. later fuel n last at served v.size enough low)
  after_attempt fuel last at (none, n) served enough low (missed _ kept) =
      later fuel n last at served kept enough low

  gmatch_loop_total : (fuel : ℕ) → Served fuel
  unfolding gmatch_loop
  gmatch_loop_total zero m last at size enough low = absurd (omega arith)
  gmatch_loop_total (suc fuel) m last at size enough low = elim (Bool-cases (ltb (length src) at)) [
    | inl end ↦ rw (end, Returns) tt
    | inr more ↦
        let inside : at ≤ length src = ground (arith, more) in
        rw (more, Returns)
          (Returns-bind _ (match_at src pat m at) _ (match_at_total src pat at m size inside)
            (λ r h. after_attempt fuel last at r (gmatch_loop_total fuel) enough inside h))
  ]

  less :
      (s e : ℕ) (st : GmatchState)
      → IsPlaced (length src) st
      → st.pos ≤ s
      → s ≤ e
      → e ≤ length src
      → differs e st.lastmatch ≡ true
      → remaining (length src) (record { pos = e; lastmatch = some e }) < remaining (length src) st
  unfolding remaining
  less s e _ (fresh p) low forwards within new_ = omega arith
  less s e _ (after {p} h) low forwards within new_ =
      let other : ¬ (e ≡ p) = ground (arith, new_) in omega arith

  yields :
      (st : GmatchState) (r : Option (ℕ × ℕ × Matcher))
      → IsPlaced (length src) st
      → New (length src) st.pos st.lastmatch r
      → Returns (Stepped (length src) st) (gmatch_values src pat st r)
  yields st none placed h = ended
  yields st (some (s, e, m)) placed (a, b, c, d, v) =
      Returns-bind _ (captures src pat m s e (num_captures src pat m true) 0) _
        (captures_total src pat m s e (num_captures src pat m true) 0 b c v)
        (λ vs count.
          let n = num_captures_pos src pat m in
          yielded (omega (arith, count, n)) (after c) (less s e st placed a b c d))

placed_bound : (top : ℕ) (st : GmatchState) → IsPlaced top st → st.pos ≤ top + 1
placed_bound top _ (fresh h) = h
placed_bound top _ (after h) = omega arith

-- From a state in its place, a step of the iterator of `gmatch` raises a pattern error, ends the
-- iteration without a change of the state, or yields at least one value and leaves a state in its
-- place with less to iterate; it never panics and its search ends.
pub gmatch_aux_total :
    (src pat : Bytes) (st : GmatchState)
    → IsPlaced (length src) st
    → Returns (Stepped (length src) st) (gmatch_aux src pat st)
unfolding gmatch_aux
gmatch_aux_total src pat st placed =
    Returns-bind _ (gmatch_loop src pat (length src + 2) new st.lastmatch st.pos) _
      (gmatch_loop_total src pat (length src + 2) new st.lastmatch st.pos new_size (omega arith)
        (placed_bound (length src) st placed))
      (λ r h. yields src pat st r placed h)

abbrev start_pos : ℕ → ℤ → ℕ
start_pos top init_raw = elim (init_pos init_raw top) [ none ↦ top + 1 | some init ↦ init ]

start_pos_le : (top : ℕ) (init_raw : ℤ) → start_pos top init_raw ≤ top + 1
unfolding init_pos
start_pos_le top (ℤ.pos zero) = ground arith
start_pos_le top (ℤ.pos (suc n)) = ground arith
start_pos_le top (negsuc n) = ground arith

-- Where an iteration starts for an initial position counted from 1, or from the end if negative;
-- 0 and what is before the text start at its first byte, and what is past its end just past it.
pub data StartsAt (top : ℕ) : ℤ → ℕ → Type 0 where
  zero_start : StartsAt top (ℤ.pos 0) 0
  inside : {p : ℕ} → p ≤ top → StartsAt top (ℤ.pos (suc p)) p
  past_end : {n : ℕ} → top + 1 < n → StartsAt top (ℤ.pos n) (top + 1)
  from_end : {n p : ℕ} → p + suc n ≡ top → StartsAt top (negsuc n) p
  before_text : {n : ℕ} → top < suc n → StartsAt top (negsuc n) 0

starts_at : (top : ℕ) (init_raw : ℤ) → StartsAt top init_raw (start_pos top init_raw)
unfolding init_pos
starts_at top (ℤ.pos zero) =
    let fits : leb 0 top ≡ true = ground arith in rw (fits, start_pos) zero_start
starts_at top (ℤ.pos (suc n)) = elim (Bool-cases (leb n top)) [
  | inl low ↦ rw (low, start_pos) (inside (ground (arith, low)))
  | inr high ↦ rw (high, start_pos) (past_end (ground (arith, high)))
]
starts_at top (negsuc n) = elim (Bool-cases (ltb top (suc n))) [
  | inl far ↦
      let fits : leb 0 top ≡ true = ground arith in
      rw (far, fits, start_pos) (before_text (ground (arith, far)))
  | inr near ↦
      let fits : leb (top - suc n) top ≡ true = ground arith in
      rw (near, fits, start_pos) (from_end (ground (arith, near)))
]

-- The iterator that `gmatch` makes has no last match, starts at the byte that the initial position
-- names, or just past the end of the text for one past it, and is in its place.
pub lua_gmatch-IsPlaced :
    (src : Bytes) (init_raw : ℤ)
    → IsPlaced (length src) (lua_gmatch src init_raw)
      × StartsAt (length src) init_raw ((lua_gmatch src init_raw).pos)
      × ((lua_gmatch src init_raw).lastmatch ≡ none)
unfolding lua_gmatch
lua_gmatch-IsPlaced src init_raw =
    (fresh (start_pos_le (length src) init_raw), starts_at (length src) init_raw, refl)
