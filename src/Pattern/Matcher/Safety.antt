-- ===== src/Pattern/Matcher/Safety.antt =====
-- A whole match: it ends, and no index, slice or subtraction on the way fails.
use tcvm.Common.{ℕ, zero, suc, ◌+◌, ◌-◌, ◌≤◌, ◌<◌, ◌≡◌, refl, ◌∙◌, subst, arith, inl, inr, Option}
use tcvm.Common.{none, some, length, get_elem?, get_elem?_bound, ◌==◌, leb, Bool-cases}
use tcvm.Common.{Option-cases}
use native.Mathlib.Nat.{le_refl}
use tcvm.Pattern.{Bytes, Capture, CapLen, unfinished, position, len, CapValue, str, pos}
use tcvm.Pattern.{unfinished_capture, ok, err, Returns}
use tcvm.Pattern.Matcher.{Matcher, Step, init, done, Continue, deeper, round, loop, do_match}
use tcvm.Pattern.Matcher.{match_at, max_ccalls, get_onecapture}
use tcvm.Pattern.Matcher.Captures.{Fits, Below-get, Below-some}
use tcvm.Pattern.Matcher.Invariant.{Valid, Post, Good, StepPost, Returns-bind, Returns-mono}
use tcvm.Pattern.Matcher.Invariant.{Returns-if, Restored-Valid}
use tcvm.Pattern.Matcher.Total.{Returns-Restored_from}
use tcvm.Pattern.Matcher.Arms.{round_total}

-- The depth is not part of what a match promises to its continuation.
shallower : (s d : ℕ) (m : Matcher) → Valid s m → Valid s (record m { matchdepth = d })
shallower s d m v = record { level_bound = v.level_bound; size = v.size; captures = v.captures }

deeper-Post :
    (top s d : ℕ) (m : Matcher) (r : Option ℕ) (n : Matcher)
    → suc d ≡ m.matchdepth
    → Post top s (record m { matchdepth = d }) (r, n)
    → Post top s m (r, record n { matchdepth = n.matchdepth + 1 })
deeper-Post top s d m none n e h = record {
  level = h.level;
  depth = omega (arith, h.depth);
  size = h.size;
  captures = h.captures;
}
deeper-Post top s d m (some t) n e h = record {
  forwards = h.forwards;
  within = h.within;
  depth = omega (arith, h.depth);
  valid = shallower t (n.matchdepth + 1) n h.valid;
}

deeper_total :
    (top s p : ℕ) (k : Continue) (m : Matcher)
    → ((n : Matcher) → Valid s n → Returns (Post top s n) (k s p n))
    → Valid s m
    → Returns (Post top s m) (deeper k s p m)
deeper_total top s p k m inner v = elim (Bool-cases (m.matchdepth == 0)) [
  | inl none_left ↦ rw (none_left, Returns) tt
  | inr left ↦
      rw (left, Returns)
        (Returns-bind _ (k s p (record m { matchdepth = m.matchdepth - 1 })) _
          (inner _ (shallower s (m.matchdepth - 1) m v))
          (λ (r, n) h. deeper-Post top s (m.matchdepth - 1) m r n (ground (arith, left)) h))
]

module _ (src pat : Bytes) where
  -- What `fuel` rounds and nested matches are enough for.
  abbrev Served : ℕ → Type 0
  Served fuel =
      (s p : ℕ) (m : Matcher)
      → length pat < fuel + p
      → 1 ≤ fuel
      → s ≤ length src
      → Valid s m
      → Returns (Post (length src) s m) (loop src pat fuel s p m)

  module _ (fuel p : ℕ) (served : Served fuel) (enough : length pat < suc fuel + p)
      (inside : p < length pat) where
    goes_on :
        (s : ℕ) (m : Matcher) (step : Step)
        → Valid s m
        → StepPost (length src) p s m step
        → Returns
            (Post (length src) s m)
            (elim step [ init s' p' m' ↦ loop src pat fuel s' p' m' | done r m' ↦ ok (r, m') ])
    goes_on s m (init s' p' m') v h =
        Returns-Restored_from (length src) s s' m m' _ h.forwards h.restored (
          served s' p' m' (omega (arith, h.behind)) (omega arith) h.within
            (Restored-Valid s s' h.forwards h.restored v))
    goes_on s m (done r m') v h = h

    nested : Good (length src) p (deeper (loop src pat fuel))
    nested s p' m behind low v =
        deeper_total (length src) s p' (loop src pat fuel) m
          (λ n w. served s p' n (omega arith) (omega arith) low w) v

  loop_total : (fuel : ℕ) → Served fuel
  unfolding loop
  loop_total zero s p m enough some_ low v = absurd (omega arith)
  loop_total (suc fuel) s p m enough some_ low v = elim (Option-cases (get_elem? pat p)) [
    | inl end ↦
        rw (end, Returns) (record { forwards = le_refl s; within = low; depth = refl; valid = v })
    | inr (c, here) ↦
        let inside = get_elem?_bound pat p c here in
        rw (here, Returns)
          (Returns-bind _ (round src pat (deeper (loop src pat fuel)) c s p m) _
            (round_total src pat (deeper (loop src pat fuel)) p s m
              (nested fuel p (loop_total fuel) enough inside) low v c inside)
            (λ step h. goes_on fuel p (loop_total fuel) enough inside s m step v h))
  ]

-- What a run of `match_at` from `s` hands back: an end in the subject with every capture that
-- counts inside of it, or, after a failure, no capture.
pub data Matched (top s : ℕ) : Option ℕ × Matcher → Type 0 where
  found : {e : ℕ} {m : Matcher} → s ≤ e → e ≤ top → Valid e m → Matched top s (some e, m)
  missed : {m : Matcher} → m.level ≡ 0 → length m.capture ≡ 32 → Matched top s (none, m)

matched :
    (top s : ℕ) (m : Matcher) (r : Option ℕ × Matcher)
    → m.level ≡ 0
    → length m.capture ≡ 32
    → Post top s m r
    → Matched top s r
matched top s m (none, n) none_ size h = missed (h.level ∙ none_) (h.size ∙ size)
matched top s m (some e, n) none_ size h = found h.forwards h.within h.valid

-- For every subject, pattern and position in the subject, and a state with its 32 captures,
-- `match_at` raises an error or returns, never with an index, a slice or a subtraction out of
-- range and never short of fuel: an end that it returns lies between the position and the end of
-- the subject, and every capture that counts is closed and inside the match or still open; a
-- failure leaves no capture.
pub match_at_total :
    (src pat : Bytes) (s : ℕ) (m : Matcher)
    → length m.capture ≡ 32
    → s ≤ length src
    → Returns (Matched (length src) s) (match_at src pat m s)
unfolding match_at do_match
match_at_total src pat s m size low =
    let fresh = record m { level = 0; matchdepth = max_ccalls } in
    Returns-mono _ _ (deeper (loop src pat (length pat + 1)) s 0 fresh)
      (deeper_total (length src) s 0 (loop src pat (length pat + 1)) fresh
        (λ n w. loop_total src pat (length pat + 1) s 0 n (omega arith) (omega arith) low w)
        (record { level_bound = omega arith; size = size; captures = tt }))
      (λ r h. matched (length src) s fresh r refl size h)

-- A value of a capture that lies in a subject of length `top`.
abbrev pub InSubject : ℕ → CapValue → Type 0
InSubject top (str a b) = (a ≤ b) × (b ≤ top)
InSubject top (pos i) = (1 ≤ i) × (i ≤ top + 1)

value_total :
    (top e : ℕ) (c : Capture)
    → e ≤ top
    → Fits e c.init c.kind
    → Returns (InSubject top) (elim c.kind [
      | unfinished ↦ err unfinished_capture
      | position ↦ ok (pos (c.init + 1))
      | len n ↦ ok (str c.init (c.init + n))
    ])
value_total top e c le fits = by_kind c.kind c.init fits
  where
    by_kind :
        (k : CapLen) (start : ℕ)
        → Fits e start k
        → Returns (InSubject top) (elim k [
          | unfinished ↦ err unfinished_capture
          | position ↦ ok (pos (start + 1))
          | len n ↦ ok (str start (start + n))
        ])
    by_kind unfinished start f = tt
    by_kind position start f = (omega arith, omega arith)
    by_kind (len n) start f = (omega arith, omega arith)

-- A capture of a state that a match from `s` to `e` left.
pub capture_total :
    (src pat : Bytes) (s e i : ℕ) (n : Matcher)
    → s ≤ e
    → e ≤ length src
    → Valid e n
    → Returns (InSubject (length src)) (get_onecapture src pat n i s e)
unfolding get_onecapture
capture_total src pat s e i n forwards within v =
    Returns-if _ (leb n.level i) _ _
      (λ beyond. Returns-if _ (i == 0) _ _ (λ whole. (forwards, within)) (λ _. tt))
      (λ inside.
        let (c, here) = Below-some e n.level i n.capture v.captures (ground (arith, inside)) in
        rw (here, Returns)
          (value_total (length src) e c within
            (Below-get e n.level i n.capture c v.captures (ground (arith, inside)) here)))

-- After a match of any subject and pattern from `s` to `e` on a state with 32 captures,
-- `get_onecapture` raises an error or reads, for every index, a range with its end behind its
-- start, or a position, that lies in the subject.
pub get_onecapture-match_at :
    (src pat : Bytes) (s e i : ℕ) (m n : Matcher)
    → length m.capture ≡ 32
    → s ≤ length src
    → match_at src pat m s ≡ ok (some e, n)
    → Returns (InSubject (length src)) (get_onecapture src pat n i s e)
get_onecapture-match_at src pat s e i m n size low run =
    from (subst (Returns (Matched (length src) s)) run (match_at_total src pat s m size low))
  where
    from :
        Matched (length src) s (some e, n)
        → Returns (InSubject (length src)) (get_onecapture src pat n i s e)
    from (found forwards within v) = capture_total src pat s e i n forwards within v
