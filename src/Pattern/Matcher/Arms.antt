-- ===== src/Pattern/Matcher/Arms.antt =====
-- The arms of the matcher's loop keep the invariant.
use tcvm.Common.{ℕ, zero, suc, ◌+◌, ◌-◌, ◌≤◌, ◌<◌, ◌≡◌, refl, arith, inl, inr, Bool, true, false}
use tcvm.Common.{◌&&◌, ◌||◌, Option, none, some, length, ltb, leb, ◌==◌, if◌then◌else◌}
use tcvm.Common.{Bool-cases, get_elem?, get_elem?-some}
use native.Mathlib.Nat.{le_refl}
use tcvm.Pattern.{Bytes, CapLen, unfinished, position, len, ok, panic, Returns, ◌>>=◌}
use tcvm.Pattern.Class.{index, has_at, between, classend, single_match, match_bracket_class}
use tcvm.Pattern.Class.Bounds.{has_at_bound, classend_bounds, match_bracket_class_total}
use tcvm.Pattern.Matcher.{Matcher, init, done, Continue, Match, finish, capture_at, balance_loop}
use tcvm.Pattern.Matcher.{match_balance, check_capture, match_capture, slice, bytes_eq, frontier}
use tcvm.Pattern.Matcher.{previous, byte_or_zero, init_or_fail, after_mismatch, after_match}
use tcvm.Pattern.Matcher.{after_optional, match_default, escape, round, max_expand, min_expand}
use tcvm.Pattern.Matcher.{start_capture, end_capture}
use tcvm.Pattern.Matcher.Captures.{Fits, Below-get}
use tcvm.Pattern.Matcher.Invariant.{Valid, Post, Good, Onwards, StepPost, Returns-bind}
use tcvm.Pattern.Matcher.Invariant.{Returns-if, Restored-refl, Restored-Valid, Post-Restored}
use tcvm.Pattern.Matcher.Total.{Returns-Restored_from, Item, single_match-Item, max_expand_total}
use tcvm.Pattern.Matcher.Total.{min_expand_total}
use tcvm.Pattern.Matcher.Rounds.{Ahead, balance_loop_total, Ahead-suc, capture_at_total}
use tcvm.Pattern.Matcher.Rounds.{start_capture_total, end_capture_total}

module _ (src pat : Bytes) where
  index_total :
      (bytes : Bytes) (i : ℕ)
      → i < length bytes
      → Returns (λ b. get_elem? bytes i ≡ some b) (index bytes i)
  index_total bytes i h = let (b, here) = get_elem?-some bytes i h in ground (arith, here)

  match_balance_total : (s p : ℕ) → Returns (Ahead (length src) s) (match_balance src pat s p)
  unfolding match_balance
  match_balance_total s p = elim (Bool-cases (leb (length pat) (p + 1))) [
    | inl short ↦ ground (arith, short)
    | inr long ↦
        rw (long, Returns)
          (Returns-bind _ (index pat p) _ (index_total pat p (ground (arith, long))) (λ b here.
            Returns-bind _ (index pat (p + 1)) _ (index_total pat (p + 1) (ground (arith, long)))
              (λ e there. inner b e)))
  ]
    where
      inner :
          (b e : ℕ)
          → Returns (Ahead (length src) s) (
              if has_at src s b
              then balance_loop src pat (length src + 1) b e (s + 1) 1
              else ok none)
      inner b e = elim (Bool-cases (has_at src s b)) [
        | inl starts ↦
            rw (starts, Returns)
              (Ahead-suc src pat s _ (
                balance_loop_total src pat (length src + 1) b e (s + 1) 1 (omega arith)
                  (omega arith)))
        | inr other ↦ ground (arith, other)
      ]

  slice_total : (i n : ℕ) → i + n ≤ length src → Returns (λ t. Unit) (slice src pat i n)
  unfolding slice
  slice_total i n h = ground arith

  check_capture_total :
      (s digit : ℕ) (m : Matcher) → Valid s m → Returns (λ l. l < m.level) (check_capture m digit)
  unfolding check_capture
  check_capture_total s digit m v =
      elim (Bool-cases (ltb digit b'1' || leb m.level (digit - b'1'))) [
        | inl bad ↦ ground (arith, bad)
        | inr good ↦
            let lt : digit - b'1' < m.level = ground (arith, good) in
            rw (good, Returns)
              (Returns-bind _ (capture_at m (digit - b'1')) _
                (capture_at_total s (digit - b'1') m lt v) (λ c here. ground (arith, lt)))
      ]

  reference_total :
      (s start : ℕ) (kind : CapLen)
      → s ≤ length src
      → Fits s start kind
      → Returns (Ahead (length src) s) (elim kind [
        | unfinished ↦ ok none
        | position ↦ ok none
        | len n ↦
            if ltb (length src) s
            then panic
            else if leb n (length src - s)
            then (slice src pat start n >>= λ text. slice src pat s n >>= λ here.
                ok (if bytes_eq text here then some (s + n) else none))
            else ok none
      ])
  unfolding slice
  reference_total s start unfinished low fits = tt
  reference_total s start position low fits = tt
  reference_total s start (len n) low fits = ground arith

  match_capture_total :
      (s digit : ℕ) (m : Matcher)
      → s ≤ length src
      → Valid s m
      → Returns (Ahead (length src) s) (match_capture src pat s digit m)
  unfolding match_capture
  match_capture_total s digit m low v =
      Returns-bind _ (check_capture m digit) _ (check_capture_total s digit m v) (λ l lt.
        Returns-bind _ (capture_at m l) _ (capture_at_total s l m lt v) (λ c here.
          reference_total s c.init c.kind low
            (Below-get s m.level l m.capture c v.captures lt here)))

  onwards :
      (p s p' s' : ℕ) (m : Matcher)
      → p < p'
      → s ≤ s'
      → s' ≤ length src
      → Onwards (length src) p s p' s' m m
  onwards p s p' s' m behind le low = record {
    behind = behind;
    forwards = le;
    within = low;
    restored = Restored-refl m;
  }

  init_or_fail_total :
      (p s p' : ℕ) (m : Matcher) (r : Option ℕ)
      → p < p'
      → Ahead (length src) s r
      → Returns (StepPost (length src) p s m) (init_or_fail p' m r)
  init_or_fail_total p s p' m none behind h = Restored-refl m
  init_or_fail_total p s p' m (some e) behind h = onwards p s p' e m behind h.0 h.1

  previous_total : (s : ℕ) → s ≤ length src → Returns (λ b. Unit) (previous src pat s)
  previous_total zero low = tt
  previous_total (suc s) low = let (b, here) = get_elem?-some src s low in ground (arith, here)

  frontier_total :
      (p s fp : ℕ) (m : Matcher)
      → p < fp
      → s ≤ length src
      → Returns (StepPost (length src) p s m) (frontier src pat s fp m)
  unfolding frontier
  frontier_total p s fp m behind low =
      Returns-if _ (has_at pat fp b'[') _ _
        (λ set.
          Returns-bind _ (classend pat fp) _ (classend_bounds pat fp (has_at_bound pat fp b'[' set))
            (λ ep (after, within, _).
              let closed : ep - 1 < length pat = omega arith in
              Returns-bind _ (previous src pat s) _ (previous_total s low) (λ before _.
                Returns-bind _ (match_bracket_class before pat fp (ep - 1)) _
                  (match_bracket_class_total before pat fp (ep - 1) closed)
                  (λ inside_before _.
                    Returns-if _ inside_before _ _ (λ _. Restored-refl m)
                      (λ _.
                        Returns-bind _
                          (match_bracket_class (byte_or_zero src pat s) pat fp (ep - 1)) _
                          (match_bracket_class_total (byte_or_zero src pat s) pat fp (ep - 1)
                            closed)
                          (λ inside _. verdict inside ep (omega arith)))))))
        (λ _. tt)
    where
      verdict :
          (inside : Bool) (ep : ℕ)
          → p < ep
          → StepPost (length src) p s m (if inside then init s ep m else done none m)
      verdict true ep further = onwards p s ep s m further (le_refl s) low
      verdict false ep further = Restored-refl m

  module _ (k : Continue) (p s : ℕ) (m : Matcher) (good : Good (length src) p k)
      (low : s ≤ length src) (v : Valid s m) where
    after_mismatch_total :
        (ep : ℕ) → p < ep → Returns (StepPost (length src) p s m) (after_mismatch src pat s ep m)
    unfolding after_mismatch
    after_mismatch_total ep further =
        Returns-if _ (has_at pat ep b'*' || has_at pat ep b'?' || has_at pat ep b'-') _ _
          (λ _. onwards p s (ep + 1) s m (omega arith) (le_refl s) low) (λ _. Restored-refl m)

    finish_total :
        (x : Match)
        → Returns (Post (length src) s m) x
        → Returns (StepPost (length src) p s m) (x >>= finish)
    finish_total x h = Returns-bind _ x finish h (λ r q. q)

    optional_total :
        (ep : ℕ) (r : Option ℕ × Matcher)
        → p < ep
        → Post (length src) (s + 1) m r
        → Returns (StepPost (length src) p s m) (after_optional src pat s ep r)
    optional_total ep (none, m') further h = record {
      behind = omega (arith, further);
      forwards = le_refl s;
      within = low;
      restored = h;
    }
    optional_total ep (some e, m') further h =
        Post-Restored (length src) s (s + 1) (some e) m' (omega arith) (Restored-refl m) h

    after_match_total :
        (ep : ℕ)
        → Item src pat p ep
        → s < length src
        → Returns (StepPost (length src) p s m) (after_match src pat k s p ep m)
    unfolding after_match
    after_match_total ep item room =
        let later = Restored-Valid s (s + 1) (omega arith) (Restored-refl m) v in
        Returns-if _ (has_at pat ep b'?') _ _
          (λ _.
            Returns-bind _ (k (s + 1) (ep + 1) m) _
              (good (s + 1) (ep + 1) m (omega (arith, item.start)) (omega arith) later)
              (λ r h. optional_total ep r item.start h))
          (λ _.
            Returns-if _ (has_at pat ep b'+') _ _
              (λ _. finish_total (max_expand src pat k (s + 1) p ep m) (
                Returns-Restored_from (length src) s (s + 1) m m _ (omega arith) (Restored-refl m)
                  (max_expand_total src pat k p ep item good (s + 1) m (omega arith) later)))
              (λ _.
                Returns-if _ (has_at pat ep b'*') _ _
                  (λ _.
                    finish_total (max_expand src pat k s p ep m)
                      (max_expand_total src pat k p ep item good s m low v))
                  (λ _.
                    Returns-if _ (has_at pat ep b'-') _ _
                      (λ _. finish_total (min_expand src pat k (length src + 1) s p ep m) (
                        min_expand_total src pat k p ep item good (length src + 1) s m low
                          (omega arith) v))
                      (λ _. onwards p s ep (s + 1) m item.start (omega arith) (omega arith)))))

    match_default_total :
        p < length pat → Returns (StepPost (length src) p s m) (match_default src pat k s p m)
    unfolding match_default
    match_default_total inside =
        Returns-bind _ (classend pat p) _ (classend_bounds pat p inside) (λ ep (start, end, escape).
          let item : Item src pat p ep = record { start = start; end = end; escape = escape } in
          Returns-bind _ (single_match src pat s p ep) _ (single_match-Item src pat s p ep item)
            (λ matches room.
              Returns-if _ matches _ _ (λ yes_. after_match_total ep item (room yes_))
                (λ _. after_mismatch_total ep start)))

    escape_total : p < length pat → Returns (StepPost (length src) p s m) (escape src pat k s p m)
    unfolding escape
    escape_total inside = by_next (get_elem? pat (p + 1))
      where
        by_next :
            (o : Option ℕ)
            → Returns (StepPost (length src) p s m) (elim o [
              | none ↦ match_default src pat k s p m
              | some c ↦
                  if c == b'b'
                  then (match_balance src pat s (p + 2) >>= init_or_fail (p + 4) m)
                  else if c == b'f'
                  then frontier src pat s (p + 2) m
                  else if between b'0' b'9' c
                  then (match_capture src pat s c m >>= init_or_fail (p + 2) m)
                  else match_default src pat k s p m
            ])
        by_next none = match_default_total inside
        by_next (some c) =
            Returns-if _ (c == b'b') _ _
              (λ _.
                Returns-bind _ (match_balance src pat s (p + 2)) _ (match_balance_total s (p + 2))
                  (λ r h. init_or_fail_total p s (p + 4) m r (omega arith) h))
              (λ _.
                Returns-if _ (c == b'f') _ _ (λ _. frontier_total p s (p + 2) m (omega arith) low)
                  (λ _.
                    Returns-if _ (between b'0' b'9' c) _ _
                      (λ _.
                        Returns-bind _ (match_capture src pat s c m) _
                          (match_capture_total s c m low v)
                          (λ r h. init_or_fail_total p s (p + 2) m r (omega arith) h))
                      (λ _. match_default_total inside)))

    -- One round of the loop.
    pub round_total :
        (c : ℕ) → p < length pat → Returns (StepPost (length src) p s m) (round src pat k c s p m)
    unfolding round
    round_total c inside =
        Returns-if _ (c == b'(') _ _
          (λ _.
            Returns-if _ (has_at pat (p + 1) b')') _ _
              (λ _. finish_total (start_capture k s (p + 2) position m) (
                start_capture_total k (length src) p s (p + 2) m good (omega arith) low v position
                  (le_refl s)))
              (λ _. finish_total (start_capture k s (p + 1) unfinished m) (
                start_capture_total k (length src) p s (p + 1) m good (omega arith) low v unfinished
                  (le_refl s))))
          (λ _.
            Returns-if _ (c == b')') _ _
              (λ _.
                finish_total (end_capture k s (p + 1) m)
                  (end_capture_total k (length src) p s (p + 1) m good (omega arith) low v))
              (λ _.
                Returns-if _ (c == b'$' && (p + 1) == length pat) _ _
                  (λ _. at_end (s == length src))
                  (λ _.
                    Returns-if _ (c == b'%') _ _ (λ _. escape_total inside)
                      (λ _. match_default_total inside))))
      where
        at_end : (b : Bool) → Post (length src) s m (if b then some s else none, m)
        at_end true = record { forwards = le_refl s; within = low; depth = refl; valid = v }
        at_end false = Restored-refl m
