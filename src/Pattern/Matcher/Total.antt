-- ===== src/Pattern/Matcher/Total.antt =====
-- Every step of the matcher keeps the invariant, and none reads out of bounds or runs out of fuel.
use tcvm.Pattern.{ok, err, panic, stuck, ◌>>=◌, Returns}
use tcvm.Pattern.Matcher.Invariant.{Valid, Restored, Post, Good, Returns-bind, Restored-refl}
use tcvm.Pattern.Matcher.Invariant.{Restored-Valid, Post-Restored}
use tcvm.Pattern.Matcher.{Bytes, Matcher, Continue, Match, or_retry, count_matches, back_off}
use tcvm.Pattern.Matcher.{max_expand, min_expand}
use tcvm.Common.{ℕ, zero, suc, ◌+◌, ◌≤◌, ◌<◌, ◌≡◌, refl, sym, subst, arith, true, false, none}
use tcvm.Common.{some, length}
use tcvm.Pattern.Class.{has_at, single_match}
use tcvm.Pattern.Class.Bounds.{single_match_bounds}
use native.Mathlib.Nat.{le_refl}

-- A run from a restored state and a later start serves the first.
pub Returns-Restored_from :
    (top s s' : ℕ) (m n : Matcher) (r : Match)
    → s ≤ s'
    → Restored m n
    → Returns (Post top s' n) r
    → Returns (Post top s m) r
Returns-Restored_from top s s' m n (ok (e, n')) le q h = Post-Restored top s s' e n' le q h
Returns-Restored_from top s s' m n (err x) le q h = tt
Returns-Restored_from top s s' m n panic le q h = h
Returns-Restored_from top s s' m n stuck le q h = h

-- A success is the answer; after a failure `g` tries something else.
retry :
    (top s s' : ℕ) (m : Matcher) (x : Match) (g : Matcher → Match)
    → s ≤ s'
    → Returns (Post top s' m) x
    → ((n : Matcher) → Restored m n → Returns (Post top s m) (g n))
    → Returns (Post top s m) (x >>= or_retry g)
retry top s s' m (ok (none, m')) g le h next = next m' h
retry top s s' m (ok (some e, m')) g le h next =
    Post-Restored top s s' (some e) m' le (Restored-refl m) h
retry top s s' m (err x) g le h next = tt
retry top s s' m panic g le h next = h
retry top s s' m stuck g le h next = h

module _ (src pat : Bytes) where
  -- A pattern item from `p` to `ep`, as `classend` finds it.
  pub record Item (p ep : ℕ) : Type 0 where
    pub start : p < ep
    pub end : ep ≤ length pat
    pub escape : has_at pat p b'%' ≡ true → ep ≡ p + 2

  pub single_match-Item :
      (s p ep : ℕ)
      → Item p ep
      → Returns (λ b. b ≡ true → s < length src) (single_match src pat s p ep)
  single_match-Item s p ep i = single_match_bounds src pat s p ep i.start i.end i.escape

  pub count_matches_total :
      (fuel s i p ep : ℕ)
      → Item p ep
      → s + i ≤ length src
      → length src < fuel + (s + i)
      → Returns (λ n. s + n ≤ length src) (count_matches src pat fuel s i p ep)
  unfolding count_matches
  count_matches_total zero s i p ep item low enough = absurd (omega arith)
  count_matches_total (suc fuel) s i p ep item low enough =
      Returns-bind _ (single_match src pat (s + i) p ep) _ (single_match-Item (s + i) p ep item)
        (elim [
          | true ↦ λ h.
              count_matches_total fuel s (i + 1) p ep item (omega (arith, h refl)) (omega arith)
          | false ↦ λ h. low
        ])

  module _ (k : Continue) (p ep : ℕ) (item : Item p ep) (good : Good (length src) p k) where
    back_off_total :
        (s i : ℕ) (m : Matcher)
        → s + i ≤ length src
        → Valid s m
        → Returns (Post (length src) s m) (back_off k s i ep m)
    unfolding back_off
    back_off_total s zero m low v =
        let here : s + 0 ≡ s = omega arith in
        subst (λ (t : ℕ). Returns (Post (length src) s m) (k t (ep + 1) m)) (sym here)
          (good s (ep + 1) m (omega (arith, item.start)) (omega arith) v)
    back_off_total s (suc i) m low v =
        retry (length src) s (s + suc i) m (k (s + suc i) (ep + 1) m) _ (omega arith)
          (good (s + suc i) (ep + 1) m (omega (arith, item.start)) low
            (Restored-Valid s (s + suc i) (omega arith) (Restored-refl m) v))
          (λ n q.
            Returns-Restored_from (length src) s s m n _ (le_refl s) q
              (back_off_total s i n (omega arith) (Restored-Valid s s (le_refl s) q v)))

    pub min_expand_total :
        (fuel s : ℕ) (m : Matcher)
        → s ≤ length src
        → length src < fuel + s
        → Valid s m
        → Returns (Post (length src) s m) (min_expand src pat k fuel s p ep m)
    unfolding min_expand
    min_expand_total zero s m low enough v = absurd (omega arith)
    min_expand_total (suc fuel) s m low enough v =
        retry (length src) s s m (k s (ep + 1) m) _ (le_refl s)
          (good s (ep + 1) m (omega (arith, item.start)) low v)
          (λ n q.
            Returns-bind _ (single_match src pat s p ep) _ (single_match-Item s p ep item) (elim [
              | true ↦ λ more. Returns-Restored_from (length src) s (s + 1) m n _ (omega arith) q (
                  min_expand_total fuel (s + 1) n (omega (arith, more refl)) (omega arith)
                    (Restored-Valid s (s + 1) (omega arith) q v))
              | false ↦ λ more. q
            ]))

    pub max_expand_total :
        (s : ℕ) (m : Matcher)
        → s ≤ length src
        → Valid s m
        → Returns (Post (length src) s m) (max_expand src pat k s p ep m)
    unfolding max_expand
    max_expand_total s m low v =
        Returns-bind _ (count_matches src pat (length src + 1) s 0 p ep) _
          (count_matches_total (length src + 1) s 0 p ep item (omega arith) (omega arith))
          (λ n h. back_off_total s n m h v)
