-- ===== src/Pattern/Matcher/Invariant.antt =====
-- The invariant of the matcher, and what a match leaves behind.
use tcvm.Common.{ℕ, ◌≤◌, ◌<◌, ◌≡◌, refl, sym, ◌∙◌, subst, arith, Bool, true, false, if◌then◌else◌}
use tcvm.Common.{Option, none, some, length, take}
use tcvm.Pattern.{Outcome, ok, err, panic, stuck, Returns, ◌>>=◌}
use tcvm.Pattern.Matcher.{Matcher, Step, init, done, Continue}
use tcvm.Pattern.Matcher.Captures.{Below, Below-le, Below-same}

-- Every capture that counts was opened and closed at `s` or before.
pub record Valid (s : ℕ) (m : Matcher) : Type 0 where
  pub level_bound : m.level ≤ 32
  pub size : length m.capture ≡ 32
  pub captures : Below s m.level m.capture

-- What a failure restores: the level, the depth, and the captures that count.
pub record Restored (m m' : Matcher) : Type 0 where
  pub level : m'.level ≡ m.level
  pub depth : m'.matchdepth ≡ m.matchdepth
  pub size : length m'.capture ≡ length m.capture
  pub captures : take m.level m'.capture ≡ take m.level m.capture

-- A success ends at or behind its start, within the subject.
pub record Succeeded (top s e : ℕ) (m m' : Matcher) : Type 0 where
  pub forwards : s ≤ e
  pub within : e ≤ top
  pub depth : m'.matchdepth ≡ m.matchdepth
  pub valid : Valid e m'

-- `top` is the length of the subject.
abbrev pub Post : ℕ → ℕ → Matcher → Option ℕ × Matcher → Type 0
Post top s m (none, m') = Restored m m'
Post top s m (some e, m') = Succeeded top s e m m'

-- A continuation that serves pattern positions behind `p`.
abbrev pub Good : ℕ → ℕ → Continue → Type 0
Good top p k =
    (s p' : ℕ) (m : Matcher) → p < p' → s ≤ top → Valid s m → Returns (Post top s m) (k s p' m)

-- A round goes on behind `p`, or ends the match.
pub record Onwards (top p s p' s' : ℕ) (m m' : Matcher) : Type 0 where
  pub behind : p < p'
  pub forwards : s ≤ s'
  pub within : s' ≤ top
  pub restored : Restored m m'

abbrev pub StepPost : ℕ → ℕ → ℕ → Matcher → Step → Type 0
StepPost top p s m (init s' p' m') = Onwards top p s p' s' m m'
StepPost top p s m (done r m') = Post top s m (r, m')

pub Returns-bind :
    {A B : Type 0} {P : A → Type 0} (Q : B → Type 0) (r : Outcome A) (f : A → Outcome B)
    → Returns P r
    → ((a : A) → P a → Returns Q (f a))
    → Returns Q (r >>= f)
Returns-bind Q (ok a) f h k = k a h
Returns-bind Q (err e) f h k = tt
Returns-bind Q panic f h k = h
Returns-bind Q stuck f h k = h

pub Returns-mono :
    {A : Type 0} (P Q : A → Type 0) (r : Outcome A)
    → Returns P r
    → ((a : A) → P a → Q a)
    → Returns Q r
Returns-mono P Q (ok a) h k = k a h
Returns-mono P Q (err e) h k = tt
Returns-mono P Q panic h k = h
Returns-mono P Q stuck h k = h

pub Returns-if :
    {A : Type 0} (Q : A → Type 0) (b : Bool) (x y : Outcome A)
    → (b ≡ true → Returns Q x)
    → (b ≡ false → Returns Q y)
    → Returns Q (if b then x else y)
Returns-if Q true x y h k = h refl
Returns-if Q false x y h k = k refl

pub Restored-refl : (m : Matcher) → Restored m m
Restored-refl m = record { level = refl; depth = refl; size = refl; captures = refl }

pub Restored-trans : {a b c : Matcher} → Restored a b → Restored b c → Restored a c
Restored-trans {a} {b} {c} p q = record {
  level = q.level ∙ p.level;
  depth = q.depth ∙ p.depth;
  size = q.size ∙ p.size;
  captures = subst (λ (n : ℕ). take n c.capture ≡ take n b.capture) p.level q.captures ∙ p.captures;
}

-- What a failure leaves serves any later position.
pub Restored-Valid : {m m' : Matcher} (s s' : ℕ) → s ≤ s' → Restored m m' → Valid s m → Valid s' m'
Restored-Valid {m} {m'} s s' le r v = record {
  level_bound = omega (arith, r.level, v.level_bound);
  size = r.size ∙ v.size;
  captures =
      subst (λ (n : ℕ). Below s' n m'.capture) (sym r.level)
        (Below-same s' m.level m.capture m'.capture r.captures
          (Below-le s s' m.level m.capture le v.captures));
}

-- What is shown from a restored state and a later start holds from the first.
pub Post-Restored :
    {m m' : Matcher} (top s s' : ℕ) (r : Option ℕ) (n : Matcher)
    → s ≤ s'
    → Restored m m'
    → Post top s' m' (r, n)
    → Post top s m (r, n)
Post-Restored top s s' none n le q h = Restored-trans q h
Post-Restored top s s' (some e) n le q h = record {
  forwards = omega (arith, h.forwards);
  within = h.within;
  depth = h.depth ∙ q.depth;
  valid = h.valid;
}
