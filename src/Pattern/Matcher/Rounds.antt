-- ===== src/Pattern/Matcher/Rounds.antt =====
-- Captures, balanced runs and back-references keep the invariant.
use tcvm.Common.{◌^◌, ◌%◌, ℕ, zero, suc, ◌+◌, ◌-◌, ◌≤◌, ◌<◌, ◌≡◌, refl, ap, sym, ◌∙◌, subst}
use tcvm.Common.{arith, inl, inr, false, Option, none, some, length, length-set, take, set, ltb}
use tcvm.Common.{leb, if◌then◌else◌, Bool-cases, Option-cases, get_elem?, get_elem?_bound}
use native.Mathlib.Nat.{le_refl}
use tcvm.Pattern.{Bytes, Capture, CapLen, unfinished, position, len, Outcome, ok, err, panic}
use tcvm.Pattern.{stuck, Returns, ◌>>=◌}
use tcvm.Pattern.Matcher.{Matcher, Continue, set_capture, undo_start, undo_end, start_capture}
use tcvm.Pattern.Matcher.{end_capture, open_below, capture_at, balance_loop}
use tcvm.Pattern.Matcher.Captures.{Fits, Fits-init, Below, Below-get, Below-some, Below-set}
use tcvm.Pattern.Matcher.Captures.{Below-set_kind, length-set_kind, take-set, take-suc}
use tcvm.Pattern.Matcher.Captures.{take-set_kind_back}
use tcvm.Pattern.Matcher.Invariant.{Valid, Post, Good, Returns-bind}

abbrev opened : Matcher → ℕ → CapLen → Matcher
opened m s what = record m {
  level = m.level + 1;
  capture = set m.capture m.level (record { init = s; kind = what });
}

add-one_suc : (n : ℕ) → suc n ≡ n + 1
add-one_suc n = omega arith

opened-Valid :
    (m : Matcher) (s : ℕ) (what : CapLen)
    → m.level < 32
    → Fits s s what
    → Valid s m
    → Valid s (opened m s what)
opened-Valid m s what free fits v = record {
  level_bound = omega (arith, free);
  size = length-set m.capture m.level _ ∙ v.size;
  captures =
      subst (λ (n : ℕ). Below s n (opened m s what).capture) (add-one_suc m.level)
        (Below-set s m.level m.capture _ (omega (arith, free, v.size)) v.captures fits);
}

undo_start-Post :
    (top s : ℕ) (what : CapLen) (m : Matcher) (r : Option ℕ × Matcher)
    → Post top s (opened m s what) r
    → Post top s m (undo_start r)
undo_start-Post top s what m (none, m') h = record {
  level = omega (arith, h.level);
  depth = h.depth;
  size = h.size ∙ length-set m.capture m.level _;
  captures =
      take-suc m.level m'.capture (opened m s what).capture (
        subst (λ (n : ℕ). take n m'.capture ≡ take n (opened m s what).capture)
          (sym (add-one_suc m.level)) h.captures)
      ∙ take-set m.level m.capture _;
}
undo_start-Post top s what m (some e, m') h = record {
  forwards = h.forwards;
  within = h.within;
  depth = h.depth;
  valid = h.valid;
}

closed-Valid :
    (m : Matcher) (s l : ℕ) (c : Capture)
    → get_elem? m.capture l ≡ some c
    → c.init ≤ s
    → Valid s m
    → Valid s (set_capture m l (len (s - c.init)))
closed-Valid m s l c here order v = record {
  level_bound = v.level_bound;
  size = length-set_kind m.capture l _ ∙ v.size;
  captures =
      Below-set_kind s m.level l m.capture c (len (s - c.init)) v.captures here
        (omega (arith, order));
}

undo_end-Post :
    (top s l : ℕ) (c : Capture) (k : CapLen) (m : Matcher) (r : Option ℕ × Matcher)
    → get_elem? m.capture l ≡ some c
    → c.kind ≡ unfinished
    → Post top s (set_capture m l k) r
    → Post top s m (undo_end l r)
undo_end-Post top s l c k m (none, m') here was h = record {
  level = h.level;
  depth = h.depth;
  size = length-set_kind m'.capture l unfinished ∙ h.size ∙ length-set_kind m.capture l k;
  captures = take-set_kind_back m.level l m.capture m'.capture c k here was h.captures;
}
undo_end-Post top s l c k m (some e, m') here was h = record {
  forwards = h.forwards;
  within = h.within;
  depth = h.depth;
  valid = h.valid;
}

-- A capture that `capture_to_close` names is open, and counts.
abbrev IsOpen : Matcher → ℕ → Type 0
IsOpen m l =
    (c : Capture) × (l < m.level) × (get_elem? m.capture l ≡ some c) × (c.kind ≡ unfinished)

pub got_same :
    (o : Option Capture) (c : Capture)
    → o ≡ some c
    → Returns (λ d. c ≡ d) (elim o [ none ↦ panic | some d ↦ ok d ])
got_same none c e = cc
got_same (some d) c e = cc

got :
    (o : Option Capture) (c : Capture)
    → o ≡ some c
    → Returns (λ d. o ≡ some d) (elim o [ none ↦ panic | some d ↦ ok d ])
got none c e = cc
got (some d) c e = refl

pub capture_at_total :
    (s i : ℕ) (m : Matcher)
    → i < m.level
    → Valid s m
    → Returns (λ c. get_elem? m.capture i ≡ some c) (capture_at m i)
capture_at_total s i m lt v =
    let (c, here) = Below-some s m.level i m.capture v.captures lt in
    got (get_elem? m.capture i) c here

IsOpen-kind :
    (m : Matcher) (n : ℕ) (c : Capture) (kind : CapLen)
    → n < m.level
    → get_elem? m.capture n ≡ some c
    → c.kind ≡ kind
    → Returns (IsOpen m) (open_below m n)
    → Returns
        (IsOpen m)
        (elim kind [ unfinished ↦ ok n | position ↦ open_below m n | len k ↦ open_below m n ])
IsOpen-kind m n c unfinished lt here e below = (c, lt, here, e)
IsOpen-kind m n c position lt here e below = below
IsOpen-kind m n c (len k) lt here e below = below

open_below_total :
    (s n : ℕ) (m : Matcher) → n ≤ m.level → Valid s m → Returns (IsOpen m) (open_below m n)
unfolding open_below
open_below_total s zero m le v = tt
open_below_total s (suc n) m le v =
    Returns-bind _ (capture_at m n) _ (capture_at_total s n m le v)
      (λ c here. IsOpen-kind m n c c.kind le here refl (open_below_total s n m (omega arith) v))

module _ (k : Continue) (top p s p' : ℕ) (m : Matcher) (good : Good top p k) (behind : p < p')
    (low : s ≤ top) (v : Valid s m) where
  pub start_capture_total :
      (what : CapLen) → Fits s s what → Returns (Post top s m) (start_capture k s p' what m)
  unfolding start_capture
  start_capture_total what fits = elim (Bool-cases (leb 32 m.level)) [
    | inl full ↦ ground (arith, full)
    | inr free ↦
        rw (free, Returns)
          (Returns-bind _ (k s p' (opened m s what)) _
            (good s p' (opened m s what) behind low
              (opened-Valid m s what (ground (arith, free)) fits v))
            (undo_start-Post top s what m))
  ]

  close_total :
      (l : ℕ) (c : Capture)
      → l < m.level
      → get_elem? m.capture l ≡ some c
      → c.kind ≡ unfinished
      → Returns (Post top s m) (
          if ltb s c.init
          then panic
          else (k s p' (set_capture m l (len (s - c.init))) >>= λ r. ok (undo_end l r)))
  close_total l c lt here was =
      let order : c.init ≤ s =
        Fits-init s c.init c.kind (Below-get s m.level l m.capture c v.captures lt here) in
      let in_order : ltb s c.init ≡ false = ground (arith, order) in
      rw (in_order, Returns)
        (Returns-bind _ (k s p' (set_capture m l (len (s - c.init)))) _
          (good s p' (set_capture m l (len (s - c.init))) behind low
            (closed-Valid m s l c here order v))
          (λ r h. undo_end-Post top s l c (len (s - c.init)) m r here was h))

  pub end_capture_total : Returns (Post top s m) (end_capture k s p' m)
  unfolding end_capture
  end_capture_total =
      Returns-bind _ (open_below m m.level) _ (open_below_total s m.level m (le_refl _) v)
        (λ l (c, lt, here, was).
          Returns-bind _ (capture_at m l) _ (got_same (get_elem? m.capture l) c here) (λ d same.
            close_total l d lt (here ∙ ap some same)
              (subst (λ (x : Capture). x.kind ≡ unfinished) same was)))

-- Where a run of the subject ends.
abbrev pub Ahead : ℕ → ℕ → Option ℕ → Type 0
Ahead top s none = Unit
Ahead top s (some e) = (s ≤ e) × (e ≤ top)

module _ (src pat : Bytes) where
  pub Ahead-suc :
      (s : ℕ) (x : Outcome (Option ℕ))
      → Returns (Ahead (length src) (s + 1)) x
      → Returns (Ahead (length src) s) x
  Ahead-suc s (ok none) h = tt
  Ahead-suc s (ok (some e)) h = (omega arith, h.1)
  Ahead-suc s (err x) h = tt
  Ahead-suc s panic h = h
  Ahead-suc s stuck h = h

  pub balance_loop_total :
      (fuel b e s cont : ℕ)
      → 1 ≤ fuel
      → length src < fuel + s
      → Returns (Ahead (length src) s) (balance_loop src pat fuel b e s cont)
  unfolding balance_loop
  balance_loop_total zero b e s cont some_fuel enough = absurd (omega arith)
  balance_loop_total (suc fuel) b e s cont some_fuel enough =
      elim (Option-cases (get_elem? src s)) [
        | inl out ↦ ground (arith, out)
        | inr (c, here) ↦
            let inside = get_elem?_bound src s c here in
            ground (
              arith,
              here,
              inside,
              Ahead-suc s _ (
                  balance_loop_total fuel b e (s + 1) ((cont + (2 ^ 32 - 1)) % 2 ^ 32)
                    (omega (arith, inside)) (omega arith)),
              Ahead-suc s _ (
                  balance_loop_total fuel b e (s + 1) ((cont + 1) % 2 ^ 32) (omega (arith, inside))
                    (omega arith)),
              Ahead-suc s _
                  (balance_loop_total fuel b e (s + 1) cont (omega (arith, inside)) (omega arith)),
            )
      ]
