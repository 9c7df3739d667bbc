-- ===== src/Strings/Searches.antt =====
-- `find` and `match` end, without a panic, at a place in the subject.
use tcvm.Common.{ℕ, zero, suc, ◌+◌, ◌-◌, ◌≤◌, ◌<◌, ◌≡◌, refl, arith, Bool, true, false, ◌||◌}
use tcvm.Common.{Option, none, some, List, [], ◌∷◌, leb, if◌then◌else◌, length, drop}
use tcvm.Common.Int.{ℤ, negsuc}
use native.Mathlib.Nat.{le_refl}
use tcvm.Pattern.{Bytes, CapValue, str, Outcome, ok, ◌>>=◌, Returns}
use tcvm.Pattern.Matcher.{Matcher, new, match_at, get_onecapture, num_captures}
use tcvm.Pattern.Matcher.Invariant.{Valid, Returns-bind, Returns-if, Returns-mono}
use tcvm.Pattern.Matcher.Safety.{Matched, found, missed, match_at_total, capture_total, InSubject}
use tcvm.Pattern.Search.{plain_find, plain_find_lem, First, at, nospecials}
use tcvm.Strings.{Value, nil, integer, cap_to_value, init_pos, anchored, body, captures, search}
use tcvm.Strings.{find_values, match_values, plain_values, lua_find, lua_match}

pub new_size : length new.capture ≡ 32
unfolding new
new_size = refl

length-drop : {A : Type 0} (n : ℕ) (xs : List A) → length (drop n xs) ≡ length xs - n
length-drop zero xs = omega arith
length-drop (suc n) [] = omega arith
length-drop (suc n) (x ∷ xs) = omega (arith, length-drop n xs)

-- A match that starts at `low` or later, with the state that it leaves.
abbrev pub Hit : ℕ → ℕ → Option (ℕ × ℕ × Matcher) → Type 0
Hit top low none = Unit
Hit top low (some (s, e, m)) = (low ≤ s) × (s ≤ e) × (e ≤ top) × Valid e m

Hit-weaken : (top low : ℕ) (r : Option (ℕ × ℕ × Matcher)) → Hit top (low + 1) r → Hit top low r
Hit-weaken top low none h = tt
Hit-weaken top low (some (s, e, m)) (a, b, c, v) = (omega arith, b, c, v)

module _ (src pat : Bytes) where
  cap_to_value_total :
      (v : CapValue) → InSubject (length src) v → Returns (λ x. Unit) (cap_to_value src v)
  unfolding cap_to_value
  cap_to_value_total (str a b) h = let (le, within) = h in ground arith
  cap_to_value_total (CapValue.pos n) h = tt

  pub captures_total :
      (m : Matcher) (s e n i : ℕ)
      → s ≤ e
      → e ≤ length src
      → Valid e m
      → Returns (λ vs. length vs ≡ n) (captures src pat m s e n i)
  unfolding captures
  captures_total m s e zero i forwards within v = refl
  captures_total m s e (suc n) i forwards within v =
      Returns-bind _ (get_onecapture src pat m i s e) _
        (capture_total src pat s e i m forwards within v)
        (λ c inside. Returns-bind _ (cap_to_value src c) _ (cap_to_value_total c inside) (λ x _.
          Returns-bind _ (captures src pat m s e n (i + 1)) _
            (captures_total m s e n (i + 1) forwards within v) (λ vs count. omega (arith, count))))

  -- The rounds that `fuel` is enough for.
  abbrev Served : Bool → ℕ → Type 0
  Served anchor fuel =
      (s1 : ℕ) (m : Matcher)
      → length m.capture ≡ 32
      → s1 ≤ length src
      → length src < fuel + s1
      → Returns (Hit (length src) s1) (search src pat anchor fuel m s1)

  after_attempt :
      (anchor : Bool) (fuel s1 : ℕ) (r : Option ℕ × Matcher)
      → Served anchor fuel
      → length src < suc fuel + s1
      → Matched (length src) s1 r
      → Returns (Hit (length src) s1) (elim r.0 [
        | some e ↦ ok (some (s1, e, r.1))
        | none ↦
            if anchor || leb (length src) s1
            then ok none
            else search src pat anchor fuel r.1 (s1 + 1)
      ])
  after_attempt anchor fuel s1 (some e, n) served enough (found forwards within v) =
      (le_refl s1, forwards, within, v)
  after_attempt anchor fuel s1 (none, n) served enough (missed _ kept) =
      Returns-if _ (anchor || leb (length src) s1) _ _ (λ _. tt)
        (λ more.
          Returns-mono _ _ (search src pat anchor fuel n (s1 + 1))
            (served (s1 + 1) n kept (ground (arith, more)) (omega (arith, enough)))
            (λ r h. Hit-weaken (length src) s1 r h))

  search_total : (anchor : Bool) (fuel : ℕ) → Served anchor fuel
  unfolding search
  search_total anchor zero s1 m size low enough = absurd (omega arith)
  search_total anchor (suc fuel) s1 m size low enough =
      Returns-bind _ (match_at src pat m s1) _ (match_at_total src pat s1 m size low)
        (λ r h. after_attempt anchor fuel s1 r (search_total anchor fuel) enough h)

pub num_captures_pos : (src pat : Bytes) (m : Matcher) → 1 ≤ num_captures src pat m true
unfolding num_captures
num_captures_pos src pat m = ground arith

-- What `find` pushes: nil, or a start and an end in the subject, from `low` on, before the captures.
pub data Located (top low : ℕ) : List Value → Type 0 where
  nowhere_ : Located top low (nil ∷ [])
  located :
      {a b : ℕ} {vs : List Value}
      → low < a
      → a ≤ b + 1
      → b ≤ top
      → Located top low (integer a ∷ integer b ∷ vs)

abbrev pub start_of : Option ℕ → ℕ
start_of none = 0
start_of (some init) = init

init_pos_bound : (i : ℤ) (len init : ℕ) → init_pos i len ≡ some init → init ≤ len
unfolding init_pos
init_pos_bound (ℤ.pos zero) len init e = ground (arith, e)
init_pos_bound (ℤ.pos (suc n)) len init e = ground (arith, e)
init_pos_bound (negsuc n) len init e = ground (arith, e)

module _ (src pat : Bytes) (init : ℕ) (low : init ≤ length src) where
  values_total :
      (r : Option (ℕ × ℕ × Matcher))
      → Hit (length src) init r
      → Returns (Located (length src) init) (find_values src pat r)
  values_total none h = nowhere_
  values_total (some (s, e, m)) (a, b, c, v) =
      Returns-bind _ (captures src pat m s e (num_captures src pat m false) 0) _
        (captures_total src pat m s e (num_captures src pat m false) 0 b c v)
        (λ vs _. located (omega arith) (omega arith) c)

  plain_total :
      (o : Option ℕ)
      → First (drop init src) pat 0 o
      → Located (length src) init (plain_values pat init o)
  plain_total none h = nowhere_
  plain_total (some off) (at here before) =
      let w = here.within in
      let d = length-drop init src in located (omega arith) (omega arith) (omega (arith, w, d))

-- The two branches of `find` behind the start.
abbrev branches : Bytes → Bytes → Bool → ℕ → Outcome (List Value)
branches src pat plain init =
    if plain || nospecials pat
    then (plain_find (drop init src) pat >>= λ o. ok (plain_values pat init o))
    else (search src (body pat) (anchored pat) (length src + 1) new init
        >>= find_values src (body pat))

branches_total :
    (src pat : Bytes) (plain : Bool) (init : ℕ)
    → init ≤ length src
    → Returns (Located (length src) init) (branches src pat plain init)
branches_total src pat plain init low =
    Returns-if _ (plain || nospecials pat) _ _
      (λ _.
        let (o, run, first) = plain_find_lem (drop init src) pat in
        rw (run, Returns) (plain_total src pat init low o first))
      (λ _.
        Returns-bind _ (search src (body pat) (anchored pat) (length src + 1) new init) _
          (search_total src (body pat) (anchored pat) (length src + 1) init new new_size low
            (omega arith))
          (λ r h. values_total src (body pat) init low r h))

-- For every subject, pattern, start and flag, `find` raises a pattern error or pushes nil or a
-- start and an end, which lie in the subject, not before the start that was asked for, and in
-- order; it never panics and its search ends.
pub lua_find_total :
    (src pat : Bytes) (init_raw : ℤ) (plain : Bool)
    → Returns
        (Located (length src) (start_of (init_pos init_raw (length src))))
        (lua_find src pat init_raw plain)
unfolding lua_find
lua_find_total src pat init_raw plain =
    from (init_pos init_raw (length src)) (λ init e. init_pos_bound init_raw (length src) init e)
  where
    from :
        (o : Option ℕ)
        → ((init : ℕ) → o ≡ some init → init ≤ length src)
        → Returns
            (Located (length src) (start_of o))
            (elim o [ none ↦ ok (nil ∷ []) | some init ↦ branches src pat plain init ])
    from none bound = nowhere_
    from (some init) bound = branches_total src pat plain init (bound init refl)

-- For every subject, pattern and start, `match` raises a pattern error or pushes at least one
-- value; it never panics and its search ends.
pub lua_match_total :
    (src pat : Bytes) (init_raw : ℤ) → Returns (λ vs. 1 ≤ length vs) (lua_match src pat init_raw)
unfolding lua_match
lua_match_total src pat init_raw =
    from (init_pos init_raw (length src)) (λ init e. init_pos_bound init_raw (length src) init e)
  where
    pushes :
        (r : Option (ℕ × ℕ × Matcher)) (low : ℕ)
        → Hit (length src) low r
        → Returns (λ vs. 1 ≤ length vs) (match_values src (body pat) r)
    pushes none low h = omega arith
    pushes (some (s, e, m)) low (a, b, c, v) =
        Returns-mono _ _ (captures src (body pat) m s e (num_captures src (body pat) m true) 0)
          (captures_total src (body pat) m s e (num_captures src (body pat) m true) 0 b c v)
          (λ vs count. let n = num_captures_pos src (body pat) m in omega (arith, count, n))

    from :
        (o : Option ℕ)
        → ((init : ℕ) → o ≡ some init → init ≤ length src)
        → Returns
            (λ vs. 1 ≤ length vs)
            (elim o [
              | none ↦ ok (nil ∷ [])
              | some init ↦
                  search src (body pat) (anchored pat) (length src + 1) new init
                  >>= match_values src (body pat)
            ])
    from none bound = omega arith
    from (some init) bound =
        Returns-bind _ (search src (body pat) (anchored pat) (length src + 1) new init) _
          (search_total src (body pat) (anchored pat) (length src + 1) init new new_size
            (bound init refl) (omega arith))
          (λ r h. pushes r init h)
