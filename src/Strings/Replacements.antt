-- ===== src/Strings/Replacements.antt =====
-- `gsub` with a template ends, without a panic, and what it makes of the template "%0".
use tcvm.Common.{ℕ, zero, suc, ◌+◌, ◌-◌, ◌*◌, ◌≤◌, ◌<◌, ◌≡◌, refl, ap, arith, Bool, true, false}
use tcvm.Common.{◌&&◌, Option, none, some, [], ◌∷◌, ◌++◌, inl, inr, ◌==◌, if◌then◌else◌, length}
use tcvm.Common.{take, drop, get_elem?, get_elem?_bound, Bool-cases}
use tcvm.Common.Int.{ℤ, negsuc, ltb_ℤ, pos_part}
use native.Mathlib.Nat.{le_refl}
use tcvm.Pattern.{Bytes, CapValue, str, Outcome, ok, err, panic, stuck, Returns}
use tcvm.Pattern.Class.{between}
use tcvm.Pattern.Matcher.{Matcher, match_at, get_onecapture}
use tcvm.Pattern.Matcher.Invariant.{Valid}
use tcvm.Pattern.Matcher.Safety.{Matched, found, missed, match_at_total, capture_total, InSubject}
use tcvm.Strings.{range, differs}
use tcvm.Strings.Gsub.{Result, done, failed, crashed, hung, ◌then◌, lift, capture_text, escaped}
use tcvm.Strings.Gsub.{add_s, skip_char, gsub_loop, append_rest}

-- What a substitution that is done satisfies; no other one crashes or hangs.
abbrev pub Holds : {A : Type 0} → (A → Type 0) → Result A → Type 0
Holds P (done a) = P a
Holds P (failed e) = Unit
Holds P crashed = ⊥
Holds P hung = ⊥

pub Holds-then :
    {A B : Type 0} {P : A → Type 0} (Q : B → Type 0) (r : Result A) (f : A → Result B)
    → Holds P r
    → ((a : A) → P a → Holds Q (f a))
    → Holds Q (r then f)
Holds-then Q (done a) f h k = k a h
Holds-then Q (failed e) f h k = tt
Holds-then Q crashed f h k = h
Holds-then Q hung f h k = h

pub Holds-mono :
    {A : Type 0} (P Q : A → Type 0) (r : Result A) → Holds P r → ((a : A) → P a → Q a) → Holds Q r
Holds-mono P Q (done a) h k = k a h
Holds-mono P Q (failed e) h k = tt
Holds-mono P Q crashed h k = h
Holds-mono P Q hung h k = h

Holds-if :
    {A : Type 0} (Q : A → Type 0) (b : Bool) (x y : Result A)
    → (b ≡ true → Holds Q x)
    → (b ≡ false → Holds Q y)
    → Holds Q (if b then x else y)
Holds-if Q true x y h k = h refl
Holds-if Q false x y h k = k refl

Holds-lift : {A : Type 0} (P : A → Type 0) (r : Outcome A) → Returns P r → Holds P (lift r)
Holds-lift P (ok a) h = h
Holds-lift P (err e) h = tt
Holds-lift P panic h = h
Holds-lift P stuck h = h

module _ (to_string : ℕ → Bytes) (src : Bytes) where
  pub range_total :
      (s e : ℕ)
      → s ≤ e
      → e ≤ length src
      → Holds (λ t. t ≡ take (e - s) (drop s src)) (lift (range src s e))
  range_total s e forwards within = ground arith

  text_total :
      (c : CapValue) → InSubject (length src) c → Holds (λ t. Unit) (capture_text to_string src c)
  text_total (str a b) h =
      let (le, within) = h in
      Holds-mono _ _ (lift (range src a b)) (range_total a b le within) (λ t _. tt)
  text_total (CapValue.pos n) h = tt

  module _ (pat : Bytes) (m : Matcher) (s e : ℕ) (forwards : s ≤ e) (within : e ≤ length src)
      (v : Valid e m) where
    escaped_total : (c : ℕ) → Holds (λ t. Unit) (escaped to_string src pat m s e c)
    unfolding escaped
    escaped_total c =
        Holds-if _ (c == b'%') _ _ (λ _. tt)
          (λ _.
            Holds-if _ (c == b'0') _ _
              (λ _.
                Holds-mono _ _ (lift (range src s e)) (range_total s e forwards within) (λ t _. tt))
              (λ _.
                Holds-if _ (between b'0' b'9' c) _ _
                  (λ _.
                    Holds-then _ (lift (get_onecapture src pat m (c - b'1') s e))
                      (capture_text to_string src)
                      (Holds-lift _ (get_onecapture src pat m (c - b'1') s e)
                        (capture_total src pat s e (c - b'1') m forwards within v))
                      text_total)
                  (λ _. tt)))

    pub add_s_total :
        (out template : Bytes) → Holds (λ t. Unit) (add_s to_string src pat m s e out template)
    unfolding add_s
    add_s_total out [] = tt
    add_s_total out (b ∷ []) = Holds-if _ (b == b'%') _ _ (λ _. tt) (λ _. tt)
    add_s_total out (b ∷ c ∷ template) =
        Holds-if _ (b == b'%') _ _
          (λ _.
            Holds-then _ (escaped to_string src pat m s e c) _ (escaped_total c)
              (λ text _. add_s_total (out ++ text) template))
          (λ _. add_s_total (out ++ (b ∷ [])) (c ∷ template))

  below_limit : (count : ℕ) (n : ℤ) → ltb_ℤ (ℤ.pos count) n ≡ true → count + 1 ≤ pos_part n
  below_limit count (ℤ.pos n) h = ground (arith, h)
  below_limit count (negsuc n) h = ground (arith, h)

  -- The rounds that are left, two at a position at most.
  abbrev rounds : ℕ → Option ℕ → ℕ
  rounds at lastmatch = 2 * (length src - at) + (if differs at lastmatch then 1 else 0)

  -- A property of the bytes so far and the position, kept by a copied byte and by a replacement.
  module _ (pat template : Bytes) (anchor : Bool) (max_n : ℤ) (P : Bytes → ℕ → Type 0)
      (copies : (out : Bytes) (at b : ℕ)
        → get_elem? src at ≡ some b
        → P out at
        → P (out ++ (b ∷ [])) (at + 1))
      (replaces : (m : Matcher) (out : Bytes) (s e : ℕ)
        → s ≤ e
        → e ≤ length src
        → Valid e m
        → P out s
        → Holds (λ out'. P out' e) (add_s to_string src pat m s e out template)) where
    abbrev Ends : Bytes × ℕ × ℕ → Type 0
    Ends (out, at, count) = P out at × (at ≤ length src) × (count ≤ pos_part max_n)

    abbrev Served : ℕ → Type 0
    Served fuel =
        (m : Matcher) (out : Bytes) (at : ℕ) (lastmatch : Option ℕ) (count : ℕ)
        → length m.capture ≡ 32
        → rounds at lastmatch < fuel
        → at ≤ length src
        → count ≤ pos_part max_n
        → P out at
        → Holds Ends
            (gsub_loop to_string src pat template anchor max_n fuel m out at lastmatch count)

    -- A round without a new match.
    abbrev skipped : ℕ → Matcher → Bytes × ℕ × Bool → Option ℕ → ℕ → Result (Bytes × ℕ × ℕ)
    skipped fuel m copied lastmatch count = elim (copied.2 && (if anchor then false else true)) [
      | true ↦
          gsub_loop to_string src pat template anchor max_n fuel m copied.0 copied.1 lastmatch count
      | false ↦ done (copied.0, copied.1, count)
    ]

    skipped_total :
        (fuel : ℕ) (m : Matcher) (out : Bytes) (at : ℕ) (lastmatch : Option ℕ) (count : ℕ)
        → Served fuel
        → length m.capture ≡ 32
        → rounds at lastmatch < suc fuel
        → at ≤ length src
        → count ≤ pos_part max_n
        → P out at
        → Holds Ends (
            skipped fuel m
              (skip_char to_string src pat template anchor max_n out at)
              lastmatch
              count)
    skipped_total fuel m out at lastmatch count served size enough low limit p =
        by_byte (get_elem? src at) refl
      where
        by_byte :
            (o : Option ℕ)
            → get_elem? src at ≡ o
            → Holds Ends (
                skipped fuel m
                  (elim o [ some b ↦ (out ++ (b ∷ []), at + 1, true) | none ↦ (out, at, false) ])
                  lastmatch
                  count)
        by_byte none end = (p, low, limit)
        by_byte (some b) here =
            let inside = get_elem?_bound src at b here in
            let q = copies out at b here p in
            elim (Bool-cases anchor) [
              | inl yes_ ↦ rw (yes_, Holds) (q, omega (arith, inside), limit)
              | inr no_ ↦
                  rw (no_, Holds)
                    (served m (out ++ (b ∷ [])) (at + 1) lastmatch count size
                      (ground (arith, enough, inside)) (omega (arith, inside)) limit q)
            ]

    -- What follows an attempt at `at`.
    attempted :
        (fuel : ℕ) (out : Bytes) (at : ℕ) (lastmatch : Option ℕ) (count : ℕ)
        (r : Option ℕ × Matcher)
        → Served fuel
        → rounds at lastmatch < suc fuel
        → at ≤ length src
        → count + 1 ≤ pos_part max_n
        → P out at
        → Matched (length src) at r
        → Holds Ends (elim r.0 [
          | none ↦
              skipped fuel r.1
                (skip_char to_string src pat template anchor max_n out at)
                lastmatch
                count
          | some e ↦
              if differs e lastmatch
              then (add_s to_string src pat r.1 at e out template then λ out'.
                  if anchor
                  then done (out', e, count + 1)
                  else gsub_loop to_string src pat template anchor max_n fuel r.1 out' e
                      (some e)
                      (count + 1))
              else skipped fuel r.1
                  (skip_char to_string src pat template anchor max_n out at)
                  lastmatch
                  count
        ])
    attempted fuel out at lastmatch count (none, n) served enough low limit p (missed _ kept) =
        skipped_total fuel n out at lastmatch count served kept enough low (omega arith) p
    attempted fuel out at lastmatch count (some e, n) served enough low limit p
          (found forwards within v) =
        Holds-if _ (differs e lastmatch) _ _
          (λ new_.
            Holds-then _ (add_s to_string src pat n at e out template) _
              (replaces n out at e forwards within v p) (λ out' q. go_on out' q (fewer new_)))
          (λ _.
            skipped_total fuel n out at lastmatch count served v.size enough low (omega arith) p)
      where
        fewer : differs e lastmatch ≡ true → rounds e (some e) < fuel
        fewer new_ = elim (Bool-cases (e == at)) [
          | inl same ↦ let eq : e ≡ at = ground (arith, same) in ground (arith, enough, new_, eq)
          | inr other ↦
              let lt : at < e = ground (arith, other, forwards) in ground (arith, enough, lt)
        ]

        go_on :
            (out' : Bytes)
            → P out' e
            → rounds e (some e) < fuel
            → Holds Ends (
                if anchor
                then done (out', e, count + 1)
                else gsub_loop to_string src pat template anchor max_n fuel n out' e
                    (some e)
                    (count + 1))
        go_on out' q few =
            Holds-if _ anchor _ _ (λ _. (q, within, limit))
              (λ _. served n out' e (some e) (count + 1) v.size few within limit q)

    pub gsub_loop_total : (fuel : ℕ) → Served fuel
    unfolding gsub_loop
    gsub_loop_total zero m out at lastmatch count size enough low limit p = absurd (omega arith)
    gsub_loop_total (suc fuel) m out at lastmatch count size enough low limit p =
        elim (Bool-cases (ltb_ℤ (ℤ.pos count) max_n)) [
          | inr stop ↦ rw (stop, Holds) (p, low, limit)
          | inl more ↦
              rw (more, Holds)
                (Holds-then _ (lift (match_at src pat m at)) _
                  (Holds-lift _ (match_at src pat m at) (match_at_total src pat at m size low))
                  (λ r h.
                    attempted fuel out at lastmatch count r (gsub_loop_total fuel) enough low
                      (below_limit count max_n more) p h))
        ]

  -- The rest of the subject.
  pub append_total :
      (P : Bytes → ℕ → Type 0) (limit : ℕ) (r : Bytes × ℕ × ℕ)
      → P r.0 r.1 × (r.1 ≤ length src) × (r.2 ≤ limit)
      → Holds
          (λ (text, count).
            ((out : Bytes) × (at : ℕ) × P out at
              × (text ≡ out ++ take (length src - at) (drop at src)))
            × (count ≤ limit))
          (append_rest to_string src r)
  append_total P limit (out, at, count) (p, low, bound) =
      Holds-then _ (lift (range src at (length src))) _
        (range_total at (length src) low (le_refl (length src)))
        (λ rest e. ((out, at, p, ap (λ (l : Bytes). out ++ l) e), bound))
