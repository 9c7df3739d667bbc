-- ===== src/Strings/Whole.antt =====
-- A whole call of `gsub` with a template.
use tcvm.Common.{ℕ, zero, suc, ◌+◌, ◌-◌, ◌*◌, ◌≤◌, ◌≡◌, ap, ◌∙◌, arith, none, some, List, [], ◌∷◌}
use tcvm.Common.{◌++◌, length, take, drop, get_elem?}
use native.Mathlib.Nat.{le_refl}
use tcvm.Common.Int.{ℤ, pos_part}
use tcvm.Pattern.{Bytes}
use tcvm.Pattern.Matcher.{Matcher, new}
use tcvm.Pattern.Matcher.Invariant.{Valid}
use tcvm.Strings.{range, body, anchored}
use tcvm.Strings.Basic.{take-length}
use tcvm.Strings.Searches.{new_size}
use tcvm.Strings.Gsub.{lift, escaped, add_s, gsub_loop, append_rest, gsub_string}
use tcvm.Strings.Replacements.{Holds, Holds-then, Holds-mono, add_s_total, gsub_loop_total}
use tcvm.Strings.Replacements.{append_total, range_total}

module _ {A : Type 0} where
  take-snoc :
      (xs : List A) (n : ℕ) (x : A)
      → get_elem? xs n ≡ some x
      → take n xs ++ (x ∷ []) ≡ take (n + 1) xs
  take-snoc [] n x e = absurd (ground (arith, e))
  take-snoc (y ∷ ys) zero x e = grind (arith, e)
  take-snoc (y ∷ ys) (suc n) x e = let h = take-snoc ys n x e in grind (arith, h)

  take-range : (xs : List A) (m n : ℕ) → m ≤ n → take m xs ++ take (n - m) (drop m xs) ≡ take n xs
  take-range [] m n h = grind (arith, h)
  take-range (x ∷ xs) zero n h = grind (arith, h)
  take-range (x ∷ xs) (suc m) zero h = absurd (omega arith)
  take-range (x ∷ xs) (suc m) (suc n) h =
      let r = take-range xs m n (omega arith) in grind (arith, r)

-- "%0"
abbrev pub whole_match : Bytes
whole_match = b'%' ∷ b'0' ∷ []

module _ (to_string : ℕ → Bytes) (src pat : Bytes) (max_n : ℤ) where
  -- For every subject, pattern, template and limit, `gsub` is refused by an error of the pattern
  -- or the template, or it is done, with a count that the limit bounds; it never panics and it
  -- ends, whatever the decimal text of a position is.
  pub gsub_string_total :
      (template : Bytes)
      → Holds
          (λ (text, count). count ≤ pos_part max_n)
          (gsub_string to_string src pat template max_n)
  unfolding gsub_string
  gsub_string_total template =
      Holds-then _
        (gsub_loop to_string src (body pat) template (anchored pat) max_n (2 * length src + 3) new
          [] 0 none 0)
        _
        (gsub_loop_total to_string src (body pat) template (anchored pat) max_n (λ out at. Unit {0})
          (λ out at b here p. tt)
          (λ m out s e forwards within v p.
            add_s_total to_string src (body pat) m s e forwards within v out template)
          (2 * length src + 3) new [] 0 none 0 new_size (omega arith) (omega arith) (omega arith)
          tt)
        (λ r h.
          Holds-mono _ _ (append_rest to_string src r)
            (append_total to_string src (λ out at. Unit {0}) (pos_part max_n) r h) (λ t (a, b). b))

  whole_replaces :
      (m : Matcher) (out : Bytes) (s e : ℕ)
      → s ≤ e
      → e ≤ length src
      → Valid e m
      → out ≡ take s src
      → Holds (λ out'. out' ≡ take e src) (add_s to_string src (body pat) m s e out whole_match)
  unfolding add_s escaped
  whole_replaces m out s e forwards within v p =
      Holds-then _ (lift (range src s e)) _ (range_total to_string src s e forwards within)
        (λ text t.
          ap (λ (l : Bytes). out ++ l) t
          ∙ ap (λ (l : Bytes). l ++ take (e - s) (drop s src)) p
          ∙ take-range src s e forwards)

  -- For every subject, pattern and limit, `gsub` with the template "%0", which puts each match in
  -- its own place, is refused by an error of the pattern or gives back the subject, with a count
  -- that the limit bounds; it never panics and it ends.
  pub gsub_string-whole_match :
      Holds
        (λ (text, count). (text ≡ src) × (count ≤ pos_part max_n))
        (gsub_string to_string src pat whole_match max_n)
  unfolding gsub_string
  gsub_string-whole_match =
      Holds-then _
        (gsub_loop to_string src (body pat) whole_match (anchored pat) max_n (2 * length src + 3)
          new [] 0 none 0)
        _
        (gsub_loop_total to_string src (body pat) whole_match (anchored pat) max_n
          (λ out at. out ≡ take at src)
          (λ out at b here p. ap (λ (l : Bytes). l ++ (b ∷ [])) p ∙ take-snoc src at b here)
          whole_replaces (2 * length src + 3) new [] 0 none 0 new_size (omega arith) (omega arith)
          (omega arith) (grind arith))
        (λ r h.
          Holds-then _ (lift (range src r.1 (length src))) _
            (range_total to_string src r.1 (length src) h.1 (le_refl (length src)))
            (λ rest e. (
              ap (λ (l : Bytes). r.0 ++ l) e
                  ∙ ap (λ (l : Bytes). l ++ take (length src - r.1) (drop r.1 src)) h.0
                  ∙ take-range src r.1 (length src) h.1
                  ∙ take-length src,
              h.2,
            )))
