-- ===== src/Strings/Gsub.antt =====
-- `gsub` with a template: `gsub_string` and `add_s`. The decimal text of a position is the work of
-- the standard library, the parameter `to_string`.
use tcvm.Common.{ℕ, zero, suc, ◌+◌, ◌-◌, ◌*◌, Bool, true, false, ◌&&◌, Option, none, some, []}
use tcvm.Common.{◌∷◌, ◌++◌, ◌==◌, if◌then◌else◌, get_elem?, length}
use tcvm.Common.Int.{ℤ, ltb_ℤ}
use tcvm.Pattern.{Bytes, PatError, CapValue, str, Outcome, ok, err, panic, stuck}
use tcvm.Pattern.Class.{between}
use tcvm.Pattern.Matcher.{Matcher, new, match_at, get_onecapture}
use tcvm.Strings.{range, body, anchored, differs}

-- What ends a substitution early: an error of the matcher, or of the template.
pub data Failure : Type 0 where
  pattern_error : PatError → Failure
  invalid_use : Failure

pub data Result (A : Type 0) : Type 0 where
  done : A → Result A
  failed : Failure → Result A
  crashed hung : Result A

infixl 5 ◌then◌
abbrev pub ◌then◌ : {A B : Type 0} → Result A → (A → Result B) → Result B
done a then f = f a
failed e then f = failed e
crashed then f = crashed
hung then f = hung

-- `map_err(|e| pat_err(ctx, e))`
abbrev pub lift : {A : Type 0} → Outcome A → Result A
lift (ok a) = done a
lift (err e) = failed (pattern_error e)
lift panic = crashed
lift stuck = hung

module _ (to_string : ℕ → Bytes) (src : Bytes) where
  abbrev pub capture_text : CapValue → Result Bytes
  capture_text (str start end) = lift (range src start end)
  capture_text (CapValue.pos n) = done (to_string n)

  module _ (pat : Bytes) (m : Matcher) (s e : ℕ) where
    -- The text that `%c` stands for.
    unfoldable pub escaped : ℕ → Result Bytes
    escaped c =
        if c == b'%'
        then done (c ∷ [])
        else if c == b'0'
        then lift (range src s e)
        else if between b'0' b'9' c
        then (lift (get_onecapture src pat m (c - b'1') s e) then capture_text)
        else failed invalid_use

    -- `add_s` on the template from some byte on.
    unfoldable pub add_s : Bytes → Bytes → Result Bytes
    unfolding escaped
    add_s out [] = done out
    add_s out (b ∷ []) = if b == b'%' then failed invalid_use else done (out ++ (b ∷ []))
    add_s out (b ∷ c ∷ template) =
        let literal = add_s (out ++ (b ∷ [])) (c ∷ template) in
        if b == b'%' then (escaped c then λ text. add_s (out ++ text) template) else literal

  -- The loop of `gsub_string`; what follows it appends the rest of the subject.
  module _ (pat template : Bytes) (anchor : Bool) (max_n : ℤ) where
    -- A round without a new match: the bytes so far, the position, and whether to go on.
    abbrev pub skip_char : Bytes → ℕ → Bytes × ℕ × Bool
    skip_char out at = elim (get_elem? src at) [
      | some b ↦ (out ++ (b ∷ []), at + 1, true)
      | none ↦ (out, at, false)
    ]

    unfoldable pub gsub_loop : ℕ → Matcher → Bytes → ℕ → Option ℕ → ℕ → Result (Bytes × ℕ × ℕ)
    unfolding add_s
    gsub_loop zero m out at lastmatch count = hung
    gsub_loop (suc fuel) m out at lastmatch count = elim (ltb_ℤ (ℤ.pos count) max_n) [
      | false ↦ done (out, at, count)
      | true ↦ lift (match_at src pat m at) then λ (r, m').
          let copied = skip_char out at in
          let skipped : Result (Bytes × ℕ × ℕ) =
            elim (copied.2 && (if anchor then false else true)) [
              | true ↦ gsub_loop fuel m' copied.0 copied.1 lastmatch count
              | false ↦ done (copied.0, copied.1, count)
            ] in
          elim r [
            | none ↦ skipped
            | some e ↦
                if differs e lastmatch
                then (add_s pat m' at e out template then λ out'.
                    if anchor
                    then done (out', e, count + 1)
                    else gsub_loop fuel m' out' e (some e) (count + 1))
                else skipped
          ]
    ]

  abbrev pub append_rest : Bytes × ℕ × ℕ → Result (Bytes × ℕ)
  append_rest (out, at, count) =
      lift (range src at (length src)) then λ rest. done (out ++ rest, count)

  -- Two rounds at most stay at one position.
  unfoldable pub gsub_string : Bytes → Bytes → ℤ → Result (Bytes × ℕ)
  unfolding gsub_loop
  gsub_string pat template max_n =
      gsub_loop (body pat) template (anchored pat) max_n (2 * length src + 3) new [] 0 none 0
      then append_rest
