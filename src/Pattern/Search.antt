-- ===== src/Pattern/Search.antt =====
-- Patterns without magic characters: `nospecials` and `plain_find`.
use tcvm.Common.{leb, get_elem?-some, ltb, Bool-cases, get_elem?, if◌then◌else◌, length, take}
use tcvm.Common.{◌==◌, ℕ, zero, suc, ◌+◌, ◌-◌, ◌≤◌, ◌<◌, ◌≡◌, refl, sym, subst, arith, inl, inr}
use tcvm.Common.{Bool, true, false, not, ◌||◌, Option, none, some, [], ◌∷◌, drop}
use tcvm.Pattern.{Bytes, Outcome, ok, ◌>>=◌}
use tcvm.Pattern.Class.{index}
use tcvm.Pattern.Matcher.{bytes_eq, slice}

-- `SPECIALS`
abbrev pub specials : Bytes
specials = b'^' ∷ b'$' ∷ b'*' ∷ b'+' ∷ b'?' ∷ b'.' ∷ b'(' ∷ b'[' ∷ b'%' ∷ b'-' ∷ []

-- `SPECIALS.contains(b)`
unfoldable pub contains : Bytes → ℕ → Bool
contains [] b = false
contains (c ∷ cs) b = c == b || contains cs b

unfoldable pub any_special : Bytes → Bool
unfolding contains
any_special [] = false
any_special (b ∷ bs) = contains specials b || any_special bs

unfoldable pub nospecials : Bytes → Bool
unfolding any_special
nospecials pat = not (any_special pat)

module _ (hay needle : Bytes) where
  -- One round at `i`, before the rounds that follow.
  abbrev pub find_round : ℕ → ℕ → Outcome (Option ℕ) → Outcome (Option ℕ)
  find_round first i rest = index hay i >>= λ b.
      if b == first
      then (slice hay needle i (length needle) >>= λ text.
          if bytes_eq text needle then ok (some i) else rest)
      else rest

  -- The loop of `plain_find` at `i`, with `left` rounds up to `last_start`.
  unfoldable pub find_loop : ℕ → ℕ → ℕ → Outcome (Option ℕ)
  unfolding slice
  find_loop first zero i = ok none
  find_loop first (suc left) i = let rest = find_loop first left (i + 1) in find_round first i rest

  unfoldable pub plain_find : Outcome (Option ℕ)
  unfolding find_loop
  plain_find = elim (get_elem? needle 0) [
    | none ↦ ok (some 0)
    | some first ↦
        if ltb (length hay) (length needle)
        then ok none
        else find_loop first (length hay - length needle + 1) 0
  ]

  pub record Occurs (i : ℕ) : Type 0 where
    pub within : i + length needle ≤ length hay
    pub text : take (length needle) (drop i hay) ≡ needle

  -- The first occurrence from `low` on, or that there is none.
  pub data First (low : ℕ) : Option ℕ → Type 0 where
    at : {i : ℕ} → Occurs i → ((j : ℕ) → low ≤ j → j < i → ¬ Occurs j) → First low (some i)
    nowhere : ((j : ℕ) → low ≤ j → ¬ Occurs j) → First low none

pub bytes_eq_sound : (a b : Bytes) → bytes_eq a b ≡ true → a ≡ b
unfolding bytes_eq
bytes_eq_sound [] [] e = refl
bytes_eq_sound [] (c ∷ cs) e = absurd (ground (arith, e))
bytes_eq_sound (b ∷ bs) [] e = absurd (ground (arith, e))
bytes_eq_sound (b ∷ bs) (c ∷ cs) e =
    let same : b ≡ c = ground (arith, e) in
    let rest = bytes_eq_sound bs cs (ground (arith, e)) in cc

pub bytes_eq_refl : (a : Bytes) → bytes_eq a a ≡ true
unfolding bytes_eq
bytes_eq_refl [] = refl
bytes_eq_refl (b ∷ bs) = ground (arith, bytes_eq_refl bs)

first_byte :
    (hay rest : Bytes) (b i n : ℕ) → take (suc n) (drop i hay) ≡ b ∷ rest → get_elem? hay i ≡ some b
first_byte [] rest b zero n e = absurd (ground (arith, e))
first_byte [] rest b (suc i) n e = absurd (ground (arith, e))
first_byte (c ∷ cs) rest b zero n e = grind (arith, e)
first_byte (c ∷ cs) rest b (suc i) n e = first_byte cs rest b i n e

module _ (hay : Bytes) (first : ℕ) (rest : Bytes) where
  -- What one round has found.
  abbrev Result : ℕ → Outcome (Option ℕ) → Type 0
  Result low r = (o : Option ℕ) × (r ≡ ok o) × First hay (first ∷ rest) low o

  skip :
      (i : ℕ) (r : Outcome (Option ℕ))
      → ¬ Occurs hay (first ∷ rest) i
      → Result (i + 1) r
      → Result i r
  skip i r not_here (some j, e, at here before) = (
    some j,
    e,
    at here (λ k low lt. elim (Bool-cases (k == i)) [
      | inl same ↦ subst (λ (x : ℕ). ¬ Occurs hay (first ∷ rest) x) (ground (arith, same)) not_here
      | inr other ↦ before k (ground (arith, other)) lt
    ]),
  )
  skip i r not_here (none, e, nowhere before) = (
    none,
    e,
    nowhere (λ k low. elim (Bool-cases (k == i)) [
      | inl same ↦ subst (λ (x : ℕ). ¬ Occurs hay (first ∷ rest) x) (ground (arith, same)) not_here
      | inr other ↦ before k (ground (arith, other))
    ]),
  )

  find_round_lem :
      (i : ℕ) (next : Outcome (Option ℕ))
      → i + length (first ∷ rest) ≤ length hay
      → Result (i + 1) next
      → Result i (find_round hay (first ∷ rest) first i next)
  unfolding slice
  find_round_lem i next fit found =
      let (b, here) = get_elem?-some hay i (omega arith) in
      let fits : leb (i + length (first ∷ rest)) (length hay) ≡ true = ground arith in
      elim (Bool-cases (b == first)) [
        | inl starts ↦
            elim (Bool-cases
              (bytes_eq (take (length (first ∷ rest)) (drop i hay)) (first ∷ rest))) [
                | inl same ↦
                    let run : find_round hay (first ∷ rest) first i next ≡ ok (some i) =
                      ground (arith, here, starts, fits, same) in
                    (
                      some i,
                      run,
                      at (record { within = fit; text = bytes_eq_sound _ _ same })
                          (λ j low lt. absurd (omega arith)),
                    )
                | inr differs ↦
                    let run : find_round hay (first ∷ rest) first i next ≡ next =
                      ground (arith, here, starts, fits, differs) in
                    subst (Result i) (sym run) (
                      skip i next
                        (λ o.
                          let t = o.text in
                          let s =
                            subst (λ (x : Bytes). bytes_eq x (first ∷ rest) ≡ true) (sym t)
                              (bytes_eq_refl (first ∷ rest)) in
                          absurd (ground (arith, s, differs)))
                        found)
              ]
        | inr other ↦
            let run : find_round hay (first ∷ rest) first i next ≡ next =
              ground (arith, here, other) in
            subst (Result i) (sym run) (
              skip i next
                (λ o.
                  let t = first_byte hay rest first i (length rest) o.text in
                  absurd (ground (arith, other, t, here)))
                found)
      ]

  find_loop_lem :
      (left i : ℕ)
      → i + left + length (first ∷ rest) ≡ length hay + 1
      → Result i (find_loop hay (first ∷ rest) first left i)
  unfolding find_loop slice
  find_loop_lem zero i e =
      (none, refl, nowhere (λ j low o. let w = o.within in absurd (omega (arith, w, e, low))))
  find_loop_lem (suc left) i e =
      find_round_lem i (find_loop hay (first ∷ rest) first left (i + 1)) (omega (arith, e))
        (find_loop_lem left (i + 1) (omega (arith, e)))

-- `plain_find` never reads or slices out of range, and it finds the first place where `needle`
-- occurs in `hay`, or nothing exactly when it occurs nowhere.
pub plain_find_lem :
    (hay needle : Bytes) → (o : Option ℕ) × (plain_find hay needle ≡ ok o) × First hay needle 0 o
unfolding plain_find
plain_find_lem hay [] = (
  some 0,
  refl,
  at (record { within = omega arith; text = refl }) (λ j low lt. absurd (omega arith)),
)
plain_find_lem hay (first ∷ rest) = elim (Bool-cases (ltb (length hay) (length (first ∷ rest)))) [
  | inl short ↦ (
    none,
    rw (short) refl,
    nowhere (λ j low o. let w = o.within in absurd (ground (arith, short, w))),
  )
  | inr long ↦
      let run : plain_find hay (first ∷ rest)
          ≡ find_loop hay (first ∷ rest) first (length hay - length (first ∷ rest) + 1) 0 =
        rw (long) refl in
      subst (λ (r : Outcome (Option ℕ)). Result hay first rest 0 r) (sym run)
        (find_loop_lem hay first rest (length hay - length (first ∷ rest) + 1) 0
          (ground (arith, long)))
]
