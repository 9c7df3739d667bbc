-- ===== src/Env/Strings/Laws.antt =====
-- The interner of src/env/string.rs.
use tcvm.Common.{ℕ, suc, ◌≤◌, ◌<◌, ◌≡◌, refl, sym, ap, ◌∙◌, subst, arith, inl, inr, Option, none}
use tcvm.Common.{some, List, [], ◌∷◌, Bool-cases, ◌↔◌, if◌then◌else◌}
use tcvm.Env.{put, put_self, put-ne, ℕ-cases}
use tcvm.Env.Strings.{Interner, empty, intern, intern_all}
use tcvm.Pattern.{Bytes}
use tcvm.Pattern.Matcher.{bytes_eq}
use tcvm.Pattern.Search.{bytes_eq_sound, bytes_eq_refl}

pub record Sound (i : Interner) : Type 0 where
  pub found : (text : Bytes) (s : ℕ) → i.table text ≡ some s → (s < i.count) × (i.bytes s ≡ text)
  pub known : (s : ℕ) → s < i.count → i.table (i.bytes s) ≡ some s
  pub blank : (s : ℕ) → i.count ≤ s → i.bytes s ≡ []

-- A later state of the interner has the strings of `i`.
pub record Keeps (i i' : Interner) : Type 0 where
  pub count : i.count ≤ i'.count
  pub kept : (s : ℕ) → s < i.count → i'.bytes s ≡ i.bytes s

pub Keeps-refl : (i : Interner) → Keeps i i
Keeps-refl i = record { count = omega arith; kept = λ s b. refl }

Keeps-trans : {i j k : Interner} → Keeps i j → Keeps j k → Keeps i k
Keeps-trans e f = record {
  count = omega (arith, e.count, f.count);
  kept = λ s b. f.kept s (omega (arith, e.count)) ∙ e.kept s b;
}

pub empty-Sound : Sound empty
unfolding empty
empty-Sound = record {
  found = λ text s e. absurd (ground (arith, e));
  known = λ s b. absurd (omega arith);
  blank = λ s b. refl;
}

-- One string for each contents.
pub Sound-injective :
    (i : Interner) (s t : ℕ) → Sound i → s < i.count → t < i.count → i.bytes s ≡ i.bytes t → s ≡ t
Sound-injective i s t sound bs bt e =
    let one : some s ≡ some t = sym (sound.known s bs) ∙ ap i.table e ∙ sound.known t bt in
    ground (arith, one)

abbrev Interns : Interner → Bytes → ℕ × Interner → Type 0
Interns i text (s, i') = Sound i' × Keeps i i' × (s < i'.count) × (i'.bytes s ≡ text)

add_string : Bytes → Interner → Interner
add_string text i = record {
  count = suc i.count;
  bytes = put i.bytes i.count text;
  table = λ other. if bytes_eq other text then some i.count else i.table other;
}

add_string-Interns :
    (text : Bytes) (i : Interner)
    → Sound i
    → i.table text ≡ none
    → Interns i text (i.count, add_string text i)
unfolding add_string
add_string-Interns text i sound absent =
    let n = i.count in
    let self = put_self i.bytes n text in
    (
      record {
        found = λ other s e. elim (Bool-cases (bytes_eq other text)) [
          | inl same ↦
              let here : n ≡ s = ground (arith, e) in
              (
                omega arith,
                ap (put i.bytes n text) (sym here) ∙ self ∙ sym (bytes_eq_sound other text same),
              )
          | inr ne ↦
              let (b, eq) = sound.found other s (ground (arith, e)) in
              (omega arith, put-ne i.bytes text (omega arith) ∙ eq)
        ];
        known = λ s b. elim (ℕ-cases s n) [
          | inl same ↦
              let text_here : put i.bytes n text s ≡ text = ap (put i.bytes n text) same ∙ self in
              subst (λ x. (add_string text i).table x ≡ some s) (sym text_here)
                (rw (bytes_eq_refl text) (ap some (sym same)))
          | inr ne ↦
              let old = sound.known s (omega arith) in
              subst (λ x. (add_string text i).table x ≡ some s) (sym (put-ne i.bytes text ne))
                (elim (Bool-cases (bytes_eq (i.bytes s) text)) [
                  | inr differs ↦ rw differs old
                  | inl same ↦
                      let gone = ap i.table (bytes_eq_sound (i.bytes s) text same) in
                      absurd (ground (arith, old, gone, absent))
                ])
        ];
        blank = λ s b. put-ne i.bytes text (omega arith) ∙ sound.blank s (omega arith);
      },
      record { count = omega arith; kept = λ s b. put-ne i.bytes text (omega arith) },
      omega arith,
      self,
    )

-- `Interner::intern` returns a string with the contents that were asked for.
pub intern_lem : (text : Bytes) (i : Interner) → Sound i → Interns i text (intern text i)
unfolding intern add_string
intern_lem text i sound = by_entry _ refl
  where
    by_entry :
        (o : Option ℕ)
        → i.table text ≡ o
        → Interns i text (elim o [ some s ↦ (s, i) | none ↦ (i.count, add_string text i) ])
    by_entry (some s) e = let (b, eq) = sound.found text s e in (sound, Keeps-refl i, b, eq)
    by_entry none e = add_string-Interns text i sound e

-- The symbols name the rows that they were interned for.
pub data Names (i : Interner) : List (Bytes × ℕ) → List (ℕ × ℕ) → Type 0 where
  no_row : Names i [] []
  row :
      {n : Bytes} {s b : ℕ} {rows : List (Bytes × ℕ)} {syms : List (ℕ × ℕ)}
      → s < i.count
      → i.bytes s ≡ n
      → Names i rows syms
      → Names i ((n, b) ∷ rows) ((s, b) ∷ syms)

pub Names-Keeps :
    {i i' : Interner} {rows : List (Bytes × ℕ)} {syms : List (ℕ × ℕ)}
    → Keeps i i'
    → Names i rows syms
    → Names i' rows syms
Names-Keeps k no_row = no_row
Names-Keeps k (row b e names) = row (omega (arith, k.count)) (k.kept _ b ∙ e) (Names-Keeps k names)

abbrev InternsAll : Interner → List (Bytes × ℕ) → List (ℕ × ℕ) × Interner → Type 0
InternsAll i rows (syms, i') = Sound i' × Keeps i i' × Names i' rows syms

pub intern_all_lem :
    (rows : List (Bytes × ℕ)) (i : Interner) → Sound i → InternsAll i rows (intern_all rows i)
unfolding intern_all
intern_all_lem [] i sound = (sound, Keeps-refl i, no_row)
intern_all_lem ((n, b) ∷ rows) i sound =
    let (s1, k1, in1, is_n) = intern_lem n i sound in
    let (s2, k2, names) = intern_all_lem rows ((intern n i).1) s1 in
    (s2, Keeps-trans k1 k2, row (omega (arith, k2.count)) (k2.kept _ in1 ∙ is_n) names)

-- From any valid state of the interner, two texts are interned as the same string exactly if they are
-- equal.
pub intern-injective :
    (a b : Bytes) (i : Interner)
    → Sound i
    → let (s, i1) = intern a i in let (t, i2) = intern b i1 in (s ≡ t) ↔ (a ≡ b)
intern-injective a b i sound =
    let (s1, k1, in1, is_a) = intern_lem a i sound in
    let (s2, k2, in2, is_b) = intern_lem b ((intern a i).1) s1 in
    let a_later = k2.kept _ in1 ∙ is_a in
    (
      λ same. sym a_later ∙ ap (((intern b ((intern a i).1)).1).bytes) same ∙ is_b,
      λ same. Sound-injective _ _ _ s2 (omega (arith, k2.count)) in2 (a_later ∙ same ∙ sym is_b),
    )
