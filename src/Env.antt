-- ===== src/Env.antt =====
-- src/env: values, interned strings, hidden classes and tables. A garbage-collected object is
-- named by a number, its address; equality of addresses is equality of the numbers.
pub mod Value
pub mod Strings
pub mod Shape
pub mod Table
pub mod World
pub mod Cache
use tcvm.Common.{ℕ, ◌≡◌, ◌≢◌, ◌⊎◌, inl, inr, sym, ap, ◌∙◌, subst, Bool, true, false, Option, none}
use tcvm.Common.{some, ◌==◌, if◌then◌else◌, arith}

pub ℕ-cases : (a b : ℕ) → (a ≡ b) ⊎ (a ≢ b)
ℕ-cases a b = ground arith

-- A map from addresses in which one entry is replaced.
unfoldable pub put {ℓ} : {A : Type ℓ} → (ℕ → A) → ℕ → A → ℕ → A
put f i a j = if j == i then a else f j

pub put_self {ℓ} : {A : Type ℓ} (f : ℕ → A) (i : ℕ) (a : A) → put f i a i ≡ a
unfolding put
put_self f i a = ground arith

pub put-ne {ℓ} : {A : Type ℓ} (f : ℕ → A) {i j : ℕ} (a : A) → ¬ (j ≡ i) → put f i a j ≡ f j
unfolding put
put-ne f a h = ground arith

-- `ValueKind`
pub data ValueKind : Type 0 where
  nil : ValueKind
  boolean : ValueKind
  integer : ValueKind
  float : ValueKind
  string : ValueKind
  table : ValueKind
  function : ValueKind
  thread : ValueKind
  userdata : ValueKind

-- The discriminant, which `==` on kinds compares.
unfoldable pub discriminant : ValueKind → ℕ
discriminant nil = 0
discriminant boolean = 1
discriminant integer = 2
discriminant float = 3
discriminant string = 4
discriminant table = 5
discriminant function = 6
discriminant thread = 7
discriminant userdata = 8

-- What holds of each entry of a map holds after one is replaced.
pub put-all {ℓ κ} :
    {A : Type ℓ} (P : ℕ → A → Type κ) (f : ℕ → A) (i : ℕ) (a : A)
    → P i a
    → ((j : ℕ) → ¬ (j ≡ i) → P j (f j))
    → (j : ℕ) → P j (put f i a j)
put-all P f i a new old j = elim (ℕ-cases j i) [
  | inl same ↦
      let here : put f i a j ≡ a = ap (put f i a) same ∙ put_self f i a in
      subst (P j) (sym here) (subst (λ k. P k a) (sym same) new)
  | inr ne ↦ subst (P j) (sym (put-ne f a ne)) (old j ne)
]
