-- ===== src/Env/Shape/Slots.antt =====
-- `Shape::find_slot` on the descriptors of a shape.
use tcvm.Common.{ℕ, suc, ◌+◌, ◌≤◌, ◌<◌, ◌≡◌, refl, arith, false, inl, inr, Option, none, some}
use tcvm.Common.{List, [], ◌∷◌, ◌++◌, ◌==◌, if◌then◌else◌, length, Bool-cases}
use tcvm.Env.Shape.{Descriptor, find_slot}

-- The slots are numbered from `n` on.
abbrev pub Numbered : ℕ → List Descriptor → Type 0
Numbered n [] = Unit
Numbered n (d ∷ ds) = (d.slot ≡ n) × Numbered (suc n) ds

-- No key is repeated.
abbrev pub Distinct : List Descriptor → Type 0
Distinct [] = Unit
Distinct (d ∷ ds) = (find_slot ds d.key ≡ none) × Distinct ds

abbrev pub last_slot : Descriptor → ℕ → Option ℕ
last_slot d k = if d.key == k then some d.slot else none

pub find_slot_bound :
    (n : ℕ) (ds : List Descriptor) (k i : ℕ)
    → Numbered n ds
    → find_slot ds k ≡ some i
    → (n ≤ i) × (i < n + length ds)
unfolding find_slot
find_slot_bound n [] k i num e = absurd (ground (arith, e))
find_slot_bound n (d ∷ ds) k i (here, num) e = elim (Bool-cases (d.key == k)) [
  | inl t ↦ ground arith
  | inr f ↦
      let (low, high) = find_slot_bound (suc n) ds k i num (ground arith) in
      (omega arith, omega arith)
]

-- Two keys do not share a slot.
pub find_slot-injective :
    (n : ℕ) (ds : List Descriptor) (j k i : ℕ)
    → Numbered n ds
    → find_slot ds j ≡ some i
    → find_slot ds k ≡ some i
    → j ≡ k
unfolding find_slot
find_slot-injective n [] j k i num e f = absurd (ground (arith, e))
find_slot-injective n (d ∷ ds) j k i (here, num) e f = ground (
  arith,
  find_slot_bound (suc n) ds k i num,
  find_slot_bound (suc n) ds j i num,
  find_slot-injective (suc n) ds j k i num,
)

pub find_slot-append_found :
    (ds : List Descriptor) (d : Descriptor) (k i : ℕ)
    → find_slot ds k ≡ some i
    → find_slot (ds ++ (d ∷ [])) k ≡ some i
unfolding find_slot
find_slot-append_found [] d k i e = absurd (ground (arith, e))
find_slot-append_found (c ∷ ds) d k i e = ground (arith, find_slot-append_found ds d k i)

pub find_slot-append_absent :
    (ds : List Descriptor) (d : Descriptor) (k : ℕ)
    → find_slot ds k ≡ none
    → find_slot (ds ++ (d ∷ [])) k ≡ last_slot d k
unfolding find_slot
find_slot-append_absent [] d k e = ground arith
find_slot-append_absent (c ∷ ds) d k e = ground (arith, find_slot-append_absent ds d k)

pub append-Numbered :
    (n : ℕ) (ds : List Descriptor) (k : ℕ)
    → Numbered n ds
    → Numbered n (ds ++ (record { key = k; slot = n + length ds } ∷ []))
append-Numbered n [] k num = (omega arith, tt)
append-Numbered n (d ∷ ds) k (here, num) =
    let same : n + suc (length ds) ≡ suc n + length ds = omega arith in
    (here, rw same (append-Numbered (suc n) ds k num))

pub append-Distinct :
    (ds : List Descriptor) (d : Descriptor)
    → Distinct ds
    → find_slot ds d.key ≡ none
    → Distinct (ds ++ (d ∷ []))
unfolding find_slot
append-Distinct [] d dis e = (refl, tt)
append-Distinct (c ∷ ds) d (here, dis) e =
    let other : (c.key == d.key) ≡ false = ground arith in
    let rest : find_slot ds d.key ≡ none = ground arith in
    (ground (arith, find_slot-append_absent ds d c.key here), append-Distinct ds d dis rest)
