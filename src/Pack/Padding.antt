-- ===== src/Pack/Padding.antt =====
-- The padding of `ntoalign` of src/builtin/string/pack.rs aligns what follows it.
use Prim.Native.Nat.{bit_and, min}
use tcvm.Common.{ℕ, ◌+◌, ◌-◌, ◌%◌, ◌^◌, ◌≤◌, ◌<◌, ◌≡◌, ◌⊎◌, refl, sym, ap, ◌∙◌, subst, arith, inl}
use tcvm.Common.{inr, Bool, true, false, ◌||◌, ◌==◌, leb, if◌then◌else◌, Bool-cases}
use tcvm.Common.Bits.{bit_and_mask, agree_below→eq, agree_below}
use tcvm.Pack.{KOption, is_char, lesser, ntoalign, ok, panic}

abbrev passes : ℕ → ℕ
passes a = if bit_and a (a - 1) == 0 then 1 else 0

abbrev is_power : ℕ → Bool
is_power a = a == 0 || (a == 1) || (a == 2) || (a == 4) || (a == 8) || (a == 16)

-- The alignments up to 16 that pass the test are 0 and the powers of 2.
powers : (a : ℕ) → a < 17 → (bit_and a (a - 1) == 0) ≡ true → is_power a ≡ true
unfolding agree_below
powers a b e =
    let table = agree_below→eq passes (λ x. if is_power x then 1 else 0) 17 refl a b in
    ground (arith, table, e)

-- The padding as arithmetic.
padding_of :
    (k total : ℕ)
    → bit_and (2 ^ k - bit_and total (2 ^ k - 1)) (2 ^ k - 1) ≡ (2 ^ k - total % 2 ^ k) % 2 ^ k
padding_of k total =
    bit_and_mask k (2 ^ k - bit_and total (2 ^ k - 1))
    ∙ ap (λ x. (2 ^ k - x) % 2 ^ k) (bit_and_mask k total)

abbrev pub Pads : ℕ → ℕ → ℕ → Type 0
Pads a total n = (n < a) × ((total + n) % a ≡ 0)

abbrev Padded : ℕ → ℕ → Type 0
Padded total a = Pads a total (bit_and (a - bit_and total (a - 1)) (a - 1))

pads_2 : (total : ℕ) → Padded total 2
pads_2 total = omega (arith, padding_of 1 total)

pads_4 : (total : ℕ) → Padded total 4
pads_4 total = omega (arith, padding_of 2 total)

pads_8 : (total : ℕ) → Padded total 8
pads_8 total = omega (arith, padding_of 3 total)

pads_16 : (total : ℕ) → Padded total 16
pads_16 total = omega (arith, padding_of 4 total)

pads_1 : (total : ℕ) → Padded total 1
pads_1 total = omega (arith, padding_of 0 total)

split : (a : ℕ) → 1 ≤ a → is_power a ≡ true → (a ≡ 1) ⊎ (a ≡ 2) ⊎ (a ≡ 4) ⊎ (a ≡ 8) ⊎ (a ≡ 16)
split a low e = ground (arith, e)

pads : (a total : ℕ) → 1 ≤ a → is_power a ≡ true → Padded total a
pads a total low e = elim (split a low e) [
  | inl one ↦ subst (Padded total) (sym one) (pads_1 total)
  | inr (inl two) ↦ subst (Padded total) (sym two) (pads_2 total)
  | inr (inr (inl four)) ↦ subst (Padded total) (sym four) (pads_4 total)
  | inr (inr (inr (inl eight))) ↦ subst (Padded total) (sym eight) (pads_8 total)
  | inr (inr (inr (inr sixteen))) ↦ subst (Padded total) (sym sixteen) (pads_16 total)
]

-- What is asked of the padding before an option with a natural alignment: none for a text or for
-- an alignment up to 1, and otherwise up to the lesser of the alignment and the maximum.
abbrev pub Aligned : KOption → ℕ → ℕ → ℕ → ℕ → Type 0
Aligned opt align maxalign total n =
    ((is_char opt ≡ true ⊎ (align ≤ 1)) × (n ≡ 0))
    ⊎ ((is_char opt ≡ false) × (2 ≤ align) × Pads (min align maxalign) total n)

pub ntoalign-Aligned :
    (opt : KOption) (align maxalign total n : ℕ)
    → 1 ≤ maxalign
    → maxalign ≤ 16
    → ntoalign opt align maxalign total ≡ ok n
    → Aligned opt align maxalign total n
unfolding ntoalign
ntoalign-Aligned opt align maxalign total n low high e =
    elim (Bool-cases (leb align 1 || is_char opt)) [
      | inl flat ↦ inl (ground (arith, flat), ground (arith, flat, e))
      | inr deep ↦
          let a = lesser align maxalign in
          elim (Bool-cases (bit_and a (a - 1) == 0)) [
            | inr odd ↦ absurd (ground (arith, e))
            | inl power ↦
                let value : bit_and (a - bit_and total (a - 1)) (a - 1) ≡ n = ground (arith, e) in
                let small : a < 17 = ground arith in
                let one : 1 ≤ a = ground arith in
                let same : a ≡ min align maxalign = ground arith in
                inr (
                  ground (arith, deep),
                  ground (arith, deep),
                  subst (λ (m : ℕ). Pads m total n) same
                      (subst (Pads a total) value (pads a total one (powers a small power))),
                )
          ]
    ]

pub ntoalign-ne-panic :
    (opt : KOption) (align maxalign total : ℕ) → ¬ (ntoalign opt align maxalign total ≡ panic)
unfolding ntoalign
ntoalign-ne-panic opt align maxalign total e = ground (arith, e)
