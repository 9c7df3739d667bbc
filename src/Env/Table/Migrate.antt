-- ===== src/Env/Table/Migrate.antt =====
-- The loop of `migrate_to_dict` in src/env/table/mod.rs.
use tcvm.Common.{ℕ, suc, ◌+◌, ◌≤◌, ◌≡◌, refl, sym, ap, ◌∙◌, subst, arith, inl, inr, Option, none}
use tcvm.Common.{some, List, [], ◌∷◌, ◌==◌, if◌then◌else◌, length, Bool-cases, get_elem?}
use tcvm.Common.{get_elem?-some}
use tcvm.Env.{put}
use tcvm.Env.Value.{Value, is_nil}
use tcvm.Env.Shape.{Descriptor, find_slot}
use tcvm.Env.Shape.Slots.{Numbered, Distinct}
use tcvm.Env.Table.{copy_slots, or_nil}
use tcvm.Env.Table.Valid.{Plain}

abbrev Map : Type 0
Map = ℕ → Option Value

-- `after` is `before` with the properties of the descriptors.
pub record Copied (ps : List Value) (ds : List Descriptor) (before after : Map) : Type 0 where
  pub others : (k : ℕ) → find_slot ds k ≡ none → after k ≡ before k
  pub copied :
      (k i : ℕ)
      → find_slot ds k ≡ some i
      → before k ≡ none
      → get_elem? ps i ≡ some (or_nil (after k))

abbrev with_slot : Descriptor → Value → Map → Map
with_slot d v table = if is_nil v then table else put table d.key (some v)

with_slot-key :
    (d : Descriptor) (v : Value) (table : Map)
    → Plain v
    → table d.key ≡ none
    → or_nil (with_slot d v table d.key) ≡ v
unfolding put
with_slot-key d v table plain e = ground (arith, plain)

with_slot-other :
    (d : Descriptor) (v : Value) (table : Map) (k : ℕ)
    → ¬ (d.key ≡ k)
    → with_slot d v table k ≡ table k
unfolding put
with_slot-other d v table k h = ground arith

cons-Copied :
    (ps : List Value) (d : Descriptor) (ds : List Descriptor) (v : Value) (table after : Map)
    → get_elem? ps d.slot ≡ some v
    → Plain v
    → find_slot ds d.key ≡ none
    → Copied ps ds (with_slot d v table) after
    → Copied ps (d ∷ ds) table after
unfolding find_slot
cons-Copied ps d ds v table after at plain fresh cop = record {
  others = λ k e.
      let other : ¬ (d.key ≡ k) = ground arith in
      cop.others k (ground arith) ∙ with_slot-other d v table k other;
  copied = λ k i e f. elim (Bool-cases (d.key == k)) [
    | inl t ↦
        let same : d.key ≡ k = ground arith in
        let slot : d.slot ≡ i = ground arith in
        let empty : table d.key ≡ none = ap table same ∙ f in
        let value : or_nil (after d.key) ≡ v =
          ap or_nil (cop.others d.key fresh) ∙ with_slot-key d v table plain empty in
        subst (λ j. get_elem? ps j ≡ some (or_nil (after k))) slot
          (subst (λ j. get_elem? ps d.slot ≡ some (or_nil (after j))) same
            (at ∙ ap some (sym value)))
    | inr t ↦
        let other : ¬ (d.key ≡ k) = ground arith in
        cop.copied k i (ground arith) (with_slot-other d v table k other ∙ f)
  ];
}

copy_slots-some :
    (ps : List Value) (d : Descriptor) (ds : List Descriptor) (v : Value) (table : Map)
    → get_elem? ps d.slot ≡ some v
    → copy_slots ps (d ∷ ds) table ≡ copy_slots ps ds (with_slot d v table)
unfolding copy_slots
copy_slots-some ps d ds v table at = rw (copy_slots, at)

pub copy_slots_lem :
    (ps : List Value) (n : ℕ) (ds : List Descriptor) (table : Map)
    → ((i : ℕ) (v : Value) → get_elem? ps i ≡ some v → Plain v)
    → Numbered n ds
    → Distinct ds
    → n + length ds ≤ length ps
    → (after : Map) × (copy_slots ps ds table ≡ some after) × Copied ps ds table after
unfolding copy_slots find_slot
copy_slots_lem ps n [] table plain num dis b =
    (table, refl, record { others = λ k e. refl; copied = λ k i e f. absurd (ground (arith, e)) })
copy_slots_lem ps n (d ∷ ds) table plain (here, num) (fresh, dis) b =
    let (v, at) = get_elem?-some ps d.slot (omega arith) in
    let (after, eq, cop) =
      copy_slots_lem ps (suc n) ds (with_slot d v table) plain num dis (omega arith) in
    (
      after,
      copy_slots-some ps d ds v table at ∙ eq,
      cons-Copied ps d ds v table after at (plain d.slot v at) fresh cop,
    )
