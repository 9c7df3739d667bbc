-- ===== src/Env/Table/Modes.antt =====
-- `migrate_to_dict` of src/env/table/mod.rs: the change from fast mode to dictionary mode.
use tcvm.Common.{ℕ, ◌+◌, ◌≤◌, ◌≡◌, refl, sym, ap, ◌∙◌, arith, inl, inr, Option, none, some, []}
use tcvm.Common.{length, Option-cases}
use tcvm.Env.Value.{Value}
use tcvm.Env.Shape.{Heap, find_slot, sentinel_for}
use tcvm.Env.Shape.Valid.{dictionary, Valid, Extends, Arrives, Layout}
use tcvm.Env.Shape.Transitions.{sentinel_for-Arrives}
use tcvm.Env.Table.{TableState, get_string_key, migrate_to_dict, or_nil}
use tcvm.Env.Table.Valid.{TableOk}
use tcvm.Env.Table.Migrate.{copy_slots_lem, Copied}
use tcvm.Env.Table.Reads.{get_string_key-dict, get_string_key-fast, get_string_key-absent}

-- A table in dictionary mode that holds what `t` holds.
pub record Migrated (h : Heap) (t : TableState) (t' : TableState) (h' : Heap) : Type 0 where
  pub valid : Valid h'
  pub extends : Extends h h'
  pub table_ok : TableOk h' t'
  pub keeps : (k : ℕ) → get_string_key h' t' k ≡ get_string_key h t k
  pub table : (m : ℕ → Option Value) × (t'.dict ≡ some m)
  pub same_mt : (h'.shapes t'.shape).mt_cache ≡ (h.shapes t.shape).mt_cache
  pub same_rest :
      (t'.mt_cache ≡ t.mt_cache)
      × (t'.metatable ≡ t.metatable)
      × (t'.array ≡ t.array)
      × (t'.misc_hash ≡ t.misc_hash)

into_dict-Migrated :
    (h : Heap) (t : TableState) (m : ℕ → Option Value) (s : ℕ) (h' : Heap)
    → Valid h
    → TableOk h t
    → t.dict ≡ none
    → Copied t.properties (h.shapes t.shape).descriptors (λ k. none) m
    → Arrives h (dictionary (h.shapes t.shape).mt_cache) (s, h')
    → Migrated h t (record t { properties = []; shape = s; dict = some m }) h'
into_dict-Migrated h t m s h' v ok e cop (v', ext, (b, lay)) =
    let t' : TableState = record t { properties = []; shape = s; dict = some m } in
    record {
      valid = v';
      extends = ext;
      table_ok = record {
        shape_in = b;
        fast = λ f. absurd (ground (arith, f));
        counted = λ f. absurd (ground (arith, f));
        slow = λ n f. ap (λ (l : Layout). l.is_dict) lay;
        plain = λ i w at. absurd (ground (arith, at));
      };
      keeps = λ k. elim (Option-cases (find_slot (h.shapes t.shape).descriptors k)) [
        | inl absent ↦
            get_string_key-dict h' t' m k refl
            ∙ ap (λ x. some (or_nil x)) (cop.others k absent)
            ∙ sym (get_string_key-absent h t k e absent)
        | inr (i, found) ↦
            get_string_key-dict h' t' m k refl
            ∙ sym (cop.copied k i found refl)
            ∙ sym (get_string_key-fast h t k i e found)
      ];
      table = (m, refl);
      same_mt = ap (λ (l : Layout). l.mt_cache) lay;
      same_rest = (refl, refl, refl, refl);
    }

-- On a table in fast mode, in a state in order, `migrate_to_dict` never panics, and the table holds
-- what it held.
pub migrate_to_dict_lem :
    (h : Heap) (t : TableState)
    → Valid h
    → TableOk h t
    → t.dict ≡ none
    → (t' : TableState) × (h' : Heap) × (migrate_to_dict t h ≡ some (t', h')) × Migrated h t t' h'
unfolding migrate_to_dict
migrate_to_dict_lem h t v ok e =
    let d = h.shapes t.shape in
    let good = (v.shapes_ok t.shape ok.shape_in).ok in
    let room : 0 + length d.descriptors ≤ length t.properties =
      omega (arith, ok.counted e, good.counted) in
    let (m, copied, cop) =
      copy_slots_lem t.properties 0 d.descriptors (λ k. none) ok.plain good.numbered good.distinct
        room in
    let (s, h') = sentinel_for d.mt_cache h in
    (
      record t { properties = []; shape = s; dict = some m },
      h',
      rw (migrate_to_dict, copied),
      into_dict-Migrated h t m s h' v ok e cop (sentinel_for-Arrives h d.mt_cache v),
    )
