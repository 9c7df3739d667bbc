-- ===== src/Env/Table/Strings.antt =====
-- The writes of a string key in src/env/table/mod.rs: in dictionary mode, to an old slot and to a
-- new slot.
use tcvm.Common.{ℕ, zero, suc, ◌+◌, ◌<◌, ◌≡◌, ◌≢◌, refl, sym, ap, ◌∙◌, subst, arith, inl, inr}
use tcvm.Common.{false, Option, none, some, List, [], ◌∷◌, ◌++◌, length, get_elem?, set}
use tcvm.Common.{Option-cases, get_elem?-set_self, get_elem?-set_ne, length-set, length-append}
use tcvm.Env.{put, put_self, put-ne, ℕ-cases}
use tcvm.Env.Value.{Value}
use tcvm.Env.Shape.{Descriptor, Heap, find_slot}
use tcvm.Env.Shape.Slots.{last_slot, find_slot_bound, find_slot-injective, find_slot-append_found}
use tcvm.Env.Shape.Slots.{find_slot-append_absent}
use tcvm.Env.Shape.Valid.{layout, grown, Valid, Arrives, Layout}
use tcvm.Env.Shape.Growth.{Extends-refl}
use tcvm.Env.Table.{Context, TableState, set_string_key_dict, or_nil, dict_entry}
use tcvm.Env.Table.Valid.{Plain, TableOk}
use tcvm.Env.Table.Reads.{Stored, Set, get_string_key-dict, get_string_key-fast}
use tcvm.Env.Table.Reads.{get_string_key-absent, dict_entry-or_nil, reads_by}

-- Dictionary mode.
pub set_string_key_dict_lem :
    (c : Context) (h : Heap) (t : TableState) (m : ℕ → Option Value) (key : ℕ) (value : Value)
    → Valid h
    → TableOk h t
    → Plain value
    → t.dict ≡ some m
    → Set c h t key value (set_string_key_dict c key value t h)
unfolding set_string_key_dict
set_string_key_dict_lem c h t m key value v ok plain e =
    let entry = dict_entry (m key) value in
    let t' : TableState = record t { dict = some (put m key entry) } in
    (
      t',
      h,
      rw (set_string_key_dict, e),
      record {
        valid = v;
        extends = Extends-refl h;
        table_ok = record {
          shape_in = ok.shape_in;
          fast = λ f. absurd (ground (arith, f));
          counted = λ f. absurd (ground (arith, f));
          slow = λ n f. ok.slow m e;
          plain = ok.plain;
        };
        reads =
            reads_by h t h t' key value
              (get_string_key-dict h t' _ key refl
                ∙ ap (λ x. some (or_nil x)) (put_self m key entry)
                ∙ ap some (dict_entry-or_nil (m key) value plain))
              (λ k ne.
                get_string_key-dict h t' _ k refl
                ∙ ap (λ x. some (or_nil x)) (put-ne m entry ne)
                ∙ sym (get_string_key-dict h t m k e));
        same_mt = refl;
        same_cache = refl;
        same_metatable = refl;
        same_array = refl;
        same_misc = refl;
      },
    )

-- A value is written over that of an old slot.
pub set_property-Stored :
    (h : Heap) (t : TableState) (key slot : ℕ) (value : Value)
    → Valid h
    → TableOk h t
    → Plain value
    → t.dict ≡ none
    → find_slot (h.shapes t.shape).descriptors key ≡ some slot
    → (slot < length t.properties)
      × Stored h t key value (record t { properties = set t.properties slot value }) h
set_property-Stored h t key slot value v ok plain e f =
    let num = (v.shapes_ok t.shape ok.shape_in).ok.numbered in
    let counted = (v.shapes_ok t.shape ok.shape_in).ok.counted in
    let (low, high) = find_slot_bound 0 _ key slot num f in
    let b : slot < length t.properties = omega (arith, ok.counted e, counted) in
    let t' : TableState = record t { properties = set t.properties slot value } in
    (
      b,
      record {
        valid = v;
        extends = Extends-refl h;
        table_ok = record {
          shape_in = ok.shape_in;
          fast = ok.fast;
          counted = λ g. length-set t.properties slot value ∙ ok.counted g;
          slow = ok.slow;
          plain = λ i w at. elim (ℕ-cases slot i) [
            | inl same ↦
                let here : value ≡ w =
                  ground (arith, get_elem?-set_self t.properties slot value b, at, same) in
                subst Plain here plain
            | inr ne ↦ ok.plain i w (sym (get_elem?-set_ne t.properties value ne) ∙ at)
          ];
        };
        reads =
            reads_by h t h t' key value
              (get_string_key-fast h t' key slot e f ∙ get_elem?-set_self t.properties slot value b)
              (λ k ne. elim (Option-cases (find_slot (h.shapes t.shape).descriptors k)) [
                | inl absent ↦
                    get_string_key-absent h t' k e absent
                    ∙ sym (get_string_key-absent h t k e absent)
                | inr (i, found) ↦
                    let apart : slot ≢ i = λ same.
                      ne (find_slot-injective 0 _ k key slot num (found ∙ ap some (sym same)) f) in
                    get_string_key-fast h t' k i e found
                    ∙ get_elem?-set_ne t.properties value apart
                    ∙ sym (get_string_key-fast h t k i e found)
              ]);
        same_mt = refl;
        same_cache = refl;
        same_metatable = refl;
        same_array = refl;
        same_misc = refl;
      },
    )

get_elem?-last : (ps : List Value) (v : Value) → get_elem? (ps ++ (v ∷ [])) (length ps) ≡ some v
get_elem?-last [] v = refl
get_elem?-last (p ∷ ps) v = get_elem?-last ps v

get_elem?-before :
    (ps : List Value) (v : Value) (i : ℕ)
    → i < length ps
    → get_elem? (ps ++ (v ∷ [])) i ≡ get_elem? ps i
get_elem?-before [] v i b = absurd (omega arith)
get_elem?-before (p ∷ ps) v zero b = refl
get_elem?-before (p ∷ ps) v (suc i) b = get_elem?-before ps v i (omega arith)

get_elem?-push-Plain :
    (ps : List Value) (v : Value)
    → Plain v
    → ((i : ℕ) (w : Value) → get_elem? ps i ≡ some w → Plain w)
    → (i : ℕ) (w : Value) → get_elem? (ps ++ (v ∷ [])) i ≡ some w
    → Plain w
get_elem?-push-Plain [] v plain all zero w e = subst Plain (ground (arith, e)) plain
get_elem?-push-Plain [] v plain all (suc i) w e = absurd (ground (arith, e))
get_elem?-push-Plain (p ∷ ps) v plain all zero w e = all 0 w e
get_elem?-push-Plain (p ∷ ps) v plain all (suc i) w e =
    get_elem?-push-Plain ps v plain (λ j. all (suc j)) i w e

last_slot-key : (k n : ℕ) → last_slot (record { key = k; slot = n }) k ≡ some n
last_slot-key k n = ground arith

last_slot-other : (key n k : ℕ) → k ≢ key → last_slot (record { key = key; slot = n }) k ≡ none
last_slot-other key n k ne = ground arith

-- A slot is added for a new key.
pub push_property-Stored :
    (h : Heap) (t : TableState) (key : ℕ) (value : Value) (s : ℕ) (h' : Heap)
    → Valid h
    → TableOk h t
    → Plain value
    → t.dict ≡ none
    → find_slot (h.shapes t.shape).descriptors key ≡ none
    → Arrives h (grown key (layout (h.shapes t.shape))) (s, h')
    → Stored h t key value (record t { shape = s; properties = t.properties ++ (value ∷ []) }) h'
push_property-Stored h t key value s h' v ok plain e f (v', ext, (b, lay)) =
    let d = h.shapes t.shape in
    let num = (v.shapes_ok t.shape ok.shape_in).ok.numbered in
    let counted = (v.shapes_ok t.shape ok.shape_in).ok.counted in
    let t' : TableState = record t { shape = s; properties = t.properties ++ (value ∷ []) } in
    let descs : (h'.shapes s).descriptors
        ≡ d.descriptors ++ (record { key = key; slot = d.slot_count } ∷ []) =
      ap (λ (l : Layout). l.descriptors) lay in
    let slots : (h'.shapes s).slot_count ≡ d.slot_count + 1 =
      ap (λ (l : Layout). l.slot_count) lay in
    let mode : (h'.shapes s).is_dict ≡ false = ap (λ (l : Layout). l.is_dict) lay in
    let last : Descriptor = record { key = key; slot = d.slot_count } in
    let self : find_slot (h'.shapes s).descriptors key ≡ some d.slot_count =
      ap (λ ds. find_slot ds key) descs
      ∙ find_slot-append_absent d.descriptors last key f
      ∙ last_slot-key key d.slot_count in
    let len : length t.properties ≡ d.slot_count = ok.counted e in
    record {
      valid = v';
      extends = ext;
      table_ok = record {
        shape_in = b;
        fast = λ g. mode;
        counted = λ g. omega (arith, length-append t.properties (value ∷ []), slots, ok.counted e);
        slow = λ m g. absurd (ground (arith, e, g));
        plain = get_elem?-push-Plain t.properties value plain ok.plain;
      };
      reads =
          reads_by h t h' t' key value
            (get_string_key-fast h' t' key d.slot_count e self
              ∙ ap (get_elem? t'.properties) (sym len)
              ∙ get_elem?-last t.properties value)
            (λ k ne. elim (Option-cases (find_slot d.descriptors k)) [
              | inl absent ↦
                  let still : find_slot (h'.shapes s).descriptors k ≡ none =
                    ap (λ ds. find_slot ds k) descs
                    ∙ find_slot-append_absent d.descriptors last k absent
                    ∙ last_slot-other key d.slot_count k ne in
                  get_string_key-absent h' t' k e still ∙ sym (get_string_key-absent h t k e absent)
              | inr (i, found) ↦
                  let still : find_slot (h'.shapes s).descriptors k ≡ some i =
                    ap (λ ds. find_slot ds k) descs
                    ∙ find_slot-append_found d.descriptors last k i found in
                  let (low, high) = find_slot_bound 0 _ k i num found in
                  get_string_key-fast h' t' k i e still
                  ∙ get_elem?-before t.properties value i (omega (arith, counted, len))
                  ∙ sym (get_string_key-fast h t k i e found)
            ]);
      same_mt = ap (λ (l : Layout). l.mt_cache) lay;
      same_cache = refl;
      same_metatable = refl;
      same_array = refl;
      same_misc = refl;
    }
