-- ===== src/Env/Table/Whole.antt =====
-- `raw_get` and `raw_set` of src/env/table/mod.rs.
use tcvm.Common.{ℕ, zero, suc, ◌-◌, ◌≤◌, ◌≡◌, ◌⊎◌, refl, sym, ap, ◌∙◌, subst, arith, inl, inr}
use tcvm.Common.{Bool, true, false, Option, none, some, List, ◌==◌, if◌then◌else◌, length}
use tcvm.Common.{get_elem?, Option-cases}
use tcvm.Env.Value.{Value, is_nil, get_string, of_string, get_kind-of_kind, get_kind-some}
use tcvm.Env.Shape.{Heap}
use tcvm.Env.Shape.Valid.{Valid, Grows}
use tcvm.Env.{ValueKind}
use tcvm.Env.Table.{Context, TableState, raw_get, raw_set, array_index, array_set, misc_hash_get}
use tcvm.Env.Table.{misc_hash_set, or_nil, get_string_key, max_array, misc_entry, with_array}
use tcvm.Env.Table.Valid.{Plain, TableOk}
use tcvm.Env.Table.Bits.{noted, metamethod_bit}
use tcvm.Env.Table.Writes.{set_string_key_lem}
use tcvm.Env.Table.Places.{Place, named, element, other, place, same_place, read, raw_get-read}
use tcvm.Env.Table.Places.{Wrote, array_index_low}
use tcvm.Env.Table.Named.{Stored-Wrote}
use tcvm.Env.Table.Array.{array_set_lem}

-- The element that a key leads to fits into a `Vec`.
abbrev pub Fits : Context → TableState → Value → Type 0
Fits c t key = (i : ℕ) → array_index c key ≡ some i → (i ≤ length t.array) ⊎ (i ≤ max_array)

abbrev pub Writes :
    Context → Heap → TableState → Place → Value → Value → Option (TableState × Heap) → Type 0
Writes c h t at key value o =
    (t' : TableState) × (h' : Heap) × (o ≡ some (t', h')) × Wrote c h t at key value t' h'

pub Grows-refl : (h : Heap) → Grows h h
Grows-refl h = record { count = omega arith; kept = λ s b. refl; caches_count = omega arith }

unnoted :
    (c : Context) (own : Option ℕ) (key value : Value) (i b : ℕ) (old : Bool)
    → get_string key ≡ none
    → noted c own key value i b old ≡ old
unfolding metamethod_bit
unnoted c own key value i b old e = rw (metamethod_bit, e) (ground arith)

some-if : (b : Bool) (v w : Value) → some (if b then v else w) ≡ (if b then some v else some w)
some-if true v w = refl
some-if false v w = refl

misc_entry-or_nil : (old : Option Value) (v : Value) → Plain v → or_nil (misc_entry old v) ≡ v
misc_entry-or_nil none v plain = refl
misc_entry-or_nil (some old) v plain = ground (arith, plain)

-- A write that leaves the shapes and the string keys alone.
plain-Wrote :
    (c : Context) (h : Heap) (t : TableState) (at : Place) (key value : Value) (array : List Value)
    (misc : Value → Option Value)
    → Valid h
    → TableOk h t
    → get_string key ≡ none
    → ((p : Place)
        → read h (record t { array = array; misc_hash = misc }) p
          ≡ (if same_place p at then some value else read h t p))
    → Wrote c h t at key value (record t { array = array; misc_hash = misc }) h
plain-Wrote c h t at key value array misc v ok e reads = record {
  valid = v;
  grows = Grows-refl h;
  table_ok = record {
    shape_in = ok.shape_in;
    fast = ok.fast;
    counted = ok.counted;
    slow = ok.slow;
    plain = ok.plain;
  };
  reads = reads;
  same_mt = refl;
  same_cache = refl;
  same_metatable = refl;
  bits = λ i b. sym (unnoted c t.mt_cache key value i b ((h.caches i).bits b) e);
}

set_element_lem :
    (c : Context) (h : Heap) (t : TableState) (key value : Value) (index : ℕ)
    → Valid h
    → TableOk h t
    → get_string key ≡ none
    → 1 ≤ index
    → (index ≤ length t.array) ⊎ (index ≤ max_array)
    → Writes c h t (element index) key value (with_array t h (array_set t.array index value))
unfolding get_string_key misc_hash_get
set_element_lem c h t key value index v ok e low room =
    let (ys, eq, elements) = array_set_lem t.array index value low room in
    (
      record t { array = ys },
      h,
      rw eq,
      plain-Wrote c h t (element index) key value ys t.misc_hash v ok e (reads ys elements),
    )
  where
    reads :
        (ys : List Value)
        → ((i : ℕ)
            → 1 ≤ i
            → or_nil (get_elem? ys (i - 1))
              ≡ (if i == index then value else or_nil (get_elem? t.array (i - 1))))
        → (p : Place)
        → read h (record t { array = ys }) p
          ≡ (if same_place p (element index) then some value else read h t p)
    reads ys elements (named k) = refl
    reads ys elements (other k) = refl
    reads ys elements (element zero) = ground arith
    reads ys elements (element (suc i)) =
        let same : suc i - 1 ≡ i = omega arith in
        let here =
          subst
            (λ j.
              or_nil (get_elem? ys j)
              ≡ (if suc i == index then value else or_nil (get_elem? t.array j)))
            same (elements (suc i) (omega arith)) in
        ap some here ∙ some-if (suc i == index) value (or_nil (get_elem? t.array i))

misc_hash_set_lem :
    (c : Context) (h : Heap) (t : TableState) (key value : Value)
    → Valid h
    → TableOk h t
    → Plain value
    → get_string key ≡ none
    → Wrote c h t (other key) key value (misc_hash_set key value t) h
unfolding misc_hash_set get_string_key misc_hash_get
misc_hash_set_lem c h t key value v ok plain e =
    plain-Wrote c h t (other key) key value t.array _ v ok e reads
  where
    reads :
        (p : Place)
        → read h (misc_hash_set key value t) p
          ≡ (if same_place p (other key) then some value else read h t p)
    reads (named k) = refl
    reads (element zero) = refl
    reads (element (suc i)) = refl
    reads (other k) = ground (arith, plain, misc_entry-or_nil (t.misc_hash key) value plain)

-- From a state in order, with a key that is not nil and an element that fits into a `Vec`, `raw_set`
-- ends without a panic and leaves a state in order: the place of `key` has the new value, every
-- other place the old one, and one bit of the cache of the table follows the write.
pub raw_set_lem :
    (c : Context) (h : Heap) (t : TableState) (key value : Value)
    → Valid h
    → TableOk h t
    → Plain value
    → is_nil key ≡ false
    → Fits c t key
    → Writes c h t (place c key) key value (raw_set c key value t h)
unfolding raw_set place
raw_set_lem c h t key value v ok plain nn fits = elim (Option-cases (get_string key)) [
  | inr (s, e) ↦
      let named_key : of_string s ≡ key = sym (get_kind-some ValueKind.string key s e) in
      subst (λ k. Writes c h t (place c k) k value (raw_set c k value t h)) named_key (named_lem s)
  | inl e ↦ elim (Option-cases (array_index c key)) [
    | inr (i, f) ↦
        rw (raw_set, place, e, f)
          (set_element_lem c h t key value i v ok e (array_index_low c key i f) (fits i f))
    | inl f ↦
        rw (raw_set, place, e, f, nn) (_, h, refl, misc_hash_set_lem c h t key value v ok plain e)
  ]
]
  where
    named_lem :
        (s : ℕ)
        → Writes c h t
            (place c (of_string s))
            (of_string s)
            value
            (raw_set c (of_string s) value t h)
    named_lem s =
        let is_string = get_kind-of_kind ValueKind.string s in
        let (t', h', eq, st) = set_string_key_lem c h t s value v ok plain in
        rw (raw_set, place, is_string) (t', _, eq, Stored-Wrote c h t s value t' h' st)

-- From a state in order, with a key that is not nil and an element that fits into a `Vec`, `raw_set`
-- ends without a panic. Then `raw_get` reads `value` at the keys that lead to the place of `key`, and
-- at every other key what it read before.
pub raw_get-raw_set :
    (c : Context) (h : Heap) (t : TableState) (key value : Value)
    → Valid h
    → TableOk h t
    → Plain value
    → is_nil key ≡ false
    → Fits c t key
    → (t' : TableState) × (h' : Heap) × (raw_set c key value t h ≡ some (t', h'))
      × ((j : Value)
          → raw_get c h' t' j
            ≡ (if same_place (place c j) (place c key) then some value else raw_get c h t j))
raw_get-raw_set c h t key value v ok plain nn fits =
    let (t', h', eq, wr) = raw_set_lem c h t key value v ok plain nn fits in
    (
      t',
      h',
      eq,
      λ j.
          raw_get-read c h' t' j
          ∙ wr.reads (place c j)
          ∙ ap (λ o. if same_place (place c j) (place c key) then some value else o)
              (sym (raw_get-read c h t j)),
    )
