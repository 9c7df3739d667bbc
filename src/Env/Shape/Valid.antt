-- ===== src/Env/Shape/Valid.antt =====
-- What a shape promises about its table, and the state of the shapes between two operations.
use tcvm.Common.{ℕ, ◌+◌, ◌≤◌, ◌<◌, ◌≡◌, Bool, true, false, Option, none, some, List, [], ◌∷◌}
use tcvm.Common.{◌++◌, length}
use tcvm.Env.Shape.{Descriptor, ShapeData, Heap, max_properties_fast}
use tcvm.Env.Shape.Slots.{Numbered, Distinct}

-- The part of a shape that does not change once it is allocated.
pub record Layout : Type 0 where
  pub descriptors : List Descriptor
  pub slot_count : ℕ
  pub mt_cache : Option ℕ
  pub is_dict : Bool

abbrev pub layout : ShapeData → Layout
layout d = record {
  descriptors = d.descriptors;
  slot_count = d.slot_count;
  mt_cache = d.mt_cache;
  is_dict = d.is_dict;
}

-- `l` with one more key, and with another metatable; and the shape of dictionaries.
abbrev pub grown : ℕ → Layout → Layout
grown key l = record {
  descriptors = l.descriptors ++ (record { key = key; slot = l.slot_count } ∷ []);
  slot_count = l.slot_count + 1;
  mt_cache = l.mt_cache;
  is_dict = false;
}

abbrev pub with_mt : Option ℕ → Layout → Layout
with_mt mt l = record {
  descriptors = l.descriptors;
  slot_count = l.slot_count;
  mt_cache = mt;
  is_dict = false;
}

abbrev pub dictionary : Option ℕ → Layout
dictionary mt = record { descriptors = []; slot_count = 0; mt_cache = mt; is_dict = true }

pub record Ok (l : Layout) : Type 0 where
  pub counted : length l.descriptors ≡ l.slot_count
  pub numbered : Numbered 0 l.descriptors
  pub distinct : Distinct l.descriptors
  pub bounded : l.slot_count ≤ max_properties_fast
  pub dict_empty : l.is_dict ≡ true → l ≡ dictionary l.mt_cache

abbrev pub Has : Heap → ℕ → Layout → Type 0
Has h s l = (s < h.shape_count) × (layout (h.shapes s) ≡ l)

-- A shape whose edges lead where they should.
pub record Good (h : Heap) (d : ShapeData) : Type 0 where
  pub ok : Ok (layout d)
  pub prop_edges : (k c : ℕ) → d.transitions.by_prop k ≡ some c → Has h c (grown k (layout d))
  pub mt_edges :
      (mt : Option ℕ) (c : ℕ) → d.transitions.by_mt mt ≡ some c → Has h c (with_mt mt (layout d))

pub record Valid (h : Heap) : Type 0 where
  pub shapes_ok : (s : ℕ) → s < h.shape_count → Good h (h.shapes s)
  pub sentinels : (c s : ℕ) → (h.caches c).dict_sentinel ≡ some s → Has h s (dictionary (some c))
  pub empty_ok :
      Has h h.empty_shape
        (record { descriptors = []; slot_count = 0; mt_cache = none; is_dict = false })
  pub empty_dict_ok : Has h h.empty_dict_sentinel (dictionary none)

-- A later state keeps the shapes, and `Extends` also the bits of the caches.
pub record Grows (h h' : Heap) : Type 0 where
  pub count : h.shape_count ≤ h'.shape_count
  pub kept : (s : ℕ) → s < h.shape_count → layout (h'.shapes s) ≡ layout (h.shapes s)
  pub caches_count : h.cache_count ≤ h'.cache_count

pub record Extends (h h' : Heap) : Type 0 where
  pub count : h.shape_count ≤ h'.shape_count
  pub kept : (s : ℕ) → s < h.shape_count → layout (h'.shapes s) ≡ layout (h.shapes s)
  pub bits_kept : (c bit : ℕ) → (h'.caches c).bits bit ≡ (h.caches c).bits bit
  pub caches_kept : h'.cache_count ≡ h.cache_count

-- An operation reached a shape of layout `l` from the state `h`.
abbrev pub Arrives : Heap → Layout → ℕ × Heap → Type 0
Arrives h l (s, h') = Valid h' × Extends h h' × Has h' s l
