-- ===== src/Env/Shape.antt =====
-- src/env/shape/mod.rs: hidden classes. A shape lists the string keys of a table with their slots
-- and names the cache of its metatable; the edges between shapes are weak.
pub mod Slots
pub mod Valid
pub mod Growth
pub mod Edges
pub mod Transitions
use tcvm.Common.{ℕ, suc, ◌+◌, Bool, true, false, Option, none, some, List, [], ◌∷◌, ◌++◌, ◌==◌}
use tcvm.Common.{if◌then◌else◌}
use tcvm.Env.{put}
use tcvm.Env.Value.{Value, is_nil}

pub record Descriptor : Type 0 where
  pub key : ℕ
  pub slot : ℕ

-- `MetamethodBits`: which of the bits are set.
abbrev pub MetamethodBits : Type 0
MetamethodBits = ℕ → Bool

abbrev pub max_properties_fast : ℕ
max_properties_fast = 64

-- The child behind the edge for a key, and behind the edge for a metatable.
pub record TransitionTable : Type 0 where
  pub by_prop : ℕ → Option ℕ
  pub by_mt : Option ℕ → Option ℕ

pub record ShapeData : Type 0 where
  pub parent : Option ℕ
  pub last_key : Option ℕ
  pub slot_count : ℕ
  pub mt_cache : Option ℕ
  pub is_dict : Bool
  pub transitions : TransitionTable
  pub descriptors : List Descriptor

pub record MtCacheData : Type 0 where
  pub bits : MetamethodBits
  pub dict_sentinel : Option ℕ

-- The shapes and the caches that were allocated, the shapes that the collector has freed, and the
-- two shapes that `State` holds.
pub record Heap : Type 0 where
  pub shape_count : ℕ
  pub shapes : ℕ → ShapeData
  pub cache_count : ℕ
  pub caches : ℕ → MtCacheData
  pub freed : ℕ → Bool
  pub empty_shape : ℕ
  pub empty_dict_sentinel : ℕ

unfoldable pub set_bit : ℕ → MetamethodBits → MetamethodBits
unfolding put
set_bit bit bits = put bits bit true

unfoldable pub clear_bit : ℕ → MetamethodBits → MetamethodBits
unfolding put
clear_bit bit bits = put bits bit false

unfoldable pub update : ℕ → Value → MetamethodBits → MetamethodBits
unfolding set_bit clear_bit is_nil
update bit value bits = if is_nil value then clear_bit bit bits else set_bit bit bits

abbrev pub no_transitions : TransitionTable
no_transitions = record { by_prop = λ k. none; by_mt = λ m. none }

unfoldable pub root_empty : ShapeData
root_empty = record {
  parent = none;
  last_key = none;
  slot_count = 0;
  mt_cache = none;
  is_dict = false;
  transitions = no_transitions;
  descriptors = [];
}

unfoldable pub dict_sentinel_of : Option ℕ → ShapeData
dict_sentinel_of mt = record {
  parent = none;
  last_key = none;
  slot_count = 0;
  mt_cache = mt;
  is_dict = true;
  transitions = no_transitions;
  descriptors = [];
}

-- `Gc::new` of a shape, of a cache
unfoldable pub alloc_shape : ShapeData → Heap → ℕ × Heap
unfolding put
alloc_shape d h = (
  h.shape_count,
  record h {
    shape_count = suc h.shape_count;
    shapes = put h.shapes h.shape_count d;
    freed = put h.freed h.shape_count false;
  },
)

-- `MtCache::new`
unfoldable pub new_cache : MetamethodBits → Heap → ℕ × Heap
unfolding put
new_cache bits h = (
  h.cache_count,
  record h {
    cache_count = suc h.cache_count;
    caches = put h.caches h.cache_count (record { bits = bits; dict_sentinel = none });
  },
)

unfoldable pub set_sentinel : ℕ → ℕ × Heap → ℕ × Heap
unfolding put
set_sentinel c (s, h) =
    (s, record h { caches = put h.caches c (record (h.caches c) { dict_sentinel = some s }) })

-- `MtCache::ensure_dict_sentinel`
unfoldable pub ensure_dict_sentinel : ℕ → Heap → ℕ × Heap
unfolding set_sentinel alloc_shape dict_sentinel_of
ensure_dict_sentinel c h = elim ((h.caches c).dict_sentinel) [
  | some s ↦ (s, h)
  | none ↦ set_sentinel c (alloc_shape (dict_sentinel_of (some c)) h)
]

-- The loop of `Shape::find_slot` over the descriptors.
unfoldable pub find_slot : List Descriptor → ℕ → Option ℕ
find_slot [] key = none
find_slot (d ∷ ds) key = if d.key == key then some d.slot else find_slot ds key

-- `Shape::has_mm`
unfoldable pub has_mm : Heap → ℕ → ℕ → Bool
has_mm h s bit = elim ((h.shapes s).mt_cache) [ none ↦ false | some c ↦ (h.caches c).bits bit ]

-- `edge.child.upgrade(mc)` of the edge that was found.
unfoldable pub upgrade : Heap → Option ℕ → Option ℕ
upgrade h none = none
upgrade h (some child) = if h.freed child then none else some child

-- The writes of an edge to the transition table of `parent`.
unfoldable pub put_prop : ℕ → ℕ → ℕ × Heap → ℕ × Heap
unfolding put
put_prop parent key (child, h) =
    let d = h.shapes parent in
    (
      child,
      record h {
        shapes = put h.shapes parent (record d {
          transitions = record d.transitions {
            by_prop = put d.transitions.by_prop key (some child);
          };
        });
      },
    )

unfoldable pub mt_edge_eq : Option ℕ → Option ℕ → Bool
mt_edge_eq none none = true
mt_edge_eq (some x) (some y) = x == y
mt_edge_eq none (some y) = false
mt_edge_eq (some x) none = false

unfoldable pub put_mt : ℕ → Option ℕ → ℕ × Heap → ℕ × Heap
unfolding put mt_edge_eq
put_mt parent mt (child, h) =
    let d = h.shapes parent in
    let edges = d.transitions.by_mt in
    (
      child,
      record h {
        shapes = put h.shapes parent (record d {
          transitions = record d.transitions {
            by_mt = λ m. if mt_edge_eq m mt then some child else edges m;
          };
        });
      },
    )

-- The shape that `transition_add_prop` allocates below `parent`.
unfoldable pub prop_child : Heap → ℕ → ℕ → ShapeData
prop_child h parent key =
    let d = h.shapes parent in
    record {
      parent = some parent;
      last_key = some key;
      slot_count = d.slot_count + 1;
      mt_cache = d.mt_cache;
      is_dict = false;
      transitions = no_transitions;
      descriptors = d.descriptors ++ (record { key = key; slot = d.slot_count } ∷ []);
    }

unfoldable pub transition_add_prop : ℕ → ℕ → Heap → ℕ × Heap
unfolding upgrade put_prop alloc_shape prop_child
transition_add_prop parent key h = elim (upgrade h ((h.shapes parent).transitions.by_prop key)) [
  | some child ↦ (child, h)
  | none ↦ put_prop parent key (alloc_shape (prop_child h parent key) h)
]

unfoldable pub mt_sibling : Heap → ℕ → Option ℕ → ShapeData
mt_sibling h parent mt =
    let d = h.shapes parent in
    record {
      parent = some parent;
      last_key = none;
      slot_count = d.slot_count;
      mt_cache = mt;
      is_dict = false;
      transitions = no_transitions;
      descriptors = d.descriptors;
    }

abbrev pub sentinel_for : Option ℕ → Heap → ℕ × Heap
sentinel_for none h = (h.empty_dict_sentinel, h)
sentinel_for (some c) h = ensure_dict_sentinel c h

unfoldable pub transition_set_metatable : ℕ → Option ℕ → Heap → ℕ × Heap
unfolding upgrade put_mt alloc_shape mt_sibling
transition_set_metatable parent mt h =
    if (h.shapes parent).is_dict
    then sentinel_for mt h
    else elim (upgrade h ((h.shapes parent).transitions.by_mt mt)) [
      | some child ↦ (child, h)
      | none ↦ put_mt parent mt (alloc_shape (mt_sibling h parent mt) h)
    ]

-- The shapes of `Lua::new`, and no cache.
unfoldable pub initial : Heap
unfolding root_empty dict_sentinel_of put
initial = record {
  shape_count = 2;
  shapes = put (λ s. root_empty) 1 (dict_sentinel_of none);
  cache_count = 0;
  caches = λ c. record { bits = λ bit. false; dict_sentinel = none };
  freed = λ s. false;
  empty_shape = 0;
  empty_dict_sentinel = 1;
}
