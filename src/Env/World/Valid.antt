-- ===== src/Env/World/Valid.antt =====
-- The tables and their metatables between two operations.
use tcvm.Common.{ℕ, ◌<◌, ◌≡◌, not, Option, none, some, List, ◌∷◌}
use tcvm.Env.Value.{Value, is_nil}
use tcvm.Env.Strings.{metamethod_bit_of_bytes}
use tcvm.Env.Shape.{Heap}
use tcvm.Env.Shape.Valid.{Valid}
use tcvm.Env.Table.{Context, TableState, get_string_key}
use tcvm.Env.Table.Valid.{TableOk}
use tcvm.Env.World.{World}

-- A symbol with its bit.
pub data Listed (s b : ℕ) : List (ℕ × ℕ) → Type 0 where
  here : {r : ℕ × ℕ} {rest : List (ℕ × ℕ)} → r ≡ (s, b) → Listed s b (r ∷ rest)
  later : {r : ℕ × ℕ} {rest : List (ℕ × ℕ)} → Listed s b rest → Listed s b (r ∷ rest)

-- The names of the metamethods are interned: each has one string, and those are the symbols.
pub record Interned (c : Context) : Type 0 where
  pub one_name :
      (s s' b : ℕ)
      → metamethod_bit_of_bytes (c.bytes s) ≡ some b
      → metamethod_bit_of_bytes (c.bytes s') ≡ some b
      → s ≡ s'
  pub symbol : (s b : ℕ) → metamethod_bit_of_bytes (c.bytes s) ≡ some b → Listed s b c.symbols
  pub named : (s b : ℕ) → Listed s b c.symbols → metamethod_bit_of_bytes (c.bytes s) ≡ some b

-- The shape names the cache of the metatable.
abbrev pub Mirrors : World → Option ℕ → Option ℕ → Type 0
Mirrors w none mt = mt ≡ none
Mirrors w (some m) mt =
    (m < w.table_count) × (cache : ℕ) × ((w.tables m).mt_cache ≡ some cache) × (mt ≡ some cache)

-- The bits of a cache are those of the metamethods that its table has.
abbrev pub Agrees : Context → Heap → TableState → ℕ → Type 0
Agrees c h t cache =
    (s b : ℕ) (v : Value)
    → metamethod_bit_of_bytes (c.bytes s) ≡ some b
    → get_string_key h t s ≡ some v
    → (h.caches cache).bits b ≡ not (is_nil v)

pub record WorldOk (c : Context) (w : World) : Type 0 where
  pub valid : Valid w.heap
  pub tables_ok : (i : ℕ) → i < w.table_count → TableOk w.heap (w.tables i)
  pub mirrored :
      (i : ℕ)
      → i < w.table_count
      → Mirrors w (w.tables i).metatable ((w.heap).shapes ((w.tables i).shape)).mt_cache
  pub allocated :
      (i cache : ℕ)
      → i < w.table_count
      → (w.tables i).mt_cache ≡ some cache
      → cache < (w.heap).cache_count
  pub agree :
      (i cache : ℕ)
      → i < w.table_count
      → (w.tables i).mt_cache ≡ some cache
      → Agrees c w.heap (w.tables i) cache
  pub owned :
      (i j cache : ℕ)
      → i < w.table_count
      → j < w.table_count
      → (w.tables i).mt_cache ≡ some cache
      → (w.tables j).mt_cache ≡ some cache
      → i ≡ j
