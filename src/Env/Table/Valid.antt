-- ===== src/Env/Table/Valid.antt =====
-- The state of a table between two operations.
use tcvm.Common.{ℕ, ◌<◌, ◌≡◌, true, false, Option, none, some, length, get_elem?}
use tcvm.Env.Value.{Value, nil, is_nil}
use tcvm.Env.Shape.{Heap}
use tcvm.Env.Table.{TableState}

-- `Value::nil()` is the only value of its kind.
abbrev pub Plain : Value → Type 0
Plain v = is_nil v ≡ true → v ≡ nil

pub record TableOk (h : Heap) (t : TableState) : Type 0 where
  pub shape_in : t.shape < h.shape_count
  pub fast : t.dict ≡ none → (h.shapes t.shape).is_dict ≡ false
  pub counted : t.dict ≡ none → length t.properties ≡ (h.shapes t.shape).slot_count
  pub slow : (m : ℕ → Option Value) → t.dict ≡ some m → (h.shapes t.shape).is_dict ≡ true
  pub plain : (i : ℕ) (v : Value) → get_elem? t.properties i ≡ some v → Plain v
