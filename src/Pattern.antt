-- ===== src/Pattern.antt =====
-- src/builtin/string/pattern.rs: the matcher of Lua patterns. Subject and pattern are lists of
-- bytes, positions are indices. A read out of bounds, which Rust turns into a panic, is `panic`
-- here; `stuck` belongs to the model alone and says that a loop ran out of fuel.
pub mod Class
pub mod Search
pub mod Matcher
use tcvm.Common.{ℕ, List}

abbrev pub Bytes : Type 0
Bytes = List ℕ

-- `PatError`
pub data PatError : Type 0 where
  ends_with_percent missing_bracket balance_args missing_frontier_bracket : PatError
  invalid_capture_index : ℕ → PatError
  invalid_pattern_capture unfinished_capture too_many_captures pattern_too_complex : PatError

-- `CapLen`
pub data CapLen : Type 0 where
  unfinished position : CapLen
  len : ℕ → CapLen

pub record Capture : Type 0 where
  pub init : ℕ
  pub kind : CapLen

-- `CapValue`
pub data CapValue : Type 0 where
  str : ℕ → ℕ → CapValue
  pos : ℕ → CapValue

-- The outcome of a step that does not touch the state of the matcher.
pub data Outcome (A : Type 0) : Type 0 where
  ok : A → Outcome A
  err : PatError → Outcome A
  panic stuck : Outcome A

infixl 5 ◌>>=◌
abbrev pub ◌>>=◌ : {A B : Type 0} → Outcome A → (A → Outcome B) → Outcome B
ok a >>= f = f a
err e >>= f = err e
panic >>= f = panic
stuck >>= f = stuck

-- The outcome is a value or an error of the source.
abbrev pub Returns : {A : Type 0} → (A → Type 0) → Outcome A → Type 0
Returns P (ok a) = P a
Returns P (err e) = Unit {0}
Returns P panic = ⊥
Returns P stuck = ⊥
