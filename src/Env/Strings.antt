-- ===== src/Env/Strings.antt =====
-- src/env/string.rs, src/env/symbols.rs and the table of metamethods in src/env/mod.rs.
pub mod Laws
pub mod Symbols
use tcvm.Common.{ℕ, suc, ◌≡◌, Bool, true, false, not, ◌&&◌, Option, none, some, List, [], ◌∷◌}
use tcvm.Common.{◌==◌, if◌then◌else◌}
use tcvm.Env.{put}
use tcvm.Pattern.{Bytes}
use tcvm.Pattern.Matcher.{bytes_eq}

abbrev name : Bytes → Bytes
name rest = b'_' ∷ b'_' ∷ rest

-- `METAMETHOD_TABLE`: the names with their bits.
abbrev pub metamethod_table : List (Bytes × ℕ)
metamethod_table =
    (name (b'i' ∷ b'n' ∷ b'd' ∷ b'e' ∷ b'x' ∷ []), 0)
    ∷ (name (b'n' ∷ b'e' ∷ b'w' ∷ b'i' ∷ b'n' ∷ b'd' ∷ b'e' ∷ b'x' ∷ []), 1)
    ∷ (name (b'a' ∷ b'd' ∷ b'd' ∷ []), 2)
    ∷ (name (b's' ∷ b'u' ∷ b'b' ∷ []), 3)
    ∷ (name (b'm' ∷ b'u' ∷ b'l' ∷ []), 4)
    ∷ (name (b'd' ∷ b'i' ∷ b'v' ∷ []), 5)
    ∷ (name (b'm' ∷ b'o' ∷ b'd' ∷ []), 6)
    ∷ (name (b'p' ∷ b'o' ∷ b'w' ∷ []), 7)
    ∷ (name (b'i' ∷ b'd' ∷ b'i' ∷ b'v' ∷ []), 8)
    ∷ (name (b'b' ∷ b'a' ∷ b'n' ∷ b'd' ∷ []), 9)
    ∷ (name (b'b' ∷ b'o' ∷ b'r' ∷ []), 10)
    ∷ (name (b'b' ∷ b'x' ∷ b'o' ∷ b'r' ∷ []), 11)
    ∷ (name (b'b' ∷ b'n' ∷ b'o' ∷ b't' ∷ []), 12)
    ∷ (name (b's' ∷ b'h' ∷ b'l' ∷ []), 13)
    ∷ (name (b's' ∷ b'h' ∷ b'r' ∷ []), 14)
    ∷ (name (b'u' ∷ b'n' ∷ b'm' ∷ []), 15)
    ∷ (name (b'e' ∷ b'q' ∷ []), 16)
    ∷ (name (b'l' ∷ b't' ∷ []), 17)
    ∷ (name (b'l' ∷ b'e' ∷ []), 18)
    ∷ (name (b'c' ∷ b'o' ∷ b'n' ∷ b'c' ∷ b'a' ∷ b't' ∷ []), 19)
    ∷ (name (b'l' ∷ b'e' ∷ b'n' ∷ []), 20)
    ∷ (name (b'c' ∷ b'a' ∷ b'l' ∷ b'l' ∷ []), 21)
    ∷ (name (b't' ∷ b'o' ∷ b's' ∷ b't' ∷ b'r' ∷ b'i' ∷ b'n' ∷ b'g' ∷ []), 22)
    ∷ []

unfoldable pub starts_with_underscores : Bytes → Bool
starts_with_underscores [] = false
starts_with_underscores (a ∷ []) = false
starts_with_underscores (a ∷ b ∷ rest) = (a == b'_') && (b == b'_')

-- The loop of `metamethod_bit_of_bytes`.
unfoldable pub find_bit : List (Bytes × ℕ) → Bytes → Option ℕ
unfolding bytes_eq
find_bit [] text = none
find_bit ((n, bit) ∷ rows) text = if bytes_eq n text then some bit else find_bit rows text

unfoldable pub metamethod_bit_of_bytes : Bytes → Option ℕ
unfolding find_bit starts_with_underscores
metamethod_bit_of_bytes text =
    if not (starts_with_underscores text) then none else find_bit metamethod_table text

-- The strings that were allocated, and the table that finds one by its contents.
pub record Interner : Type 0 where
  pub count : ℕ
  pub bytes : ℕ → Bytes
  pub table : Bytes → Option ℕ

unfoldable pub empty : Interner
empty = record { count = 0; bytes = λ s. []; table = λ text. none }

-- `Interner::intern`
unfoldable pub intern : Bytes → Interner → ℕ × Interner
unfolding put bytes_eq
intern text i = elim (i.table text) [
  | some s ↦ (s, i)
  | none ↦ (
    i.count,
    record {
      count = suc i.count;
      bytes = put i.bytes i.count text;
      table = λ other. if bytes_eq other text then some i.count else i.table other;
    },
  )
]

-- `Symbols::intern_all`, and the pairs that `Symbols::metamethods` makes of it.
unfoldable pub intern_all : List (Bytes × ℕ) → Interner → List (ℕ × ℕ) × Interner
unfolding intern
intern_all [] i = ([], i)
intern_all ((n, bit) ∷ rows) i =
    let (s, i') = intern n i in let (rest, i'') = intern_all rows i' in ((s, bit) ∷ rest, i'')
