-- ===== src/Pattern/Class.antt =====
-- Character classes, sets and the extent of a pattern item: `match_class`,
-- `match_bracket_class`, `classend` and `single_match`.
pub mod Bounds
use tcvm.Common.{ℕ, zero, suc, ◌+◌, ◌-◌, arith, Bool, true, false, not, ◌&&◌, ◌||◌, Option, none}
use tcvm.Common.{some, List, [], ◌∷◌, ltb, leb, ◌==◌, if◌then◌else◌, get_elem?, length}
use tcvm.Pattern.{Bytes, PatError, ends_with_percent, missing_bracket, Outcome, ok, err, panic}
use tcvm.Pattern.{stuck, ◌>>=◌}

-- `bytes[i]`
abbrev pub index : Bytes → ℕ → Outcome ℕ
index bytes i = elim (get_elem? bytes i) [ none ↦ panic | some b ↦ ok b ]

-- `bytes.get(i) == Some(&b)`
abbrev pub has_at : Bytes → ℕ → ℕ → Bool
has_at bytes i b = elim (get_elem? bytes i) [ none ↦ false | some c ↦ c == b ]

abbrev pub between : ℕ → ℕ → ℕ → Bool
between lo hi c = leb lo c && leb c hi

abbrev pub is_lower : ℕ → Bool
is_lower c = between b'a' b'z' c

abbrev pub is_upper : ℕ → Bool
is_upper c = between b'A' b'Z' c

abbrev pub is_digit : ℕ → Bool
is_digit c = between b'0' b'9' c

abbrev pub is_alpha : ℕ → Bool
is_alpha c = is_lower c || is_upper c

abbrev pub is_control : ℕ → Bool
is_control c = ltb c 0x20 || c == 0x7f

abbrev pub is_graphic : ℕ → Bool
is_graphic c = between b'!' b'~' c

abbrev pub is_alnum : ℕ → Bool
is_alnum c = is_alpha c || is_digit c

abbrev pub is_punct : ℕ → Bool
is_punct c = is_graphic c && not (is_alnum c)

abbrev pub is_xdigit : ℕ → Bool
is_xdigit c = is_digit c || between b'a' b'f' c || between b'A' b'F' c

unfoldable pub is_space : ℕ → Bool
is_space c = c == b' ' || between 0x09 0x0d c

abbrev pub to_lower : ℕ → ℕ
to_lower c = if is_upper c then c + 32 else c

-- The class of a lowercase letter; `none` for a byte that names no class.
unfoldable pub class_test : ℕ → ℕ → Option Bool
class_test c letter =
    if letter == b'a'
    then some (is_alpha c)
    else if letter == b'c'
    then some (is_control c)
    else if letter == b'd'
    then some (is_digit c)
    else if letter == b'g'
    then some (is_graphic c)
    else if letter == b'l'
    then some (is_lower c)
    else if letter == b'p'
    then some (is_punct c)
    else if letter == b's'
    then some (is_space c)
    else if letter == b'u'
    then some (is_upper c)
    else if letter == b'w'
    then some (is_alnum c)
    else if letter == b'x'
    then some (is_xdigit c)
    else if letter == b'z'
    then some (c == 0)
    else none

unfoldable pub match_class : ℕ → ℕ → Bool
match_class c cl = elim (class_test c (to_lower cl)) [
  | none ↦ cl == c
  | some res ↦ if is_lower cl then res else not res
]

-- `p < pat.len() && match_class(c, pat[p])`
unfoldable pub class_at : Bytes → ℕ → ℕ → Bool
class_at pat p c = elim (get_elem? pat p) [ none ↦ false | some cl ↦ match_class c cl ]

-- The loop of `match_bracket_class`, at the head of `while (++p < ec)`; the fuel is at least
-- the distance to `ec`.
unfoldable pub bracket_loop : ℕ → ℕ → Bytes → Bool → ℕ → ℕ → Outcome Bool
bracket_loop zero c pat sig p ec = stuck
bracket_loop (suc fuel) c pat sig p ec =
    let p = p + 1 in
    elim (leb ec p) [
      | true ↦ ok (not sig)
      | false ↦ index pat p >>= λ here. elim (here == b'%') [
        | true ↦ if class_at pat (p + 1) c then ok sig else bracket_loop fuel c pat sig (p + 1) ec
        | false ↦ elim (has_at pat (p + 1) b'-' && ltb (p + 2) ec) [
          | true ↦ index pat (p + 2) >>= λ hi.
              if between here hi c then ok sig else bracket_loop fuel c pat sig (p + 2) ec
          | false ↦ if here == c then ok sig else bracket_loop fuel c pat sig p ec
        ]
      ]
    ]

unfoldable pub match_bracket_class : ℕ → Bytes → ℕ → ℕ → Outcome Bool
match_bracket_class c pat p_brk ec =
    if has_at pat (p_brk + 1) b'^'
    then bracket_loop (length pat + 1) c pat false (p_brk + 1) ec
    else bracket_loop (length pat + 1) c pat true p_brk ec

-- The `do … while (*p != ']')` loop of `classend`.
unfoldable pub set_end : ℕ → Bytes → ℕ → Outcome ℕ
set_end zero pat p = stuck
set_end (suc fuel) pat p = elim (get_elem? pat p) [
  | none ↦ err missing_bracket
  | some ch ↦
      let p' = if ch == b'%' && ltb (p + 1) (length pat) then p + 2 else p + 1 in
      let rest = set_end fuel pat p' in if has_at pat p' b']' then ok (p' + 1) else rest
]

unfoldable pub classend : Bytes → ℕ → Outcome ℕ
classend pat p = index pat p >>= λ c.
    if c == b'%'
    then (if leb (length pat) (p + 1) then err ends_with_percent else ok (p + 2))
    else if c == b'['
    then set_end (length pat + 1) pat (if has_at pat (p + 1) b'^' then p + 2 else p + 1)
    else ok (p + 1)

unfoldable pub single_match : Bytes → Bytes → ℕ → ℕ → ℕ → Outcome Bool
single_match src pat s p ep = elim (get_elem? src s) [
  | none ↦ ok false
  | some c ↦ index pat p >>= λ item.
      if item == b'.'
      then ok true
      else if item == b'%'
      then (index pat (p + 1) >>= λ cl. ok (match_class c cl))
      else if item == b'['
      then match_bracket_class c pat p (ep - 1)
      else ok (item == c)
]
