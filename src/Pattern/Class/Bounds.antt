-- ===== src/Pattern/Class/Bounds.antt =====
-- A pattern item is read within the pattern.
use tcvm.Pattern.Class.{bracket_loop, classend, has_at, index, match_bracket_class, set_end}
use tcvm.Pattern.Class.{single_match}
use tcvm.Common.{ℕ, zero, suc, ◌+◌, ◌-◌, ◌≤◌, ◌<◌, ◌≡◌, arith, inl, inr, Bool, true, false, some}
use tcvm.Common.{ltb, leb, ◌==◌, get_elem?, get_elem?-some, get_elem?_bound, length, Option-cases}
use tcvm.Common.{Bool-cases}
use tcvm.Pattern.{Bytes, ok, Returns}

pub has_at_bound : (pat : Bytes) (p b : ℕ) → has_at pat p b ≡ true → p < length pat
has_at_bound pat p b h = elim (Option-cases (get_elem? pat p)) [
  | inl out ↦ absurd (ground (arith, out))
  | inr (c, here) ↦ get_elem?_bound pat p c here
]

set_end_bounds :
    (fuel : ℕ) (pat : Bytes) (p : ℕ)
    → length pat < fuel + p
    → 1 ≤ fuel
    → Returns (λ ep. (p + 2 ≤ ep) × (ep ≤ length pat)) (set_end fuel pat p)
unfolding set_end
set_end_bounds zero pat p enough some_fuel = absurd (omega arith)
set_end_bounds (suc fuel) pat p enough some_fuel = elim (Option-cases (get_elem? pat p)) [
  | inl out ↦ ground (arith, out)
  | inr (ch, here) ↦ ground (
    arith,
    here,
    get_elem?_bound pat p ch here,
    has_at_bound pat (p + 1) b']',
    has_at_bound pat (p + 2) b']',
    set_end_bounds fuel pat (p + 1),
    set_end_bounds fuel pat (p + 2),
  )
]

index_bounds :
    (pat : Bytes) (p : ℕ)
    → p < length pat
    → (b : ℕ) × (index pat p ≡ ok b) × (get_elem? pat p ≡ some b)
index_bounds pat p h = let (b, here) = get_elem?-some pat p h in (b, ground (arith, here), here)

-- The end of an item that starts within the pattern lies behind the start, and within the pattern;
-- an escape has its second byte, a set its closing bracket.
pub classend_bounds :
    (pat : Bytes) (p : ℕ)
    → p < length pat
    → Returns
        (λ ep. (p < ep) × (ep ≤ length pat) × (has_at pat p b'%' ≡ true → ep ≡ p + 2))
        (classend pat p)
unfolding classend
classend_bounds pat p h =
    let (b, _, here) = index_bounds pat p h in
    ground (
      arith,
      here,
      set_end_bounds (length pat + 1) pat (p + 1),
      set_end_bounds (length pat + 1) pat (p + 2),
    )

bracket_loop_total :
    (fuel c : ℕ) (pat : Bytes) (sig : Bool) (p ec : ℕ)
    → 1 ≤ fuel
    → ec < fuel + p
    → ec < length pat
    → Returns (λ b. Unit) (bracket_loop fuel c pat sig p ec)
unfolding bracket_loop
bracket_loop_total zero c pat sig p ec some_fuel enough low = absurd (omega arith)
bracket_loop_total (suc fuel) c pat sig p ec some_fuel enough low =
    elim (Bool-cases (leb ec (p + 1))) [
      | inl done ↦ ground (arith, done)
      | inr more ↦
          let (b, _, here) = index_bounds pat (p + 1) (ground (arith, more)) in
          elim (Bool-cases (ltb (p + 3) ec)) [
            | inl wide ↦
                let (hi, _, there) = index_bounds pat (p + 3) (ground (arith, wide)) in
                ground (
                  arith,
                  more,
                  here,
                  there,
                  bracket_loop_total fuel c pat sig (p + 1) ec,
                  bracket_loop_total fuel c pat sig (p + 2) ec,
                  bracket_loop_total fuel c pat sig (p + 3) ec,
                )
            | inr narrow ↦ ground (
              arith,
              more,
              here,
              narrow,
              bracket_loop_total fuel c pat sig (p + 1) ec,
              bracket_loop_total fuel c pat sig (p + 2) ec,
            )
          ]
    ]

-- A set that closes within the pattern is read within it.
pub match_bracket_class_total :
    (c : ℕ) (pat : Bytes) (p_brk ec : ℕ)
    → ec < length pat
    → Returns (λ b. Unit) (match_bracket_class c pat p_brk ec)
unfolding match_bracket_class
match_bracket_class_total c pat p_brk ec h = ground (
  arith,
  bracket_loop_total (length pat + 1) c pat false (p_brk + 1) ec,
  bracket_loop_total (length pat + 1) c pat true p_brk ec,
)

-- The test of an item at its own end reads within the pattern, and holds within the subject only.
pub single_match_bounds :
    (src pat : Bytes) (s p ep : ℕ)
    → p < ep
    → ep ≤ length pat
    → (has_at pat p b'%' ≡ true → ep ≡ p + 2)
    → Returns (λ b. b ≡ true → s < length src) (single_match src pat s p ep)
unfolding single_match
single_match_bounds src pat s p ep start end escape = elim (Option-cases (get_elem? src s)) [
  | inl out ↦ ground (arith, out)
  | inr (c, found) ↦
      let (b, _, here) = index_bounds pat p (omega arith) in
      elim (Bool-cases (b == b'%')) [
        | inl esc ↦
            let (cl, _, there) = index_bounds pat (p + 1) (ground (arith, here, esc)) in
            ground (arith, found, here, there, esc, get_elem?_bound src s c found)
        | inr plain ↦ ground (
          arith,
          found,
          here,
          plain,
          get_elem?_bound src s c found,
          match_bracket_class_total c pat p (ep - 1),
        )
      ]
]
