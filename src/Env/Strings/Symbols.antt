-- ===== src/Env/Strings/Symbols.antt =====
-- The symbols of src/env/symbols.rs and the table of metamethods.
use tcvm.Common.{ℕ, zero, suc, ◌+◌, ◌<◌, ◌≡◌, sym, ap, ◌∙◌, subst, arith, inl, inr, some, List}
use tcvm.Common.{[], ◌∷◌, get_elem?, All, Bool-cases, ltb}
use tcvm.Env.Strings.{Interner, empty, intern_all, metamethod_table, find_bit}
use tcvm.Env.Strings.{metamethod_bit_of_bytes}
use tcvm.Env.Strings.Laws.{Sound, Keeps, Names, no_row, row, Names-Keeps, intern_all_lem}
use tcvm.Env.Strings.Laws.{empty-Sound, Sound-injective}
use tcvm.Env.Table.{Context}
use tcvm.Env.World.Valid.{Interned, Listed, here, later}
use tcvm.Pattern.{Bytes}
use tcvm.Pattern.Matcher.{bytes_eq}
use tcvm.Pattern.Search.{bytes_eq_sound}

abbrev Numbered : ℕ → List (Bytes × ℕ) → Type 0
Numbered k [] = Unit
Numbered k ((n, b) ∷ rows) = (b ≡ k) × Numbered (suc k) rows

-- A bit that is found is that of a row of the table.
find_bit_at :
    (k : ℕ) (rows : List (Bytes × ℕ)) (text : Bytes) (b : ℕ)
    → Numbered k rows
    → find_bit rows text ≡ some b
    → (j : ℕ) × (b ≡ k + j) × (get_elem? rows j ≡ some (text, b))
unfolding find_bit
find_bit_at k [] text b num e = absurd (ground (arith, e))
find_bit_at k ((n, bit) ∷ rows) text b (first, num) e = elim (Bool-cases (bytes_eq n text)) [
  | inl same ↦
      let bits : bit ≡ b = ground (arith, e) in
      let texts = bytes_eq_sound n text same in (0, omega arith, ap some (λ i. (texts i, bits i)))
  | inr ne ↦
      let (j, eq, at) = find_bit_at (suc k) rows text b num (ground (arith, e)) in
      (suc j, omega (arith, eq), at)
]

table-Numbered : Numbered 0 metamethod_table
table-Numbered = ground arith

-- A row of the table is found by its name.
abbrev FindsIt : Bytes × ℕ → Type 0
FindsIt (n, b) = metamethod_bit_of_bytes n ≡ some b

table-FindsIt : All FindsIt metamethod_table
unfolding metamethod_bit_of_bytes
table-FindsIt = ground arith

All-get_elem? :
    (P : Bytes × ℕ → Type 0) (rows : List (Bytes × ℕ)) (j : ℕ) (r : Bytes × ℕ)
    → All P rows
    → get_elem? rows j ≡ some r
    → P r
All-get_elem? P [] j r all e = absurd (ground (arith, e))
All-get_elem? P (x ∷ rows) zero r (p, all) e = subst P (ground (arith, e)) p
All-get_elem? P (x ∷ rows) (suc j) r (p, all) e = All-get_elem? P rows j r all e

bit_row :
    (text : Bytes) (b : ℕ)
    → metamethod_bit_of_bytes text ≡ some b
    → get_elem? metamethod_table b ≡ some (text, b)
unfolding metamethod_bit_of_bytes
bit_row text b e =
    let (j, eq, at) = find_bit_at 0 metamethod_table text b table-Numbered (ground (arith, e)) in
    let same : j ≡ b = omega (arith, eq) in
    subst (λ x. get_elem? metamethod_table x ≡ some (text, b)) same at

Names-symbol :
    {i : Interner} {rows : List (Bytes × ℕ)} {syms : List (ℕ × ℕ)} (j : ℕ) (text : Bytes) (b : ℕ)
    → Names i rows syms
    → get_elem? rows j ≡ some (text, b)
    → (s : ℕ) × Listed s b syms × (s < i.count) × (i.bytes s ≡ text)
Names-symbol j text b no_row e = absurd (ground (arith, e))
Names-symbol zero text b (row {n = n} {s = s} {b = b'} in_i eq names) e =
    let texts : n ≡ text = ground (arith, e) in
    let bits : b' ≡ b = ground (arith, e) in (s, here (ap (λ x. (s, x)) bits), in_i, eq ∙ texts)
Names-symbol (suc j) text b (row in_i eq names) e =
    let (s, l, in_i', eq') = Names-symbol j text b names e in (s, later l, in_i', eq')

Names-row :
    {i : Interner} {rows : List (Bytes × ℕ)} {syms : List (ℕ × ℕ)} (s b : ℕ)
    → Names i rows syms
    → Listed s b syms
    → (j : ℕ) × (get_elem? rows j ≡ some (i.bytes s, b))
Names-row s b no_row l = elim l [ ]
Names-row {i = i} s b (row in_i eq names) (here e) =
    (0, ap some (λ k. ((sym eq ∙ ap (λ r. i.bytes (r.0)) e) k, (e k).1)))
Names-row s b (row in_i eq names) (later l) = let (j, at) = Names-row s b names l in (suc j, at)

no_bit : (b : ℕ) → ¬ (metamethod_bit_of_bytes [] ≡ some b)
unfolding metamethod_bit_of_bytes
no_bit b e = ground (arith, e)

-- The metamethod names that were interned first stay the only strings with those contents.
pub Interned-later :
    (c : Context) (i i' : Interner) (syms : List (ℕ × ℕ))
    → Sound i'
    → Keeps i i'
    → Names i metamethod_table syms
    → c.bytes ≡ i'.bytes
    → c.symbols ≡ syms
    → Interned c
Interned-later c i i' syms sound keeps names eb es = record {
  one_name = λ s s' b e e'.
      let same : c.bytes s ≡ c.bytes s' =
        ground (arith, bit_row (c.bytes s) b e, bit_row (c.bytes s') b e') in
      Sound-injective i' s s' sound (in_count s b e) (in_count s' b e')
        (ap (λ f. f s) (sym eb) ∙ same ∙ ap (λ f. f s') eb);
  symbol = λ s b e.
      let (s1, l, in_i, eq) = Names-symbol b (c.bytes s) b names' (bit_row (c.bytes s) b e) in
      let same : s1 ≡ s =
        Sound-injective i' s1 s sound in_i (in_count s b e) (eq ∙ ap (λ f. f s) eb) in
      rw es (subst (λ x. Listed x b syms) same l);
  named = λ s b l.
      let (j, at) = Names-row s b names' (subst (Listed s b) es l) in
      ap (λ f. metamethod_bit_of_bytes (f s)) eb
      ∙ All-get_elem? FindsIt metamethod_table j (i'.bytes s, b) table-FindsIt at;
}
  where
    names' : Names i' metamethod_table syms
    names' = Names-Keeps keeps names

    in_count : (s b : ℕ) → metamethod_bit_of_bytes (c.bytes s) ≡ some b → s < i'.count
    in_count s b e = elim (Bool-cases (ltb s i'.count)) [
      | inl t ↦ ground arith
      | inr f ↦
          let blank : c.bytes s ≡ [] = ap (λ g. g s) eb ∙ sound.blank s (ground arith) in
          absurd (no_bit b (sym (ap metamethod_bit_of_bytes blank) ∙ e))
    ]

-- `Lua::new`: the symbols that `Symbols::intern_all` makes are right in every later state.
pub intern_all-Interned :
    (c : Context) (i' : Interner)
    → Sound i'
    → Keeps ((intern_all metamethod_table empty).1) i'
    → c.bytes ≡ i'.bytes
    → c.symbols ≡ (intern_all metamethod_table empty).0
    → Interned c
intern_all-Interned c i' sound keeps eb es =
    let (s, k, names) = intern_all_lem metamethod_table empty empty-Sound in
    Interned-later c _ i' _ sound keeps names eb es
