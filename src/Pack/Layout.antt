-- ===== src/Pack/Layout.antt =====
-- `get_option` and `get_details` of src/builtin/string/pack.rs.
use tcvm.Common.{ℕ, suc, ◌+◌, ◌-◌, ◌*◌, ◌/◌, ◌≤◌, ◌<◌, ◌≡◌, refl, arith, inl, inr, Bool, true}
use tcvm.Common.{false, ◌||◌, ◌&&◌, Option, none, some, [], ◌∷◌, length, ◌==◌, leb, if◌then◌else◌}
use tcvm.Common.{Bool-cases}
use tcvm.Pattern.{Bytes}
use tcvm.Pack.Padding.{Aligned, ntoalign-Aligned, ntoalign-ne-panic}
use tcvm.Pack.{KOption, is_char, ntoalign, Packed, ok, err, panic, Header, digits, is_digit}
use tcvm.Pack.{max_size, get_num, within_limit, get_num_limit, sized, aligned, char_option}
use tcvm.Pack.{Chosen, special_option, fixed_option, choose, get_option, Details, padded}
use tcvm.Pack.{borrowed, detailed, get_details, and_then, int, char, str, nop, float, zstr}
use tcvm.Pack.{padding, padd_align, missing_size}

-- An option leaves a valid header and takes at least a byte of the format.
pub record Took (len : ℕ) (h : Header) (rest : Bytes) : Type 0 where
  pub align_low : 1 ≤ h.maxalign
  pub align_high : h.maxalign ≤ 16
  pub shorter : length rest < len

abbrev TookOption : ℕ → Packed Chosen → Type 0
TookOption len (ok (k, size, h, rest)) = Took len h rest
TookOption len (err e) = Unit
TookOption len panic = len ≡ 0

abbrev Numbered : ℕ → Packed (ℕ × Bytes) → Type 0
Numbered len (ok (sz, rest)) = (1 ≤ sz) × (sz ≤ 16) × (length rest ≤ len)
Numbered len (err e) = Unit
Numbered len panic = len ≡ suc len

digits_le : (fmt : Bytes) (a : ℕ) → length ((digits a fmt).1) ≤ length fmt
unfolding digits
digits_le [] a = omega arith
digits_le (b ∷ rest) a = elim (Bool-cases (is_digit b && leb a ((max_size - 9) / 10))) [
  | inl t ↦ rw t (omega (arith, digits_le rest (a * 10 + (b - 48))))
  | inr f ↦ rw f (omega arith)
]

get_num_le : (fmt : Bytes) (df : ℕ) → length ((get_num fmt df).1) ≤ length fmt
unfolding get_num
get_num_le [] df = omega arith
get_num_le (b ∷ rest) df = elim (Bool-cases (is_digit b)) [
  | inl t ↦ rw t (omega (arith, digits_le rest (0 + (b - 48))))
  | inr f ↦ rw f (omega arith)
]

within_limit-Numbered :
    (len sz : ℕ) (rest : Bytes) → length rest ≤ len → Numbered len (within_limit (sz, rest))
within_limit-Numbered len sz rest b = elim (Bool-cases (leb 1 sz && leb sz 16)) [
  | inl t ↦ rw t (ground arith, ground arith, b)
  | inr f ↦ rw f tt
]

get_num_limit-Numbered : (fmt : Bytes) (df : ℕ) → Numbered (length fmt) (get_num_limit fmt df)
unfolding get_num_limit
get_num_limit-Numbered fmt df =
    let (sz, rest) = get_num fmt df in
    within_limit-Numbered (length fmt) sz rest (get_num_le fmt df)

if-TookOption :
    (len : ℕ) (b : Bool) (x y : Packed Chosen)
    → TookOption len x
    → TookOption len y
    → TookOption len (if b then x else y)
if-TookOption len true x y p q = p
if-TookOption len false x y p q = q

-- A header that is valid when the options are read.
abbrev Fine : Header → Type 0
Fine h = (1 ≤ h.maxalign) × (h.maxalign ≤ 16)

sized-TookOption :
    (k : KOption) (h : Header) (len : ℕ) (r : Packed (ℕ × Bytes))
    → Fine h
    → Numbered len r
    → TookOption (suc len) (and_then r (sized k h))
sized-TookOption k h len (ok (sz, rest)) (low, high) (a, b, shorter) = record {
  align_low = low;
  align_high = high;
  shorter = omega arith;
}
sized-TookOption k h len (err e) fine num = tt
sized-TookOption k h len panic fine num = absurd (omega arith)

aligned-TookOption :
    (h : Header) (len : ℕ) (r : Packed (ℕ × Bytes))
    → Numbered len r
    → TookOption (suc len) (and_then r (aligned h))
aligned-TookOption h len (ok (sz, rest)) (a, b, shorter) = record {
  align_low = a;
  align_high = b;
  shorter = omega arith;
}
aligned-TookOption h len (err e) num = tt
aligned-TookOption h len panic num = absurd (omega arith)

char_option-TookOption :
    (h : Header) (rest : Bytes) → Fine h → TookOption (suc (length rest)) (char_option h rest)
char_option-TookOption h [] fine = tt
char_option-TookOption h (b ∷ rest) (low, high) =
    if-TookOption (suc (suc (length rest))) (is_digit b) (sized char h (get_num (b ∷ rest) 0))
      (err missing_size)
      (record {
        align_low = low;
        align_high = high;
        shorter = omega (arith, get_num_le (b ∷ rest) 0);
      })
      tt

special_option-TookOption :
    (h : Header) (b : ℕ) (rest : Bytes)
    → Fine h
    → TookOption (suc (length rest)) (special_option h b rest)
unfolding special_option
special_option-TookOption h b rest (low, high) =
    let len = suc (length rest) in
    let same : (l : Bool) → Took len (record h { little = l }) rest =
      λ l. record { align_low = low; align_high = high; shorter = omega arith } in
    let num = get_num_limit-Numbered rest in
    if-TookOption len (b == b'i') _ _
      (sized-TookOption (int true) h (length rest) _ (low, high) (num 4))
      (if-TookOption len (b == b'I') _ _
        (sized-TookOption (int false) h (length rest) _ (low, high) (num 4))
        (if-TookOption len (b == b'c') _ _ (char_option-TookOption h rest (low, high)) (
          if-TookOption len (b == b's') _ _
            (sized-TookOption str h (length rest) _ (low, high) (num 8))
            (if-TookOption len (b == b'<') _ _ (same true) (
              if-TookOption len (b == b'>') _ _ (same false) (
                if-TookOption len (b == b'=') _ _ (same true) (
                  if-TookOption len (b == b'!') _ _ (aligned-TookOption h (length rest) _ (num 8))
                    tt)))))))

get_option-TookOption :
    (h : Header) (b : ℕ) (rest : Bytes)
    → Fine h
    → TookOption (suc (length rest)) (get_option h (b ∷ rest))
unfolding get_option
get_option-TookOption h b rest (low, high) = by_fixed (fixed_option b)
  where
    by_fixed : (o : Option (KOption × ℕ)) → TookOption (suc (length rest)) (choose h b rest o)
    by_fixed none = special_option-TookOption h b rest (low, high)
    by_fixed (some (k, size)) = record { align_low = low; align_high = high; shorter = omega arith }

-- What the details of the option at the head of the text say: its kind, size and header are those
-- of `get_option`, and the padding aligns it; `X` borrows the alignment of the option behind it.
abbrev pub Asks : Header → Bytes → ℕ → Details → Type 0
Asks h₀ fmt total (padd_align, size, n, h, rest) =
    (h₁ : Header) × (next_fmt : Bytes) × (next : KOption) × (align : ℕ) × (get_option h₀ fmt
      ≡ ok (padd_align, size, h₁, next_fmt))
    × (get_option h₁ next_fmt ≡ ok (next, align, h, rest))
    × (is_char next ≡ false)
    × (1 ≤ align)
    × Aligned padd_align align h.maxalign total n
Asks h₀ fmt total (opt, size, n, h, rest) =
    (get_option h₀ fmt ≡ ok (opt, size, h, rest)) × Aligned opt size h.maxalign total n

abbrev pub LaidBy : (Details → Type 0) → ℕ → Packed Details → Type 0
LaidBy P len (ok (opt, size, n, h, rest)) = Took len h rest × P (opt, size, n, h, rest)
LaidBy P len (err e) = Unit
LaidBy P len panic = ⊥

abbrev pub Laid : Header → Bytes → ℕ → Packed Details → Type 0
Laid h₀ fmt total = LaidBy (Asks h₀ fmt total) (length fmt)

padded-LaidBy :
    (P : Details → Type 0) (opt : KOption) (size align total len : ℕ) (h : Header) (rest : Bytes)
    → Took len h rest
    → ((n : ℕ) → Aligned opt align h.maxalign total n → P (opt, size, n, h, rest))
    → LaidBy P len (padded opt size align total h rest)
padded-LaidBy P opt size align total len h rest took fits = by_padding _ refl
  where
    by_padding :
        (o : Packed ℕ)
        → ntoalign opt align h.maxalign total ≡ o
        → LaidBy P len (and_then o (λ n. ok (opt, size, n, h, rest)))
    by_padding (err e) eq = tt
    by_padding panic eq = ntoalign-ne-panic opt align h.maxalign total eq
    by_padding (ok n) eq = (
      took,
      fits n (ntoalign-Aligned opt align h.maxalign total n took.align_low took.align_high eq),
    )

borrowed-Laid :
    (h₀ : Header) (fmt : Bytes) (size total b : ℕ) (h₁ : Header) (rest₁ : Bytes) (r : Packed Chosen)
    → get_option h₀ fmt ≡ ok (padd_align, size, h₁, b ∷ rest₁)
    → get_option h₁ (b ∷ rest₁) ≡ r
    → suc (length rest₁) < length fmt
    → TookOption (suc (length rest₁)) r
    → Laid h₀ fmt total (and_then r (borrowed size total))
borrowed-Laid h₀ fmt size total b h₁ rest₁ (err e) first second less took = tt
borrowed-Laid h₀ fmt size total b h₁ rest₁ panic first second less took = absurd (omega arith)
borrowed-Laid h₀ fmt size total b h₁ rest₁ (ok (next, align, h, rest)) first second less took =
    elim (Bool-cases (is_char next || (align == 0))) [
      | inl t ↦ rw t tt
      | inr f ↦
          let longer : Took (length fmt) h rest = record {
            align_low = took.align_low;
            align_high = took.align_high;
            shorter = omega (arith, took.shorter);
          } in
          let no_char : is_char next ≡ false = ground (arith, f) in
          let some_align : 1 ≤ align = ground (arith, f) in
          rw f (
            padded-LaidBy (Asks h₀ fmt total) padd_align size align total (length fmt) h rest longer
              (λ n fits. (h₁, b ∷ rest₁, next, align, first, second, no_char, some_align, fits)))
    ]

detailed-Laid :
    (h₀ : Header) (fmt : Bytes) (total : ℕ) (r : Packed Chosen)
    → get_option h₀ fmt ≡ r
    → 1 ≤ length fmt
    → TookOption (length fmt) r
    → Laid h₀ fmt total (and_then r (detailed total))
detailed-Laid h₀ fmt total (err e) eq some_ took = tt
detailed-Laid h₀ fmt total panic eq some_ took = absurd (omega arith)
detailed-Laid h₀ fmt total (ok (padd_align, size, h, [])) eq some_ took = tt
detailed-Laid h₀ fmt total (ok (padd_align, size, h, b ∷ rest)) eq some_ took =
    borrowed-Laid h₀ fmt size total b h rest _ eq refl took.shorter
      (get_option-TookOption h b rest (took.align_low, took.align_high))
detailed-Laid h₀ fmt total (ok (int s, size, h, rest)) eq some_ took =
    padded-LaidBy (Asks h₀ fmt total) (int s) size size total (length fmt) h rest took
      (λ n fits. (eq, fits))
detailed-Laid h₀ fmt total (ok (float, size, h, rest)) eq some_ took =
    padded-LaidBy (Asks h₀ fmt total) float size size total (length fmt) h rest took
      (λ n fits. (eq, fits))
detailed-Laid h₀ fmt total (ok (str, size, h, rest)) eq some_ took =
    padded-LaidBy (Asks h₀ fmt total) str size size total (length fmt) h rest took
      (λ n fits. (eq, fits))
detailed-Laid h₀ fmt total (ok (char, size, h, rest)) eq some_ took =
    padded-LaidBy (Asks h₀ fmt total) char size size total (length fmt) h rest took
      (λ n fits. (eq, fits))
detailed-Laid h₀ fmt total (ok (zstr, size, h, rest)) eq some_ took =
    padded-LaidBy (Asks h₀ fmt total) zstr size size total (length fmt) h rest took
      (λ n fits. (eq, fits))
detailed-Laid h₀ fmt total (ok (padding, size, h, rest)) eq some_ took =
    padded-LaidBy (Asks h₀ fmt total) padding size size total (length fmt) h rest took
      (λ n fits. (eq, fits))
detailed-Laid h₀ fmt total (ok (nop, size, h, rest)) eq some_ took =
    padded-LaidBy (Asks h₀ fmt total) nop size size total (length fmt) h rest took
      (λ n fits. (eq, fits))

-- On a text that is not empty `get_details` raises an error, or takes at least a byte of the text,
-- keeps the maximum alignment between 1 and 16, and reports the option of `get_option` with its
-- padding: none for an option that needs no alignment, and otherwise less than the lesser of its
-- size and the maximum alignment, bringing the size so far to a multiple of it. For `X` the
-- alignment is the size of the option behind it.
pub get_details_lem :
    (h : Header) (total b : ℕ) (rest : Bytes)
    → 1 ≤ h.maxalign
    → h.maxalign ≤ 16
    → Laid h (b ∷ rest) total (get_details h total (b ∷ rest))
unfolding get_details
get_details_lem h total b rest low high =
    detailed-Laid h (b ∷ rest) total _ refl (omega arith)
      (get_option-TookOption h b rest (low, high))
