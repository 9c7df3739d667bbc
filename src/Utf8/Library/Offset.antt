-- ===== src/Utf8/Library/Offset.antt =====
-- `offset` of src/builtin/utf8.rs. Positions count from 1.
use Prim.Native.Nat.{bit_and}
use tcvm.Common.{ℕ, zero, suc, ◌+◌, ◌-◌, ◌≤◌, ◌<◌, ◌≡◌, ◌⊎◌, inl, inr, refl, arith, Bool, true}
use tcvm.Common.{false, ◌&&◌, ◌||◌, Option, none, some, ltb, leb, ◌==◌, if◌then◌else◌, length}
use tcvm.Common.{get_elem?, get_elem?_bound, Bool-cases, Option-cases}
use tcvm.Common.Int.{ℤ, pos, negsuc, pos_part, ltb_ℤ}
use native.Mathlib.Nat.{le_refl}
use tcvm.Utf8.{Bytes}
use tcvm.Utf8.Library.{posrelat}

-- `nil`, the positions of the first and the last byte of a character, or one of the two errors.
pub data OffsetResult : Type 0 where
  absent : OffsetResult
  found : ℕ → ℕ → OffsetResult
  position_out_of_bounds continuation_byte : OffsetResult

module _ (bytes : Bytes) where
  unfoldable pub iscont : ℕ → Bool
  iscont zero = false
  iscont (suc i) = elim (get_elem? bytes i) [ none ↦ false | some b ↦ bit_and b 0xc0 == 0x80 ]

  -- `while posi > 1 && iscont(bytes, posi) { posi -= 1 }`
  unfoldable pub back_over : ℕ → ℕ
  unfolding iscont
  back_over zero = zero
  back_over (suc zero) = suc zero
  back_over (suc (suc i)) =
      let rest = back_over (suc i) in if iscont (suc (suc i)) then rest else suc (suc i)

  -- `while posi <= len && iscont(bytes, posi) { posi += 1 }`, with as many rounds as are left.
  unfoldable pub skip_over : ℕ → ℕ → ℕ
  unfolding iscont
  skip_over zero posi = posi
  skip_over (suc fuel) posi =
      let rest = skip_over fuel (posi + 1) in
      if leb posi (length bytes) && iscont posi then rest else posi

  -- The loop for a positive `n`, which has been lowered by one.
  unfoldable pub forwards : ℕ → ℕ → Option ℕ
  unfolding skip_over
  forwards zero posi = some posi
  forwards (suc n) posi =
      let rest = forwards n (skip_over (length bytes + 1) (posi + 1)) in
      if leb posi (length bytes) then rest else none

  -- The loop for a negative `n`, of which this is the size.
  unfoldable pub backwards : ℕ → ℕ → Option ℕ
  unfolding back_over
  backwards zero posi = some posi
  backwards (suc n) posi =
      let rest = backwards n (back_over (posi - 1)) in if ltb 1 posi then rest else none

  -- `while e < len && iscont(bytes, e + 1) { e += 1 }`
  unfoldable pub last_byte : ℕ → ℕ → ℕ
  unfolding iscont
  last_byte zero e = e
  last_byte (suc fuel) e =
      let rest = last_byte fuel (e + 1) in
      if ltb e (length bytes) && iscont (e + 1) then rest else e

  abbrev pub push : Option ℕ → OffsetResult
  push none = absent
  push (some p) = found p (if ltb (length bytes) p then p else last_byte (length bytes) p)

  unfoldable pub offset_from : ℤ → ℕ → OffsetResult
  unfolding forwards backwards last_byte
  offset_from (pos zero) posi = push (some (back_over posi))
  offset_from (pos (suc n)) posi =
      if leb posi (length bytes) && iscont posi then continuation_byte else push (forwards n posi)
  offset_from (negsuc n) posi =
      if leb posi (length bytes) && iscont posi
      then continuation_byte
      else push (backwards (suc n) posi)

  abbrev default_pos : ℤ → Option ℤ → ℤ
  default_pos n none = if ltb_ℤ n (pos 0) then pos (length bytes + 1) else pos 1
  default_pos n (some i) = i

  unfoldable pub lua_offset : ℤ → Option ℤ → OffsetResult
  unfolding offset_from
  lua_offset n i_arg =
      let posi = posrelat (default_pos n i_arg) (length bytes) in
      if ltb_ℤ posi (pos 1) || ltb_ℤ (pos (length bytes + 1)) posi
      then position_out_of_bounds
      else offset_from n (pos_part posi)

  -- A position of a text or the one behind it, which starts a character unless it is the first.
  pub record Starts (p : ℕ) : Type 0 where
    pub low : 1 ≤ p
    pub high : p ≤ length bytes + 1
    pub start : (p ≡ 1) ⊎ (iscont p ≡ false)

  abbrev StartsIf : Option ℕ → Type 0
  StartsIf none = Unit {0}
  StartsIf (some p) = Starts p

  StartsIf-if :
      (b : Bool) (o : Option ℕ) → (b ≡ true → StartsIf o) → StartsIf (if b then o else none)
  StartsIf-if true o h = h refl
  StartsIf-if false o h = tt

  iscont-beyond : (i : ℕ) → iscont i ≡ true → i ≤ length bytes
  unfolding iscont
  iscont-beyond zero e = omega arith
  iscont-beyond (suc i) e = elim (Option-cases (get_elem? bytes i)) [
    | inl end ↦ absurd (ground (arith, end, e))
    | inr (b, here) ↦ get_elem?_bound bytes i b here
  ]

  beyond : (i : ℕ) → length bytes < i → iscont i ≡ false
  beyond i h = elim (Bool-cases (iscont i)) [
    | inl c ↦ let b = iscont-beyond i c in absurd (omega arith)
    | inr c ↦ c
  ]

  stopped : (i : ℕ) → (leb i (length bytes) && iscont i) ≡ false → iscont i ≡ false
  stopped i e = elim (Bool-cases (leb i (length bytes))) [
    | inl inside ↦ ground (arith, inside, e)
    | inr past ↦ beyond i (ground (arith, past))
  ]

  back_over-Starts : (i : ℕ) → 1 ≤ i → i ≤ length bytes + 1 → Starts (back_over i)
  unfolding back_over
  back_over-Starts zero low high = absurd (omega arith)
  back_over-Starts (suc zero) low high = record {
    low = omega arith;
    high = omega arith;
    start = inl refl;
  }
  back_over-Starts (suc (suc i)) low high = elim (Bool-cases (iscont (suc (suc i)))) [
    | inl more ↦ rw (more) (back_over-Starts (suc i) (omega arith) (omega arith))
    | inr stop ↦ rw (stop) (record { low = omega arith; high = high; start = inr stop })
  ]

  skip_over-Starts :
      (fuel i : ℕ)
      → 1 ≤ i
      → i ≤ length bytes + 1
      → length bytes < fuel + i
      → Starts (skip_over fuel i)
  unfolding skip_over
  skip_over-Starts zero i low high enough = record {
    low = low;
    high = high;
    start = inr (beyond i (omega arith));
  }
  skip_over-Starts (suc fuel) i low high enough =
      elim (Bool-cases (leb i (length bytes) && iscont i)) [
        | inl more ↦
            rw (more)
              (skip_over-Starts fuel (i + 1) (omega arith) (ground (arith, more)) (omega arith))
        | inr stop ↦ rw (stop) (record { low = low; high = high; start = inr (stopped i stop) })
      ]

  forwards-Starts : (n i : ℕ) → Starts i → StartsIf (forwards n i)
  unfolding forwards
  forwards-Starts zero i s = s
  forwards-Starts (suc n) i s = StartsIf-if (leb i (length bytes)) _ (λ inside.
      forwards-Starts n (skip_over (length bytes + 1) (i + 1)) (
        skip_over-Starts (length bytes + 1) (i + 1) (omega arith) (ground (arith, inside))
          (omega arith)))

  backwards-Starts : (n i : ℕ) → Starts i → StartsIf (backwards n i)
  unfolding backwards
  backwards-Starts zero i s = s
  backwards-Starts (suc n) i s = StartsIf-if (ltb 1 i) _ (λ inside.
      backwards-Starts n (back_over (i - 1))
        (back_over-Starts (i - 1) (ground (arith, inside)) (omega (arith, s.high))))

  last_byte_bound :
      (fuel e : ℕ) → e ≤ length bytes → (e ≤ last_byte fuel e) × (last_byte fuel e ≤ length bytes)
  unfolding last_byte
  last_byte_bound zero e h = (le_refl e, h)
  last_byte_bound (suc fuel) e h = elim (Bool-cases (ltb e (length bytes) && iscont (e + 1))) [
    | inl more ↦
        let (a, b) = last_byte_bound fuel (e + 1) (ground (arith, more)) in
        rw (more) (omega (arith, a), b)
    | inr stop ↦ rw (stop) (le_refl e, h)
  ]

  -- What `offset` may push: nil, or the start of a character and its last byte, or twice the
  -- position behind the text.
  abbrev pub Answer : OffsetResult → Type 0
  Answer absent = Unit {0}
  Answer (found p e) = Starts p × (p ≤ e) × (e ≤ length bytes + 1)
  Answer position_out_of_bounds = Unit {0}
  Answer continuation_byte = Unit {0}

  push-Answer : (o : Option ℕ) → StartsIf o → Answer (push o)
  push-Answer none s = tt
  push-Answer (some p) s = elim (Bool-cases (ltb (length bytes) p)) [
    | inl past ↦ rw (past) (s, le_refl p, s.high)
    | inr inside ↦
        let (a, b) = last_byte_bound (length bytes) p (ground (arith, inside)) in
        rw (inside) (s, a, omega (arith, b))
  ]

  Answer-if :
      (b : Bool) (x y : OffsetResult)
      → Answer x
      → (b ≡ false → Answer y)
      → Answer (if b then x else y)
  Answer-if true x y h k = h
  Answer-if false x y h k = k refl

  offset_from-Answer : (n : ℤ) (i : ℕ) → 1 ≤ i → i ≤ length bytes + 1 → Answer (offset_from n i)
  unfolding offset_from
  offset_from-Answer (pos zero) i low high =
      push-Answer (some (back_over i)) (back_over-Starts i low high)
  offset_from-Answer (pos (suc n)) i low high =
      Answer-if (leb i (length bytes) && iscont i) continuation_byte (push (forwards n i)) tt
        (λ stop.
          push-Answer (forwards n i)
            (forwards-Starts n i (record { low = low; high = high; start = inr (stopped i stop) })))
  offset_from-Answer (negsuc n) i low high =
      Answer-if (leb i (length bytes) && iscont i) continuation_byte (push (backwards (suc n) i)) tt
        (λ stop. push-Answer (backwards (suc n) i) (
          backwards-Starts (suc n) i
            (record { low = low; high = high; start = inr (stopped i stop) })))

  in_range :
      (p : ℤ)
      → (ltb_ℤ p (pos 1) || ltb_ℤ (pos (length bytes + 1)) p) ≡ false
      → (1 ≤ pos_part p) × (pos_part p ≤ length bytes + 1)
  in_range (pos n) e = (ground (arith, e), ground (arith, e))
  in_range (negsuc n) e = absurd (ground (arith, e))

-- For every text, count and start, `offset` raises one of its errors, pushes nil, or pushes two
-- positions in order, in the text or just behind it, of which the first is 1 or no continuation
-- byte stands at it.
pub lua_offset-Answer : (bytes : Bytes) (n : ℤ) (i : Option ℤ) → Answer bytes (lua_offset bytes n i)
unfolding lua_offset
lua_offset-Answer bytes n i =
    let p = posrelat (default_pos bytes n i) (length bytes) in
    Answer-if bytes (ltb_ℤ p (pos 1) || ltb_ℤ (pos (length bytes + 1)) p) position_out_of_bounds
      (offset_from bytes n (pos_part p)) tt
      (λ inside.
        let (low, high) = in_range bytes p inside in
        offset_from-Answer bytes n (pos_part p) low high)
