-- ===== src/Literal/Encoder.antt =====
-- The parser's encoder writes what the encoder of the `utf8` library writes.
use tcvm.Common.{refl, suc, zero, replicate, [], ◌++◌, ltb, ◌%◌, ◌∙◌, arith, if◌then◌else◌, ◌*◌}
use tcvm.Common.{◌/◌, ap, ◌+◌, ◌-◌, ◌^◌, ◌∷◌, ◌≤◌, set, drop, length, ◌<◌, ◌≡◌, ℕ, dec_le}
use tcvm.Common.{dite_ext, Acc, lt_wf, length-set}
use Prim.Native.Nat.{bit_and}
use tcvm.Common.Bits.{bit_or-mod}
use tcvm.Utf8.{Bytes, encode, encode_loop, continuation, lead_byte, shift_shrinks}
use tcvm.Literal.{utf8_encode, fill, buffer_continuation, buffer_lead}

buffer_lead_lem : (mfb x : ℕ) → buffer_lead mfb x ≡ lead_byte mfb x
unfolding buffer_lead lead_byte
buffer_lead_lem mfb x = bit_or-mod 8 ((2 ^ 32 - 1 - mfb) * 2 % 2 ^ 32) x

buffer_continuation_lem : (x : ℕ) → buffer_continuation x ≡ continuation x
unfolding buffer_continuation continuation
buffer_continuation_lem x = bit_or-mod 8 0x80 (bit_and x 0x3f)

-- Writing in front of the filled part of a buffer.
drop-set :
    (buff : Bytes) (i v : ℕ) → i < length buff → drop i (set buff i v) ≡ v ∷ drop (i + 1) buff
drop-set [] i v h = absurd (omega arith)
drop-set (b ∷ buff) zero v h = refl
drop-set (b ∷ buff) (suc i) v h =
    let next : suc (i + 1) ≡ suc i + 1 = omega arith in
    drop-set buff i v (omega arith) ∙ ap (λ (j : ℕ). v ∷ drop j (b ∷ buff)) next

-- 64 ^ k
room : ℕ → ℕ
room zero = 1
room (suc k) = 64 * room k

-- One byte more in a buffer whose last `n - 1` bytes are `tail`.
fill_one :
    (n v : ℕ) (buff tail : Bytes)
    → 1 ≤ n
    → n ≤ 8
    → length buff ≡ 8
    → drop (9 - n) buff ≡ tail
    → (length (set buff (8 - n) v) ≡ 8) × (drop (8 - n) (set buff (8 - n) v) ≡ v ∷ tail)
fill_one n v buff tail low high size filled =
    let next : 8 - n + 1 ≡ 9 - n = omega arith in
    (
      length-set buff (8 - n) v ∙ size,
      drop-set buff (8 - n) v (omega (arith, size))
          ∙ ap (λ (j : ℕ). v ∷ drop j buff) next
          ∙ ap (λ (l : Bytes). v ∷ l) filled,
    )

module _ (n mfb x : ℕ) (buff tail : Bytes) (low : 1 ≤ n) (high : n ≤ 7) (size : length buff ≡ 8)
    (filled : drop (9 - n) buff ≡ tail) where
  abbrev after_round : Bytes
  after_round = set buff (8 - n) (buffer_continuation x)

  size_after : length after_round ≡ 8
  size_after = (fill_one n (buffer_continuation x) buff tail low (omega arith) size filled).0

  filled_after : drop (9 - (n + 1)) after_round ≡ continuation x ∷ tail
  filled_after =
      let e : 9 - (n + 1) ≡ 8 - n = omega arith in
      ap (λ (j : ℕ). drop j after_round) e
      ∙ (fill_one n (buffer_continuation x) buff tail low (omega arith) size filled).1
      ∙ ap (λ (v : ℕ). v ∷ tail) (buffer_continuation_lem x)

  last_fill :
      drop (8 - (n + 1)) (set after_round (8 - (n + 1)) (buffer_lead (mfb / 2) (x / 2 ^ 6)))
      ≡ lead_byte (mfb / 2) (x / 2 ^ 6) ∷ continuation x ∷ tail
  last_fill =
      (fill_one (n + 1) (buffer_lead (mfb / 2) (x / 2 ^ 6)) after_round (continuation x ∷ tail)
        (omega arith) (omega arith) size_after filled_after).1
      ∙ ap (λ (v : ℕ). v ∷ continuation x ∷ tail) (buffer_lead_lem (mfb / 2) (x / 2 ^ 6))

-- `k` rounds are left at most, `n - 1` bytes are filled, and they are `tail`.
fill_loop :
    (k n mfb : ℕ) (buff tail : Bytes) (x : ℕ) (w : Acc ◌<◌ x)
    → x < room k
    → 1 ≤ n
    → n + k ≤ 7
    → length buff ≡ 8
    → drop (9 - n) buff ≡ tail
    → fill buff n mfb x w ≡ encode_loop mfb tail x w
unfolding fill encode_loop room
fill_loop zero n mfb buff tail x (Acc.intro _ smaller) bound low high size filled =
    dite_ext (dec_le (x / 64) (mfb / 2))
      (λ p. last_fill n mfb x buff tail low (omega arith) size filled)
      (λ more. absurd (more (omega arith)))
fill_loop (suc k) n mfb buff tail x (Acc.intro _ smaller) bound low high size filled =
    let n_le : n ≤ 7 = omega arith in
    dite_ext (dec_le (x / 64) (mfb / 2)) (λ p. last_fill n mfb x buff tail low n_le size filled)
      (λ more.
        fill_loop k (n + 1) (mfb / 2) (after_round n mfb x buff tail low n_le size filled)
          (continuation x ∷ tail) (x / 64) (smaller (x / 64) (shift_shrinks x mfb more))
          (omega arith) (omega arith) (omega arith)
          (size_after n mfb x buff tail low n_le size filled)
          (filled_after n mfb x buff tail low n_le size filled))

-- The parser's `utf8_encode` and the library's `encode` append the same bytes, for every `u32`.
pub utf8_encode-eq-encode :
    (dst : Bytes) (cp : ℕ) → cp < 2 ^ 32 → utf8_encode dst cp ≡ encode cp dst
unfolding utf8_encode encode room
utf8_encode-eq-encode dst cp h =
    ap (λ (l : Bytes). if ltb cp 0x80 then dst ++ (cp ∷ []) else dst ++ l)
      (fill_loop 6 1 0x3f (replicate 8 0) [] cp (lt_wf.apply cp) (omega arith) (omega arith)
        (omega arith) refl refl)
