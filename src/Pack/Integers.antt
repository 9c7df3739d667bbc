-- ===== src/Pack/Integers.antt =====
-- `pack_int_bytes` and `unpack_int` of src/builtin/string/pack.rs.
use Prim.Native.Nat.{bit_or}
use tcvm.Common.{ℕ, zero, suc, ◌+◌, ◌-◌, ◌*◌, ◌/◌, ◌%◌, ◌^◌, ◌≤◌, ◌<◌, ◌≡◌, ◌≢◌, refl, sym, ap}
use tcvm.Common.{◌∙◌, subst, arith, inl, inr, Bool, true, false, some, [], ◌∷◌, ◌++◌, length}
use tcvm.Common.{get_elem?, get_elem?-set_self, get_elem?-set_ne, length-set, length-append, drop}
use tcvm.Common.{length-replicate, replicate, set, if◌then◌else◌, ltb, ◌==◌, Bool-cases}
use tcvm.Common.Bits.{bit_or_shifted}
use tcvm.Pattern.{Bytes}
use tcvm.Pack.{byte_index, write_bytes, pack_int_bytes, byte_at, read_bytes, check_fill}
use tcvm.Pack.{unpack_int, does_not_fit, ok, err, and_then, lesser_size, after_read, szint}
use native.Mathlib.Nat.{pow-succ', mul_left_comm, mul_assoc, add-mul, pow-le-pow_right}

-- Byte `k` of `v`, from the lowest on.
abbrev byte_of : ℕ → ℕ → ℕ
byte_of v zero = v % 256
byte_of v (suc k) = byte_of (v / 256) k

byte_index-injective :
    (little : Bool) (size i j : ℕ)
    → i < size
    → j < size
    → byte_index little size i ≡ byte_index little size j
    → i ≡ j
byte_index-injective true size i j bi bj e = e
byte_index-injective false size i j bi bj e = omega arith

byte_index_bound : (little : Bool) (size i : ℕ) → i < size → byte_index little size i < size
byte_index_bound true size i b = b
byte_index_bound false size i b = omega arith

length-write_bytes :
    (base : ℕ) (little : Bool) (size left i v : ℕ) (out : Bytes)
    → length (write_bytes base little size left i v out) ≡ length out
unfolding write_bytes
length-write_bytes base little size zero i v out = refl
length-write_bytes base little size (suc left) i v out =
    length-write_bytes base little size left (i + 1) (v / 256) _
    ∙ length-set out (base + byte_index little size i) (v % 256)

write_bytes_below :
    (base : ℕ) (little : Bool) (size left i v j : ℕ) (out : Bytes)
    → i + left ≤ size
    → j < i
    → get_elem? (write_bytes base little size left i v out) (base + byte_index little size j)
      ≡ get_elem? out (base + byte_index little size j)
unfolding write_bytes
write_bytes_below base little size zero i v j out b low = refl
write_bytes_below base little size (suc left) i v j out b low =
    let apart : base + byte_index little size i ≢ base + byte_index little size j = λ e.
      let same : i ≡ j =
        byte_index-injective little size i j (omega arith) (omega arith) (omega (arith, e)) in
      omega (arith, same) in
    write_bytes_below base little size left (i + 1) (v / 256) j _ (omega arith) (omega arith)
    ∙ get_elem?-set_ne out (v % 256) apart

write_bytes_at :
    (base : ℕ) (little : Bool) (size left i v k : ℕ) (out : Bytes)
    → i + left ≤ size
    → base + size ≤ length out
    → k < left
    → get_elem? (write_bytes base little size left i v out) (base + byte_index little size (i + k))
      ≡ some (byte_of v k)
unfolding write_bytes
write_bytes_at base little size zero i v k out b room low = absurd (omega arith)
write_bytes_at base little size (suc left) i v zero out b room low =
    let here : i ≡ i + 0 = omega arith in
    let in_out : base + byte_index little size i < length out =
      omega (arith, byte_index_bound little size i (omega arith)) in
    subst
      (λ x.
        get_elem? (write_bytes base little size (suc left) i v out)
          (base + byte_index little size x)
        ≡ some (v % 256))
      here
      (write_bytes_below base little size left (i + 1) (v / 256) i _ (omega arith) (omega arith)
        ∙ get_elem?-set_self out (base + byte_index little size i) (v % 256) in_out)
write_bytes_at base little size (suc left) i v (suc k) out b room low =
    let there : i + 1 + k ≡ i + suc k = omega arith in
    let out' = set out (base + byte_index little size i) (v % 256) in
    let room' : base + size ≤ length out' =
      omega (arith, length-set out (base + byte_index little size i) (v % 256)) in
    subst
      (λ x.
        get_elem? (write_bytes base little size left (i + 1) (v / 256) out')
          (base + byte_index little size x)
        ≡ some (byte_of (v / 256) k))
      there
      (write_bytes_at base little size left (i + 1) (v / 256) k out' (omega arith) room'
        (omega arith))

byte_of_bound : (v k : ℕ) → byte_of v k < 256
byte_of_bound v zero = omega arith
byte_of_bound v (suc k) = byte_of_bound (v / 256) k

-- The bytes from `n` down, put together.
abbrev low : ℕ → ℕ → ℕ
low v zero = 0
low v (suc n) = byte_of v n * 256 ^ n + low v n

low_step : (v n : ℕ) → low v (suc n) ≡ v % 256 + 256 * low (v / 256) n
low_step v zero = omega arith
low_step v (suc n) =
    let b = byte_of (v / 256) n in
    let shifted : b * 256 ^ suc n ≡ 256 * (b * 256 ^ n) =
      ap (λ x. b * x) (pow-succ' 256 n) ∙ mul_left_comm b 256 (256 ^ n) in
    omega (arith, low_step v n, shifted)

low_exact : (v n : ℕ) → v < 256 ^ n → low v n ≡ v
low_exact v zero b = omega arith
low_exact v (suc n) b =
    let small : v / 256 < 256 ^ n = omega (arith, pow-succ' 256 n) in
    low_step v n ∙ omega (arith, low_exact (v / 256) n small)

byte_of_above : (v k : ℕ) → v < 256 ^ k → byte_of v k ≡ 0
byte_of_above v zero b = omega arith
byte_of_above v (suc k) b = byte_of_above (v / 256) k (omega (arith, pow-succ' 256 k))

abbrev joined : ℕ → ℕ → ℕ → ℕ
joined res v zero = res
joined res v (suc i) = joined (res * 256 + byte_of v i) v i

joined_low : (res v n : ℕ) → joined res v n ≡ res * 256 ^ n + low v n
joined_low res v zero = omega arith
joined_low res v (suc i) =
    let b = byte_of v i in
    let top : res * 256 * 256 ^ i ≡ res * 256 ^ suc i =
      mul_assoc res 256 (256 ^ i) ∙ ap (λ x. res * x) (sym (pow-succ' 256 i)) in
    omega (arith, joined_low (res * 256 + b) v i, add-mul (res * 256) b (256 ^ i), top)

-- The bytes of `v`, from the lowest to the `n`th.
abbrev Holds : Bytes → Bool → ℕ → ℕ → ℕ → Type 0
Holds bytes little size v n =
    (k : ℕ) → k < n → get_elem? bytes (byte_index little size k) ≡ some (byte_of v k)

or_byte : (res b : ℕ) → b < 256 → bit_or (res * 256) b ≡ res * 256 + b
or_byte res b h =
    let turned : 2 ^ 8 * res ≡ res * 256 = omega arith in
    ap (λ x. bit_or x b) (sym turned) ∙ bit_or_shifted 8 res b h ∙ ap (λ x. x + b) turned

byte_at-some : (bytes : Bytes) (i b : ℕ) → get_elem? bytes i ≡ some b → byte_at bytes i ≡ ok b
byte_at-some bytes i b e = rw (byte_at, e)

read_step :
    (bytes : Bytes) (little : Bool) (size i res b : ℕ)
    → byte_at bytes (byte_index little size i) ≡ ok b
    → read_bytes bytes little size (suc i) res
      ≡ read_bytes bytes little size i (bit_or (res * 256 % 2 ^ 64) b)
unfolding read_bytes
read_step bytes little size i res b e =
    ap (λ x. and_then x (λ y. read_bytes bytes little size i (bit_or (res * 256 % 2 ^ 64) y))) e

read_bytes_lem :
    (bytes : Bytes) (little : Bool) (size v k left res : ℕ)
    → k + left ≤ 8
    → res < 256 ^ k
    → Holds bytes little size v left
    → read_bytes bytes little size left res ≡ ok (joined res v left)
unfolding read_bytes
read_bytes_lem bytes little size v k zero res b small holds = refl
read_bytes_lem bytes little size v k (suc i) res b small holds =
    let byte = byte_of v i in
    let bound = byte_of_bound v i in
    let room : 256 ^ suc k ≤ 256 ^ 8 =
      pow-le-pow_right (omega arith) {i = suc k} {j = 8} (omega arith) in
    let fits : res * 256 % 2 ^ 64 ≡ res * 256 = omega (arith, pow-succ' 256 k) in
    let next : bit_or (res * 256 % 2 ^ 64) byte ≡ res * 256 + byte =
      ap (λ x. bit_or x byte) fits ∙ or_byte res byte bound in
    let got = byte_at-some bytes (byte_index little size i) byte (holds i (omega arith)) in
    read_step bytes little size i res byte got
    ∙ ap (read_bytes bytes little size i) next
    ∙ read_bytes_lem bytes little size v (suc k) i (res * 256 + byte) (omega arith)
        (omega (arith, pow-succ' 256 k)) (λ j low_j. holds j (omega arith))

check_step :
    (bytes : Bytes) (little : Bool) (size res left i : ℕ)
    → byte_at bytes (byte_index little size i) ≡ ok 0
    → check_fill bytes little size 0 res (suc left) i
      ≡ check_fill bytes little size 0 res left (i + 1)
unfolding check_fill
check_step bytes little size res left i e =
    ap
      (λ x. and_then x (λ b.
        if b == 0
        then check_fill bytes little size 0 res left (i + 1)
        else err (does_not_fit size)))
      e

check_fill_lem :
    (bytes : Bytes) (little : Bool) (size v res left i : ℕ)
    → i + left ≤ size
    → Holds bytes little size v size
    → ((k : ℕ) → i ≤ k → byte_of v k ≡ 0)
    → check_fill bytes little size 0 res left i ≡ ok res
unfolding check_fill
check_fill_lem bytes little size v res zero i b holds zeros = refl
check_fill_lem bytes little size v res (suc left) i b holds zeros =
    let got =
      byte_at-some bytes (byte_index little size i) 0
        (holds i (omega arith) ∙ ap some (zeros i (omega arith))) in
    check_step bytes little size res left i got
    ∙ check_fill_lem bytes little size v res left (i + 1) (omega arith) holds
        (λ k low_k. zeros k (omega arith))

get_elem?-drop : (xs : Bytes) (n i : ℕ) → get_elem? (drop n xs) i ≡ get_elem? xs (n + i)
get_elem?-drop xs zero i = ap (get_elem? xs) (omega arith)
get_elem?-drop [] (suc n) i = refl
get_elem?-drop (x ∷ xs) (suc n) i =
    let e : suc (n + i) ≡ suc n + i = omega arith in
    get_elem?-drop xs n i ∙ ap (get_elem? (x ∷ xs)) e

pack_int_bytes-Holds :
    (out : Bytes) (n : ℕ) (little : Bool) (size : ℕ)
    → Holds (drop (length out) (pack_int_bytes out n little size false)) little size n size
unfolding pack_int_bytes
pack_int_bytes-Holds out n little size k b =
    let base = length out in
    let room : base + size ≤ length (out ++ replicate size 0) =
      omega (arith, length-append out (replicate size 0), length-replicate {A = ℕ} size 0) in
    let here : 0 + k ≡ k = omega arith in
    get_elem?-drop _ base (byte_index little size k)
    ∙ subst
        (λ x.
          get_elem? (write_bytes base little size size 0 n (out ++ replicate size 0))
            (base + byte_index little size x)
          ≡ some (byte_of n k))
        here
        (write_bytes_at base little size size 0 n k (out ++ replicate size 0) (omega arith) room b)

lesser_size_le : (size : ℕ) → lesser_size size ≤ size
lesser_size_le size = ground arith

lesser_size_bound : (size : ℕ) → 0 + lesser_size size ≤ 8
lesser_size_bound size = ground arith

after_read_lem :
    (bytes : Bytes) (little : Bool) (size n : ℕ)
    → n < 256 ^ lesser_size size
    → Holds bytes little size n size
    → after_read bytes little size false n ≡ ok n
after_read_lem bytes little size n fits holds = elim (Bool-cases (ltb size szint)) [
  | inl small ↦ rw small
  | inr large ↦ elim (Bool-cases (ltb szint size)) [
    | inr exact ↦ rw (large, exact)
    | inl wide ↦
        let eight : lesser_size size ≡ 8 = rw large in
        let n_fits : n < 256 ^ 8 = subst (λ x. n < 256 ^ x) eight fits in
        let zeros : (k : ℕ) → 8 ≤ k → byte_of n k ≡ 0 = λ k b.
          let more : 256 ^ 8 ≤ 256 ^ k = pow-le-pow_right (omega arith) b in
          byte_of_above n k (omega (arith, more)) in
        rw (large, wide)
          (check_fill_lem bytes little size n n (size - szint) szint (ground arith) holds zeros)
  ]
]

-- `unpack_int` reads back every unsigned integer that fits its size, in either order of the bytes,
-- from the place where `pack_int_bytes` put it behind `out`; for the sizes above 8 too.
pub unpack_int-pack_int_bytes :
    (out : Bytes) (n : ℕ) (little : Bool) (size : ℕ)
    → n < 256 ^ lesser_size size
    → unpack_int (drop (length out) (pack_int_bytes out n little size false)) little size false
      ≡ ok n
unfolding unpack_int
unpack_int-pack_int_bytes out n little size fits =
    let bytes = drop (length out) (pack_int_bytes out n little size false) in
    let holds = pack_int_bytes-Holds out n little size in
    let limit = lesser_size size in
    let within : limit ≤ size = lesser_size_le size in
    let read : read_bytes bytes little size limit 0 ≡ ok (joined 0 n limit) =
      read_bytes_lem bytes little size n 0 limit 0 (lesser_size_bound size) (omega arith)
        (λ k b. holds k (omega (arith, within))) in
    let value : joined 0 n limit ≡ n =
      omega (arith, joined_low 0 n limit, low_exact n limit fits) in
    ap (λ x. and_then x (after_read bytes little size false)) (read ∙ ap ok value)
    ∙ after_read_lem bytes little size n fits holds
