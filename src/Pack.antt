-- ===== src/Pack.antt =====
-- src/builtin/string/pack.rs: the options of the format of `string.pack`, and its integers. The
-- position in the format is the text that is left of it.
pub mod Padding
pub mod Layout
pub mod Sizes
pub mod Integers
use Prim.Native.Nat.{bit_and, bit_or, bit_xor}
use tcvm.Common.{ℕ, zero, suc, ◌+◌, ◌-◌, ◌*◌, ◌/◌, ◌%◌, ◌^◌, Bool, true, false, not, ◌&&◌, ◌||◌}
use tcvm.Common.{Option, none, some, List, [], ◌∷◌, ◌++◌, ◌==◌, ltb, leb, if◌then◌else◌, length}
use tcvm.Common.{set, replicate, get_elem?}
use tcvm.Pattern.{Bytes}

pub data KOption : Type 0 where
  int : Bool → KOption
  float : KOption
  str : KOption
  char : KOption
  zstr : KOption
  padding : KOption
  padd_align : KOption
  nop : KOption

pub record Header : Type 0 where
  pub little : Bool
  pub maxalign : ℕ

-- The errors, as they are raised.
pub data PackError : Type 0 where
  out_of_limits : ℕ → PackError
  missing_size : PackError
  invalid_option : ℕ → PackError
  invalid_next : PackError
  not_power_of_2 : PackError
  does_not_fit : ℕ → PackError
  variable_length : PackError
  too_large : PackError

pub data Packed (A : Type 0) : Type 0 where
  ok : A → Packed A
  err : PackError → Packed A
  panic : Packed A

abbrev pub and_then : {A B : Type 0} → Packed A → (A → Packed B) → Packed B
and_then (ok a) f = f a
and_then (err e) f = err e
and_then panic f = panic

abbrev pub is_digit : ℕ → Bool
is_digit b = leb 48 b && leb b 57

abbrev pub max_size : ℕ
max_size = 2 ^ 63 - 1

abbrev pub max_int_size : ℕ
max_int_size = 16

-- The loop of `get_num`.
unfoldable pub digits : ℕ → Bytes → ℕ × Bytes
digits a [] = (a, [])
digits a (b ∷ rest) =
    let more = digits (a * 10 + (b - 48)) rest in
    if is_digit b && leb a ((max_size - 9) / 10) then more else (a, b ∷ rest)

unfoldable pub get_num : Bytes → ℕ → ℕ × Bytes
unfolding digits
get_num [] df = (df, [])
get_num (b ∷ rest) df = if is_digit b then digits 0 (b ∷ rest) else (df, b ∷ rest)

abbrev pub within_limit : ℕ × Bytes → Packed (ℕ × Bytes)
within_limit (sz, rest) =
    if leb 1 sz && leb sz max_int_size then ok (sz, rest) else err (out_of_limits sz)

unfoldable pub get_num_limit : Bytes → ℕ → Packed (ℕ × Bytes)
unfolding get_num
get_num_limit fmt df = within_limit (get_num fmt df)

-- The kind, the size, the header and the text that is left.
abbrev pub Chosen : Type 0
Chosen = KOption × ℕ × Header × Bytes

abbrev pub sized : KOption → Header → ℕ × Bytes → Packed Chosen
sized k h (sz, rest) = ok (k, sz, h, rest)

abbrev pub aligned : Header → ℕ × Bytes → Packed Chosen
aligned h (sz, rest) = ok (nop, 0, record h { maxalign = sz }, rest)

abbrev pub char_option : Header → Bytes → Packed Chosen
char_option h [] = err missing_size
char_option h (b ∷ rest) =
    if is_digit b then sized char h (get_num (b ∷ rest) 0) else err missing_size

-- The options with a numeral or an effect on the header.
unfoldable pub special_option : Header → ℕ → Bytes → Packed Chosen
unfolding get_num_limit get_num
special_option h b rest =
    if b == b'i'
    then and_then (get_num_limit rest 4) (sized (int true) h)
    else if b == b'I'
    then and_then (get_num_limit rest 4) (sized (int false) h)
    else if b == b'c'
    then char_option h rest
    else if b == b's'
    then and_then (get_num_limit rest 8) (sized str h)
    else if b == b'<'
    then ok (nop, 0, record h { little = true }, rest)
    else if b == b'>'
    then ok (nop, 0, record h { little = false }, rest)
    else if b == b'='
    then ok (nop, 0, record h { little = true }, rest)
    else if b == b'!'
    then and_then (get_num_limit rest 8) (aligned h)
    else err (invalid_option b)

-- The options of a fixed size.
unfoldable pub fixed_option : ℕ → Option (KOption × ℕ)
fixed_option b =
    if b == b'b'
    then some (int true, 1)
    else if b == b'B'
    then some (int false, 1)
    else if b == b'h'
    then some (int true, 2)
    else if b == b'H'
    then some (int false, 2)
    else if b == b'l' || (b == b'j')
    then some (int true, 8)
    else if b == b'L' || (b == b'J') || (b == b'T')
    then some (int false, 8)
    else if b == b'f'
    then some (float, 4)
    else if b == b'd' || (b == b'n')
    then some (float, 8)
    else if b == b'z'
    then some (zstr, 0)
    else if b == b'x'
    then some (padding, 1)
    else if b == b'X'
    then some (padd_align, 0)
    else if b == b' '
    then some (nop, 0)
    else none

abbrev pub choose : Header → ℕ → Bytes → Option (KOption × ℕ) → Packed Chosen
choose h b rest none = special_option h b rest
choose h b rest (some (k, size)) = ok (k, size, h, rest)

-- The caller sees to it that the text is not empty.
unfoldable pub get_option : Header → Bytes → Packed Chosen
unfolding fixed_option special_option
get_option h [] = panic
get_option h (b ∷ rest) = choose h b rest (fixed_option b)

abbrev pub is_char : KOption → Bool
is_char char = true
is_char (int signed) = false
is_char float = false
is_char str = false
is_char zstr = false
is_char padding = false
is_char padd_align = false
is_char nop = false

-- The padding before a value that is to be aligned.
abbrev pub lesser : ℕ → ℕ → ℕ
lesser align maxalign = if ltb maxalign align then maxalign else align

unfoldable pub ntoalign : KOption → ℕ → ℕ → ℕ → Packed ℕ
ntoalign opt align maxalign totalsize =
    if leb align 1 || is_char opt
    then ok 0
    else (let a = lesser align maxalign in
        if not (bit_and a (a - 1) == 0)
        then err not_power_of_2
        else ok (bit_and (a - bit_and totalsize (a - 1)) (a - 1)))

-- The kind, the size, the padding, the header and the text that is left.
abbrev pub Details : Type 0
Details = KOption × ℕ × ℕ × Header × Bytes

abbrev pub padded : KOption → ℕ → ℕ → ℕ → Header → Bytes → Packed Details
padded opt size align totalsize h rest =
    and_then (ntoalign opt align h.maxalign totalsize) (λ n. ok (opt, size, n, h, rest))

abbrev pub borrowed : ℕ → ℕ → Chosen → Packed Details
borrowed size totalsize (next, align, h, rest) =
    if is_char next || (align == 0)
    then err invalid_next
    else padded padd_align size align totalsize h rest

abbrev pub detailed : ℕ → Chosen → Packed Details
detailed totalsize (padd_align, size, h, []) = err invalid_next
detailed totalsize (padd_align, size, h, b ∷ rest) =
    and_then (get_option h (b ∷ rest)) (borrowed size totalsize)
detailed totalsize (int signed, size, h, rest) = padded (int signed) size size totalsize h rest
detailed totalsize (float, size, h, rest) = padded float size size totalsize h rest
detailed totalsize (str, size, h, rest) = padded str size size totalsize h rest
detailed totalsize (char, size, h, rest) = padded char size size totalsize h rest
detailed totalsize (zstr, size, h, rest) = padded zstr size size totalsize h rest
detailed totalsize (padding, size, h, rest) = padded padding size size totalsize h rest
detailed totalsize (nop, size, h, rest) = padded nop size size totalsize h rest

unfoldable pub get_details : Header → ℕ → Bytes → Packed Details
unfolding get_option ntoalign
get_details h totalsize fmt = and_then (get_option h fmt) (detailed totalsize)

abbrev pub is_variable : KOption → Bool
is_variable str = true
is_variable zstr = true
is_variable (int signed) = false
is_variable float = false
is_variable char = false
is_variable padding = false
is_variable padd_align = false
is_variable nop = false

-- One round of `packsize`; `rest` are those that follow. A sum that fits no usize is too large for
-- an i64 as well.
abbrev pub packsize_round :
    (Header → ℕ → Bytes → Option (Packed ℕ)) → ℕ → Packed Details → Option (Packed ℕ)
packsize_round rest total panic = some panic
packsize_round rest total (err e) = some (err e)
packsize_round rest total (ok (opt, size, n, h, fmt)) =
    if is_variable opt
    then some (err variable_length)
    else if leb (total + (n + size)) max_size
    then rest h (total + (n + size)) fmt
    else some (err too_large)

-- The loop of `lua_packsize`; `none` is that the fuel ran out.
unfoldable pub packsize_loop : ℕ → Header → ℕ → Bytes → Option (Packed ℕ)
unfolding get_details
packsize_loop fuel h total [] = some (ok total)
packsize_loop zero h total (b ∷ rest) = none
packsize_loop (suc fuel) h total (b ∷ rest) =
    packsize_round (packsize_loop fuel) total (get_details h total (b ∷ rest))

unfoldable pub lua_packsize : Bytes → Option (Packed ℕ)
unfolding packsize_loop
lua_packsize fmt = packsize_loop (length fmt) (record { little = true; maxalign = 1 }) 0 fmt

-- Where byte `i`, from the lowest on, stands among `size` bytes.
abbrev pub byte_index : Bool → ℕ → ℕ → ℕ
byte_index little size i = if little then i else size - 1 - i

-- The first loop of `pack_int_bytes`, at `i` with `left` rounds to go.
unfoldable pub write_bytes : ℕ → Bool → ℕ → ℕ → ℕ → ℕ → Bytes → Bytes
write_bytes base little size zero i v out = out
write_bytes base little size (suc left) i v out =
    write_bytes base little size left (i + 1) (v / 256)
      (set out (base + byte_index little size i) (v % 256))

-- The second loop, which fills the bytes above those of an integer.
unfoldable pub fill_bytes : ℕ → Bool → ℕ → ℕ → ℕ → Bytes → Bytes
fill_bytes base little size zero i out = out
fill_bytes base little size (suc left) i out =
    fill_bytes base little size left (i + 1) (set out (base + byte_index little size i) 255)

abbrev pub szint : ℕ
szint = 8

unfoldable pub pack_int_bytes : Bytes → ℕ → Bool → ℕ → Bool → Bytes
unfolding write_bytes fill_bytes
pack_int_bytes out n little size neg =
    let base = length out in
    let written = write_bytes base little size size 0 n (out ++ replicate size 0) in
    if neg && ltb szint size
    then fill_bytes base little size (size - szint) szint written
    else written

abbrev pub byte_at : Bytes → ℕ → Packed ℕ
byte_at bytes i = elim (get_elem? bytes i) [ none ↦ panic | some b ↦ ok b ]

abbrev pub lesser_size : ℕ → ℕ
lesser_size size = if ltb size szint then size else szint

-- The first loop of `unpack_int`, from byte `left` down.
unfoldable pub read_bytes : Bytes → Bool → ℕ → ℕ → ℕ → Packed ℕ
read_bytes bytes little size zero res = ok res
read_bytes bytes little size (suc i) res =
    and_then (byte_at bytes (byte_index little size i))
      (λ b. read_bytes bytes little size i (bit_or (res * 256 % 2 ^ 64) b))

-- The second loop: the bytes that are not read are all `fill`.
unfoldable pub check_fill : Bytes → Bool → ℕ → ℕ → ℕ → ℕ → ℕ → Packed ℕ
check_fill bytes little size fill res zero i = ok res
check_fill bytes little size fill res (suc left) i =
    and_then (byte_at bytes (byte_index little size i)) (λ b.
      if b == fill
      then check_fill bytes little size fill res left (i + 1)
      else err (does_not_fit size))

-- `(res ^ mask).wrapping_sub(mask)`
unfoldable pub sign_extended : ℕ → ℕ → ℕ
sign_extended size res =
    let mask = 2 ^ (size * 8 - 1) in (bit_xor res mask + (2 ^ 64 - mask)) % 2 ^ 64

-- What is done with the bits that were read; the result is the 64 bits of an i64.
abbrev pub after_read : Bytes → Bool → ℕ → Bool → ℕ → Packed ℕ
after_read bytes little size signed res =
    if ltb size szint
    then ok (if signed then sign_extended size res else res)
    else if ltb szint size
    then check_fill bytes little size (if not signed || ltb res (2 ^ 63) then 0 else 255) res
        (size - szint) szint
    else ok res

unfoldable pub unpack_int : Bytes → Bool → ℕ → Bool → Packed ℕ
unfolding read_bytes check_fill sign_extended
unpack_int bytes little size signed =
    and_then (read_bytes bytes little size (lesser_size size) 0)
      (after_read bytes little size signed)
