-- ===== src/Env/Value.antt =====
-- src/env/value.rs: a value is a kind and 64 bits of data; what the bits mean depends on the kind.
use tcvm.Common.{ℕ, ◌≡◌, Bool, true, false, not, ◌&&◌, Option, none, some, ◌==◌, if◌then◌else◌}
use tcvm.Common.{arith}
use tcvm.Common.Int.{ℤ}
use tcvm.Env.{ValueKind, discriminant}
use tcvm.Num.{to_bits, of_bits}

pub record Value : Type 0 where
  pub kind : ValueKind
  pub bits : ℕ

-- `kind == k`
unfoldable pub has_kind : ValueKind → Value → Bool
unfolding discriminant
has_kind k v = discriminant v.kind == discriminant k

-- `PartialEq` for `Value`, which is derived.
unfoldable pub same : Value → Value → Bool
unfolding has_kind
same a b = has_kind b.kind a && (a.bits == b.bits)

unfoldable pub nil : Value
nil = record { kind = ValueKind.nil; bits = 0 }

unfoldable pub is_nil : Value → Bool
unfolding has_kind
is_nil v = has_kind ValueKind.nil v

unfoldable pub of_boolean : Bool → Value
of_boolean b = record { kind = ValueKind.boolean; bits = if b then 1 else 0 }

-- `get_boolean`; the outer `none` is the `unreachable_unchecked` of other data.
unfoldable pub get_boolean : Value → Option (Option Bool)
unfolding has_kind
get_boolean v =
    if not (has_kind ValueKind.boolean v)
    then some none
    else if v.bits == 0
    then some (some false)
    else if v.bits == 1
    then some (some true)
    else none

unfoldable pub of_integer : ℤ → Value
of_integer i = record { kind = ValueKind.integer; bits = to_bits i }

unfoldable pub get_integer : Value → Option ℤ
unfolding has_kind
get_integer v = if not (has_kind ValueKind.integer v) then none else some (of_bits v.bits)

-- A value of one of the other kinds: a float by its bits, an object by its address.
unfoldable pub of_kind : ValueKind → ℕ → Value
of_kind k bits = record { kind = k; bits = bits }

-- `get_float`, `get_string`, `get_table` and so on
unfoldable pub get_kind : ValueKind → Value → Option ℕ
unfolding has_kind
get_kind k v = if not (has_kind k v) then none else some v.bits

abbrev pub of_string : ℕ → Value
of_string s = of_kind ValueKind.string s

abbrev pub get_string : Value → Option ℕ
get_string v = get_kind ValueKind.string v

abbrev pub get_float : Value → Option ℕ
get_float v = get_kind ValueKind.float v

-- `self.kind == Nil || self.get_boolean() == Some(false)`
unfoldable pub is_falsy : Value → Option Bool
unfolding is_nil get_boolean
is_falsy v = if is_nil v then some true else elim (get_boolean v) [
  | none ↦ none
  | some none ↦ some false
  | some (some b) ↦ some (not b)
]

discriminant-injective : (a b : ValueKind) → discriminant a ≡ discriminant b → a ≡ b
unfolding discriminant
discriminant-injective a b e = grind arith

pub get_kind-some : (k : ValueKind) (v : Value) (n : ℕ) → get_kind k v ≡ some n → v ≡ of_kind k n
unfolding get_kind has_kind of_kind
get_kind-some k v n e =
    let kinds : v.kind ≡ k = discriminant-injective v.kind k (ground (arith, e)) in
    let bits : v.bits ≡ n = ground (arith, e) in ground (arith, kinds, bits)

pub get_kind-of_kind : (k : ValueKind) (n : ℕ) → get_kind k (of_kind k n) ≡ some n
unfolding get_kind has_kind of_kind
get_kind-of_kind k n = ground arith
