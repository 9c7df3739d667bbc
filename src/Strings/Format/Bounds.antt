-- ===== src/Strings/Format/Bounds.antt =====
-- What a specification that is accepted satisfies.
use tcvm.Common.{ℕ, ◌+◌, ◌≤◌, ◌<◌, ◌≡◌}
use tcvm.Common.{Option, none, some}
use tcvm.Common.{length, get_elem?}
use tcvm.Pattern.{Bytes}
use tcvm.Strings.Format.{FmtSpec, Parsed, parsed, invalid_conv_spec, cannot_have_modifiers}

-- Two digits at most.
abbrev pub Small : Option ℕ → Type 0
Small none = Unit {0}
Small (some p) = p ≤ 99

-- Of `n` digits the first two make the value.
record Read (value n : ℕ) : Type 0 where
  bound : value ≤ 99
  first : n ≡ 0 → value ≡ 0
  second : n ≡ 1 → value ≤ 9

-- A value of two digits at most, read from `i` on.
abbrev ReadFrom : ℕ → ℕ × ℕ × ℕ → Type 0
ReadFrom i (value, n, e) = (value ≤ 99) × (i ≤ e)

-- Flags read from `i` on, which leave the precision alone.
abbrev FlagsFrom : Option ℕ → ℕ → FmtSpec × ℕ → Type 0
FlagsFrom p i (spec, e) = (spec.precision ≡ p) × (i ≤ e)

module _ (fmt : Bytes) where
  -- What `check_conv` accepts.
  abbrev Accepted : FmtSpec → ℕ → Parsed → Type 0
  Accepted spec i (parsed out next) =
      (out.width ≡ spec.width)
      × (out.precision ≡ spec.precision)
      × (next ≡ i + 1)
      × (get_elem? fmt i ≡ some out.conv)
  Accepted spec i invalid_conv_spec = Unit {0}
  Accepted spec i cannot_have_modifiers = Unit {0}

-- What `parse_spec` accepts from `start` on.
abbrev pub Bounded : Bytes → ℕ → Parsed → Type 0
Bounded fmt start (parsed spec next) =
    (i : ℕ) × (next ≡ i + 1)
    × (start ≤ i)
    × (i < length fmt)
    × (get_elem? fmt i ≡ some spec.conv)
    × (spec.width ≤ 99)
    × Small spec.precision
Bounded fmt start invalid_conv_spec = Unit {0}
Bounded fmt start cannot_have_modifiers = Unit {0}
