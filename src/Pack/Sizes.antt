-- ===== src/Pack/Sizes.antt =====
-- `lua_packsize` of src/builtin/string/pack.rs.
use tcvm.Common.{ℕ, zero, suc, ◌+◌, ◌≤◌, ◌<◌, arith, inl, inr, true, Bool-cases, Option, some, []}
use tcvm.Common.{◌∷◌, length, leb}
use tcvm.Pattern.{Bytes}
use tcvm.Pack.{Header, Packed, ok, err, panic, PackError, Details, is_variable, packsize_round}
use tcvm.Pack.{packsize_loop, lua_packsize, max_size}
use tcvm.Pack.Layout.{Asks, LaidBy, get_details_lem}

-- An error, or a size that fits an i64.
pub data Sized : Option (Packed ℕ) → Type 0 where
  raises : {e : PackError} → Sized (some (err e))
  sums : {t : ℕ} → t ≤ max_size → Sized (some (ok t))

packsize_round-Sized :
    (P : Details → Type 0) (rest : Header → ℕ → Bytes → Option (Packed ℕ)) (total len : ℕ)
    (d : Packed Details)
    → ((h : Header) (t : ℕ) (fmt : Bytes)
        → 1 ≤ h.maxalign
        → h.maxalign ≤ 16
        → t ≤ max_size
        → length fmt < len
        → Sized (rest h t fmt))
    → LaidBy P len d
    → Sized (packsize_round rest total d)
packsize_round-Sized P rest total len (err e) sized laid = raises
packsize_round-Sized P rest total len panic sized laid = absurd laid
packsize_round-Sized P rest total len (ok (opt, size, n, h, fmt)) sized (took, pads) =
    elim (Bool-cases (is_variable opt)) [
      | inl t ↦ rw t raises
      | inr f ↦ elim (Bool-cases (leb (total + (n + size)) max_size)) [
        | inl fits ↦
            rw (f, fits) (sized h _ fmt took.align_low took.align_high (ground arith) took.shorter)
        | inr large ↦ rw (f, large) raises
      ]
    ]

packsize_loop-Sized :
    (fuel : ℕ) (h : Header) (total : ℕ) (fmt : Bytes)
    → 1 ≤ h.maxalign
    → h.maxalign ≤ 16
    → total ≤ max_size
    → length fmt ≤ fuel
    → Sized (packsize_loop fuel h total fmt)
unfolding packsize_loop
packsize_loop-Sized fuel h total [] low high bound enough = sums bound
packsize_loop-Sized zero h total (b ∷ rest) low high bound enough = absurd (omega arith)
packsize_loop-Sized (suc fuel) h total (b ∷ rest) low high bound enough =
    packsize_round-Sized (Asks h (b ∷ rest) total) (packsize_loop fuel) total (suc (length rest)) _
      (λ h' t fmt low' high' bound' shorter.
        packsize_loop-Sized fuel h' t fmt low' high' bound' (omega arith))
      (get_details_lem h total b rest low high)

-- On every format `packsize` ends without a panic: it raises an error, or returns a size that fits
-- an i64. The length of the format is fuel enough, since every round takes a byte.
pub lua_packsize-Sized : (fmt : Bytes) → Sized (lua_packsize fmt)
unfolding lua_packsize
lua_packsize-Sized fmt =
    packsize_loop-Sized (length fmt) (record { little = true; maxalign = 1 }) 0 fmt (omega arith)
      (omega arith) (omega arith) (omega arith)
