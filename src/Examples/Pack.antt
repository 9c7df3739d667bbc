-- ===== src/Examples/Pack.antt =====
-- Options and integers of `string.pack`.
use tcvm.Common.{◌≡◌, refl, arith, true, false, [], ◌∷◌, drop, some}
use tcvm.Pack.Sizes.{Sized, lua_packsize-Sized}
use tcvm.Pack.{lua_packsize, Header, ok, padd_align, pack_int_bytes, unpack_int, get_details}
use tcvm.Pack.Layout.{Laid, get_details_lem}
use tcvm.Pack.Integers.{unpack_int-pack_int_bytes}

abbrev native : Header
native = record { little = true; maxalign = 8 }

-- "i4" behind three bytes, padded by one
get_details_lem_example : Laid native (b'i' ∷ b'4' ∷ []) 3 (get_details native 3 (b'i' ∷ b'4' ∷ []))
get_details_lem_example = get_details_lem native 3 b'i' (b'4' ∷ []) (omega arith) (omega arith)

-- "Xd" behind three bytes, padded by five
borrowed_padding : get_details native 3 (b'X' ∷ b'd' ∷ []) ≡ ok (padd_align, 0, 5, native, [])
unfolding get_details
borrowed_padding = refl

packed : pack_int_bytes (7 ∷ []) 258 false 3 false ≡ 7 ∷ 0 ∷ 1 ∷ 2 ∷ []
unfolding pack_int_bytes
packed = refl

unpack_int-pack_int_bytes_example :
    unpack_int (drop 1 (pack_int_bytes (7 ∷ []) 258 false 3 false)) false 3 false ≡ ok 258
unpack_int-pack_int_bytes_example = unpack_int-pack_int_bytes (7 ∷ []) 258 false 3 (omega arith)

-- "!4 b i4": a byte, padding to four, four bytes
aligned_size : lua_packsize (b'!' ∷ b'4' ∷ b'b' ∷ b'i' ∷ b'4' ∷ []) ≡ some (ok 8)
unfolding lua_packsize
aligned_size = refl

lua_packsize-Sized_example : Sized (lua_packsize (b'!' ∷ b'4' ∷ b'b' ∷ b'i' ∷ b'4' ∷ []))
lua_packsize-Sized_example = lua_packsize-Sized (b'!' ∷ b'4' ∷ b'b' ∷ b'i' ∷ b'4' ∷ [])
