-- ===== src/Examples/Utf8.antt =====
-- Runs of src/builtin/utf8.rs: the text "aé€" and its code points.
use tcvm.Common.{not, ◌&&◌, if◌then◌else◌, true, false, some, ◌++◌, List, [], length, map, none}
use tcvm.Common.{◌∷◌, ℕ, ◌+◌, ◌≡◌, ◌≢◌, refl, arith, ◌<◌}
use tcvm.Common.Int.{pos, negsuc}
use tcvm.Utf8.{Bytes, decode, encode, leading_ones, decode_tail, decode_checks}
use tcvm.Utf8.Decode.{is_scalar}
use tcvm.Utf8.RoundTrip.{decode-encode}
use tcvm.Utf8.Canonical.{decode-canonical}
use tcvm.Utf8.Library.{lua_char, lua_codepoint, lua_len, iterate, returns, stuck, count}
use tcvm.Utf8.Library.Offset.{lua_offset, lua_offset-Answer, Answer}
use tcvm.Utf8.Library.Loops.{lua_len-ne-stuck, lua_codepoint-ne-stuck}
use tcvm.Utf8.Library.Texts.{char-codepoint-len, iterate_lem, text, positions}

abbrev points : List ℕ
points = 0x61 ∷ 0xe9 ∷ 0x20ac ∷ []

abbrev euro : Bytes
euro = 0xe2 ∷ 0x82 ∷ 0xac ∷ []

encode-euro : encode 0x20ac [] ≡ euro
unfolding encode
encode-euro = refl

decode-encode_example : decode ((0x61 ∷ []) ++ (encode 0x20ac [] ++ (0x62 ∷ []))) 1 true ≡ (
    if true && not (is_scalar 0x20ac) then none else some (0x20ac, 1 + length (encode 0x20ac [])))
decode-encode_example = decode-encode 0x20ac (0x61 ∷ []) (0x62 ∷ []) true (omega arith)

decode-canonical_example :
    (rest : Bytes) × (euro ≡ encode 0x20ac [] ++ rest)
    × (3 ≡ length (encode 0x20ac []))
    × (0x20ac < 2147483648)
unfolding decode leading_ones decode_tail decode_checks encode
decode-canonical_example =
    decode-canonical [] euro true 0x20ac 3 (omega arith, (omega arith, (omega arith, tt))) refl

char-codepoint-len_example :
    (lua_char (map pos points) ≡ returns (text points))
    × (lua_codepoint (text points) (some (pos 1)) (some (negsuc 0)) true ≡ returns points)
    × (lua_len (text points) none none true ≡ returns (count 3))
char-codepoint-len_example =
    char-codepoint-len points true
      ((omega arith, refl), ((omega arith, refl), ((omega arith, refl), tt)))

iterate_lem_example :
    iterate (length (text points) + 1) (text points) 0 ≡ returns (positions 0 points)
iterate_lem_example =
    iterate_lem points ((omega arith, refl), ((omega arith, refl), ((omega arith, refl), tt)))

lua_len-ne-stuck_example : lua_len (0x61 ∷ 0xff ∷ []) (some (negsuc 1)) none true ≢ stuck
lua_len-ne-stuck_example = lua_len-ne-stuck (0x61 ∷ 0xff ∷ []) (some (negsuc 1)) none true

lua_codepoint-ne-stuck_example : lua_codepoint euro none none false ≢ stuck
lua_codepoint-ne-stuck_example = lua_codepoint-ne-stuck euro none none false

lua_offset-Answer_example : Answer euro (lua_offset euro (negsuc 0) none)
lua_offset-Answer_example = lua_offset-Answer euro (negsuc 0) none
