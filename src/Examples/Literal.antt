-- ===== src/Examples/Literal.antt =====
-- Escapes of src/parser/lit.rs at work.
use tcvm.Common.{◌≡◌, refl, arith, some, [], ◌∷◌}
use tcvm.Utf8.{encode}
use tcvm.Literal.{utf8_encode, parse_unicode_escape, parse_decimal_escape, parse_hex_escape}
use tcvm.Literal.{to_digit}
use tcvm.Literal.Encoder.{utf8_encode-eq-encode}
use tcvm.Literal.Escapes.{parse_unicode_escape_lem, parse_decimal_escape_lem}
use tcvm.Literal.Escapes.{parse_hex_escape_lem, unicode_token, code_point_of, byte_of}
use tcvm.Literal.Escapes.{digits_value}

utf8_encode-eq-encode_example : utf8_encode (0x61 ∷ []) 0x20ac ≡ encode 0x20ac (0x61 ∷ [])
utf8_encode-eq-encode_example = utf8_encode-eq-encode (0x61 ∷ []) 0x20ac (omega arith)

parse_unicode_escape_lem_example :
    parse_unicode_escape [] (unicode_token (b'2' ∷ b'0' ∷ b'a' ∷ b'c' ∷ []))
    ≡ code_point_of [] (digits_value 16 (b'2' ∷ b'0' ∷ b'a' ∷ b'c' ∷ []) 0)
parse_unicode_escape_lem_example =
    parse_unicode_escape_lem [] (b'2' ∷ b'0' ∷ b'a' ∷ b'c' ∷ []) (omega arith)

parse_decimal_escape_lem_example :
    parse_decimal_escape [] (b'\\' ∷ b'2' ∷ b'5' ∷ b'5' ∷ [])
    ≡ byte_of [] (digits_value 10 (b'2' ∷ b'5' ∷ b'5' ∷ []) 0)
parse_decimal_escape_lem_example =
    parse_decimal_escape_lem [] (b'2' ∷ b'5' ∷ b'5' ∷ []) (omega arith)

parse_hex_escape_lem_example :
    parse_hex_escape [] (b'\\' ∷ b'x' ∷ b'f' ∷ b'0' ∷ []) ≡ some (0xf0 ∷ [])
unfolding to_digit
parse_hex_escape_lem_example = parse_hex_escape_lem [] b'f' b'0' refl refl (omega arith)
