-- ===== src/Utf8/RoundTrip.antt =====
-- What `encode` writes, `decode` reads back.
use tcvm.Common.{arith, ℕ, ◌+◌, ◌^◌, ◌<◌, ◌≡◌, ◌∙◌, ap, Bool, not, ◌&&◌, none, some, [], ◌++◌}
use tcvm.Common.{length, if◌then◌else◌}
use tcvm.Utf8.{Bytes, encode, decode}
use tcvm.Utf8.Encode.{encode-sequence, sequence}
use tcvm.Utf8.Decode.{is_scalar, decode-sequence_start}
use tcvm.Utf8.Shift.{shift, decode-append}

if-shift :
    (b : Bool) (k code next : ℕ)
    → shift k (if b then none else some (code, next)) ≡ (if b then none else some (code, k + next))
if-shift b k code next = ground arith

-- At the position where the encoding of any code point below 2 ^ 31 stands in a text, `decode`
-- answers that code point and the position behind it; strictly, it refuses exactly the code
-- points that are no Unicode scalar values.
pub decode-encode :
    (cp : ℕ) (before after : Bytes) (strict : Bool)
    → cp < 2 ^ 31
    → decode (before ++ (encode cp [] ++ after)) (length before) strict ≡ (
        if strict && not (is_scalar cp)
        then none
        else some (cp, length before + length (encode cp [])))
decode-encode cp before after strict h = rw (encode-sequence cp [] h) (
    decode-append before (sequence cp ++ after) strict
    ∙ ap (shift (length before)) (decode-sequence_start cp after strict h)
    ∙ if-shift (strict && not (is_scalar cp)) (length before) cp (length (sequence cp)))
