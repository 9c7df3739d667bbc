-- ===== src/Examples/Strings.antt =====
-- Calls of `find`, `match`, `gmatch` and `gsub`.
use tcvm.Common.{refl, ℕ, arith, ◌+◌, ◌≡◌, ◌≤◌, false, Option, some, [], ◌∷◌, length, map, ◌<◌}
use tcvm.Common.{◌*◌, ◌^◌}
use tcvm.Common.Int.{ℤ, negsuc}
use tcvm.Pattern.{Bytes, Returns, ok}
use tcvm.Strings.Basic.{lua_byte, lua_sub, lua_rep, lua_char_bytes, text, lua_byte-lua_sub}
use tcvm.Strings.Basic.{lua_rep_lem, lua_char-lua_byte}
use tcvm.Strings.{lua_find, lua_match, lua_gmatch, gmatch_aux, init_pos}
use tcvm.Strings.Searches.{Located, lua_find_total, lua_match_total, start_of}
use tcvm.Strings.Matches.{IsPlaced, StartsAt, Stepped, gmatch_aux_total, lua_gmatch-IsPlaced}
use tcvm.Strings.Matches.{after}
use tcvm.Strings.Gsub.{gsub_string}
use tcvm.Strings.Replacements.{Holds}
use tcvm.Strings.Whole.{whole_match, gsub_string_total, gsub_string-whole_match}

-- "ab12" and "%d+"
abbrev subject : Bytes
subject = b'a' ∷ b'b' ∷ b'1' ∷ b'2' ∷ []

abbrev digits : Bytes
digits = b'%' ∷ b'd' ∷ b'+' ∷ []

abbrev one_digit : ℕ → Bytes
one_digit n = (n + 48) ∷ []

lua_find_total_example :
    Returns
      (Located 4 (start_of (init_pos (negsuc 2) 4)))
      (lua_find subject digits (negsuc 2) false)
lua_find_total_example = lua_find_total subject digits (negsuc 2) false

lua_match_total_example : Returns (λ vs. 1 ≤ length vs) (lua_match subject digits (ℤ.pos 1))
lua_match_total_example = lua_match_total subject digits (ℤ.pos 1)

gmatch_aux_total_example :
    Returns
      (Stepped 4 (record { pos = 2; lastmatch = some 2 }))
      (gmatch_aux subject digits (record { pos = 2; lastmatch = some 2 }))
gmatch_aux_total_example =
    gmatch_aux_total subject digits (record { pos = 2; lastmatch = some 2 }) (after (omega arith))

lua_gmatch-IsPlaced_example :
    IsPlaced 4 (lua_gmatch subject (ℤ.pos 7))
    × StartsAt 4 (ℤ.pos 7) ((lua_gmatch subject (ℤ.pos 7)).pos)
    × ((lua_gmatch subject (ℤ.pos 7)).lastmatch ≡ Option.none)
lua_gmatch-IsPlaced_example = lua_gmatch-IsPlaced subject (ℤ.pos 7)

gsub_string_total_example :
    Holds
      (λ (out, count). count ≤ 2)
      (gsub_string one_digit subject digits (b'<' ∷ b'%' ∷ b'1' ∷ b'>' ∷ []) (ℤ.pos 2))
gsub_string_total_example =
    gsub_string_total one_digit subject digits (ℤ.pos 2) (b'<' ∷ b'%' ∷ b'1' ∷ b'>' ∷ [])

gsub_string-whole_match_example :
    Holds
      (λ (out, count). (out ≡ subject) × (count ≤ 3))
      (gsub_string one_digit subject digits whole_match (ℤ.pos 3))
gsub_string-whole_match_example = gsub_string-whole_match one_digit subject digits (ℤ.pos 3)

lua_byte-lua_sub_example :
    (bs : Bytes) × (lua_byte subject (some (ℤ.pos 2)) (some (ℤ.pos 9)) ≡ ok bs)
    × (lua_sub subject (some (ℤ.pos 2)) (some (ℤ.pos 9)) ≡ ok bs)
lua_byte-lua_sub_example = lua_byte-lua_sub subject (ℤ.pos 2) (ℤ.pos 9)

abbrev repeated : Bytes
repeated = b'a' ∷ b'b' ∷ b',' ∷ b'a' ∷ b'b' ∷ b',' ∷ b'a' ∷ b'b' ∷ []

lua_rep_lem_example : (length repeated ≡ 2 * 3 + 1 * 2) × (length repeated < 2 ^ 63)
unfolding lua_rep
lua_rep_lem_example = lua_rep_lem (b'a' ∷ b'b' ∷ []) (b',' ∷ []) repeated 2 refl

lua_char-lua_byte_example :
    (lua_char_bytes (map ℤ.pos subject) ≡ text subject)
    × (lua_byte subject (some (ℤ.pos 1)) (some (negsuc 0)) ≡ ok subject)
lua_char-lua_byte_example =
    lua_char-lua_byte subject (omega arith, (omega arith, (omega arith, (omega arith, tt))))

-- "%-5.2f"
abbrev spec_text : Bytes
spec_text = b'%' ∷ b'-' ∷ b'5' ∷ b'.' ∷ b'2' ∷ b'f' ∷ []
