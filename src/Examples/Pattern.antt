-- ===== src/Examples/Pattern.antt =====
-- Matches of src/builtin/string/pattern.rs.
use tcvm.Common.{refl, [], replicate, some, arith, ℕ, ◌∷◌, ◌≡◌, Option}
use tcvm.Pattern.Matcher.{get_onecapture, Matcher, match_at, new}
use tcvm.Pattern.{Bytes, ok, Returns, len, unfinished}
use tcvm.Pattern.Matcher.Safety.{match_at_total, get_onecapture-match_at, Matched, InSubject}
use tcvm.Pattern.Class.{classend, single_match, match_class, class_test}
use tcvm.Pattern.Search.{plain_find, plain_find_lem, First}

-- "ab1" and "(%a+)%d"
abbrev subject : Bytes
subject = b'a' ∷ b'b' ∷ b'1' ∷ []

abbrev pattern_ : Bytes
pattern_ = b'(' ∷ b'%' ∷ b'a' ∷ b'+' ∷ b')' ∷ b'%' ∷ b'd' ∷ []

abbrev matched : Matcher
matched = record {
  level = 1;
  matchdepth = 200;
  capture =
      record { init = 0; kind = len 2 } ∷ replicate 31 (record { init = 0; kind = unfinished });
}

match_at_total_example : Returns (Matched 3 0) (match_at subject pattern_ new 0)
unfolding new
match_at_total_example = match_at_total subject pattern_ 0 new refl (omega arith)

run : match_at subject pattern_ new 0 ≡ ok (some 3, matched)
unfolding match_at new classend single_match match_class class_test
run = refl

get_onecapture-match_at_example :
    Returns (InSubject 3) (get_onecapture subject pattern_ matched 0 0 3)
unfolding new
get_onecapture-match_at_example =
    get_onecapture-match_at subject pattern_ 0 3 0 new matched refl (omega arith) run

plain_find_lem_example :
    (o : Option ℕ) × (plain_find subject (b'b' ∷ []) ≡ ok o) × First subject (b'b' ∷ []) 0 o
plain_find_lem_example = plain_find_lem subject (b'b' ∷ [])
