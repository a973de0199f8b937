-- ===== src/Streamer/Dwell/Glued.antt =====
-- What the dwell pattern of streamer.py does not find.
use grbl_proxy.Prelude.{◌≡◌, refl, Bool, true, not, ◌&&◌, none, [], ◌∷◌, ◌++◌, arith, ◌==◌}
use grbl_proxy.Text.{Text, codes, to_upper, drop_while, is_digit, is_letter}
use grbl_proxy.Streamer.Dwell.{is_word, find_g4, search_dwell, no_dwell}

-- A text without the letter G, in either case.
abbrev pub has_no_g : Text → Bool
has_no_g [] = true
has_no_g (c ∷ s) = not (to_upper c == b'G') && has_no_g s

find_g4-without_g : (before : Bool) (s : Text) → has_no_g s ≡ true → find_g4 before s ≡ none
unfolding find_g4
find_g4-without_g before [] h = refl
find_g4-without_g before (c ∷ s) h =
    let later = find_g4-without_g (is_word c) s in ground (arith, later)

-- A dwell that is written without a space, as in "G4P10", is not found, whatever its numeral is: no
-- text without a further G makes the pattern match behind "G4P".
pub glued_dwell_is_missed :
    (s : Text) → has_no_g s ≡ true → search_dwell (codes "G4P" ++ s) ≡ no_dwell
unfolding search_dwell find_g4 is_word is_letter is_digit to_upper drop_while
glued_dwell_is_missed s h = rw (find_g4-without_g true s h) refl
