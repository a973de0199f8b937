-- ===== src/Streamer/Dwell.antt =====
-- The longest G4 dwell of a job, `max(float(m.group(1)) …)` over `_G4_DWELL_RE` in streamer.py.
-- A dwell is read in microseconds, which drops what is below one.
pub mod Glued
use Prim.Native.Nat.{◌/◌, ◌^◌}
use grbl_proxy.Prelude.{
  ℕ, ◌*◌, ◌≡◌, refl, max, Bool, true, false, not, ◌&&◌, ◌||◌, Option, none, some, List, [], ◌∷◌,
  ◌++◌, length, ◌==◌, if◌then◌else◌,
}
use grbl_proxy.Text.{
  Text, codes, is_space, is_digit, is_letter, to_upper, is_empty, take_while, drop_while, decimal,
}

-- `\w`
unfoldable is_word : ℕ → Bool
unfolding is_letter is_digit
is_word c = is_letter c || is_digit c || c == b'_'

-- `\b` before a text that a word character does not precede
abbrev no_word_next : Text → Bool
no_word_next [] = true
no_word_next (c ∷ s) = not (is_word c)

abbrev after_four : Text → Option Text
after_four [] = none
after_four (c ∷ s) = if c == b'4' && no_word_next s then some s else none

abbrev is_zero_digit : ℕ → Bool
is_zero_digit c = c == b'0'

-- what follows the leftmost `\bG0*4\b`; `before` says whether a word character stands before `s`
unfoldable find_g4 : Bool → Text → Option Text
unfolding is_word drop_while to_upper
find_g4 before [] = none
find_g4 before (c ∷ s) =
    let later = find_g4 (is_word c) s in
    if not before && to_upper c == b'G'
    then elim (after_four (drop_while is_zero_digit s)) [ some rest ↦ some rest | none ↦ later ]
    else later

abbrev is_numeral : ℕ → Bool
is_numeral c = is_digit c || c == b'.'

-- the first `P\s*([\d.]+)`: its group
unfoldable find_p : Text → Option Text
unfolding drop_while take_while to_upper is_space is_digit
find_p [] = none
find_p (c ∷ s) =
    let later = find_p s in
    let numeral = take_while is_numeral (drop_while is_space s) in
    if to_upper c == b'P' && not (is_empty numeral) then some numeral else later

pub data Found : Type 0 where
  no_dwell : Found
  seconds : Text → Found

abbrev p_of : Option Text → Found
p_of none = no_dwell
p_of (some rest) = elim (find_p rest) [ none ↦ no_dwell | some group ↦ seconds group ]

-- _G4_DWELL_RE.search(line)
unfoldable pub search_dwell : Text → Found
unfolding find_g4 find_p
search_dwell line = p_of (find_g4 false line)

abbrev drop_point : Text → Text
drop_point [] = []
drop_point (c ∷ s) = s

-- float() of digits and points; `none` is ValueError
unfoldable pub microseconds : Text → Option ℕ
unfolding take_while drop_while is_digit decimal
microseconds group =
    let whole = take_while is_digit group in
    let fraction = drop_point (drop_while is_digit group) in
    if is_empty (whole ++ fraction) || not (is_empty (drop_while is_digit fraction))
    then none
    else some (decimal 0 (whole ++ fraction) * 1_000_000 / 10 ^ length fraction)

abbrev add_dwell : Found → Option ℕ → Option ℕ
add_dwell no_dwell rest = rest
add_dwell (seconds group) rest = elim (microseconds group) [
  | none ↦ none
  | some us ↦ elim rest [ none ↦ none | some longest ↦ some (max us longest) ]
]

-- the longest dwell, 0 if there is none; `none` is the ValueError of a malformed number
unfoldable pub max_dwell : List Text → Option ℕ
unfolding search_dwell microseconds
max_dwell [] = some 0
max_dwell (line ∷ lines) = add_dwell (search_dwell line) (max_dwell lines)
