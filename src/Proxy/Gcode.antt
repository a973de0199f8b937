-- ===== src/Proxy/Gcode.antt =====
-- The helpers of proxy_core.py on a line of G-code.
use grbl_proxy.Prelude.{Bool, true, false, not, ◌&&◌, ◌||◌, [], ◌∷◌, ◌==◌, if◌then◌else◌}
use grbl_proxy.Text.{
  Text, codes, is_space, is_digit, is_upper, is_empty, same, upper, strip, drop_while, starts_with,
}

abbrev starts_word : Text → Bool
starts_word [] = false
starts_word (d ∷ t) = not (is_space d)

-- " ".join(s.split()): runs of white space become one space, none at the ends
unfoldable pub collapse : Text → Text
unfolding is_space drop_while
collapse [] = []
collapse (c ∷ s) =
    let rest = collapse s in
    if is_space c
    then rest
    else if starts_word s
    then c ∷ rest
    else if is_empty rest
    then c ∷ []
    else c ∷ b' ' ∷ rest

abbrev digit_next : Text → Bool
digit_next [] = false
digit_next (d ∷ t) = is_digit d

-- re.sub(r'([A-Z])0+(\d)', r'\1\2', s): after a capital letter a zero goes if a digit follows it
unfoldable pub drop_zeros : Bool → Text → Text
unfolding is_upper is_digit
drop_zeros after_letter [] = []
drop_zeros after_letter (c ∷ s) =
    if after_letter && c == b'0' && digit_next s
    then drop_zeros true s
    else c ∷ drop_zeros (is_upper c) s

-- _normalize_gcode
unfoldable pub normalize_gcode : Text → Text
unfolding collapse drop_zeros upper strip
normalize_gcode line = drop_zeros false (collapse (upper (strip line)))

unfoldable pub is_program_end_command : Text → Bool
unfolding upper strip same starts_with
is_program_end_command line =
    let s = upper (strip line) in
    same s (codes "M2")
    || same s (codes "M30")
    || starts_with (codes "M2 ") s
    || starts_with (codes "M30 ") s
