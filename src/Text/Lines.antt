-- ===== src/Text/Lines.antt =====
-- What iterating over a text file gives: `for line in f`, with universal newlines.
use grbl_proxy.Prelude.{
  ℕ, ◌≡◌, refl, ap, sym, ◌∙◌, Bool, true, false, not, ◌&&◌, List, [], ◌∷◌, ◌++◌, arith, ◌==◌,
  if◌then◌else◌,
}
use grbl_proxy.Text.Parts.{third}
use grbl_proxy.Text.{Text, is_empty, drop_while, drop_while_end, strip, is_space}

abbrev line_feed : ℕ
line_feed = 10

abbrev carriage_return : ℕ
carriage_return = 13

abbrev goes_before : ℕ → List Text → List Text
goes_before c [] = (c ∷ []) ∷ []
goes_before c (l ∷ ls) = (c ∷ l) ∷ ls

abbrev next_line : Bool → ℕ → List Text → List Text
next_line after_cr c ls =
    if c == line_feed
    then (if after_cr then ls else (line_feed ∷ []) ∷ ls)
    else if c == carriage_return
    then (line_feed ∷ []) ∷ ls
    else goes_before c ls

-- The lines of a text: each ends with LF, CR or CR LF, which is read as LF; the last may end without.
-- `after_cr` says that an LF still belongs to the line before.
unfoldable pub text_lines : Bool → Text → List Text
text_lines after_cr [] = []
text_lines after_cr (c ∷ s) = next_line after_cr c (text_lines (c == carriage_return) s)

-- A text without an end of line in it.
abbrev pub is_plain : Text → Bool
is_plain [] = true
is_plain (c ∷ s) = not (c == line_feed) && not (c == carriage_return) && is_plain s

abbrev pub are_plain : List Text → Bool
are_plain [] = true
are_plain (l ∷ ls) = is_plain l && are_plain ls

abbrev pub ended : Text → Text
ended l = l ++ line_feed ∷ []

-- What a test for neither end of a line says.
pub neither_of :
    (a b d : Bool) → (not a && not b && d) ≡ true → (a ≡ false) × (b ≡ false) × (d ≡ true)
neither_of a b d h = (ground arith, ground arith, ground arith)

text_lines-plain :
    (c : ℕ) (s l : Text) (ls : List Text)
    → (c == line_feed) ≡ false
    → (c == carriage_return) ≡ false
    → text_lines false s ≡ l ∷ ls
    → text_lines false (c ∷ s) ≡ (c ∷ l) ∷ ls
unfolding text_lines
text_lines-plain c s l ls a b e =
    third (c == line_feed) (c == carriage_return) _ _ _ a b
    ∙ ap (λ u. goes_before c (text_lines u s)) b
    ∙ ap (goes_before c) e

pub text_lines-ended :
    (l rest : Text)
    → is_plain l ≡ true
    → text_lines false (ended l ++ rest) ≡ ended l ∷ text_lines false rest
unfolding text_lines
text_lines-ended [] rest h = refl
text_lines-ended (c ∷ l) rest h =
    let (a, b, d) = neither_of (c == line_feed) (c == carriage_return) (is_plain l) h in
    text_lines-plain c (ended l ++ rest) (ended l) (text_lines false rest) a b
      (text_lines-ended l rest d)

abbrev pub all_space : Text → Bool
all_space [] = true
all_space (c ∷ s) = is_space c && all_space s

drop_while_end_all : (s : Text) → is_empty (drop_while_end is_space s) ≡ all_space s
unfolding drop_while_end
drop_while_end_all [] = refl
drop_while_end_all (c ∷ s) = ground (arith, drop_while_end_all s)

drop_while_all : (s : Text) → all_space (drop_while is_space s) ≡ all_space s
unfolding drop_while
drop_while_all [] = refl
drop_while_all (c ∷ s) = ground (arith, drop_while_all s)

pub strip_empty : (s : Text) → is_empty (strip s) ≡ all_space s
unfolding strip
strip_empty s = drop_while_end_all (drop_while is_space s) ∙ drop_while_all s

all_space-ended : (l : Text) → all_space (ended l) ≡ all_space l
unfolding is_space
all_space-ended [] = refl
all_space-ended (c ∷ l) = ap (λ b. is_space c && b) (all_space-ended l)

pub strip-ended : (l : Text) → is_empty (strip (ended l)) ≡ is_empty (strip l)
strip-ended l = strip_empty (ended l) ∙ all_space-ended l ∙ sym (strip_empty l)
