-- ===== src/Text.antt =====
-- Texts as lists of code points, and the string methods and regular-expression pieces that the
-- program calls: `strip`, `upper`, `startswith`, `split`, runs of digits. Letters and digits are
-- the ASCII ones; white space is what `str.isspace` accepts.
pub mod Laws
pub mod Decimal
pub mod Lines
pub mod Parts
pub mod Digits
pub mod Rounding
use Prim.Native.Char.{code}
use grbl_proxy.Prelude.{
  ℕ, zero, suc, ◌+◌, ◌-◌, ◌*◌, String, Bool, true, false, not, ◌&&◌, ◌||◌, Option, none, some, List,
  [], ◌∷◌, ◌++◌, map, reverse, leb, ◌==◌, if◌then◌else◌, ℤ, pos, negsuc,
}

abbrev pub Text : Type 0
Text = List ℕ

abbrev pub codes : String → Text
codes String.[] = []
codes (String.◌∷◌ c s) = code c ∷ codes s

abbrev pub within : ℕ → ℕ → ℕ → Bool
within lo hi c = leb lo c && leb c hi

-- str.isspace on one character, `\s` of a str pattern
unfoldable pub is_space : ℕ → Bool
is_space c =
    within 9 13 c
    || within 28 32 c
    || c == 133
    || c == 160
    || c == 5760
    || within 8192 8202 c
    || c == 8232
    || c == 8233
    || c == 8239
    || c == 8287
    || c == 12288

unfoldable pub is_digit : ℕ → Bool
is_digit c = within b'0' b'9' c

unfoldable pub is_upper : ℕ → Bool
is_upper c = within b'A' b'Z' c

unfoldable pub is_letter : ℕ → Bool
is_letter c = within b'A' b'Z' c || within b'a' b'z' c

unfoldable pub to_upper : ℕ → ℕ
to_upper c = if within b'a' b'z' c then c - 32 else c

-- s.upper()
unfoldable pub upper : Text → Text
unfolding to_upper
upper s = map to_upper s

-- Equality of texts.
unfoldable pub same : Text → Text → Bool
same [] [] = true
same (a ∷ s) (b ∷ t) = a == b && same s t
same _ _ = false

abbrev pub is_empty {ℓ} : {A : Type ℓ} → List A → Bool
is_empty [] = true
is_empty (_ ∷ _) = false

-- The longest prefix of characters that pass the test, and what follows it.
unfoldable pub take_while : (ℕ → Bool) → Text → Text
take_while p [] = []
take_while p (c ∷ s) = if p c then c ∷ take_while p s else []

unfoldable pub drop_while : (ℕ → Bool) → Text → Text
drop_while p [] = []
drop_while p (c ∷ s) = if p c then drop_while p s else c ∷ s

-- The suffix `p` characters dropped: keeps a character if something kept follows it.
unfoldable pub drop_while_end : (ℕ → Bool) → Text → Text
drop_while_end p [] = []
drop_while_end p (c ∷ s) =
    let rest = drop_while_end p s in if is_empty rest && p c then [] else c ∷ rest

-- s.strip()
unfoldable pub strip : Text → Text
unfolding drop_while drop_while_end is_space
strip s = drop_while_end is_space (drop_while is_space s)

-- What follows `p` in `s`, if `s` begins with it.
unfoldable pub strip_prefix : Text → Text → Option Text
strip_prefix [] s = some s
strip_prefix (a ∷ p) [] = none
strip_prefix (a ∷ p) (c ∷ s) = if a == c then strip_prefix p s else none

abbrev pub has_prefix : Option Text → Bool
has_prefix none = false
has_prefix (some _) = true

-- s.startswith(p)
unfoldable pub starts_with : Text → Text → Bool
unfolding strip_prefix
starts_with p s = has_prefix (strip_prefix p s)

-- s.endswith(c), for one character
unfoldable pub ends_with : ℕ → Text → Bool
ends_with c [] = false
ends_with c (d ∷ []) = d == c
ends_with c (_ ∷ d ∷ s) = ends_with c (d ∷ s)

abbrev pub prepend : ℕ → ℕ → List Text → List Text
prepend sep c [] = [] ∷ []
prepend sep c (part ∷ parts) = if c == sep then [] ∷ part ∷ parts else (c ∷ part) ∷ parts

-- s.split(sep), for a separator of one character: never empty
unfoldable pub split_on : ℕ → Text → List Text
split_on sep [] = [] ∷ []
split_on sep (c ∷ s) = prepend sep c (split_on sep s)

-- The number that a run of digits writes.
unfoldable pub decimal : ℕ → Text → ℕ
decimal acc [] = acc
decimal acc (c ∷ s) = decimal (acc * 10 + (c - b'0')) s

-- The digits of an int literal: a `_` may stand between two digits.
unfoldable pub int_digits : Bool → ℕ → Text → Option ℕ
unfolding is_digit
int_digits after acc [] = if after then some acc else none
int_digits after acc (c ∷ s) =
    let digit = int_digits true (acc * 10 + (c - b'0')) s in
    let joint = int_digits false acc s in
    if is_digit c then digit else if c == b'_' && after then joint else none

unfoldable pub negate : ℕ → ℤ
negate zero = pos 0
negate (suc n) = negsuc n

abbrev pub signed : (ℕ → ℤ) → Option ℕ → Option ℤ
signed f none = none
signed f (some n) = some (f n)

pub int_sign : Text → Option ℤ
unfolding int_digits negate
int_sign [] = none
int_sign (c ∷ s) =
    if c == b'-'
    then signed negate (int_digits false 0 s)
    else if c == b'+'
    then signed pos (int_digits false 0 s)
    else signed pos (int_digits false 0 (c ∷ s))

-- int(s): `none` is ValueError
unfoldable pub int_of : Text → Option ℤ
unfolding int_sign strip
int_of s = int_sign (strip s)
