-- ===== src/Protocol/Report.antt =====
-- `parse_status_report` of grbl_protocol.py. A coordinate is the decimal that the text writes:
-- `float` is exact on it up to double precision.
pub mod Printed
pub mod RoundTrip
use grbl_proxy.Prelude.{
  ℕ, ◌*◌, Bool, true, false, not, ◌&&◌, ◌||◌, Option, none, some, List, [], ◌∷◌, ◌++◌, length, ◌==◌,
  if◌then◌else◌, ℤ,
}
use Prim.Native.Nat.{◌^◌}
use grbl_proxy.Text.{
  Text, codes, is_digit, is_letter, same, is_empty, take_while, drop_while, strip, upper, split_on,
  decimal, int_of,
}

-- (-1)^minus * mantissa / 10^scale
pub record Decimal : Type 0 where
  pub minus : Bool
  pub mantissa : ℕ
  pub scale : ℕ

-- == of floats: 0.0 == -0.0
unfoldable pub same_decimal : Decimal → Decimal → Bool
same_decimal a b =
    a.mantissa * 10 ^ b.scale == b.mantissa * 10 ^ a.scale
    && (a.mantissa == 0 || (a.minus && b.minus || not a.minus && not b.minus))

abbrev pub Coords : Type 0
Coords = Decimal × Decimal × Decimal

unfoldable pub same_coords : Coords → Coords → Bool
unfolding same_decimal
same_coords (x, y, z) (x', y', z') = same_decimal x x' && same_decimal y y' && same_decimal z z'

-- StatusReport: a key that is absent is `none`
pub record StatusReport : Type 0 where
  pub state : Text
  pub mpos : Option Coords
  pub wpos : Option Coords
  pub wco : Option Coords
  pub fs : Option (ℤ × ℤ)
  pub ov : Option (ℤ × ℤ × ℤ)
  pub pn : Option Text
  pub a : Option Text
  pub bf : Option (ℤ × ℤ)

abbrev pub only_state : Text → StatusReport
only_state s = record {
  state = s;
  mpos = none;
  wpos = none;
  wco = none;
  fs = none;
  ov = none;
  pn = none;
  a = none;
  bf = none;
}

abbrev drop_point : Text → Text
drop_point [] = []
drop_point (c ∷ s) = if c == b'.' then s else c ∷ s

-- `-?\d+\.?\d*`, whole, with float() of it
abbrev unsigned : Bool → Text → Option Decimal
unsigned minus s =
    let whole = take_while is_digit s in
    let rest = drop_point (drop_while is_digit s) in
    let fraction = take_while is_digit rest in
    if is_empty whole
    then none
    else if is_empty (drop_while is_digit rest)
    then some (record {
      minus = minus;
      mantissa = decimal 0 (whole ++ fraction);
      scale = length fraction;
    })
    else none

unfoldable pub parse_decimal : Text → Option Decimal
unfolding take_while drop_while is_digit decimal
parse_decimal [] = none
parse_decimal (c ∷ s) = if c == b'-' then unsigned true s else unsigned false (c ∷ s)

abbrev pub triple {ℓ} : {A : Type ℓ} → Option A → Option A → Option A → Option (A × A × A)
triple (some x) (some y) (some z) = some (x, y, z)
triple _ _ _ = none

abbrev pub pair {ℓ} : {A : Type ℓ} → Option A → Option A → Option (A × A)
pair (some x) (some y) = some (x, y)
pair _ _ = none

abbrev coords_of : List Text → Option Coords
coords_of (x ∷ y ∷ z ∷ []) = triple (parse_decimal x) (parse_decimal y) (parse_decimal z)
coords_of _ = none

-- _parse_coords
unfoldable pub parse_coords : Text → Option Coords
unfolding parse_decimal split_on
parse_coords val = coords_of (split_on b',' val)

abbrev two_ints : List Text → Option (ℤ × ℤ)
two_ints (x ∷ y ∷ []) = pair (int_of x) (int_of y)
two_ints _ = none

abbrev three_ints : List Text → Option (ℤ × ℤ × ℤ)
three_ints (x ∷ y ∷ z ∷ []) = triple (int_of x) (int_of y) (int_of z)
three_ints _ = none

-- a value that does not parse leaves the key as it was
abbrev keep {ℓ} : {A : Type ℓ} → Option A → Option A → Option A
keep none old = old
keep (some a) old = some a

-- one field of the loop
unfoldable pub put_field : Text → Text → StatusReport → StatusReport
unfolding same parse_coords split_on int_of
put_field key val r =
    if same key (codes "MPOS")
    then record r { mpos = keep (parse_coords val) r.mpos }
    else if same key (codes "WPOS")
    then record r { wpos = keep (parse_coords val) r.wpos }
    else if same key (codes "WCO")
    then record r { wco = keep (parse_coords val) r.wco }
    else if same key (codes "FS")
    then record r { fs = keep (two_ints (split_on b',' val)) r.fs }
    else if same key (codes "OV")
    then record r { ov = keep (three_ints (split_on b',' val)) r.ov }
    else if same key (codes "PN")
    then record r { pn = some val }
    else if same key (codes "A")
    then record r { a = some val }
    else if same key (codes "BF")
    then record r { bf = keep (two_ints (split_on b',' val)) r.bf }
    else r

abbrev not_char : ℕ → ℕ → Bool
not_char a c = not (c == a)

-- what follows the key must be ":" and a value that is not empty
abbrev with_value : Text → Text → StatusReport → StatusReport
with_value key [] r = r
with_value key (c ∷ val) r =
    if is_empty key || not (c == b':') || is_empty val then r else put_field (upper key) val r

-- a match of _FIELD_RE begins at a "|" and ends before the next: a segment between them
abbrev segment : Text → StatusReport → StatusReport
segment s r = with_value (take_while is_letter s) (drop_while is_letter s) r

unfoldable pub put_fields : List Text → StatusReport → StatusReport
unfolding put_field take_while drop_while is_letter upper
put_fields [] r = r
put_fields (s ∷ ss) r = put_fields ss (segment s r)

abbrev tail_of {ℓ} : {A : Type ℓ} → List A → List A
tail_of [] = []
tail_of (x ∷ xs) = xs

-- the body between "<" and the ">" that ends the text
abbrev read_body : Text → Text → Option StatusReport
read_body body after =
    let state = take_while (not_char b'|') body in
    if same after (codes ">") && not (is_empty state)
    then some
        (put_fields (tail_of (split_on b'|' (drop_while (not_char b'|') body))) (only_state state))
    else none

abbrev read_open : Text → Option StatusReport
read_open [] = none
read_open (c ∷ s) =
    if c == b'<'
    then read_body (take_while (not_char b'>') s) (drop_while (not_char b'>') s)
    else none

unfoldable pub parse_status_report : Text → Option StatusReport
unfolding put_fields take_while drop_while same split_on strip
parse_status_report line = read_open (strip line)
