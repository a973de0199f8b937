-- ===== src/Protocol/Report/Printed.antt =====
-- The status report that make_status_response of grbl_protocol.py prints, read back by
-- parse_status_report.
use Prim.Native.Nat.{◌/◌}
use grbl_proxy.Prelude.{
  ℕ, suc, negsuc, pos, ◌+◌, ◌-◌, ◌*◌, ◌≡◌, refl, ap, ◌∙◌, Bool, true, false, not, ◌&&◌, ◌||◌,
  Option, some, [], ◌∷◌, ◌++◌, length, ℤ, ◌==◌, Bool-cases, inl, inr, arith, if◌then◌else◌,
}
use grbl_proxy.Text.{Text, is_empty, is_digit, decimal, split_on, int_of}
use grbl_proxy.Text.Decimal.{print, decimal-print}
use grbl_proxy.Text.Digits.{
  not_sign, print-digits, print-filled, print_int, int_of-print_int, all_pass-weaker,
}
use grbl_proxy.Text.Parts.{
  all_pass, all_pass-append, take_while-part, drop_while-part, take_while-all, drop_while-all,
  split_on-part, split_on-whole, filled, both_pass,
}
use grbl_proxy.Protocol.Print.{
  last_digits, with_sign, print_thousandths, print_fixed, position, rates,
}
use grbl_proxy.Protocol.Report.{
  Decimal, unsigned, parse_decimal, triple, pair, coords_of, parse_coords, two_ints, not_char,
}

decimal-append : (acc : ℕ) (s t : Text) → decimal acc (s ++ t) ≡ decimal (decimal acc s) t
unfolding decimal
decimal-append acc [] t = refl
decimal-append acc (c ∷ s) t = decimal-append (acc * 10 + (c - b'0')) s t

-- A decimal with `n` thousandths.
abbrev in_thousandths : Bool → ℕ → Decimal
in_thousandths minus n = record { minus = minus; mantissa = n; scale = 3 }

abbrev decimal_with : Bool → ℕ → ℕ → Option Decimal
decimal_with minus mantissa scale =
    some (record { minus = minus; mantissa = mantissa; scale = scale })

unsigned-parts :
    (minus : Bool) (w f : Text)
    → all_pass is_digit w ≡ true
    → is_empty w ≡ false
    → all_pass is_digit f ≡ true
    → unsigned minus (w ++ b'.' ∷ f) ≡ decimal_with minus (decimal 0 (w ++ f)) (length f)
unfolding is_digit
unsigned-parts minus w f h k g =
    rw
      (
        take_while-part is_digit w f b'.' h refl,
        drop_while-part is_digit w f b'.' h refl,
        take_while-all is_digit f g,
        drop_while-all is_digit f g,
        k,
      )
      refl

last_digits-digits : (n : ℕ) → all_pass is_digit (last_digits n) ≡ true
unfolding is_digit
last_digits-digits n = ground arith

decimal-thousandths : (n : ℕ) → decimal 0 (print (n / 1_000) ++ last_digits n) ≡ n
unfolding decimal
decimal-thousandths n =
    decimal-append 0 (print (n / 1_000)) (last_digits n)
    ∙ ap (λ q. decimal q (last_digits n)) (decimal-print (n / 1_000))
    ∙ omega arith

unsigned-thousandths :
    (minus : Bool) (n : ℕ) → unsigned minus (print_thousandths n) ≡ some (in_thousandths minus n)
unsigned-thousandths minus n =
    unsigned-parts minus (print (n / 1_000)) (last_digits n) (print-digits (n / 1_000))
      (print-filled (n / 1_000)) (last_digits-digits n)
    ∙ ap (λ q. decimal_with minus q 3) (decimal-thousandths n)

parse_decimal-unsigned :
    (w t : Text)
    → all_pass is_digit w ≡ true
    → is_empty w ≡ false
    → parse_decimal (w ++ t) ≡ unsigned false (w ++ t)
unfolding parse_decimal
parse_decimal-unsigned [] t h k = absurd (ground arith)
parse_decimal-unsigned (c ∷ w) t h k =
    let minus = (not_sign c (both_pass (is_digit c) (all_pass is_digit w) h).0).0 in
    ap (λ b. if b then unsigned true (w ++ t) else unsigned false (c ∷ w ++ t)) minus

-- A character of a printed number.
abbrev pub is_number : ℕ → Bool
is_number c = is_digit c || (c == b'-' || c == b'.')

digit_is_number : (c : ℕ) → is_digit c ≡ true → is_number c ≡ true
digit_is_number c h = ground arith

print-numbers : (n : ℕ) → all_pass is_number (print n) ≡ true
print-numbers n = all_pass-weaker is_digit is_number digit_is_number (print n) (print-digits n)

thousandths-numbers : (n : ℕ) → all_pass is_number (print_thousandths n) ≡ true
unfolding is_digit
thousandths-numbers n =
    all_pass-append is_number (print (n / 1_000)) (b'.' ∷ last_digits n)
    ∙ ap (λ b. b && all_pass is_number (b'.' ∷ last_digits n)) (print-numbers (n / 1_000))
    ∙ all_pass-weaker is_digit is_number digit_is_number (last_digits n) (last_digits-digits n)

pub print_int-numbers : (n : ℤ) → all_pass is_number (print_int n) ≡ true
unfolding print_int is_digit
print_int-numbers (pos n) = print-numbers n
print_int-numbers (negsuc n) = print-numbers (suc n)

parse-with_sign :
    (minus : Bool) (n : ℕ)
    → parse_decimal (with_sign minus (print_thousandths n)) ≡ some (in_thousandths minus n)
unfolding parse_decimal
parse-with_sign true n = unsigned-thousandths true n
parse-with_sign false n =
    parse_decimal-unsigned (print (n / 1_000)) (b'.' ∷ last_digits n) (print-digits (n / 1_000))
      (print-filled (n / 1_000))
    ∙ unsigned-thousandths false n

with_sign-numbers :
    (minus : Bool) (n : ℕ) → all_pass is_number (with_sign minus (print_thousandths n)) ≡ true
unfolding is_digit
with_sign-numbers true n = thousandths-numbers n
with_sign-numbers false n = thousandths-numbers n

with_sign-filled : (minus : Bool) (n : ℕ) → is_empty (with_sign minus (print_thousandths n)) ≡ false
with_sign-filled true n = refl
with_sign-filled false n = filled (print (n / 1_000)) (last_digits n) b'.'

pub char_apart : (a c : ℕ) (p : ℕ → Bool) → p a ≡ false → p c ≡ true → not_char a c ≡ true
char_apart a c p h k = elim (Bool-cases (c == a)) [
  | inl e ↦ let equal : c ≡ a = ground (arith, e) in absurd (cc (ap p equal, h, k))
  | inr e ↦ ap not e
]

not_number :
    (a : ℕ)
    → is_number a ≡ false
    → (s : Text) → all_pass is_number s ≡ true
    → all_pass (not_char a) s ≡ true
not_number a h s k =
    all_pass-weaker is_number (not_char a) (λ c e. char_apart a c is_number h e) s k

split_two :
    (a b : Text)
    → all_pass is_number a ≡ true
    → all_pass is_number b ≡ true
    → split_on b',' (a ++ b',' ∷ b) ≡ a ∷ b ∷ []
unfolding is_digit
split_two a b h k =
    split_on-part b',' a b (not_number b',' refl a h)
    ∙ ap (λ ts. a ∷ ts) (split_on-whole b',' b (not_number b',' refl b k))

split_three :
    (a b c : Text)
    → all_pass is_number a ≡ true
    → all_pass is_number b ≡ true
    → all_pass is_number c ≡ true
    → split_on b',' (a ++ b',' ∷ (b ++ b',' ∷ c)) ≡ a ∷ b ∷ c ∷ []
unfolding is_digit
split_three a b c h k l =
    split_on-part b',' a (b ++ b',' ∷ c) (not_number b',' refl a h)
    ∙ ap (λ ts. a ∷ ts) (split_two b c k l)

triple_of {ℓ} :
    {A : Type ℓ} (o p q : Option A) (x y z : A)
    → o ≡ some x
    → p ≡ some y
    → q ≡ some z
    → triple o p q ≡ some (x, y, z)
triple_of o p q x y z h k l = rw (h, k, l) refl

pair_of {ℓ} :
    {A : Type ℓ} (o p : Option A) (x y : A) → o ≡ some x → p ≡ some y → pair o p ≡ some (x, y)
pair_of o p x y h k = rw (h, k) refl

pub parse_rates :
    (feed spindle : ℤ) → two_ints (split_on b',' (rates feed spindle)) ≡ some (feed, spindle)
parse_rates feed spindle =
    ap two_ints (
      split_two (print_int feed) (print_int spindle) (print_int-numbers feed)
        (print_int-numbers spindle))
    ∙ pair_of (int_of (print_int feed)) (int_of (print_int spindle)) feed spindle
        (int_of-print_int feed) (int_of-print_int spindle)

module _ (thousandths : Decimal → ℕ) where
  -- What is left of a decimal that is printed.
  abbrev pub printed : Decimal → Decimal
  printed d = in_thousandths d.minus (thousandths d)

  parse-fixed : (d : Decimal) → parse_decimal (print_fixed thousandths d) ≡ some (printed d)
  unfolding print_fixed
  parse-fixed d = parse-with_sign d.minus (thousandths d)

  pub fixed-numbers : (d : Decimal) → all_pass is_number (print_fixed thousandths d) ≡ true
  unfolding print_fixed is_digit
  fixed-numbers d = with_sign-numbers d.minus (thousandths d)

  pub parse_position :
      (x y z : Decimal)
      → parse_coords (position thousandths (x, y, z)) ≡ some (printed x, printed y, printed z)
  unfolding parse_coords
  parse_position x y z =
      ap coords_of (
        split_three (print_fixed thousandths x) (print_fixed thousandths y)
          (print_fixed thousandths z) (fixed-numbers x) (fixed-numbers y) (fixed-numbers z))
      ∙ triple_of (parse_decimal (print_fixed thousandths x))
          (parse_decimal (print_fixed thousandths y)) (parse_decimal (print_fixed thousandths z))
          (printed x) (printed y) (printed z) (parse-fixed x) (parse-fixed y) (parse-fixed z)
