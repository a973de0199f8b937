-- ===== src/Text/Digits.antt =====
-- Numbers that are printed and read back.
use Prim.Native.Nat.{◌/◌, ◌%◌}
use grbl_proxy.Prelude.{
  ℕ, zero, suc, ◌+◌, ◌-◌, ◌*◌, ◌≡◌, refl, ap, ◌∙◌, Bool, true, false, ◌&&◌, some, [], ◌∷◌, ℤ, pos,
  negsuc, ◌==◌, arith,
}
use grbl_proxy.Text.{
  Text, is_empty, is_space, is_digit, decimal, int_digits, int_sign, int_of, negate, signed,
}
use grbl_proxy.Text.Decimal.{print, print_by, decimal-print}
use grbl_proxy.Text.Parts.{
  all_pass, all_pass-append, not_space, strip-all, filled, when_true, third, both_pass,
}

pub all_pass-weaker :
    (p q : ℕ → Bool)
    → ((c : ℕ) → p c ≡ true → q c ≡ true)
    → (s : Text) → all_pass p s ≡ true
    → all_pass q s ≡ true
all_pass-weaker p q weaker [] h = refl
all_pass-weaker p q weaker (c ∷ s) h =
    let (a, b) = both_pass (p c) (all_pass p s) h in
    ap (λ e. e && all_pass q s) (weaker c a) ∙ all_pass-weaker p q weaker s b

print_by-digits : (fuel n : ℕ) → all_pass is_digit (print_by fuel n) ≡ true
unfolding print_by is_digit
print_by-digits zero n = refl
print_by-digits (suc fuel) n = ground (
  arith,
  print_by-digits fuel (n / 10),
  all_pass-append is_digit (print_by fuel (n / 10)) ((b'0' + n % 10) ∷ []),
)

pub print-digits : (n : ℕ) → all_pass is_digit (print n) ≡ true
unfolding print
print-digits n = print_by-digits (suc n) n

pub print-filled : (n : ℕ) → is_empty (print n) ≡ false
unfolding print print_by
print-filled n = ground (arith, filled (print_by n (n / 10)) [] (b'0' + n % 10))

pub digit_not_space : (c : ℕ) → is_digit c ≡ true → not_space c ≡ true
unfolding is_digit is_space
digit_not_space c h = ground arith

int_digits-decimal :
    (acc : ℕ) (s : Text) → all_pass is_digit s ≡ true → int_digits true acc s ≡ some (decimal acc s)
unfolding int_digits decimal
int_digits-decimal acc [] h = refl
int_digits-decimal acc (c ∷ s) h =
    let (a, b) = both_pass (is_digit c) (all_pass is_digit s) h in
    when_true (is_digit c) _ _ a ∙ int_digits-decimal (acc * 10 + (c - b'0')) s b

-- A digit is no sign.
pub not_sign : (c : ℕ) → is_digit c ≡ true → ((c == b'-') ≡ false) × ((c == b'+') ≡ false)
unfolding is_digit
not_sign c h = (ground arith, ground arith)

int_sign-digits :
    (s : Text)
    → all_pass is_digit s ≡ true
    → is_empty s ≡ false
    → int_sign s ≡ some (pos (decimal 0 s))
unfolding int_sign int_digits decimal
int_sign-digits [] h k = absurd (ground arith)
int_sign-digits (c ∷ s) h k =
    let (a, b) = both_pass (is_digit c) (all_pass is_digit s) h in
    let (minus, plus) = not_sign c a in
    third (c == b'-') (c == b'+') _ _ _ minus plus
    ∙ ap (signed pos) (when_true (is_digit c) _ _ a ∙ int_digits-decimal (0 * 10 + (c - b'0')) s b)

-- f"{n}"
unfoldable pub print_int : ℤ → Text
unfolding print
print_int (pos n) = print n
print_int (negsuc n) = b'-' ∷ print (suc n)

int_sign-print : (n : ℕ) → int_sign (print n) ≡ some (pos n)
int_sign-print n =
    int_sign-digits (print n) (print-digits n) (print-filled n)
    ∙ ap (λ m. some (pos m)) (decimal-print n)

digits_unsigned :
    (s : Text)
    → all_pass is_digit s ≡ true
    → is_empty s ≡ false
    → int_digits false 0 s ≡ some (decimal 0 s)
unfolding int_digits decimal
digits_unsigned [] h k = absurd (ground arith)
digits_unsigned (c ∷ s) h k =
    let (a, b) = both_pass (is_digit c) (all_pass is_digit s) h in
    when_true (is_digit c) _ _ a ∙ int_digits-decimal (0 * 10 + (c - b'0')) s b

int_sign-print_int : (n : ℤ) → int_sign (print_int n) ≡ some n
unfolding print_int int_sign negate
int_sign-print_int (pos n) = int_sign-print n
int_sign-print_int (negsuc n) = ap (signed negate) (
    digits_unsigned (print (suc n)) (print-digits (suc n)) (print-filled (suc n))
    ∙ ap some (decimal-print (suc n)))

print_int-not_space : (n : ℤ) → all_pass not_space (print_int n) ≡ true
unfolding print_int is_space
print_int-not_space (pos n) =
    all_pass-weaker is_digit not_space digit_not_space (print n) (print-digits n)
print_int-not_space (negsuc n) =
    all_pass-weaker is_digit not_space digit_not_space (print (suc n)) (print-digits (suc n))

-- A printed number is read back.
pub int_of-print_int : (n : ℤ) → int_of (print_int n) ≡ some n
unfolding int_of
int_of-print_int n =
    ap int_sign (strip-all (print_int n) (print_int-not_space n)) ∙ int_sign-print_int n
