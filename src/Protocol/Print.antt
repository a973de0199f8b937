-- ===== src/Protocol/Print.antt =====
-- make_status_response of grbl_protocol.py, the status report that the proxy makes itself.
-- `thousandths` is how Python formats the absolute value of a coordinate with ".3f", as a number of
-- thousandths.
use Prim.Native.Nat.{◌/◌, ◌%◌}
use grbl_proxy.Prelude.{ℕ, ◌+◌, Bool, [], ◌∷◌, ◌++◌, ℤ, if◌then◌else◌}
use grbl_proxy.Text.{Text, codes}
use grbl_proxy.Text.Decimal.{print}
use grbl_proxy.Text.Digits.{print_int}
use grbl_proxy.Protocol.Report.{Decimal, Coords}

-- LINE_TERMINATOR
abbrev pub line_terminator : Text
line_terminator = 13 ∷ 10 ∷ []

abbrev pub last_digits : ℕ → Text
last_digits n = (b'0' + n / 100 % 10) ∷ (b'0' + n / 10 % 10) ∷ (b'0' + n % 10) ∷ []

-- the digits of a number of thousandths
abbrev pub print_thousandths : ℕ → Text
print_thousandths n = print (n / 1_000) ++ b'.' ∷ last_digits n

abbrev pub with_sign : Bool → Text → Text
with_sign minus s = if minus then b'-' ∷ s else s

abbrev pub rates : ℤ → ℤ → Text
rates feed spindle = print_int feed ++ b',' ∷ print_int spindle

module _ (thousandths : Decimal → ℕ) where
  -- f"{x:.3f}"
  unfoldable pub print_fixed : Decimal → Text
  print_fixed d = with_sign d.minus (print_thousandths (thousandths d))

  abbrev pub position : Coords → Text
  position (x, y, z) = print_fixed x ++ b',' ∷ (print_fixed y ++ b',' ∷ print_fixed z)

  -- make_status_response
  unfoldable pub make_status_response : Text → Coords → ℤ → ℤ → Text
  unfolding print_fixed print_int
  make_status_response state mpos feed spindle =
      b'<' ∷ state
      ++ (codes "|MPos:"
          ++ (position mpos ++ (codes "|FS:" ++ (rates feed spindle ++ b'>' ∷ line_terminator))))
