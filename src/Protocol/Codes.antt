-- ===== src/Protocol/Codes.antt =====
-- What the numbers of faults are: `get_alarm_code` and the labels of vendor faults.
use grbl_proxy.Prelude.{ℕ, Option, none, some, List, [], ◌∷◌, ◌++◌, ℤ, ltb, ◌==◌, if◌then◌else◌}
use grbl_proxy.Text.{Text, codes, strip, strip_prefix, int_of}
use grbl_proxy.Text.Decimal.{print}
use grbl_proxy.Protocol.{get_error_code}

abbrev code_after : Option Text → Option ℤ
code_after none = none
code_after (some rest) = int_of rest

unfoldable pub get_alarm_code : Text → Option ℤ
unfolding strip strip_prefix int_of
get_alarm_code line = code_after (strip_prefix (codes "ALARM:") (strip line))

-- VENDOR_FAULTS
abbrev pub vendor_faults : List (ℕ × Text)
vendor_faults =
    (1, codes "angle data abnormal — check the workbench is steady and the frame screws tight")
    ∷ (2, codes "no G-code file in the TF card root")
    ∷ (4, codes "no airflow detected — check the air pump, the air knob and the air tube")
    ∷ (5, codes "FLAME DETECTED — check the material; press Reset on the laser module, then start")
    ∷ (
      6,
      codes "lens contamination detected — press Reset on the module, then start; clean the lens",
    )
    ∷ (7, codes "laser module overheated — press Reset on the module, then start once it cools")
    ∷ (8, codes "laser module air pressure sensor fault — restart the machine")
    ∷ (9, codes "laser module flame sensor fault — restart the machine")
    ∷ (10, codes "laser module lens sensor fault — restart the machine")
    ∷ (11, codes "laser module LD temperature sensor missing — restart the machine")
    ∷ (12, codes "laser module LD sensor short circuit — restart the machine")
    ∷ (13, codes "laser module CPU too hot — let it cool before working")
    ∷ (14, codes "host CPU too hot — let the machine cool before working")
    ∷ (24, codes "lid or drawer open — close it, then press start on the machine")
    ∷ (25, codes "air pump not working normally")
    ∷ []

abbrev label_in : ℕ → List (ℕ × Text) → Option Text
label_in code [] = none
label_in code ((n, label) ∷ ls) =
    let rest = label_in code ls in if n == code then some label else rest

-- f"{code:02d}"
unfoldable pub two_digits : ℕ → Text
unfolding print
two_digits code = if ltb code 10 then b'0' ∷ print code else print code

abbrev described : Text → ℕ → Option Text → Text
described line code none = strip line
described line code (some label) = codes "ERROR:" ++ two_digits code ++ codes " — " ++ label

abbrev described_by : Text → Option ℕ → Text
described_by line none = strip line
described_by line (some code) = described line code (label_in code vendor_faults)

-- describe_vendor_fault
unfoldable pub describe_vendor_fault : Text → Text
unfolding get_error_code strip two_digits
describe_vendor_fault line = described_by line (get_error_code line)
