-- ===== src/Examples/Finding.antt =====
-- The choice of the serial port in config.py on concrete inputs.
use grbl_proxy.Prelude.{ℕ, ◌≡◌, refl, Option, none, some, [], ◌∷◌, if◌then◌else◌}
use grbl_proxy.Text.{Text, codes, same}
use grbl_proxy.Devices.{list_serial_candidates, resolve_serial_port}

abbrev acm0 : Text
acm0 = codes "/dev/ttyACM0"

abbrev acm1 : Text
acm1 = codes "/dev/ttyACM1"

-- the first device is gone, the second newer
unfoldable times : Text → Option ℕ
unfolding same
times path = if same path acm1 then some 7 else none

candidates_test : list_serial_candidates times [] (acm0 ∷ acm1 ∷ []) ≡ acm1 ∷ acm0 ∷ []
unfolding list_serial_candidates times
candidates_test = refl

resolve_test : resolve_serial_port (codes "auto") [] (acm1 ∷ acm0 ∷ []) ≡ acm1
unfolding resolve_serial_port
resolve_test = refl
