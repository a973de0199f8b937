-- ===== src/Protocol.antt =====
-- grbl_protocol.py: how a message of the controller is recognised. Splitting a serial line into
-- messages and reading a status report are in the children.
pub mod Split
pub mod Report
pub mod Codes
pub mod Print
pub mod Recovery
use grbl_proxy.Prelude.{
  ℕ, zero, suc, ◌+◌, Bool, true, false, not, ◌&&◌, ◌||◌, Option, none, some, List, [], ◌∷◌, leb,
  ◌==◌, if◌then◌else◌, is_some,
}
use grbl_proxy.Text.{
  Text, codes, within, is_space, is_digit, to_upper, upper, same, is_empty, take_while, drop_while,
  strip, strip_prefix, has_prefix, starts_with, ends_with, decimal,
}

-- What follows `p` in `s` up to the case of letters; `p` is given in upper case.
unfoldable pub strip_prefix_any_case : Text → Text → Option Text
unfolding to_upper
strip_prefix_any_case [] s = some s
strip_prefix_any_case (a ∷ p) [] = none
strip_prefix_any_case (a ∷ p) (c ∷ s) = if a == to_upper c then strip_prefix_any_case p s else none

abbrev pub skip_dot : Text → Text
skip_dot [] = []
skip_dot (c ∷ s) = if c == b'.' then s else c ∷ s

-- `\s*(\d+)\s*\.?$`, after "error:": the digits
unfoldable pub error_digits : Text → Option Text
unfolding take_while drop_while is_digit is_space
error_digits s =
    let t = drop_while is_space s in
    let digits = take_while is_digit t in
    let rest = skip_dot (drop_while is_space (drop_while is_digit t)) in
    if is_empty digits then none else if is_empty rest then some digits else none

abbrev pub and_then {ℓ κ} : {A : Type ℓ} {B : Type κ} → Option A → (A → Option B) → Option B
and_then none f = none
and_then (some a) f = f a

-- _ERROR_RE.match(s), by the digits of its group
unfoldable pub match_error : Text → Option Text
unfolding strip_prefix_any_case error_digits
match_error s = and_then (strip_prefix_any_case (codes "ERROR:") s) error_digits

unfoldable pub is_status_report : Text → Bool
unfolding strip starts_with ends_with
is_status_report line = starts_with (codes "<") (strip line) && ends_with b'>' (strip line)

unfoldable pub is_ok : Text → Bool
unfolding same strip
is_ok line = same (strip line) (codes "ok")

unfoldable pub is_error : Text → Bool
unfolding match_error strip
is_error line = is_some (match_error (strip line))

unfoldable pub is_vendor_fault : Text → Bool
unfolding match_error strip starts_with
is_vendor_fault line =
    is_some (match_error (strip line)) && starts_with (codes "ERROR:") (strip line)

unfoldable pub is_alarm : Text → Bool
unfolding strip starts_with
is_alarm line = starts_with (codes "ALARM:") (strip line)

unfoldable pub is_feedback_message : Text → Bool
unfolding strip starts_with
is_feedback_message line = starts_with (codes "[") (strip line)

unfoldable pub is_grbl_greeting : Text → Bool
unfolding strip starts_with
is_grbl_greeting line =
    starts_with (codes "Grbl ") (strip line) || starts_with (codes "GrblHAL ") (strip line)

-- byte in REALTIME_COMMANDS: "?!~\x18" and 0x80 up to 0xA1
unfoldable pub is_realtime_command : ℕ → Bool
is_realtime_command byte =
    byte == b'?' || byte == b'!' || byte == b'~' || byte == 0x18 || within 0x80 0xA1 byte

abbrev pub motion_command_prefixes : List Text
motion_command_prefixes =
    codes "G0"
    ∷ codes "G1"
    ∷ codes "G2"
    ∷ codes "G3"
    ∷ codes "M3"
    ∷ codes "M4"
    ∷ codes "M5"
    ∷ codes "S"
    ∷ []

unfoldable pub any_prefix : List Text → Text → Bool
unfolding starts_with
any_prefix [] s = false
any_prefix (p ∷ ps) s = starts_with p s || any_prefix ps s

unfoldable pub is_motion_command : Text → Bool
unfolding any_prefix upper strip
is_motion_command line = any_prefix motion_command_prefixes (upper (strip line))

abbrev pub decimal_value : Option Text → Option ℕ
decimal_value none = none
decimal_value (some digits) = some (decimal 0 digits)

-- int() of a group of digits does not fail
unfoldable pub get_error_code : Text → Option ℕ
unfolding match_error strip
get_error_code line = decimal_value (match_error (strip line))
