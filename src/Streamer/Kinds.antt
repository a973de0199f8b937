-- ===== src/Streamer/Kinds.antt =====
-- What a response is, as the two ladders of tests in `_stream_lines` of streamer.py tell it.
pub mod Agree
use grbl_proxy.Prelude.{
  ℕ, zero, suc, ◌+◌, ◌-◌, Bool, true, false, not, ◌&&◌, ◌||◌, Option, none, some, List, [], ◌∷◌,
  ◌++◌, length, ltb, leb, ◌==◌, if◌then◌else◌, is_some,
}
use grbl_proxy.Text.{Text, codes, strip, is_empty, drop_while_end}
use grbl_proxy.Protocol.{
  is_ok, is_error, is_vendor_fault, is_alarm, is_status_report, is_feedback_message,
  is_grbl_greeting, get_error_code,
}
use grbl_proxy.Protocol.Split.{split_responses}
use grbl_proxy.Protocol.Codes.{get_alarm_code}
use grbl_proxy.Protocol.Report.{StatusReport, parse_status_report}

-- What a response is, in the order of the tests of the send loop, and of the trailing drain.
pub data Kind : Type 0 where
  ok vendor_fault error alarm status feedback greeting unknown : Kind

unfoldable pub other_kind : Text → Kind
unfolding is_alarm is_status_report is_feedback_message is_grbl_greeting
other_kind r =
    if is_alarm r
    then alarm
    else if is_status_report r
    then status
    else if is_feedback_message r
    then feedback
    else if is_grbl_greeting r
    then greeting
    else unknown

unfoldable pub send_kind : Text → Kind
unfolding is_ok is_error is_vendor_fault other_kind
send_kind r =
    if is_ok r
    then ok
    else if is_error r
    then (if is_vendor_fault r then vendor_fault else error)
    else other_kind r

unfoldable pub drain_kind : Text → Kind
unfolding is_ok is_error is_vendor_fault other_kind
drain_kind r =
    if is_ok r
    then ok
    else if is_vendor_fault r
    then vendor_fault
    else if is_error r
    then error
    else other_kind r
