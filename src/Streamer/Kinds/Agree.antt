-- ===== src/Streamer/Kinds/Agree.antt =====
-- The two ladders of tests in `_stream_lines` of streamer.py.
use grbl_proxy.Prelude.{◌≡◌, true, arith}
use grbl_proxy.Text.{Text}
use grbl_proxy.Protocol.{is_error, is_vendor_fault}
use grbl_proxy.Streamer.Kinds.{send_kind, drain_kind}

is_error_of_vendor_fault : (r : Text) → is_vendor_fault r ≡ true → is_error r ≡ true
unfolding is_vendor_fault is_error
is_error_of_vendor_fault r h = ground arith

-- The send loop and the trailing drain, which test for a vendor fault at different places, take
-- every response for the same kind.
pub send_kind-eq-drain_kind : (r : Text) → send_kind r ≡ drain_kind r
unfolding send_kind drain_kind
send_kind-eq-drain_kind r = ground (arith, is_error_of_vendor_fault r)
