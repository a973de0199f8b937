-- ===== src/Examples/Printing.antt =====
-- A status report that the proxy makes, and reads back.
use Prim.Native.Nat.{◌/◌, ◌^◌}
use grbl_proxy.Prelude.{ℕ, ◌*◌, ◌≡◌, refl, true, false, some, pos, negsuc}
use grbl_proxy.Text.{codes, decimal}
use grbl_proxy.Protocol.Codes.{describe_vendor_fault}
use grbl_proxy.Protocol.Print.{make_status_response}
use grbl_proxy.Protocol.Report.{Decimal, Coords, parse_status_report}
use grbl_proxy.Protocol.Report.RoundTrip.{reports, all_printed, made_response_parses}

-- rounding down, which is exact up to three digits
abbrev thousandths : Decimal → ℕ
thousandths d = d.mantissa * 1_000 / 10 ^ d.scale

abbrev place : Coords
place = (
  record { minus = false; mantissa = 5; scale = 1 },
  record { minus = true; mantissa = 1_250; scale = 3 },
  record { minus = false; mantissa = 0; scale = 0 },
)

made_test :
    make_status_response thousandths (codes "Idle") place (pos 1_000) (negsuc 0)
    ≡ codes "<Idle|MPos:0.500,-1.250,0.000|FS:1000,-1>\r\n"
unfolding make_status_response
made_test = refl

made_response_parses_example :
    parse_status_report (make_status_response thousandths (codes "Idle") place (pos 1_000) (pos 0))
    ≡ some (reports (codes "Idle") (all_printed thousandths place) (pos 1_000, pos 0))
made_response_parses_example =
    made_response_parses thousandths (codes "Idle") place (pos 1_000) (pos 0) refl refl refl

described_test :
    describe_vendor_fault (codes "ERROR:24.")
    ≡ codes "ERROR:24 — lid or drawer open — close it, then press start on the machine"
unfolding describe_vendor_fault decimal
described_test = refl
