-- ===== src/Proxy/Replies.antt =====
-- What the client is sent for an answer of proxy_core.py.
use grbl_proxy.Prelude.{ℕ}
use grbl_proxy.Text.{Text, codes}
use grbl_proxy.Protocol.Report.{Decimal}
use grbl_proxy.Protocol.Print.{make_status_response}
use grbl_proxy.Proxy.{Reply, ok, error9, status}

-- the bytes of an answer; `thousandths` is how Python formats a coordinate
unfoldable pub reply_bytes : (Decimal → ℕ) → Reply → Text
unfolding make_status_response
reply_bytes thousandths ok = codes "ok\r\n"
reply_bytes thousandths error9 = codes "error:9\r\n"
reply_bytes thousandths (status state mpos (feed, spindle)) =
    make_status_response thousandths state mpos feed spindle
