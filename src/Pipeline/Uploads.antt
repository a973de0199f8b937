-- ===== src/Pipeline/Uploads.antt =====
-- The parts joined: web/routes.py stores a file and starts it, web/status.py archives it, and the
-- streamer of streamer.py reads the archived file and sends it.
use grbl_proxy.Prelude.{ℕ, Bool, none}
use grbl_proxy.Text.{Text}
use grbl_proxy.Streamer.{Streamer}
use grbl_proxy.Proxy.{Proxy, Io}
use grbl_proxy.Web.Start.{StartIo}
use grbl_proxy.Web.Routes.{RouteIo, start_job}
use grbl_proxy.Web.Routes.Uploaded.{uploading}
use grbl_proxy.Proxy.Life.{after_handover}

-- The proxy when an upload has been handed over.
abbrev pub after_start : (ℕ → Bool) → Io → StartIo → RouteIo → Text → Text → Proxy → Proxy
after_start wide io w route name content p =
    after_handover io (start_job wide io w route none (uploading name content p)).0
