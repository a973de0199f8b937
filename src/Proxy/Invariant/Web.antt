-- ===== src/Proxy/Invariant/Web.antt =====
-- The commands of the web page keep the state machine of proxy_core.py valid.
use grbl_proxy.Prelude.{ℕ, ◌≡◌, Bool, true, false, not, Option, arith, if◌then◌else◌}
use grbl_proxy.Text.{Text}
use grbl_proxy.Job.{gcode_name, JobMetadata}
use grbl_proxy.Job.Files.{Dir, read}
use grbl_proxy.Proxy.{Proxy, Io}
use grbl_proxy.Proxy.Life.{start_streamer, await_reader, hand_over}
use grbl_proxy.Web.Control.{web_pause, web_resume, web_cancel, send_console}
use grbl_proxy.Web.Start.{
  Start, StartIo, uploaded, may_start, begin_execution, start_checked_cases, start_upload,
  start_stored, upload_stem, archive_upload, start_uploaded_job, start_existing_job,
}
use grbl_proxy.Proxy.Invariant.{IsValid}

pub web_pause-IsValid :
    (io : Io) (attached : Bool) (p : Proxy) → IsValid p → IsValid (web_pause io attached p).0
unfolding web_pause
web_pause-IsValid io attached p v = ground arith

pub web_resume-IsValid :
    (io : Io) (attached : Bool) (p : Proxy) → IsValid p → IsValid (web_resume io attached p).0
unfolding web_resume
web_resume-IsValid io attached p v = ground arith

pub web_cancel-IsValid :
    (io : Io) (attached : Bool) (p : Proxy) → IsValid p → IsValid (web_cancel io attached p).0
unfolding web_cancel
web_cancel-IsValid io attached p v = ground arith

pub send_console-IsValid :
    (io : Io) (attached : Bool) (command : Text) (p : Proxy)
    → IsValid p
    → IsValid (send_console io attached command p).0
unfolding send_console
send_console-IsValid io attached command p v = ground arith

-- the state that a start leaves
abbrev IsStartValid : Proxy × Start → Type 0
IsStartValid (p, start) = IsValid p

either-IsStartValid :
    (b : Bool) (x y : Proxy × Start)
    → IsStartValid x
    → IsStartValid y
    → IsStartValid (if b then x else y)
either-IsStartValid true x y v w = v
either-IsStartValid false x y v w = w

begin_execution-IsValid :
    (io : Io) (meta : JobMetadata) (disk : Dir) (p : Proxy)
    → IsValid p
    → may_start p.state ≡ true
    → IsValid (begin_execution io meta (record p { disk = disk }))
unfolding begin_execution await_reader hand_over start_streamer
begin_execution-IsValid io meta disk p v h = ground arith

start_upload-IsValid :
    (wide : ℕ → Bool) (io : Io) (w : StartIo) (name : Option Text) (content : Text) (p : Proxy)
    → IsValid p
    → may_start p.state ≡ true
    → IsStartValid (start_upload wide io w name content p)
unfolding start_upload
start_upload-IsValid wide io w name content p v h =
    let stem = upload_stem wide io.stamp name p.disk in
    let disk = archive_upload w stem io.json p.config.max_history p.disk in
    either-IsStartValid (not w.read_ok) _ _ v
      (either-IsStartValid (not w.rename_ok) _ _ v (begin_execution-IsValid io _ disk p v h))

start_stored-IsValid :
    (io : Io) (w : StartIo) (stem content : Text) (p : Proxy)
    → IsValid p
    → may_start p.state ≡ true
    → IsStartValid (start_stored io w stem content p)
unfolding start_stored
start_stored-IsValid io w stem content p v h =
    either-IsStartValid w.read_ok _ _ (begin_execution-IsValid io _ p.disk p v h) v

pub start_uploaded_job-IsValid :
    (wide : ℕ → Bool) (io : Io) (w : StartIo) (name : Option Text) (p : Proxy)
    → IsValid p
    → IsStartValid (start_uploaded_job wide io w name p)
unfolding start_uploaded_job
start_uploaded_job-IsValid wide io w name p v =
    start_checked_cases IsStartValid w (read (gcode_name uploaded) p.disk)
      (λ content. start_upload wide io w name content p) p (λ _. v)
      (λ content h. start_upload-IsValid wide io w name content p v h)

pub start_existing_job-IsValid :
    (io : Io) (w : StartIo) (stem : Text) (p : Proxy)
    → IsValid p
    → IsStartValid (start_existing_job io w stem p)
unfolding start_existing_job
start_existing_job-IsValid io w stem p v =
    start_checked_cases IsStartValid w (read (gcode_name stem) p.disk)
      (λ content. start_stored io w stem content p) p (λ _. v)
      (λ content h. start_stored-IsValid io w stem content p v h)
