-- ===== src/Proxy/Graph/Web.antt =====
-- Where the commands of the web page lead the state machine of proxy_core.py.
use grbl_proxy.Prelude.{
  ℕ, ◌≡◌, refl, ◌⊎◌, Bool, true, false, not, Option, arith, inl, inr, if◌then◌else◌,
}
use grbl_proxy.Text.{Text}
use grbl_proxy.Proxy.{executing, Proxy, Io}
use grbl_proxy.Proxy.Life.{start_streamer, await_reader, hand_over}
use grbl_proxy.Proxy.Events.{
  web_paused, web_resumed, web_cancelled, web_uploaded, web_rerun, web_console,
}
use grbl_proxy.Job.{gcode_name, JobMetadata}
use grbl_proxy.Job.Files.{read}
use grbl_proxy.Web.Control.{web_pause, web_resume, web_cancel, send_console}
use grbl_proxy.Web.Start.{
  Start, StartIo, uploaded, may_start, begin_execution, start_checked_cases, start_upload,
  archive_upload, upload_stem, start_stored, start_uploaded_job, start_existing_job,
}
use grbl_proxy.Proxy.Graph.{IsEdge}

pub button-IsEdge :
    (io : Io) (attached : Bool) (p : Proxy)
    → IsEdge (web_paused attached) p (web_pause io attached p).0.state
      × IsEdge (web_resumed attached) p (web_resume io attached p).0.state
      × IsEdge (web_cancelled attached) p (web_cancel io attached p).0.state
unfolding IsEdge web_pause web_resume web_cancel
button-IsEdge io attached p = (ground arith, ground arith, ground arith)

pub console-IsEdge :
    (io : Io) (attached : Bool) (command : Text) (p : Proxy)
    → IsEdge (web_console attached command) p (send_console io attached command p).0.state
unfolding IsEdge send_console
console-IsEdge io attached command p = ground arith

-- A start leaves the state as it was, or a job runs.
abbrev IsStart : Proxy → Proxy × Start → Type 0
IsStart p (q, start) = q.state ≡ p.state ⊎ (may_start p.state ≡ true × q.state ≡ executing)

either-IsStart :
    (p : Proxy) (b : Bool) (x y : Proxy × Start)
    → IsStart p x
    → IsStart p y
    → IsStart p (if b then x else y)
either-IsStart p true x y v w = v
either-IsStart p false x y v w = w

begin_execution_state :
    (io : Io) (meta : JobMetadata) (p : Proxy) → (begin_execution io meta p).state ≡ executing
unfolding begin_execution await_reader hand_over start_streamer
begin_execution_state io meta p = ground arith

upload-IsStart :
    (wide : ℕ → Bool) (io : Io) (w : StartIo) (name : Option Text) (p : Proxy)
    → IsStart p (start_uploaded_job wide io w name p)
unfolding start_uploaded_job start_upload
upload-IsStart wide io w name p =
    start_checked_cases (IsStart p) w (read (gcode_name uploaded) p.disk)
      (λ content. start_upload wide io w name content p) p (λ _. inl refl)
      (λ content h. either-IsStart p (not w.read_ok) _ _ (inl refl) (
        either-IsStart p (not w.rename_ok) _ _ (inl refl) (
          inr (
            h,
            begin_execution_state io _ (record p {
              disk =
                  archive_upload w (upload_stem wide io.stamp name p.disk) io.json
                    p.config.max_history p.disk;
            }),
          ))))

rerun-IsStart :
    (io : Io) (w : StartIo) (stem : Text) (p : Proxy) → IsStart p (start_existing_job io w stem p)
unfolding start_existing_job start_stored
rerun-IsStart io w stem p =
    start_checked_cases (IsStart p) w (read (gcode_name stem) p.disk)
      (λ content. start_stored io w stem content p) p (λ _. inl refl)
      (λ content h.
        either-IsStart p w.read_ok _ _ (inr (h, begin_execution_state io _ p)) (inl refl))

pub start-IsEdge :
    (wide : ℕ → Bool) (io : Io) (w : StartIo) (name : Option Text) (stem : Text) (p : Proxy)
    → IsEdge (web_uploaded wide w name) p (start_uploaded_job wide io w name p).0.state
      × IsEdge (web_rerun w stem) p (start_existing_job io w stem p).0.state
unfolding IsEdge
start-IsEdge wide io w name stem p = (upload-IsStart wide io w name p, rerun-IsStart io w stem p)
