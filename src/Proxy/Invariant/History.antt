-- ===== src/Proxy/Invariant/History.antt =====
-- The state machine of proxy_core.py is valid after any history.
use grbl_proxy.Prelude.{List, [], ◌∷◌}
use grbl_proxy.Job.Files.{Dir}
use grbl_proxy.Proxy.{Proxy, Config, Io, new_proxy}
use grbl_proxy.Proxy.Poll.{update_last_status, suspend_idle_poll}
use grbl_proxy.Proxy.Events.{
  Event, client_connected, client_disconnected, raw_byte, client_line, idle_timeout, handed_over,
  handover_cancelled, streamer_done, status_seen, poll_suspended, poll_read, web_paused,
  web_resumed, web_cancelled, web_uploaded, web_rerun, web_console, handle, handle_all,
}
use grbl_proxy.Proxy.Invariant.{
  IsValid, new_proxy-IsValid, on_client_connected-IsValid, on_client_disconnected-IsValid,
  hand_over-IsValid, cancel_handover-IsValid, on_idle_timeout-IsValid, on_streamer_done-IsValid,
  process_raw_byte-IsValid, process_client_line-IsValid, drain_serial-IsValid,
}
use grbl_proxy.Proxy.Invariant.Web.{
  web_pause-IsValid, web_resume-IsValid, web_cancel-IsValid, send_console-IsValid,
  start_uploaded_job-IsValid, start_existing_job-IsValid,
}

handle-IsValid : (io : Io) (e : Event) (p : Proxy) → IsValid p → IsValid (handle io e p)
unfolding handle update_last_status suspend_idle_poll
handle-IsValid io client_connected p v = on_client_connected-IsValid p v
handle-IsValid io client_disconnected p v = on_client_disconnected-IsValid p v
handle-IsValid io (raw_byte byte sink) p v = process_raw_byte-IsValid io byte sink p v
handle-IsValid io (client_line line sink) p v = process_client_line-IsValid io sink line p v
handle-IsValid io idle_timeout p v = on_idle_timeout-IsValid io p v
handle-IsValid io handed_over p v = hand_over-IsValid io.now p v
handle-IsValid io handover_cancelled p v = cancel_handover-IsValid p v
handle-IsValid io (streamer_done result) p v = on_streamer_done-IsValid result p v
handle-IsValid io (status_seen status) p v = record {
  buffer_iff = v.buffer_iff;
  streamer_iff = v.streamer_iff;
  apart = v.apart;
  readable_iff = v.readable_iff;
  timer_only = v.timer_only;
}
handle-IsValid io poll_suspended p v = record {
  buffer_iff = v.buffer_iff;
  streamer_iff = v.streamer_iff;
  apart = v.apart;
  readable_iff = v.readable_iff;
  timer_only = v.timer_only;
}
handle-IsValid io (poll_read reads) p v = drain_serial-IsValid reads p v
handle-IsValid io (web_paused attached) p v = web_pause-IsValid io attached p v
handle-IsValid io (web_resumed attached) p v = web_resume-IsValid io attached p v
handle-IsValid io (web_cancelled attached) p v = web_cancel-IsValid io attached p v
handle-IsValid io (web_uploaded wide w name) p v = start_uploaded_job-IsValid wide io w name p v
handle-IsValid io (web_rerun w stem) p v = start_existing_job-IsValid io w stem p v
handle-IsValid io (web_console attached command) p v = send_console-IsValid io attached command p v

handle_all_lem : (es : List (Io × Event)) (p : Proxy) → IsValid p → IsValid (handle_all es p)
unfolding handle_all
handle_all_lem [] p v = v
handle_all_lem ((io, e) ∷ es) p v = handle_all_lem es (handle io e p) (handle-IsValid io e p v)

pub handle_all-IsValid :
    (c : Config) (d : Dir) (es : List (Io × Event)) → IsValid (handle_all es (new_proxy c d))
handle_all-IsValid c d es = handle_all_lem es (new_proxy c d) (new_proxy-IsValid c d)
