-- ===== src/Proxy/Events.antt =====
-- Everything that changes the state machine of proxy_core.py while the proxy runs, one event at a
-- time, in any order: what TcpServer, the streamer, the idle timer, the idle poll and the web page call.
use grbl_proxy.Prelude.{ℕ, Bool, Option, List, [], ◌∷◌, is_some, if◌then◌else◌}
use grbl_proxy.Text.{Text}
use grbl_proxy.Protocol.Report.{StatusReport}
use grbl_proxy.Streamer.{StreamerResult}
use grbl_proxy.Proxy.{Proxy, Io}
use grbl_proxy.Proxy.Client.{on_client_connected, on_client_disconnected}
use grbl_proxy.Proxy.Bytes.{process_raw_byte}
use grbl_proxy.Proxy.Lines.{process_client_line}
use grbl_proxy.Proxy.Life.{hand_over, cancel_handover, on_idle_timeout, on_streamer_done}
use grbl_proxy.Web.Control.{web_pause, web_resume, web_cancel, send_console}
use grbl_proxy.Web.Start.{StartIo, start_uploaded_job, start_existing_job}
use grbl_proxy.Proxy.Poll.{update_last_status, drain_serial, suspend_idle_poll}

-- The events, with the flag "a sink is given" where bytes come from the client, and "a serial
-- connection is attached" where the web page gives a command. An upload comes with what `\w` accepts
-- beyond ASCII and with the name that the browser gave.
pub data Event : Type 0 where
  client_connected : Event
  client_disconnected : Event
  raw_byte : ℕ → Bool → Event
  client_line : Text → Bool → Event
  idle_timeout : Event
  handed_over : Event
  handover_cancelled : Event
  streamer_done : StreamerResult → Event
  status_seen : StatusReport → Event
  poll_suspended : Event
  poll_read : List (Option Text) → Event
  web_paused : Bool → Event
  web_resumed : Bool → Event
  web_cancelled : Bool → Event
  web_uploaded : (ℕ → Bool) → StartIo → Option Text → Event
  web_rerun : StartIo → Text → Event
  web_console : Bool → Text → Event

-- only a streamer calls its `on_done`
abbrev pub ended_by : StreamerResult → Proxy → Proxy
ended_by result p = if is_some p.streamer then on_streamer_done result p else p

unfoldable pub handle : Io → Event → Proxy → Proxy
unfolding on_client_connected on_client_disconnected process_raw_byte process_client_line
    on_idle_timeout hand_over cancel_handover on_streamer_done update_last_status drain_serial
    suspend_idle_poll web_pause web_resume web_cancel start_uploaded_job start_existing_job
    send_console
handle io client_connected p = on_client_connected p
handle io client_disconnected p = on_client_disconnected p
handle io (raw_byte byte sink) p = (process_raw_byte io byte sink p).0
handle io (client_line line sink) p = (process_client_line io sink line p).0
handle io idle_timeout p = on_idle_timeout io p
handle io handed_over p = hand_over io.now p
handle io handover_cancelled p = cancel_handover p
handle io (streamer_done result) p = ended_by result p
handle io (status_seen status) p = update_last_status status p
handle io poll_suspended p = suspend_idle_poll p
handle io (poll_read reads) p = drain_serial reads p
handle io (web_paused attached) p = (web_pause io attached p).0
handle io (web_resumed attached) p = (web_resume io attached p).0
handle io (web_cancelled attached) p = (web_cancel io attached p).0
handle io (web_uploaded wide w name) p = (start_uploaded_job wide io w name p).0
handle io (web_rerun w stem) p = (start_existing_job io w stem p).0
handle io (web_console attached command) p = (send_console io attached command p).0

-- A history of events, with what the environment answers to each.
unfoldable pub handle_all : List (Io × Event) → Proxy → Proxy
unfolding handle
handle_all [] p = p
handle_all ((io, e) ∷ es) p = handle_all es (handle io e p)
