-- ===== src/Proxy/Graph.antt =====
-- The state diagram of proxy_core.py: which event leads from which state to which.
mod Web
pub mod Latch
use grbl_proxy.Prelude.{
  ℕ, ◌≡◌, refl, subst, ap, ◌∙◌, ◌⊎◌, Bool, true, false, not, ◌&&◌, ◌||◌, Option, none, some, List,
  [], ◌∷◌, ◌==◌, arith, is_some, inl, inr, if◌then◌else◌,
}
use grbl_proxy.Text.{Text}
use grbl_proxy.Protocol.Report.{StatusReport}
use grbl_proxy.Streamer.{StreamerResult}
use grbl_proxy.Proxy.{
  ProxyState, disconnected, passthrough, buffering, executing, paused, error, Proxy, Config, Io,
  is_buffering, is_active, is_unsettled,
}
use grbl_proxy.Proxy.Gcode.{is_program_end_command}
use grbl_proxy.Proxy.Life.{
  discard_buffer, enter_buffering, start_streamer, finalize_job, await_reader, hand_over,
  cancel_handover, on_idle_timeout, on_streamer_done,
}
use grbl_proxy.Proxy.Client.{keeps_session, on_client_connected, on_client_disconnected}
use grbl_proxy.Proxy.Bytes.{process_raw_byte, control_byte, abandon_job, control}
use grbl_proxy.Proxy.Lines.{
  line_in_buffering_cases, process_client_line, line_by_state, line_in_passthrough, line_in_error,
  line_in_buffering, buffer_line, check_job_end, check_job_start, is_unlock,
}
use grbl_proxy.Proxy.Poll.{note_line, drain_serial, update_last_status, suspend_idle_poll}
use grbl_proxy.Job.{JobBuffer}
use grbl_proxy.Job.Files.{Dir}
use grbl_proxy.Proxy.{new_proxy}
use grbl_proxy.Proxy.Events.{
  Event, client_connected, client_disconnected, raw_byte, client_line, idle_timeout, handed_over,
  handover_cancelled, streamer_done, status_seen, poll_suspended, poll_read, web_paused,
  web_resumed, web_cancelled, web_uploaded, web_rerun, web_console, ended_by, handle, handle_all,
}
use grbl_proxy.Job.{gcode_name}
use grbl_proxy.Job.Files.{read}
use grbl_proxy.Text.{strip}
use grbl_proxy.Web.Control.{web_pause, web_resume, web_cancel, send_console}
use grbl_proxy.Web.Start.{
  Start, StartIo, uploaded, may_start, begin_execution, start_checked_cases, start_upload,
  start_stored, start_uploaded_job, start_existing_job,
}

-- A buffered job is started, or dropped when no serial connection has been seen.
abbrev pub IsStarted : Proxy → ProxyState → Type 0
IsStarted p next = next ≡ executing ⊎ (next ≡ passthrough × p.serial_conn ≡ false)

-- The edges of the diagram, by event: from the state of the proxy to `next`.
unfoldable pub IsEdge : Event → Proxy → ProxyState → Type 0
IsEdge client_connected p next =
    (next ≡ p.state × keeps_session p.state ≡ true)
    ⊎ (next ≡ passthrough × keeps_session p.state ≡ false)
IsEdge client_disconnected p next =
    (next ≡ p.state × is_active p.state ≡ true) ⊎ (next ≡ disconnected × is_active p.state ≡ false)
IsEdge (raw_byte byte sink) p next =
    next ≡ p.state
    ⊎ (p.state ≡ buffering
        × next ≡ passthrough
        × (byte == b'!' || byte == b'~' || byte == 0x18) ≡ true)
    ⊎ (p.state ≡ executing × next ≡ paused × byte ≡ b'!')
    ⊎ (p.state ≡ paused × next ≡ executing × byte ≡ b'~')
IsEdge (client_line line sink) p next =
    next ≡ p.state
    ⊎ (p.state ≡ passthrough × next ≡ buffering × check_job_start p line ≡ true)
    ⊎ (p.state ≡ error × next ≡ passthrough × is_unlock line ≡ true)
    ⊎ (p.state ≡ buffering
        × IsStarted p next
        × (check_job_end p line || is_program_end_command line) ≡ true)
IsEdge idle_timeout p next =
    (p.state ≡ buffering × IsStarted p next) ⊎ (next ≡ p.state × is_buffering p.state ≡ false)
IsEdge handed_over p next =
    next ≡ p.state ⊎ (is_active p.state ≡ true × next ≡ passthrough × p.serial_conn ≡ false)
IsEdge handover_cancelled p next = next ≡ p.state
IsEdge (streamer_done result) p next =
    (next ≡ p.state × (is_active p.state && is_some p.streamer) ≡ false)
    ⊎ (is_active p.state ≡ true
        × next ≡ error
        × result.completed ≡ false
        × p.user_cancelled ≡ false)
    ⊎ (is_active p.state ≡ true
        × next ≡ (if p.has_tcp_client then passthrough else disconnected)
        × (result.completed || p.user_cancelled) ≡ true)
IsEdge (status_seen status) p next = next ≡ p.state
IsEdge poll_suspended p next = next ≡ p.state
IsEdge (poll_read reads) p next = next ≡ p.state
IsEdge (web_paused attached) p next = next ≡ p.state ⊎ (p.state ≡ executing × next ≡ paused)
IsEdge (web_resumed attached) p next = next ≡ p.state ⊎ (p.state ≡ paused × next ≡ executing)
IsEdge (web_cancelled attached) p next = next ≡ p.state
IsEdge (web_uploaded wide w name) p next =
    next ≡ p.state ⊎ (may_start p.state ≡ true × next ≡ executing)
IsEdge (web_rerun w stem) p next = next ≡ p.state ⊎ (may_start p.state ≡ true × next ≡ executing)
IsEdge (web_console attached command) p next =
    next ≡ p.state
    ⊎ (p.state ≡ error
        × next ≡ disconnected
        × (is_unlock (strip command) && not p.has_tcp_client) ≡ true)

pub connected-IsEdge : (p : Proxy) → IsEdge client_connected p (on_client_connected p).state
unfolding IsEdge on_client_connected discard_buffer
connected-IsEdge p = ground arith

pub disconnected-IsEdge :
    (p : Proxy) → IsEdge client_disconnected p (on_client_disconnected p).state
unfolding IsEdge on_client_disconnected discard_buffer
disconnected-IsEdge p = ground arith

finalize-IsStarted :
    (io : Io) (last : Option Text) (p : Proxy)
    → is_some p.buffer ≡ true
    → IsStarted p (finalize_job io last p).state
unfolding finalize_job await_reader hand_over start_streamer
finalize-IsStarted io last p b = ground arith

pub idle-IsEdge :
    (io : Io) (p : Proxy)
    → is_some p.buffer ≡ is_buffering p.state
    → IsEdge idle_timeout p (on_idle_timeout io p).state
unfolding IsEdge on_idle_timeout
idle-IsEdge io p b = ground (arith, finalize-IsStarted io none (record p { idle_armed = false }))

pub done-IsEdge : (r : StreamerResult) (p : Proxy) → IsEdge (streamer_done r) p (ended_by r p).state
unfolding IsEdge on_streamer_done
done-IsEdge r p = ground arith

pub handed-IsEdge :
    (now : ℕ) (p : Proxy)
    → (is_unsettled p.handover && not (is_active p.state)) ≡ false
    → IsEdge handed_over p (hand_over now p).state
unfolding IsEdge hand_over start_streamer
handed-IsEdge now p h = ground arith

pub cancelled-IsEdge : (p : Proxy) → IsEdge handover_cancelled p (cancel_handover p).state
unfolding IsEdge cancel_handover
cancelled-IsEdge p = refl

control-IsEdge :
    (io : Io) (byte : ℕ) (sink : Bool) (p : Proxy)
    → IsEdge (raw_byte byte sink) p (control_byte io byte sink p).0.state
unfolding IsEdge control_byte abandon_job control discard_buffer
control-IsEdge io byte sink p = ground arith

pub byte-IsEdge :
    (io : Io) (byte : ℕ) (sink : Bool) (p : Proxy)
    → IsEdge (raw_byte byte sink) p (process_raw_byte io byte sink p).0.state
unfolding IsEdge process_raw_byte
byte-IsEdge io byte sink p =
    ground (arith, control-IsEdge io byte sink (record p { serial_conn = true }))

unlock-IsEdge :
    (io : Io) (line : Text) (sink : Bool) (p : Proxy)
    → p.state ≡ error
    → IsEdge (client_line line sink) p (line_in_error io line p).0.state
unfolding IsEdge line_in_error
unlock-IsEdge io line sink p e = ground arith

begin-IsEdge :
    (io : Io) (line : Text) (sink : Bool) (p : Proxy)
    → p.state ≡ passthrough
    → IsEdge (client_line line sink) p (line_in_passthrough io sink line p).0.state
unfolding IsEdge line_in_passthrough enter_buffering
begin-IsEdge io line sink p e = ground arith

buffer_line_state :
    (line : Text) (b : Option JobBuffer) (p : Proxy) → (buffer_line line b p).state ≡ p.state
buffer_line_state line none p = refl
buffer_line_state line (some b) p = refl

end-IsEdge :
    (io : Io) (line : Text) (sink : Bool) (p : Proxy)
    → is_some p.buffer ≡ is_buffering p.state
    → p.state ≡ buffering
    → IsEdge (client_line line sink) p (line_in_buffering io line p).0.state
unfolding IsEdge
end-IsEdge io line sink p b e =
    let some_buffer : is_some p.buffer ≡ true = b ∙ ap is_buffering e in
    let ends = check_job_end p line || is_program_end_command line in
    line_in_buffering_cases (λ r. IsEdge (client_line line sink) p r.0.state) io line p
      (λ _. inl refl)
      (λ m. inr (inr (inr (e, finalize-IsStarted io none p some_buffer, ground arith))))
      (λ _ m. inr (inr (inr (e, finalize-IsStarted io (some line) p some_buffer, ground arith))))
      (λ _ _. inl (buffer_line_state line p.buffer p))

line_by_state-IsEdge :
    (io : Io) (line : Text) (sink : Bool) (p : Proxy) (s : ProxyState)
    → is_some p.buffer ≡ is_buffering p.state
    → p.state ≡ s
    → IsEdge (client_line line sink) p (line_by_state io sink line s p).0.state
unfolding line_by_state IsEdge
line_by_state-IsEdge io line sink p passthrough b e = begin-IsEdge io line sink p e
line_by_state-IsEdge io line sink p executing b e = inl refl
line_by_state-IsEdge io line sink p paused b e = inl refl
line_by_state-IsEdge io line sink p error b e = unlock-IsEdge io line sink p e
line_by_state-IsEdge io line sink p buffering b e = end-IsEdge io line sink p b e
line_by_state-IsEdge io line sink p disconnected b e = inl refl

pub line-IsEdge :
    (io : Io) (line : Text) (sink : Bool) (p : Proxy)
    → is_some p.buffer ≡ is_buffering p.state
    → IsEdge (client_line line sink) p (process_client_line io sink line p).0.state
unfolding process_client_line
line-IsEdge io line sink p b = line_by_state-IsEdge io line sink p p.state b refl

note_line_state : (line : Text) (p : Proxy) → (note_line line p).state ≡ p.state
unfolding note_line update_last_status
note_line_state line p = ground arith

drain_state : (reads : List (Option Text)) (p : Proxy) → (drain_serial reads p).state ≡ p.state
unfolding drain_serial
drain_state [] p = refl
drain_state (none ∷ reads) p = refl
drain_state (some line ∷ reads) p =
    ground (arith, drain_state reads (note_line line p), note_line_state line p)

pub status-IsEdge :
    (r : StatusReport) (p : Proxy) → IsEdge (status_seen r) p (update_last_status r p).state
unfolding IsEdge update_last_status
status-IsEdge r p = refl

pub suspended-IsEdge : (p : Proxy) → IsEdge poll_suspended p (suspend_idle_poll p).state
unfolding IsEdge suspend_idle_poll
suspended-IsEdge p = refl

pub read-IsEdge :
    (reads : List (Option Text)) (p : Proxy)
    → IsEdge (poll_read reads) p (drain_serial reads p).state
unfolding IsEdge
read-IsEdge reads p = drain_state reads p
