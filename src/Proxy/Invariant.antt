-- ===== src/Proxy/Invariant.antt =====
-- What holds of the state machine of proxy_core.py between two events.
mod Web
pub mod History
use grbl_proxy.Prelude.{
  ℕ, ◌≡◌, refl, ◌∙◌, Bool, true, false, not, ◌&&◌, ◌||◌, Option, none, some, List, [], ◌∷◌, arith,
  is_some, if◌then◌else◌,
}
use grbl_proxy.Text.{Text}
use grbl_proxy.Job.{gcode_name}
use grbl_proxy.Job.Files.{Dir, read}
use grbl_proxy.Streamer.{StreamerResult}
use grbl_proxy.Proxy.{
  ProxyState, Proxy, Config, Io, is_buffering, is_active, is_unsettled, new_proxy,
}
use grbl_proxy.Proxy.Life.{
  discard_buffer, enter_buffering, start_streamer, finalize_job, await_reader, hand_over,
  cancel_handover, on_idle_timeout, on_streamer_done,
}
use grbl_proxy.Proxy.Client.{on_client_connected, on_client_disconnected}
use grbl_proxy.Proxy.Bytes.{process_raw_byte, control_byte, abandon_job, control}
use grbl_proxy.Text.{strip}
use grbl_proxy.Protocol.{is_status_report, is_error, is_alarm}
use grbl_proxy.Protocol.Report.{StatusReport, parse_status_report}
use grbl_proxy.Proxy.{Effect}
use grbl_proxy.Proxy.Lines.{
  line_in_buffering_cases, buffer_line, process_client_line, line_by_state, line_in_passthrough,
  line_in_error, line_in_buffering,
}
use grbl_proxy.Proxy.Poll.{
  update_if, note_line, drain_serial, update_last_status, suspend_idle_poll,
}
use grbl_proxy.Proxy.Events.{
  Event, client_connected, client_disconnected, raw_byte, client_line, idle_timeout, streamer_done,
  status_seen, poll_suspended, poll_read, web_paused, web_resumed, web_cancelled, web_uploaded,
  web_rerun, web_console, ended_by, handle, handle_all,
}
use grbl_proxy.Web.Control.{web_pause, web_resume, web_cancel, send_console}
use grbl_proxy.Web.Start.{
  Start, StartIo, uploaded, may_start, begin_execution, start_checked_cases, start_upload,
  start_stored, upload_stem, archive_upload, start_uploaded_job, start_existing_job,
}

-- The job buffer is there exactly while a job is buffered, and only then may the idle timer run; a job
-- runs or is paused exactly while the streamer is there or still to come, and never both, and then the
-- streamer has the serial reads.
pub record IsValid (p : Proxy) : Type 0 where
  pub buffer_iff : is_some p.buffer ≡ is_buffering p.state
  pub streamer_iff : (is_some p.streamer || is_unsettled p.handover) ≡ is_active p.state
  pub apart : (is_some p.streamer && is_unsettled p.handover) ≡ false
  pub readable_iff : p.serial_readable ≡ not (is_active p.state)
  pub timer_only : (p.idle_armed && not (is_buffering p.state)) ≡ false

pub new_proxy-IsValid : (c : Config) (d : Dir) → IsValid (new_proxy c d)
unfolding new_proxy
new_proxy-IsValid c d = ground arith

pub on_client_connected-IsValid : (p : Proxy) → IsValid p → IsValid (on_client_connected p)
unfolding on_client_connected discard_buffer
on_client_connected-IsValid p v = ground arith

pub on_client_disconnected-IsValid : (p : Proxy) → IsValid p → IsValid (on_client_disconnected p)
unfolding on_client_disconnected discard_buffer
on_client_disconnected-IsValid p v = ground arith

finalize_job-IsValid :
    (io : Io) (last : Option Text) (p : Proxy)
    → is_buffering p.state ≡ true
    → is_some p.buffer ≡ true
    → is_some p.streamer ≡ false
    → IsValid (finalize_job io last p)
unfolding finalize_job await_reader hand_over start_streamer
finalize_job-IsValid io last p b s t = ground arith

pub on_idle_timeout-IsValid : (io : Io) (p : Proxy) → IsValid p → IsValid (on_idle_timeout io p)
unfolding on_idle_timeout
on_idle_timeout-IsValid io p v =
    ground (arith, finalize_job-IsValid io none (record p { idle_armed = false }))

pub on_streamer_done-IsValid : (r : StreamerResult) (p : Proxy) → IsValid p → IsValid (ended_by r p)
unfolding on_streamer_done
on_streamer_done-IsValid r p v = ground arith

pub hand_over-IsValid : (now : ℕ) (p : Proxy) → IsValid p → IsValid (hand_over now p)
unfolding hand_over start_streamer
hand_over-IsValid now p v = ground arith

pub cancel_handover-IsValid : (p : Proxy) → IsValid p → IsValid (cancel_handover p)
unfolding cancel_handover
cancel_handover-IsValid p v = ground arith

control_byte-IsValid :
    (io : Io) (byte : ℕ) (sink : Bool) (p : Proxy)
    → IsValid p
    → IsValid (control_byte io byte sink p).0
unfolding control_byte abandon_job control discard_buffer
control_byte-IsValid io byte sink p v = ground arith

pub process_raw_byte-IsValid :
    (io : Io) (byte : ℕ) (sink : Bool) (p : Proxy)
    → IsValid p
    → IsValid (process_raw_byte io byte sink p).0
unfolding process_raw_byte
process_raw_byte-IsValid io byte sink p v =
    ground (arith, control_byte-IsValid io byte sink (record p { serial_conn = true }))

-- The state that a handler leaves is valid.
abbrev IsLeftValid : Proxy × List Effect → Type 0
IsLeftValid (p, effects) = IsValid p

no_streamer : (a b : Bool) → (a || b) ≡ false → a ≡ false
no_streamer a b h = ground arith

idle-buffering : (s : ProxyState) → is_buffering s ≡ true → is_active s ≡ false
idle-buffering s b = ground arith

armed-IsValid :
    (p : Proxy) → IsValid p → is_buffering p.state ≡ true → IsValid (record p { idle_armed = true })
armed-IsValid p v b = ground arith

buffered-IsValid :
    (line : Text) (p : Proxy)
    → IsValid p
    → is_buffering p.state ≡ true
    → IsValid (record (buffer_line line p.buffer p) { idle_armed = true })
buffered-IsValid line p v b = ground arith

line_in_buffering-IsValid :
    (io : Io) (line : Text) (p : Proxy)
    → IsValid p
    → is_buffering p.state ≡ true
    → IsValid (line_in_buffering io line p).0
line_in_buffering-IsValid io line p v b =
    let done : (last : Option Text) → IsValid (finalize_job io last p) = λ last.
      finalize_job-IsValid io last p b (v.buffer_iff ∙ b) (
        no_streamer (is_some p.streamer) (is_unsettled p.handover)
          (v.streamer_iff ∙ idle-buffering p.state b)) in
    line_in_buffering_cases IsLeftValid io line p (λ _. armed-IsValid p v b) (λ _. done none)
      (λ _ _. done (some line)) (λ _ _. buffered-IsValid line p v b)

line_in_error-IsValid :
    (io : Io) (line : Text) (p : Proxy)
    → IsValid p
    → is_buffering p.state ≡ false
    → is_active p.state ≡ false
    → IsValid (line_in_error io line p).0
unfolding line_in_error
line_in_error-IsValid io line p v b a = ground arith

line_in_passthrough-IsValid :
    (io : Io) (sink : Bool) (line : Text) (p : Proxy)
    → IsValid p
    → is_active p.state ≡ false
    → IsValid (line_in_passthrough io sink line p).0
unfolding line_in_passthrough enter_buffering
line_in_passthrough-IsValid io sink line p v a = ground arith

line_by_state-IsValid :
    (io : Io) (sink : Bool) (line : Text) (s : ProxyState) (p : Proxy)
    → IsValid p
    → p.state ≡ s
    → IsValid (line_by_state io sink line s p).0
unfolding line_by_state
line_by_state-IsValid io sink line s p v e = ground (
  arith,
  line_in_buffering-IsValid io line p v,
  line_in_error-IsValid io line p v,
  line_in_passthrough-IsValid io sink line p v,
)

pub process_client_line-IsValid :
    (io : Io) (sink : Bool) (line : Text) (p : Proxy)
    → IsValid p
    → IsValid (process_client_line io sink line p).0
unfolding process_client_line
process_client_line-IsValid io sink line p v = line_by_state-IsValid io sink line p.state p v refl

-- Two proxies that agree on what IsValid reads.
record IsSameCore (p q : Proxy) : Type 0 where
  buffer : q.buffer ≡ p.buffer
  state : q.state ≡ p.state
  streamer : q.streamer ≡ p.streamer
  handover : q.handover ≡ p.handover
  readable : q.serial_readable ≡ p.serial_readable
  timer : q.idle_armed ≡ p.idle_armed

same-IsValid : (p q : Proxy) → IsSameCore p q → IsValid p → IsValid q
same-IsValid p q c v = ground arith

update_if-IsValid : (s : Option StatusReport) (p : Proxy) → IsValid p → IsValid (update_if s p)
unfolding update_last_status
update_if-IsValid none p v = v
update_if-IsValid (some status) p v =
    same-IsValid p (update_last_status status p)
      (record {
        buffer = refl;
        state = refl;
        streamer = refl;
        handover = refl;
        readable = refl;
        timer = refl;
      })
      v

note_line-IsValid : (line : Text) (p : Proxy) → IsValid p → IsValid (note_line line p)
unfolding note_line update_last_status
note_line-IsValid line p v =
    elim (is_status_report line)
      as (λ t. IsValid (
        if t
        then update_if (parse_status_report line) p
        else if is_error line || is_alarm line
        then record p { last_machine_fault = some (strip line) }
        else p)) [
          | true ↦ update_if-IsValid (parse_status_report line) p v
          | false ↦
              elim (is_error line || is_alarm line)
                as (λ t.
                  IsValid (if t then record p { last_machine_fault = some (strip line) } else p)) [
                    | true ↦
                        same-IsValid p (record p { last_machine_fault = some (strip line) })
                          (record {
                            buffer = refl;
                            state = refl;
                            streamer = refl;
                            handover = refl;
                            readable = refl;
                            timer = refl;
                          })
                          v
                    | false ↦ v
                  ]
        ]

pub drain_serial-IsValid :
    (reads : List (Option Text)) (p : Proxy) → IsValid p → IsValid (drain_serial reads p)
unfolding drain_serial
drain_serial-IsValid [] p v = v
drain_serial-IsValid (none ∷ reads) p v = v
drain_serial-IsValid (some line ∷ reads) p v =
    let rest : IsValid (drain_serial reads (note_line line p)) =
      drain_serial-IsValid reads (note_line line p) (note_line-IsValid line p v) in
    ground arith
