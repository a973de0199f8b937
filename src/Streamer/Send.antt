-- ===== src/Streamer/Send.antt =====
-- The send loop of `_stream_lines` in streamer.py: what each response does while a line waits for
-- room in the controller's buffer.
use grbl_proxy.Prelude.{ℕ, ◌+◌, ◌-◌, List, [], ◌∷◌, length, leb, if◌then◌else◌}
use grbl_proxy.Text.{Text}
use grbl_proxy.Protocol.Report.{StatusReport, parse_status_report}
use grbl_proxy.Streamer.{dropped_after_hold, reset_mid_stream, idle_complete_polls}
use grbl_proxy.Streamer.Supervision.{buffer_looks_phantom, is_idle_state}
use grbl_proxy.Streamer.Loop.{
  Locals, Flow, again, leave, fault_result, error_result, alarm_result, with_watch, finish, acked,
  on_report, on_banner, hold_on,
}
use grbl_proxy.Streamer.Kinds.{
  Kind, ok, vendor_fault, error, alarm, status, feedback, greeting, unknown, send_kind,
}

abbrev pub emptied : Locals → Locals
emptied l = record l { buffer_used = 0; line_lengths = [] }

-- `buffer_used -= line_lengths.popleft()` if a line is in flight
unfoldable pub pop_sent : List ℕ → Locals → Locals
pop_sent [] l = l
pop_sent (n ∷ rest) l = record l { buffer_used = l.buffer_used - n; line_lengths = rest }

unfoldable pub send_ok : ℕ → Locals → Flow
unfolding pop_sent
send_ok now l = again (
    pop_sent l.line_lengths
      (record (with_watch (record (acked now l.self.watch) { rx_drained_polls = 0 }) l) {
        idle_polls = 0;
      }))

-- three Idle reports in a row: reconcile, unless the machine has just come out of a hold
unfoldable pub send_idle : Locals → Flow
send_idle l =
    let l' = record l { idle_polls = l.idle_polls + 1 } in
    if leb idle_complete_polls l'.idle_polls
    then if l.self.watch.resumed_from_hold
      then finish (fault_result (dropped_after_hold (length l.line_lengths))) l'
      else leave (record (emptied l') { idle_polls = 0 })
    else again l'

unfoldable pub send_idle_or_not : StatusReport → Locals → Flow
unfolding send_idle is_idle_state
send_idle_or_not st l =
    if is_idle_state st.state then send_idle l else again (record l { idle_polls = 0 })

-- a drained controller proves the count stale
unfoldable pub send_phantom : StatusReport → Locals → Flow
unfolding buffer_looks_phantom send_idle_or_not
send_phantom st l =
    let (w, phantom) = buffer_looks_phantom st l.buffer_used l.self.watch in
    if phantom
    then leave (emptied (with_watch (record w { rx_drained_polls = 0 }) l))
    else send_idle_or_not st (with_watch w l)

-- the branches of the send loop on a response to line `i`
unfoldable pub send_dispatch : Kind → ℕ → ℕ → Text → Locals → Flow
unfolding send_ok hold_on on_report send_phantom on_banner parse_status_report
send_dispatch ok i now r l = send_ok now l
send_dispatch vendor_fault i now r l = hold_on now r l
send_dispatch error i now r l = finish (error_result (i + 1) r) l
send_dispatch alarm i now r l = finish (alarm_result r) l
send_dispatch status i now r l = on_report now send_phantom (parse_status_report r) l
send_dispatch feedback i now r l = again l
send_dispatch greeting i now r l = on_banner (reset_mid_stream l.self.lines_sent) l
send_dispatch unknown i now r l = again l

unfoldable pub send_response : ℕ → ℕ → Text → Locals → Flow
unfolding send_kind send_dispatch
send_response i now r l = send_dispatch (send_kind r) i now r l
