-- ===== src/Streamer/Drain.antt =====
-- The trailing drain of `_stream_lines` in streamer.py: what each response does once every line is
-- sent.
use grbl_proxy.Prelude.{ℕ, ◌+◌, [], ◌∷◌, length, leb, if◌then◌else◌}
use grbl_proxy.Text.{Text}
use grbl_proxy.Protocol.Report.{StatusReport, parse_status_report}
use grbl_proxy.Streamer.{dropped_after_hold, reset_in_drain, idle_complete_polls}
use grbl_proxy.Streamer.Supervision.{is_idle_state}
use grbl_proxy.Streamer.Loop.{
  Locals, Flow, again, leave, fault_result, error_result, alarm_result, with_watch, finish, acked,
  on_report, on_banner, hold_on,
}
use grbl_proxy.Streamer.Kinds.{
  Kind, ok, vendor_fault, error, alarm, status, feedback, greeting, unknown, drain_kind,
}

-- the branches of the trailing drain
unfoldable pub drain_ok : ℕ → Locals → Flow
drain_ok now l = again (record (with_watch (acked now l.self.watch) l) {
  line_lengths = elim l.line_lengths [ [] ↦ [] | _ ∷ rest ↦ rest ];
  idle_polls = 0;
})

unfoldable pub drain_error : Text → Locals → Flow
drain_error r l =
    finish (error_result l.self.lines_sent r)
      (record l { line_lengths = elim l.line_lengths [ [] ↦ [] | _ ∷ rest ↦ rest ] })

-- three Idle reports in a row: the job is done, unless the machine has just come out of a hold
unfoldable pub drain_idle : Locals → Flow
drain_idle l =
    let l' = record l { idle_polls = l.idle_polls + 1 } in
    if leb idle_complete_polls l'.idle_polls
    then if l.self.watch.resumed_from_hold
      then finish (fault_result (dropped_after_hold (length l.line_lengths))) l'
      else leave l'
    else again l'

unfoldable pub drain_idle_or_not : StatusReport → Locals → Flow
unfolding drain_idle is_idle_state
drain_idle_or_not st l =
    if is_idle_state st.state then drain_idle l else again (record l { idle_polls = 0 })

unfoldable pub drain_dispatch : Kind → ℕ → Text → Locals → Flow
unfolding drain_ok drain_error hold_on on_report drain_idle_or_not on_banner parse_status_report
drain_dispatch ok now r l = drain_ok now l
drain_dispatch vendor_fault now r l = hold_on now r l
drain_dispatch error now r l = drain_error r l
drain_dispatch alarm now r l = finish (alarm_result r) l
drain_dispatch status now r l = on_report now drain_idle_or_not (parse_status_report r) l
drain_dispatch feedback now r l = again l
drain_dispatch greeting now r l = on_banner (reset_in_drain (length l.line_lengths)) l
drain_dispatch unknown now r l = again l

unfoldable pub drain_response : ℕ → Text → Locals → Flow
unfolding drain_kind drain_dispatch
drain_response now r l = drain_dispatch (drain_kind r) now r l
