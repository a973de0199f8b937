-- ===== src/Streamer/Frame.antt =====
-- What an iteration of a drain loop in streamer.py leaves alone: the lines written, their count,
-- the total and the limits. A result that it ends with is never "completed".
use grbl_proxy.Prelude.{
  ℕ, suc, ◌+◌, ◌≡◌, refl, ap, ◌∙◌, inl, inr, true, false, Option, none, some, List, [], ◌∷◌, ◌++◌,
  arith, Bool-cases, if◌then◌else◌, append-nil, length,
}
use grbl_proxy.Text.{Text, is_empty}
use grbl_proxy.Protocol.Report.{StatusReport, parse_status_report}
use grbl_proxy.Protocol.Split.{split_responses}
use grbl_proxy.Streamer.Supervision.{status_fault, stall_fault}
use grbl_proxy.Streamer.{
  Streamer, Watch, StreamerResult, Message, Write, query, code, soft_reset, Op, pause, apply_op,
  apply_ops, reset_mid_stream, reset_in_drain,
}
use grbl_proxy.Streamer.Loop.{
  Read, line, timeout, disconnected, task_cancelled, Tick, Locals, Ending, returned, lost, aborted,
  waiting, Flow, again, leave, stop, cancelled_result, fault_result, error_result, alarm_result,
  with_watch, finish, unless_fault, on_report, on_banner, report,
}
use grbl_proxy.Streamer.Kinds.{
  Kind, ok, vendor_fault, error, alarm, status, feedback, greeting, unknown, send_kind, drain_kind,
}
use grbl_proxy.Streamer.Send.{
  pop_sent, send_idle, send_idle_or_not, send_phantom, send_dispatch, send_response,
}
use grbl_proxy.Streamer.Drain.{drain_idle, drain_idle_or_not, drain_dispatch, drain_response}
use grbl_proxy.Streamer.Reading.{
  maybe_poll, poll_all, take_pending, after_read, next_response, iteration, poll_and_read,
}

-- The lines of the job among what was written.
abbrev pub code_lines : List Write → List Text
code_lines [] = []
code_lines (query ∷ ws) = code_lines ws
code_lines (code x ∷ ws) = x ∷ code_lines ws
code_lines (soft_reset ∷ ws) = code_lines ws

pub code_lines-append :
    (ws vs : List Write) → code_lines (ws ++ vs) ≡ code_lines ws ++ code_lines vs
code_lines-append [] vs = refl
code_lines-append (query ∷ ws) vs = code_lines-append ws vs
code_lines-append (code x ∷ ws) vs = ap (λ t. x ∷ t) (code_lines-append ws vs)
code_lines-append (soft_reset ∷ ws) vs = code_lines-append ws vs

-- How often the fail-safe reset is among what was written.
abbrev pub resets : List Write → ℕ
resets [] = 0
resets (query ∷ ws) = resets ws
resets (code x ∷ ws) = resets ws
resets (soft_reset ∷ ws) = suc (resets ws)

pub resets-append : (ws vs : List Write) → resets (ws ++ vs) ≡ resets ws + resets vs
resets-append [] vs = omega arith
resets-append (query ∷ ws) vs = resets-append ws vs
resets-append (code x ∷ ws) vs = resets-append ws vs
resets-append (soft_reset ∷ ws) vs = omega (arith, resets-append ws vs)

pub record Frame (s t : Streamer) : Type 0 where
  pub lines_sent : t.lines_sent ≡ s.lines_sent
  pub total_lines : t.total_lines ≡ s.total_lines
  pub limits : t.limits ≡ s.limits
  pub lines : code_lines t.written ≡ code_lines s.written
  pub no_reset : resets t.written ≡ resets s.written

pub Frame-refl : (s : Streamer) → Frame s s
Frame-refl s = record {
  lines_sent = refl;
  total_lines = refl;
  limits = refl;
  lines = refl;
  no_reset = refl;
}

pub Frame-trans : {s t u : Streamer} → Frame s t → Frame t u → Frame s u
Frame-trans a b = record {
  lines_sent = b.lines_sent ∙ a.lines_sent;
  total_lines = b.total_lines ∙ a.total_lines;
  limits = b.limits ∙ a.limits;
  lines = b.lines ∙ a.lines;
  no_reset = b.no_reset ∙ a.no_reset;
}

-- A result that a loop ends with counts the lines as the object does, and is not "completed".
pub record IsStop (r : StreamerResult) (t : Streamer) : Type 0 where
  pub completed : r.completed ≡ false
  pub lines_sent : r.lines_sent ≡ t.lines_sent
  pub total_lines : r.total_lines ≡ t.total_lines

abbrev pub EndFrames : Streamer → Ending → Type 0
EndFrames s (returned r l) = Frame s l.self × IsStop r l.self
EndFrames s (lost l) = Frame s l.self
EndFrames s (aborted l) = Frame s l.self
EndFrames s (waiting l) = Frame s l.self

abbrev pub Frames : Streamer → Flow → Type 0
Frames s (again l) = Frame s l.self
Frames s (leave l) = Frame s l.self
Frames s (stop e) = EndFrames s e

pub apply_op-Frame : (o : Op) (s : Streamer) → Frame s (apply_op o s)
unfolding apply_op
apply_op-Frame pause s = ground arith
apply_op-Frame _ s = ground arith

pub apply_ops-Frame : (os : List Op) (s : Streamer) → Frame s (apply_ops os s)
unfolding apply_ops
apply_ops-Frame [] s = Frame-refl s
apply_ops-Frame (o ∷ os) s = Frame-trans (apply_op-Frame o s) (apply_ops-Frame os (apply_op o s))

pub maybe_poll-Frame : (now : ℕ) (s : Streamer) → Frame s (maybe_poll now s)
unfolding maybe_poll
maybe_poll-Frame now s = ground (
  arith,
  code_lines-append s.written (query ∷ []),
  append-nil (code_lines s.written),
  resets-append s.written (query ∷ []),
)

pub poll_all-Frame : (times : List ℕ) (s : Streamer) → Frame s (poll_all times s)
unfolding poll_all
poll_all-Frame [] s = Frame-refl s
poll_all-Frame (now ∷ times) s =
    Frame-trans (maybe_poll-Frame now s) (poll_all-Frame times (maybe_poll now s))

-- The ways to stop.
pub cancelled_result-IsStop : (s : Streamer) → IsStop (cancelled_result s) s
unfolding cancelled_result
cancelled_result-IsStop s = record { completed = refl; lines_sent = refl; total_lines = refl }

pub fault_result-IsStop : (m : Message) (s : Streamer) → IsStop (fault_result m s) s
unfolding fault_result
fault_result-IsStop m s = record { completed = refl; lines_sent = refl; total_lines = refl }

error_result-IsStop : (at : ℕ) (r : Text) (s : Streamer) → IsStop (error_result at r s) s
unfolding error_result
error_result-IsStop at r s = record { completed = refl; lines_sent = refl; total_lines = refl }

alarm_result-IsStop : (r : Text) (s : Streamer) → IsStop (alarm_result r s) s
unfolding alarm_result
alarm_result-IsStop r s = record { completed = refl; lines_sent = refl; total_lines = refl }

-- The supervision writes nothing and counts no line.
Frame-watch : (w : Watch) (s : Streamer) → Frame s (record s { watch = w })
Frame-watch w s = record {
  lines_sent = refl;
  total_lines = refl;
  limits = refl;
  lines = refl;
  no_reset = refl;
}

Frame-report :
    (st : StatusReport) (s : Streamer) → Frame s (record s { reported = st ∷ s.reported })
Frame-report st s = record {
  lines_sent = refl;
  total_lines = refl;
  limits = refl;
  lines = refl;
  no_reset = refl;
}

Frames-trans : {s t : Streamer} (f : Flow) → Frame s t → Frames t f → Frames s f
Frames-trans (again l) a h = Frame-trans a h
Frames-trans (leave l) a h = Frame-trans a h
Frames-trans (stop (returned r l)) a h = (Frame-trans a h.0, h.1)
Frames-trans (stop (lost l)) a h = Frame-trans a h
Frames-trans (stop (aborted l)) a h = Frame-trans a h
Frames-trans (stop (waiting l)) a h = Frame-trans a h

unless_fault-Frames :
    (f : Watch × Option Message) (k : Locals → Flow) (l : Locals)
    → ((l' : Locals) → Frames l'.self (k l'))
    → Frames l.self (unless_fault f k l)
unless_fault-Frames (w, some m) k l h =
    (Frame-watch w l.self, fault_result-IsStop m (record l.self { watch = w }))
unless_fault-Frames (w, none) k l h =
    Frames-trans (k (with_watch w l)) (Frame-watch w l.self) (h (with_watch w l))

on_report-Frames :
    (now : ℕ) (k : StatusReport → Locals → Flow) (o : Option StatusReport) (l : Locals)
    → ((st : StatusReport) (l' : Locals) → Frames l'.self (k st l'))
    → Frames l.self (on_report now k o l)
unfolding on_report
on_report-Frames now k none l h = Frame-refl l.self
on_report-Frames now k (some st) l h =
    let f = status_fault now l.self.lines_sent l.self.paused st l.self.watch in
    Frames-trans (unless_fault f (k st) (report st l)) (Frame-report st l.self)
      (unless_fault-Frames f (k st) (report st l) (h st))

send_phantom-Frames : (st : StatusReport) (l : Locals) → Frames l.self (send_phantom st l)
unfolding send_phantom send_idle_or_not send_idle fault_result
send_phantom-Frames st l = ground arith

drain_idle_or_not-Frames : (st : StatusReport) (l : Locals) → Frames l.self (drain_idle_or_not st l)
unfolding drain_idle_or_not drain_idle fault_result
drain_idle_or_not-Frames st l = ground arith

pop_sent-Frame : (ns : List ℕ) (l : Locals) → Frame l.self (pop_sent ns l).self
unfolding pop_sent
pop_sent-Frame [] l = Frame-refl l.self
pop_sent-Frame (n ∷ ns) l = Frame-refl l.self

on_banner-Frames : (m : Message) (l : Locals) → Frames l.self (on_banner m l)
unfolding on_banner fault_result
on_banner-Frames m l = ground arith

send_dispatch-Frames :
    (k : Kind) (i now : ℕ) (r : Text) (l : Locals) → Frames l.self (send_dispatch k i now r l)
unfolding send_dispatch
send_dispatch-Frames ok i now r l = ground (arith, pop_sent-Frame l.line_lengths l)
send_dispatch-Frames vendor_fault i now r l = ground arith
send_dispatch-Frames error i now r l = (Frame-refl l.self, error_result-IsStop (i + 1) r l.self)
send_dispatch-Frames alarm i now r l = (Frame-refl l.self, alarm_result-IsStop r l.self)
send_dispatch-Frames status i now r l =
    on_report-Frames now send_phantom (parse_status_report r) l send_phantom-Frames
send_dispatch-Frames feedback i now r l = Frame-refl l.self
send_dispatch-Frames greeting i now r l = on_banner-Frames (reset_mid_stream l.self.lines_sent) l
send_dispatch-Frames unknown i now r l = Frame-refl l.self

drain_dispatch-Frames :
    (k : Kind) (now : ℕ) (r : Text) (l : Locals) → Frames l.self (drain_dispatch k now r l)
unfolding drain_dispatch
drain_dispatch-Frames ok now r l = ground arith
drain_dispatch-Frames vendor_fault now r l = ground arith
drain_dispatch-Frames error now r l =
    (Frame-refl l.self, error_result-IsStop l.self.lines_sent r l.self)
drain_dispatch-Frames alarm now r l = (Frame-refl l.self, alarm_result-IsStop r l.self)
drain_dispatch-Frames status now r l =
    on_report-Frames now drain_idle_or_not (parse_status_report r) l drain_idle_or_not-Frames
drain_dispatch-Frames feedback now r l = Frame-refl l.self
drain_dispatch-Frames greeting now r l = on_banner-Frames (reset_in_drain (length l.line_lengths)) l
drain_dispatch-Frames unknown now r l = Frame-refl l.self

-- A handler that keeps the frame.
abbrev pub Keeps : (Text → Locals → Flow) → Type 0
Keeps handle = (r : Text) (l : Locals) → Frames l.self (handle r l)

pub send_response-Keeps : (i now : ℕ) → Keeps (send_response i now)
unfolding send_response
send_response-Keeps i now r l = send_dispatch-Frames (send_kind r) i now r l

pub drain_response-Keeps : (now : ℕ) → Keeps (drain_response now)
unfolding drain_response
drain_response-Keeps now r l = drain_dispatch-Frames (drain_kind r) now r l

module _ (handle : Text → Locals → Flow) (keeps : Keeps handle) where
  take_pending-Frames : (rs : List Text) (l : Locals) → Frames l.self (take_pending handle rs l)
  unfolding take_pending
  take_pending-Frames [] l = Frame-refl l.self
  take_pending-Frames (r ∷ rs) l = elim (Bool-cases (is_empty r)) [
    | inl e ↦ rw e (Frame-refl l.self)
    | inr e ↦ rw e (keeps r (record l { pending = rs }))
  ]

  after_read-Frames : (rd : Read) (l : Locals) → Frames l.self (after_read handle rd l)
  unfolding after_read
  after_read-Frames (line text) l = take_pending-Frames (split_responses text) l
  after_read-Frames timeout l = Frame-refl l.self
  after_read-Frames disconnected l = Frame-refl l.self
  after_read-Frames task_cancelled l = Frame-refl l.self

  next_response-Frames :
      (t : Tick) (rs : List Text) (l : Locals) → Frames l.self (next_response handle t rs l)
  unfolding next_response
  next_response-Frames t [] l =
      let polled = poll_all t.polls l.self in
      let l' = record l { self = apply_ops t.ops polled } in
      Frames-trans (after_read handle t.read l')
        (Frame-trans (poll_all-Frame t.polls l.self) (apply_ops-Frame t.ops polled))
        (after_read-Frames t.read l')
  next_response-Frames t (r ∷ rs) l =
      let l' = record l { self = apply_ops t.ops l.self } in
      Frames-trans (take_pending handle (r ∷ rs) l') (apply_ops-Frame t.ops l.self)
        (take_pending-Frames (r ∷ rs) l')

  poll_and_read-Frames : (t : Tick) (l : Locals) → Frames l.self (poll_and_read handle t l)
  poll_and_read-Frames t l =
      let l' = record l { self = maybe_poll t.before l.self } in
      Frames-trans (next_response handle t l.pending l') (maybe_poll-Frame t.before l.self)
        (next_response-Frames t l.pending l')

  -- One iteration of a loop keeps the frame if its handler does.
  pub iteration-Frames : (t : Tick) (l : Locals) → Frames l.self (iteration handle t l)
  unfolding iteration
  iteration-Frames t l =
      let f = stall_fault t.before l.self.lines_sent l.self.paused l.self.limits l.self.watch in
      let go = unless_fault f (poll_and_read handle t) l in
      elim l.self.cancelled as (λ b. Frames l.self (if b then finish cancelled_result l else go)) [
        | true ↦ (Frame-refl l.self, cancelled_result-IsStop l.self)
        | false ↦ unless_fault-Frames f (poll_and_read handle t) l (poll_and_read-Frames t)
      ]
