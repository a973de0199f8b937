-- ===== src/Streamer/Loop.antt =====
-- `_stream_lines` of streamer.py. What the environment does is the input of each await: which
-- calls other tasks make, what the clock shows, what the read or the write ends with. Where the
-- inputs end, the code is still waiting.
use grbl_proxy.Prelude.{ℕ, true, false, Option, none, some, List, ◌∷◌, if◌then◌else◌}
use grbl_proxy.Text.{Text, strip}
use grbl_proxy.Protocol.{get_error_code}
use grbl_proxy.Protocol.Codes.{get_alarm_code}
use grbl_proxy.Protocol.Report.{StatusReport}
use grbl_proxy.Streamer.{Streamer, Watch, StreamerResult, Message, Op}
use grbl_proxy.Streamer.Supervision.{status_fault, enter_machine_hold}

-- How a serial read ends.
pub data Read : Type 0 where
  line : Text → Read
  timeout : Read
  disconnected : Read
  task_cancelled : Read

-- One iteration of a drain loop. `before` is the time at its top, `polls` the times at which the
-- wait for the read times out, `ops` what other tasks do while it waits, `after` the time at which
-- the read has ended. With a message pending nothing is read, and `polls` and `read` are not used.
pub record Tick : Type 0 where
  pub before : ℕ
  pub polls : List ℕ
  pub ops : List Op
  pub after : ℕ
  pub read : Read

-- The locals of _stream_lines beside the object.
pub record Locals : Type 0 where
  pub self : Streamer
  pub buffer_used : ℕ
  pub line_lengths : List ℕ
  pub pending : List Text
  pub idle_polls : ℕ

-- How _stream_lines ends: with a result, with an exception of the serial port or of the task, or
-- not yet.
pub data Ending : Type 0 where
  returned : StreamerResult → Locals → Ending
  lost : Locals → Ending
  aborted : Locals → Ending
  waiting : Locals → Ending

-- What an iteration does: go on, leave the loop, or end the function.
pub data Flow : Type 0 where
  again : Locals → Flow
  leave : Locals → Flow
  stop : Ending → Flow

-- The literals of StreamerResult in the source. `total_lines` is `len(lines)`, as `run` stores it.
unfoldable pub cancelled_result : Streamer → StreamerResult
cancelled_result s = record {
  completed = false;
  cancelled = true;
  error_line = none;
  error_code = none;
  alarm_code = none;
  lines_sent = s.lines_sent;
  total_lines = s.total_lines;
  message = none;
}

unfoldable pub fault_result : Message → Streamer → StreamerResult
fault_result m s = record {
  completed = false;
  cancelled = false;
  error_line = none;
  error_code = none;
  alarm_code = none;
  lines_sent = s.lines_sent;
  total_lines = s.total_lines;
  message = some m;
}

unfoldable pub error_result : ℕ → Text → Streamer → StreamerResult
unfolding get_error_code
error_result at response s = record {
  completed = false;
  cancelled = false;
  error_line = some at;
  error_code = get_error_code response;
  alarm_code = none;
  lines_sent = s.lines_sent;
  total_lines = s.total_lines;
  message = none;
}

unfoldable pub alarm_result : Text → Streamer → StreamerResult
unfolding get_alarm_code
alarm_result response s = record {
  completed = false;
  cancelled = false;
  error_line = none;
  error_code = none;
  alarm_code = get_alarm_code response;
  lines_sent = s.lines_sent;
  total_lines = s.total_lines;
  message = none;
}

unfoldable pub completed_result : Streamer → StreamerResult
completed_result s = record {
  completed = true;
  cancelled = false;
  error_line = none;
  error_code = none;
  alarm_code = none;
  lines_sent = s.lines_sent;
  total_lines = s.total_lines;
  message = none;
}

abbrev pub with_watch : Watch → Locals → Locals
with_watch w l = record l { self = record l.self { watch = w } }

abbrev pub finish : (Streamer → StreamerResult) → Locals → Flow
finish result l = stop (returned (result l.self) l)

-- `return self._fault_result(…)` if there is a fault, `k` with the new state if not
abbrev pub unless_fault : Watch × Option Message → (Locals → Flow) → Locals → Flow
unless_fault (w, some m) k l = finish (fault_result m) (with_watch w l)
unless_fault (w, none) k l = k (with_watch w l)

abbrev pub acked : ℕ → Watch → Watch
acked now w = record w { last_progress = now; resumed_from_hold = false }

-- a vendor fault: supervise the hold
unfoldable pub hold_on : ℕ → Text → Locals → Flow
unfolding enter_machine_hold strip
hold_on now r l = again (with_watch (enter_machine_hold now (strip r) false l.self.watch) l)

abbrev pub report : StatusReport → Locals → Locals
report st l = record l { self = record l.self { reported = st ∷ l.self.reported } }

-- a status report in either loop: report it, look for a fault, then `k`
unfoldable pub on_report : ℕ → (StatusReport → Locals → Flow) → Option StatusReport → Locals → Flow
unfolding status_fault
on_report now k none l = again l
on_report now k (some st) l =
    unless_fault (status_fault now l.self.lines_sent l.self.paused st l.self.watch) (k st)
      (report st l)

-- a banner: the echo of a cancel, or an unplanned reset
unfoldable pub on_banner : Message → Locals → Flow
on_banner m l = if l.self.cancelled then again l else finish (fault_result m) l

-- How a loop ends: the code after it goes on, or the function has ended.
pub data LoopEnd : Type 0 where
  goes_on : Locals → LoopEnd
  ended : Ending → LoopEnd

abbrev pub follow : (Locals → LoopEnd) → Flow → LoopEnd
follow k (again l) = k l
follow k (leave l) = goes_on l
follow k (stop e) = ended e
