-- ===== src/Streamer/Run.antt =====
-- The loops of `_stream_lines` and `run` of streamer.py.
use grbl_proxy.Prelude.{
  ℕ, ◌+◌, Bool, not, ◌&&◌, ◌||◌, Option, none, some, List, [], ◌∷◌, ◌++◌, length, ltb, leb, ◌==◌,
  if◌then◌else◌,
}
use grbl_proxy.Text.{Text, strip, is_empty, drop_while_end}
use grbl_proxy.Streamer.{Streamer, StreamerResult, code, Op, apply_ops, internal_error, soft_reset}
use grbl_proxy.Streamer.Loop.{
  Tick, Locals, Ending, returned, lost, aborted, waiting, cancelled_result, fault_result,
  completed_result, LoopEnd, goes_on, ended, follow,
}
use grbl_proxy.Streamer.Dwell.{max_dwell}
use grbl_proxy.Streamer.Send.{send_response}
use grbl_proxy.Streamer.Drain.{drain_response}
use grbl_proxy.Streamer.Reading.{iteration, maybe_poll, say}

abbrev pub has_room : ℕ → Locals → Bool
has_room n l = leb (l.buffer_used + n) l.self.limits.rx_size

-- while buffer_used + line_bytes > self._rx_buffer_size
unfoldable pub await_room : ℕ → ℕ → List Tick → Locals → LoopEnd
unfolding iteration send_response
await_room i n [] l = if has_room n l then goes_on l else ended (waiting l)
await_room i n (t ∷ ts) l =
    let wait = follow (await_room i n ts) (iteration (send_response i t.after) t l) in
    if has_room n l then goes_on l else wait

-- while line_lengths
unfoldable pub await_acks : List Tick → Locals → LoopEnd
unfolding iteration drain_response
await_acks [] l = if is_empty l.line_lengths then goes_on l else ended (waiting l)
await_acks (t ∷ ts) l =
    let wait = follow (await_acks ts) (iteration (drain_response t.after) t l) in
    if is_empty l.line_lengths then goes_on l else wait

-- How the write of a line ends. The bytes are written by a worker thread: when the task is cancelled
-- in the await, the thread may go on, and then the bytes are written all the same.
pub data Sent : Type 0 where
  sent : Sent
  failed : Sent
  interrupted : Bool → Sent

-- What the environment does while one line is sent: the calls of other tasks up to the check of
-- `_cancelled`, whether this task is cancelled there, the time of the poll, the iterations of the
-- drain, and the write with the calls of other tasks meanwhile.
pub record Turn : Type 0 where
  pub gate : List Op
  pub gate_cancelled : Bool
  pub opened : ℕ
  pub ticks : List Tick
  pub write_ops : List Op
  pub write : Sent

unfoldable pub utf8_size : ℕ → ℕ
utf8_size c = if ltb c 0x80 then 1 else if ltb c 0x800 then 2 else if ltb c 0x10000 then 3 else 4

-- len(line.encode())
unfoldable pub encoded_length : Text → ℕ
unfolding utf8_size
encoded_length [] = 0
encoded_length (c ∷ s) = utf8_size c + encoded_length s

unfoldable pub line_bytes : Text → ℕ
unfolding encoded_length
line_bytes x = encoded_length x + 1

abbrev pub after_write : Sent → Text → Locals → LoopEnd
after_write sent x l = goes_on (record l {
  self = say (code x) (record l.self { lines_sent = l.self.lines_sent + 1 });
  buffer_used = l.buffer_used + line_bytes x;
  line_lengths = l.line_lengths ++ line_bytes x ∷ [];
})
after_write failed x l = ended (lost l)
after_write (interrupted late) x l =
    ended (aborted (if late then record l { self = say (code x) l.self } else l))

-- the write of a line, once there is room
unfoldable pub write_line : Text → Turn → Locals → LoopEnd
unfolding apply_ops line_bytes
write_line x t l = after_write t.write x (record l { self = apply_ops t.write_ops l.self })

abbrev pub then_do : (Locals → LoopEnd) → LoopEnd → LoopEnd
then_do k (goes_on l) = k l
then_do k (ended e) = ended e

-- past the gate: poll, check for a cancel, wait for room, write
unfoldable pub send_line : ℕ → Text → Turn → Locals → LoopEnd
unfolding maybe_poll cancelled_result await_room write_line
send_line i x t l =
    let l' = record l { self = maybe_poll t.opened l.self } in
    if l'.self.cancelled
    then ended (returned (cancelled_result l'.self) l')
    else then_do (write_line x t)
        (await_room i (line_bytes x) t.ticks (record l' { idle_polls = 0 }))

-- the body of the loop over the lines: it waits while the run is paused
unfoldable pub send_turn : ℕ → Text → Turn → Locals → LoopEnd
unfolding apply_ops send_line
send_turn i x t l =
    let l' = record l { self = apply_ops t.gate l.self } in
    if t.gate_cancelled
    then ended (aborted l')
    else if l'.self.paused
    then ended (waiting l')
    else send_line i x t l'

unfoldable pub send_all : ℕ → List Text → List Turn → Locals → LoopEnd
unfolding send_turn
send_all i [] turns l = goes_on l
send_all i (x ∷ xs) [] l = ended (waiting l)
send_all i (x ∷ xs) (t ∷ ts) l = then_do (send_all (i + 1) xs ts) (send_turn i x t l)

abbrev pub ending_of : LoopEnd → Ending
ending_of (goes_on l) = returned (completed_result l.self) l
ending_of (ended e) = e

-- the locals at the top of _stream_lines
abbrev pub start : ℕ → ℕ → Streamer → Locals
start now dwell s = record {
  self = record s { watch = record s.watch { max_dwell = dwell; last_progress = now } };
  buffer_used = 0;
  line_lengths = [];
  pending = [];
  idle_polls = 0;
}

-- _stream_lines, once the longest dwell is known
unfoldable pub stream_from : List Text → List Turn → List Tick → Locals → Ending
unfolding send_all await_acks completed_result
stream_from lines turns tail l =
    ending_of
      (then_do (λ l'. await_acks tail (record l' { idle_polls = 0 })) (send_all 0 lines turns l))

-- How loading the file ends.
pub data Load : Type 0 where
  loaded : List Text → Load
  load_failed : Load
  load_cancelled : Load

-- What the environment does during a run.
pub record Env : Type 0 where
  pub load : Load
  pub started : ℕ
  pub turns : List Turn
  pub tail : List Tick
  pub failsafe : Sent

abbrev pub is_newline : ℕ → Bool
is_newline c = c == 13 || c == 10

-- _load_lines, from the lines of the file
unfoldable pub load_lines : List Text → List Text
unfolding strip drop_while_end
load_lines [] = []
load_lines (x ∷ xs) =
    if is_empty (strip x) then load_lines xs else drop_while_end is_newline x ∷ load_lines xs

-- How a run ends: `on_done` is called with a result, or it goes on.
pub data RunEnd : Type 0 where
  done : StreamerResult → Streamer → RunEnd
  running : Streamer → RunEnd

unfoldable pub is_fault : StreamerResult → Bool
is_fault r = not r.completed && not r.cancelled

abbrev pub failsafe_by : Sent → StreamerResult → Streamer → RunEnd
failsafe_by sent r s = done r (say soft_reset s)
failsafe_by failed r s = done r s
failsafe_by (interrupted late) r s =
    done (cancelled_result s) (if late then say soft_reset s else s)

-- `_failsafe_stop` for a fault, then `on_done`
unfoldable pub conclude : Sent → StreamerResult → Streamer → RunEnd
unfolding is_fault cancelled_result
conclude failsafe r s = if is_fault r then failsafe_by failsafe r s else done r s

unfoldable pub on_ending : Sent → Ending → RunEnd
unfolding conclude cancelled_result
on_ending failsafe (returned r l) = conclude failsafe r l.self
on_ending failsafe (lost l) = done (cancelled_result l.self) l.self
on_ending failsafe (aborted l) = done (cancelled_result l.self) l.self
on_ending failsafe (waiting l) = running l.self

abbrev pub stream_dwell : Env → List Text → Option ℕ → Streamer → RunEnd
stream_dwell env lines none s = conclude env.failsafe (fault_result internal_error s) s
stream_dwell env lines (some dwell) s =
    on_ending env.failsafe (stream_from lines env.turns env.tail (start env.started dwell s))

abbrev pub run_loaded : Env → Load → Streamer → RunEnd
run_loaded env (loaded file) s =
    let lines = load_lines file in
    stream_dwell env lines (max_dwell lines) (record s { total_lines = length lines })
run_loaded env load_failed s = conclude env.failsafe (fault_result internal_error s) s
run_loaded env load_cancelled s = done (cancelled_result s) s

-- run()
unfoldable pub run : Env → Streamer → RunEnd
unfolding load_lines max_dwell stream_from on_ending conclude fault_result cancelled_result
run env s = run_loaded env env.load s
