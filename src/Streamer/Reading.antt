-- ===== src/Streamer/Reading.antt =====
-- Polling and reading in streamer.py, and one iteration of a drain loop.
use grbl_proxy.Prelude.{ℕ, ◌+◌, List, [], ◌∷◌, ◌++◌, ltb, if◌then◌else◌}
use grbl_proxy.Text.{Text, is_empty}
use grbl_proxy.Protocol.Split.{split_responses}
use grbl_proxy.Streamer.{Streamer, Write, query, apply_ops}
use grbl_proxy.Streamer.Supervision.{stall_fault, current_poll_interval}
use grbl_proxy.Streamer.Loop.{
  Read, line, timeout, disconnected, task_cancelled, Tick, Locals, lost, aborted, Flow, again, stop,
  cancelled_result, fault_result, finish, unless_fault,
}

abbrev pub say : Write → Streamer → Streamer
say w s = record s { written = s.written ++ w ∷ [] }

-- _maybe_poll: a write that fails is skipped
unfoldable pub maybe_poll : ℕ → Streamer → Streamer
unfolding current_poll_interval
maybe_poll now s =
    if ltb now (s.last_poll + current_poll_interval s.limits s.watch)
    then s
    else say query (record s { last_poll = now })

unfoldable pub poll_all : List ℕ → Streamer → Streamer
unfolding maybe_poll
poll_all [] s = s
poll_all (now ∷ times) s = poll_all times (maybe_poll now s)

-- the head of the queue; "" if there is none
unfoldable pub take_pending : (Text → Locals → Flow) → List Text → Locals → Flow
take_pending handle [] l = again l
take_pending handle (r ∷ rest) l =
    if is_empty r
    then again (record l { pending = rest })
    else handle r (record l { pending = rest })

unfoldable pub after_read : (Text → Locals → Flow) → Read → Locals → Flow
unfolding take_pending split_responses
after_read handle (line text) l = take_pending handle (split_responses text) l
after_read handle timeout l = again l
after_read handle disconnected l = stop (lost l)
after_read handle task_cancelled l = stop (aborted l)

-- _next_response, with the calls that other tasks make meanwhile, and then the handler
unfoldable pub next_response : (Text → Locals → Flow) → Tick → List Text → Locals → Flow
unfolding poll_all apply_ops after_read take_pending
next_response handle t [] l =
    after_read handle t.read (record l { self = apply_ops t.ops (poll_all t.polls l.self) })
next_response handle t (r ∷ rest) l =
    take_pending handle (r ∷ rest) (record l { self = apply_ops t.ops l.self })

abbrev pub poll_and_read : (Text → Locals → Flow) → Tick → Locals → Flow
poll_and_read handle t l =
    next_response handle t l.pending (record l { self = maybe_poll t.before l.self })

-- One iteration of either loop.
unfoldable pub iteration : (Text → Locals → Flow) → Tick → Locals → Flow
unfolding stall_fault maybe_poll next_response cancelled_result fault_result
iteration handle t l =
    if l.self.cancelled
    then finish cancelled_result l
    else unless_fault
        (stall_fault t.before l.self.lines_sent l.self.paused l.self.limits l.self.watch)
        (poll_and_read handle t) l
