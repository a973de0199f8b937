-- ===== src/Streamer/Silence.antt =====
-- A controller that falls silent while streamer.py waits for its answers.
use grbl_proxy.Prelude.{
  ℕ, ◌+◌, ◌≡◌, refl, sym, ◌∙◌, Bool, true, false, ◌||◌, Option, none, some, List, [], ◌∷◌, arith,
  if◌then◌else◌, is_some, leb,
}
use grbl_proxy.Text.{Text, is_empty}
use grbl_proxy.Streamer.{Streamer, Watch, Limits, Message, Op, apply_ops}
use grbl_proxy.Streamer.Supervision.{stall_fault, stall_by_hold, hold_stall, job_stall}
use grbl_proxy.Streamer.Loop.{
  Read, timeout, Tick, Locals, returned, lost, aborted, waiting, Flow, again, leave, stop, LoopEnd,
  goes_on, ended, follow, cancelled_result, with_watch, finish, unless_fault,
}
use grbl_proxy.Streamer.Send.{send_response}
use grbl_proxy.Streamer.Drain.{drain_response}
use grbl_proxy.Streamer.Reading.{
  maybe_poll, poll_all, poll_and_read, after_read, next_response, iteration,
}
use grbl_proxy.Streamer.Run.{has_room, await_room, await_acks}

-- When silence becomes a fault.
abbrev pub deadline : Limits → Watch → ℕ
deadline limits w =
    if is_some w.machine_hold
    then if w.hold_confirmed
      then w.last_status_time + limits.stall
      else w.hold_started + limits.hold_confirm
    else w.last_progress + (limits.stall + w.max_dwell)

-- An iteration in which nothing arrives and no other task calls.
pub record IsSilent (t : Tick) : Type 0 where
  pub no_ops : t.ops ≡ []
  pub no_line : t.read ≡ timeout

abbrev pub AllSilent : List Tick → Type 0
AllSilent [] = Unit
AllSilent (t ∷ ts) = IsSilent t × AllSilent ts

-- An iteration begins at the time `d` or later.
abbrev pub reaches : ℕ → List Tick → Bool
reaches d [] = false
reaches d (t ∷ ts) = leb d t.before || reaches d ts

-- A loop waits with nothing pending and the operator has not paused it.
pub record IsWaitingUntil (d : ℕ) (l : Locals) : Type 0 where
  pub nothing_pending : l.pending ≡ []
  pub not_paused : l.self.paused ≡ false
  pub until : deadline l.self.limits l.self.watch ≡ d

-- It has a result, or goes on to what comes after the loop.
abbrev pub is_over : LoopEnd → Bool
is_over (goes_on l) = true
is_over (ended (returned r l)) = true
is_over (ended (lost l)) = false
is_over (ended (aborted l)) = false
is_over (ended (waiting l)) = false

-- What an iteration at the time `now` does: it goes on waiting until `d`, before `d`, or is over.
abbrev WaitsUntil : ℕ → ℕ → Flow → Type 0
WaitsUntil d now (again l) = IsWaitingUntil d l × (leb d now ≡ false)
WaitsUntil d now (leave l) = Unit
WaitsUntil d now (stop e) = is_over (ended e) ≡ true

-- The object as the deadline sees it.
record IsSameClock (s t : Streamer) : Type 0 where
  limits : t.limits ≡ s.limits
  watch : t.watch ≡ s.watch
  paused : t.paused ≡ s.paused

maybe_poll-IsSameClock : (now : ℕ) (s : Streamer) → IsSameClock s (maybe_poll now s)
unfolding maybe_poll
maybe_poll-IsSameClock now s = ground arith

poll_all-IsSameClock : (times : List ℕ) (s : Streamer) → IsSameClock s (poll_all times s)
unfolding poll_all
poll_all-IsSameClock [] s = record { limits = refl; watch = refl; paused = refl }
poll_all-IsSameClock (now ∷ times) s =
    let first = maybe_poll-IsSameClock now s in
    let rest = poll_all-IsSameClock times (maybe_poll now s) in
    record {
      limits = rest.limits ∙ first.limits;
      watch = rest.watch ∙ first.watch;
      paused = rest.paused ∙ first.paused;
    }

-- What the watchdog answers to an unpaused run.
abbrev Watches : ℕ → ℕ → Limits → Watch × Option Message → Type 0
Watches d now limits (w, m) = (deadline limits w ≡ d) × (leb d now ≡ is_some m)

stall_by_hold-Watches :
    (now lines_sent : ℕ) (limits : Limits) (held : Option Text) (w : Watch)
    → w.machine_hold ≡ held
    → Watches (deadline limits w) now limits (stall_by_hold now lines_sent false limits held w)
unfolding stall_by_hold hold_stall job_stall
stall_by_hold-Watches now lines_sent limits none w h = ground arith
stall_by_hold-Watches now lines_sent limits (some reason) w h = ground arith

-- Polls beside a read that times out change nothing that the deadline sees.
read-WaitsUntil :
    (handle : Text → Locals → Flow) (t : Tick) (d : ℕ) (ps : List Text) (ops : List Op) (r : Read)
    (l : Locals)
    → ps ≡ []
    → ops ≡ []
    → r ≡ timeout
    → leb d t.before ≡ false
    → IsWaitingUntil d l
    → WaitsUntil d t.before (next_response handle (record t { ops = ops; read = r }) ps l)
unfolding next_response after_read apply_ops
read-WaitsUntil handle t d ps ops r l p o q early h =
    let same = poll_all-IsSameClock t.polls l.self in
    let s = poll_all t.polls l.self in
    let h' : IsWaitingUntil d (record l { self = s }) = record {
      nothing_pending = h.nothing_pending;
      not_paused = same.paused ∙ h.not_paused;
      until = rw (same.limits, same.watch) h.until;
    } in
    rw (p, o, q) (h', early)

after_fault-WaitsUntil :
    (handle : Text → Locals → Flow) (t : Tick) (d : ℕ) (f : Watch × Option Message) (l : Locals)
    → IsSilent t
    → l.pending ≡ []
    → l.self.paused ≡ false
    → Watches d t.before l.self.limits f
    → WaitsUntil d t.before (unless_fault f (poll_and_read handle t) l)
after_fault-WaitsUntil handle t d (w, some m) l q p np h = refl
after_fault-WaitsUntil handle t d (w, none) l q p np h =
    let l' = with_watch w l in
    let same = maybe_poll-IsSameClock t.before l'.self in
    let h' : IsWaitingUntil d (record l' { self = maybe_poll t.before l'.self }) = record {
      nothing_pending = p;
      not_paused = same.paused ∙ np;
      until = rw (same.limits, same.watch) h.0;
    } in
    read-WaitsUntil handle t d l.pending t.ops t.read
      (record l' { self = maybe_poll t.before l'.self }) p q.no_ops q.no_line h.1 h'

iteration-WaitsUntil :
    (handle : Text → Locals → Flow) (t : Tick) (d : ℕ) (l : Locals)
    → IsSilent t
    → IsWaitingUntil d l
    → WaitsUntil d t.before (iteration handle t l)
unfolding iteration stall_fault
iteration-WaitsUntil handle t d l q h =
    let fault =
      stall_by_hold t.before l.self.lines_sent l.self.paused l.self.limits l.self.watch.machine_hold
        l.self.watch in
    let watches : Watches d t.before l.self.limits fault =
      rw (h.not_paused, sym h.until)
        (stall_by_hold-Watches t.before l.self.lines_sent l.self.limits l.self.watch.machine_hold
          l.self.watch refl) in
    elim (l.self.cancelled)
      as (λ c.
        WaitsUntil d t.before (
          if c then finish cancelled_result l else unless_fault fault (poll_and_read handle t) l)) [
            | true ↦ refl
            | false ↦
                after_fault-WaitsUntil handle t d fault l q h.nothing_pending h.not_paused watches
          ]

-- A step of either loop, `k` being the rest of it.
follow_over :
    (k : Locals → LoopEnd) (d now : ℕ) (f : Flow)
    → WaitsUntil d now f
    → ((l : Locals) → IsWaitingUntil d l → leb d now ≡ false → is_over (k l) ≡ true)
    → is_over (follow k f) ≡ true
follow_over k d now (again l) h rest = rest l h.0 h.1
follow_over k d now (leave l) h rest = refl
follow_over k d now (stop e) h rest = h

await_room_over :
    (i n d : ℕ) (ts : List Tick) (l : Locals)
    → AllSilent ts
    → reaches d ts ≡ true
    → IsWaitingUntil d l
    → is_over (await_room i n ts l) ≡ true
unfolding await_room
await_room_over i n d [] l q r h = cc
await_room_over i n d (t ∷ ts) l (q, qs) r h =
    let wait : is_over (follow (await_room i n ts) (iteration (send_response i t.after) t l))
        ≡ true =
      follow_over (await_room i n ts) d t.before (iteration (send_response i t.after) t l)
        (iteration-WaitsUntil (send_response i t.after) t d l q h)
        (λ l' h' early. await_room_over i n d ts l' qs (ground arith) h') in
    elim (has_room n l)
      as (λ b.
        is_over (
          if b
          then goes_on l
          else follow (await_room i n ts) (iteration (send_response i t.after) t l))
        ≡ true) [ true ↦ refl | false ↦ wait ]

await_acks_over :
    (d : ℕ) (ts : List Tick) (l : Locals)
    → AllSilent ts
    → reaches d ts ≡ true
    → IsWaitingUntil d l
    → is_over (await_acks ts l) ≡ true
unfolding await_acks
await_acks_over d [] l q r h = cc
await_acks_over d (t ∷ ts) l (q, qs) r h =
    let wait : is_over (follow (await_acks ts) (iteration (drain_response t.after) t l)) ≡ true =
      follow_over (await_acks ts) d t.before (iteration (drain_response t.after) t l)
        (iteration-WaitsUntil (drain_response t.after) t d l q h)
        (λ l' h' early. await_acks_over d ts l' qs (ground arith) h') in
    elim (is_empty l.line_lengths)
      as (λ b.
        is_over
          (if b then goes_on l else follow (await_acks ts) (iteration (drain_response t.after) t l))
        ≡ true) [ true ↦ refl | false ↦ wait ]

-- Neither drain loop waits for ever on a controller that has fallen silent: if nothing is pending,
-- the operator has not paused the run, no line arrives and no other task calls, then by the first
-- iteration that begins at the deadline or later the loop has ended with a result or gone on.
pub silent_drain_is_over :
    (i n : ℕ) (ts : List Tick) (l : Locals)
    → AllSilent ts
    → l.pending ≡ []
    → l.self.paused ≡ false
    → reaches (deadline l.self.limits l.self.watch) ts ≡ true
    → (is_over (await_room i n ts l) ≡ true) × (is_over (await_acks ts l) ≡ true)
silent_drain_is_over i n ts l q p np r =
    let d = deadline l.self.limits l.self.watch in
    let h : IsWaitingUntil d l = record { nothing_pending = p; not_paused = np; until = refl } in
    (await_room_over i n d ts l q r h, await_acks_over d ts l q r h)
