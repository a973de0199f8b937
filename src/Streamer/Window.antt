-- ===== src/Streamer/Window.antt =====
-- The character count of streamer.py while it sends: `buffer_used` and `line_lengths` agree, and
-- what is in flight fits the controller's receive buffer.
use grbl_proxy.Prelude.{
  ℕ, suc, ◌+◌, ◌≤◌, ◌≡◌, refl, ap, ◌∙◌, ◌⊎◌, inl, inr, Bool, true, false, Option, none, some, List,
  [], ◌∷◌, arith, Bool-cases, if◌then◌else◌, length, sum, sum-snoc, max,
}
use grbl_proxy.Text.{Text, is_empty}
use grbl_proxy.Protocol.Report.{StatusReport, parse_status_report}
use grbl_proxy.Protocol.Split.{split_responses}
use grbl_proxy.Streamer.{code, Streamer, Watch, Message, apply_ops, reset_mid_stream}
use grbl_proxy.Streamer.Supervision.{status_fault, stall_fault, buffer_looks_phantom}
use grbl_proxy.Streamer.Loop.{
  Read, line, Tick, Locals, Ending, returned, lost, aborted, waiting, Flow, again, leave, stop,
  LoopEnd, goes_on, ended, follow, cancelled_result, with_watch, finish, unless_fault, on_report,
  on_banner, report,
}
use grbl_proxy.Streamer.Kinds.{Kind, ok, vendor_fault, status, greeting, send_kind}
use grbl_proxy.Streamer.Send.{
  emptied, pop_sent, send_ok, send_idle, send_idle_or_not, send_phantom, send_dispatch,
  send_response,
}
use grbl_proxy.Streamer.Reading.{
  say, maybe_poll, poll_all, poll_and_read, take_pending, after_read, next_response, iteration,
}
use grbl_proxy.Streamer.Frame.{
  Frame, apply_ops-Frame, maybe_poll-Frame, poll_all-Frame, Frame-trans,
}
use grbl_proxy.Streamer.Run.{
  has_room, await_room, Sent, sent, failed, interrupted, Turn, line_bytes, after_write, write_line,
  then_do, send_line, send_turn, send_all, start,
}

-- The bytes of the longest line, its newline included.
abbrev pub longest_line : List Text → ℕ
longest_line [] = 0
longest_line (x ∷ xs) = max (line_bytes x) (longest_line xs)

module _ (longest : ℕ) where
  -- The two halves of the count agree, and the window holds: what is in flight fits the buffer, or is
  -- one line, of `longest` bytes at most.
  pub record IsAccounted (l : Locals) : Type 0 where
    pub used : l.buffer_used ≡ sum l.line_lengths
    pub window :
        (l.buffer_used ≤ l.self.limits.rx_size)
        ⊎ ((length l.line_lengths ≤ 1) × (l.buffer_used ≤ longest))

  abbrev pub EndAccounted : Ending → Type 0
  EndAccounted (returned r l) = IsAccounted l
  EndAccounted (lost l) = IsAccounted l
  EndAccounted (aborted l) = IsAccounted l
  EndAccounted (waiting l) = IsAccounted l

  -- An iteration that leaves the loop has emptied the window.
  record IsEmptied (l : Locals) : Type 0 where
    no_bytes : l.buffer_used ≡ 0
    no_lines : l.line_lengths ≡ []

  abbrev FlowAccounted : Flow → Type 0
  FlowAccounted (again l) = IsAccounted l
  FlowAccounted (leave l) = IsEmptied l
  FlowAccounted (stop e) = EndAccounted e

  -- What happens to the object leaves the count alone.
  moved :
      {l : Locals} (s : Streamer)
      → IsAccounted l
      → Frame l.self s
      → IsAccounted (record l { self = s })
  moved s h f = ground arith

  unless_fault-Accounted :
      (f : Watch × Option Message) (k : Locals → Flow) (l : Locals)
      → IsAccounted l
      → ((l' : Locals) → IsAccounted l' → FlowAccounted (k l'))
      → FlowAccounted (unless_fault f k l)
  unless_fault-Accounted (w, some m) k l h keep = record { used = h.used; window = h.window }
  unless_fault-Accounted (w, none) k l h keep =
      keep (with_watch w l) (record { used = h.used; window = h.window })

  pop_sent-of_lengths :
      (ns : List ℕ) (l : Locals) → l.line_lengths ≡ ns → IsAccounted l → IsAccounted (pop_sent ns l)
  unfolding pop_sent
  pop_sent-of_lengths [] l e h = h
  pop_sent-of_lengths (n ∷ rest) l e h =
      let u : l.buffer_used ≡ n + sum rest = h.used ∙ ap sum e in
      let k : length l.line_lengths ≡ suc (length rest) = ap length e in
      record { used = omega (arith, u); window = omega (arith, u, k, h.window) }

  send_ok-Accounted : (now : ℕ) (l : Locals) → IsAccounted l → FlowAccounted (send_ok now l)
  unfolding send_ok
  send_ok-Accounted now l h =
      pop_sent-of_lengths l.line_lengths _ refl (record { used = h.used; window = h.window })

  send_idle-Accounted : (l : Locals) → IsAccounted l → FlowAccounted (send_idle l)
  unfolding send_idle
  send_idle-Accounted l h = ground arith

  send_idle_or_not-Accounted :
      (st : StatusReport) (l : Locals) → IsAccounted l → FlowAccounted (send_idle_or_not st l)
  unfolding send_idle_or_not
  send_idle_or_not-Accounted st l h = ground (arith, send_idle-Accounted l)

  send_phantom-Accounted :
      (st : StatusReport) (l : Locals) → IsAccounted l → FlowAccounted (send_phantom st l)
  unfolding send_phantom
  send_phantom-Accounted st l h =
      by_phantom (buffer_looks_phantom st l.buffer_used l.self.watch).0
        (buffer_looks_phantom st l.buffer_used l.self.watch).1
    where
      by_phantom :
          (w : Watch) (b : Bool)
          → FlowAccounted (
              if b
              then leave (emptied (with_watch (record w { rx_drained_polls = 0 }) l))
              else send_idle_or_not st (with_watch w l))
      by_phantom w true = record { no_bytes = refl; no_lines = refl }
      by_phantom w false =
          send_idle_or_not-Accounted st (with_watch w l)
            (record { used = h.used; window = h.window })

  on_report-Accounted :
      (now : ℕ) (o : Option StatusReport) (l : Locals)
      → IsAccounted l
      → FlowAccounted (on_report now send_phantom o l)
  unfolding on_report
  on_report-Accounted now none l h = h
  on_report-Accounted now (some st) l h =
      unless_fault-Accounted (status_fault now l.self.lines_sent l.self.paused st l.self.watch)
        (send_phantom st) (report st l) (record { used = h.used; window = h.window })
        (send_phantom-Accounted st)

  on_banner-Accounted : (m : Message) (l : Locals) → IsAccounted l → FlowAccounted (on_banner m l)
  unfolding on_banner
  on_banner-Accounted m l h = ground arith

  send_dispatch-Accounted :
      (k : Kind) (i now : ℕ) (r : Text) (l : Locals)
      → IsAccounted l
      → FlowAccounted (send_dispatch k i now r l)
  unfolding send_dispatch
  send_dispatch-Accounted ok i now r l h = send_ok-Accounted now l h
  send_dispatch-Accounted vendor_fault i now r l h = record { used = h.used; window = h.window }
  send_dispatch-Accounted status i now r l h = on_report-Accounted now (parse_status_report r) l h
  send_dispatch-Accounted greeting i now r l h =
      on_banner-Accounted (reset_mid_stream l.self.lines_sent) l h
  send_dispatch-Accounted _ i now r l h = h

  take_pending-Accounted :
      (i now : ℕ) (rs : List Text) (l : Locals)
      → IsAccounted l
      → FlowAccounted (take_pending (send_response i now) rs l)
  unfolding take_pending send_response
  take_pending-Accounted i now [] l h = h
  take_pending-Accounted i now (r ∷ rs) l h =
      let l' = record l { pending = rs } in
      elim (is_empty r)
        as (λ b. FlowAccounted (if b then again l' else send_dispatch (send_kind r) i now r l')) [
          | true ↦ record { used = h.used; window = h.window }
          | false ↦
              send_dispatch-Accounted (send_kind r) i now r l'
                (record { used = h.used; window = h.window })
        ]

  after_read-Accounted :
      (i now : ℕ) (rd : Read) (l : Locals)
      → IsAccounted l
      → FlowAccounted (after_read (send_response i now) rd l)
  unfolding after_read
  after_read-Accounted i now (line text) l h =
      take_pending-Accounted i now (split_responses text) l h
  after_read-Accounted i now _ l h = h

  next_response-Accounted :
      (i : ℕ) (t : Tick) (rs : List Text) (l : Locals)
      → IsAccounted l
      → FlowAccounted (next_response (send_response i t.after) t rs l)
  unfolding next_response
  next_response-Accounted i t [] l h =
      let polled = poll_all t.polls l.self in
      after_read-Accounted i t.after t.read (record l { self = apply_ops t.ops polled })
        (moved (apply_ops t.ops polled) h
          (Frame-trans (poll_all-Frame t.polls l.self) (apply_ops-Frame t.ops polled)))
  next_response-Accounted i t (r ∷ rs) l h =
      take_pending-Accounted i t.after (r ∷ rs) (record l { self = apply_ops t.ops l.self })
        (moved (apply_ops t.ops l.self) h (apply_ops-Frame t.ops l.self))

  iteration-Accounted :
      (i : ℕ) (t : Tick) (l : Locals)
      → IsAccounted l
      → FlowAccounted (iteration (send_response i t.after) t l)
  unfolding iteration
  iteration-Accounted i t l h =
      let f = stall_fault t.before l.self.lines_sent l.self.paused l.self.limits l.self.watch in
      let body = poll_and_read (send_response i t.after) t in
      elim l.self.cancelled
        as (λ b. FlowAccounted (if b then finish cancelled_result l else unless_fault f body l)) [
          | true ↦ h
          | false ↦ unless_fault-Accounted f body l h (λ l' h'.
              next_response-Accounted i t l'.pending
                (record l' { self = maybe_poll t.before l'.self })
                (moved (maybe_poll t.before l'.self) h' (maybe_poll-Frame t.before l'.self)))
        ]

  -- There is room for `n` bytes more, or the window is empty.
  abbrev RoomFor : ℕ → Locals → Type 0
  RoomFor n l = (has_room n l ≡ true) ⊎ IsEmptied l

  abbrev RoomAccounted : ℕ → LoopEnd → Type 0
  RoomAccounted n (goes_on l) = IsAccounted l × RoomFor n l
  RoomAccounted n (ended e) = EndAccounted e

  Emptied-Accounted : (l : Locals) → IsEmptied l → IsAccounted l
  Emptied-Accounted l e = ground arith

  follow-Accounted :
      (n : ℕ) (k : Locals → LoopEnd) (f : Flow)
      → ((l : Locals) → IsAccounted l → RoomAccounted n (k l))
      → FlowAccounted f
      → RoomAccounted n (follow k f)
  follow-Accounted n k (again l) keep h = keep l h
  follow-Accounted n k (leave l) keep h = (Emptied-Accounted l h, inr h)
  follow-Accounted n k (stop e) keep h = h

  await_room-Accounted :
      (i n : ℕ) (ts : List Tick) (l : Locals)
      → IsAccounted l
      → RoomAccounted n (await_room i n ts l)
  unfolding await_room
  await_room-Accounted i n [] l h = elim (Bool-cases (has_room n l)) [
    | inl r ↦ rw r (h, inl r)
    | inr r ↦ rw r h
  ]
  await_room-Accounted i n (t ∷ ts) l h = elim (Bool-cases (has_room n l)) [
    | inl r ↦ rw r (h, inl r)
    | inr r ↦ rw r (
        follow-Accounted n (await_room i n ts) (iteration (send_response i t.after) t l)
          (await_room-Accounted i n ts) (iteration-Accounted i t l h))
  ]

  abbrev pub LoopAccounted : LoopEnd → Type 0
  LoopAccounted (goes_on l) = IsAccounted l
  LoopAccounted (ended e) = EndAccounted e

  after_write-Accounted :
      (w : Sent) (x : Text) (l : Locals)
      → line_bytes x ≤ longest
      → IsAccounted l
      → RoomFor (line_bytes x) l
      → LoopAccounted (after_write w x l)
  after_write-Accounted sent x l fits h room = record {
    used = omega (arith, h.used, sum-snoc l.line_lengths (line_bytes x));
    window = elim room [
      | inl r ↦ inl (ground arith)
      | inr e ↦ inr (rw e.no_lines (omega arith), omega (arith, e.no_bytes))
    ];
  }
  after_write-Accounted failed x l fits h room = h
  after_write-Accounted (interrupted late) x l fits h room = cut late
    where
      cut : (b : Bool) → IsAccounted (if b then record l { self = say (code x) l.self } else l)
      cut true = record { used = h.used; window = h.window }
      cut false = h

  write_line-Accounted :
      (x : Text) (t : Turn) (l : Locals)
      → line_bytes x ≤ longest
      → IsAccounted l
      → RoomFor (line_bytes x) l
      → LoopAccounted (write_line x t l)
  unfolding write_line
  write_line-Accounted x t l fits h room =
      let s' = apply_ops t.write_ops l.self in
      let f = apply_ops-Frame t.write_ops l.self in
      after_write-Accounted t.write x (record l { self = s' }) fits (moved s' h f)
        (elim room [
          | inl r ↦ inl (rw f.limits r)
          | inr e ↦ inr (record { no_bytes = e.no_bytes; no_lines = e.no_lines })
        ])

  then_write-Accounted :
      (x : Text) (t : Turn) (e : LoopEnd)
      → line_bytes x ≤ longest
      → RoomAccounted (line_bytes x) e
      → LoopAccounted (then_do (write_line x t) e)
  then_write-Accounted x t (goes_on l) fits h = write_line-Accounted x t l fits h.0 h.1
  then_write-Accounted x t (ended e) fits h = h

  send_line-Accounted :
      (i : ℕ) (x : Text) (t : Turn) (l : Locals)
      → line_bytes x ≤ longest
      → IsAccounted l
      → LoopAccounted (send_line i x t l)
  unfolding send_line
  send_line-Accounted i x t l fits h =
      let s' = maybe_poll t.opened l.self in
      let l' = record l { self = s' } in
      let l'' = record l' { idle_polls = 0 } in
      let h' : IsAccounted l' = moved s' h (maybe_poll-Frame t.opened l.self) in
      let room = await_room i (line_bytes x) t.ticks l'' in
      elim s'.cancelled
        as (λ b. LoopAccounted (
          if b then ended (returned (cancelled_result s') l') else then_do (write_line x t) room)) [
            | true ↦ h'
            | false ↦ then_write-Accounted x t room fits (
                await_room-Accounted i (line_bytes x) t.ticks l''
                  (record { used = h'.used; window = h'.window }))
          ]

  send_turn-Accounted :
      (i : ℕ) (x : Text) (t : Turn) (l : Locals)
      → line_bytes x ≤ longest
      → IsAccounted l
      → LoopAccounted (send_turn i x t l)
  unfolding send_turn
  send_turn-Accounted i x t l fits h =
      let s' = apply_ops t.gate l.self in
      let l' = record l { self = s' } in
      let h' : IsAccounted l' = moved s' h (apply_ops-Frame t.gate l.self) in
      let go = send_line i x t l' in
      let past = if s'.paused then ended (waiting l') else go in
      elim t.gate_cancelled as (λ b. LoopAccounted (if b then ended (aborted l') else past)) [
        | true ↦ h'
        | false ↦ elim s'.paused as (λ b. LoopAccounted (if b then ended (waiting l') else go)) [
          | true ↦ h'
          | false ↦ send_line-Accounted i x t l' fits h'
        ]
      ]

  then_send-Accounted :
      (k : Locals → LoopEnd) (e : LoopEnd)
      → ((l : Locals) → IsAccounted l → LoopAccounted (k l))
      → LoopAccounted e
      → LoopAccounted (then_do k e)
  then_send-Accounted k (goes_on l) keep h = keep l h
  then_send-Accounted k (ended e) keep h = h

  send_all-Accounted :
      (i : ℕ) (xs : List Text) (ts : List Turn) (l : Locals)
      → longest_line xs ≤ longest
      → IsAccounted l
      → LoopAccounted (send_all i xs ts l)
  unfolding send_all
  send_all-Accounted i [] ts l fits h = h
  send_all-Accounted i (x ∷ xs) [] l fits h = h
  send_all-Accounted i (x ∷ xs) (t ∷ ts) l fits h =
      then_send-Accounted (send_all (i + 1) xs ts) (send_turn i x t l)
        (λ l' h'. send_all-Accounted (i + 1) xs ts l' (omega (arith, fits)) h')
        (send_turn-Accounted i x t l (omega (arith, fits)) h)

-- However the controller answers and whatever the operator does, while a job is sent the bytes
-- counted as in flight are those of the lines counted as in flight, and they fit the receive buffer,
-- or are those of a single line; where the loop waits, goes on or has ended.
pub send_keeps_window :
    (now dwell : ℕ) (xs : List Text) (ts : List Turn) (s : Streamer)
    → LoopAccounted (longest_line xs) (send_all 0 xs ts (start now dwell s))
send_keeps_window now dwell xs ts s =
    send_all-Accounted (longest_line xs) 0 xs ts (start now dwell s) (omega arith)
      (record { used = refl; window = inl (omega arith) })

abbrev pub locals_of_ending : Ending → Locals
locals_of_ending (returned r l) = l
locals_of_ending (lost l) = l
locals_of_ending (aborted l) = l
locals_of_ending (waiting l) = l

abbrev pub locals_of : LoopEnd → Locals
locals_of (goes_on l) = l
locals_of (ended e) = locals_of_ending e

accounted_locals : (m : ℕ) (e : LoopEnd) → LoopAccounted m e → IsAccounted m (locals_of e)
accounted_locals m (goes_on l) h = h
accounted_locals m (ended (returned r l)) h = h
accounted_locals m (ended (lost l)) h = h
accounted_locals m (ended (aborted l)) h = h
accounted_locals m (ended (waiting l)) h = h
