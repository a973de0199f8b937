-- ===== src/Streamer/Sending.antt =====
-- The loop over the lines in `_stream_lines` of streamer.py sends a prefix of the lines, in order.
use grbl_proxy.Prelude.{
  ℕ, zero, suc, ◌+◌, ◌≤◌, ◌≡◌, refl, sym, ap, ◌∙◌, Bool, true, false, List, [], ◌∷◌, ◌++◌, arith,
  if◌then◌else◌, append-nil, append_assoc, length, take,
}
use grbl_proxy.Text.{Text, is_empty}
use grbl_proxy.Streamer.{Streamer, code, apply_ops}
use grbl_proxy.Streamer.Loop.{
  Tick, Locals, Ending, returned, lost, aborted, waiting, Flow, again, leave, stop, LoopEnd,
  goes_on, ended, follow, cancelled_result,
}
use grbl_proxy.Streamer.Send.{send_response}
use grbl_proxy.Streamer.Drain.{drain_response}
use grbl_proxy.Streamer.Reading.{iteration, maybe_poll, say}
use grbl_proxy.Streamer.Frame.{
  code_lines, code_lines-append, resets, resets-append, Frame, Frame-refl, Frame-trans, IsStop,
  EndFrames, Frames, apply_ops-Frame, maybe_poll-Frame, cancelled_result-IsStop,
  send_response-Keeps, drain_response-Keeps, iteration-Frames,
}
use grbl_proxy.Streamer.Run.{
  has_room, await_room, await_acks, Sent, sent, failed, interrupted, Turn, line_bytes, after_write,
  write_line, then_do, send_line, send_turn, send_all,
}

abbrev pub LoopFrames : Streamer → LoopEnd → Type 0
LoopFrames s (goes_on l) = Frame s l.self
LoopFrames s (ended e) = EndFrames s e

EndFrames-trans : {s t : Streamer} (e : Ending) → Frame s t → EndFrames t e → EndFrames s e
EndFrames-trans (returned r l) a h = (Frame-trans a h.0, h.1)
EndFrames-trans (lost l) a h = Frame-trans a h
EndFrames-trans (aborted l) a h = Frame-trans a h
EndFrames-trans (waiting l) a h = Frame-trans a h

LoopFrames-trans : {s t : Streamer} (e : LoopEnd) → Frame s t → LoopFrames t e → LoopFrames s e
LoopFrames-trans (goes_on l) a h = Frame-trans a h
LoopFrames-trans (ended e) a h = EndFrames-trans e a h

follow-Frames :
    (s : Streamer) (k : Locals → LoopEnd) (f : Flow)
    → ((l : Locals) → LoopFrames l.self (k l))
    → Frames s f
    → LoopFrames s (follow k f)
follow-Frames s k (again l) h a = LoopFrames-trans (k l) a (h l)
follow-Frames s k (leave l) h a = a
follow-Frames s k (stop e) h a = a

LoopFrames-if :
    (s : Streamer) (b : Bool) (e f : LoopEnd)
    → LoopFrames s e
    → LoopFrames s f
    → LoopFrames s (if b then e else f)
LoopFrames-if s true e f he hf = he
LoopFrames-if s false e f he hf = hf

await_room-Frames :
    (i n : ℕ) (ts : List Tick) (l : Locals) → LoopFrames l.self (await_room i n ts l)
unfolding await_room
await_room-Frames i n [] l =
    LoopFrames-if l.self (has_room n l) _ _ (Frame-refl l.self) (Frame-refl l.self)
await_room-Frames i n (t ∷ ts) l = LoopFrames-if l.self (has_room n l) _ _ (Frame-refl l.self) (
    follow-Frames l.self (await_room i n ts) (iteration (send_response i t.after) t l)
      (await_room-Frames i n ts)
      (iteration-Frames (send_response i t.after) (send_response-Keeps i t.after) t l))

pub await_acks-Frames : (ts : List Tick) (l : Locals) → LoopFrames l.self (await_acks ts l)
unfolding await_acks
await_acks-Frames [] l =
    LoopFrames-if l.self (is_empty l.line_lengths) _ _ (Frame-refl l.self) (Frame-refl l.self)
await_acks-Frames (t ∷ ts) l =
    LoopFrames-if l.self (is_empty l.line_lengths) _ _ (Frame-refl l.self) (
      follow-Frames l.self (await_acks ts) (iteration (drain_response t.after) t l)
        (await_acks-Frames ts)
        (iteration-Frames (drain_response t.after) (drain_response-Keeps t.after) t l))

-- `t` has written the first `count` of `xs` after what `s` has written, and no reset; all but `late`
-- of them are counted.
pub record HasSentBut (late : ℕ) (xs : List Text) (count : ℕ) (s t : Streamer) : Type 0 where
  pub lines_sent : t.lines_sent + late ≡ s.lines_sent + count
  pub total_lines : t.total_lines ≡ s.total_lines
  pub lines : code_lines t.written ≡ code_lines s.written ++ take count xs
  pub within : count ≤ length xs
  pub no_reset : resets t.written ≡ resets s.written

-- All of them are counted.
abbrev pub HasSent : List Text → ℕ → Streamer → Streamer → Type 0
HasSent xs count s t = HasSentBut 0 xs count s t

-- The last of them may not be counted.
abbrev pub HasCut : List Text → Streamer → Streamer → Type 0
HasCut xs s t = (late : ℕ) × (late ≤ 1) × (n : ℕ) × HasSentBut late xs n s t

pub HasCut-of : (xs : List Text) (n : ℕ) (s t : Streamer) → HasSent xs n s t → HasCut xs s t
HasCut-of xs n s t h = (0, omega arith, n, h)

pub HasSent-zero : {s t : Streamer} (xs : List Text) → Frame s t → HasSent xs 0 s t
HasSent-zero {s} {t} xs f = record {
  lines_sent = omega (arith, f.lines_sent);
  total_lines = f.total_lines;
  lines = f.lines ∙ sym (append-nil (code_lines s.written));
  within = omega arith;
  no_reset = f.no_reset;
}

HasSent-suc :
    {late : ℕ} {s t u : Streamer} {x : Text} {xs : List Text} {n : ℕ}
    → HasSent (x ∷ []) 1 s t
    → HasSentBut late xs n t u
    → HasSentBut late (x ∷ xs) (suc n) s u
HasSent-suc {late} {s} {t} {u} {x} {xs} {n} a b = record {
  lines_sent = omega (arith, a.lines_sent, b.lines_sent);
  total_lines = b.total_lines ∙ a.total_lines;
  lines =
      b.lines
      ∙ ap (λ (ls : List Text). ls ++ take n xs) a.lines
      ∙ append_assoc (code_lines s.written) (x ∷ []) (take n xs);
  within = omega (arith, b.within);
  no_reset = b.no_reset ∙ a.no_reset;
}

-- Some prefix was sent.
abbrev pub EndSent : List Text → Streamer → Ending → Type 0
EndSent xs s (returned r l) = ((n : ℕ) × HasSent xs n s l.self) × IsStop r l.self
EndSent xs s (lost l) = (n : ℕ) × HasSent xs n s l.self
EndSent xs s (aborted l) = HasCut xs s l.self
EndSent xs s (waiting l) = (n : ℕ) × HasSent xs n s l.self

abbrev pub LoopSent : List Text → Streamer → LoopEnd → Type 0
LoopSent xs s (goes_on l) = HasSent xs (length xs) s l.self
LoopSent xs s (ended e) = EndSent xs s e

EndSent-of_frames : (xs : List Text) (s : Streamer) (e : Ending) → EndFrames s e → EndSent xs s e
EndSent-of_frames xs s (returned r l) h = ((0, HasSent-zero xs h.0), h.1)
EndSent-of_frames xs s (lost l) h = (0, HasSent-zero xs h)
EndSent-of_frames xs s (aborted l) h = HasCut-of xs 0 s l.self (HasSent-zero xs h)
EndSent-of_frames xs s (waiting l) h = (0, HasSent-zero xs h)

written-HasSent :
    (x : Text) (s : Streamer)
    → HasSent (x ∷ []) 1 s (say (code x) (record s { lines_sent = s.lines_sent + 1 }))
written-HasSent x s =
    ground (arith, code_lines-append s.written (code x ∷ []), resets-append s.written (code x ∷ []))

late-HasSent : (x : Text) (s : Streamer) → HasSentBut 1 (x ∷ []) 1 s (say (code x) s)
late-HasSent x s =
    ground (arith, code_lines-append s.written (code x ∷ []), resets-append s.written (code x ∷ []))

pub HasSent-of_Frame :
    {late : ℕ} {xs : List Text} {n : ℕ} {s t u : Streamer}
    → Frame s t
    → HasSentBut late xs n t u
    → HasSentBut late xs n s u
HasSent-of_Frame {late} {xs} {n} a b = record {
  lines_sent = omega (arith, a.lines_sent, b.lines_sent);
  total_lines = b.total_lines ∙ a.total_lines;
  lines = b.lines ∙ ap (λ (ls : List Text). ls ++ take n xs) a.lines;
  within = b.within;
  no_reset = b.no_reset ∙ a.no_reset;
}

write_line-Sent : (x : Text) (t : Turn) (l : Locals) → LoopSent (x ∷ []) l.self (write_line x t l)
unfolding write_line
write_line-Sent x t l = by_write t.write
  where
    by_write :
        (w : Sent)
        → LoopSent
            (x ∷ [])
            l.self
            (after_write w x (record l { self = apply_ops t.write_ops l.self }))
    by_write sent =
        HasSent-of_Frame (apply_ops-Frame t.write_ops l.self)
          (written-HasSent x (apply_ops t.write_ops l.self))
    by_write failed = (0, HasSent-zero (x ∷ []) (apply_ops-Frame t.write_ops l.self))
    by_write (interrupted late) = by_thread late
      where
        by_thread :
            (b : Bool)
            → HasCut
                (x ∷ [])
                l.self
                (if b
                  then record l { self = say (code x) (apply_ops t.write_ops l.self) }
                  else record l { self = apply_ops t.write_ops l.self }).self
        by_thread true = (
          1,
          omega arith,
          1,
          HasSent-of_Frame (apply_ops-Frame t.write_ops l.self)
              (late-HasSent x (apply_ops t.write_ops l.self)),
        )
        by_thread false =
            HasCut-of (x ∷ []) 0 l.self (apply_ops t.write_ops l.self)
              (HasSent-zero (x ∷ []) (apply_ops-Frame t.write_ops l.self))

LoopSent-of_Frame :
    {s t : Streamer} (xs : List Text) (e : LoopEnd) → Frame s t → LoopSent xs t e → LoopSent xs s e
LoopSent-of_Frame xs (goes_on l) a h = HasSent-of_Frame a h
LoopSent-of_Frame xs (ended (returned r l)) a h = ((h.0.0, HasSent-of_Frame a h.0.1), h.1)
LoopSent-of_Frame xs (ended (lost l)) a h = (h.0, HasSent-of_Frame a h.1)
LoopSent-of_Frame xs (ended (aborted l)) a h = (h.0, h.1, h.2, HasSent-of_Frame a h.3)
LoopSent-of_Frame xs (ended (waiting l)) a h = (h.0, HasSent-of_Frame a h.1)

then_write-Sent :
    (x : Text) (t : Turn) (s : Streamer) (e : LoopEnd)
    → LoopFrames s e
    → LoopSent (x ∷ []) s (then_do (write_line x t) e)
then_write-Sent x t s (goes_on l) h =
    LoopSent-of_Frame (x ∷ []) (write_line x t l) h (write_line-Sent x t l)
then_write-Sent x t s (ended e) h = EndSent-of_frames (x ∷ []) s e h

send_line-Sent :
    (i : ℕ) (x : Text) (t : Turn) (l : Locals) → LoopSent (x ∷ []) l.self (send_line i x t l)
unfolding send_line
send_line-Sent i x t l =
    let s' = maybe_poll t.opened l.self in
    let l' = record l { self = s' } in
    let polled = maybe_poll-Frame t.opened l.self in
    let go =
      then_do (write_line x t)
        (await_room i (line_bytes x) t.ticks (record l' { idle_polls = 0 })) in
    elim s'.cancelled
      as (λ b.
        LoopSent (x ∷ []) l.self (if b then ended (returned (cancelled_result s') l') else go)) [
          | true ↦ ((0, HasSent-zero (x ∷ []) polled), cancelled_result-IsStop s')
          | false ↦ LoopSent-of_Frame (x ∷ []) go polled (
              then_write-Sent x t s'
                (await_room i (line_bytes x) t.ticks (record l' { idle_polls = 0 }))
                (await_room-Frames i (line_bytes x) t.ticks (record l' { idle_polls = 0 })))
        ]

send_turn-Sent :
    (i : ℕ) (x : Text) (t : Turn) (l : Locals) → LoopSent (x ∷ []) l.self (send_turn i x t l)
unfolding send_turn
send_turn-Sent i x t l =
    let s' = apply_ops t.gate l.self in
    let l' = record l { self = s' } in
    let gated = apply_ops-Frame t.gate l.self in
    let go = send_line i x t l' in
    let past = if s'.paused then ended (waiting l') else go in
    elim t.gate_cancelled
      as (λ b. LoopSent (x ∷ []) l.self (if b then ended (aborted l') else past)) [
        | true ↦ HasCut-of (x ∷ []) 0 l.self s' (HasSent-zero (x ∷ []) gated)
        | false ↦
            elim s'.paused
              as (λ b. LoopSent (x ∷ []) l.self (if b then ended (waiting l') else go)) [
                | true ↦ (0, HasSent-zero (x ∷ []) gated)
                | false ↦ LoopSent-of_Frame (x ∷ []) go gated (send_line-Sent i x t l')
              ]
      ]

take_one : (x : Text) (xs : List Text) (n : ℕ) → n ≤ 1 → take n (x ∷ []) ≡ take n (x ∷ xs)
take_one x xs zero h = refl
take_one x xs (suc zero) h = refl
take_one x xs (suc (suc n)) h = absurd (omega arith)

widen :
    {late : ℕ} {x : Text} {n : ℕ} {s t : Streamer} (xs : List Text)
    → HasSentBut late (x ∷ []) n s t
    → HasSentBut late (x ∷ xs) n s t
widen {late} {x} {n} {s} xs h = record {
  lines_sent = h.lines_sent;
  total_lines = h.total_lines;
  lines = h.lines ∙ ap (λ (ls : List Text). code_lines s.written ++ ls) (take_one x xs n h.within);
  within = omega (arith, h.within);
  no_reset = h.no_reset;
}

-- One line more, in front of what the rest of the loop sends.
then_send-Sent :
    (x : Text) (xs : List Text) (s : Streamer) (k : Locals → LoopEnd) (e : LoopEnd)
    → ((l : Locals) → LoopSent xs l.self (k l))
    → LoopSent (x ∷ []) s e
    → LoopSent (x ∷ xs) s (then_do k e)
then_send-Sent x xs s k (goes_on l) h a = by_rest (k l) (h l)
  where
    by_rest : (e : LoopEnd) → LoopSent xs l.self e → LoopSent (x ∷ xs) s e
    by_rest (goes_on l') b = HasSent-suc a b
    by_rest (ended (returned r l')) b = ((suc b.0.0, HasSent-suc a b.0.1), b.1)
    by_rest (ended (lost l')) b = (suc b.0, HasSent-suc a b.1)
    by_rest (ended (aborted l')) b = (b.0, b.1, suc b.2, HasSent-suc a b.3)
    by_rest (ended (waiting l')) b = (suc b.0, HasSent-suc a b.1)
then_send-Sent x xs s k (ended (returned r l)) h a = ((a.0.0, widen xs a.0.1), a.1)
then_send-Sent x xs s k (ended (lost l)) h a = (a.0, widen xs a.1)
then_send-Sent x xs s k (ended (aborted l)) h a = (a.0, a.1, a.2, widen xs a.3)
then_send-Sent x xs s k (ended (waiting l)) h a = (a.0, widen xs a.1)

-- The loop over the lines sends a prefix of them in order, and all of them if it goes on.
pub send_all-Sent :
    (i : ℕ) (xs : List Text) (ts : List Turn) (l : Locals) → LoopSent xs l.self (send_all i xs ts l)
unfolding send_all
send_all-Sent i [] ts l = HasSent-zero [] (Frame-refl l.self)
send_all-Sent i (x ∷ xs) [] l = (0, HasSent-zero (x ∷ xs) (Frame-refl l.self))
send_all-Sent i (x ∷ xs) (t ∷ ts) l =
    then_send-Sent x xs l.self (send_all (i + 1) xs ts) (send_turn i x t l)
      (send_all-Sent (i + 1) xs ts) (send_turn-Sent i x t l)
