-- ===== src/Streamer/Prompt/Calmly.antt =====
-- A line sent by streamer.py, with a controller that answers in time.
use grbl_proxy.Prelude.{
  ℕ, ◌+◌, ◌≡◌, refl, sym, ap, subst, ◌∙◌, true, false, some, [], ◌∷◌, ◌++◌, arith, if◌then◌else◌,
}
use grbl_proxy.Text.{Text, is_empty}
use grbl_proxy.Text.Parts.{when_false}
use grbl_proxy.Streamer.{Limits}
use grbl_proxy.Streamer.Loop.{Locals, LoopEnd, goes_on, ended, waiting}
use grbl_proxy.Streamer.Reading.{maybe_poll}
use grbl_proxy.Streamer.Run.{
  Sent, sent, Turn, line_bytes, after_write, await_room, write_line, then_do, send_line, send_turn,
}
use grbl_proxy.Streamer.Prompt.{Window, is_sent, is_calm, pushed, room_in_time}
use grbl_proxy.Streamer.Prompt.Answer.{maybe_poll-Calm, no_ops}
use grbl_proxy.Streamer.Prompt.Room.{Fits, GoesOn, await_room-GoesOn}

-- A turn in which nobody calls the streamer and the write succeeds.
pub record CalmTurn (t : Turn) : Type 0 where
  pub gate : is_empty t.gate ≡ true
  pub going : t.gate_cancelled ≡ false
  pub quiet : is_empty t.write_ops ≡ true
  pub written : t.write ≡ sent

sent_of : (s : Sent) → is_sent s ≡ true → s ≡ sent
sent_of sent h = refl
sent_of _ h = absurd (ground arith)

pub CalmTurn-of : (t : Turn) → is_calm t ≡ true → CalmTurn t
CalmTurn-of t h = record {
  gate = ground arith;
  going = ground arith;
  quiet = ground arith;
  written = sent_of t.write (ground arith);
}

write_line-GoesOn :
    (x : Text) (t : Turn) (limits : Limits) (dwell : ℕ) (w : Window) (l : Locals)
    → CalmTurn t
    → Fits limits dwell w l
    → GoesOn limits dwell (pushed (line_bytes x) w) (write_line x t l)
unfolding write_line
write_line-GoesOn x t limits dwell w l c h =
    subst (GoesOn limits dwell (pushed (line_bytes x) w))
      (sym (
        ap (λ s. after_write t.write x (record l { self = s })) (no_ops t.write_ops l.self c.quiet)
        ∙ ap (λ e. after_write e x l) c.written))
      (record {
        shows = record {
          calm = record {
            limited = h.shows.calm.limited;
            paused = h.shows.calm.paused;
            cancelled = h.shows.calm.cancelled;
            hold = h.shows.calm.hold;
            dwelling = h.shows.calm.dwelling;
            progress = h.shows.calm.progress;
          };
          lengths = ap (λ ls. ls ++ line_bytes x ∷ []) h.shows.lengths;
          pending = h.shows.pending;
        };
        used = ap (λ n. n + line_bytes x) h.used;
      })

pub then-GoesOn :
    (k : Locals → LoopEnd) (P : LoopEnd → Type 0) (limits : Limits) (dwell : ℕ) (w : Window)
    (e : LoopEnd)
    → GoesOn limits dwell w e
    → ((l : Locals) → Fits limits dwell w l → P (k l))
    → P (then_do k e)
then-GoesOn k P limits dwell w (goes_on l) h f = f l h
then-GoesOn k P limits dwell w (ended e) h f = absurd h

send_line-GoesOn :
    (i : ℕ) (x : Text) (t : Turn) (limits : Limits) (dwell : ℕ) (w v : Window) (l : Locals)
    → CalmTurn t
    → Fits limits dwell w l
    → room_in_time limits.rx_size (limits.stall + dwell) (line_bytes x) t.ticks w ≡ some v
    → GoesOn limits dwell (pushed (line_bytes x) v) (send_line i x t l)
unfolding send_line
send_line-GoesOn i x t limits dwell w v l c h room =
    let s = maybe_poll t.opened l.self in
    let calm = maybe_poll-Calm t.opened limits dwell w.last l.self h.shows.calm in
    let m = record l { self = s; idle_polls = 0 } in
    let waited =
      await_room-GoesOn i (line_bytes x) t.ticks limits dwell w v m
        (record {
          shows = record { calm = calm; lengths = h.shows.lengths; pending = h.shows.pending };
          used = h.used;
        })
        room in
    subst (GoesOn limits dwell (pushed (line_bytes x) v))
      (sym (when_false s.cancelled _ _ calm.cancelled))
      (then-GoesOn (write_line x t) (GoesOn limits dwell (pushed (line_bytes x) v)) limits dwell v
        (await_room i (line_bytes x) t.ticks m) waited
        (λ l' f. write_line-GoesOn x t limits dwell v l' c f))

pub send_turn-GoesOn :
    (i : ℕ) (x : Text) (t : Turn) (limits : Limits) (dwell : ℕ) (w v : Window) (l : Locals)
    → CalmTurn t
    → Fits limits dwell w l
    → room_in_time limits.rx_size (limits.stall + dwell) (line_bytes x) t.ticks w ≡ some v
    → GoesOn limits dwell (pushed (line_bytes x) v) (send_turn i x t l)
unfolding send_turn
send_turn-GoesOn i x t limits dwell w v l c h room =
    subst (GoesOn limits dwell (pushed (line_bytes x) v))
      (sym (
        when_false t.gate_cancelled _ _ c.going
        ∙ ap
            (λ s.
              if s.paused
              then ended (waiting (record l { self = s }))
              else send_line i x t (record l { self = s }))
            (no_ops t.gate l.self c.gate)
        ∙ when_false l.self.paused _ _ h.shows.calm.paused))
      (send_line-GoesOn i x t limits dwell w v l c h room)
