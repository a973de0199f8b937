-- ===== src/Streamer/Prompt/Room.antt =====
-- The wait for room of streamer.py, with a controller that answers in time.
use grbl_proxy.Prelude.{
  some_injective, ℕ, ◌+◌, ◌-◌, ◌≡◌, refl, sym, ap, subst, ◌∙◌, Bool, true, false, Option, none,
  some, List, [], ◌∷◌, leb, arith, if◌then◌else◌, Bool-cases, inl, inr,
}
use grbl_proxy.Text.Parts.{when_true, when_false}
use grbl_proxy.Streamer.{Limits}
use grbl_proxy.Streamer.Loop.{
  Tick, Locals, again, LoopEnd, goes_on, ended, follow, with_watch, acked,
}
use grbl_proxy.Streamer.Send.{send_response, send_ok, pop_sent}
use grbl_proxy.Streamer.Kinds.{send_kind}
use grbl_proxy.Streamer.Reading.{iteration}
use grbl_proxy.Streamer.Run.{await_room, has_room}
use grbl_proxy.Streamer.Prompt.{Window, popped, acknowledge, in_time, room_in_time}
use grbl_proxy.Streamer.Prompt.Answer.{Calm, Shows, polled, polled-Shows, iteration-ok}

-- The locals show the window, with the count of bytes.
pub record Fits (limits : Limits) (dwell : ℕ) (w : Window) (l : Locals) : Type 0 where
  pub shows : Shows limits dwell w l
  pub used : l.buffer_used ≡ w.used

-- The loop has gone on, with this window.
abbrev pub GoesOn : Limits → ℕ → Window → LoopEnd → Type 0
GoesOn limits dwell w (goes_on l) = Fits limits dwell w l
GoesOn limits dwell w (ended e) = ⊥

pop_sent-Fits :
    (limits : Limits) (dwell now : ℕ) (w : Window) (ls : List ℕ) (l : Locals)
    → Calm limits dwell now l.self
    → l.pending ≡ []
    → l.buffer_used ≡ w.used
    → l.line_lengths ≡ ls
    → Fits limits dwell (popped now w.used ls) (pop_sent ls l)
unfolding pop_sent
pop_sent-Fits limits dwell now w [] l c p u e = record {
  shows = record { calm = c; lengths = e; pending = p };
  used = u;
}
pop_sent-Fits limits dwell now w (n ∷ ls) l c p u e = record {
  shows = record { calm = c; lengths = refl; pending = p };
  used = ap (λ k. k - n) u;
}

-- The locals after an "ok", but for the lines in flight.
abbrev answered : Tick → Locals → Locals
answered t l =
    record (with_watch (record (acked t.after (polled t l).self.watch) { rx_drained_polls = 0 })
      (polled t l)) { idle_polls = 0 }

send_ok-Fits :
    (t : Tick) (limits : Limits) (dwell : ℕ) (w : Window) (l : Locals)
    → Fits limits dwell w l
    → Fits limits dwell (acknowledge t.after w) (pop_sent l.line_lengths (answered t l))
send_ok-Fits t limits dwell w l h =
    let c = (polled-Shows t limits dwell w l h.shows).calm in
    subst
      (λ ls. Fits limits dwell (popped t.after w.used ls) (pop_sent l.line_lengths (answered t l)))
      h.shows.lengths
      (pop_sent-Fits limits dwell t.after w l.line_lengths (answered t l)
        (record {
          limited = c.limited;
          paused = c.paused;
          cancelled = c.cancelled;
          hold = c.hold;
          dwelling = c.dwelling;
          progress = refl;
        })
        refl h.used refl)

-- What the tests of `room_in_time` decide when it ends with a window.
waits_in_time :
    (b c : Bool) (x w : Window) (later : Option Window)
    → b ≡ false
    → (if b then some x else if c then later else none) ≡ some w
    → (c ≡ true) × (later ≡ some w)
waits_in_time b true x w later e h = (refl, sym (when_false b _ _ e) ∙ h)
waits_in_time b false x w later e h = absurd (ground arith)

has_room-Fits :
    (n : ℕ) (limits : Limits) (dwell : ℕ) (w : Window) (l : Locals)
    → Fits limits dwell w l
    → has_room n l ≡ leb (w.used + n) limits.rx_size
has_room-Fits n limits dwell w l h = rw (h.used, h.shows.calm.limited) refl

iteration-GoesOn :
    (i : ℕ) (t : Tick) (limits : Limits) (dwell : ℕ) (w : Window) (l : Locals)
    → Fits limits dwell w l
    → in_time limits.rx_size (limits.stall + dwell) t w ≡ true
    → iteration (send_response i t.after) t l ≡ again (pop_sent l.line_lengths (answered t l))
unfolding send_response send_ok send_kind
iteration-GoesOn i t limits dwell w l h timely =
    iteration-ok (send_response i t.after) t limits dwell w l h.shows timely ∙ refl

with_room :
    (i n : ℕ) (ts : List Tick) (l : Locals) → has_room n l ≡ true → await_room i n ts l ≡ goes_on l
unfolding await_room
with_room i n [] l h = when_true (has_room n l) _ _ h
with_room i n (t ∷ ts) l h = when_true (has_room n l) _ _ h

room_at_once :
    (rx patience n : ℕ) (ts : List Tick) (w : Window)
    → leb (w.used + n) rx ≡ true
    → room_in_time rx patience n ts w ≡ some w
unfolding room_in_time
room_at_once rx patience n [] w h = when_true (leb (w.used + n) rx) _ _ h
room_at_once rx patience n (t ∷ ts) w h = when_true (leb (w.used + n) rx) _ _ h

opened-GoesOn :
    (i n : ℕ) (ts : List Tick) (limits : Limits) (dwell : ℕ) (w v : Window) (l : Locals)
    → Fits limits dwell w l
    → room_in_time limits.rx_size (limits.stall + dwell) n ts w ≡ some v
    → leb (w.used + n) limits.rx_size ≡ true
    → GoesOn limits dwell v (await_room i n ts l)
opened-GoesOn i n ts limits dwell w v l h e room =
    let same_window =
      some_injective w v
        (sym (room_at_once limits.rx_size (limits.stall + dwell) n ts w room) ∙ e) in
    subst (GoesOn limits dwell v)
      (sym (with_room i n ts l (has_room-Fits n limits dwell w l h ∙ room)))
      (subst (λ u. Fits limits dwell u l) same_window h)

-- The wait ends, with the window that `room_in_time` gives.
pub await_room-GoesOn :
    (i n : ℕ) (ts : List Tick) (limits : Limits) (dwell : ℕ) (w v : Window) (l : Locals)
    → Fits limits dwell w l
    → room_in_time limits.rx_size (limits.stall + dwell) n ts w ≡ some v
    → GoesOn limits dwell v (await_room i n ts l)
unfolding await_room room_in_time
await_room-GoesOn i n [] limits dwell w v l h e =
    elim (Bool-cases (leb (w.used + n) limits.rx_size)) [
      | inl room ↦ opened-GoesOn i n [] limits dwell w v l h e room
      | inr full ↦ absurd (ground arith)
    ]
await_room-GoesOn i n (t ∷ ts) limits dwell w v l h e =
    elim (Bool-cases (leb (w.used + n) limits.rx_size)) [
      | inl room ↦ opened-GoesOn i n (t ∷ ts) limits dwell w v l h e room
      | inr full ↦
          let (timely, later) =
            waits_in_time (leb (w.used + n) limits.rx_size)
              (in_time limits.rx_size (limits.stall + dwell) t w) w v
              (room_in_time limits.rx_size (limits.stall + dwell) n ts (acknowledge t.after w)) full
              e in
          let rest =
            await_room-GoesOn i n ts limits dwell (acknowledge t.after w) v
              (pop_sent l.line_lengths (answered t l)) (send_ok-Fits t limits dwell w l h) later in
          subst (GoesOn limits dwell v)
            (sym (
              when_false (has_room n l) _ _ (has_room-Fits n limits dwell w l h ∙ full)
              ∙ ap (follow (await_room i n ts)) (iteration-GoesOn i t limits dwell w l h timely)))
            rest
    ]
