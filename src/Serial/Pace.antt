-- ===== src/Serial/Pace.antt =====
-- How often serial_conn.py opens the port, and that it connects again.
use grbl_proxy.Prelude.{ℕ, ◌+◌, arith, ◌≡◌, ◌≤◌, min, Bool, true, ◌&&◌, List, [], ◌∷◌, leb}
use grbl_proxy.Text.{Text}
use grbl_proxy.Serial.{
  Serial, boot_retry, close_immediately, note_io_failure, open_port, connect, late_open,
  signal_shutdown, disconnect,
}
use grbl_proxy.Serial.Reconnect.{
  Round, rescan_port, release_fd, attempt_open, may_open, await_port, tick, attempts, Event, ticked,
  wrote, io_failed, closed, opened_late, shut_down, disconnected, happen, happen_all,
  rescan_port-IsRescanned,
}

-- Nothing opens the port again before `gap` after `t`.
record IsPaced (gap t : ℕ) (s : Serial) : Type 0 where
  interval : gap ≤ s.reconnect_interval
  retry : gap ≤ boot_retry
  next : t + gap ≤ s.next_attempt

-- The clock has reached `t` when the event happens.
abbrev pub is_after : ℕ → Event → Bool
is_after t (ticked r) = leb t r.now
is_after t (io_failed now) = leb t now
is_after t _ = true

abbrev pub all_after : ℕ → List Event → Bool
all_after t [] = true
all_after t (e ∷ es) = is_after t e && all_after t es

release_fd-IsPaced :
    (gap t : ℕ) (r : Round) (s : Serial) → IsPaced gap t s → IsPaced gap t (release_fd r s)
unfolding release_fd close_immediately
release_fd-IsPaced gap t r s p = ground arith

rescan_port-IsPaced :
    (gap t : ℕ) (ports : List Text) (s : Serial)
    → IsPaced gap t s
    → IsPaced gap t (rescan_port ports s)
rescan_port-IsPaced gap t ports s p = ground (arith, rescan_port-IsRescanned ports s)

await_port-IsPaced :
    (gap t : ℕ) (r : Round) (s : Serial)
    → leb t r.now ≡ true
    → IsPaced gap t s
    → IsPaced gap t (await_port r s)
unfolding await_port attempt_open connect open_port
await_port-IsPaced gap t r s h p = ground arith

tick-IsPaced :
    (gap t : ℕ) (r : Round) (s : Serial)
    → leb t r.now ≡ true
    → IsPaced gap t s
    → IsPaced gap t (tick r s)
unfolding tick
tick-IsPaced gap t r s h p =
    let kept = release_fd-IsPaced gap t r s p in
    let moved = rescan_port-IsPaced gap t r.candidates (release_fd r s) kept in
    ground
      (arith, kept, await_port-IsPaced gap t r (rescan_port r.candidates (release_fd r s)) h moved)

happen-IsPaced :
    (gap t : ℕ) (e : Event) (s : Serial)
    → is_after t e ≡ true
    → IsPaced gap t s
    → IsPaced gap t (happen e s)
unfolding happen close_immediately late_open note_io_failure signal_shutdown disconnect
happen-IsPaced gap t (ticked r) s h p = tick-IsPaced gap t r s h p
happen-IsPaced gap t (wrote now) s h p = ground arith
happen-IsPaced gap t (io_failed now) s h p = ground arith
happen-IsPaced gap t closed s h p = ground arith
happen-IsPaced gap t (opened_late now) s h p = ground arith
happen-IsPaced gap t shut_down s h p = ground arith
happen-IsPaced gap t disconnected s h p = ground arith

happen_all-IsPaced :
    (gap t : ℕ) (es : List Event) (s : Serial)
    → all_after t es ≡ true
    → IsPaced gap t s
    → IsPaced gap t (happen_all es s)
unfolding happen_all
happen_all-IsPaced gap t [] s h p = p
happen_all-IsPaced gap t (e ∷ es) s h p =
    happen_all-IsPaced gap t es (happen e s) (ground arith)
      (happen-IsPaced gap t e s (ground arith) p)

release_fd-interval :
    (r : Round) (s : Serial) → (release_fd r s).reconnect_interval ≡ s.reconnect_interval
unfolding release_fd close_immediately
release_fd-interval r s = ground arith

attempt_open-IsPaced :
    (gap : ℕ) (r : Round) (s : Serial)
    → gap ≤ s.reconnect_interval
    → gap ≤ boot_retry
    → IsPaced gap r.now (attempt_open r s)
unfolding attempt_open connect open_port
attempt_open-IsPaced gap r s interval retry = ground arith

attempt_in_await :
    (gap : ℕ) (r : Round) (s : Serial)
    → r.exists s.port ≡ true
    → may_open r s ≡ true
    → IsPaced gap r.now (attempt_open r s)
    → IsPaced gap r.now (await_port r s)
unfolding await_port may_open
attempt_in_await gap r s there may p = ground arith

attempt-IsPaced :
    (gap : ℕ) (r : Round) (s : Serial)
    → gap ≤ s.reconnect_interval
    → gap ≤ boot_retry
    → attempts r s ≡ true
    → IsPaced gap r.now (tick r s)
unfolding attempts tick
attempt-IsPaced gap r s interval retry h =
    let moved = rescan_port r.candidates (release_fd r s) in
    let frame = rescan_port-IsRescanned r.candidates (release_fd r s) in
    ground (
      arith,
      release_fd-interval r s,
      frame,
      attempt_open-IsPaced gap r moved,
      attempt_in_await gap r moved,
    )

attempt_waits :
    (gap t : ℕ) (r : Round) (s : Serial) → attempts r s ≡ true → IsPaced gap t s → t + gap ≤ r.now
unfolding attempts may_open
attempt_waits gap t r s h p =
    let moved =
      rescan_port-IsPaced gap t r.candidates (release_fd r s) (release_fd-IsPaced gap t r s p) in
    ground (arith, moved)

-- However the device comes and goes, and however reads and writes fail in between, the port is not
-- hammered: if a round of the loop tries to open the port, and later, the clock not running
-- backwards, another round does, then between them lies at least the reconnect interval, or the
-- second of a fast retry while the controller boots, whichever is shorter.
pub attempts_are_spaced :
    (r r' : Round) (es : List Event) (s : Serial)
    → attempts r s ≡ true
    → all_after r.now es ≡ true
    → attempts r' (happen_all es (tick r s)) ≡ true
    → r.now + min s.reconnect_interval boot_retry ≤ r'.now
attempts_are_spaced r r' es s first after second =
    let gap = min s.reconnect_interval boot_retry in
    attempt_waits gap r.now r' (happen_all es (tick r s)) second (
      happen_all-IsPaced gap r.now es (tick r s) after
        (attempt-IsPaced gap r s (omega arith) (omega arith) first))
