-- ===== src/Streamer/Supervision/Safety.antt =====
-- What the supervision of streamer.py guarantees of the laser, of holds and of stalls.
use grbl_proxy.Prelude.{
  ℕ, ◌+◌, ◌≤◌, ◌≡◌, refl, ◌↔◌, ◌⊎◌, Bool, true, false, Option, none, some, arith, is_some, ◌∙◌,
}
use grbl_proxy.Text.{Text, codes, same}
use grbl_proxy.Text.Laws.{eq_of_same}
use grbl_proxy.Protocol.Report.{StatusReport}
use grbl_proxy.Streamer.{Watch, Limits, alarm_state, laser_on_in_hold}
use grbl_proxy.Streamer.Supervision.{
  is_held, is_alarm_state, has_left_hold, laser_power, has_moved, track, notice_hold, check_if_held,
  machine_hold_check, status_fault, stall_fault, laser_on_check, stall_by_hold, hold_stall,
  job_stall,
}

-- A held state has not left the hold.
pub has_left_hold_of_held : (state : Text) → is_held state ≡ true → has_left_hold state ≡ false
unfolding is_held has_left_hold same
has_left_hold_of_held state h = ground (
  arith,
  eq_of_same state (codes "Hold:0"),
  eq_of_same state (codes "Door:0"),
  eq_of_same state (codes "Door:1"),
  eq_of_same state (codes "Hold"),
  eq_of_same state (codes "Door"),
)

check-confirmed :
    (now : ℕ) (status : StatusReport) (moved : Bool) (held : Option Text) (w : Watch)
    → w.hold_confirmed ≡ false
    → (check_if_held now status moved held w).0.hold_confirmed ≡ true
    → (is_held status.state ≡ true) × (moved ≡ false) × (laser_power status ≡ some false)
unfolding check_if_held
check-confirmed now status moved none w old new = cc
check-confirmed now status moved (some reason) w old new = ground arith

notice-confirmed :
    (now : ℕ) (paused : Bool) (state : Text) (w : Watch)
    → w.hold_confirmed ≡ false
    → (notice_hold now paused state w).hold_confirmed ≡ false
unfolding notice_hold
notice-confirmed now paused state w old = ground arith

track-confirmed :
    (now : ℕ) (status : StatusReport) (w : Watch)
    → (track now status w).hold_confirmed ≡ w.hold_confirmed
unfolding track
track-confirmed now status w = ground arith

track-machine_hold :
    (now : ℕ) (status : StatusReport) (w : Watch)
    → (track now status w).machine_hold ≡ w.machine_hold
unfolding track
track-machine_hold now status w = ground arith

track-laser_on_polls :
    (now : ℕ) (status : StatusReport) (w : Watch)
    → (track now status w).laser_on_polls ≡ w.laser_on_polls
unfolding track
track-laser_on_polls now status w = ground arith

notice_in_hold :
    (now : ℕ) (paused : Bool) (state : Text) (w : Watch)
    → is_some w.machine_hold ≡ true
    → notice_hold now paused state w ≡ w
unfolding notice_hold
notice_in_hold now paused state w h = rw h

-- An unconfirmed hold is confirmed as safe only by a report of a held state, with no motion since
-- the last position, that shows the laser power off.
pub confirmed_needs_laser_off :
    (now lines_sent : ℕ) (paused : Bool) (status : StatusReport) (w : Watch)
    → w.hold_confirmed ≡ false
    → (status_fault now lines_sent paused status w).0.hold_confirmed ≡ true
    → (is_held status.state ≡ true)
      × (has_moved status w ≡ false)
      × (laser_power status ≡ some false)
unfolding status_fault
confirmed_needs_laser_off now lines_sent paused status w old new =
    let w' = track now status w in
    let w'' = notice_hold now paused status.state w' in
    ground (
      arith,
      track-confirmed now status w,
      notice-confirmed now paused status.state w',
      check-confirmed now status (has_moved status w) w''.machine_hold w'',
    )

-- A report in an Alarm state is a fault, whatever the supervision is doing.
pub alarm_is_fault :
    (now lines_sent : ℕ) (paused : Bool) (status : StatusReport) (w : Watch)
    → is_alarm_state status.state ≡ true
    → (status_fault now lines_sent paused status w).1 ≡ some (alarm_state lines_sent)
unfolding status_fault
alarm_is_fault now lines_sent paused status w h = rw h

-- A report that the machine is held and stationary with its laser on.
pub record IsLaserOnHeld (status : StatusReport) (w : Watch) : Type 0 where
  pub held : is_held status.state ≡ true
  pub not_alarm : is_alarm_state status.state ≡ false
  pub stationary : has_moved status w ≡ false
  pub laser_on : laser_power status ≡ some true

check_laser_on :
    (now : ℕ) (status : StatusReport) (reason : Text) (w : Watch)
    → is_held status.state ≡ true
    → laser_power status ≡ some true
    → check_if_held now status false (some reason) w ≡ laser_on_check status.state reason w
unfolding check_if_held machine_hold_check
check_laser_on now status reason w held on = ground (arith, has_left_hold_of_held status.state)

laser_on_step :
    (now lines_sent : ℕ) (paused : Bool) (status : StatusReport) (reason : Text) (w : Watch)
    → w.machine_hold ≡ some reason
    → IsLaserOnHeld status w
    → status_fault now lines_sent paused status w
      ≡ laser_on_check status.state reason (track now status w)
unfolding status_fault
laser_on_step now lines_sent paused status reason w h on =
    let w' = track now status w in
    ground (
      arith,
      track-machine_hold now status w,
      notice_in_hold now paused status.state w',
      check_laser_on now status reason w',
    )

laser_on_counts :
    (state reason : Text) (w : Watch)
    → ((laser_on_check state reason w).0.machine_hold ≡ w.machine_hold)
      × ((laser_on_check state reason w).0.laser_on_polls ≡ w.laser_on_polls + 1)
unfolding laser_on_check
laser_on_counts state reason w = ground arith

laser_on_twice :
    (state reason : Text) (w : Watch)
    → 1 ≤ w.laser_on_polls
    → (laser_on_check state reason w).1 ≡ some (laser_on_in_hold state reason)
unfolding laser_on_check
laser_on_twice state reason w h = ground arith

-- During a hold, a report that the machine is held and stationary with its laser on, followed by
-- another, makes the second one a fault, whenever they come and whether or not the operator has
-- paused.
pub second_laser_on_report :
    (now now' lines_sent lines_sent' : ℕ) (paused paused' : Bool) (status status' : StatusReport)
    (reason : Text) (w : Watch)
    → w.machine_hold ≡ some reason
    → IsLaserOnHeld status w
    → IsLaserOnHeld status' (status_fault now lines_sent paused status w).0
    → (status_fault now' lines_sent' paused' status'
        (status_fault now lines_sent paused status w).0).1
      ≡ some (laser_on_in_hold status'.state reason)
second_laser_on_report now now' lines_sent lines_sent' paused paused' status status' reason w h on
      on' =
    let w' = (status_fault now lines_sent paused status w).0 in
    let first = laser_on_step now lines_sent paused status reason w h on in
    let counts = laser_on_counts status.state reason (track now status w) in
    let held : w'.machine_hold ≡ some reason =
      rw first (counts.0 ∙ track-machine_hold now status w ∙ h) in
    let polls : 1 ≤ (track now' status' w').laser_on_polls =
      rw (track-laser_on_polls now' status' w') (rw first (omega (arith, counts))) in
    rw (laser_on_step now' lines_sent' paused' status' reason w' held on')
      (laser_on_twice status'.state reason (track now' status' w') polls)

-- When a run is stalled: a hold that is not proved safe in time, silence during a safe hold, or no
-- progress, beyond the longest dwell, while the operator has not paused it.
abbrev pub IsStalled : ℕ → Bool → Limits → Watch → Type 0
IsStalled now paused limits w =
    ((is_some w.machine_hold ≡ true)
      × (w.hold_confirmed ≡ false)
      × (w.hold_started + limits.hold_confirm ≤ now))
    ⊎ ((is_some w.machine_hold ≡ true)
        × (w.hold_confirmed ≡ true)
        × (w.last_status_time + limits.stall ≤ now))
    ⊎ ((is_some w.machine_hold ≡ false)
        × (paused ≡ false)
        × (w.last_progress + limits.stall + w.max_dwell ≤ now))

IsStalled-by_hold :
    (now lines_sent : ℕ) (paused : Bool) (limits : Limits) (held : Option Text) (w : Watch)
    → w.machine_hold ≡ held
    → (is_some (stall_by_hold now lines_sent paused limits held w).1 ≡ true)
      ↔ IsStalled now paused limits w
unfolding stall_by_hold hold_stall job_stall
IsStalled-by_hold now lines_sent paused limits none w h = (λ e. ground arith, λ s. ground arith)
IsStalled-by_hold now lines_sent paused limits (some reason) w h =
    (λ e. ground arith, λ s. ground arith)

-- The watchdog reports a fault exactly when the run is stalled.
pub stall_fault_iff :
    (now lines_sent : ℕ) (paused : Bool) (limits : Limits) (w : Watch)
    → (is_some (stall_fault now lines_sent paused limits w).1 ≡ true)
      ↔ IsStalled now paused limits w
unfolding stall_fault
stall_fault_iff now lines_sent paused limits w =
    IsStalled-by_hold now lines_sent paused limits w.machine_hold w refl
