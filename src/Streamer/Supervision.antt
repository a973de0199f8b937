-- ===== src/Streamer/Supervision.antt =====
-- The supervision of streamer.py: faults in a status report, holds that the machine starts, the
-- stall watchdog, and the evidence of a lost ack.
pub mod Safety
use grbl_proxy.Prelude.{
  ℕ, zero, suc, ◌+◌, ◌-◌, Bool, true, false, not, ◌&&◌, ◌||◌, Option, none, some, List, [], ◌∷◌,
  ltb, leb, ◌==◌, if◌then◌else◌, or_else, is_some, ℤ, is_positive, max_int, gap, max, min,
}
use grbl_proxy.Text.{Text, codes, same, starts_with}
use grbl_proxy.Protocol.Report.{Coords, StatusReport, same_coords}
use grbl_proxy.Streamer.{
  Watch, Limits, Message, alarm_state, moving_in_hold, laser_on_in_hold, no_safe_hold,
  supervision_lost, stalled, idle_complete_polls, rx_drained_margin, laser_on_held_polls,
  hold_poll_interval,
}

unfoldable pub is_hold_like : Text → Bool
unfolding starts_with
is_hold_like state = starts_with (codes "Hold") state || starts_with (codes "Door") state

-- state in _HELD_STATES or state in _HOLD_LIKE
unfoldable pub is_held : Text → Bool
unfolding same
is_held state =
    same state (codes "Hold:0")
    || same state (codes "Door:0")
    || same state (codes "Door:1")
    || same state (codes "Hold")
    || same state (codes "Door")

unfoldable pub is_alarm_state : Text → Bool
unfolding starts_with
is_alarm_state state = starts_with (codes "Alarm") state

unfoldable pub is_idle_state : Text → Bool
unfolding same
is_idle_state state = same state (codes "Idle")

-- not state.startswith(_HOLD_LIKE) or state == "Door:3"
unfoldable pub has_left_hold : Text → Bool
unfolding is_hold_like same
has_left_hold state = not (is_hold_like state) || same state (codes "Door:3")

unfoldable pub any_accessory : Text → Bool
any_accessory [] = false
any_accessory (c ∷ s) = c == b'S' || c == b'C' || any_accessory s

abbrev accessories : Option Text → Bool
accessories none = false
accessories (some a) = any_accessory a

abbrev power_by_override : Bool → Option Text → Option Bool
power_by_override false a = none
power_by_override true a = some (accessories a)

abbrev power_of : Option (ℤ × ℤ) → Bool → Option Text → Option Bool
power_of (some (feed, spindle)) ov a = some (is_positive spindle)
power_of none ov a = power_by_override ov a

-- _laser_power
unfoldable pub laser_power : StatusReport → Option Bool
unfolding any_accessory
laser_power status = power_of status.fs (is_some status.ov) status.a

abbrev is_on : Option Bool → Bool
is_on none = false
is_on (some b) = b

abbrev is_off : Option Bool → Bool
is_off none = false
is_off (some b) = not b

abbrev changed : Option Coords → Option Coords → Bool
changed none last = false
changed (some p) none = true
changed (some p) (some q) = not (same_coords p q)

-- `mpos != self._last_mpos`, with the position that the report gives
unfoldable pub has_moved : StatusReport → Watch → Bool
unfolding same_coords
has_moved status w = changed (or_else status.mpos status.wpos) w.last_mpos

-- the first lines of _status_fault
unfoldable pub track : ℕ → StatusReport → Watch → Watch
track now status w =
    if has_moved status w
    then record w {
      last_status_time = now;
      last_mpos = or_else status.mpos status.wpos;
      last_progress = now;
    }
    else record w { last_status_time = now }

begin_hold : ℕ → Text → Bool → Option Text → Watch → Watch
begin_hold now reason from_status (some current) w = w
begin_hold now reason from_status none w = record w {
  machine_hold = some reason;
  hold_from_status = from_status;
  hold_started = now;
  hold_confirmed = false;
  laser_on_polls = 0;
}

-- _enter_machine_hold
unfoldable pub enter_machine_hold : ℕ → Text → Bool → Watch → Watch
unfolding begin_hold
enter_machine_hold now reason from_status w = begin_hold now reason from_status w.machine_hold w

-- the hold is over
unfoldable pub end_hold : ℕ → Watch → Watch
end_hold now w = record w {
  machine_hold = none;
  hold_confirmed = false;
  hold_from_status = false;
  resumed_from_hold = true;
  last_progress = now;
}

-- laser power on while held and stationary
unfoldable pub laser_on_check : Text → Text → Watch → Watch × Option Message
laser_on_check state reason w =
    let w' = record w { laser_on_polls = w.laser_on_polls + 1 } in
    if leb laser_on_held_polls w'.laser_on_polls
    then (w', some (laser_on_in_hold state reason))
    else (w', none)

-- the proof that the hold is safe
unfoldable pub confirm_check : Bool → Bool → Option Bool → Watch → Watch
confirm_check held moved laser w =
    let w' = record w { laser_on_polls = 0 } in
    if not w'.hold_confirmed && held && not moved && is_off laser
    then record w' { hold_confirmed = true }
    else w'

-- _machine_hold_check, with the reason of the hold
unfoldable pub machine_hold_check :
    ℕ → StatusReport → Text → Bool → Text → Watch → Watch × Option Message
unfolding end_hold laser_on_check confirm_check
machine_hold_check now status state moved reason w =
    let held = is_held state in
    let laser = laser_power status in
    if has_left_hold state && (w.hold_confirmed || w.hold_from_status)
    then (end_hold now w, none)
    else if held && moved && w.hold_confirmed
    then (w, some (moving_in_hold state reason w.last_mpos))
    else if held && not moved && is_on laser
    then laser_on_check state reason w
    else (confirm_check held moved laser w, none)

-- `if self._machine_hold is not None: return self._machine_hold_check(…)`
unfoldable pub check_if_held :
    ℕ → StatusReport → Bool → Option Text → Watch → Watch × Option Message
unfolding machine_hold_check
check_if_held now status moved none w = (w, none)
check_if_held now status moved (some reason) w =
    machine_hold_check now status status.state moved reason w

-- a hold in the report that the proxy did not ask for
unfoldable pub notice_hold : ℕ → Bool → Text → Watch → Watch
unfolding enter_machine_hold
notice_hold now paused state w =
    if not (is_some w.machine_hold)
      && is_hold_like state
      && not paused
      && leb w.resume_grace_until now
    then enter_machine_hold now state true w
    else w

-- _status_fault
unfoldable pub status_fault : ℕ → ℕ → Bool → StatusReport → Watch → Watch × Option Message
unfolding track notice_hold check_if_held
status_fault now lines_sent paused status w =
    let moved = has_moved status w in
    let w' = track now status w in
    if is_alarm_state status.state
    then (w', some (alarm_state lines_sent))
    else let w'' = notice_hold now paused status.state w' in
      check_if_held now status moved w''.machine_hold w''

-- the two branches of _stall_fault for a hold
unfoldable pub hold_stall : ℕ → ℕ → Limits → Text → Watch → Watch × Option Message
hold_stall now lines_sent limits reason w =
    if not w.hold_confirmed
    then if leb (w.hold_started + limits.hold_confirm) now
      then (w, some (no_safe_hold lines_sent reason))
      else (w, none)
    else if leb (w.last_status_time + limits.stall) now
    then (w, some (supervision_lost reason))
    else (record w { last_progress = now }, none)

unfoldable pub job_stall : ℕ → ℕ → Bool → Limits → Watch → Watch × Option Message
job_stall now lines_sent paused limits w =
    if paused
    then (record w { last_progress = now }, none)
    else if ltb now (w.last_progress + (limits.stall + w.max_dwell))
    then (w, none)
    else (w, some (stalled lines_sent w.last_mpos))

unfoldable pub stall_by_hold : ℕ → ℕ → Bool → Limits → Option Text → Watch → Watch × Option Message
stall_by_hold now lines_sent paused limits (some reason) w =
    hold_stall now lines_sent limits reason w
stall_by_hold now lines_sent paused limits none w = job_stall now lines_sent paused limits w

-- _stall_fault
unfoldable pub stall_fault : ℕ → ℕ → Bool → Limits → Watch → Watch × Option Message
unfolding stall_by_hold hold_stall job_stall
stall_fault now lines_sent paused limits w =
    stall_by_hold now lines_sent paused limits w.machine_hold w

phantom_by : Option (ℤ × ℤ) → ℕ → Watch → Watch × Bool
phantom_by none used w = (w, false)
phantom_by (some (blocks, rx_free)) used w =
    let capacity = max_int w.rx_capacity rx_free in
    let w' = record w { rx_capacity = capacity } in
    if capacity == 0 || used == 0
    then (record w' { rx_drained_polls = 0 }, false)
    else if ltb rx_drained_margin (gap capacity rx_free)
    then (record w' { rx_drained_polls = 0 }, false)
    else (
      record w' { rx_drained_polls = w.rx_drained_polls + 1 },
      leb idle_complete_polls (w.rx_drained_polls + 1),
    )

-- _buffer_looks_phantom
unfoldable pub buffer_looks_phantom : StatusReport → ℕ → Watch → Watch × Bool
unfolding phantom_by
buffer_looks_phantom status used w = phantom_by status.bf used w

-- _current_poll_interval
unfoldable pub current_poll_interval : Limits → Watch → ℕ
current_poll_interval limits w =
    if is_some w.machine_hold && not w.hold_confirmed
    then min limits.poll hold_poll_interval
    else limits.poll
