-- ===== src/Examples/Supervising.antt =====
-- The supervision of streamer.py in a hold that the machine begins.
use grbl_proxy.Prelude.{◌≡◌, refl, ◌↔◌, true, false, none, some, ℤ, pos, is_some}
use grbl_proxy.Text.{codes}
use grbl_proxy.Protocol.Report.{StatusReport}
use grbl_proxy.Streamer.{Watch, new_streamer, default_limits, laser_on_in_hold}
use grbl_proxy.Streamer.Supervision.{
  status_fault, stall_fault, laser_power, is_held, has_moved, is_alarm_state, has_left_hold,
}
use grbl_proxy.Streamer.Supervision.Safety.{
  IsStalled, confirmed_needs_laser_off, second_laser_on_report, stall_fault_iff,
}

abbrev held_report : ℤ → StatusReport
held_report spindle = record {
  state = codes "Hold:0";
  mpos = none;
  wpos = none;
  wco = none;
  fs = some (pos 0, spindle);
  ov = none;
  pn = none;
  a = none;
  bf = none;
}

abbrev open_lid : Watch
open_lid = record (new_streamer default_limits 0).watch {
  machine_hold = some (codes "ERROR:24.");
  hold_started = 1_000_000;
}

confirmed_needs_laser_off_example :
    (is_held (codes "Hold:0") ≡ true)
    × (has_moved (held_report (pos 0)) open_lid ≡ false)
    × (laser_power (held_report (pos 0)) ≡ some false)
unfolding status_fault new_streamer is_alarm_state has_moved has_left_hold is_held laser_power
confirmed_needs_laser_off_example =
    confirmed_needs_laser_off 1_200_000 3 false (held_report (pos 0)) open_lid refl refl

second_laser_on_report_example :
    (status_fault 1_300_000 3 false
      (held_report (pos 250))
      (status_fault 1_200_000 3 false (held_report (pos 250)) open_lid).0).1
    ≡ some (laser_on_in_hold (codes "Hold:0") (codes "ERROR:24."))
unfolding status_fault new_streamer is_held is_alarm_state has_moved laser_power
second_laser_on_report_example =
    second_laser_on_report 1_200_000 1_300_000 3 3 false false (held_report (pos 250))
      (held_report (pos 250)) (codes "ERROR:24.") open_lid refl
      (record { held = refl; not_alarm = refl; stationary = refl; laser_on = refl })
      (record { held = refl; not_alarm = refl; stationary = refl; laser_on = refl })

stall_fault_iff_example :
    (is_some (stall_fault 4_000_000 3 false default_limits open_lid).1 ≡ true)
    ↔ IsStalled 4_000_000 false default_limits open_lid
stall_fault_iff_example = stall_fault_iff 4_000_000 3 false default_limits open_lid
