-- ===== src/Web/Status.antt =====
-- ProxyStatus of web/status.py: what the web page is shown. A time is in microseconds, as in the
-- streamer; the progress and the elapsed time are in tenths, rounded from the exact quotient.
use grbl_proxy.Prelude.{
  ℕ, ◌-◌, ◌*◌, Bool, false, ◌&&◌, Option, none, some, is_some, ℤ, ltb, if◌then◌else◌,
}
use grbl_proxy.Text.{Text}
use grbl_proxy.Text.Rounding.{round_div}
use grbl_proxy.Protocol.Codes.{describe_vendor_fault}
use grbl_proxy.Protocol.Report.{Coords, StatusReport}
use grbl_proxy.Job.{JobBuffer}
use grbl_proxy.Streamer.{Streamer}
use grbl_proxy.Proxy.{ProxyState, Proxy}

pub record StatusSnapshot : Type 0 where
  pub proxy_state : ProxyState
  pub grbl_state : Option Text
  pub mpos : Option Coords
  pub fs : Option (ℤ × ℤ)
  pub job_lines_sent : Option ℕ
  pub job_total_lines : Option ℕ
  pub job_progress_pct : Option ℕ
  pub job_elapsed_s : Option ℕ
  pub serial_connected : Bool
  pub timestamp : ℕ
  pub last_machine_fault : Option Text
  pub machine_hold : Option Text
  pub machine_hold_confirmed : Bool

abbrev described {ℓ} : {A : Type ℓ} → (Text → A) → Option Text → Option A
described f none = none
described f (some t) = some (f t)

-- GrblStreamer.machine_hold
unfoldable pub machine_hold : Streamer → Option Text
unfolding describe_vendor_fault
machine_hold s = described describe_vendor_fault s.watch.machine_hold

-- GrblStreamer.machine_hold_confirmed
unfoldable pub machine_hold_confirmed : Streamer → Bool
machine_hold_confirmed s = is_some s.watch.machine_hold && s.watch.hold_confirmed

-- round(lines_sent / total_lines * 100, 1), in tenths
unfoldable pub progress_pct : Streamer → Option ℕ
unfolding round_div
progress_pct s =
    if ltb 0 s.total_lines then some (round_div (s.lines_sent * 1_000) s.total_lines) else none

-- round(time.time() - buf._start_time, 1), in tenths
unfoldable pub elapsed_s : ℕ → JobBuffer → ℕ
unfolding round_div
elapsed_s now b = round_div (now - b.start_time) 100_000

abbrev state_of : Option StatusReport → Option Text
state_of none = none
state_of (some last) = some last.state

abbrev mpos_of : Option StatusReport → Option Coords
mpos_of none = none
mpos_of (some last) = last.mpos

abbrev fs_of : Option StatusReport → Option (ℤ × ℤ)
fs_of none = none
fs_of (some last) = last.fs

abbrev of_streamer {ℓ} : {A : Type ℓ} → (Streamer → Option A) → Option Streamer → Option A
of_streamer f none = none
of_streamer f (some s) = f s

abbrev confirmed : Option Streamer → Bool
confirmed none = false
confirmed (some s) = machine_hold_confirmed s

abbrev elapsed_of : ℕ → Option JobBuffer → Option ℕ
elapsed_of now none = none
elapsed_of now (some b) = some (elapsed_s now b)

-- snapshot, at the time `now` and the monotonic time `timestamp`; `connected` is what the serial
-- connection says, if there is one
unfoldable pub snapshot : ℕ → ℕ → Bool → Proxy → StatusSnapshot
unfolding machine_hold machine_hold_confirmed progress_pct elapsed_s
snapshot now timestamp connected p = record {
  proxy_state = p.state;
  grbl_state = state_of p.last_status;
  mpos = mpos_of p.last_status;
  fs = fs_of p.last_status;
  job_lines_sent = of_streamer (λ s. some s.lines_sent) p.streamer;
  job_total_lines = of_streamer (λ s. some s.total_lines) p.streamer;
  job_progress_pct = of_streamer progress_pct p.streamer;
  job_elapsed_s = elapsed_of now p.buffer;
  serial_connected = connected;
  timestamp = timestamp;
  last_machine_fault = p.last_machine_fault;
  machine_hold = of_streamer machine_hold p.streamer;
  machine_hold_confirmed = confirmed p.streamer;
}
