-- ===== src/Streamer.antt =====
-- streamer.py: the data of a streaming run. The supervision of the machine, the loops and the run
-- are in the children.
--
-- Times are microseconds of the monotonic clock; one synchronous stretch of code reads one time.
-- A message for the operator is the constructor that stands for its text, with the values in it.
pub mod Prompt
pub mod Dwell
pub mod Supervision
pub mod Loop
pub mod Kinds
pub mod Send
pub mod Drain
pub mod Reading
pub mod Frame
pub mod Run
pub mod Window
pub mod Sending
pub mod Delivery
pub mod Silence
pub mod Cancel
use grbl_proxy.Prelude.{
  ℕ, zero, suc, ◌+◌, Bool, true, false, Option, none, some, List, [], ◌∷◌, ◌++◌, ℤ,
}
use grbl_proxy.Text.{Text}
use grbl_proxy.Protocol.Report.{Coords, StatusReport}

abbrev pub rx_buffer_size : ℕ
rx_buffer_size = 128

abbrev pub poll_interval : ℕ
poll_interval = 250_000

abbrev pub idle_complete_polls : ℕ
idle_complete_polls = 3

abbrev pub rx_drained_margin : ℕ
rx_drained_margin = 8

abbrev pub resume_grace : ℕ
resume_grace = 1_500_000

abbrev pub laser_on_held_polls : ℕ
laser_on_held_polls = 2

abbrev pub stall_timeout : ℕ
stall_timeout = 5_000_000

abbrev pub machine_hold_confirm : ℕ
machine_hold_confirm = 3_000_000

abbrev pub hold_poll_interval : ℕ
hold_poll_interval = 100_000

pub data Message : Type 0 where
  alarm_state : ℕ → Message
  moving_in_hold : Text → Text → Option Coords → Message
  laser_on_in_hold : Text → Text → Message
  no_safe_hold : ℕ → Text → Message
  supervision_lost : Text → Message
  stalled : ℕ → Option Coords → Message
  dropped_after_hold : ℕ → Message
  reset_mid_stream : ℕ → Message
  reset_in_drain : ℕ → Message
  internal_error : Message

pub record StreamerResult : Type 0 where
  pub completed : Bool
  pub cancelled : Bool
  pub error_line : Option ℕ
  pub error_code : Option ℕ
  pub alarm_code : Option ℤ
  pub lines_sent : ℕ
  pub total_lines : ℕ
  pub message : Option Message

-- the constructor's parameters
pub record Limits : Type 0 where
  pub poll : ℕ
  pub rx_size : ℕ
  pub stall : ℕ
  pub hold_confirm : ℕ

abbrev pub default_limits : Limits
default_limits = record {
  poll = poll_interval;
  rx_size = rx_buffer_size;
  stall = stall_timeout;
  hold_confirm = machine_hold_confirm;
}

-- The fields with which the machine is supervised.
pub record Watch : Type 0 where
  pub rx_capacity : ℕ
  pub rx_drained_polls : ℕ
  pub max_dwell : ℕ
  pub laser_on_polls : ℕ
  pub resume_grace_until : ℕ
  pub last_mpos : Option Coords
  pub last_progress : ℕ
  pub machine_hold : Option Text
  pub hold_started : ℕ
  pub hold_confirmed : Bool
  pub hold_from_status : Bool
  pub last_status_time : ℕ
  pub resumed_from_hold : Bool

-- What goes to the serial port: a status query, a line of the job, the byte 0x18.
pub data Write : Type 0 where
  query : Write
  code : Text → Write
  soft_reset : Write

-- `paused` is `not _resume_event.is_set()`. `written` is what was written, oldest first, and
-- `reported` what `on_status` was called with, newest first.
pub record Streamer : Type 0 where
  pub limits : Limits
  pub watch : Watch
  pub paused : Bool
  pub cancelled : Bool
  pub lines_sent : ℕ
  pub total_lines : ℕ
  pub last_poll : ℕ
  pub written : List Write
  pub reported : List StatusReport

-- __init__
unfoldable pub new_streamer : Limits → ℕ → Streamer
new_streamer limits now = record {
  limits = limits;
  watch = record {
    rx_capacity = 0;
    rx_drained_polls = 0;
    max_dwell = 0;
    laser_on_polls = 0;
    resume_grace_until = 0;
    last_mpos = none;
    last_progress = now;
    machine_hold = none;
    hold_started = 0;
    hold_confirmed = false;
    hold_from_status = false;
    last_status_time = now;
    resumed_from_hold = false;
  };
  paused = false;
  cancelled = false;
  lines_sent = 0;
  total_lines = 0;
  last_poll = 0;
  written = [];
  reported = [];
}

-- The calls that other tasks make while the run awaits; `resume` reads the clock.
pub data Op : Type 0 where
  pause : Op
  resume : ℕ → Op
  cancel : Op

-- pause(), resume(), cancel()
unfoldable pub apply_op : Op → Streamer → Streamer
apply_op pause s = record s { paused = true }
apply_op (resume now) s = record s {
  paused = false;
  watch = record s.watch { last_progress = now; resume_grace_until = now + resume_grace };
}
apply_op cancel s = record s { cancelled = true; paused = false }

unfoldable pub apply_ops : List Op → Streamer → Streamer
unfolding apply_op
apply_ops [] s = s
apply_ops (o ∷ os) s = apply_ops os (apply_op o s)
