-- ===== src/Proxy.antt =====
-- proxy_core.py: the data of the state machine between LightBurn and the controller. Its handlers
-- are in the children.
--
-- A handler runs as one step, but for the handover to the streamer: where that waits, the handler ends
-- there, and the rest is an event of its own. The calls that other tasks make during other awaits come
-- before or after the handler. `disk` is the storage directory, which its job buffer writes. The serial
-- connection that it caches is a flag, and `idle_armed` is "there is an idle timer".
pub mod Gcode
pub mod Detector
pub mod Life
pub mod Client
pub mod Bytes
pub mod Lines
pub mod Poll
pub mod IdlePoll
pub mod Events
pub mod Invariant
pub mod Graph
pub mod Replies
pub mod Acks
pub mod Capture
pub mod Handover
use grbl_proxy.Prelude.{
  ℕ, zero, suc, ◌+◌, Bool, true, false, Option, none, some, List, [], ◌∷◌, ◌++◌, ℤ, pos,
  if◌then◌else◌,
}
use grbl_proxy.Text.{Text, codes}
use grbl_proxy.Protocol.Report.{Coords, Decimal, StatusReport}
use grbl_proxy.Streamer.{Streamer, StreamerResult}
use grbl_proxy.Job.{JobBuffer, JobMetadata}
use grbl_proxy.Job.Files.{Dir}

pub data ProxyState : Type 0 where
  disconnected passthrough buffering executing paused error : ProxyState

-- what the handlers read of JobConfig
pub record Config : Type 0 where
  pub start_marker : Text
  pub end_marker : Text
  pub max_history : ℕ
  pub auto_detect : Bool

-- The handover of the serial port to the streamer, which waits up to 2 s for the other reader:
-- none is under way, one is, with the metadata of the job, or the task that waited was cancelled.
pub data PortHandover : Type 0 where
  settled : PortHandover
  waiting : JobMetadata → PortHandover
  abandoned : PortHandover

abbrev pub is_unsettled : PortHandover → Bool
is_unsettled settled = false
is_unsettled (waiting meta) = true
is_unsettled abandoned = true

-- `handover` is where the task in _finalize_job or _begin_execution is. `gcode_path` is the argument
-- of the last GrblStreamer, which reads its file by it.
pub record Proxy : Type 0 where
  pub config : Config
  pub state : ProxyState
  pub buffer : Option JobBuffer
  pub disk : Dir
  pub last_status : Option StatusReport
  pub last_error : Option StreamerResult
  pub idle_armed : Bool
  pub detector : Option (List (ℕ × Bool))
  pub serial_conn : Bool
  pub handover : PortHandover
  pub streamer : Option Streamer
  pub gcode_path : Option Text
  pub serial_readable : Bool
  pub serial_yield : Bool
  pub idle_poll_suspended : Bool
  pub has_tcp_client : Bool
  pub user_cancelled : Bool
  pub last_machine_fault : Option Text

-- What LightBurn is answered with; every answer ends in CR LF. A status carries what
-- `make_status_response` formats.
pub data Reply : Type 0 where
  ok : Reply
  error9 : Reply
  status : Text → Coords → ℤ × ℤ → Reply

-- What a handler does beside its change of state: an answer, a write to the serial port that
-- succeeds or fails, bytes appended to the sink, an exception that it lets through.
pub data Effect : Type 0 where
  reply : Reply → Effect
  forward : Text → Effect
  dropped : Text → Effect
  sunk : Text → Effect
  raised : Effect

-- What the environment answers to one handler: whether a serial write succeeds, whether the job
-- buffer can be opened, whether the handover to the streamer has to wait, so that it ends in an event
-- of its own, the clock, the timestamp and the JSON text of an archived job.
pub record Io : Type 0 where
  pub serial_ok : Bool
  pub open_ok : Bool
  pub waits : Bool
  pub now : ℕ
  pub stamp : Text
  pub json : Text

abbrev pub is_buffering : ProxyState → Bool
is_buffering buffering = true
is_buffering _ = false

-- in (EXECUTING, PAUSED)
abbrev pub is_active : ProxyState → Bool
is_active executing = true
is_active paused = true
is_active _ = false

-- a write that is answered at once
abbrev pub write_serial : Io → Text → List Effect
write_serial io bytes = (if io.serial_ok then forward bytes else dropped bytes) ∷ []

-- a write to the sink, if the caller gives one
abbrev pub write_or_sink : Io → Bool → Text → List Effect
write_or_sink io sink bytes = if sink then sunk bytes ∷ [] else write_serial io bytes

abbrev pub clear_window : Option (List (ℕ × Bool)) → Option (List (ℕ × Bool))
clear_window none = none
clear_window (some window) = some []

-- `if self._detector: self._detector.reset()`
abbrev pub reset_detector : Proxy → Proxy
reset_detector p = record p { detector = clear_window p.detector }

-- __init__
unfoldable pub new_proxy : Config → Dir → Proxy
new_proxy config disk = record {
  config = config;
  state = disconnected;
  buffer = none;
  disk = disk;
  last_status = none;
  last_error = none;
  idle_armed = false;
  detector = if config.auto_detect then some [] else none;
  serial_conn = false;
  handover = settled;
  streamer = none;
  gcode_path = none;
  serial_readable = true;
  serial_yield = false;
  idle_poll_suspended = false;
  has_tcp_client = false;
  user_cancelled = false;
  last_machine_fault = none;
}
