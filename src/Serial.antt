-- ===== src/Serial.antt =====
-- serial_conn.py: the connection to the controller. Reading lines and reconnecting are in the
-- children.
--
-- Times are microseconds. `is_open` is "`_serial` is not None". A blocking call of pyserial ends with
-- what the environment gives it. `decode` is Python's `bytes.decode(errors="replace")`.
pub mod Reading
pub mod Framing
pub mod Reconnect
pub mod Pace
pub mod Recovery
use grbl_proxy.Prelude.{
  ℕ, ◌+◌, ◌-◌, Bool, true, false, not, ◌&&◌, Option, none, some, [], ltb, leb, if◌then◌else◌,
}
use grbl_proxy.Text.{Text}

abbrev pub settle_time : ℕ
settle_time = 2_000_000

abbrev pub boot_window : ℕ
boot_window = 3_000_000

abbrev pub boot_retry : ℕ
boot_retry = 1_000_000

pub record Serial : Type 0 where
  pub reconnect_interval : ℕ
  pub port : Text
  pub auto_detect : Bool
  pub port_first_seen : Option ℕ
  pub opened_at : ℕ
  pub next_attempt : ℕ
  pub last_write_at : ℕ
  pub is_open : Bool
  pub rx_buf : Text
  pub connected : Bool
  pub shutting_down : Bool

-- __init__, with `port or config.port` and `config.port == "auto"`
unfoldable pub new_serial : ℕ → Text → Bool → Serial
new_serial interval port auto_detect = record {
  reconnect_interval = interval;
  port = port;
  auto_detect = auto_detect;
  port_first_seen = none;
  opened_at = 0;
  next_attempt = 0;
  last_write_at = 0;
  is_open = false;
  rx_buf = [];
  connected = false;
  shutting_down = false;
}

-- close_immediately
unfoldable pub close_immediately : Serial → Serial
close_immediately s = record s { is_open = false; connected = false; rx_buf = [] }

-- signal_shutdown
unfoldable pub signal_shutdown : Serial → Serial
signal_shutdown s = record s { shutting_down = true }

-- disconnect
unfoldable pub disconnect : Serial → Serial
unfolding close_immediately
disconnect s = close_immediately (record s { shutting_down = true })

-- _note_io_failure
unfoldable pub note_io_failure : ℕ → Serial → Serial
note_io_failure now s =
    if leb s.opened_at now && ltb (now - s.opened_at) boot_window
    then record s { next_attempt = now + boot_retry }
    else record s { next_attempt = now + s.reconnect_interval }

-- How opening the port ends: in time, with an error, or after the time that `wait_for` allows.
pub data Opening : Type 0 where
  opened refused timed_out : Opening

-- _open_port: whether it succeeds; it closes what is open first
unfoldable pub open_port : ℕ → Opening → Serial → Serial × Bool
open_port now result s =
    let released = record s { is_open = false } in
    if s.shutting_down then (s, false) else elim result [
      | opened ↦ (record released { is_open = true; opened_at = now }, true)
      | refused ↦ (released, false)
      | timed_out ↦ (released, false)
    ]

-- connect
unfoldable pub connect : ℕ → Opening → Serial → Serial × Bool
unfolding open_port
connect now result s =
    let (s', ok) = open_port now result s in
    if ok then (record s' { connected = true }, true) else (s', false)

-- an `_open_port` that `wait_for` has given up, when its thread is done at last
unfoldable pub late_open : ℕ → Serial → Serial
late_open now s = record s { is_open = true; opened_at = now }

-- How a write ends; a port closed while the write waited for the lock is an AttributeError.
pub data WriteEnd : Type 0 where
  written disconnect_raised attribute_raised : WriteEnd

-- write once it has the lock, started at `began` and ended at `now`
unfoldable pub write_locked : ℕ → ℕ → Bool → Serial → Serial × WriteEnd
unfolding note_io_failure close_immediately
write_locked began now ok s =
    let s' = record s { last_write_at = began } in
    if not s.is_open
    then (s', attribute_raised)
    else if ok
    then (s', written)
    else (close_immediately (note_io_failure now s'), disconnect_raised)

-- write, where `meanwhile` is what happens to the connection while the write waits for the lock
unfoldable pub write : (Serial → Serial) → ℕ → ℕ → Bool → Serial → Serial × WriteEnd
unfolding write_locked
write meanwhile began now ok s =
    if s.is_open then write_locked began now ok (meanwhile s) else (s, disconnect_raised)
