-- ===== src/Proxy/Bytes.antt =====
-- process_raw_byte of proxy_core.py.
use grbl_proxy.Prelude.{
  ℕ, Bool, true, false, not, ◌&&◌, ◌||◌, Option, none, some, List, [], ◌∷◌, ◌==◌, ℤ, pos,
  if◌then◌else◌,
}
use grbl_proxy.Text.{Text, codes, is_empty}
use grbl_proxy.Protocol.{is_realtime_command}
use grbl_proxy.Protocol.Report.{Coords, Decimal, StatusReport}
use grbl_proxy.Streamer.{Streamer, Op, pause, resume, cancel, apply_op}
use grbl_proxy.Proxy.{
  ProxyState, disconnected, passthrough, buffering, executing, paused, error, Proxy, Reply, status,
  Effect, reply, Io, is_buffering, write_serial, write_or_sink, reset_detector,
}
use grbl_proxy.Proxy.Life.{discard_buffer}

abbrev pub origin : Coords
origin = let o : Decimal = record { minus = false; mantissa = 0; scale = 1 } in (o, o, o)

abbrev or_origin : Option Coords → Coords
or_origin none = origin
or_origin (some c) = c

abbrev or_zero : Option (ℤ × ℤ) → ℤ × ℤ
or_zero none = (pos 0, pos 0)
or_zero (some fs) = fs

abbrev status_with : Text → Option StatusReport → Reply
status_with s none = status s origin (pos 0, pos 0)
status_with s (some last) = status s (or_origin last.mpos) (or_zero last.fs)

-- the machine's own state, "Run" if it is not known
abbrev machine_state : Option StatusReport → Text
machine_state none = codes "Run"
machine_state (some last) = if is_empty last.state then codes "Run" else last.state

abbrev synthetic_state : ProxyState → Option StatusReport → Text
synthetic_state paused last = codes "Hold"
synthetic_state executing last = machine_state last
synthetic_state _ last = codes "Run"

-- _write_synthetic_status
unfoldable pub synthetic_status : Proxy → Reply
synthetic_status p = status_with (synthetic_state p.state p.last_status) p.last_status

-- `if self._streamer is not None: self._streamer.…()`
abbrev pub tell : Op → Option Streamer → Option Streamer
tell o none = none
tell o (some s) = some (apply_op o s)

-- "?"
answer_query : Io → Bool → ProxyState → Proxy → List Effect
answer_query io sink buffering p = reply (synthetic_status p) ∷ []
answer_query io sink executing p = reply (synthetic_status p) ∷ []
answer_query io sink paused p = reply (synthetic_status p) ∷ []
answer_query io sink error p = reply (status (codes "Alarm") origin (pos 0, pos 0)) ∷ []
answer_query io sink disconnected p = write_or_sink io sink (b'?' ∷ [])
answer_query io sink passthrough p = write_or_sink io sink (b'?' ∷ [])

-- "!", "~" or 0x18 while buffering: the job is discarded
unfoldable pub abandon_job : ℕ → Proxy → Proxy
unfolding discard_buffer
abandon_job byte p =
    if is_buffering p.state && (byte == b'!' || byte == b'~' || byte == 0x18)
    then reset_detector (record (discard_buffer p) { idle_armed = false; state = passthrough })
    else p

-- the commands that act on a running job, and the way of all others
unfoldable pub control : Io → ℕ → Bool → ProxyState → Proxy → Proxy × List Effect
control io byte sink executing p =
    if byte == b'!'
    then (
      record p { streamer = tell pause p.streamer; state = paused },
      write_serial io (byte ∷ []),
    )
    else if byte == 0x18
    then (
      record p { user_cancelled = true; streamer = tell cancel p.streamer },
      write_serial io (byte ∷ []),
    )
    else (p, write_or_sink io sink (byte ∷ []))
control io byte sink paused p =
    if byte == b'~'
    then (
      record p { streamer = tell (resume io.now) p.streamer; state = executing },
      write_serial io (byte ∷ []),
    )
    else if byte == 0x18
    then (
      record p { user_cancelled = true; streamer = tell cancel p.streamer },
      write_serial io (byte ∷ []),
    )
    else (p, write_or_sink io sink (byte ∷ []))
control io byte sink _ p = (p, write_or_sink io sink (byte ∷ []))

abbrev consumed : Proxy × List Effect → Proxy × Bool × List Effect
consumed (p, effects) = (p, true, effects)

-- a byte other than "?"
unfoldable pub control_byte : Io → ℕ → Bool → Proxy → Proxy × List Effect
unfolding abandon_job control
control_byte io byte sink p = let p' = abandon_job byte p in control io byte sink p'.state p'

-- process_raw_byte: the new state, whether the byte is consumed, the effects
unfoldable pub process_raw_byte : Io → ℕ → Bool → Proxy → Proxy × Bool × List Effect
unfolding is_realtime_command synthetic_status answer_query control_byte apply_op
process_raw_byte io byte sink p =
    let p' = record p { serial_conn = true } in
    if not (is_realtime_command byte)
    then (p', false, [])
    else if byte == b'?'
    then (p', true, answer_query io sink p'.state p')
    else consumed (control_byte io byte sink p')
