-- ===== src/Proxy/Life.antt =====
-- The life of a job in proxy_core.py: buffering, finalizing, the start and the end of the streamer,
-- shutdown.
use grbl_proxy.Prelude.{
  is_some, ℕ, Bool, true, false, ◌||◌, Option, none, some, List, [], ◌∷◌, if◌then◌else◌,
}
use grbl_proxy.Text.{Text, codes}
use grbl_proxy.Streamer.{StreamerResult, new_streamer, default_limits}
use grbl_proxy.Job.{JobMetadata, JobBuffer, new_buffer, open_buffer, write_line, discard, finalize}
use grbl_proxy.Job.Files.{Dir}
use grbl_proxy.Proxy.{
  ProxyState, disconnected, passthrough, buffering, executing, paused, error, Proxy, PortHandover,
  settled, waiting, abandoned, Effect, reply, ok, forward, dropped, Io, reset_detector,
}
use grbl_proxy.Proxy.Gcode.{is_program_end_command}

abbrev discard_by : Option JobBuffer → Proxy → Proxy
discard_by none p = p
discard_by (some b) p = let (b', d) = discard b p.disk in record p { buffer = none; disk = d }

-- `if self._buffer is not None: await self._buffer.discard(); self._buffer = None`
unfoldable pub discard_buffer : Proxy → Proxy
unfolding discard
discard_buffer p = discard_by p.buffer p

-- _enter_buffering: the disk that cannot be opened leaves everything as it was
unfoldable pub enter_buffering : Io → Proxy → Proxy × List Effect
unfolding new_buffer open_buffer
enter_buffering io p =
    let (b, d) = open_buffer (new_buffer io.now p.config.max_history) p.disk in
    if io.open_ok
    then (
      reset_detector (record p { buffer = some b; disk = d; state = buffering; idle_armed = true }),
      reply ok ∷ [],
    )
    else (p, [])

-- _start_streamer
unfoldable pub start_streamer : ℕ → JobMetadata → Proxy → Proxy
unfolding new_streamer
start_streamer now meta p =
    let p' = record p { user_cancelled = false } in
    if p'.serial_conn
    then record p' {
      streamer = some (new_streamer default_limits now);
      gcode_path = some meta.path;
    }
    else record p' { state = passthrough; serial_readable = true }

abbrev hand_over_by : ℕ → PortHandover → Proxy → Proxy
hand_over_by now (waiting meta) p =
    start_streamer now meta (record p { handover = settled; serial_yield = false })
hand_over_by now _ p = p

-- what follows the wait for the other reader, in _finalize_job and in _begin_execution
unfoldable pub hand_over : ℕ → Proxy → Proxy
unfolding start_streamer
hand_over now p = hand_over_by now p.handover p

-- the wait for the other reader
unfoldable pub await_reader : Io → Proxy → Proxy
unfolding hand_over
await_reader io p = if io.waits then p else hand_over io.now p

-- The proxy once the handover has ended, if nothing else happens meanwhile.
abbrev pub after_handover : Io → Proxy → Proxy
after_handover io p = if io.waits then hand_over io.now p else p

abbrev cancel_waiting : PortHandover → PortHandover
cancel_waiting (waiting meta) = abandoned
cancel_waiting h = h

-- the task is cancelled that waits for the other reader, which _drop_current_client does
unfoldable pub cancel_handover : Proxy → Proxy
cancel_handover p = record p { handover = cancel_waiting p.handover }

abbrev pub write_last : Option Text → JobBuffer × Dir → JobBuffer × Dir
write_last none bd = bd
write_last (some line) (b, d) = write_line line b d

abbrev pub ends_program : Option Text → Bool
ends_program none = is_program_end_command []
ends_program (some line) = is_program_end_command line

-- the last lines of the job file: the line given, and M2 if that does not end the program
unfoldable pub close_program : Option Text → JobBuffer × Dir → JobBuffer × Dir
unfolding write_line is_program_end_command
close_program last_line bd =
    let (b, d) = write_last last_line bd in
    if ends_program last_line then (b, d) else write_line (codes "M2") b d

abbrev pub finalize_by : Io → Option Text → Option JobBuffer → Proxy → Proxy
finalize_by io last_line none p = p
finalize_by io last_line (some b) p =
    let (b', d) = close_program last_line (b, p.disk) in
    let (meta, b'', d') = finalize io.stamp io.json io.now b' d in
    await_reader io (record p {
      idle_armed = false;
      disk = d';
      buffer = none;
      state = executing;
      serial_readable = false;
      serial_yield = true;
      handover = waiting meta;
    })

-- _finalize_job
unfoldable pub finalize_job : Io → Option Text → Proxy → Proxy
unfolding close_program finalize await_reader
finalize_job io last_line p = finalize_by io last_line p.buffer p

-- _on_idle_timeout
unfoldable pub on_idle_timeout : Io → Proxy → Proxy
unfolding finalize_job
on_idle_timeout io p =
    let p' = record p { idle_armed = false } in
    elim p'.state [ buffering ↦ finalize_job io none p' | _ ↦ p' ]

abbrev settle : ProxyState → ProxyState → ProxyState
settle executing next = next
settle paused next = next
settle s next = s

-- _on_streamer_done
unfoldable pub on_streamer_done : StreamerResult → Proxy → Proxy
on_streamer_done result p =
    let p' = record p {
      streamer = none;
      serial_yield = false;
      serial_readable = true;
      user_cancelled = false;
    } in
    let idle = if p.has_tcp_client then passthrough else disconnected in
    if result.completed || p.user_cancelled
    then record p' { state = settle p.state idle }
    else record p' { last_error = some result; state = settle p.state error }

-- shutdown: a running streamer's task is cancelled, and it calls `_on_streamer_done` with `result`
unfoldable pub shutdown : StreamerResult → Proxy → Proxy
unfolding on_streamer_done
shutdown result p =
    let p' = if is_some p.streamer then on_streamer_done result p else p in
    record p' { streamer = none; serial_yield = false; serial_readable = true }

-- a second write follows the first unless it fails
abbrev pub kill_sequence : Io → List Effect
kill_sequence io =
    if io.serial_ok
    then forward (codes "M5\n") ∷ forward (0x18 ∷ []) ∷ []
    else dropped (codes "M5\n") ∷ []

-- emergency_stop
unfoldable pub emergency_stop : Io → Proxy → List Effect
emergency_stop io p = elim p.state [
  | executing ↦ kill_sequence io
  | paused ↦ kill_sequence io
  | error ↦ kill_sequence io
  | _ ↦ []
]
