-- ===== src/Web/Control.antt =====
-- The commands of ProxyControl in web/status.py for a running job, and the console. A handler gives
-- the new state, what it writes, and whether the command is accepted.
use grbl_proxy.Prelude.{
  none, not, Bool, true, false, ◌||◌, ◌&&◌, List, [], ◌∷◌, ◌++◌, if◌then◌else◌,
}
use grbl_proxy.Text.{Text, strip}
use grbl_proxy.Job.{newline}
use grbl_proxy.Streamer.{pause, resume, cancel, apply_op}
use grbl_proxy.Proxy.{
  ProxyState, disconnected, passthrough, executing, paused, error, Proxy, Effect, Io, is_active,
  write_serial,
}
use grbl_proxy.Proxy.Bytes.{tell}
use grbl_proxy.Proxy.Lines.{is_unlock}

-- `self._serial or core._serial_conn` is not None: `attached` is the first of them
abbrev pub has_serial : Bool → Proxy → Bool
has_serial attached p = attached || p.serial_conn

-- a write whose failure is passed over
abbrev pub try_write : Io → Bool → Text → Proxy → List Effect
try_write io attached bytes p = if has_serial attached p then write_serial io bytes else []

abbrev pub is_executing : ProxyState → Bool
is_executing executing = true
is_executing _ = false

abbrev pub is_paused : ProxyState → Bool
is_paused paused = true
is_paused _ = false

-- pause
unfoldable pub web_pause : Io → Bool → Proxy → Proxy × List Effect × Bool
unfolding apply_op
web_pause io attached p =
    if is_executing p.state
    then (
      record p { streamer = tell pause p.streamer; state = paused },
      try_write io attached (b'!' ∷ []) p,
      true,
    )
    else (p, [], false)

-- resume
unfoldable pub web_resume : Io → Bool → Proxy → Proxy × List Effect × Bool
unfolding apply_op
web_resume io attached p =
    if is_paused p.state
    then (
      record p { streamer = tell (resume io.now) p.streamer; state = executing },
      try_write io attached (b'~' ∷ []) p,
      true,
    )
    else (p, [], false)

-- cancel
unfoldable pub web_cancel : Io → Bool → Proxy → Proxy × List Effect × Bool
unfolding apply_op
web_cancel io attached p =
    if is_active p.state
    then (
      record p { user_cancelled = true; streamer = tell cancel p.streamer },
      try_write io attached (0x18 ∷ []) p,
      true,
    )
    else (p, [], false)

-- the states in which the console may be used
abbrev pub is_console_state : ProxyState → Bool
is_console_state passthrough = true
is_console_state disconnected = true
is_console_state error = true
is_console_state _ = false

abbrev pub is_error_state : ProxyState → Bool
is_error_state error = true
is_error_state _ = false

-- send_console, past its checks
abbrev pub console_write : Io → Text → Proxy → Proxy × List Effect × Bool
console_write io cmd p =
    if io.serial_ok
    then (
      if is_error_state p.state && is_unlock cmd
          then record p { state = disconnected; last_error = none }
          else p,
      write_serial io (cmd ++ newline),
      true,
    )
    else (p, write_serial io (cmd ++ newline), false)

-- send_console
unfoldable pub send_console : Io → Bool → Text → Proxy → Proxy × List Effect × Bool
unfolding strip is_unlock
send_console io attached command p =
    if is_console_state p.state && not p.has_tcp_client && has_serial attached p
    then console_write io (strip command) p
    else (p, [], false)
