-- ===== src/Tcp/Upstream.antt =====
-- _serial_to_tcp of tcp_server.py: what the controller says, taken to the client.
use grbl_proxy.Prelude.{
  ℕ, ◌+◌, ◌-◌, Bool, true, false, not, ◌&&◌, ◌||◌, List, [], ◌∷◌, ◌++◌, ltb, leb, if◌then◌else◌,
}
use grbl_proxy.Text.{Text, codes, is_empty}
use grbl_proxy.Protocol.{is_status_report}
use grbl_proxy.Protocol.Split.{split_responses}
use grbl_proxy.Protocol.Report.{parse_status_report}
use grbl_proxy.Proxy.{Proxy}
use grbl_proxy.Proxy.Poll.{update_if, update_last_status}
use grbl_proxy.Tcp.Session.{line_terminator, is_passthrough}

abbrev pub stall_warn : ℕ
stall_warn = 15_000_000

-- The relay's variables, the proxy, `serial_read_idle`, and the lines read that were dropped at the
-- handover to a streamer, which are logged.
pub record Upstream : Type 0 where
  pub proxy : Proxy
  pub read_idle : Bool
  pub dropped : List Text
  pub serial_was_connected : Bool
  pub last_real_read : ℕ
  pub silent_ticks : ℕ
  pub stall_warned : Bool
  pub stop_relay : Bool

-- How a read ends: with a line, with the "" of a timeout, with SerialDisconnectedError.
pub data Read : Type 0 where
  got : Text → Read
  timed_out lost : Read

-- One round: what other tasks do to the proxy while the relay waits, whether the relay is stopped by
-- then, how the read ends, the clock, the last write to the controller, and whether the client takes
-- each message (it does beyond the end of the list).
pub record Turn : Type 0 where
  pub meanwhile : Proxy → Proxy
  pub stopped : Bool
  pub read : Read
  pub now : ℕ
  pub last_write_at : ℕ
  pub client_ok : List Bool

abbrev pub next_ok : List Bool → Bool
next_ok [] = true
next_ok (ok ∷ oks) = ok

abbrev pub later_ok : List Bool → List Bool
later_ok [] = []
later_ok (ok ∷ oks) = oks

-- the cache of the last status
unfoldable pub snoop : Text → Proxy → Proxy
unfolding is_status_report parse_status_report update_last_status
snoop message p = if is_status_report message then update_if (parse_status_report message) p else p

-- the loop over the messages of a line
unfoldable pub forward_all : List Bool → List Text → Upstream → Upstream × List Text
unfolding snoop
forward_all oks [] u = (u, [])
forward_all oks (m ∷ ms) u =
    let u' = record u { proxy = snoop m u.proxy } in
    let (u'', sent) = forward_all (later_ok oks) ms u' in
    if next_ok oks
    then (u'', (m ++ line_terminator) ∷ sent)
    else (record u' { stop_relay = true }, [])

-- the watchdog at a timeout
unfoldable pub watch_silence : ℕ → ℕ → Upstream → Upstream
watch_silence now last_write_at u =
    if is_passthrough u.proxy.state && ltb u.last_real_read last_write_at
    then record u {
      silent_ticks = u.silent_ticks + 1;
      stall_warned = u.stall_warned || leb stall_warn (now - last_write_at);
    }
    else u

abbrev pub error9_line : Text
error9_line = codes "error:9" ++ line_terminator

abbrev pub after_tick : Turn → Upstream → Upstream × List Text
after_tick t u =
    (watch_silence t.now t.last_write_at (record u { serial_was_connected = true }), [])

abbrev pub after_line : Turn → Text → Upstream → Upstream × List Text
after_line t line u = forward_all t.client_ok (split_responses line) (record u {
  serial_was_connected = true;
  last_real_read = t.now;
  silent_ticks = 0;
  stall_warned = false;
})

-- a read that has ended: an empty line is a timeout to the relay
unfoldable pub after_read : Turn → Read → Upstream → Upstream × List Text
unfolding forward_all watch_silence split_responses
after_read t lost u =
    if u.serial_was_connected
    then (record u { stop_relay = true }, if next_ok t.client_ok then error9_line ∷ [] else [])
    else (u, [])
after_read t timed_out u = after_tick t u
after_read t (got line) u = if is_empty line then after_tick t u else after_line t line u

-- the read in flight when the streamer takes over: its line is dropped, and so is its exception
abbrev pub drop_read : Read → Upstream → Upstream
drop_read (got line) u = if is_empty line then u else record u { dropped = u.dropped ++ line ∷ [] }
drop_read timed_out u = u
drop_read lost u = u

-- one round of the loop
unfoldable pub upstream_turn : Turn → Upstream → Upstream × List Text
unfolding after_read
upstream_turn t u =
    let u' = record u { proxy = t.meanwhile u.proxy } in
    if u.stop_relay
    then (u, [])
    else if not u.proxy.serial_readable
    then (record u' { read_idle = true; stop_relay = t.stopped }, [])
    else if u'.proxy.serial_yield
    then (record (drop_read t.read u') { read_idle = true; stop_relay = t.stopped }, [])
    else if t.stopped
    then (record u' { read_idle = false; stop_relay = true }, [])
    else after_read t t.read (record u' { read_idle = true })

-- _serial_to_tcp
unfoldable pub serial_to_tcp : List Turn → Upstream → Upstream × List Text
unfolding upstream_turn
serial_to_tcp [] u = (u, [])
serial_to_tcp (t ∷ ts) u =
    let (u', sent) = upstream_turn t u in
    let (u'', more) = serial_to_tcp ts u' in (u'', sent ++ more)
