-- ===== src/Entry/Kill.antt =====
-- What main.py leaves when it stops.
use grbl_proxy.Prelude.{
  ◌||◌, ◌≡◌, refl, ap, ◌∙◌, Bool, true, false, not, none, ◌&&◌, ◌||◌, List, [], arith, is_some,
  if◌then◌else◌,
}
use grbl_proxy.Streamer.{StreamerResult}
use grbl_proxy.Serial.{disconnect, close_immediately}
use grbl_proxy.Proxy.{is_unsettled, Proxy, ProxyState, error, Io, is_active, Effect}
use grbl_proxy.Proxy.Life.{shutdown, emergency_stop, on_streamer_done, kill_sequence}
use grbl_proxy.Proxy.Client.{on_client_disconnected}
use grbl_proxy.Proxy.Invariant.{IsValid, on_client_disconnected-IsValid}
use grbl_proxy.Tcp.Session.{Server, with_proxy, drop_current_client}
use grbl_proxy.Entry.{App, wind_down, stop_server, quiesce, stop_idle_poll}

-- A connected client.
abbrev pub has_client : Server → Bool
has_client s = s.has_tasks || s.has_writer

abbrev pub is_error : ProxyState → Bool
is_error error = true
is_error _ = false

-- Is the laser to be turned off when a proxy that has streamed with this result stops?
abbrev pub needs_kill : StreamerResult → Bool → Proxy → Bool
needs_kill result client p =
    is_active p.state && (not (is_some p.streamer) || not (result.completed || p.user_cancelled))
    || is_error p.state && not client

abbrev kill_if : Io → Bool → List Effect
kill_if io b = if b then kill_sequence io else []

without_client :
    (io : Io) (result : StreamerResult) (p : Proxy)
    → (is_some p.streamer || is_unsettled p.handover) ≡ is_active p.state
    → emergency_stop io (shutdown result p) ≡ kill_if io (needs_kill result false p)
unfolding shutdown on_streamer_done emergency_stop
without_client io result p v = ground arith

-- Dropping a client keeps a job that runs, and forgets a fault.
after_drop :
    (result : StreamerResult) (p : Proxy)
    → needs_kill result false (on_client_disconnected p) ≡ needs_kill result true p
unfolding on_client_disconnected
after_drop result p = ground arith

server_drop :
    (io : Io) (result : StreamerResult) (s : Server)
    → IsValid s.route.proxy
    → emergency_stop io (shutdown result (drop_current_client s).route.proxy)
      ≡ kill_if io (needs_kill result (has_client s) s.route.proxy)
unfolding drop_current_client
server_drop io result s v =
    let p = s.route.proxy in
    let gone : Server = record (with_proxy on_client_disconnected s) {
      has_writer = false;
      has_tasks = false;
    } in
    elim (has_client s)
      as (λ b.
        emergency_stop io (shutdown result (if◌then◌else◌ {A = Server} b gone s).route.proxy)
        ≡ kill_if io (needs_kill result b p)) [
          | true ↦
              without_client io result (on_client_disconnected p)
                (on_client_disconnected-IsValid p v).streamer_iff
              ∙ ap (kill_if io) (after_drop result p)
          | false ↦ without_client io result p v.streamer_iff
        ]

shutdown_streamer : (result : StreamerResult) (p : Proxy) → (shutdown result p).streamer ≡ none
unfolding shutdown
shutdown_streamer result p = refl

-- When the program is stopped, it turns the laser off if it must: M5 and then the soft reset go to the
-- controller, the second only if the first can be written, exactly if a job runs or is paused that
-- has no streamer yet, or that neither ends with the result "completed" nor has been cancelled by the
-- user, or if the proxy is in the error state and no client is connected. In every case the idle poll, the reconnect loop and
-- the TCP server have stopped, no streamer is left and the serial port is closed.
pub stopping_kills_laser :
    (io : Io) (result : StreamerResult) (a : App)
    → IsValid a.server.route.proxy
    → ((wind_down io result a).1 ≡ (
        if needs_kill result (has_client a.server) a.server.route.proxy
        then kill_sequence io
        else []))
      × ((wind_down io result a).0.polling ≡ false)
      × ((wind_down io result a).0.reconnecting ≡ false)
      × ((wind_down io result a).0.listening ≡ false)
      × ((wind_down io result a).0.server.route.proxy.streamer ≡ none)
      × ((wind_down io result a).0.serial.is_open ≡ false)
unfolding wind_down stop_server quiesce disconnect close_immediately stop_idle_poll
stopping_kills_laser io result a v = (
  server_drop io result a.server v,
  refl,
  refl,
  refl,
  shutdown_streamer result (drop_current_client a.server).route.proxy,
  refl,
)
