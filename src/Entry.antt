-- ===== src/Entry.antt =====
-- main.py: how the parts are put together when the program starts, and taken down when it stops.
-- The web server and the log handlers are outside.
pub mod Kill
use grbl_proxy.Prelude.{ℕ, Bool, true, false, Option, none, some, List, [], ◌∷◌, if◌then◌else◌}
use grbl_proxy.Text.{Text}
use grbl_proxy.Job.Files.{Dir}
use grbl_proxy.Streamer.{StreamerResult}
use grbl_proxy.Serial.{Serial, new_serial, signal_shutdown, disconnect, Opening, connect}
use grbl_proxy.Proxy.{Config, Proxy, new_proxy, Io, Effect}
use grbl_proxy.Proxy.Life.{shutdown, emergency_stop}
use grbl_proxy.Tcp.Session.{Server, with_proxy, drop_current_client}

-- What runs: the TCP server with the proxy, the serial connection, the idle poll, the reconnect loop,
-- and whether the server listens.
pub record App : Type 0 where
  pub server : Server
  pub serial : Serial
  pub polling : Bool
  pub reconnecting : Bool
  pub listening : Bool

-- What the environment answers when the program starts: the clock, how the port opens, whether the
-- TCP port can be bound.
pub record Boot : Type 0 where
  pub now : ℕ
  pub opening : Opening
  pub bind_ok : Bool

-- TcpServer.__init__
unfoldable pub new_server : Bool → Proxy → Server
new_server reset_on_connect p = record {
  route = record { proxy = p; line_buf = [] };
  reset_on_connect = reset_on_connect;
  has_writer = false;
  has_tasks = false;
}

-- start_idle_poll
unfoldable pub start_idle_poll : App → App
start_idle_poll a = record a { polling = true }

-- stop_idle_poll
unfoldable pub stop_idle_poll : App → App
stop_idle_poll a = record a { polling = false }

-- _main, up to the wait for the stop: `none` if the TCP port cannot be bound
unfoldable pub start_up : Boot → Config → Dir → Bool → Serial → Serial × Option App
unfolding new_server start_idle_poll new_proxy connect disconnect
start_up b config disk reset_on_connect serial =
    let (s, ok) = connect b.now b.opening serial in
    if b.bind_ok
    then (
      s,
      some (
          start_idle_poll (record {
            server = new_server reset_on_connect (new_proxy config disk);
            serial = s;
            polling = false;
            reconnecting = true;
            listening = true;
          })),
    )
    else (disconnect s, none)

-- TcpServer.stop
unfoldable pub stop_server : StreamerResult → App → App
unfolding drop_current_client shutdown
stop_server result a = record a {
  server = with_proxy (shutdown result) (drop_current_client a.server);
  listening = false;
}

abbrev proxy_of : App → Proxy
proxy_of a = a.server.route.proxy

-- before the TCP server stops: the poll, the serial connection, the reconnect loop
unfoldable pub quiesce : App → App
unfolding stop_idle_poll signal_shutdown
quiesce a = record (stop_idle_poll a) { serial = signal_shutdown a.serial; reconnecting = false }

-- _main, after the wait: what is written to the controller at last; a streamer that runs is
-- cancelled and ends with `result`
unfoldable pub wind_down : Io → StreamerResult → App → App × List Effect
unfolding quiesce stop_server emergency_stop disconnect
wind_down io result a =
    let stopped = stop_server result (quiesce a) in
    (
      record stopped { serial = disconnect stopped.serial },
      emergency_stop io stopped.server.route.proxy,
    )
