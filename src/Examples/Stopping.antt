-- ===== src/Examples/Stopping.antt =====
-- What the program shows and does at its end.
use grbl_proxy.Prelude.{◌≡◌, refl, true, false, none, []}
use grbl_proxy.Text.{codes}
use grbl_proxy.Serial.{new_serial}
use grbl_proxy.Proxy.{Proxy, error, new_proxy}
use grbl_proxy.Proxy.Life.{kill_sequence}
use grbl_proxy.Proxy.Events.{handle_all}
use grbl_proxy.Proxy.Invariant.History.{handle_all-IsValid}
use grbl_proxy.Entry.{App, wind_down}
use grbl_proxy.Entry.Kill.{stopping_kills_laser}
use grbl_proxy.Examples.Proxying.{works, defaults, running_job, alarm}

abbrev running : Proxy
running = handle_all running_job (new_proxy defaults [])

abbrev app : App
app = record {
  server = record {
    route = record { proxy = running; line_buf = [] };
    reset_on_connect = true;
    has_writer = true;
    has_tasks = true;
  };
  serial = new_serial 5_000_000 (codes "/dev/ttyUSB0") false;
  polling = true;
  reconnecting = true;
  listening = true;
}

stopping_kills_laser_example :
    ((wind_down works alarm app).1 ≡ kill_sequence works)
    × ((wind_down works alarm app).0.polling ≡ false)
    × ((wind_down works alarm app).0.reconnecting ≡ false)
    × ((wind_down works alarm app).0.listening ≡ false)
    × ((wind_down works alarm app).0.server.route.proxy.streamer ≡ none)
    × ((wind_down works alarm app).0.serial.is_open ≡ false)
unfolding handle_all new_proxy
stopping_kills_laser_example =
    stopping_kills_laser works alarm app (handle_all-IsValid defaults [] running_job)

-- A fault with a client connected: nothing is sent to the controller at the end.
fault_is_forgotten :
    (wind_down works alarm (record app {
      server = record app.server {
        route = record { proxy = record (new_proxy defaults []) { state = error }; line_buf = [] };
      };
    })).1
    ≡ []
unfolding wind_down new_proxy
fault_is_forgotten = refl
