-- ===== src/Examples/Proxying.antt =====
-- A job that passes through the state machine of proxy_core.py.
use grbl_proxy.Prelude.{◌≡◌, ◌⊎◌, true, false, none, List, [], ◌∷◌, ◌++◌, if◌then◌else◌}
use grbl_proxy.Text.{Text, codes}
use grbl_proxy.Streamer.{StreamerResult}
use grbl_proxy.Proxy.{error, Proxy, Config, Io, new_proxy}
use grbl_proxy.Proxy.Lines.{process_client_line}
use grbl_proxy.Proxy.Events.{
  Event, client_connected, raw_byte, client_line, streamer_done, handle, handle_all,
}
use grbl_proxy.Proxy.Graph.Latch.{is_fault, is_clearing, error_is_latched}
use grbl_proxy.Proxy.Acks.{ack_count, is_lost, one_ack}
use grbl_proxy.Proxy.Capture.{job_events}

abbrev pub defaults : Config
defaults = record {
  start_marker = codes "G04 P0.0";
  end_marker = [];
  max_history = 20;
  auto_detect = false;
}

abbrev pub works : Io
works = record {
  serial_ok = true;
  open_ok = true;
  waits = false;
  now = 1_000;
  stamp = codes "20250101_120000";
  json = codes "{}";
}

-- a client is connected, and has sent a byte
abbrev session : List (Io × Event)
session = (works, client_connected) ∷ (works, raw_byte b'G' true) ∷ []

abbrev pub connected : Proxy
connected = handle_all session (new_proxy defaults [])

abbrev job : List Text
job = codes "G0 X1" ∷ codes "M3 S200" ∷ []

-- the job is sent and runs
abbrev pub running_job : List (Io × Event)
running_job = session ++ job_events works true (codes "g4 p0.0") job (client_line (codes "M2") true)

abbrev pub alarm : StreamerResult
alarm = record {
  completed = false;
  cancelled = false;
  error_line = none;
  error_code = none;
  alarm_code = none;
  lines_sent = 1;
  total_lines = 3;
  message = none;
}

error_is_latched_example :
    ((handle works (streamer_done alarm) (handle_all running_job (new_proxy defaults []))).state
        ≡ error
      → ((handle_all running_job (new_proxy defaults [])).state ≡ error)
        ⊎ (is_fault (streamer_done alarm) (handle_all running_job (new_proxy defaults [])) ≡ true))
    × ((handle_all running_job (new_proxy defaults [])).state ≡ error
        → ((handle works
              (streamer_done alarm)
              (handle_all running_job (new_proxy defaults []))).state
            ≡ error)
          ⊎ (is_clearing (streamer_done alarm) ≡ true))
error_is_latched_example = error_is_latched defaults [] running_job works (streamer_done alarm)

one_ack_example :
    ack_count (process_client_line works true (codes "g4 p0.0") connected).1
    ≡ (if is_lost works true (codes "g4 p0.0") connected then 0 else 1)
one_ack_example = one_ack works true (codes "g4 p0.0") connected
