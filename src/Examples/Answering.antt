-- ===== src/Examples/Answering.antt =====
-- A client's session with tcp_server.py on concrete inputs.
use grbl_proxy.Prelude.{◌≡◌, refl, true, false, some, [], ◌∷◌}
use grbl_proxy.Text.{codes}
use grbl_proxy.Proxy.{Proxy, new_proxy}
use grbl_proxy.Tcp.Session.{Server, Greeting}
use grbl_proxy.Tcp.Upstream.{Upstream, Read, got, Turn, upstream_turn, serial_to_tcp}
use grbl_proxy.Tcp.Answers.{IsQuiet, IsRelaying, all_messages, answers_are_relayed}
use grbl_proxy.Examples.Proxying.{defaults}

abbrev fresh : Proxy
unfolding new_proxy
fresh = new_proxy defaults []

abbrev server : Server
unfolding fresh
server = record {
  route = record { proxy = fresh; line_buf = [] };
  reset_on_connect = true;
  has_writer = false;
  has_tasks = false;
}

abbrev greeting : Greeting
greeting = record {
  connected = true;
  write_ok = true;
  banner = record { in_time = true; read = some (codes "Grbl 1.1h"); client_ok = true } ∷ [];
}

-- a round that reads
abbrev round : Read → Turn
round read = record {
  meanwhile = λ p. record p { serial_yield = false };
  stopped = false;
  read = read;
  now = 5;
  last_write_at = 3;
  client_ok = [];
}

abbrev relay : Upstream
unfolding fresh
relay = record {
  proxy = fresh;
  read_idle = false;
  dropped = [];
  serial_was_connected = true;
  last_real_read = 0;
  silent_ticks = 0;
  stall_warned = false;
  stop_relay = false;
}

round-IsQuiet : IsQuiet (round (got (codes "ok")))
round-IsQuiet = record {
  stays = refl;
  takes = refl;
  reads = refl;
  readable = λ p h. h;
  no_yield = λ p. refl;
}

answers_are_relayed_example :
    IsRelaying (serial_to_tcp (round (got (codes "ok")) ∷ []) relay).0
    × ((serial_to_tcp (round (got (codes "ok")) ∷ []) relay).1
        ≡ all_messages (round (got (codes "ok")) ∷ []))
unfolding relay
answers_are_relayed_example =
    answers_are_relayed (round (got (codes "ok")) ∷ []) relay (round-IsQuiet, tt)
      (record { runs = refl; readable = refl })

-- A line whose read is in flight when the proxy asks for the serial port is dropped.
read_in_flight :
    (upstream_turn
      (record (round (got (codes "ok"))) { meanwhile = λ p. record p { serial_yield = true } })
      relay).0.dropped
    ≡ codes "ok" ∷ []
unfolding relay upstream_turn
read_in_flight = refl
