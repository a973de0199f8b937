-- ===== src/Examples/Connecting.antt =====
-- The serial connection of serial_conn.py on concrete inputs.
use grbl_proxy.Prelude.{
  ℕ, ◌+◌, ◌≡◌, refl, ◌≤◌, min, true, false, some, List, [], ◌∷◌, ◌++◌, map, arith,
}
use grbl_proxy.Text.{Text, codes, same}
use grbl_proxy.Serial.{Serial, Opening, opened, refused, connect, new_serial, boot_retry, open_port}
use grbl_proxy.Serial.Reading.{Chunk, bytes, read_lines}
use grbl_proxy.Serial.Framing.{AreLines, received, read_lines-AreLines}
use grbl_proxy.Serial.Reconnect.{
  Round, tick, ticked, happen_all, IsClean, attempts, tick-IsClean, rescan_port, release_fd,
  may_open, await_port, attempt_open,
}
use grbl_proxy.Serial.Pace.{attempts_are_spaced}
use grbl_proxy.Serial.Recovery.{device_back_connects}

abbrev acm0 : Text
acm0 = codes "/dev/ttyACM0"

abbrev interval : ℕ
interval = 5_000_000

abbrev at_start : Serial
unfolding connect open_port new_serial
at_start = (connect 0 opened (new_serial interval acm0 false)).0

-- two lines and the beginning of a third, cut in the middle of both lines, with a timeout between
abbrev cut_up : List Chunk
cut_up =
    bytes (codes "o")
    ∷ bytes []
    ∷ bytes (codes "k" ++ 10 ∷ codes "<Id")
    ∷ bytes (codes "le>" ++ 10 ∷ codes "o")
    ∷ []

read_lines-AreLines_example :
    AreLines (at_start.rx_buf ++ received cut_up) (read_lines 20 cut_up at_start)
unfolding at_start
read_lines-AreLines_example = read_lines-AreLines 20 cut_up at_start refl refl (omega arith)

-- a round at a time in which the device answers
abbrev round_at : ℕ → Opening → Round
round_at now opening = record {
  now = now;
  existed = λ port. true;
  exists = λ port. true;
  candidates = acm0 ∷ [];
  opening = opening;
  opened_time = now + 1000;
}

-- the port is open, the connection marked as broken
abbrev stale : Serial
stale = record at_start { connected = false }

tick-IsClean_example : IsClean (round_at 1_000_000 opened) (tick (round_at 1_000_000 opened) stale)
unfolding at_start
tick-IsClean_example =
    tick-IsClean (round_at 1_000_000 opened) stale refl (record { open_if = refl })

-- a device seen a while ago, and closed
abbrev seen : Serial
unfolding new_serial
seen = record (new_serial interval acm0 false) { port_first_seen = some 1_000_000 }

attempts_are_spaced_example : 3_000_000 + min interval boot_retry ≤ 8_000_000
unfolding new_serial attempts tick release_fd rescan_port may_open await_port attempt_open connect
    open_port happen_all
attempts_are_spaced_example =
    attempts_are_spaced (round_at 3_000_000 refused) (round_at 8_000_000 opened)
      (ticked (round_at 4_000_000 opened) ∷ []) seen refl refl refl

device_back_connects_example :
    (happen_all
      (map ticked (
        round_at 1_000_000 opened ∷ round_at 2_000_000 opened ∷ []
        ++ round_at 3_000_000 opened ∷ []))
      (new_serial interval acm0 false)).connected
    ≡ true
unfolding new_serial same
device_back_connects_example =
    device_back_connects (round_at 1_000_000 opened) (round_at 2_000_000 opened ∷ [])
      (round_at 3_000_000 opened) (new_serial interval acm0 false) (record { open_if = refl }) refl
      refl refl refl (omega arith) (omega arith)
