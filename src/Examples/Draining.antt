-- ===== src/Examples/Draining.antt =====
-- Drain loops of streamer.py: silence, a cancel, a spliced ack, a dwell without a space.
use grbl_proxy.Prelude.{ℕ, ◌≡◌, refl, true, false, List, [], ◌∷◌}
use grbl_proxy.Text.{codes}
use grbl_proxy.Protocol.Split.{fault_tokens, split_responses}
use grbl_proxy.Protocol.Recovery.{spliced_ok_is_recovered}
use grbl_proxy.Streamer.{new_streamer, default_limits, cancel, apply_op}
use grbl_proxy.Streamer.Loop.{timeout, Tick, Locals}
use grbl_proxy.Streamer.Run.{Turn, sent, await_room, await_acks, send_all, start}
use grbl_proxy.Streamer.Frame.{code_lines}
use grbl_proxy.Streamer.Silence.{is_over, silent_drain_is_over}
use grbl_proxy.Streamer.Cancel.{HasStopped, send_all-HasStopped}

-- a line of 100 bytes is in flight
abbrev one_in_flight : Locals
one_in_flight = record (start 10 0 (new_streamer default_limits 0)) {
  buffer_used = 100;
  line_lengths = 100 ∷ [];
}

abbrev nothing_until : ℕ → Tick
nothing_until now = record { before = now; polls = now ∷ []; ops = []; after = now; read = timeout }

abbrev quiet : List Tick
quiet = nothing_until 1_000_000 ∷ nothing_until 6_000_000 ∷ []

silent_drain_is_over_example :
    (is_over (await_room 1 40 quiet one_in_flight) ≡ true)
    × (is_over (await_acks quiet one_in_flight) ≡ true)
unfolding new_streamer
silent_drain_is_over_example =
    silent_drain_is_over 1 40 quiet one_in_flight
      (record { no_ops = refl; no_line = refl }, (record { no_ops = refl; no_line = refl }, tt))
      refl refl refl

abbrev cancelled_run : Locals
cancelled_run = start 10 0 (apply_op cancel (new_streamer default_limits 0))

abbrev turn : Turn
turn = record {
  gate = [];
  gate_cancelled = false;
  opened = 20;
  ticks = [];
  write_ops = [];
  write = sent;
}

send_all-HasStopped_example :
    HasStopped
      (code_lines cancelled_run.self.written)
      (send_all 0 (codes "M3 S200" ∷ codes "G1 X1" ∷ []) (turn ∷ turn ∷ []) cancelled_run)
unfolding new_streamer apply_op
send_all-HasStopped_example =
    send_all-HasStopped 0 (codes "M3 S200") (codes "G1 X1" ∷ []) (turn ∷ turn ∷ []) cancelled_run
      refl

spliced_ok_is_recovered_example :
    split_responses (codes "<Run|MPos:1.5,2,3|WCO:0.000,0ok") ≡ codes "ok" ∷ []
unfolding fault_tokens
spliced_ok_is_recovered_example =
    spliced_ok_is_recovered (codes "Run|MPos:1.5,2,3|WCO:0.000,0") refl
