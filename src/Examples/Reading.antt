-- ===== src/Examples/Reading.antt =====
-- What the functions on text of grbl_protocol.py, streamer.py and proxy_core.py do with a line.
use grbl_proxy.Prelude.{◌≡◌, refl, true, false, none, some, [], ◌∷◌, pos}
use grbl_proxy.Text.{codes}
use grbl_proxy.Protocol.Split.{split_responses}
use grbl_proxy.Protocol.Report.{only_state, parse_status_report}
use grbl_proxy.Streamer.Dwell.{max_dwell}
use grbl_proxy.Proxy.Gcode.{normalize_gcode}

interleaved : split_responses (codes "<Run|MPos:1,2,3|Ov:100,100,ok\r") ≡ codes "ok" ∷ []
unfolding split_responses
interleaved = refl

two_messages :
    split_responses (codes "ALARM:1<Run|MPos:0.1>  ok")
    ≡ codes "<Run|MPos:0.1>" ∷ codes "ALARM:1" ∷ codes "ok" ∷ []
unfolding split_responses
two_messages = refl

vendor : split_responses (codes "<Run|MPos:1,Error: 04. x") ≡ codes "Error: 04." ∷ []
unfolding split_responses
vendor = refl

doc_example :
    parse_status_report (codes "<Idle|MPos:0.000,-1.5,2|FS:0,7|Bf:15,128>\r\n")
    ≡ some (record (only_state (codes "Idle")) {
      mpos = some (
        record { minus = false; mantissa = 0; scale = 3 },
        record { minus = true; mantissa = 15; scale = 1 },
        record { minus = false; mantissa = 2; scale = 0 },
      );
      fs = some (pos 0, pos 7);
      bf = some (pos 15, pos 128);
    })
unfolding parse_status_report
doc_example = refl

two_dwells :
    max_dwell (codes "G04 P0.5" ∷ codes "G1 X4" ∷ codes "N5 g4 X1 p 1.25" ∷ []) ≡ some 1_250_000
unfolding max_dwell
two_dwells = refl

bad_number : max_dwell (codes "G4 P1.2.3" ∷ []) ≡ none
unfolding max_dwell
bad_number = refl

marker : normalize_gcode (codes " g04   P0.0\r") ≡ codes "G4 P0.0"
unfolding normalize_gcode
marker = refl

zeros : normalize_gcode (codes "M003 X00 Y0.5 S0") ≡ codes "M3 X0 Y0.5 S0"
unfolding normalize_gcode
zeros = refl
