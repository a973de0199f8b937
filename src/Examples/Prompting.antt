-- ===== src/Examples/Prompting.antt =====
-- A run of streamer.py in which the controller answers in time.
use grbl_proxy.Prelude.{◌≡◌, refl, true, List, [], ◌∷◌}
use grbl_proxy.Text.{Text, codes}
use grbl_proxy.Protocol.Split.{split_responses}
use grbl_proxy.Streamer.{Streamer, StreamerResult, Limits, default_limits, new_streamer}
use grbl_proxy.Streamer.Dwell.{max_dwell}
use grbl_proxy.Streamer.Run.{sent, loaded, Env, done, run, load_lines}
use grbl_proxy.Streamer.Frame.{code_lines}
use grbl_proxy.Streamer.Prompt.{all_in_time}
use grbl_proxy.Streamer.Prompt.Completes.{prompt_controller_completes}
use grbl_proxy.Examples.Streaming.{answers, at_once}

-- a receive buffer with room for one of the lines
abbrev narrow : Limits
narrow = record default_limits { rx_size = 8 }

abbrev three_lines : List Text
three_lines = codes "G0 X1\n" ∷ codes "\n" ∷ codes "M5\n" ∷ []

abbrev prompt_job : Env
prompt_job = record {
  load = loaded three_lines;
  started = 10;
  turns = at_once 20 [] ∷ at_once 30 (answers 40 (codes "ok\r\n") ∷ []) ∷ [];
  tail = answers 50 (codes "ok\r\n") ∷ [];
  failsafe = sent;
}

prompt_controller_completes_example :
    (r : StreamerResult) × (t : Streamer) × (run prompt_job (new_streamer narrow 0) ≡ done r t)
    × (r.completed ≡ true)
    × (code_lines t.written ≡ load_lines three_lines)
unfolding max_dwell load_lines all_in_time split_responses
prompt_controller_completes_example =
    prompt_controller_completes prompt_job three_lines narrow 0 0 refl refl refl
