-- ===== src/Examples/Streaming.antt =====
-- Runs of streamer.py on a small job.
use grbl_proxy.Prelude.{true, ℕ, ◌≡◌, refl, false, none, List, [], ◌∷◌, length, ◌≤◌, ◌+◌, take}
use grbl_proxy.Text.{Text, codes}
use grbl_proxy.Streamer.{StreamerResult, new_streamer, default_limits, Limits, cancel}
use grbl_proxy.Streamer.Loop.{line, Tick, error_result}
use grbl_proxy.Streamer.Run.{sent, Turn, loaded, Env, RunEnd, done, running, run, start, send_all}
use grbl_proxy.Streamer.Frame.{code_lines, resets}
use grbl_proxy.Streamer.Window.{LoopAccounted, longest_line, send_keeps_window}
use grbl_proxy.Streamer.Delivery.{
  final, job_lines, MayLag, run_writes_prefix, completed_run_sent_all, reset_exactly_on_fault,
}

abbrev pub answers : ℕ → Text → Tick
answers now text = record { before = now; polls = []; ops = []; after = now; read = line text }

-- a line that needs no answer before it is written
abbrev pub at_once : ℕ → List Tick → Turn
at_once now ticks = record {
  gate = [];
  gate_cancelled = false;
  opened = now;
  ticks = ticks;
  write_ops = [];
  write = sent;
}

-- a receive buffer with room for one of the lines
abbrev small_limits : Limits
small_limits = record default_limits { rx_size = 8 }

abbrev two_lines : List Text
two_lines = codes "G0 X1\n" ∷ codes "\n" ∷ codes "M5\n" ∷ []

abbrev good_job : Env
good_job = record {
  load = loaded two_lines;
  started = 10;
  turns = at_once 20 [] ∷ at_once 30 (answers 40 (codes "ok\r\n") ∷ []) ∷ [];
  tail = answers 50 (codes "<Run|MPos:1,0,0ok\r\n") ∷ [];
  failsafe = sent;
}

-- the second answer is an error
abbrev bad_job : Env
bad_job = record good_job { tail = answers 50 (codes "error:20\r\n") ∷ [] }

abbrev no_result : StreamerResult
no_result = record {
  completed = false;
  cancelled = false;
  error_line = none;
  error_code = none;
  alarm_code = none;
  lines_sent = 0;
  total_lines = 0;
  message = none;
}

abbrev pub result_of : RunEnd → StreamerResult
result_of (done r t) = r
result_of (running t) = no_result

send_keeps_window_example : LoopAccounted (longest_line (codes "G0 X1" ∷ codes "M5" ∷ [])) (
    send_all 0
      (codes "G0 X1" ∷ codes "M5" ∷ [])
      good_job.turns
      (start 10 0 (new_streamer small_limits 0)))
send_keeps_window_example =
    send_keeps_window 10 0 (codes "G0 X1" ∷ codes "M5" ∷ []) good_job.turns
      (new_streamer small_limits 0)

completed_run_sent_all_example :
    (code_lines (final (run good_job (new_streamer small_limits 0))).written
      ≡ job_lines good_job.load)
    × ((result_of (run good_job (new_streamer small_limits 0))).lines_sent
        ≡ length (job_lines good_job.load))
    × (resets (final (run good_job (new_streamer small_limits 0))).written ≡ 0)
unfolding run new_streamer
completed_run_sent_all_example =
    completed_run_sent_all good_job small_limits 0
      (result_of (run good_job (new_streamer small_limits 0)))
      (final (run good_job (new_streamer small_limits 0))) refl refl

reset_exactly_on_fault_example :
    resets (final (run bad_job (new_streamer small_limits 0))).written ≡ 1
unfolding run new_streamer error_result
reset_exactly_on_fault_example =
    reset_exactly_on_fault bad_job small_limits 0
      (result_of (run bad_job (new_streamer small_limits 0)))
      (final (run bad_job (new_streamer small_limits 0))) refl

run_writes_prefix_example :
    (late : ℕ) × MayLag late (run bad_job (new_streamer small_limits 0))
    × (code_lines (final (run bad_job (new_streamer small_limits 0))).written
        ≡ take
            ((final (run bad_job (new_streamer small_limits 0))).lines_sent + late)
            (job_lines bad_job.load))
    × ((final (run bad_job (new_streamer small_limits 0))).lines_sent + late
        ≤ length (job_lines bad_job.load))
run_writes_prefix_example = run_writes_prefix bad_job small_limits 0

-- A cancel arrives while the read waits whose "ok" makes room for the second line.
abbrev late_cancel : Env
late_cancel = record good_job {
  turns =
      at_once 20 []
      ∷ at_once 30 (record (answers 40 (codes "ok\r\n")) { ops = cancel ∷ [] } ∷ [])
      ∷ [];
}

late_cancel_writes :
    code_lines (final (run late_cancel (new_streamer small_limits 0))).written
    ≡ codes "G0 X1" ∷ codes "M5" ∷ []
unfolding run new_streamer
late_cancel_writes = refl

late_cancel_result : (result_of (run late_cancel (new_streamer small_limits 0))).cancelled ≡ true
unfolding run new_streamer
late_cancel_result = refl
