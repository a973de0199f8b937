-- ===== src/Examples/Piping.antt =====
-- A job sent by a client, and carried out.
use grbl_proxy.Prelude.{◌≡◌, refl, true, none, some, List, [], ◌∷◌}
use grbl_proxy.Text.{Text, codes}
use grbl_proxy.Job.{gcode_name}
use grbl_proxy.Streamer.{new_streamer, default_limits}
use grbl_proxy.Streamer.Run.{loaded, sent, Env}
use grbl_proxy.Proxy.{passthrough, executing, Proxy, Io, new_proxy}
use grbl_proxy.Proxy.Capture.{job_events}
use grbl_proxy.Proxy.Events.{
  client_line, client_disconnected, web_cancelled, handed_over, handover_cancelled, handle_all,
}
use grbl_proxy.Pipeline.{load_given, after_job, captured_job_is_handed_over}
use grbl_proxy.Proxy.Handover.{IsStreaming}
use grbl_proxy.Proxy.Lines.{check_job_start}
use grbl_proxy.Proxy.Gcode.{is_program_end_command}
use grbl_proxy.Job.History.{is_meta_name}
use grbl_proxy.Streamer.Delivery.{job_lines}
use grbl_proxy.Protocol.{is_realtime_command}
use grbl_proxy.Pipeline.Bytes.{after_bytes, job_bytes_are_handed_over}
use grbl_proxy.Examples.Streaming.{answers, at_once}
use grbl_proxy.Examples.Proxying.{works, defaults}

abbrev ready : Proxy
ready = record (new_proxy defaults []) { state = passthrough; serial_conn = true }

-- one line is blank
abbrev sent_lines : List Text
sent_lines = codes "G0 X1" ∷ codes " " ∷ codes "M3 S200" ∷ []

-- the handover waits
abbrev slow : Io
slow = record works { waits = true }

abbrev job_done : Proxy
job_done = after_job slow true (codes "g4 p0.0") sent_lines (client_line (codes "M2") true) ready

abbrev three_oks : Env
three_oks = record {
  load = loaded (codes "G0 X1\n" ∷ codes " \n" ∷ codes "M3 S200\n" ∷ codes "M2\n" ∷ []);
  started = 1_010;
  turns = at_once 1_020 [] ∷ at_once 1_030 [] ∷ at_once 1_040 [] ∷ [];
  tail =
      answers 1_050 (codes "ok\r\n")
      ∷ answers 1_060 (codes "ok\r\n")
      ∷ answers 1_070 (codes "ok\r\n")
      ∷ [];
  failsafe = sent;
}

captured_job_is_handed_over_example :
    IsStreaming (gcode_name works.stamp) works.now job_done
    × (job_lines (load_given job_done) ≡ codes "G0 X1" ∷ codes "M3 S200" ∷ codes "M2" ∷ [])
unfolding check_job_start new_proxy is_meta_name is_program_end_command
captured_job_is_handed_over_example =
    captured_job_is_handed_over slow true (codes "g4 p0.0") sent_lines
      (client_line (codes "M2") true) (some (codes "M2")) ready refl refl refl refl
      (record { not_current = refl; not_meta = refl; not_meta_gcode = refl; own_meta = refl }) refl
      refl refl

-- bytes that are ASCII are decoded as they are
abbrev as_is : Text → Text
as_is s = s

abbrev after_chunk : Proxy
after_chunk = after_bytes as_is (λ s h. refl) works (codes "g4 p0.0") sent_lines (codes "M2") ready

job_bytes_are_handed_over_example :
    IsStreaming (gcode_name works.stamp) works.now after_chunk
    × (job_lines (load_given after_chunk) ≡ codes "G0 X1" ∷ codes "M3 S200" ∷ codes "M2" ∷ [])
unfolding is_realtime_command check_job_start new_proxy is_meta_name is_program_end_command
job_bytes_are_handed_over_example =
    job_bytes_are_handed_over as_is (λ s h. refl) works (codes "g4 p0.0") sent_lines (codes "M2")
      (some (codes "M2")) ready refl refl refl refl
      (record { not_current = refl; not_meta = refl; not_meta_gcode = refl; own_meta = refl }) refl
      refl refl

-- A job that is being handed over.
abbrev waiting_job : Proxy
waiting_job =
    handle_all (job_events slow true (codes "g4 p0.0") sent_lines (client_line (codes "M2") true))
      ready

-- A cancel during the handover is lost: the job starts all the same.
cancelled_starts :
    (handle_all ((slow, web_cancelled true) ∷ (slow, handed_over) ∷ []) waiting_job).streamer
    ≡ some (new_streamer default_limits works.now)
unfolding handle_all new_proxy
cancelled_starts = refl

-- A client that is replaced during the handover leaves the proxy executing without a streamer.
replaced_is_stuck :
    (handle_all
      ((slow, client_disconnected) ∷ (slow, handover_cancelled) ∷ (slow, handed_over) ∷ [])
      waiting_job).state
    ≡ executing
unfolding handle_all new_proxy
replaced_is_stuck = refl

stuck_has_no_streamer :
    (handle_all
      ((slow, client_disconnected) ∷ (slow, handover_cancelled) ∷ (slow, handed_over) ∷ [])
      waiting_job).streamer
    ≡ none
unfolding handle_all new_proxy
stuck_has_no_streamer = refl
