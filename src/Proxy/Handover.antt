-- ===== src/Proxy/Handover.antt =====
-- The streamer of proxy_core.py that a captured job is handed to.
use grbl_proxy.Prelude.{
  ℕ, ◌≡◌, refl, sym, ap, subst, ◌∙◌, Bool, true, false, Option, none, some, List, [], ◌∷◌, ◌++◌,
  arith,
}
use grbl_proxy.Text.{Text}
use grbl_proxy.Streamer.{new_streamer, default_limits}
use grbl_proxy.Job.{JobBuffer, JobMetadata, gcode_name, finalize}
use grbl_proxy.Proxy.{passthrough, executing, Proxy, Io, Config, waiting}
use grbl_proxy.Proxy.Life.{
  close_program, await_reader, hand_over, after_handover, enter_buffering, start_streamer,
  finalize_by, finalize_job,
}
use grbl_proxy.Proxy.Lines.{
  process_client_line, line_by_state, line_in_passthrough, buffer_line, check_job_start,
}
use grbl_proxy.Proxy.Events.{Event, client_line, handle, handle_all}
use grbl_proxy.Proxy.Capture.{
  IsCapturing, is_job_line, are_job_lines, job_line_buffered, lines_of, handle_line, both_of_and,
  line-IsCapturing, lines-IsCapturing, start-IsCapturing, ending, ending_cases, job_events,
  handle_all-append,
}

pub buffer_line_conn :
    (line : Text) (b : Option JobBuffer) (p : Proxy)
    → (buffer_line line b p).serial_conn ≡ p.serial_conn
buffer_line_conn line none p = refl
buffer_line_conn line (some b) p = refl

job_line_conn :
    (c : Config) (line : Text) (io : Io) (sink : Bool) (ls : List Text) (p : Proxy)
    → is_job_line c line ≡ true
    → IsCapturing c ls p
    → (handle io (client_line line sink) p).serial_conn ≡ p.serial_conn
job_line_conn c line io sink ls p j h =
    ap (λ q. q.serial_conn) (handle_line io line sink p h.state)
    ∙ ap (λ q. q.serial_conn) (job_line_buffered c line io p j h.config)
    ∙ buffer_line_conn line p.buffer p

lines_conn :
    (c : Config) (ks ls : List Text) (io : Io) (sink : Bool) (p : Proxy)
    → are_job_lines c ls ≡ true
    → IsCapturing c ks p
    → (handle_all (lines_of io sink ls) p).serial_conn ≡ p.serial_conn
unfolding handle_all
lines_conn c ks [] io sink p j h = refl
lines_conn c ks (l ∷ ls) io sink p j h =
    let p' = handle io (client_line l sink) p in
    let (j', js) = both_of_and (is_job_line c l) (are_job_lines c ls) j in
    let h' : IsCapturing c (ks ++ l ∷ []) p' =
      subst (λ q. IsCapturing c (ks ++ l ∷ []) q) (sym (handle_line io l sink p h.state))
        (line-IsCapturing c ks l io p j' h) in
    lines_conn c (ks ++ l ∷ []) ls io sink p' js h' ∙ job_line_conn c l io sink ks p j' h

pub enter_buffering_conn :
    (io : Io) (p : Proxy) → (enter_buffering io p).0.serial_conn ≡ p.serial_conn
unfolding enter_buffering
enter_buffering_conn io p = ground arith

start_conn :
    (io : Io) (start : Text) (sink : Bool) (p : Proxy)
    → p.state ≡ passthrough
    → check_job_start p start ≡ true
    → (handle io (client_line start sink) p).serial_conn ≡ p.serial_conn
unfolding handle process_client_line line_by_state line_in_passthrough
start_conn io start sink p s m =
    subst (λ t. (line_by_state io sink start t p).0.serial_conn ≡ p.serial_conn) (sym s)
      (rw m (enter_buffering_conn io p))

-- The proxy executes, with a new streamer that was given the path of a file.
abbrev pub IsStreaming : Text → ℕ → Proxy → Type 0
IsStreaming path now p =
    (p.state ≡ executing)
    × (p.streamer ≡ some (new_streamer default_limits now))
    × (p.gcode_path ≡ some path)

-- A handover under way ends with a streamer, if the proxy has been given its serial connection.
pub await_reader-IsStreaming :
    (io : Io) (meta : JobMetadata) (p : Proxy)
    → p.state ≡ executing
    → p.serial_conn ≡ true
    → p.handover ≡ waiting meta
    → IsStreaming meta.path io.now (after_handover io (await_reader io p))
unfolding await_reader hand_over start_streamer
await_reader-IsStreaming io meta p s c h = (ground arith, ground arith, ground arith)

finalize_by-IsStreaming :
    (io : Io) (last : Option Text) (b : JobBuffer) (p : Proxy)
    → p.serial_conn ≡ true
    → IsStreaming (gcode_name io.stamp) io.now (after_handover io (finalize_by io last (some b) p))
unfolding finalize
finalize_by-IsStreaming io last b p h =
    let (b', d) = close_program last (b, p.disk) in
    let (meta, b'', d') = finalize io.stamp io.json io.now b' d in
    await_reader-IsStreaming io meta
      (record p {
        idle_armed = false;
        disk = d';
        buffer = none;
        state = executing;
        serial_readable = false;
        serial_yield = true;
        handover = waiting meta;
      })
      refl h refl

finalize_job-IsStreaming :
    (c : Config) (ls : List Text) (io : Io) (last : Option Text) (p : Proxy)
    → p.serial_conn ≡ true
    → IsCapturing c ls p
    → IsStreaming (gcode_name io.stamp) io.now (after_handover io (finalize_job io last p))
unfolding finalize_job
finalize_job-IsStreaming c ls io last p s h =
    subst
      (λ o. IsStreaming (gcode_name io.stamp) io.now (after_handover io (finalize_by io last o p)))
      (sym h.buffer) (finalize_by-IsStreaming io last h.job p s)

-- The event that ends a captured job hands the job to a new streamer, if the proxy has been given
-- its serial connection.
pub captured_job-IsStreaming :
    (io : Io) (sink : Bool) (start : Text) (ls : List Text) (e : Event) (last : Option Text)
    (p : Proxy)
    → p.state ≡ passthrough
    → p.serial_conn ≡ true
    → check_job_start p start ≡ true
    → io.open_ok ≡ true
    → are_job_lines p.config ls ≡ true
    → ending p.config e ≡ some last
    → IsStreaming
        (gcode_name io.stamp)
        io.now
        (after_handover io (handle_all (job_events io sink start ls e) p))
unfolding handle_all
captured_job-IsStreaming io sink start ls e last p s conn m o js en =
    let p' = handle io (client_line start sink) p in
    let q = handle_all (lines_of io sink ls) p' in
    let path = gcode_name io.stamp in
    let begun : IsCapturing p.config [] p' = start-IsCapturing io start sink p s m o in
    let held : IsCapturing p.config ls q = lines-IsCapturing p.config [] ls io sink p' js begun in
    let conn' : q.serial_conn ≡ true =
      lines_conn p.config [] ls io sink p' js begun ∙ start_conn io start sink p s m ∙ conn in
    subst (λ r. IsStreaming path io.now (after_handover io r))
      (sym (handle_all-append (lines_of io sink ls) ((io, e) ∷ []) p'))
      (ending_cases p.config ls io e last q (λ r. IsStreaming path io.now (after_handover io r)) en
        held (λ r h k. finalize_job-IsStreaming p.config ls io last r (k ∙ conn') h))

-- The end of a handover does not look at the files.
pub after_handover_disk : (io : Io) (p : Proxy) → (after_handover io p).disk ≡ p.disk
unfolding hand_over start_streamer
after_handover_disk io p = ground arith
