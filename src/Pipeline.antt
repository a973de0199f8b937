-- ===== src/Pipeline.antt =====
-- The parts joined: proxy_core.py captures a job in the file of job_buffer.py, and the streamer of
-- streamer.py reads that file and sends it.
pub mod Uploads
pub mod Bytes
pub mod Completes
use grbl_proxy.Prelude.{
  some_injective, ◌≡◌, refl, sym, ap, ◌∙◌, subst, Bool, true, false, ◌&&◌, ◌||◌, ◌==◌, ℕ, Option,
  none, some, List, [], ◌∷◌, ◌++◌, map, length, arith, if◌then◌else◌,
}
use grbl_proxy.Text.{Text, strip, is_empty, drop_while_end}
use grbl_proxy.Text.Lines.{
  text_lines, is_plain, are_plain, ended, neither_of, text_lines-ended, strip-ended,
}
use grbl_proxy.Job.{gcode_name}
use grbl_proxy.Job.Files.{Dir, read}
use grbl_proxy.Job.Contents.{as_file, IsStamp}
use grbl_proxy.Streamer.{Streamer, StreamerResult, new_streamer, default_limits}
use grbl_proxy.Streamer.Frame.{code_lines}
use grbl_proxy.Streamer.Run.{Load, loaded, load_failed, Env, load_lines, is_newline, run, done}
use grbl_proxy.Streamer.Delivery.{job_lines, completed_run_sent_all}
use grbl_proxy.Proxy.{passthrough, executing, Proxy, Io}
use grbl_proxy.Proxy.Lines.{check_job_start}
use grbl_proxy.Proxy.Events.{Event, handle_all}
use grbl_proxy.Proxy.Capture.{are_job_lines, both_of_and, ending, closing, job_events, captured_job}
use grbl_proxy.Proxy.Life.{after_handover}
use grbl_proxy.Proxy.Handover.{IsStreaming, captured_job-IsStreaming, after_handover_disk}

-- open(path) and the iteration of _load_lines: a file that is missing raises an exception
unfoldable pub load_file : Option Text → Load
unfolding text_lines
load_file none = load_failed
load_file (some s) = loaded (text_lines false s)

-- The lines with something on them.
abbrev pub non_blank : List Text → List Text
non_blank [] = []
non_blank (l ∷ ls) = if is_empty (strip l) then non_blank ls else l ∷ non_blank ls

text_lines-as_file :
    (ls : List Text) → are_plain ls ≡ true → text_lines false (as_file ls) ≡ map ended ls
unfolding text_lines
text_lines-as_file [] h = refl
text_lines-as_file (l ∷ ls) h =
    let (a, b) = both_of_and (is_plain l) (are_plain ls) h in
    text_lines-ended l (as_file ls) a ∙ ap (λ t. ended l ∷ t) (text_lines-as_file ls b)

-- Reading a line back without its end.
kept :
    (a b e : Bool) (c : ℕ) (t l : Text)
    → a ≡ false
    → b ≡ false
    → t ≡ l
    → (if e && (b || a) then [] else c ∷ t) ≡ c ∷ l
kept a b e c t l h k eq = ground arith

rstrip-ended : (l : Text) → is_plain l ≡ true → drop_while_end is_newline (ended l) ≡ l
unfolding drop_while_end
rstrip-ended [] h = refl
rstrip-ended (c ∷ l) h =
    let (a, b, d) = neither_of (c == 10) (c == 13) (is_plain l) h in
    kept (c == 10) (c == 13) (is_empty (drop_while_end is_newline (ended l))) c
      (drop_while_end is_newline (ended l)) l a b (rstrip-ended l d)

load_lines-ended : (ls : List Text) → are_plain ls ≡ true → load_lines (map ended ls) ≡ non_blank ls
unfolding load_lines
load_lines-ended [] h = refl
load_lines-ended (l ∷ ls) h =
    let (a, b) = both_of_and (is_plain l) (are_plain ls) h in
    let rest = load_lines (map ended ls) in
    let line : Text → Text = drop_while_end is_newline in
    ap (λ e. if e then rest else line (ended l) ∷ rest) (strip-ended l)
    ∙ ap (λ t. if is_empty (strip l) then rest else t ∷ rest) (rstrip-ended l a)
    ∙ ap (λ t. if is_empty (strip l) then t else l ∷ t) (load_lines-ended ls b)

-- A file of lines without an end of line in them is loaded as its lines that are not blank.
pub load_file-as_file :
    (ls : List Text)
    → are_plain ls ≡ true
    → job_lines (load_file (some (as_file ls))) ≡ non_blank ls
unfolding load_file
load_file-as_file ls h = ap load_lines (text_lines-as_file ls h) ∙ load_lines-ended ls h

-- What a streamer has sent of the lines `ls` when it has ended with the result `r`.
abbrev pub HasSentAll : List Text → StreamerResult → Streamer → Type 0
HasSentAll ls r t = (code_lines t.written ≡ ls) × (r.lines_sent ≡ length ls)

-- The file of the path that the streamer was given.
abbrev pub given_file : Option Text → Dir → Option Text
given_file none d = none
given_file (some path) d = read path d

-- Loading the file that the streamer of the proxy was given, as it is then.
abbrev pub load_given : Proxy → Load
load_given p = load_file (given_file p.gcode_path p.disk)

-- The proxy when a captured job has been handed over.
abbrev pub after_job : Io → Bool → Text → List Text → Event → Proxy → Proxy
after_job io sink start ls e p = after_handover io (handle_all (job_events io sink start ls e) p)

-- A job that a client has sent is handed to a streamer as it was sent: if the proxy, in passthrough
-- and with its serial connection, is sent the start marker, the job file can be opened, and lines
-- follow that do not end the job and hold no CR or LF, and then an event that ends it, then, once the
-- handover has ended, the proxy executes with a new streamer, which was given the path of a file
-- whose lines that are not blank are those sent, in order, with the line that ends the program, or
-- else M2, as the last.
pub captured_job_is_handed_over :
    (io : Io) (sink : Bool) (start : Text) (ls : List Text) (e : Event) (last : Option Text)
    (p : Proxy)
    → p.state ≡ passthrough
    → p.serial_conn ≡ true
    → check_job_start p start ≡ true
    → io.open_ok ≡ true
    → IsStamp io.stamp
    → are_job_lines p.config ls ≡ true
    → ending p.config e ≡ some last
    → are_plain (ls ++ closing last) ≡ true
    → IsStreaming (gcode_name io.stamp) io.now (after_job io sink start ls e p)
      × (job_lines (load_given (after_job io sink start ls e p)) ≡ non_blank (ls ++ closing last))
captured_job_is_handed_over io sink start ls e last p st conn m o stamp js en plain =
    let q = handle_all (job_events io sink start ls e) p in
    let streaming = captured_job-IsStreaming io sink start ls e last p st conn m o js en in
    let file = captured_job io sink start ls e last p st m o stamp js en in
    (
      streaming,
      ap (λ g. job_lines (load_file (given_file g (after_handover io q).disk))) streaming.2
          ∙ ap (λ d. job_lines (load_file (read (gcode_name io.stamp) d)))
              (after_handover_disk io q)
          ∙ ap (λ f. job_lines (load_file f)) file
          ∙ load_file-as_file (ls ++ closing last) plain,
    )

-- What a streamer has sent that was given a file with these lines.
pub of_lines :
    (ls : List Text) (env : Env) (now : ℕ) (l : Load) (r : StreamerResult) (t : Streamer)
    → job_lines l ≡ ls
    → env.load ≡ l
    → run env (new_streamer default_limits now) ≡ done r t
    → r.completed ≡ true
    → HasSentAll ls r t
of_lines ls env now l r t lines load e c =
    let sent = completed_run_sent_all env default_limits now r t e c in
    let same_lines = ap job_lines load ∙ lines in
    (sent.0 ∙ same_lines, sent.1 ∙ ap length same_lines)
