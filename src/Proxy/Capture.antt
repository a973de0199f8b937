-- ===== src/Proxy/Capture.antt =====
-- The job file that proxy_core.py makes of the lines it buffers.
use grbl_proxy.Prelude.{
  ◌≡◌, ◌≢◌, refl, sym, ap, subst, ◌∙◌, Bool, true, false, not, ◌&&◌, Option, none, some, List, [],
  ◌∷◌, ◌++◌, arith, append_assoc, append-nil, if◌then◌else◌,
}
use grbl_proxy.Text.{Text, is_empty, codes}
use grbl_proxy.Job.{JobBuffer, new_buffer, open_buffer, write_line, finalize, gcode_name}
use grbl_proxy.Job.Files.{Dir, read}
use grbl_proxy.Job.Contents.{
  Holds, HoldsIn, IsStamp, as_file, write_line-Holds, open_buffer-Holds, finalize_contents,
}
use grbl_proxy.Proxy.{passthrough, buffering, Proxy, Io, Config}
use grbl_proxy.Proxy.Gcode.{is_program_end_command}
use grbl_proxy.Proxy.Life.{
  enter_buffering, await_reader, hand_over, start_streamer, close_program, finalize_by,
  finalize_job, on_idle_timeout,
}
use grbl_proxy.Proxy.Lines.{
  process_client_line, line_by_state, line_in_passthrough, line_in_buffering,
  line_in_buffering_cases, buffer_line, check_job_start, check_job_end, matches_marker,
}
use grbl_proxy.Proxy.Events.{Event, client_line, idle_timeout, handle, handle_all}

-- The proxy is buffering the lines `ls`, under the markers of `c`.
pub record IsCapturing (c : Config) (ls : List Text) (p : Proxy) : Type 0 where
  pub config : p.config ≡ c
  pub state : p.state ≡ buffering
  pub job : JobBuffer
  pub buffer : p.buffer ≡ some job
  pub holds : Holds ls job p.disk

enter_buffering-IsCapturing :
    (io : Io) (p : Proxy) → io.open_ok ≡ true → IsCapturing p.config [] (enter_buffering io p).0
unfolding enter_buffering
enter_buffering-IsCapturing io p h = rw h (record {
  config = refl;
  state = refl;
  job = (open_buffer (new_buffer io.now p.config.max_history) p.disk).0;
  buffer = refl;
  holds = open_buffer-Holds io.now p.config.max_history p.disk;
})

buffer_line-IsCapturing :
    (c : Config) (ls : List Text) (line : Text) (p : Proxy)
    → IsCapturing c ls p
    → IsCapturing c (ls ++ line ∷ []) (record (buffer_line line p.buffer p) { idle_armed = true })
buffer_line-IsCapturing c ls line p h = rw h.buffer (record {
  config = h.config;
  state = h.state;
  job = (write_line line h.job p.disk).0;
  buffer = refl;
  holds = write_line-Holds line ls h.job p.disk h.holds;
})

-- The lines that end the job file: the last line, and M2 if that does not end the program.
abbrev pub closing : Option Text → List Text
closing none = codes "M2" ∷ []
closing (some line) = if is_program_end_command line then line ∷ [] else line ∷ codes "M2" ∷ []

close_program-Holds :
    (last : Option Text) (ls : List Text) (b : JobBuffer) (d : Dir)
    → Holds ls b d
    → HoldsIn (ls ++ closing last) (close_program last (b, d))
unfolding close_program
close_program-Holds none ls b d h = write_line-Holds (codes "M2") ls b d h
close_program-Holds (some line) ls b d h =
    let (b', d') = write_line line b d in
    let h' : Holds (ls ++ line ∷ []) b' d' = write_line-Holds line ls b d h in
    elim (is_program_end_command line)
      as (λ e.
        HoldsIn (ls ++ (if e then line ∷ [] else line ∷ codes "M2" ∷ []))
          (if e then (b', d') else write_line (codes "M2") b' d')) [
            | true ↦ h'
            | false ↦
                subst (λ ks. HoldsIn ks (write_line (codes "M2") b' d'))
                  (append_assoc ls (line ∷ []) (codes "M2" ∷ []))
                  (write_line-Holds (codes "M2") (ls ++ line ∷ []) b' d' h')
          ]

-- The file of the job of the proxy `p`, archived under the stamp of `io`, has these lines.
abbrev pub IsArchived : Io → List Text → Proxy → Type 0
IsArchived io ls p = read (gcode_name io.stamp) p.disk ≡ some (as_file ls)

finalize_by_disk :
    (io : Io) (last : Option Text) (b : JobBuffer) (p : Proxy)
    → (finalize_by io last (some b) p).disk
      ≡ (finalize io.stamp io.json io.now
          (close_program last (b, p.disk)).0
          (close_program last (b, p.disk)).1).2
unfolding await_reader hand_over start_streamer
finalize_by_disk io last b p = ground arith

finalize_job-IsArchived :
    (c : Config) (ls : List Text) (io : Io) (last : Option Text) (p : Proxy)
    → IsStamp io.stamp
    → IsCapturing c ls p
    → IsArchived io (ls ++ closing last) (finalize_job io last p)
unfolding finalize_job
finalize_job-IsArchived c ls io last p st h =
    let (b, d) = close_program last (h.job, p.disk) in
    let named : Dir → Option Text = λ e. read (gcode_name io.stamp) e in
    ap (λ o. named (finalize_by io last o p).disk) h.buffer
    ∙ ap named (finalize_by_disk io last h.job p)
    ∙ (finalize_contents io.stamp io.json io.now (ls ++ closing last) b d st
        (close_program-Holds last ls h.job p.disk h.holds)).0

-- A line that is buffered: it is not blank and does not end the job.
abbrev pub is_job_line : Config → Text → Bool
is_job_line c line =
    not (is_empty line)
    && not (matches_marker c.end_marker line)
    && not (is_program_end_command line)

abbrev pub are_job_lines : Config → List Text → Bool
are_job_lines c [] = true
are_job_lines c (l ∷ ls) = is_job_line c l && are_job_lines c ls

-- Which last line an event gives a job that it ends, if it ends it.
abbrev pub ending : Config → Event → Option (Option Text)
ending c idle_timeout = some none
ending c (client_line line sink) =
    if is_empty line
    then none
    else if matches_marker c.end_marker line
    then some none
    else if is_program_end_command line
    then some (some line)
    else none
ending c _ = none

check_job_end_config :
    (c : Config) (line : Text) (p : Proxy)
    → p.config ≡ c
    → check_job_end p line ≡ matches_marker c.end_marker line
unfolding check_job_end
check_job_end_config c line p h = ap (λ k. matches_marker k.end_marker line) h

-- A line that does not end the job is only buffered.
pub job_line_buffered :
    (c : Config) (line : Text) (io : Io) (p : Proxy)
    → is_job_line c line ≡ true
    → p.config ≡ c
    → (line_in_buffering io line p).0 ≡ record (buffer_line line p.buffer p) { idle_armed = true }
job_line_buffered c line io p j h =
    line_in_buffering_cases (λ r. r.0 ≡ record (buffer_line line p.buffer p) { idle_armed = true })
      io line p (λ e. absurd (ground arith))
      (λ e. absurd (ground (arith, check_job_end_config c line p h))) (λ _ e. absurd (ground arith))
      (λ _ _. refl)

pub line-IsCapturing :
    (c : Config) (ls : List Text) (line : Text) (io : Io) (p : Proxy)
    → is_job_line c line ≡ true
    → IsCapturing c ls p
    → IsCapturing c (ls ++ line ∷ []) (line_in_buffering io line p).0
line-IsCapturing c ls line io p j h =
    subst (λ q. IsCapturing c (ls ++ line ∷ []) q) (sym (job_line_buffered c line io p j h.config))
      (buffer_line-IsCapturing c ls line p h)

abbrev pub lines_of : Io → Bool → List Text → List (Io × Event)
lines_of io sink [] = []
lines_of io sink (l ∷ ls) = (io, client_line l sink) ∷ lines_of io sink ls

pub handle_line :
    (io : Io) (line : Text) (sink : Bool) (p : Proxy)
    → p.state ≡ buffering
    → handle io (client_line line sink) p ≡ (line_in_buffering io line p).0
unfolding handle process_client_line line_by_state
handle_line io line sink p h = ap (λ s. (line_by_state io sink line s p).0) h

pub both_of_and : (a b : Bool) → (a && b) ≡ true → (a ≡ true) × (b ≡ true)
both_of_and a b h = ground arith

pub lines-IsCapturing :
    (c : Config) (ks ls : List Text) (io : Io) (sink : Bool) (p : Proxy)
    → are_job_lines c ls ≡ true
    → IsCapturing c ks p
    → IsCapturing c (ks ++ ls) (handle_all (lines_of io sink ls) p)
unfolding handle_all
lines-IsCapturing c ks [] io sink p j h = subst (λ us. IsCapturing c us p) (sym (append-nil ks)) h
lines-IsCapturing c ks (l ∷ ls) io sink p j h =
    let p' = handle io (client_line l sink) p in
    let (j', js) = both_of_and (is_job_line c l) (are_job_lines c ls) j in
    let first : IsCapturing c (ks ++ l ∷ []) p' =
      subst (λ q. IsCapturing c (ks ++ l ∷ []) q) (sym (handle_line io l sink p h.state))
        (line-IsCapturing c ks l io p j' h) in
    subst (λ us. IsCapturing c us (handle_all (lines_of io sink ls) p'))
      (append_assoc ks (l ∷ []) ls) (lines-IsCapturing c (ks ++ l ∷ []) ls io sink p' js first)

pub start-IsCapturing :
    (io : Io) (start : Text) (sink : Bool) (p : Proxy)
    → p.state ≡ passthrough
    → check_job_start p start ≡ true
    → io.open_ok ≡ true
    → IsCapturing p.config [] (handle io (client_line start sink) p)
unfolding handle process_client_line line_by_state line_in_passthrough
start-IsCapturing io start sink p s m o =
    subst (λ t. IsCapturing p.config [] (line_by_state io sink start t p).0) (sym s)
      (rw m (enter_buffering-IsCapturing io p o))

ending_tests :
    (b m e : Bool) (line : Text) (last : Option Text)
    → (if b then none else if m then some none else if e then some (some line) else none)
      ≡ some last
    → (b ≢ true)
      × (m ≡ true → none ≡ last)
      × (m ≡ false → e ≡ true → some line ≡ last)
      × (m ≡ false → e ≢ false)
ending_tests b m e line last h =
    (λ x. ground arith, λ x. ground arith, λ x y. ground arith, λ x y. ground arith)

-- What holds of the proxy after a job that is being captured has been finalized.
abbrev OnFinalize : Config → List Text → Io → Option Text → Proxy → (Proxy → Type 0) → Type 0
OnFinalize c ls io last p P =
    (q : Proxy) → IsCapturing c ls q → q.serial_conn ≡ p.serial_conn → P (finalize_job io last q)

line_ending_cases :
    (c : Config) (ls : List Text) (io : Io) (line : Text) (sink : Bool) (last : Option Text)
    (p : Proxy) (P : Proxy → Type 0)
    → ending c (client_line line sink) ≡ some last
    → IsCapturing c ls p
    → OnFinalize c ls io last p P
    → P (line_in_buffering io line p).0
line_ending_cases c ls io line sink last p P en h k =
    let by : (o : Option Text) → o ≡ last → P (finalize_job io o p) =
      λ o e. subst (λ u. P (finalize_job io u p)) (sym e) (k p h refl) in
    let ends =
      ending_tests (is_empty line) (matches_marker c.end_marker line) (is_program_end_command line)
        line last en in
    let marker = check_job_end_config c line p h.config in
    line_in_buffering_cases (λ r. P r.0) io line p (λ e. absurd (ends.0 e))
      (λ e. by none (ends.1 (sym marker ∙ e))) (λ m e. by (some line) (ends.2 (sym marker ∙ m) e))
      (λ m e. absurd (ends.3 (sym marker ∙ m) e))

idle_last : (last : Option Text) → some none ≡ some last → none ≡ last
idle_last last h = ground arith

-- An event that ends a job that is being captured finalizes the job.
pub ending_cases :
    (c : Config) (ls : List Text) (io : Io) (e : Event) (last : Option Text) (p : Proxy)
    (P : Proxy → Type 0)
    → ending c e ≡ some last
    → IsCapturing c ls p
    → OnFinalize c ls io last p P
    → P (handle io e p)
unfolding handle on_idle_timeout
ending_cases c ls io (client_line line sink) last p P en h k =
    subst P (sym (handle_line io line sink p h.state))
      (line_ending_cases c ls io line sink last p P en h k)
ending_cases c ls io idle_timeout last p P en h k =
    let p' = record p { idle_armed = false } in
    let h' : IsCapturing c ls p' = record {
      config = h.config;
      state = h.state;
      job = h.job;
      buffer = h.buffer;
      holds = h.holds;
    } in
    subst (λ s. P (elim s [ buffering ↦ finalize_job io none p' | _ ↦ p' ])) (sym h.state)
      (subst (λ o. P (finalize_job io o p')) (sym (idle_last last en)) (k p' h' refl))
ending_cases c ls io _ last p P en h k = absurd (ground arith)

-- The events of one job: the line that starts it, its lines, the event that ends it.
abbrev pub job_events : Io → Bool → Text → List Text → Event → List (Io × Event)
job_events io sink start ls e = (io, client_line start sink) ∷ lines_of io sink ls ++ (io, e) ∷ []

pub handle_all-append :
    (es fs : List (Io × Event)) (p : Proxy)
    → handle_all (es ++ fs) p ≡ handle_all fs (handle_all es p)
unfolding handle_all
handle_all-append [] fs p = refl
handle_all-append ((io, e) ∷ es) fs p = handle_all-append es fs (handle io e p)

-- A job that is buffered from passthrough is archived as it was sent: if the start marker comes and
-- the job file can be opened, then lines that are not blank and do not end the job, then the end
-- marker, a line that ends a program, or the idle timeout, then the file of the job holds exactly
-- those lines in order, with the line that ends the program, or else M2, as the last line.
pub captured_job :
    (io : Io) (sink : Bool) (start : Text) (ls : List Text) (e : Event) (last : Option Text)
    (p : Proxy)
    → p.state ≡ passthrough
    → check_job_start p start ≡ true
    → io.open_ok ≡ true
    → IsStamp io.stamp
    → are_job_lines p.config ls ≡ true
    → ending p.config e ≡ some last
    → IsArchived io (ls ++ closing last) (handle_all (job_events io sink start ls e) p)
unfolding handle_all
captured_job io sink start ls e last p s m o st js en =
    let p' = handle io (client_line start sink) p in
    let q = handle_all (lines_of io sink ls) p' in
    let held : IsCapturing p.config ls q =
      lines-IsCapturing p.config [] ls io sink p' js (start-IsCapturing io start sink p s m o) in
    subst (λ r. IsArchived io (ls ++ closing last) r)
      (sym (handle_all-append (lines_of io sink ls) ((io, e) ∷ []) p'))
      (ending_cases p.config ls io e last q (IsArchived io (ls ++ closing last)) en held
        (λ r h _. finalize_job-IsArchived p.config ls io last r st h))
