-- ===== src/Pipeline/Bytes.antt =====
-- The parts joined: from the bytes that a client sends to tcp_server.py to the lines that the streamer
-- has sent to the controller.
use grbl_proxy.Prelude.{
  some_injective, ◌≡◌, refl, sym, ap, subst, ◌∙◌, Bool, true, false, not, ◌&&◌, ◌||◌, Option, none,
  some, List, [], ◌∷◌, ◌++◌, ltb, ◌==◌, arith, if◌then◌else◌,
}
use grbl_proxy.Text.{Text, codes, is_empty}
use grbl_proxy.Text.Lines.{is_plain, are_plain}
use grbl_proxy.Protocol.{is_realtime_command}
use grbl_proxy.Job.{gcode_name}
use grbl_proxy.Job.Contents.{as_file, IsStamp}
use grbl_proxy.Streamer.{Streamer}
use grbl_proxy.Proxy.{passthrough, Proxy, Io, Config}
use grbl_proxy.Proxy.Gcode.{is_program_end_command}
use grbl_proxy.Proxy.Lines.{check_job_start, matches_marker}
use grbl_proxy.Proxy.Events.{client_line, handle_all}
use grbl_proxy.Proxy.Capture.{are_job_lines, both_of_and, ending, closing, lines_of, job_events}
use grbl_proxy.Tcp.{in_turn, route_bytes}
use grbl_proxy.Tcp.Relay.{is_plain_byte, all_plain, with_io, is_ascii}
use grbl_proxy.Tcp.Lines.{are_lines, chunk_is_lines}
use grbl_proxy.Pipeline.{load_given, non_blank, after_job, captured_job_is_handed_over}
use grbl_proxy.Proxy.Handover.{IsStreaming}
use grbl_proxy.Streamer.Delivery.{job_lines}

lines_of-snoc :
    (io : Io) (ls : List Text) (l : Text)
    → lines_of io true (ls ++ l ∷ []) ≡ lines_of io true ls ++ (io, client_line l true) ∷ []
lines_of-snoc io [] l = refl
lines_of-snoc io (k ∷ ls) l = ap (λ es. (io, client_line k true) ∷ es) (lines_of-snoc io ls l)

are_lines-append : (ks ls : List Text) → are_lines (ks ++ ls) ≡ (are_lines ks && are_lines ls)
are_lines-append [] ls = refl
are_lines-append (k ∷ ks) ls = ground (arith, are_lines-append ks ls)

plain_byte_tests :
    (a b lf cr rest : Bool)
    → (a && not b && not (cr || lf)) ≡ true
    → rest ≡ true
    → (not lf && not cr && rest) ≡ true
plain_byte_tests a b lf cr rest h k = ground arith

is_plain-bytes : (s : Text) → all_plain s ≡ true → is_plain s ≡ true
is_plain-bytes [] h = refl
is_plain-bytes (c ∷ s) h =
    let (a, b) = both_of_and (is_plain_byte c) (all_plain s) h in
    plain_byte_tests (ltb c 128) (is_realtime_command c) (c == 10) (c == 13) (is_plain s) a
      (is_plain-bytes s b)

are_plain-lines : (ls : List Text) → are_lines ls ≡ true → are_plain ls ≡ true
are_plain-lines [] h = refl
are_plain-lines (l ∷ ls) h =
    let (a, b) = both_of_and (all_plain l) (are_lines ls) h in
    ap (λ x. x && are_plain ls) (is_plain-bytes l a) ∙ are_plain-lines ls b

-- The lines that end the job file are plain if the last line is.
closing-lines : (last : Text) → all_plain last ≡ true → are_lines (closing (some last)) ≡ true
unfolding is_realtime_command
closing-lines last h =
    elim (is_program_end_command last)
      as (λ b. are_lines (if b then last ∷ [] else last ∷ codes "M2" ∷ []) ≡ true) [
        | true ↦ ap (λ x. x && true) h
        | false ↦ ap (λ x. x && true) h
      ]

-- A line that ends a job gives it itself as the last line, or none.
last_line :
    (P : Option Text → Type 0) (b m e : Bool) (line : Text) (last : Option Text)
    → (if b then none else if m then some none else if e then some (some line) else none)
      ≡ some last
    → P none
    → P (some line)
    → P last
last_line P true m e line last h x y = absurd (ground arith)
last_line P false true e line last h x y = subst P (some_injective none last h) x
last_line P false false true line last h x y = subst P (some_injective (some line) last h) y
last_line P false false false line last h x y = absurd (ground arith)

ending-lines :
    (c : Config) (end : Text) (last : Option Text)
    → ending c (client_line end true) ≡ some last
    → all_plain end ≡ true
    → are_lines (closing last) ≡ true
unfolding is_realtime_command
ending-lines c end last h plain =
    last_line (λ o. are_lines (closing o) ≡ true) (is_empty end) (matches_marker c.end_marker end)
      (is_program_end_command end) end last h refl (closing-lines end plain)

job-are_plain :
    (c : Config) (ls : List Text) (end : Text) (last : Option Text)
    → ending c (client_line end true) ≡ some last
    → are_lines ls ≡ true
    → all_plain end ≡ true
    → are_plain (ls ++ closing last) ≡ true
job-are_plain c ls end last h a b = are_plain-lines (ls ++ closing last) (
    are_lines-append ls (closing last)
    ∙ ap (λ x. x && are_lines (closing last)) a
    ∙ ending-lines c end last h b)

-- The lines of a job that a line ends.
abbrev pub whole_job : Text → List Text → Text → List Text
whole_job start ls end = start ∷ ls ++ end ∷ []

job_events-lines :
    (io : Io) (start : Text) (ls : List Text) (end : Text)
    → lines_of io true (whole_job start ls end) ≡ job_events io true start ls (client_line end true)
job_events-lines io start ls end =
    ap (λ es. (io, client_line start true) ∷ es) (lines_of-snoc io ls end)

job_plain :
    (start : Text) (ls : List Text) (end : Text)
    → are_lines (whole_job start ls end) ≡ true
    → (are_lines ls ≡ true) × (all_plain end ≡ true)
job_plain start ls end h =
    let tail = both_of_and (all_plain start) (are_lines (ls ++ end ∷ [])) h in
    let parts =
      both_of_and (are_lines ls) (all_plain end && true)
        (sym (are_lines-append ls (end ∷ [])) ∙ tail.1) in
    (parts.0, (both_of_and (all_plain end) true parts.1).0)

module _ (decode : Text → Text) (decode_ascii : (s : Text) → is_ascii s ≡ true → decode s ≡ s) where
  -- The proxy after the bytes of a job.
  abbrev pub after_bytes : Io → Text → List Text → Text → Proxy → Proxy
  after_bytes io start ls end p =
      (route_bytes decode io (with_io io (as_file (whole_job start ls end)))
        (record { proxy = p; line_buf = [] })).0.proxy

  after_bytes-events :
      (io : Io) (start : Text) (ls : List Text) (end : Text) (p : Proxy)
      → p.serial_conn ≡ true
      → are_lines (whole_job start ls end) ≡ true
      → after_bytes io start ls end p
        ≡ after_job (in_turn io) true start ls (client_line end true) p
  after_bytes-events io start ls end p conn plain =
      ap (λ r. r.proxy)
        (chunk_is_lines decode decode_ascii io (whole_job start ls end) p conn plain)
      ∙ ap (λ es. handle_all es p) (job_events-lines (in_turn io) start ls end)

  -- The bytes of a job are handed to a streamer as they were sent: if the proxy, in passthrough and
  -- knowing its serial connection, with no part of a line buffered, is sent the whole lines of a job in
  -- one chunk, ASCII without realtime commands and carriage returns, and the job file can be opened,
  -- then the proxy executes with a new streamer, which was given the path of a file whose lines that
  -- are not blank are those between the markers, in order, with the line that ends the program, or else
  -- M2, as the last.
  pub job_bytes_are_handed_over :
      (io : Io) (start : Text) (ls : List Text) (end : Text) (last : Option Text) (p : Proxy)
      → p.state ≡ passthrough
      → p.serial_conn ≡ true
      → check_job_start p start ≡ true
      → io.open_ok ≡ true
      → IsStamp io.stamp
      → are_lines (whole_job start ls end) ≡ true
      → are_job_lines p.config ls ≡ true
      → ending p.config (client_line end true) ≡ some last
      → IsStreaming (gcode_name io.stamp) io.now (after_bytes io start ls end p)
        × (job_lines (load_given (after_bytes io start ls end p)) ≡ non_blank (ls ++ closing last))
  job_bytes_are_handed_over io start ls end last p st conn m o stamp plain js en =
      let (a, b) = job_plain start ls end plain in
      subst
        (λ q.
          IsStreaming (gcode_name io.stamp) io.now q
          × (job_lines (load_given q) ≡ non_blank (ls ++ closing last)))
        (sym (after_bytes-events io start ls end p conn plain))
        (captured_job_is_handed_over (in_turn io) true start ls (client_line end true) last p st
          conn m o stamp js en (job-are_plain p.config ls end last en a b))
