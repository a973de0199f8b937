-- ===== src/Proxy/Lines.antt =====
-- process_client_line of proxy_core.py.
use grbl_proxy.Prelude.{
  ◌≡◌, refl, Bool, true, false, not, ◌&&◌, ◌||◌, Option, none, some, List, [], ◌∷◌, ◌++◌,
  if◌then◌else◌,
}
use grbl_proxy.Text.{Text, codes, same, is_empty, strip, upper, starts_with}
use grbl_proxy.Job.{JobBuffer, newline, write_line}
use grbl_proxy.Proxy.{
  ProxyState, disconnected, passthrough, buffering, executing, paused, error, Proxy, Effect, reply,
  ok, error9, forward, dropped, sunk, raised, Io, write_serial,
}
use grbl_proxy.Proxy.Gcode.{normalize_gcode, is_program_end_command}
use grbl_proxy.Proxy.Life.{enter_buffering, finalize_job}

-- a blank marker never matches
unfoldable pub matches_marker : Text → Text → Bool
unfolding strip same normalize_gcode
matches_marker marker line =
    not (is_empty (strip marker)) && same (normalize_gcode line) (normalize_gcode marker)

-- _check_job_start
unfoldable pub check_job_start : Proxy → Text → Bool
unfolding matches_marker
check_job_start p line = matches_marker p.config.start_marker line

-- _check_job_end
unfoldable pub check_job_end : Proxy → Text → Bool
unfolding matches_marker
check_job_end p line = matches_marker p.config.end_marker line

-- a write error is logged and raised again
abbrev pass_on : Io → Bool → Text → List Effect
pass_on io sink bytes =
    if sink
    then sunk bytes ∷ []
    else if io.serial_ok
    then forward bytes ∷ []
    else dropped bytes ∷ raised ∷ []

unfoldable pub line_in_passthrough : Io → Bool → Text → Proxy → Proxy × List Effect
unfolding check_job_start enter_buffering
line_in_passthrough io sink line p =
    if check_job_start p line then enter_buffering io p else (p, pass_on io sink (line ++ newline))

unfoldable pub is_laser_off : Text → Bool
unfolding normalize_gcode same starts_with
is_laser_off line =
    let s = normalize_gcode line in same s (codes "M5") || starts_with (codes "M5 ") s

-- "$X" or "$H"
unfoldable pub is_unlock : Text → Bool
unfolding strip upper same
is_unlock line = let s = upper (strip line) in same s (codes "$X") || same s (codes "$H")

unfoldable pub line_in_error : Io → Text → Proxy → Proxy × List Effect
unfolding is_laser_off is_unlock
line_in_error io line p =
    let bytes = line ++ newline in
    if is_empty line
    then (p, reply ok ∷ [])
    else if is_laser_off line
    then (p, if io.serial_ok then forward bytes ∷ [] else dropped bytes ∷ reply error9 ∷ [])
    else if is_unlock line
    then (record p { state = passthrough; last_error = none }, write_serial io bytes)
    else (p, reply error9 ∷ [])

abbrev pub buffer_line : Text → Option JobBuffer → Proxy → Proxy
buffer_line line none p = p
buffer_line line (some b) p =
    let (b', d) = write_line line b p.disk in record p { buffer = some b'; disk = d }

unfoldable pub line_in_buffering : Io → Text → Proxy → Proxy × List Effect
unfolding check_job_end is_program_end_command finalize_job write_line
line_in_buffering io line p =
    if is_empty line
    then (record p { idle_armed = true }, reply ok ∷ [])
    else if check_job_end p line
    then (finalize_job io none p, reply ok ∷ [])
    else if is_program_end_command line
    then (finalize_job io (some line) p, reply ok ∷ [])
    else (record (buffer_line line p.buffer p) { idle_armed = true }, reply ok ∷ [])

unfoldable pub line_by_state : Io → Bool → Text → ProxyState → Proxy → Proxy × List Effect
line_by_state io sink line passthrough p = line_in_passthrough io sink line p
line_by_state io sink line executing p = (p, reply ok ∷ [])
line_by_state io sink line paused p = (p, reply ok ∷ [])
line_by_state io sink line error p = line_in_error io line p
line_by_state io sink line buffering p = line_in_buffering io line p
line_by_state io sink line disconnected p = (p, [])

unfoldable pub process_client_line : Io → Bool → Text → Proxy → Proxy × List Effect
unfolding line_by_state line_in_passthrough line_in_error line_in_buffering
process_client_line io sink line p = line_by_state io sink line p.state p

-- What holds of each of the four ways a line can go while buffering holds of the way it goes.
pub line_in_buffering_cases :
    (P : Proxy × List Effect → Type 0) (io : Io) (line : Text) (p : Proxy)
    → (is_empty line ≡ true → P (record p { idle_armed = true }, reply ok ∷ []))
    → (check_job_end p line ≡ true → P (finalize_job io none p, reply ok ∷ []))
    → (check_job_end p line ≡ false
        → is_program_end_command line ≡ true
        → P (finalize_job io (some line) p, reply ok ∷ []))
    → (check_job_end p line ≡ false
        → is_program_end_command line ≡ false
        → P (record (buffer_line line p.buffer p) { idle_armed = true }, reply ok ∷ []))
    → P (line_in_buffering io line p)
unfolding line_in_buffering
line_in_buffering_cases P io line p =
    by_tests (is_empty line) (check_job_end p line) (is_program_end_command line)
  where
    by_tests :
        (b m e : Bool)
        → (b ≡ true → P (record p { idle_armed = true }, reply ok ∷ []))
        → (m ≡ true → P (finalize_job io none p, reply ok ∷ []))
        → (m ≡ false → e ≡ true → P (finalize_job io (some line) p, reply ok ∷ []))
        → (m ≡ false
            → e ≡ false
            → P (record (buffer_line line p.buffer p) { idle_armed = true }, reply ok ∷ []))
        → P (
            if b
            then (record p { idle_armed = true }, reply ok ∷ [])
            else if m
            then (finalize_job io none p, reply ok ∷ [])
            else if e
            then (finalize_job io (some line) p, reply ok ∷ [])
            else (record (buffer_line line p.buffer p) { idle_armed = true }, reply ok ∷ []))
    by_tests true m e blank marker program_end buffered = blank refl
    by_tests false true e blank marker program_end buffered = marker refl
    by_tests false false true blank marker program_end buffered = program_end refl refl
    by_tests false false false blank marker program_end buffered = buffered refl refl
