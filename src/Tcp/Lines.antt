-- ===== src/Tcp/Lines.antt =====
-- A chunk of whole lines in tcp_server.py, whatever the state of the proxy.
use grbl_proxy.Prelude.{
  ◌≡◌, refl, sym, ap, ◌∙◌, Bool, true, false, ◌&&◌, Option, none, some, List, [], ◌∷◌, ◌++◌,
  append_assoc, append-nil, arith, if◌then◌else◌,
}
use grbl_proxy.Text.{Text, drop_while_end}
use grbl_proxy.Job.{JobBuffer, newline}
use grbl_proxy.Job.Contents.{as_file}
use grbl_proxy.Proxy.{ProxyState, passthrough, buffering, error, Proxy, Io, Effect}
use grbl_proxy.Proxy.Life.{
  await_reader, hand_over, enter_buffering, start_streamer, finalize_by, finalize_job,
}
use grbl_proxy.Proxy.Lines.{
  process_client_line, line_by_state, line_in_passthrough, line_in_error, line_in_buffering_cases,
  check_job_start,
}
use grbl_proxy.Proxy.Events.{client_line, handle, handle_all}
use grbl_proxy.Proxy.Capture.{lines_of}
use grbl_proxy.Proxy.Handover.{buffer_line_conn, enter_buffering_conn}
use grbl_proxy.Tcp.{in_turn, Route, is_eol, take_byte, route_byte, route_all, route_bytes}
use grbl_proxy.Tcp.Relay.{
  is_plain_byte, all_plain, with_io, is_ascii, and_cases, drop_while_end-eol, is_ascii-line, seen,
  route_byte-plain,
}

-- Lines of plain bytes.
abbrev pub are_lines : List Text → Bool
are_lines [] = true
are_lines (l ∷ ls) = all_plain l && are_lines ls

finalize_by_conn :
    (io : Io) (last : Option Text) (b : Option JobBuffer) (p : Proxy)
    → (finalize_by io last b p).serial_conn ≡ p.serial_conn
unfolding await_reader hand_over start_streamer
finalize_by_conn io last none p = refl
finalize_by_conn io last (some b) p = ground arith

finalize_job_conn :
    (io : Io) (last : Option Text) (p : Proxy)
    → (finalize_job io last p).serial_conn ≡ p.serial_conn
unfolding finalize_job
finalize_job_conn io last p = finalize_by_conn io last p.buffer p

either_conn :
    (b : Bool) (x y : Proxy × List Effect) (c : Bool)
    → x.0.serial_conn ≡ c
    → y.0.serial_conn ≡ c
    → (if◌then◌else◌ {A = Proxy × List Effect} b x y).0.serial_conn ≡ c
either_conn true x y c h k = h
either_conn false x y c h k = k

line_in_passthrough_conn :
    (io : Io) (sink : Bool) (line : Text) (p : Proxy)
    → (line_in_passthrough io sink line p).0.serial_conn ≡ p.serial_conn
unfolding line_in_passthrough
line_in_passthrough_conn io sink line p =
    either_conn (check_job_start p line) (enter_buffering io p) _ p.serial_conn
      (enter_buffering_conn io p) refl

line_in_error_conn :
    (io : Io) (line : Text) (p : Proxy) → (line_in_error io line p).0.serial_conn ≡ p.serial_conn
unfolding line_in_error
line_in_error_conn io line p = ground arith

line_by_state_conn :
    (io : Io) (sink : Bool) (line : Text) (s : ProxyState) (p : Proxy)
    → (line_by_state io sink line s p).0.serial_conn ≡ p.serial_conn
unfolding line_by_state
line_by_state_conn io sink line passthrough p = line_in_passthrough_conn io sink line p
line_by_state_conn io sink line error p = line_in_error_conn io line p
line_by_state_conn io sink line buffering p =
    line_in_buffering_cases (λ r. r.0.serial_conn ≡ p.serial_conn) io line p (λ e. refl)
      (λ e. finalize_job_conn io none p) (λ m e. finalize_job_conn io (some line) p)
      (λ m e. buffer_line_conn line p.buffer p)
line_by_state_conn io sink line _ p = refl

line_conn :
    (io : Io) (line : Text) (p : Proxy)
    → (handle io (client_line line true) p).serial_conn ≡ p.serial_conn
unfolding handle process_client_line
line_conn io line p = line_by_state_conn io true line p.state p

-- A byte tells a proxy that knows its serial connection nothing new.
seen_known : (p : Proxy) → p.serial_conn ≡ true → seen p ≡ p
seen_known p h = ap (λ b. record p { serial_conn = b }) (sym h)

module _ (decode : Text → Text) (decode_ascii : (s : Text) → is_ascii s ≡ true → decode s ≡ s) where
  -- what a byte does is put before what the rest does
  abbrev then_rest : Io → Text → Route × List Effect → Route × List Effect
  then_rest io bytes (r, effects) =
      let (r', more) = route_all decode (with_io io bytes) r in (r', effects ++ more)

  -- the bytes of a line are kept until it ends
  plain_bytes :
      (io : Io) (s u v : Text) (p : Proxy)
      → p.serial_conn ≡ true
      → all_plain s ≡ true
      → route_all decode (with_io io (s ++ v)) (record { proxy = p; line_buf = u })
        ≡ route_all decode (with_io io v) (record { proxy = p; line_buf = u ++ s })
  unfolding route_all
  plain_bytes io [] u v p h plain =
      ap (λ t. route_all decode (with_io io v) (record { proxy = p; line_buf = t }))
        (sym (append-nil u))
  plain_bytes io (b ∷ s) u v p h plain =
      let (hb, hs) = and_cases (is_plain_byte b) (all_plain s) plain in
      ap (then_rest io (s ++ v)) (route_byte-plain decode decode_ascii io b p u hb)
      ∙ ap
          (λ q.
            route_all decode (with_io io (s ++ v)) (record { proxy = q; line_buf = u ++ b ∷ [] }))
          (seen_known p h)
      ∙ plain_bytes io s (u ++ b ∷ []) v p h hs
      ∙ ap (λ t. route_all decode (with_io io v) (record { proxy = p; line_buf = t }))
          (append_assoc u (b ∷ []) s)

  line_end :
      (io : Io) (u : Text) (p : Proxy)
      → p.serial_conn ≡ true
      → all_plain u ≡ true
      → (route_byte decode io 10 (record { proxy = p; line_buf = u })).0
        ≡ record { proxy = handle (in_turn io) (client_line u true) p; line_buf = [] }
  unfolding route_byte take_byte handle
  line_end io u p h plain =
      let line : drop_while_end is_eol (decode (u ++ newline)) ≡ u =
        ap (drop_while_end is_eol) (decode_ascii (u ++ newline) (is_ascii-line u plain))
        ∙ drop_while_end-eol u plain in
      rw (line, seen_known p h) refl

  lines_routed :
      (io : Io) (ls : List Text) (p : Proxy)
      → p.serial_conn ≡ true
      → are_lines ls ≡ true
      → (route_all decode (with_io io (as_file ls)) (record { proxy = p; line_buf = [] })).0
        ≡ record { proxy = handle_all (lines_of (in_turn io) true ls) p; line_buf = [] }
  unfolding route_all handle_all
  lines_routed io [] p h plain = refl
  lines_routed io (l ∷ ls) p h plain =
      let (hl, hls) = and_cases (all_plain l) (are_lines ls) plain in
      let q = handle (in_turn io) (client_line l true) p in
      ap (λ t. (route_all decode (with_io io t) (record { proxy = p; line_buf = [] })).0)
        (append_assoc l newline (as_file ls))
      ∙ ap (λ x. x.0) (plain_bytes io l [] (newline ++ as_file ls) p h hl)
      ∙ ap (λ r. (route_all decode (with_io io (as_file ls)) r).0) (line_end io l p h hl)
      ∙ lines_routed io ls q (line_conn (in_turn io) l p ∙ h) hls

  -- A chunk of whole lines is taken line by line, whatever the state: if the connection is known and
  -- no part of a line is buffered, and the lines are ASCII without realtime commands and carriage
  -- returns, then the chunk leaves the proxy as the events of these lines do, and nothing over.
  pub chunk_is_lines :
      (io : Io) (ls : List Text) (p : Proxy)
      → p.serial_conn ≡ true
      → are_lines ls ≡ true
      → (route_bytes decode io (with_io io (as_file ls)) (record { proxy = p; line_buf = [] })).0
        ≡ record { proxy = handle_all (lines_of (in_turn io) true ls) p; line_buf = [] }
  unfolding route_bytes
  chunk_is_lines io ls p h plain = lines_routed io ls p h plain
