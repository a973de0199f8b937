-- ===== src/Tcp/Relay.antt =====
-- The relay of tcp_server.py while no job is running.
use grbl_proxy.Prelude.{
  ℕ, ◌≡◌, refl, sym, ap, subst, ◌∙◌, Bool, true, false, not, ◌&&◌, List, [], ◌∷◌, ◌++◌, ◌==◌,
  append_assoc, append-nil, arith, if◌then◌else◌, ltb,
}
use grbl_proxy.Text.{Text, is_empty, drop_while_end}
use grbl_proxy.Protocol.{is_realtime_command}
use grbl_proxy.Job.{newline}
use grbl_proxy.Job.Contents.{as_file}
use grbl_proxy.Proxy.{passthrough, Proxy, Config, Io, Effect, sunk, forward, reply, dropped, raised}
use grbl_proxy.Proxy.Bytes.{process_raw_byte}
use grbl_proxy.Proxy.Lines.{
  process_client_line, line_by_state, line_in_passthrough, check_job_start, matches_marker,
}
use grbl_proxy.Tcp.{
  in_turn, Route, is_eol, sink_of, flush_sink, take_byte, route_byte, route_all, route_bytes,
}

-- A byte of a line: ASCII, no realtime command, no end of a line.
abbrev pub is_plain_byte : ℕ → Bool
is_plain_byte c = ltb c 128 && not (is_realtime_command c) && not (is_eol c)

abbrev pub all_plain : Text → Bool
all_plain [] = true
all_plain (c ∷ s) = is_plain_byte c && all_plain s

-- Lines that do not start a job.
abbrev pub are_relayed : Config → List Text → Bool
are_relayed c [] = true
are_relayed c (l ∷ ls) = (all_plain l && not (matches_marker c.start_marker l)) && are_relayed c ls

-- Bytes, and one answer of the environment to each.
abbrev pub with_io : Io → Text → List (Io × ℕ)
with_io io [] = []
with_io io (c ∷ s) = (io, c) ∷ with_io io s

abbrev pub is_ascii : Text → Bool
is_ascii [] = true
is_ascii (c ∷ s) = ltb c 128 && is_ascii s

pub and_cases : (a b : Bool) → (a && b) ≡ true → (a ≡ true) × (b ≡ true)
and_cases a b h = ground arith

pub plain_cases :
    (a b e : Bool) → (a && not b && not e) ≡ true → (a ≡ true) × (b ≡ false) × (e ≡ false)
plain_cases a b e h = (ground arith, ground arith, ground arith)

pub drop_while_end-eol : (s : Text) → all_plain s ≡ true → drop_while_end is_eol (s ++ newline) ≡ s
unfolding drop_while_end
drop_while_end-eol [] h = refl
drop_while_end-eol (c ∷ s) h =
    let (hc, hs) = and_cases (is_plain_byte c) (all_plain s) h in
    let eol = (plain_cases (ltb c 128) (is_realtime_command c) (is_eol c) hc).2 in
    rw (drop_while_end-eol s hs) (ground arith)

pub is_ascii-line : (s : Text) → all_plain s ≡ true → is_ascii (s ++ newline) ≡ true
is_ascii-line [] h = refl
is_ascii-line (c ∷ s) h = ground (arith, is_ascii-line s)

-- the connection is cached by every byte
abbrev pub seen : Proxy → Proxy
seen p = record p { serial_conn = true }

-- The state machine relays, under the configuration `c`.
pub record IsRelaying (c : Config) (p : Proxy) : Type 0 where
  pub state : p.state ≡ passthrough
  pub config : p.config ≡ c

-- The writes to the serial port among the effects.
abbrev pub writes_of : List Effect → List Text
writes_of [] = []
writes_of (forward bytes ∷ es) = bytes ∷ writes_of es
writes_of (sunk bytes ∷ es) = writes_of es
writes_of (reply r ∷ es) = writes_of es
writes_of (dropped bytes ∷ es) = writes_of es
writes_of (raised ∷ es) = writes_of es

writes_of-append : (es fs : List Effect) → writes_of (es ++ fs) ≡ writes_of es ++ writes_of fs
writes_of-append [] fs = refl
writes_of-append (forward bytes ∷ es) fs = ap (λ t. bytes ∷ t) (writes_of-append es fs)
writes_of-append (sunk bytes ∷ es) fs = writes_of-append es fs
writes_of-append (reply r ∷ es) fs = writes_of-append es fs
writes_of-append (dropped bytes ∷ es) fs = writes_of-append es fs
writes_of-append (raised ∷ es) fs = writes_of-append es fs

-- After the bytes nothing is left over, the state machine relays, and `bytes` are in the sink,
-- with nothing written yet.
abbrev pub IsRelayed : Config → Text → Route × List Effect → Type 0
IsRelayed c bytes (r, effects) =
    IsRelaying c r.proxy × (r.line_buf ≡ []) × (sink_of effects ≡ bytes) × (writes_of effects ≡ [])

module _ (decode : Text → Text) (decode_ascii : (s : Text) → is_ascii s ≡ true → decode s ≡ s) where
  pub raw_byte-plain :
      (io : Io) (b : ℕ) (p : Proxy)
      → is_realtime_command b ≡ false
      → process_raw_byte io b true p ≡ (seen p, false, [])
  unfolding process_raw_byte
  raw_byte-plain io b p h = rw h refl

  pub route_byte-plain :
      (io : Io) (b : ℕ) (p : Proxy) (u : Text)
      → is_plain_byte b ≡ true
      → route_byte decode io b (record { proxy = p; line_buf = u })
        ≡ (record { proxy = seen p; line_buf = u ++ b ∷ [] }, [])
  unfolding route_byte take_byte
  route_byte-plain io b p u h =
      let tests = plain_cases (ltb b 128) (is_realtime_command b) (is_eol b) h in
      let not_newline : (b == 10) ≡ false = ground (arith, tests.2) in
      rw (raw_byte-plain io b p tests.1, not_newline) refl

  line-relayed :
      (io : Io) (line : Text) (c : Config) (p : Proxy)
      → IsRelaying c p
      → matches_marker c.start_marker line ≡ false
      → process_client_line io true line (seen p) ≡ (seen p, sunk (line ++ newline) ∷ [])
  unfolding process_client_line line_by_state line_in_passthrough check_job_start
  line-relayed io line c p h m =
      let q = seen p in
      let no_start : matches_marker p.config.start_marker line ≡ false =
        ap (λ k. matches_marker k.start_marker line) h.config ∙ m in
      subst (λ s. line_by_state io true line s q ≡ (q, sunk (line ++ newline) ∷ [])) (sym h.state)
        (rw no_start refl)

  route_byte-newline :
      (io : Io) (c : Config) (p : Proxy) (u : Text)
      → IsRelaying c p
      → all_plain u ≡ true
      → matches_marker c.start_marker u ≡ false
      → route_byte decode io 10 (record { proxy = p; line_buf = u })
        ≡ (record { proxy = seen p; line_buf = [] }, sunk (u ++ newline) ∷ [])
  unfolding route_byte take_byte
  route_byte-newline io c p u h plain m =
      let line : drop_while_end is_eol (decode (u ++ newline)) ≡ u =
        ap (λ t. drop_while_end is_eol t) (decode_ascii (u ++ newline) (is_ascii-line u plain))
        ∙ drop_while_end-eol u plain in
      rw (line, line-relayed (in_turn io) u c p h m) refl

  -- What a byte does is put before what the rest does.
  abbrev after_byte : Io → Text → Route × List Effect → Route × List Effect
  after_byte io bytes (r, effects) =
      let (r', more) = route_all decode (with_io io bytes) r in (r', effects ++ more)

  plain-IsRelayed :
      (io : Io) (c : Config) (s u v w : Text) (p : Proxy)
      → IsRelaying c p
      → all_plain s ≡ true
      → ((q : Proxy)
          → IsRelaying c q
          → IsRelayed c w
              (route_all decode (with_io io v) (record { proxy = q; line_buf = u ++ s })))
      → IsRelayed c w (route_all decode (with_io io (s ++ v)) (record { proxy = p; line_buf = u }))
  unfolding route_all
  plain-IsRelayed io c [] u v w p h plain rest =
      subst
        (λ t. IsRelayed c w (route_all decode (with_io io v) (record { proxy = p; line_buf = t })))
        (append-nil u) (rest p h)
  plain-IsRelayed io c (b ∷ s) u v w p h plain rest =
      let (hb, hs) = and_cases (is_plain_byte b) (all_plain s) plain in
      let seen_relays : IsRelaying c (seen p) = record { state = h.state; config = h.config } in
      subst (λ x. IsRelayed c w (after_byte io (s ++ v) x)) (sym (route_byte-plain io b p u hb))
        (plain-IsRelayed io c s (u ++ b ∷ []) v w (seen p) seen_relays hs (λ q k.
          subst
            (λ t.
              IsRelayed c w (route_all decode (with_io io v) (record { proxy = q; line_buf = t })))
            (sym (append_assoc u (b ∷ []) s)) (rest q k)))

  lines-IsRelayed :
      (io : Io) (c : Config) (ls : List Text) (p : Proxy)
      → IsRelaying c p
      → are_relayed c ls ≡ true
      → IsRelayed c
          (as_file ls)
          (route_all decode (with_io io (as_file ls)) (record { proxy = p; line_buf = [] }))
  unfolding route_all
  lines-IsRelayed io c [] p h plain = (h, refl, refl, refl)
  lines-IsRelayed io c (l ∷ ls) p h plain =
      let (hl, hls) =
        and_cases (all_plain l && not (matches_marker c.start_marker l)) (are_relayed c ls) plain in
      let (l_plain, l_relayed) =
        and_cases (all_plain l) (not (matches_marker c.start_marker l)) hl in
      let whole = as_file (l ∷ ls) in
      subst
        (λ t.
          IsRelayed c whole (route_all decode (with_io io t) (record { proxy = p; line_buf = [] })))
        (sym (append_assoc l newline (as_file ls)))
        (plain-IsRelayed io c l [] (newline ++ as_file ls) whole p h l_plain (λ q k.
          let rest =
            lines-IsRelayed io c ls (seen q) (record { state = k.state; config = k.config }) hls in
          subst (λ x. IsRelayed c whole (after_byte io (as_file ls) x))
            (sym (route_byte-newline io c q l k l_plain (ground (arith, l_relayed))))
            (rest.0, rest.1, ap (λ t. (l ++ newline) ++ t) rest.2, rest.3)))

  flush_sink-writes :
      (io : Io) (bytes : Text)
      → io.serial_ok ≡ true
      → writes_of (flush_sink io bytes) ≡ (if is_empty bytes then [] else bytes ∷ [])
  flush_sink-writes io [] h = refl
  flush_sink-writes io (b ∷ bytes) h = rw h refl

  -- While no job runs, a chunk of whole lines passes through the proxy unchanged: if the state is
  -- passthrough and no part of a line is buffered, the lines are ASCII without realtime commands and
  -- carriage returns, none starts a job, and the serial write succeeds, then the chunk is written to
  -- the serial port as it came, in one write, none of it is left over, and the state is passthrough.
  pub chunk_is_relayed :
      (io : Io) (ls : List Text) (p : Proxy)
      → p.state ≡ passthrough
      → are_relayed p.config ls ≡ true
      → io.serial_ok ≡ true
      → (writes_of
            (route_bytes decode io
              (with_io io (as_file ls))
              (record { proxy = p; line_buf = [] })).1
          ≡ (if is_empty (as_file ls) then [] else as_file ls ∷ []))
        × ((route_bytes decode io
              (with_io io (as_file ls))
              (record { proxy = p; line_buf = [] })).0.line_buf
            ≡ [])
        × ((route_bytes decode io
              (with_io io (as_file ls))
              (record { proxy = p; line_buf = [] })).0.proxy.state
            ≡ passthrough)
  unfolding route_bytes
  chunk_is_relayed io ls p h plain ok =
      let (r, effects) =
        route_all decode (with_io io (as_file ls)) (record { proxy = p; line_buf = [] }) in
      let relayed = lines-IsRelayed io p.config ls p (record { state = h; config = refl }) plain in
      (
        writes_of-append effects (flush_sink io (sink_of effects))
            ∙ rw (relayed.3, relayed.2) (flush_sink-writes io (as_file ls) ok),
        relayed.1,
        relayed.0.state,
      )
