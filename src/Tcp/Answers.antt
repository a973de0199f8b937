-- ===== src/Tcp/Answers.antt =====
-- What the client gets of the controller's answers through tcp_server.py.
use grbl_proxy.Prelude.{
  ℕ, ◌≡◌, refl, sym, ap, ◌∙◌, subst, Bool, true, false, not, ◌&&◌, ◌||◌, List, [], ◌∷◌, ◌++◌, map,
  ltb, leb, ◌+◌, ◌-◌, Option, none, some, if◌then◌else◌,
}
use grbl_proxy.Text.{Text, is_empty}
use grbl_proxy.Protocol.{is_status_report}
use grbl_proxy.Protocol.Report.{StatusReport, parse_status_report}
use grbl_proxy.Proxy.Poll.{update_if, update_last_status}
use grbl_proxy.Protocol.Split.{split_responses}
use grbl_proxy.Proxy.{Proxy}
use grbl_proxy.Tcp.Session.{line_terminator, is_passthrough}
use grbl_proxy.Tcp.Upstream.{
  stall_warn, Upstream, Read, got, timed_out, lost, Turn, snoop, forward_all, watch_silence,
  after_tick, after_line, after_read, upstream_turn, serial_to_tcp,
}

-- The messages of a read, as the client should get them.
abbrev pub messages_of : Read → List Text
messages_of (got line) =
    if is_empty line then [] else map (λ m. m ++ line_terminator) (split_responses line)
messages_of timed_out = []
messages_of lost = []

abbrev pub all_messages : List Turn → List Text
all_messages [] = []
all_messages (t ∷ ts) = messages_of t.read ++ all_messages ts

abbrev pub is_lost : Read → Bool
is_lost lost = true
is_lost _ = false

-- A round in which nothing interferes: the streamer leaves the relay the serial port, the client
-- stays and takes every message, and the read does not fail.
pub record IsQuiet (t : Turn) : Type 0 where
  pub stays : t.stopped ≡ false
  pub takes : t.client_ok ≡ []
  pub reads : is_lost t.read ≡ false
  pub readable : (p : Proxy) → p.serial_readable ≡ true → (t.meanwhile p).serial_readable ≡ true
  pub no_yield : (p : Proxy) → (t.meanwhile p).serial_yield ≡ false

abbrev pub AreQuiet : List Turn → Type 0
AreQuiet [] = Unit
AreQuiet (t ∷ ts) = IsQuiet t × AreQuiet ts

-- The relay runs, and may read.
pub record IsRelaying (u : Upstream) : Type 0 where
  pub runs : u.stop_relay ≡ false
  pub readable : u.proxy.serial_readable ≡ true

-- What a round leaves: messages sent, and a relay that goes on.
abbrev IsSent : List Text → Upstream × List Text → Type 0
IsSent ms (u, sent) = IsRelaying u × (sent ≡ ms)

update_if-readable :
    (o : Option StatusReport) (p : Proxy) → (update_if o p).serial_readable ≡ p.serial_readable
unfolding update_last_status
update_if-readable none p = refl
update_if-readable (some status) p = refl

snoop-readable : (m : Text) (p : Proxy) → (snoop m p).serial_readable ≡ p.serial_readable
unfolding snoop
snoop-readable m p =
    elim (is_status_report m)
      as (λ b.
        (if b then update_if (parse_status_report m) p else p).serial_readable
        ≡ p.serial_readable) [ true ↦ update_if-readable (parse_status_report m) p | false ↦ refl ]

forward_all-IsSent :
    (ms : List Text) (u : Upstream)
    → IsRelaying u
    → IsSent (map (λ m. m ++ line_terminator) ms) (forward_all [] ms u)
unfolding forward_all
forward_all-IsSent [] u r = (r, refl)
forward_all-IsSent (m ∷ ms) u r =
    let u' : Upstream = record u { proxy = snoop m u.proxy } in
    let rest =
      forward_all-IsSent ms u'
        (record { runs = r.runs; readable = snoop-readable m u.proxy ∙ r.readable }) in
    (rest.0, ap (λ sent. (m ++ line_terminator) ∷ sent) rest.1)

watch_silence-IsRelaying :
    (now last : ℕ) (u : Upstream) → IsRelaying u → IsRelaying (watch_silence now last u)
unfolding watch_silence
watch_silence-IsRelaying now last u r =
    elim (is_passthrough u.proxy.state && ltb u.last_real_read last)
      as (λ b. IsRelaying (
        if b
        then record u {
          silent_ticks = u.silent_ticks + 1;
          stall_warned = u.stall_warned || leb stall_warn (now - last);
        }
        else u)) [ true ↦ record { runs = r.runs; readable = r.readable } | false ↦ r ]

after_tick-IsSent : (t : Turn) (u : Upstream) → IsRelaying u → IsSent [] (after_tick t u)
after_tick-IsSent t u r = (
  watch_silence-IsRelaying t.now t.last_write_at (record u { serial_was_connected = true })
      (record { runs = r.runs; readable = r.readable }),
  refl,
)

after_line-IsSent :
    (t : Turn) (line : Text) (u : Upstream)
    → t.client_ok ≡ []
    → IsRelaying u
    → IsSent (map (λ m. m ++ line_terminator) (split_responses line)) (after_line t line u)
after_line-IsSent t line u takes r =
    let heard : Upstream = record u {
      serial_was_connected = true;
      last_real_read = t.now;
      silent_ticks = 0;
      stall_warned = false;
    } in
    let messages = split_responses line in
    subst
      (λ oks. IsSent (map (λ m. m ++ line_terminator) messages) (forward_all oks messages heard))
      (sym takes)
      (forward_all-IsSent messages heard (record { runs = r.runs; readable = r.readable }))

after_read-IsSent :
    (t : Turn) (r : Read) (u : Upstream)
    → t.client_ok ≡ []
    → is_lost r ≡ false
    → IsRelaying u
    → IsSent (messages_of r) (after_read t r u)
unfolding after_read
after_read-IsSent t lost u takes h k = cc
after_read-IsSent t timed_out u takes h k = after_tick-IsSent t u k
after_read-IsSent t (got line) u takes h k =
    elim (is_empty line)
      as (λ b.
        IsSent (if b then [] else map (λ m. m ++ line_terminator) (split_responses line))
          (if b then after_tick t u else after_line t line u)) [
            | true ↦ after_tick-IsSent t u k
            | false ↦ after_line-IsSent t line u takes k
          ]

-- The five ways of a round: the tests decide which.
goes_to_last :
    (a b c d : Bool) (v w x y z : Upstream × List Text)
    → a ≡ false
    → b ≡ true
    → c ≡ false
    → d ≡ false
    → (if a then v else if not b then w else if c then x else if d then y else z) ≡ z
goes_to_last a b c d v w x y z ha hb hc hd = rw (ha, hb, hc, hd) refl

-- the round of a relay that reads, in the state it has by then
turn_reads :
    (t : Turn) (u : Upstream)
    → u.stop_relay ≡ false
    → u.proxy.serial_readable ≡ true
    → (t.meanwhile u.proxy).serial_yield ≡ false
    → t.stopped ≡ false
    → upstream_turn t u
      ≡ after_read t t.read (record u { proxy = t.meanwhile u.proxy; read_idle = true })
unfolding upstream_turn
turn_reads t u runs readable no_yield stays =
    goes_to_last u.stop_relay u.proxy.serial_readable (t.meanwhile u.proxy).serial_yield t.stopped _
      _ _ _ _ runs readable no_yield stays

turn-IsSent :
    (t : Turn) (u : Upstream)
    → IsQuiet t
    → IsRelaying u
    → IsSent (messages_of t.read) (upstream_turn t u)
turn-IsSent t u q r =
    subst (λ x. IsSent (messages_of t.read) x)
      (sym (turn_reads t u r.runs r.readable (q.no_yield u.proxy) q.stays))
      (after_read-IsSent t t.read (record u { proxy = t.meanwhile u.proxy; read_idle = true })
        q.takes q.reads (record { runs = r.runs; readable = q.readable u.proxy r.readable }))

-- The client gets exactly what the controller says: from a relay that runs and may read, over rounds
-- in which nothing interferes, it is sent for each line read, in order, each of the messages that
-- the line splits into, ended by CR LF, nothing at a timeout, and nothing else; and the relay goes
-- on.
pub answers_are_relayed :
    (ts : List Turn) (u : Upstream)
    → AreQuiet ts
    → IsRelaying u
    → IsRelaying (serial_to_tcp ts u).0 × ((serial_to_tcp ts u).1 ≡ all_messages ts)
unfolding serial_to_tcp
answers_are_relayed [] u q r = (r, refl)
answers_are_relayed (t ∷ ts) u (q, qs) r =
    let first = turn-IsSent t u q r in
    let rest = answers_are_relayed ts (upstream_turn t u).0 qs first.0 in
    (
      rest.0,
      ap (λ sent. sent ++ (serial_to_tcp ts (upstream_turn t u).0).1) first.1
          ∙ ap (λ more. messages_of t.read ++ more) rest.1,
    )
