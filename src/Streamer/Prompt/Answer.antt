-- ===== src/Streamer/Prompt/Answer.antt =====
-- An "ok" in time, in an iteration of either loop of streamer.py.
use grbl_proxy.Prelude.{
  ℕ, ◌+◌, ◌≡◌, refl, ap, ◌∙◌, true, false, none, List, [], ◌∷◌, ltb, arith, if◌then◌else◌,
}
use grbl_proxy.Text.{Text, codes, is_empty}
use grbl_proxy.Text.Laws.{eq_of_same}
use grbl_proxy.Text.Parts.{both_pass, when_false}
use grbl_proxy.Protocol.Split.{split_responses}
use grbl_proxy.Streamer.{Streamer, Limits, Op, apply_ops}
use grbl_proxy.Streamer.Supervision.{stall_fault}
use grbl_proxy.Streamer.Loop.{Read, line, Tick, Locals, Flow, again, unless_fault}
use grbl_proxy.Streamer.Reading.{
  iteration, maybe_poll, poll_all, after_read, next_response, take_pending, poll_and_read,
}
use grbl_proxy.Streamer.Prompt.{Window, one_ok, reads_ok, is_ack, in_time}

-- A streamer that nothing disturbs.
pub record Calm (limits : Limits) (dwell last : ℕ) (s : Streamer) : Type 0 where
  pub limited : s.limits ≡ limits
  pub paused : s.paused ≡ false
  pub cancelled : s.cancelled ≡ false
  pub hold : s.watch.machine_hold ≡ none
  pub dwelling : s.watch.max_dwell ≡ dwell
  pub progress : s.watch.last_progress ≡ last

-- The locals show this window, but for the count of bytes, which the trailing drain leaves alone.
pub record Shows (limits : Limits) (dwell : ℕ) (w : Window) (l : Locals) : Type 0 where
  pub calm : Calm limits dwell w.last l.self
  pub lengths : l.line_lengths ≡ w.lengths
  pub pending : l.pending ≡ []

pub maybe_poll-Calm :
    (now : ℕ) (limits : Limits) (dwell last : ℕ) (s : Streamer)
    → Calm limits dwell last s
    → Calm limits dwell last (maybe_poll now s)
unfolding maybe_poll
maybe_poll-Calm now limits dwell last s c = ground (arith, c.limited, c.hold)

poll_all-Calm :
    (times : List ℕ) (limits : Limits) (dwell last : ℕ) (s : Streamer)
    → Calm limits dwell last s
    → Calm limits dwell last (poll_all times s)
unfolding poll_all
poll_all-Calm [] limits dwell last s c = c
poll_all-Calm (now ∷ times) limits dwell last s c =
    poll_all-Calm times limits dwell last (maybe_poll now s)
      (maybe_poll-Calm now limits dwell last s c)

no_stall :
    (now n : ℕ) (limits : Limits) (dwell last : ℕ) (s : Streamer)
    → Calm limits dwell last s
    → ltb now (last + (limits.stall + dwell)) ≡ true
    → stall_fault now n s.paused s.limits s.watch ≡ (s.watch, none)
unfolding stall_fault
no_stall now n limits dwell last s c h =
    rw (c.hold, c.paused, c.limited, c.dwelling, c.progress, h) refl

-- The only message of a read is an "ok".
take_ok :
    (handle : Text → Locals → Flow) (rs : List Text) (l : Locals)
    → one_ok rs ≡ true
    → take_pending handle rs l ≡ handle (codes "ok") (record l { pending = [] })
unfolding take_pending
take_ok handle [] l h = absurd (ground arith)
take_ok handle (r ∷ []) l h =
    ap
      (λ t.
        if is_empty t
        then again (record l { pending = [] })
        else handle t (record l { pending = [] }))
      (eq_of_same r (codes "ok") h)
take_ok handle (r ∷ q ∷ rs) l h = absurd (ground arith)

read_ok :
    (handle : Text → Locals → Flow) (rd : Read) (l : Locals)
    → reads_ok rd ≡ true
    → after_read handle rd l ≡ handle (codes "ok") (record l { pending = [] })
unfolding after_read
read_ok handle (line text) l h = take_ok handle (split_responses text) l h
read_ok handle _ l h = absurd (ground arith)

-- The locals that the handler of the "ok" is given.
abbrev pub polled : Tick → Locals → Locals
polled t l = record l { self = poll_all t.polls (maybe_poll t.before l.self); pending = [] }

pub no_ops : (os : List Op) (s : Streamer) → is_empty os ≡ true → apply_ops os s ≡ s
unfolding apply_ops
no_ops [] s h = refl
no_ops (o ∷ os) s h = absurd (ground arith)

next_ok :
    (handle : Text → Locals → Flow) (t : Tick) (rs : List Text) (l : Locals)
    → rs ≡ []
    → is_ack t ≡ true
    → next_response handle t rs (record l { self = maybe_poll t.before l.self })
      ≡ handle (codes "ok") (polled t l)
unfolding next_response
next_ok handle t rs l e h =
    let (quiet, ok) = both_pass (is_empty t.ops) (reads_ok t.read) h in
    let s = poll_all t.polls (maybe_poll t.before l.self) in
    ap (λ qs. next_response handle t qs (record l { self = maybe_poll t.before l.self })) e
    ∙ ap (λ u. after_read handle t.read (record l { self = u })) (no_ops t.ops s quiet)
    ∙ read_ok handle t.read (record l { self = s }) ok

pub polled-Shows :
    (t : Tick) (limits : Limits) (dwell : ℕ) (w : Window) (l : Locals)
    → Shows limits dwell w l
    → Shows limits dwell w (polled t l)
polled-Shows t limits dwell w l h = record {
  calm =
      poll_all-Calm t.polls limits dwell w.last (maybe_poll t.before l.self)
        (maybe_poll-Calm t.before limits dwell w.last l.self h.calm);
  lengths = h.lengths;
  pending = refl;
}

pub iteration-ok :
    (handle : Text → Locals → Flow) (t : Tick) (limits : Limits) (dwell : ℕ) (w : Window)
    (l : Locals)
    → Shows limits dwell w l
    → in_time limits.rx_size (limits.stall + dwell) t w ≡ true
    → iteration handle t l ≡ handle (codes "ok") (polled t l)
unfolding iteration
iteration-ok handle t limits dwell w l h timely =
    let (ack, early) =
      both_pass (is_ack t) (ltb t.before (w.last + (limits.stall + dwell))) timely in
    when_false l.self.cancelled _ _ h.calm.cancelled
    ∙ ap (λ f. unless_fault f (poll_and_read handle t) l)
        (no_stall t.before l.self.lines_sent limits dwell w.last l.self h.calm early)
    ∙ next_ok handle t l.pending l h.pending ack
