-- ===== src/Streamer/Prompt/Rest.antt =====
-- The trailing drain of streamer.py, with a controller that answers in time.
use grbl_proxy.Prelude.{
  ℕ, ◌+◌, ◌≡◌, refl, sym, ap, subst, ◌∙◌, true, List, [], ◌∷◌, Bool-cases, inl, inr,
}
use grbl_proxy.Text.{is_empty}
use grbl_proxy.Text.Parts.{both_pass, when_true, when_false}
use grbl_proxy.Streamer.{Limits}
use grbl_proxy.Streamer.Loop.{
  Tick, Locals, again, LoopEnd, goes_on, ended, with_watch, acked, follow,
}
use grbl_proxy.Streamer.Drain.{drain_response, drain_ok}
use grbl_proxy.Streamer.Kinds.{drain_kind}
use grbl_proxy.Streamer.Reading.{iteration}
use grbl_proxy.Streamer.Run.{await_acks}
use grbl_proxy.Streamer.Prompt.{Window, popped, acknowledge, in_time, drain_in_time}
use grbl_proxy.Streamer.Prompt.Answer.{Shows, polled, polled-Shows, iteration-ok}

-- The loop has gone on.
abbrev pub IsOver : LoopEnd → Type 0
IsOver (goes_on l) = Unit
IsOver (ended e) = ⊥

abbrev behind_first : List ℕ → List ℕ
behind_first ls = elim ls [ [] ↦ [] | _ ∷ rest ↦ rest ]

popped_lengths : (now used : ℕ) (ls : List ℕ) → behind_first ls ≡ (popped now used ls).lengths
popped_lengths now used [] = refl
popped_lengths now used (n ∷ ls) = refl

popped_last : (now used : ℕ) (ls : List ℕ) → (popped now used ls).last ≡ now
popped_last now used [] = refl
popped_last now used (n ∷ ls) = refl

-- The locals after an "ok".
abbrev drained : Tick → Locals → Locals
drained t l = record (with_watch (acked t.after (polled t l).self.watch) (polled t l)) {
  line_lengths = behind_first l.line_lengths;
  idle_polls = 0;
}

drain_ok-Shows :
    (t : Tick) (limits : Limits) (dwell : ℕ) (w : Window) (l : Locals)
    → Shows limits dwell w l
    → Shows limits dwell (acknowledge t.after w) (drained t l)
drain_ok-Shows t limits dwell w l h =
    let c = (polled-Shows t limits dwell w l h).calm in
    record {
      calm = record {
        limited = c.limited;
        paused = c.paused;
        cancelled = c.cancelled;
        hold = c.hold;
        dwelling = c.dwelling;
        progress = sym (popped_last t.after w.used w.lengths);
      };
      lengths = ap behind_first h.lengths ∙ popped_lengths t.after w.used w.lengths;
      pending = refl;
    }

drained_by :
    (t : Tick) (limits : Limits) (dwell : ℕ) (w : Window) (l : Locals)
    → Shows limits dwell w l
    → in_time limits.rx_size (limits.stall + dwell) t w ≡ true
    → iteration (drain_response t.after) t l ≡ again (drained t l)
unfolding drain_response drain_ok drain_kind
drained_by t limits dwell w l h timely =
    iteration-ok (drain_response t.after) t limits dwell w l h timely

nothing_left :
    (ts : List Tick) (l : Locals) → is_empty l.line_lengths ≡ true → await_acks ts l ≡ goes_on l
unfolding await_acks
nothing_left [] l h = when_true (is_empty l.line_lengths) _ _ h
nothing_left (t ∷ ts) l h = when_true (is_empty l.line_lengths) _ _ h

pub await_acks-IsOver :
    (ts : List Tick) (limits : Limits) (dwell : ℕ) (w : Window) (l : Locals)
    → Shows limits dwell w l
    → drain_in_time limits.rx_size (limits.stall + dwell) ts w ≡ true
    → IsOver (await_acks ts l)
unfolding await_acks drain_in_time
await_acks-IsOver [] limits dwell w l h e =
    subst IsOver (sym (nothing_left [] l (ap is_empty h.lengths ∙ e))) tt
await_acks-IsOver (t ∷ ts) limits dwell w l h e = elim (Bool-cases (is_empty w.lengths)) [
  | inl none_left ↦
      subst IsOver (sym (nothing_left (t ∷ ts) l (ap is_empty h.lengths ∙ none_left))) tt
  | inr waits ↦
      let (timely, later) =
        both_pass (in_time limits.rx_size (limits.stall + dwell) t w)
          (drain_in_time limits.rx_size (limits.stall + dwell) ts (acknowledge t.after w))
          (sym (when_false (is_empty w.lengths) _ _ waits) ∙ e) in
      let rest =
        await_acks-IsOver ts limits dwell (acknowledge t.after w) (drained t l)
          (drain_ok-Shows t limits dwell w l h) later in
      subst IsOver
        (sym (
          when_false (is_empty l.line_lengths) _ _ (ap is_empty h.lengths ∙ waits)
          ∙ ap (follow (await_acks ts)) (drained_by t limits dwell w l h timely)))
        rest
]
