-- ===== src/Streamer/Cancel.antt =====
-- A cancel of a run of streamer.py.
use grbl_proxy.Prelude.{
  ℕ, ◌+◌, ◌≡◌, refl, sym, subst, ◌∙◌, true, false, List, [], ◌∷◌, arith, if◌then◌else◌,
}
use grbl_proxy.Text.{Text}
use grbl_proxy.Streamer.{Streamer, Op, pause, resume, cancel, apply_op, apply_ops}
use grbl_proxy.Streamer.Loop.{
  Locals, returned, lost, aborted, waiting, LoopEnd, goes_on, ended, cancelled_result,
}
use grbl_proxy.Streamer.Reading.{maybe_poll}
use grbl_proxy.Streamer.Frame.{code_lines, apply_ops-Frame, maybe_poll-Frame}
use grbl_proxy.Streamer.Run.{
  Turn, await_room, write_line, line_bytes, then_do, send_line, send_turn, send_all,
}

apply_op-cancelled : (o : Op) (s : Streamer) → s.cancelled ≡ true → (apply_op o s).cancelled ≡ true
unfolding apply_op
apply_op-cancelled pause s h = h
apply_op-cancelled (resume now) s h = h
apply_op-cancelled cancel s h = refl

apply_ops-cancelled :
    (os : List Op) (s : Streamer) → s.cancelled ≡ true → (apply_ops os s).cancelled ≡ true
unfolding apply_ops
apply_ops-cancelled [] s h = h
apply_ops-cancelled (o ∷ os) s h = apply_ops-cancelled os (apply_op o s) (apply_op-cancelled o s h)

maybe_poll-cancelled : (now : ℕ) (s : Streamer) → (maybe_poll now s).cancelled ≡ s.cancelled
unfolding maybe_poll
maybe_poll-cancelled now s = ground arith

-- A loop is not left but by a cancelled result, the end of the task or a wait at the gate, and the
-- lines written are `lines`.
abbrev pub HasStopped : List Text → LoopEnd → Type 0
HasStopped lines (goes_on l) = ⊥
HasStopped lines (ended (returned r l)) = (r.cancelled ≡ true) × (code_lines l.self.written ≡ lines)
HasStopped lines (ended (lost l)) = ⊥
HasStopped lines (ended (aborted l)) = code_lines l.self.written ≡ lines
HasStopped lines (ended (waiting l)) = code_lines l.self.written ≡ lines

send_line-HasStopped :
    (k : Locals → LoopEnd) (i : ℕ) (x : Text) (t : Turn) (l : Locals)
    → l.self.cancelled ≡ true
    → HasStopped (code_lines l.self.written) (then_do k (send_line i x t l))
unfolding send_line cancelled_result
send_line-HasStopped k i x t l h =
    let l' = record l { self = maybe_poll t.opened l.self } in
    subst
      (λ b. HasStopped (code_lines l.self.written) (
        then_do k (
          if b
          then ended (returned (cancelled_result l'.self) l')
          else then_do (write_line x t)
              (await_room i (line_bytes x) t.ticks (record l' { idle_polls = 0 })))))
      (sym (maybe_poll-cancelled t.opened l.self ∙ h))
      (refl, (maybe_poll-Frame t.opened l.self).lines)

send_turn-HasStopped :
    (k : Locals → LoopEnd) (i : ℕ) (x : Text) (t : Turn) (l : Locals)
    → l.self.cancelled ≡ true
    → HasStopped (code_lines l.self.written) (then_do k (send_turn i x t l))
unfolding send_turn
send_turn-HasStopped k i x t l h =
    let l' = record l { self = apply_ops t.gate l.self } in
    let same = (apply_ops-Frame t.gate l.self).lines in
    let stopped : LoopEnd → Type 0 = λ e. HasStopped (code_lines l.self.written) (then_do k e) in
    elim t.gate_cancelled
      as (λ b. stopped (
        if b
        then ended (aborted l')
        else if l'.self.paused
        then ended (waiting l')
        else send_line i x t l')) [
          | true ↦ same
          | false ↦
              elim (l'.self.paused)
                as (λ b. stopped (if b then ended (waiting l') else send_line i x t l')) [
                  | true ↦ same
                  | false ↦
                      subst (λ w. HasStopped w (then_do k (send_line i x t l'))) same
                        (send_line-HasStopped k i x t l' (apply_ops-cancelled t.gate l.self h))
                ]
        ]

-- A run that is cancelled already when the loop comes to a line writes neither that line nor any after
-- it: it ends as cancelled, or its task is cancelled, or it waits at the gate of a pause, and the lines
-- written stay what they were. (A cancel that comes only while a line waits for room is not this case:
-- that line may still be written.)
pub send_all-HasStopped :
    (i : ℕ) (x : Text) (xs : List Text) (ts : List Turn) (l : Locals)
    → l.self.cancelled ≡ true
    → HasStopped (code_lines l.self.written) (send_all i (x ∷ xs) ts l)
unfolding send_all
send_all-HasStopped i x xs [] l h = refl
send_all-HasStopped i x xs (t ∷ ts) l h = send_turn-HasStopped (send_all (i + 1) xs ts) i x t l h
