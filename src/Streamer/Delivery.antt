-- ===== src/Streamer/Delivery.antt =====
-- What a run of streamer.py has written when it ends, and what `on_done` is called with.
use grbl_proxy.Prelude.{
  ℕ, ◌+◌, ◌≤◌, ◌≡◌, refl, sym, ap, ◌∙◌, ◌⊎◌, inl, inr, Bool, true, false, Option, none, some, List,
  [], ◌∷◌, ◌++◌, arith, Bool-cases, if◌then◌else◌, append-nil, length, take, subst,
}
use grbl_proxy.Text.{Text}
use grbl_proxy.Streamer.{Streamer, Limits, StreamerResult, soft_reset, new_streamer, internal_error}
use grbl_proxy.Streamer.Dwell.{max_dwell}
use grbl_proxy.Streamer.Loop.{
  Tick, Locals, Ending, returned, lost, aborted, waiting, LoopEnd, goes_on, ended, cancelled_result,
  completed_result, fault_result,
}
use grbl_proxy.Streamer.Reading.{say}
use grbl_proxy.Streamer.Frame.{
  code_lines, code_lines-append, resets, resets-append, Frame, Frame-refl,
}
use grbl_proxy.Streamer.Run.{
  await_acks, Sent, sent, failed, interrupted, Turn, then_do, send_all, ending_of, start,
  stream_from, Load, loaded, load_failed, load_cancelled, Env, load_lines, RunEnd, done, running,
  is_fault, conclude, on_ending, run, failsafe_by, stream_dwell, run_loaded,
}
use grbl_proxy.Streamer.Sending.{
  HasSent, HasCut, HasCut-of, HasSent-of_Frame, HasSent-zero, EndSent, LoopFrames, LoopSent,
  send_all-Sent, await_acks-Frames,
}

-- How far a function has come: some prefix, and all of the lines if its result says "completed".
record Streamed (xs : List Text) (s : Streamer) (r : StreamerResult) (t : Streamer) : Type 0 where
  count : ℕ
  has_sent : HasSent xs count s t
  all : (r.completed ≡ false) ⊎ (count ≡ length xs)
  lines_sent : r.lines_sent ≡ t.lines_sent
  total_lines : r.total_lines ≡ t.total_lines

abbrev EndStreamed : List Text → Streamer → Ending → Type 0
EndStreamed xs s (returned r l) = Streamed xs s r l.self
EndStreamed xs s (lost l) = (n : ℕ) × HasSent xs n s l.self
EndStreamed xs s (aborted l) = HasCut xs s l.self
EndStreamed xs s (waiting l) = (n : ℕ) × HasSent xs n s l.self

of_sent : (xs : List Text) (s : Streamer) (e : Ending) → EndSent xs s e → EndStreamed xs s e
of_sent xs s (returned r l) h = record {
  count = h.0.0;
  has_sent = h.0.1;
  all = inl h.1.completed;
  lines_sent = h.1.lines_sent;
  total_lines = h.1.total_lines;
}
of_sent xs s (lost l) h = h
of_sent xs s (aborted l) h = h
of_sent xs s (waiting l) h = h

HasSent-then-Frame :
    {xs : List Text} {n : ℕ} {s t u : Streamer} → HasSent xs n s t → Frame t u → HasSent xs n s u
HasSent-then-Frame a b = record {
  lines_sent = omega (arith, b.lines_sent, a.lines_sent);
  total_lines = b.total_lines ∙ a.total_lines;
  lines = b.lines ∙ a.lines;
  within = a.within;
  no_reset = b.no_reset ∙ a.no_reset;
}

-- The trailing drain, after all the lines.
drained :
    (xs : List Text) (s t : Streamer) (e : LoopEnd)
    → HasSent xs (length xs) s t
    → LoopFrames t e
    → EndStreamed xs s (ending_of e)
unfolding completed_result
drained xs s t (goes_on l) a h = record {
  count = length xs;
  has_sent = HasSent-then-Frame a h;
  all = inr refl;
  lines_sent = refl;
  total_lines = refl;
}
drained xs s t (ended (returned r l)) a h = record {
  count = length xs;
  has_sent = HasSent-then-Frame a h.0;
  all = inr refl;
  lines_sent = h.1.lines_sent;
  total_lines = h.1.total_lines;
}
drained xs s t (ended (lost l)) a h = (length xs, HasSent-then-Frame a h)
drained xs s t (ended (aborted l)) a h = HasCut-of xs (length xs) s l.self (HasSent-then-Frame a h)
drained xs s t (ended (waiting l)) a h = (length xs, HasSent-then-Frame a h)

stream_from-Streamed :
    (xs : List Text) (turns : List Turn) (tail : List Tick) (l : Locals)
    → EndStreamed xs l.self (stream_from xs turns tail l)
unfolding stream_from
stream_from-Streamed xs turns tail l = by_end (send_all 0 xs turns l) (send_all-Sent 0 xs turns l)
  where
    by_end :
        (e : LoopEnd)
        → LoopSent xs l.self e
        → EndStreamed xs l.self
            (ending_of (then_do (λ l'. await_acks tail (record l' { idle_polls = 0 })) e))
    by_end (goes_on l') h =
        drained xs l.self l'.self (await_acks tail (record l' { idle_polls = 0 })) h
          (await_acks-Frames tail (record l' { idle_polls = 0 }))
    by_end (ended e) h = of_sent xs l.self e h

-- How often the fail-safe reset is written: once if the result is a fault and the write succeeds; if
-- the write is cut off, the result says "cancelled", and the reset may be written all the same.
abbrev pub IsResetCount : Sent → StreamerResult → ℕ → Type 0
IsResetCount sent r n = n ≡ (if is_fault r then 1 else 0)
IsResetCount failed r n = n ≡ 0
IsResetCount (interrupted late) r n =
    (n ≡ 0) ⊎ ((n ≡ 1) × (late ≡ true) × (r.completed ≡ false) × (r.cancelled ≡ true))

-- What holds of a run over the lines `xs` from the streamer `s`, when it calls `on_done`.
pub record IsDone (xs : List Text) (w : Sent) (s : Streamer) (r : StreamerResult) (t : Streamer)
    : Type 0 where
  pub count : ℕ
  pub late : ℕ
  pub at_most_one : late ≤ 1
  pub only_cut : (late ≡ 0) ⊎ (r.cancelled ≡ true)
  pub lines_sent : t.lines_sent + late ≡ s.lines_sent + count
  pub result_lines : r.lines_sent ≡ t.lines_sent
  pub result_total : r.total_lines ≡ s.total_lines
  pub lines : code_lines t.written ≡ code_lines s.written ++ take count xs
  pub within : count ≤ length xs
  pub all : (r.completed ≡ false) ⊎ ((count ≡ length xs) × (late ≡ 0))
  pub reset_by : ℕ
  pub reset_count : resets t.written ≡ resets s.written + reset_by
  pub reset_why : IsResetCount w r reset_by

abbrev pub Ends : List Text → Sent → Streamer → RunEnd → Type 0
Ends xs w s (done r t) = IsDone xs w s r t
Ends xs w s (running t) = (n : ℕ) × HasSent xs n s t

no_reset_why : (w : Sent) (r : StreamerResult) → is_fault r ≡ false → IsResetCount w r 0
no_reset_why sent r q = rw q refl
no_reset_why failed r q = refl
no_reset_why (interrupted late) r q = inl refl

with_zero :
    (a : Bool) (n m k : ℕ) → k ≡ 0 → (a ≡ false) ⊎ (n ≡ m) → (a ≡ false) ⊎ ((n ≡ m) × (k ≡ 0))
with_zero a n m k z (inl q) = inl q
with_zero a n m k z (inr e) = inr (e, z)

-- A result that is no fault, or whose fail-safe leaves the lines alone.
IsDone-of_Streamed :
    (xs : List Text) (w : Sent) (s t u : Streamer) (r : StreamerResult) (n : ℕ)
    → Streamed xs s r t
    → u.lines_sent ≡ t.lines_sent
    → code_lines u.written ≡ code_lines t.written
    → resets u.written ≡ resets t.written + n
    → IsResetCount w r n
    → IsDone xs w s r u
IsDone-of_Streamed xs w s t u r n h ls ws rs why = record {
  count = h.count;
  late = 0;
  at_most_one = omega arith;
  only_cut = inl refl;
  lines_sent = omega (arith, h.has_sent.lines_sent, ls);
  result_lines = h.lines_sent ∙ sym ls;
  result_total = h.total_lines ∙ h.has_sent.total_lines;
  lines = ws ∙ h.has_sent.lines;
  within = h.has_sent.within;
  all = with_zero r.completed h.count (length xs) 0 refl h.all;
  reset_by = n;
  reset_count = omega (arith, h.has_sent.no_reset, rs);
  reset_why = why;
}

IsDone-quietly :
    (xs : List Text) (w : Sent) (s t : Streamer) (r : StreamerResult)
    → is_fault r ≡ false
    → Streamed xs s r t
    → IsDone xs w s r t
IsDone-quietly xs w s t r q h =
    IsDone-of_Streamed xs w s t t r 0 h refl refl (omega arith) (no_reset_why w r q)

-- The result of a run whose task was cancelled, `n` fail-safe resets after its last line.
cancelled_by :
    (xs : List Text) (w : Sent) (s t u : Streamer) (n : ℕ)
    → HasCut xs s t
    → u.lines_sent ≡ t.lines_sent
    → u.total_lines ≡ t.total_lines
    → code_lines u.written ≡ code_lines t.written
    → resets u.written ≡ resets t.written + n
    → IsResetCount w (cancelled_result u) n
    → IsDone xs w s (cancelled_result u) u
unfolding cancelled_result
cancelled_by xs w s t u n h ls total ws rs why = record {
  count = h.2;
  late = h.0;
  at_most_one = h.1;
  only_cut = inr refl;
  lines_sent = omega (arith, h.3.lines_sent, ls);
  result_lines = refl;
  result_total = total ∙ h.3.total_lines;
  lines = ws ∙ h.3.lines;
  within = h.3.within;
  all = inl refl;
  reset_by = n;
  reset_count = omega (arith, h.3.no_reset, rs);
  reset_why = why;
}

cancelled_quietly :
    (xs : List Text) (w : Sent) (s t : Streamer)
    → HasCut xs s t
    → IsDone xs w s (cancelled_result t) t
unfolding cancelled_result is_fault
cancelled_quietly xs w s t h =
    cancelled_by xs w s t t 0 h refl refl refl (omega arith)
      (no_reset_why w (cancelled_result t) refl)

after_reset : (t : Streamer) → code_lines (say soft_reset t).written ≡ code_lines t.written
after_reset t = code_lines-append t.written (soft_reset ∷ []) ∙ append-nil (code_lines t.written)

failsafe-Ends :
    (xs : List Text) (w : Sent) (s t : Streamer) (r : StreamerResult)
    → is_fault r ≡ true
    → Streamed xs s r t
    → Ends xs w s (failsafe_by w r t)
unfolding cancelled_result
failsafe-Ends xs sent s t r f h =
    IsDone-of_Streamed xs sent s t (say soft_reset t) r 1 h refl (after_reset t)
      (resets-append t.written (soft_reset ∷ [])) (rw f refl)
failsafe-Ends xs failed s t r f h =
    IsDone-of_Streamed xs failed s t t r 0 h refl refl (omega arith) refl
failsafe-Ends xs (interrupted true) s t r f h =
    cancelled_by xs (interrupted true) s t (say soft_reset t) 1
      (HasCut-of xs h.count s t h.has_sent) refl refl (after_reset t)
      (resets-append t.written (soft_reset ∷ [])) (inr (refl, refl, refl, refl))
failsafe-Ends xs (interrupted false) s t r f h =
    cancelled_by xs (interrupted false) s t t 0 (HasCut-of xs h.count s t h.has_sent) refl refl refl
      (omega arith) (inl refl)

conclude-Ends :
    (xs : List Text) (w : Sent) (s t : Streamer) (r : StreamerResult)
    → Streamed xs s r t
    → Ends xs w s (conclude w r t)
unfolding conclude
conclude-Ends xs w s t r h = elim (Bool-cases (is_fault r)) [
  | inl f ↦ rw f (failsafe-Ends xs w s t r f h)
  | inr q ↦ rw q (IsDone-quietly xs w s t r q h)
]

on_ending-Ends :
    (xs : List Text) (w : Sent) (s : Streamer) (e : Ending)
    → EndStreamed xs s e
    → Ends xs w s (on_ending w e)
unfolding on_ending
on_ending-Ends xs w s (returned r l) h = conclude-Ends xs w s l.self r h
on_ending-Ends xs w s (lost l) h = cancelled_quietly xs w s l.self (HasCut-of xs h.0 s l.self h.1)
on_ending-Ends xs w s (aborted l) h = cancelled_quietly xs w s l.self h
on_ending-Ends xs w s (waiting l) h = h

-- Nothing was sent before an internal error.
nothing_sent : (xs : List Text) (s : Streamer) → Streamed xs s (fault_result internal_error s) s
unfolding fault_result
nothing_sent xs s = record {
  count = 0;
  has_sent = record {
    lines_sent = omega arith;
    total_lines = refl;
    lines = sym (append-nil (code_lines s.written));
    within = omega arith;
    no_reset = refl;
  };
  all = inl refl;
  lines_sent = refl;
  total_lines = refl;
}

Streamed-of_Frame :
    {s t : Streamer} (xs : List Text) (e : Ending)
    → Frame s t
    → EndStreamed xs t e
    → EndStreamed xs s e
Streamed-of_Frame xs (returned r l) a h = record {
  count = h.count;
  has_sent = HasSent-of_Frame a h.has_sent;
  all = h.all;
  lines_sent = h.lines_sent;
  total_lines = h.total_lines;
}
Streamed-of_Frame xs (lost l) a h = (h.0, HasSent-of_Frame a h.1)
Streamed-of_Frame xs (aborted l) a h = (h.0, h.1, h.2, HasSent-of_Frame a h.3)
Streamed-of_Frame xs (waiting l) a h = (h.0, HasSent-of_Frame a h.1)

started-Frame : (now dwell : ℕ) (s : Streamer) → Frame s (start now dwell s).self
started-Frame now dwell s = record {
  lines_sent = refl;
  total_lines = refl;
  limits = refl;
  lines = refl;
  no_reset = refl;
}

stream_dwell-Ends :
    (env : Env) (xs : List Text) (dwell : Option ℕ) (s : Streamer)
    → Ends xs env.failsafe s (stream_dwell env xs dwell s)
stream_dwell-Ends env xs none s =
    conclude-Ends xs env.failsafe s s (fault_result internal_error s) (nothing_sent xs s)
stream_dwell-Ends env xs (some dwell) s =
    let l = start env.started dwell s in
    let e = stream_from xs env.turns env.tail l in
    on_ending-Ends xs env.failsafe s e (
      Streamed-of_Frame xs e (started-Frame env.started dwell s)
        (stream_from-Streamed xs env.turns env.tail l))

-- The lines that a run is about, and the streamer once it knows how many they are.
abbrev pub job_lines : Load → List Text
job_lines (loaded file) = load_lines file
job_lines load_failed = []
job_lines load_cancelled = []

abbrev total_of : Load → Streamer → ℕ
total_of (loaded file) s = length (load_lines file)
total_of load_failed s = s.total_lines
total_of load_cancelled s = s.total_lines

abbrev counted : Load → Streamer → Streamer
counted ld s = record s { total_lines = total_of ld s }

run_loaded-Ends :
    (env : Env) (ld : Load) (s : Streamer)
    → Ends (job_lines ld) env.failsafe (counted ld s) (run_loaded env ld s)
run_loaded-Ends env (loaded file) s =
    stream_dwell-Ends env (load_lines file) (max_dwell (load_lines file)) (counted (loaded file) s)
run_loaded-Ends env load_failed s =
    conclude-Ends [] env.failsafe s s (fault_result internal_error s) (nothing_sent [] s)
run_loaded-Ends env load_cancelled s =
    cancelled_quietly [] env.failsafe s s (HasCut-of [] 0 s s (HasSent-zero [] (Frame-refl s)))

abbrev pub final : RunEnd → Streamer
final (done r s) = s
final (running s) = s

take_whole {ℓ} : {A : Type ℓ} (xs : List A) → take (length xs) xs ≡ xs
take_whole [] = refl
take_whole (x ∷ xs) = ap (λ t. x ∷ t) (take_whole xs)

fresh-Ends :
    (env : Env) (limits : Limits) (now : ℕ)
    → Ends
        (job_lines env.load)
        env.failsafe
        (counted env.load (new_streamer limits now))
        (run env (new_streamer limits now))
unfolding run
fresh-Ends env limits now = run_loaded-Ends env env.load (new_streamer limits now)

-- How far the lines written may be ahead of their count: not at all, or by one, if the run has ended
-- with a result that says "cancelled".
abbrev pub MayLag : ℕ → RunEnd → Type 0
MayLag late (done r t) = (late ≤ 1) × ((late ≡ 0) ⊎ (r.cancelled ≡ true))
MayLag late (running t) = late ≡ 0

prefix_of_Ends :
    (xs : List Text) (w : Sent) (ld : Load) (limits : Limits) (now : ℕ) (e : RunEnd)
    → Ends xs w (counted ld (new_streamer limits now)) e
    → (late : ℕ) × MayLag late e
      × (code_lines (final e).written ≡ take ((final e).lines_sent + late) xs)
      × ((final e).lines_sent + late ≤ length xs)
unfolding new_streamer
prefix_of_Ends xs w ld limits now (done r t) h =
    let e : h.count ≡ t.lines_sent + h.late = omega (arith, h.lines_sent) in
    (
      h.late,
      (h.at_most_one, h.only_cut),
      subst (λ n. code_lines t.written ≡ take n xs) e h.lines,
      omega (arith, e, h.within),
    )
prefix_of_Ends xs w ld limits now (running t) h =
    let e : h.0 ≡ t.lines_sent + 0 = omega (arith, h.1.lines_sent) in
    (
      0,
      refl,
      subst (λ n. code_lines t.written ≡ take n xs) e h.1.lines,
      omega (arith, e, h.1.within),
    )

-- Whatever the controller, the operator and the serial port do, at the end of a run or while it
-- goes on, the lines of the job that a new streamer has written are the first of the non-blank lines
-- of the file, in order, each once, and as many as `lines_sent` counts; only when the task was
-- cancelled, so that the run has ended with a result that says "cancelled", may the line in the write
-- have been written and not counted.
pub run_writes_prefix :
    (env : Env) (limits : Limits) (now : ℕ)
    → (late : ℕ) × MayLag late (run env (new_streamer limits now))
      × (code_lines (final (run env (new_streamer limits now))).written
          ≡ take
              ((final (run env (new_streamer limits now))).lines_sent + late)
              (job_lines env.load))
      × ((final (run env (new_streamer limits now))).lines_sent + late
          ≤ length (job_lines env.load))
run_writes_prefix env limits now =
    prefix_of_Ends (job_lines env.load) env.failsafe env.load limits now
      (run env (new_streamer limits now)) (fresh-Ends env limits now)

completed_resets :
    (w : Sent) (r : StreamerResult) (n : ℕ) → r.completed ≡ true → IsResetCount w r n → n ≡ 0
unfolding is_fault
completed_resets sent r n c h = ground (arith, h)
completed_resets failed r n c h = h
completed_resets (interrupted late) r n c (inl e) = e
completed_resets (interrupted late) r n c (inr e) = absurd (ground (arith, e.2))

completed_of_done :
    (xs : List Text) (w : Sent) (ld : Load) (limits : Limits) (now : ℕ) (r : StreamerResult)
    (t : Streamer)
    → IsDone xs w (counted ld (new_streamer limits now)) r t
    → r.completed ≡ true
    → (code_lines t.written ≡ xs) × (r.lines_sent ≡ length xs) × (resets t.written ≡ 0)
unfolding new_streamer
completed_of_done xs w ld limits now r t h c = elim h.all [
  | inl q ↦ cc (q, c)
  | inr e ↦ (
    subst (λ n. code_lines t.written ≡ take n xs) e.0 h.lines ∙ take_whole xs,
    omega (arith, h.result_lines, h.lines_sent, e.0, e.1),
    omega (arith, h.reset_count, completed_resets w r h.reset_by c h.reset_why),
  )
]

-- If a run reports "completed", every non-blank line of the file was written, in order and once,
-- the result counts them all, and no fail-safe reset was sent.
pub completed_run_sent_all :
    (env : Env) (limits : Limits) (now : ℕ) (r : StreamerResult) (t : Streamer)
    → run env (new_streamer limits now) ≡ done r t
    → r.completed ≡ true
    → (code_lines t.written ≡ job_lines env.load)
      × (r.lines_sent ≡ length (job_lines env.load))
      × (resets t.written ≡ 0)
completed_run_sent_all env limits now r t e c =
    completed_of_done (job_lines env.load) env.failsafe env.load limits now r t
      (subst (Ends (job_lines env.load) env.failsafe (counted env.load (new_streamer limits now))) e
        (fresh-Ends env limits now))
      c

IsResetCount-of_done :
    (xs : List Text) (w : Sent) (ld : Load) (limits : Limits) (now : ℕ) (r : StreamerResult)
    (t : Streamer)
    → IsDone xs w (counted ld (new_streamer limits now)) r t
    → IsResetCount w r (resets t.written)
unfolding new_streamer
IsResetCount-of_done xs w ld limits now r t h =
    subst (IsResetCount w r) (sym (omega (arith, h.reset_count))) h.reset_why

-- When a run calls `on_done`, the fail-safe soft reset has been written exactly once if the result is
-- a fault and the write of the reset succeeds; if the write is cut off by a cancelled task and its
-- thread writes all the same, at most once, and then the result says "cancelled"; and never otherwise.
pub reset_exactly_on_fault :
    (env : Env) (limits : Limits) (now : ℕ) (r : StreamerResult) (t : Streamer)
    → run env (new_streamer limits now) ≡ done r t
    → IsResetCount env.failsafe r (resets t.written)
reset_exactly_on_fault env limits now r t e =
    IsResetCount-of_done (job_lines env.load) env.failsafe env.load limits now r t (
      subst (Ends (job_lines env.load) env.failsafe (counted env.load (new_streamer limits now))) e
        (fresh-Ends env limits now))
