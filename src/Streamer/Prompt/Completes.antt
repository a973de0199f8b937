-- ===== src/Streamer/Prompt/Completes.antt =====
-- A run of streamer.py with a controller that answers in time.
use grbl_proxy.Prelude.{
  ℕ, ◌+◌, ◌≡◌, refl, sym, ap, subst, ◌∙◌, Bool, true, false, ◌&&◌, Option, none, some, List, [],
  ◌∷◌, length, arith,
}
use grbl_proxy.Text.{Text}
use grbl_proxy.Text.Parts.{both_pass}
use grbl_proxy.Streamer.{Limits, Streamer, StreamerResult, new_streamer}
use grbl_proxy.Streamer.Loop.{Locals, LoopEnd, goes_on, ended, Tick, completed_result}
use grbl_proxy.Streamer.Dwell.{max_dwell}
use grbl_proxy.Streamer.Frame.{code_lines}
use grbl_proxy.Streamer.Delivery.{completed_run_sent_all, job_lines}
use grbl_proxy.Streamer.Run.{
  Turn, line_bytes, await_acks, then_do, send_turn, send_all, start, Env, loaded, load_lines,
  RunEnd, done, run, stream_from, ending_of, on_ending, conclude, is_fault, run_loaded,
  stream_dwell, Sent,
}
use grbl_proxy.Streamer.Prompt.{Window, is_calm, pushed, room_in_time, all_in_time}
use grbl_proxy.Streamer.Prompt.Room.{Fits, GoesOn}
use grbl_proxy.Streamer.Prompt.Rest.{IsOver, await_acks-IsOver}
use grbl_proxy.Streamer.Prompt.Calmly.{CalmTurn-of, then-GoesOn, send_turn-GoesOn}

-- the trailing drain
abbrev rest : List Tick → Locals → LoopEnd
rest tail l = await_acks tail (record l { idle_polls = 0 })

-- The wait for room of a line, then the rest of the lines.
line_by_line :
    (x : Text) (t : Turn) (tail : List Tick) (limits : Limits) (dwell : ℕ) (w : Window)
    (others : Locals → LoopEnd) (turned : LoopEnd) (in_time : Window → Bool) (room : Option Window)
    → ((v : Window)
        → is_calm t ≡ true
        → room ≡ some v
        → GoesOn limits dwell (pushed (line_bytes x) v) turned)
    → ((v : Window) (l : Locals)
        → in_time v ≡ true
        → Fits limits dwell (pushed (line_bytes x) v) l
        → IsOver (then_do (rest tail) (others l)))
    → elim room [ none ↦ false | some v ↦ is_calm t && in_time v ] ≡ true
    → IsOver (then_do (rest tail) (then_do others turned))
line_by_line x t tail limits dwell w others turned in_time none one later h = absurd (ground arith)
line_by_line x t tail limits dwell w others turned in_time (some v) one later h =
    let (calm, k) = both_pass (is_calm t) (in_time v) h in
    then-GoesOn others (λ e. IsOver (then_do (rest tail) e)) limits dwell (pushed (line_bytes x) v)
      turned (one v calm refl) (λ l f. later v l k f)

send_all-IsOver :
    (i : ℕ) (lines : List Text) (turns : List Turn) (tail : List Tick) (limits : Limits) (dwell : ℕ)
    (w : Window) (l : Locals)
    → Fits limits dwell w l
    → all_in_time limits.rx_size (limits.stall + dwell) lines turns tail w ≡ true
    → IsOver (then_do (rest tail) (send_all i lines turns l))
unfolding send_all all_in_time
send_all-IsOver i [] turns tail limits dwell w l h e =
    await_acks-IsOver tail limits dwell w (record l { idle_polls = 0 })
      (record {
        calm = record {
          limited = h.shows.calm.limited;
          paused = h.shows.calm.paused;
          cancelled = h.shows.calm.cancelled;
          hold = h.shows.calm.hold;
          dwelling = h.shows.calm.dwelling;
          progress = h.shows.calm.progress;
        };
        lengths = h.shows.lengths;
        pending = h.shows.pending;
      })
      e
send_all-IsOver i (x ∷ xs) [] tail limits dwell w l h e = absurd (ground arith)
send_all-IsOver i (x ∷ xs) (t ∷ ts) tail limits dwell w l h e =
    let patience = limits.stall + dwell in
    line_by_line x t tail limits dwell w (send_all (i + 1) xs ts) (send_turn i x t l)
      (λ v. all_in_time limits.rx_size patience xs ts tail (pushed (line_bytes x) v))
      (room_in_time limits.rx_size patience (line_bytes x) t.ticks w)
      (λ v calm k. send_turn-GoesOn i x t limits dwell w v l (CalmTurn-of t calm) h k)
      (λ v l' k f. send_all-IsOver (i + 1) xs ts tail limits dwell (pushed (line_bytes x) v) l' f k)
      e

-- The window at the top of _stream_lines.
abbrev pub empty_window : ℕ → Window
empty_window now = record { used = 0; lengths = []; last = now }

start-Fits :
    (limits : Limits) (now created dwell total : ℕ)
    → Fits limits dwell
        (empty_window now)
        (start now dwell (record (new_streamer limits created) { total_lines = total }))
unfolding new_streamer
start-Fits limits now created dwell total = record {
  shows = record {
    calm = record {
      limited = refl;
      paused = refl;
      cancelled = refl;
      hold = refl;
      dwelling = refl;
      progress = refl;
    };
    lengths = refl;
    pending = refl;
  };
  used = refl;
}

abbrev IsCompleted : RunEnd → Type 0
IsCompleted e = (r : StreamerResult) × (t : Streamer) × (e ≡ done r t) × (r.completed ≡ true)

IsCompleted-at_end : (w : Sent) (e : LoopEnd) → IsOver e → IsCompleted (on_ending w (ending_of e))
unfolding on_ending conclude is_fault completed_result
IsCompleted-at_end w (goes_on l) h = (completed_result l.self, l.self, refl, refl)
IsCompleted-at_end w (ended e) h = absurd h

run_completes :
    (env : Env) (file : List Text) (limits : Limits) (now dwell : ℕ)
    → env.load ≡ loaded file
    → max_dwell (load_lines file) ≡ some dwell
    → all_in_time limits.rx_size
        (limits.stall + dwell)
        (load_lines file)
        env.turns
        env.tail
        (empty_window env.started)
      ≡ true
    → IsCompleted (run env (new_streamer limits now))
unfolding run stream_from
run_completes env file limits now dwell ld longest h =
    let s = record (new_streamer limits now) { total_lines = length (load_lines file) } in
    subst IsCompleted
      (sym (
        ap (λ k. run_loaded env k (new_streamer limits now)) ld
        ∙ ap (λ d. stream_dwell env (load_lines file) d s) longest))
      (IsCompleted-at_end env.failsafe
        (then_do (rest env.tail)
          (send_all 0 (load_lines file) env.turns (start env.started dwell s)))
        (send_all-IsOver 0 (load_lines file) env.turns env.tail limits dwell
          (empty_window env.started) (start env.started dwell s)
          (start-Fits limits env.started now dwell (length (load_lines file))) h))

-- If the file is loaded and its longest dwell found, every line has a turn in which nobody calls the
-- streamer and the write succeeds, and every read that the window waits for is an "ok" within the
-- patience of the watchdog (`all_in_time`, which looks at the window alone), then `run` ends, its
-- result says "completed", and the lines it has written are those of the file that are not blank.
pub prompt_controller_completes :
    (env : Env) (file : List Text) (limits : Limits) (now dwell : ℕ)
    → env.load ≡ loaded file
    → max_dwell (load_lines file) ≡ some dwell
    → all_in_time limits.rx_size
        (limits.stall + dwell)
        (load_lines file)
        env.turns
        env.tail
        (empty_window env.started)
      ≡ true
    → (r : StreamerResult) × (t : Streamer) × (run env (new_streamer limits now) ≡ done r t)
      × (r.completed ≡ true)
      × (code_lines t.written ≡ load_lines file)
prompt_controller_completes env file limits now dwell ld longest h =
    let c = run_completes env file limits now dwell ld longest h in
    let all = completed_run_sent_all env limits now c.0 c.1 c.2 c.3 in
    (c.0, c.1, c.2, c.3, all.0 ∙ ap job_lines ld)
