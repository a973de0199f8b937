-- ===== src/Streamer/Prompt.antt =====
-- A controller that answers every line with "ok" in time, as streamer.py sees it, by the window of
-- lines in flight alone.
pub mod Answer
pub mod Room
pub mod Rest
pub mod Completes
pub mod Calmly
use grbl_proxy.Prelude.{
  ℕ, ◌+◌, ◌-◌, Bool, true, false, not, ◌&&◌, Option, none, some, List, [], ◌∷◌, ◌++◌, leb, ltb,
  if◌then◌else◌,
}
use grbl_proxy.Text.{Text, codes, same, is_empty}
use grbl_proxy.Protocol.Split.{split_responses}
use grbl_proxy.Streamer.Loop.{Read, line, timeout, disconnected, task_cancelled, Tick}
use grbl_proxy.Streamer.Run.{Sent, sent, failed, interrupted, Turn, line_bytes}

-- The lengths of the lines in flight, their sum, and the time of the last progress.
pub record Window : Type 0 where
  pub used : ℕ
  pub lengths : List ℕ
  pub last : ℕ

abbrev pub one_ok : List Text → Bool
one_ok (r ∷ []) = same r (codes "ok")
one_ok _ = false

abbrev pub reads_ok : Read → Bool
reads_ok (line text) = one_ok (split_responses text)
reads_ok _ = false

-- Nobody calls the streamer, and the line read is an "ok".
abbrev pub is_ack : Tick → Bool
is_ack t = is_empty t.ops && reads_ok t.read

abbrev pub popped : ℕ → ℕ → List ℕ → Window
popped now used [] = record { used = used; lengths = []; last = now }
popped now used (n ∷ rest) = record { used = used - n; lengths = rest; last = now }

-- The window after an "ok".
abbrev pub acknowledge : ℕ → Window → Window
acknowledge now w = popped now w.used w.lengths

abbrev pub is_sent : Sent → Bool
is_sent sent = true
is_sent _ = false

-- Nobody calls the streamer, and the write succeeds.
abbrev pub is_calm : Turn → Bool
is_calm t = is_empty t.gate && not t.gate_cancelled && is_empty t.write_ops && is_sent t.write

abbrev pub pushed : ℕ → Window → Window
pushed n w = record w { used = w.used + n; lengths = w.lengths ++ n ∷ [] }

-- `rx` is the size of the receive buffer, `patience` how long the watchdog waits.
module _ (rx patience : ℕ) where
  -- an "ok" in time
  abbrev pub in_time : Tick → Window → Bool
  in_time t w = is_ack t && ltb t.before (w.last + patience)

  -- Is every "ok" that a line of `n` bytes waits for in time? The window then.
  unfoldable pub room_in_time : ℕ → List Tick → Window → Option Window
  room_in_time n [] w = if leb (w.used + n) rx then some w else none
  room_in_time n (t ∷ ts) w =
      let later = room_in_time n ts (acknowledge t.after w) in
      if leb (w.used + n) rx then some w else if in_time t w then later else none

  -- Is every "ok" that the trailing drain waits for in time?
  unfoldable pub drain_in_time : List Tick → Window → Bool
  drain_in_time [] w = is_empty w.lengths
  drain_in_time (t ∷ ts) w =
      let later = drain_in_time ts (acknowledge t.after w) in
      if is_empty w.lengths then true else in_time t w && later

  -- The same for all lines, each sent in a calm turn, and for the drain after them.
  unfoldable pub all_in_time : List Text → List Turn → List Tick → Window → Bool
  unfolding room_in_time drain_in_time line_bytes
  all_in_time [] turns tail w = drain_in_time tail w
  all_in_time (x ∷ xs) [] tail w = false
  all_in_time (x ∷ xs) (t ∷ ts) tail w = elim (room_in_time (line_bytes x) t.ticks w) [
    | none ↦ false
    | some w' ↦ is_calm t && all_in_time xs ts tail (pushed (line_bytes x) w')
  ]
