-- ===== src/Serial/Recovery.antt =====
-- serial_conn.py connects again once the device is back.
use grbl_proxy.Prelude.{
  ℕ, ◌+◌, arith, ◌≡◌, refl, ◌≤◌, Bool, true, false, not, ◌&&◌, ◌||◌, Option, none, some, List, [],
  ◌∷◌, ◌++◌, leb, Bool-cases, inl, inr, subst, sym, map, ◌∙◌,
}
use grbl_proxy.Text.{Text, same}
use grbl_proxy.Serial.{
  Serial, Opening, opened, refused, timed_out, settle_time, close_immediately, open_port, connect,
}
use grbl_proxy.Serial.Reconnect.{
  Round, rescan_port, release_fd, attempt_open, may_open, await_port, tick, ticked, happen,
  happen_all, IsValid, tick-IsValid,
}

abbrev pub is_opened : Opening → Bool
is_opened opened = true
is_opened refused = false
is_opened timed_out = false

abbrev pub is_newest : Text → List Text → Bool
is_newest port [] = true
is_newest port (newest ∷ others) = same newest port

-- A round in which the device is there under the name `port` and can be opened.
abbrev pub answers : Text → Round → Bool
answers port r =
    r.existed port && r.exists port && is_newest port r.candidates && is_opened r.opening

abbrev pub all_answer : Text → List Round → Bool
all_answer port [] = true
all_answer port (r ∷ rs) = answers port r && all_answer port rs

abbrev pub seen_by : ℕ → Option ℕ → Bool
seen_by t none = false
seen_by t (some seen) = leb seen t

rescan_port-same :
    (ports : List Text) (s : Serial) → is_newest s.port ports ≡ true → rescan_port ports s ≡ s
unfolding rescan_port
rescan_port-same [] s h = refl
rescan_port-same (newest ∷ others) s h = ground arith

release_fd-connected :
    (r : Round) (s : Serial)
    → IsValid s
    → s.connected ≡ true
    → r.existed s.port ≡ true
    → release_fd r s ≡ s
unfolding release_fd
release_fd-connected r s v c h = ground arith

-- What releasing the descriptor leaves alone.
record IsReleased (s t : Serial) : Type 0 where
  port : t.port ≡ s.port
  shutting_down : t.shutting_down ≡ s.shutting_down
  next_attempt : t.next_attempt ≡ s.next_attempt
  port_first_seen : t.port_first_seen ≡ s.port_first_seen
  disconnected : (t.connected && not s.connected) ≡ false

release_fd-IsReleased : (r : Round) (s : Serial) → IsReleased s (release_fd r s)
unfolding release_fd close_immediately
release_fd-IsReleased r s = ground arith

await_port-present :
    (r : Round) (s : Serial)
    → s.shutting_down ≡ false
    → r.exists s.port ≡ true
    → is_opened r.opening ≡ true
    → (await_port r s).connected ≡ (s.connected || may_open r s)
unfolding await_port may_open attempt_open connect open_port
await_port-present r s alive there opens = ground arith

-- the device is seen by `t`, or is about to be, in a round at `now`
abbrev pub to_be_seen : ℕ → ℕ → Option ℕ → Bool
to_be_seen t now none = leb now t
to_be_seen t now (some seen) = leb seen t

-- A disconnected round that finds the device goes on waiting, or connects.
record IsRound (t n : ℕ) (s q : Serial) : Type 0 where
  alive : q.shutting_down ≡ s.shutting_down
  port : q.port ≡ s.port
  waits : (q.connected || (seen_by t q.port_first_seen && leb q.next_attempt n)) ≡ true

await_port-IsRound :
    (t n : ℕ) (r : Round) (s : Serial)
    → s.shutting_down ≡ false
    → r.exists s.port ≡ true
    → is_opened r.opening ≡ true
    → to_be_seen t r.now s.port_first_seen ≡ true
    → leb s.next_attempt n ≡ true
    → IsRound t n s (await_port r s)
unfolding await_port may_open attempt_open connect open_port
await_port-IsRound t n r s alive there opens seen next = ground arith

-- What a disconnected round comes down to while the device answers.
tick-disconnected :
    (r : Round) (s : Serial)
    → s.shutting_down ≡ false
    → s.connected ≡ false
    → answers s.port r ≡ true
    → tick r s ≡ await_port r (release_fd r s)
unfolding tick
tick-disconnected r s alive down h =
    let kept = release_fd-IsReleased r s in
    ground (arith, kept, rescan_port-same r.candidates (release_fd r s))

tick-connected :
    (r : Round) (s : Serial)
    → IsValid s
    → s.shutting_down ≡ false
    → s.connected ≡ true
    → answers s.port r ≡ true
    → tick r s ≡ s
unfolding tick
tick-connected r s v alive c h = ground (arith, release_fd-connected r s v c)

tick-IsRound :
    (t n : ℕ) (r : Round) (s : Serial)
    → IsValid s
    → s.shutting_down ≡ false
    → answers s.port r ≡ true
    → (s.connected || (to_be_seen t r.now s.port_first_seen && leb s.next_attempt n)) ≡ true
    → IsRound t n s (tick r s)
tick-IsRound t n r s v alive h waits = elim (Bool-cases s.connected) [
  | inl up ↦
      subst (IsRound t n s) (sym (tick-connected r s v alive up h))
        (record { alive = refl; port = refl; waits = ground (arith, up) })
  | inr down ↦
      let kept = release_fd-IsReleased r s in
      let q = release_fd r s in
      subst (IsRound t n s) (sym (tick-disconnected r s alive down h))
        (ground (arith, await_port-IsRound t n r q))
]

-- The connection to `port` is up, or the device has been seen by `t` and may be opened from `n` on.
record IsWaiting (port : Text) (t n : ℕ) (s : Serial) : Type 0 where
  alive : s.shutting_down ≡ false
  valid : IsValid s
  at_port : s.port ≡ port
  waits : (s.connected || (seen_by t s.port_first_seen && leb s.next_attempt n)) ≡ true

tick-IsWaiting :
    (t n : ℕ) (r : Round) (s : Serial)
    → IsValid s
    → s.shutting_down ≡ false
    → answers s.port r ≡ true
    → (s.connected || (to_be_seen t r.now s.port_first_seen && leb s.next_attempt n)) ≡ true
    → IsWaiting s.port t n (tick r s)
tick-IsWaiting t n r s v alive h waits =
    let q = tick-IsRound t n r s v alive h waits in
    record {
      alive = q.alive ∙ alive;
      valid = tick-IsValid r s v;
      at_port = q.port;
      waits = q.waits;
    }

next-IsWaiting :
    (port : Text) (t n : ℕ) (r : Round) (s : Serial)
    → IsWaiting port t n s
    → answers port r ≡ true
    → IsWaiting port t n (tick r s)
next-IsWaiting port t n r s w h =
    subst (λ p. IsWaiting p t n (tick r s)) w.at_port
      (tick-IsWaiting t n r s w.valid w.alive (subst (λ p. answers p r ≡ true) (sym w.at_port) h)
        (ground (arith, w.waits)))

may_open-settled :
    (t n : ℕ) (r : Round) (s : Serial)
    → (seen_by t s.port_first_seen && leb s.next_attempt n) ≡ true
    → t + settle_time ≤ r.now
    → n ≤ r.now
    → may_open r s ≡ true
unfolding may_open
may_open-settled t n r s h late next = ground arith

tick-connects :
    (port : Text) (t n : ℕ) (r : Round) (s : Serial)
    → IsWaiting port t n s
    → answers port r ≡ true
    → t + settle_time ≤ r.now
    → n ≤ r.now
    → (tick r s).connected ≡ true
tick-connects port t n r s w h late next =
    let h' : answers s.port r ≡ true = subst (λ p. answers p r ≡ true) (sym w.at_port) h in
    elim (Bool-cases s.connected) [
      | inl up ↦ subst (λ q. q.connected ≡ true) (sym (tick-connected r s w.valid w.alive up h')) up
      | inr down ↦
          let q = release_fd r s in
          let kept = release_fd-IsReleased r s in
          subst (λ x. x.connected ≡ true) (sym (tick-disconnected r s w.alive down h'))
            (ground (
              arith,
              await_port-present r q,
              may_open-settled t n r q (ground (arith, w.waits, down, kept)) late next,
            ))
    ]

rounds_connect :
    (port : Text) (t n : ℕ) (rs : List Round) (last : Round) (s : Serial)
    → IsWaiting port t n s
    → all_answer port rs ≡ true
    → answers port last ≡ true
    → t + settle_time ≤ last.now
    → n ≤ last.now
    → (happen_all (map ticked (rs ++ last ∷ [])) s).connected ≡ true
unfolding happen_all happen
rounds_connect port t n [] last s w hs h late next = tick-connects port t n last s w h late next
rounds_connect port t n (r ∷ rs) last s w hs h late next =
    rounds_connect port t n rs last (tick r s) (next-IsWaiting port t n r s w (ground arith))
      (ground arith) h late next

-- Once the device is back, the proxy connects: from a connection that is valid and not shutting
-- down, and a device that answers every round under the connection's port (its file exists, no
-- other candidate is newer, it can be opened), a run of rounds, the last of them two seconds or more
-- after the first, which is not before the device was first seen, and not before the next attempt is due, ends connected.
pub device_back_connects :
    (first : Round) (rs : List Round) (last : Round) (s : Serial)
    → IsValid s
    → s.shutting_down ≡ false
    → to_be_seen first.now first.now s.port_first_seen ≡ true
    → all_answer s.port (first ∷ rs) ≡ true
    → answers s.port last ≡ true
    → first.now + settle_time ≤ last.now
    → s.next_attempt ≤ last.now
    → (happen_all (map ticked (first ∷ rs ++ last ∷ [])) s).connected ≡ true
unfolding happen_all happen
device_back_connects first rs last s v alive seen hs h late next =
    rounds_connect s.port first.now last.now rs last (tick first s)
      (tick-IsWaiting first.now last.now first s v alive (ground arith)
        (ground (arith, seen, next)))
      (ground arith) h late (omega arith)
