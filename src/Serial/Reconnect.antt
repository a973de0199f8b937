-- ===== src/Serial/Reconnect.antt =====
-- run_reconnect_loop of serial_conn.py: one round of the loop, and everything that changes the
-- connection while the proxy runs.
use grbl_proxy.Prelude.{
  ℕ, ◌+◌, ◌-◌, arith, ◌≡◌, refl, Bool, true, false, Bool-cases, inl, inr, subst, sym, not, ◌&&◌,
  none, some, List, [], ◌∷◌, leb, if◌then◌else◌,
}
use grbl_proxy.Text.{Text, same}
use grbl_proxy.Serial.{
  Serial, Opening, settle_time, close_immediately, note_io_failure, open_port, connect, late_open,
  signal_shutdown, disconnect, new_serial,
}

-- What the environment answers to one round: the time, which device files exist before and after
-- the rescan, the candidates, how opening ends and when.
pub record Round : Type 0 where
  pub now : ℕ
  pub existed : Text → Bool
  pub exists : Text → Bool
  pub candidates : List Text
  pub opening : Opening
  pub opened_time : ℕ

-- _rescan_port
unfoldable pub rescan_port : List Text → Serial → Serial
rescan_port [] s = s
rescan_port (newest ∷ others) s =
    if s.auto_detect && not (same newest s.port)
    then record s { port = newest; port_first_seen = none }
    else s

-- the fd given up if its device is gone or it is marked disconnected
unfoldable pub release_fd : Round → Serial → Serial
unfolding close_immediately
release_fd r s =
    if s.is_open && (if r.existed s.port then not s.connected else true)
    then close_immediately s
    else s

-- an attempt to open the port, under `wait_for`
unfoldable pub attempt_open : Round → Serial → Serial
unfolding connect
attempt_open r s =
    (connect r.opened_time r.opening (record s { next_attempt = r.now + s.reconnect_interval })).0

-- has the device settled, and may the port be opened again?
unfoldable pub may_open : Round → Serial → Bool
may_open r s = elim s.port_first_seen [
  | none ↦ false
  | some seen ↦ leb settle_time (r.now - seen) && leb s.next_attempt r.now
]

-- the part of the round that waits for the device
unfoldable pub await_port : Round → Serial → Serial
unfolding may_open attempt_open
await_port r s =
    if not (r.exists s.port) then record s { port_first_seen = none } else elim s.port_first_seen [
      | none ↦ record s { port_first_seen = some r.now }
      | some seen ↦ if may_open r s then attempt_open r s else s
    ]

-- one round of the loop, up to the sleep
unfoldable pub tick : Round → Serial → Serial
unfolding release_fd rescan_port await_port
tick r s =
    let s' = release_fd r s in
    if s.shutting_down
    then s
    else if s'.connected
    then s'
    else await_port r (rescan_port r.candidates s')

-- whether the round opens the port
unfoldable pub attempts : Round → Serial → Bool
unfolding release_fd rescan_port may_open
attempts r s =
    let s' = rescan_port r.candidates (release_fd r s) in
    not s.shutting_down && not (release_fd r s).connected && r.exists s'.port && may_open r s'

-- What happens to the connection after `connect`: a round of the loop, a write that
-- succeeds, a read or a write that fails, a close, an opening given up that is done after all, a
-- shutdown. A read that succeeds changes the buffer alone.
pub data Event : Type 0 where
  ticked : Round → Event
  wrote : ℕ → Event
  io_failed : ℕ → Event
  closed : Event
  opened_late : ℕ → Event
  shut_down : Event
  disconnected : Event

unfoldable pub happen : Event → Serial → Serial
unfolding tick close_immediately note_io_failure late_open signal_shutdown disconnect
happen (ticked r) s = tick r s
happen (wrote now) s = record s { last_write_at = now }
happen (io_failed now) s = close_immediately (note_io_failure now s)
happen closed s = close_immediately s
happen (opened_late now) s = late_open now s
happen shut_down s = signal_shutdown s
happen disconnected s = disconnect s

unfoldable pub happen_all : List Event → Serial → Serial
unfolding happen
happen_all [] s = s
happen_all (e ∷ es) s = happen_all es (happen e s)

-- A connection that counts as connected has an open port.
pub record IsValid (s : Serial) : Type 0 where
  pub open_if : (s.connected && not s.is_open) ≡ false

-- After a round: the port is open exactly if it counts as connected, and then its device was there.
pub record IsClean (r : Round) (s : Serial) : Type 0 where
  pub open_iff : s.is_open ≡ s.connected
  pub present : (s.is_open && not (r.existed s.port) && not (r.exists s.port)) ≡ false

release_fd-IsClean : (r : Round) (s : Serial) → IsValid s → IsClean r (release_fd r s)
unfolding release_fd close_immediately
release_fd-IsClean r s v = ground arith

-- What the rescan leaves alone.
pub record IsRescanned (s t : Serial) : Type 0 where
  pub is_open : t.is_open ≡ s.is_open
  pub connected : t.connected ≡ s.connected
  pub next_attempt : t.next_attempt ≡ s.next_attempt
  pub reconnect_interval : t.reconnect_interval ≡ s.reconnect_interval

pub rescan_port-IsRescanned : (ports : List Text) (s : Serial) → IsRescanned s (rescan_port ports s)
unfolding rescan_port
rescan_port-IsRescanned [] s = ground arith
rescan_port-IsRescanned (newest ∷ others) s = ground arith

attempt_open-IsClean :
    (r : Round) (s : Serial)
    → s.connected ≡ false
    → s.is_open ≡ false
    → r.exists s.port ≡ true
    → IsClean r (attempt_open r s)
unfolding attempt_open connect open_port
attempt_open-IsClean r s d h e = ground arith

await_port-IsClean :
    (r : Round) (s : Serial) → s.connected ≡ false → s.is_open ≡ false → IsClean r (await_port r s)
unfolding await_port
await_port-IsClean r s d h = ground (arith, attempt_open-IsClean r s d h)

closed_of_Clean : (r : Round) (s : Serial) → s.connected ≡ false → IsClean r s → s.is_open ≡ false
closed_of_Clean r s h c = ground arith

-- A round keeps no port open that it should not: if a connection that counts as connected has an
-- open port, then after a round of run_reconnect_loop, not shutting down, the port is open exactly
-- if the connection counts as connected, and only with a device file that was there in that round.
-- So a descriptor that a failed write, a vanished device or an opening given up has left behind is
-- closed within one round.
pub tick-IsClean :
    (r : Round) (s : Serial) → s.shutting_down ≡ false → IsValid s → IsClean r (tick r s)
unfolding tick
tick-IsClean r s alive v =
    let s' = release_fd r s in
    let kept = release_fd-IsClean r s v in
    let frame = rescan_port-IsRescanned r.candidates s' in
    ground
      (arith, kept, closed_of_Clean r s', frame, await_port-IsClean r (rescan_port r.candidates s'))

tick-stopped : (r : Round) (s : Serial) → s.shutting_down ≡ true → tick r s ≡ s
unfolding tick
tick-stopped r s down = rw down refl

IsClean-IsValid : (r : Round) (s : Serial) → IsClean r s → IsValid s
IsClean-IsValid r s c = ground arith

pub tick-IsValid : (r : Round) (s : Serial) → IsValid s → IsValid (tick r s)
tick-IsValid r s v = elim (Bool-cases s.shutting_down) [
  | inl down ↦ subst IsValid (sym (tick-stopped r s down)) v
  | inr alive ↦ IsClean-IsValid r (tick r s) (tick-IsClean r s alive v)
]

happen-IsValid : (e : Event) (s : Serial) → IsValid s → IsValid (happen e s)
unfolding happen close_immediately late_open note_io_failure signal_shutdown disconnect
happen-IsValid (ticked r) s v = tick-IsValid r s v
happen-IsValid (wrote now) s v = ground arith
happen-IsValid (io_failed now) s v = ground arith
happen-IsValid closed s v = ground arith
happen-IsValid (opened_late now) s v = ground arith
happen-IsValid shut_down s v = ground arith
happen-IsValid disconnected s v = ground arith

happen_all_lem : (es : List Event) (s : Serial) → IsValid s → IsValid (happen_all es s)
unfolding happen_all
happen_all_lem [] s v = v
happen_all_lem (e ∷ es) s v = happen_all_lem es (happen e s) (happen-IsValid e s v)

-- Whatever happens to a new connection after its first `connect`, successful or not, in any order:
-- if it counts as connected, its port is open.
pub happen_all-IsValid :
    (interval now : ℕ) (port : Text) (auto_detect : Bool) (result : Opening) (es : List Event)
    → IsValid (happen_all es (connect now result (new_serial interval port auto_detect)).0)
unfolding new_serial connect open_port
happen_all-IsValid interval now port auto_detect result es =
    let first = (connect now result (new_serial interval port auto_detect)).0 in
    happen_all_lem es first (ground arith)
