-- ===== src/Proxy/Acks.antt =====
-- How often process_client_line of proxy_core.py answers a line or passes it on.
use grbl_proxy.Prelude.{
  ℕ, ◌+◌, ◌≡◌, refl, Bool, true, false, not, ◌&&◌, List, [], ◌∷◌, arith, if◌then◌else◌,
}
use grbl_proxy.Text.{Text, is_empty}
use grbl_proxy.Proxy.{
  disconnected, passthrough, buffering, executing, paused, error, Proxy, Io, Effect, reply, forward,
  dropped, sunk, raised,
}
use grbl_proxy.Proxy.Life.{enter_buffering}
use grbl_proxy.Proxy.Lines.{
  process_client_line, line_by_state, line_in_passthrough, line_in_error, line_in_buffering,
  line_in_buffering_cases, check_job_start, is_unlock, is_laser_off,
}

-- An answer of the proxy, or bytes on their way to the controller, which answers them.
abbrev acks : Effect → ℕ
acks (reply r) = 1
acks (forward bytes) = 1
acks (dropped bytes) = 0
acks (sunk bytes) = 1
acks raised = 0

abbrev pub ack_count : List Effect → ℕ
ack_count [] = 0
ack_count (e ∷ es) = acks e + ack_count es

-- When a line is neither answered nor written nor appended: no client; a job start whose file cannot
-- be opened; a write that fails, but for a laser-off in the error state.
unfoldable pub is_lost : Io → Bool → Text → Proxy → Bool
is_lost io sink line p = elim p.state [
  | disconnected ↦ true
  | passthrough ↦ if check_job_start p line then not io.open_ok else not sink && not io.serial_ok
  | error ↦ not (is_empty line) && not (is_laser_off line) && is_unlock line && not io.serial_ok
  | _ ↦ false
]

acks_in_passthrough :
    (io : Io) (sink : Bool) (line : Text) (p : Proxy)
    → ack_count (line_in_passthrough io sink line p).1 ≡ (
        if (if check_job_start p line then not io.open_ok else not sink && not io.serial_ok)
        then 0
        else 1)
unfolding line_in_passthrough enter_buffering
acks_in_passthrough io sink line p = ground arith

acks_in_error :
    (io : Io) (line : Text) (p : Proxy)
    → ack_count (line_in_error io line p).1 ≡ (
        if not (is_empty line) && not (is_laser_off line) && is_unlock line && not io.serial_ok
        then 0
        else 1)
unfolding line_in_error
acks_in_error io line p = ground arith

acks_in_buffering :
    (io : Io) (line : Text) (p : Proxy) → ack_count (line_in_buffering io line p).1 ≡ 1
acks_in_buffering io line p =
    line_in_buffering_cases (λ r. ack_count r.1 ≡ 1) io line p (λ _. refl) (λ _. refl) (λ _ _. refl)
      (λ _ _. refl)

-- A line of the client that process_client_line takes is answered, written to the serial port or
-- appended to the bytes that the caller writes exactly once, in every state, and never twice; none of
-- these happens in the cases that `is_lost` lists, and only in those. (Whether the caller's one write
-- of its bytes succeeds comes after that.)
pub one_ack :
    (io : Io) (sink : Bool) (line : Text) (p : Proxy)
    → ack_count (process_client_line io sink line p).1 ≡ (if is_lost io sink line p then 0 else 1)
unfolding process_client_line line_by_state is_lost
one_ack io sink line p =
    elim p.state
      as (λ s. ack_count (line_by_state io sink line s p).1 ≡ (
        if (elim s [
          | disconnected ↦ true
          | passthrough ↦
              if check_job_start p line then not io.open_ok else not sink && not io.serial_ok
          | error ↦
              not (is_empty line) && not (is_laser_off line) && is_unlock line && not io.serial_ok
          | _ ↦ false
        ])
        then 0
        else 1)) [
          | disconnected ↦ refl
          | passthrough ↦ acks_in_passthrough io sink line p
          | buffering ↦ acks_in_buffering io line p
          | executing ↦ refl
          | paused ↦ refl
          | error ↦ acks_in_error io line p
        ]
