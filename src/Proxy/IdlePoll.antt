-- ===== src/Proxy/IdlePoll.antt =====
-- The idle poll of proxy_core.py: the task, and a round of its loop.
use grbl_proxy.Prelude.{Bool, true, false, not, Option, List, [], ◌∷◌, if◌then◌else◌}
use grbl_proxy.Text.{Text}
use grbl_proxy.Proxy.{ProxyState, disconnected, Proxy, Effect, forward, dropped}
use grbl_proxy.Proxy.Poll.{drain_serial}

abbrev is_disconnected : ProxyState → Bool
is_disconnected disconnected = true
is_disconnected _ = false

-- What the environment answers in a round: is the port connected, does the write succeed, and what
-- the reads return.
pub record PollIo : Type 0 where
  pub connected : Bool
  pub write_ok : Bool
  pub reads : List (Option Text)

-- one round of _idle_poll_loop, after the sleep
unfoldable pub idle_poll_round : PollIo → Proxy → Proxy × List Effect
unfolding drain_serial
idle_poll_round io p =
    if not (is_disconnected p.state)
    then (p, [])
    else if p.idle_poll_suspended
    then (p, [])
    else if not io.connected
    then (p, [])
    else if io.write_ok
    then (drain_serial io.reads p, forward (b'?' ∷ []) ∷ [])
    else (p, dropped (b'?' ∷ []) ∷ [])
