-- ===== src/Tcp/Resets.antt =====
-- When tcp_server.py resets the controller for a new client, and what it leaves of a job.
use grbl_proxy.Prelude.{Bool, ◌&&◌, List, [], ◌∷◌, if◌then◌else◌}
use grbl_proxy.Text.{Text}
use grbl_proxy.Proxy.{ProxyState, passthrough, executing, paused, error, Proxy}
use grbl_proxy.Proxy.Client.{on_client_connected, on_client_disconnected}
use grbl_proxy.Proxy.Poll.{suspend_idle_poll}
use grbl_proxy.Tcp.Session.{Output, to_serial, to_client, Greeting, is_passthrough}

-- What is written to the controller.
abbrev pub serial_writes : List Output → List Text
serial_writes [] = []
serial_writes (to_serial bytes ∷ os) = bytes ∷ serial_writes os
serial_writes (to_client line ∷ os) = serial_writes os

-- The state in which a new client finds the proxy, `dropped` if another was dropped for it.
abbrev pub state_found : Bool → ProxyState → ProxyState
state_found dropped executing = executing
state_found dropped paused = paused
state_found dropped error = if dropped then passthrough else error
state_found dropped _ = passthrough

-- what a new client does to the proxy, whether another is dropped for it or not
abbrev taken : Bool → Proxy → Proxy
taken dropped p =
    on_client_connected (suspend_idle_poll (if dropped then on_client_disconnected p else p))

-- Will the controller be reset for a new client that finds `state`?
abbrev pub is_reset : Greeting → Bool → ProxyState → Bool
is_reset g configured state = (configured && is_passthrough state) && g.connected && g.write_ok

-- The writes to the controller for a server that takes the client.
abbrev writes_after : Greeting → Bool → ProxyState → List Text
writes_after g configured state = if is_reset g configured state then (0x18 ∷ []) ∷ [] else []
