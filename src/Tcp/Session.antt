-- ===== src/Tcp/Session.antt =====
-- A client's session in tcp_server.py: _client_connected, _reset_grbl_on_connect,
-- _drop_current_client, and _tcp_to_serial.
use grbl_proxy.Prelude.{
  ℕ, Bool, true, false, ◌&&◌, ◌||◌, Option, none, some, List, [], ◌∷◌, ◌++◌, if◌then◌else◌,
}
use grbl_proxy.Text.{Text, is_empty}
use grbl_proxy.Protocol.{is_grbl_greeting}
use grbl_proxy.Proxy.{ProxyState, passthrough, Proxy, Io, Effect}
use grbl_proxy.Proxy.Client.{on_client_connected, on_client_disconnected}
use grbl_proxy.Proxy.Poll.{suspend_idle_poll}
use grbl_proxy.Tcp.{Route, route_bytes}

-- The server: `has_writer` is "`_current_writer` is not None", `has_tasks` "there are relay tasks".
pub record Server : Type 0 where
  pub route : Route
  pub reset_on_connect : Bool
  pub has_writer : Bool
  pub has_tasks : Bool

-- What the session itself writes: to the controller, or to the client.
pub data Output : Type 0 where
  to_serial to_client : Text → Output

abbrev pub line_terminator : Text
line_terminator = 13 ∷ 10 ∷ []

-- One round of the wait for the banner: is there time left, how the read ends (`none` for
-- SerialDisconnectedError), does the client take the line?
pub record Banner : Type 0 where
  pub in_time : Bool
  pub read : Option Text
  pub client_ok : Bool

-- the loop that waits for the banner
unfoldable pub await_banner : List Banner → List Output
unfolding is_grbl_greeting
await_banner [] = []
await_banner (b ∷ bs) =
    let later = await_banner bs in
    if b.in_time
    then elim b.read [
      | none ↦ []
      | some line ↦
          if is_empty line
          then later
          else if b.client_ok
          then to_client (line ++ line_terminator) ∷ (if is_grbl_greeting line then [] else later)
          else []
    ]
    else []

-- What the environment answers to a new client: is the serial port connected, does the write of the
-- reset succeed, and the wait for the banner.
pub record Greeting : Type 0 where
  pub connected : Bool
  pub write_ok : Bool
  pub banner : List Banner

-- _reset_grbl_on_connect
unfoldable pub reset_grbl_on_connect : Greeting → List Output
unfolding await_banner
reset_grbl_on_connect g =
    if g.connected && g.write_ok then to_serial (0x18 ∷ []) ∷ await_banner g.banner else []

abbrev pub with_proxy : (Proxy → Proxy) → Server → Server
with_proxy f s = record s { route = record s.route { proxy = f s.route.proxy } }

-- _drop_current_client
unfoldable pub drop_current_client : Server → Server
unfolding on_client_disconnected
drop_current_client s =
    if s.has_tasks || s.has_writer
    then record (with_proxy on_client_disconnected s) { has_writer = false; has_tasks = false }
    else s

abbrev pub is_passthrough : ProxyState → Bool
is_passthrough passthrough = true
is_passthrough _ = false

-- the new client in place of the old
unfoldable pub take_client : Server → Server
unfolding drop_current_client on_client_connected suspend_idle_poll
take_client s =
    let dropped = drop_current_client s in
    let p = on_client_connected (suspend_idle_poll dropped.route.proxy) in
    record dropped { route = record { proxy = p; line_buf = [] }; has_writer = true }

-- the reset, if it is due, and the start of the relay
unfoldable pub greet : Greeting → Server → Server × List Output
unfolding reset_grbl_on_connect
greet g s = (
  record s { has_tasks = true },
  if s.reset_on_connect && is_passthrough s.route.proxy.state then reset_grbl_on_connect g else [],
)

-- _client_connected, up to the start of the relay
unfoldable pub client_connected : Greeting → Server → Server × List Output
unfolding take_client greet
client_connected g s = greet g (take_client s)

-- _client_connected, after the relay: `replaced` if another client has become the current one
unfoldable pub client_done : Bool → Server → Server
unfolding on_client_disconnected
client_done replaced s =
    let p = on_client_disconnected s.route.proxy in
    let s' = record s { route = record { proxy = p; line_buf = [] } } in
    if replaced then s' else record s' { has_writer = false; has_tasks = false }

-- How a wait for the client ends: with the relay stopped, with an error or the end of the input,
-- or with bytes, each with what the environment answers meanwhile.
pub data Incoming : Type 0 where
  stop_seen closed : Incoming
  received : Bool → Io → List (Io × ℕ) → Incoming

module _ (decode : Text → Text) where
  -- one round of _tcp_to_serial: whether the loop goes on; `connected` comes with the bytes
  unfoldable pub incoming : Incoming → Server → Server × List Effect × Bool
  unfolding route_bytes
  incoming stop_seen s = (s, [], false)
  incoming closed s = (s, [], false)
  incoming (received connected io chunk) s =
      let (r, effects) = route_bytes decode io chunk s.route in
      if connected && s.has_writer then (record s { route = r }, effects, true) else (s, [], false)

  -- _tcp_to_serial
  unfoldable pub tcp_to_serial : List Incoming → Server → Server × List Effect
  unfolding incoming
  tcp_to_serial [] s = (s, [])
  tcp_to_serial (i ∷ is) s =
      let (s', effects, goes_on) = incoming i s in
      let (s'', more) = tcp_to_serial is s' in
      if goes_on then (s'', effects ++ more) else (s', effects)
