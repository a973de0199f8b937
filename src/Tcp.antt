-- ===== src/Tcp.antt =====
-- `_route_bytes` of tcp_server.py: the bytes of the client, taken to the state machine one at a time
-- and line by line, and what they put on the serial port. `decode` is Python's
-- `bytes.decode(errors="replace")`.
pub mod Relay
pub mod Lines
pub mod Session
pub mod Resets
pub mod Upstream
pub mod Answers
use grbl_proxy.Prelude.{
  ℕ, Bool, true, false, not, ◌&&◌, ◌||◌, List, [], ◌∷◌, ◌++◌, ◌==◌, if◌then◌else◌,
}
use grbl_proxy.Text.{Text, is_empty, drop_while_end}
use grbl_proxy.Proxy.{Proxy, Io, Effect, reply, forward, dropped, sunk, raised, write_serial}
use grbl_proxy.Proxy.Bytes.{process_raw_byte}
use grbl_proxy.Proxy.Lines.{process_client_line}

-- the state machine, and `_line_buf`
pub record Route : Type 0 where
  pub proxy : Proxy
  pub line_buf : Text

abbrev pub is_eol : ℕ → Bool
is_eol c = c == 13 || c == 10

-- what the effects have appended to `sink`
abbrev pub sink_of : List Effect → Text
sink_of [] = []
sink_of (sunk bytes ∷ es) = bytes ++ sink_of es
sink_of (reply r ∷ es) = sink_of es
sink_of (forward bytes ∷ es) = sink_of es
sink_of (dropped bytes ∷ es) = sink_of es
sink_of (raised ∷ es) = sink_of es

-- the one write at the end of a chunk
abbrev pub flush_sink : Io → Text → List Effect
flush_sink io sink = if is_empty sink then [] else write_serial io sink

-- the answers of the environment where the caller waits until the handler has ended
abbrev pub in_turn : Io → Io
in_turn io = record io { waits = false }

module _ (decode : Text → Text) where
  -- a byte that is not consumed; the loop over the bytes waits while a handover to the streamer does
  unfoldable pub take_byte : Io → ℕ → Route → Route × List Effect
  unfolding process_client_line drop_while_end
  take_byte io byte r =
      let buf = r.line_buf ++ byte ∷ [] in
      let (p, effects) =
        process_client_line (in_turn io) true (drop_while_end is_eol (decode buf)) r.proxy in
      if byte == 10
      then (record { proxy = p; line_buf = [] }, effects)
      else (record r { line_buf = buf }, [])

  unfoldable pub route_byte : Io → ℕ → Route → Route × List Effect
  unfolding process_raw_byte take_byte
  route_byte io byte r =
      let (p, consumed, effects) = process_raw_byte io byte true r.proxy in
      let r' = record r { proxy = p } in if consumed then (r', effects) else take_byte io byte r'

  -- the loop over the bytes, each with what the environment answers meanwhile
  unfoldable pub route_all : List (Io × ℕ) → Route → Route × List Effect
  unfolding route_byte
  route_all [] r = (r, [])
  route_all ((io, byte) ∷ chunk) r =
      let (r', effects) = route_byte io byte r in
      let (r'', more) = route_all chunk r' in (r'', effects ++ more)

  -- _route_bytes
  unfoldable pub route_bytes : Io → List (Io × ℕ) → Route → Route × List Effect
  unfolding route_all
  route_bytes io chunk r =
      let (r', effects) = route_all chunk r in (r', effects ++ flush_sink io (sink_of effects))
