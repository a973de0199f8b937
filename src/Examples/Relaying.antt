-- ===== src/Examples/Relaying.antt =====
-- A chunk of the client that tcp_server.py relays.
use grbl_proxy.Prelude.{◌≡◌, refl, true, List, [], ◌∷◌, ltb, arith, if◌then◌else◌}
use grbl_proxy.Text.{Text, codes}
use grbl_proxy.Job.Contents.{as_file}
use grbl_proxy.Proxy.{passthrough, new_proxy}
use grbl_proxy.Proxy.Events.{handle_all}
use grbl_proxy.Tcp.{route_bytes}
use grbl_proxy.Tcp.Relay.{is_ascii, with_io, writes_of, chunk_is_relayed}
use grbl_proxy.Examples.Proxying.{works, connected}

-- a decoder that replaces every byte that is not ASCII
abbrev decode_ascii : Text → Text
decode_ascii [] = []
decode_ascii (c ∷ s) = (if ltb c 128 then c else 0xFFFD) ∷ decode_ascii s

keeps_ascii : (s : Text) → is_ascii s ≡ true → decode_ascii s ≡ s
keeps_ascii [] h = refl
keeps_ascii (c ∷ s) h = ground (arith, keeps_ascii s)

abbrev settings : List Text
settings = codes "$I" ∷ codes "M5" ∷ []

chunk_is_relayed_example :
    (writes_of
        (route_bytes decode_ascii works
          (with_io works (as_file settings))
          (record { proxy = connected; line_buf = [] })).1
      ≡ codes "$I\nM5\n" ∷ [])
    × ((route_bytes decode_ascii works
          (with_io works (as_file settings))
          (record { proxy = connected; line_buf = [] })).0.line_buf
        ≡ [])
    × ((route_bytes decode_ascii works
          (with_io works (as_file settings))
          (record { proxy = connected; line_buf = [] })).0.proxy.state
        ≡ passthrough)
unfolding handle_all new_proxy
chunk_is_relayed_example =
    chunk_is_relayed decode_ascii keeps_ascii works settings connected refl refl refl
