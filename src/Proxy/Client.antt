-- ===== src/Proxy/Client.antt =====
-- on_client_connected and on_client_disconnected of proxy_core.py.
use grbl_proxy.Prelude.{Bool, true, false, if◌then◌else◌}
use grbl_proxy.Proxy.{
  ProxyState, disconnected, passthrough, buffering, executing, paused, error, Proxy, is_buffering,
  reset_detector,
}
use grbl_proxy.Proxy.Life.{discard_buffer}

-- a job is kept, and so is a fault
abbrev pub keeps_session : ProxyState → Bool
keeps_session executing = true
keeps_session paused = true
keeps_session error = true
keeps_session _ = false

unfoldable pub on_client_connected : Proxy → Proxy
unfolding discard_buffer
on_client_connected p =
    let p' = record p { has_tcp_client = true } in
    let p'' = if is_buffering p'.state then discard_buffer p' else p' in
    if keeps_session p''.state
    then p''
    else reset_detector (record p'' { idle_armed = false; state = passthrough })

after_disconnect : ProxyState → Proxy → Proxy
after_disconnect disconnected p = p
after_disconnect buffering p =
    reset_detector (record (discard_buffer p) { idle_armed = false; state = disconnected })
after_disconnect executing p = reset_detector (record p { idle_armed = false })
after_disconnect paused p = reset_detector (record p { idle_armed = false })
after_disconnect passthrough p =
    reset_detector (record p { idle_armed = false; state = disconnected })
after_disconnect error p = reset_detector (record p { idle_armed = false; state = disconnected })

unfoldable pub on_client_disconnected : Proxy → Proxy
unfolding after_disconnect discard_buffer
on_client_disconnected p =
    let p' = record p { has_tcp_client = false; idle_poll_suspended = false } in
    after_disconnect p'.state p'
