-- ===== src/Proxy/Graph/Latch.antt =====
-- Every event of proxy_core.py follows the state diagram, which latches the error state.
use grbl_proxy.Prelude.{
  ◌≡◌, refl, subst, ◌⊎◌, Bool, true, false, not, ◌&&◌, ◌||◌, none, List, [], arith, is_some, inr,
}
use grbl_proxy.Proxy.{ProxyState, error, Proxy, Config, Io, is_buffering, is_active, is_unsettled}
use grbl_proxy.Proxy.Lines.{is_unlock}
use grbl_proxy.Job.Files.{Dir}
use grbl_proxy.Proxy.{new_proxy}
use grbl_proxy.Proxy.Invariant.History.{handle_all-IsValid}
use grbl_proxy.Proxy.Events.{
  Event, client_connected, client_disconnected, raw_byte, client_line, idle_timeout, handed_over,
  handover_cancelled, streamer_done, status_seen, poll_suspended, poll_read, web_paused,
  web_resumed, web_cancelled, web_uploaded, web_rerun, web_console, handle, handle_all,
}
use grbl_proxy.Text.{strip}
use grbl_proxy.Proxy.Graph.{
  IsEdge, connected-IsEdge, disconnected-IsEdge, idle-IsEdge, handed-IsEdge, cancelled-IsEdge,
  done-IsEdge, byte-IsEdge, line-IsEdge, status-IsEdge, suspended-IsEdge, read-IsEdge,
}
use grbl_proxy.Proxy.Graph.Web.{button-IsEdge, console-IsEdge, start-IsEdge}

-- The state of a proxy changes only along the edges of `IsEdge`: an event that is handled while the job
-- buffer is there just when a job is buffered, and no handover is unsettled but in a job, leads from
-- the state before it to the state after it by one of the edges that are listed for it.
pub handle-IsEdge :
    (io : Io) (e : Event) (p : Proxy)
    → is_some p.buffer ≡ is_buffering p.state
    → (is_unsettled p.handover && not (is_active p.state)) ≡ false
    → IsEdge e p (handle io e p).state
unfolding handle
handle-IsEdge io client_connected p b h = connected-IsEdge p
handle-IsEdge io client_disconnected p b h = disconnected-IsEdge p
handle-IsEdge io (raw_byte byte sink) p b h = byte-IsEdge io byte sink p
handle-IsEdge io (client_line line sink) p b h = line-IsEdge io line sink p b
handle-IsEdge io idle_timeout p b h = idle-IsEdge io p b
handle-IsEdge io handed_over p b h = handed-IsEdge io.now p h
handle-IsEdge io handover_cancelled p b h = cancelled-IsEdge p
handle-IsEdge io (streamer_done result) p b h = done-IsEdge result p
handle-IsEdge io (status_seen status) p b h = status-IsEdge status p
handle-IsEdge io poll_suspended p b h = suspended-IsEdge p
handle-IsEdge io (poll_read reads) p b h = read-IsEdge reads p
handle-IsEdge io (web_paused attached) p b h = (button-IsEdge io attached p).0
handle-IsEdge io (web_resumed attached) p b h = (button-IsEdge io attached p).1
handle-IsEdge io (web_cancelled attached) p b h = (button-IsEdge io attached p).2
handle-IsEdge io (web_uploaded wide w name) p b h = (start-IsEdge wide io w name [] p).0
handle-IsEdge io (web_rerun w stem) p b h = (start-IsEdge (λ _. false) io w none stem p).1
handle-IsEdge io (web_console attached command) p b h = console-IsEdge io attached command p

-- The end of a job that neither completed nor was cancelled by the user.
unfoldable pub is_fault : Event → Proxy → Bool
is_fault (streamer_done result) p =
    is_active p.state && not result.completed && not p.user_cancelled
is_fault _ p = false

-- The events that end the error state.
unfoldable pub is_clearing : Event → Bool
is_clearing client_disconnected = true
is_clearing (client_line line sink) = is_unlock line
is_clearing (web_console attached command) = is_unlock (strip command)
is_clearing _ = false

fault_of_edge :
    (e : Event) (p : Proxy) → IsEdge e p error → (p.state ≡ error) ⊎ (is_fault e p ≡ true)
unfolding IsEdge is_fault
fault_of_edge client_connected p h = ground arith
fault_of_edge client_disconnected p h = ground arith
fault_of_edge (raw_byte byte sink) p h = ground arith
fault_of_edge (client_line line sink) p h = ground arith
fault_of_edge idle_timeout p h = ground arith
fault_of_edge handed_over p h = ground arith
fault_of_edge handover_cancelled p h = ground arith
fault_of_edge (streamer_done result) p h = ground arith
fault_of_edge (status_seen status) p h = ground arith
fault_of_edge poll_suspended p h = ground arith
fault_of_edge (poll_read reads) p h = ground arith
fault_of_edge (web_paused attached) p h = ground arith
fault_of_edge (web_resumed attached) p h = ground arith
fault_of_edge (web_cancelled attached) p h = ground arith
fault_of_edge (web_uploaded wide w name) p h = ground arith
fault_of_edge (web_rerun w stem) p h = ground arith
fault_of_edge (web_console attached command) p h = ground arith

cleared_of_edge :
    (e : Event) (p : Proxy) (next : ProxyState)
    → p.state ≡ error
    → IsEdge e p next
    → (next ≡ error) ⊎ (is_clearing e ≡ true)
unfolding IsEdge is_clearing
cleared_of_edge client_connected p next s h = ground arith
cleared_of_edge client_disconnected p next s h = inr refl
cleared_of_edge (raw_byte byte sink) p next s h = ground arith
cleared_of_edge (client_line line sink) p next s h = ground arith
cleared_of_edge idle_timeout p next s h = ground arith
cleared_of_edge handed_over p next s h = ground arith
cleared_of_edge handover_cancelled p next s h = ground arith
cleared_of_edge (streamer_done result) p next s h = ground arith
cleared_of_edge (status_seen status) p next s h = ground arith
cleared_of_edge poll_suspended p next s h = ground arith
cleared_of_edge (poll_read reads) p next s h = ground arith
cleared_of_edge (web_paused attached) p next s h = ground arith
cleared_of_edge (web_resumed attached) p next s h = ground arith
cleared_of_edge (web_cancelled attached) p next s h = ground arith
cleared_of_edge (web_uploaded wide w name) p next s h = ground arith
cleared_of_edge (web_rerun w stem) p next s h = ground arith
cleared_of_edge (web_console attached command) p next s h = ground arith

unsettled_active : (a b c : Bool) → (a || b) ≡ c → (b && not c) ≡ false
unsettled_active a b c h = ground arith

-- In any history of a proxy, the error state is entered only when a job ends that neither completed
-- nor was cancelled by the user, and it is left only when the client disconnects or sends a line
-- that is $X or $H, or the web console such a command.
pub error_is_latched :
    (c : Config) (d : Dir) (es : List (Io × Event)) (io : Io) (e : Event)
    → ((handle io e (handle_all es (new_proxy c d))).state ≡ error
        → ((handle_all es (new_proxy c d)).state ≡ error)
          ⊎ (is_fault e (handle_all es (new_proxy c d)) ≡ true))
      × ((handle_all es (new_proxy c d)).state ≡ error
          → ((handle io e (handle_all es (new_proxy c d))).state ≡ error) ⊎ (is_clearing e ≡ true))
error_is_latched c d es io e =
    let p = handle_all es (new_proxy c d) in
    let valid = handle_all-IsValid c d es in
    let edge : IsEdge e p (handle io e p).state = handle-IsEdge io e p valid.buffer_iff (
      unsettled_active (is_some p.streamer) (is_unsettled p.handover) (is_active p.state)
        valid.streamer_iff) in
    (
      λ h. fault_of_edge e p (subst (λ s. IsEdge e p s) h edge),
      λ h. cleared_of_edge e p (handle io e p).state h edge,
    )
