-- ===== src/Proxy/Poll.antt =====
-- _drain_serial of proxy_core.py, the reader of the idle poll, and the suspension of the poll.
use grbl_proxy.Prelude.{
  Bool, true, false, not, ◌||◌, Option, none, some, List, [], ◌∷◌, if◌then◌else◌,
}
use grbl_proxy.Text.{Text, is_empty, strip}
use grbl_proxy.Protocol.{is_status_report, is_error, is_alarm}
use grbl_proxy.Protocol.Report.{StatusReport, parse_status_report}
use grbl_proxy.Proxy.{ProxyState, disconnected, Proxy}

-- update_last_status
unfoldable pub update_last_status : StatusReport → Proxy → Proxy
update_last_status status p = record p { last_status = some status }

abbrev pub update_if : Option StatusReport → Proxy → Proxy
update_if none p = p
update_if (some status) p = update_last_status status p

-- what the poll makes of a line
unfoldable pub note_line : Text → Proxy → Proxy
unfolding is_status_report parse_status_report update_last_status is_error is_alarm strip
note_line line p =
    if is_status_report line
    then update_if (parse_status_report line) p
    else if is_error line || is_alarm line
    then record p { last_machine_fault = some (strip line) }
    else p

abbrev may_poll : ProxyState → Bool → Bool
may_poll disconnected suspended = not suspended
may_poll _ suspended = false

-- the lines that the reads return: an exception, or the "" of a timeout, ends the loop
unfoldable pub drain_serial : List (Option Text) → Proxy → Proxy
unfolding note_line
drain_serial [] p = p
drain_serial (none ∷ reads) p = p
drain_serial (some line ∷ reads) p =
    let rest = drain_serial reads (note_line line p) in
    if may_poll p.state p.idle_poll_suspended then (if is_empty line then p else rest) else p

-- suspend_idle_poll
unfoldable pub suspend_idle_poll : Proxy → Proxy
suspend_idle_poll p = record p { idle_poll_suspended = true }
