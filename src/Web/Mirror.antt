-- ===== src/Web/Mirror.antt =====
-- The commands of the web page against the bytes of LightBurn.
use grbl_proxy.Prelude.{◌≡◌, Bool, true, false, List, [], arith, if◌then◌else◌}
use grbl_proxy.Proxy.{Proxy, Effect, Io, is_active}
use grbl_proxy.Proxy.Bytes.{control_byte, abandon_job, control}
use grbl_proxy.Web.Control.{has_serial, web_pause, web_resume, web_cancel, is_executing, is_paused}

-- a byte's handler as an accepted command
abbrev pub accepted : Proxy × List Effect → Proxy × List Effect × Bool
accepted (p, effects) = (p, effects, true)

abbrev pub rejected : Proxy → Proxy × List Effect × Bool
rejected p = (p, [], false)

-- The buttons of the web page do what the realtime bytes of LightBurn do: with a serial connection,
-- pause does in Executing, resume in Paused and cancel in both exactly what the handler of "!", "~"
-- and Ctrl-X does there, to the state and on the serial port; in all other states they do nothing,
-- and are refused.
pub buttons_mirror_bytes :
    (io : Io) (attached sink : Bool) (p : Proxy)
    → has_serial attached p ≡ true
    → (web_pause io attached p
        ≡ (if is_executing p.state then accepted (control_byte io b'!' sink p) else rejected p))
      × (web_resume io attached p
          ≡ (if is_paused p.state then accepted (control_byte io b'~' sink p) else rejected p))
      × (web_cancel io attached p
          ≡ (if is_active p.state then accepted (control_byte io 0x18 sink p) else rejected p))
unfolding web_pause web_resume web_cancel control_byte abandon_job control
buttons_mirror_bytes io attached sink p h =
    (ground (arith, h), ground (arith, h), ground (arith, h))
