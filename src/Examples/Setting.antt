-- ===== src/Examples/Setting.antt =====
-- Configuration files, and the log messages of the console.
use grbl_proxy.Prelude.{◌++◌, ◌≡◌, refl, true, false, Option, none, some, pos}
use grbl_proxy.Text.{Text, codes}
use grbl_proxy.Settings.{Yaml, null, integer, string, mapping, empty, entry, deep_merge, get}
use grbl_proxy.Settings.Load.{load_config, is_configured, is_crashed, is_truthy, loads_iff_sections}
use grbl_proxy.Web.Console.{rx, tx, new_log, add, ConsoleLog}
use grbl_proxy.Web.Handler.{emit, web_command}

-- a file whose section `serial` holds comments only
abbrev no_serial : Yaml
no_serial = mapping (entry (codes "serial") null (entry (codes "tcp") (mapping empty) empty))

abbrev parse : Text → Option Yaml
parse text = some no_serial

loads_iff_sections_example :
    (is_configured (load_config parse true (some (codes "serial:\ntcp: {}\n"))) ≡ false)
    × (is_crashed (load_config parse true (some (codes "serial:\ntcp: {}\n"))) ≡ true)
unfolding is_truthy get
loads_iff_sections_example = loads_iff_sections parse (codes "serial:\ntcp: {}\n") no_serial refl

merge_test :
    deep_merge
      (entry (codes "tcp") (mapping (entry (codes "port") (integer (pos 1)) empty)) empty)
      (entry (codes "tcp") (mapping (entry (codes "host") (string (codes "h")) empty)) empty)
    ≡ entry
        (codes "tcp")
        (mapping (
          entry (codes "port") (integer (pos 1)) (entry (codes "host") (string (codes "h")) empty)))
        empty
unfolding deep_merge
merge_test = refl

abbrev no_eval : Text → Option Text
no_eval raw = none

abbrev log : ConsoleLog
log = new_log 2

-- The line that the server logs for a command of the client is shown with its quotes.
route_test :
    emit no_eval 1 (codes "Route [Passthrough]: 'G0 X1'") log ≡ add 1 tx (codes "'G0 X1'") log
unfolding emit
route_test = refl

received_test : emit no_eval 1 (codes "Serial→TCP: b'ok'") log ≡ add 1 rx (codes "b'ok'") log
unfolding emit
received_test = refl

abbrev one_more : Text → Option Text
one_more x = some (x ++ codes "!")

-- A command of the web console that looks like a relayed line makes the handler evaluate its rest.
evaluated_test :
    emit one_more 1 (web_command (codes "Serial->TCP: 1+1")) log ≡ add 1 rx (codes "1+1!") log
unfolding emit
evaluated_test = refl
