-- ===== src/Web/Handler.antt =====
-- _ConsoleLogHandler of web/console_log.py, which finds the lines of the console in log messages.
-- `eval` is Python's `eval(raw).decode(errors="replace").strip()`: `none` if that raises an exception.
use grbl_proxy.Prelude.{
  ℕ, ◌≡◌, ap, ◌∙◌, Bool, not, ◌||◌, ◌&&◌, ◌==◌, Option, none, some, [], ◌∷◌, ◌++◌, if◌then◌else◌,
}
use grbl_proxy.Text.{Text, codes, is_empty, is_space, take_while, drop_while, strip, strip_prefix}
use grbl_proxy.Protocol.{strip_prefix_any_case}
use grbl_proxy.Web.Console.{rx, tx, ConsoleLog, add}

-- `[→>-]`
abbrev is_arrow : ℕ → Bool
is_arrow c = c == 0x2192 || c == b'>' || c == b'-'

abbrev not_newline : ℕ → Bool
not_newline c = not (c == 10)

-- `\s*(.*)`
unfoldable pub rest_of_line : Text → Text
unfolding take_while drop_while is_space
rest_of_line s = take_while not_newline (drop_while is_space s)

abbrev then_rest : Option Text → Option Text
then_rest none = none
then_rest (some s) = some (rest_of_line s)

-- `[→>-]+` and the upper-case name that follows it, up to the case of letters
abbrev after_arrow : Text → Option Text → Option Text
after_arrow name none = none
after_arrow name (some []) = none
after_arrow name (some (c ∷ s)) =
    if is_arrow c then then_rest (strip_prefix_any_case name (drop_while is_arrow s)) else none

-- the first place of a text where a pattern matches
unfoldable pub search : (Text → Option Text) → Text → Option Text
search match [] = match []
search match (c ∷ s) =
    let later = search match s in elim (match (c ∷ s)) [ some group ↦ some group | none ↦ later ]

-- _RX_RE at the beginning of a text
unfoldable pub match_rx : Text → Option Text
unfolding rest_of_line strip_prefix_any_case drop_while
match_rx s = after_arrow (codes "TCP:") (strip_prefix_any_case (codes "SERIAL") s)

-- _WEB_TX_RE
unfoldable pub match_web_tx : Text → Option Text
unfolding rest_of_line strip_prefix_any_case drop_while
match_web_tx s = after_arrow (codes "SERIAL:") (strip_prefix_any_case (codes "WEB") s)

abbrev not_bracket : ℕ → Bool
not_bracket c = not (c == b']')

-- `\[[^\]]+\]:`
abbrev after_name : Text → Option Text
after_name [] = none
after_name (c ∷ s) =
    if c == b'[' && not (is_empty (take_while not_bracket s))
    then then_rest (strip_prefix (codes "]:") (drop_while not_bracket s))
    else none

abbrev after_route : Option Text → Option Text
after_route none = none
after_route (some s) = after_name (drop_while is_space s)

-- _TX_RE
unfoldable pub match_tx : Text → Option Text
unfolding rest_of_line strip_prefix take_while drop_while is_space
match_tx s = after_route (strip_prefix (codes "Route") s)

abbrev add_sent : ℕ → Option Text → ConsoleLog → ConsoleLog
add_sent now none log = log
add_sent now (some group) log = add now tx (strip group) log

abbrev or_else : Option Text → Option Text → Option Text
or_else none o = o
or_else (some t) o = some t

module _ (eval : Text → Option Text) where
  abbrev pub evaluated : Text → Text
  evaluated raw = elim (eval raw) [ some text ↦ text | none ↦ raw ]

  abbrev emit_by : ℕ → Option Text → Text → ConsoleLog → ConsoleLog
  emit_by now (some group) msg log = add now rx (evaluated (strip group)) log
  emit_by now none msg log =
      add_sent now (or_else (search match_tx msg) (search match_web_tx msg)) log

  -- emit, of a message at a time
  unfoldable pub emit : ℕ → Text → ConsoleLog → ConsoleLog
  unfolding search match_rx match_tx match_web_tx add strip
  emit now msg log = emit_by now (search match_rx msg) msg log

-- A text without white space at its beginning, and on one line.
one_line :
    (x : Text)
    → drop_while is_space x ≡ x
    → take_while not_newline x ≡ x
    → rest_of_line (32 ∷ x) ≡ x
unfolding rest_of_line drop_while is_space
one_line x h k = ap (take_while not_newline) h ∙ k

-- The message that web/status.py logs for a console command.
abbrev pub web_command : Text → Text
web_command cmd = codes "Web→Serial: " ++ cmd
