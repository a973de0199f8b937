-- ===== src/Protocol/Split.antt =====
-- `split_responses` of grbl_protocol.py: the messages that one serial line carries.
use grbl_proxy.Prelude.{
  ℕ, zero, suc, ◌-◌, Bool, false, not, ◌&&◌, ◌||◌, Option, none, some, List, [], ◌∷◌, ◌++◌, reverse,
  length, take, replicate, ◌==◌, if◌then◌else◌,
}
use grbl_proxy.Text.{
  Text, codes, is_space, is_digit, is_empty, take_while, drop_while, strip, strip_prefix,
  starts_with,
}
use grbl_proxy.Protocol.{strip_prefix_any_case, skip_dot, is_ok, is_error, is_status_report}

abbrev digits_only : Option Text → Bool
digits_only none = false
digits_only (some s) = not (is_empty s) && is_empty (drop_while is_digit s)

-- _EXACT_ALARM_RE
unfoldable pub is_exact_alarm : Text → Bool
unfolding strip_prefix drop_while is_digit
is_exact_alarm s = digits_only (strip_prefix (codes "ALARM:") s)

-- `_STATUS_BLOCK_RE.sub(_lift, s)` in one pass. `fragment` is what follows a "<" that may open a
-- block, the "<" included, in reverse. The blocks found and the remainder are also in reverse.
pub record Lift : Type 0 where
  pub messages : List Text
  pub remainder : Text
  pub fragment : Option Text

abbrev pub flush : Option Text → Text → Text
flush none out = out
flush (some f) out = f ++ out

-- one character of the pass
unfoldable pub lift_char : ℕ → List Text → Text → Option Text → Lift
lift_char c found out none =
    if c == b'<'
    then record { messages = found; remainder = out; fragment = some (c ∷ []) }
    else record { messages = found; remainder = c ∷ out; fragment = none }
lift_char c found out (some f) =
    if c == b'<'
    then record { messages = found; remainder = f ++ out; fragment = some (c ∷ []) }
    else if c == b'>'
    then record {
      messages = reverse (c ∷ f) ∷ found;
      remainder = replicate (length (c ∷ f)) b' ' ++ out;
      fragment = none;
    }
    else record { messages = found; remainder = out; fragment = some (c ∷ f) }

unfoldable pub lift : Text → Lift → Lift
unfolding lift_char
lift [] l = l
lift (c ∷ s) l = lift s (lift_char c l.messages l.remainder l.fragment)

unfoldable pub lift_blocks : Text → List Text × Text
unfolding lift
lift_blocks s =
    let l = lift s (record { messages = []; remainder = []; fragment = none }) in
    (reverse l.messages, reverse (flush l.fragment l.remainder))

-- The length of the match of `(?i:error):\s*\d+\.?` or `ALARM:\d+` at the head of `s`; 0 if none.
abbrev digits_end : Text → Option Text
digits_end t = if is_empty (take_while is_digit t) then none else some (drop_while is_digit t)

abbrev error_end : Option Text → Option Text
error_end none = none
error_end (some s) = elim (digits_end (drop_while is_space s)) [
  | none ↦ none
  | some rest ↦ some (skip_dot rest)
]

abbrev alarm_end : Option Text → Option Text
alarm_end none = none
alarm_end (some s) = digits_end s

abbrev or_match : Option Text → Option Text → Option Text
or_match none b = b
or_match (some a) b = some a

-- what follows a fault token at the head of `s`
unfoldable pub token_end : Text → Option Text
unfolding strip_prefix_any_case strip_prefix take_while drop_while is_digit is_space
token_end s =
    or_match (error_end (strip_prefix_any_case (codes "ERROR:") s))
      (alarm_end (strip_prefix (codes "ALARM:") s))

-- `_FAULT_TOKEN_RE.finditer`: `skip` characters are left of the token found last
unfoldable pub fault_tokens : ℕ → Text → List Text
unfolding token_end
fault_tokens skip [] = []
fault_tokens (suc skip) (c ∷ s) = fault_tokens skip s
fault_tokens zero (c ∷ s) = elim (token_end (c ∷ s)) [
  | none ↦ fault_tokens 0 s
  | some rest ↦
      take (suc (length s) - length rest) (c ∷ s) ∷ fault_tokens (length s - length rest) s
]

-- `_TRAILING_OK_RE.search`: the text ends in "ok", up to white space
unfoldable pub has_trailing_ok : Text → Bool
unfolding starts_with drop_while is_space
has_trailing_ok s = starts_with (codes "ko") (drop_while is_space (reverse s))

abbrev pub or_whole : Text → List Text → List Text
or_whole s [] = s ∷ []
or_whole s (m ∷ ms) = m ∷ ms

-- what is recovered from a line that is no clean message
unfoldable pub salvage : Text → List Text
unfolding lift_blocks fault_tokens has_trailing_ok starts_with
salvage s =
    let (blocks, remainder) = lift_blocks s in
    (blocks ++ (if starts_with (codes "[") s then [] else fault_tokens 0 remainder))
    ++ (if has_trailing_ok remainder then codes "ok" ∷ [] else [])

unfoldable pub is_clean : Text → Bool
unfolding is_ok is_error is_exact_alarm is_status_report
is_clean s = is_ok s || is_error s || is_exact_alarm s || is_status_report s

unfoldable pub split_responses : Text → List Text
unfolding strip salvage is_clean
split_responses line =
    let s = strip line in
    if is_empty s then [] else if is_clean s then s ∷ [] else or_whole s (salvage s)
