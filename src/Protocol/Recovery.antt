-- ===== src/Protocol/Recovery.antt =====
-- What `split_responses` of grbl_protocol.py recovers when a status report is cut off by an "ok".
use grbl_proxy.Prelude.{
  ◌≡◌, refl, ap, ◌∙◌, Bool, true, false, not, ◌&&◌, some, List, [], ◌∷◌, ◌++◌, append-nil, arith,
  ◌==◌, if◌then◌else◌,
}
use mathlib.Core.List.{reverse_aux, reverse-append, reverse-reverse}
use grbl_proxy.Text.{
  Text, codes, is_space, is_empty, same, drop_while, drop_while_end, strip, strip_prefix,
  starts_with, ends_with,
}
use grbl_proxy.Protocol.{is_ok, is_error, is_status_report, match_error, strip_prefix_any_case}
use grbl_proxy.Protocol.Split.{
  lift, lift_char, lift_blocks, fault_tokens, has_trailing_ok, or_whole, salvage, is_clean,
  is_exact_alarm, split_responses,
}

-- A text without the brackets of a status report.
abbrev pub is_plain : Text → Bool
is_plain [] = true
is_plain (c ∷ s) = not (c == b'<') && not (c == b'>') && is_plain s

-- A status report that is cut off after `u`, with an "ok" spliced onto it.
abbrev pub spliced : Text → Text
spliced u = b'<' ∷ (u ++ codes "ok")

is_empty-append : (u : Text) → is_empty (u ++ codes "ok") ≡ false
is_empty-append [] = refl
is_empty-append (c ∷ u) = refl

drop_while_end-append : (u : Text) → drop_while_end is_space (u ++ codes "ok") ≡ u ++ codes "ok"
unfolding drop_while_end is_space
drop_while_end-append [] = refl
drop_while_end-append (c ∷ u) = rw (drop_while_end-append u, is_empty-append u) refl

strip-spliced : (u : Text) → strip (spliced u) ≡ spliced u
unfolding strip drop_while drop_while_end is_space
strip-spliced u = rw (drop_while_end-append u, is_empty-append u) refl

ends_with-append : (u : Text) → ends_with b'>' (u ++ codes "ok") ≡ false
unfolding ends_with
ends_with-append [] = refl
ends_with-append (c ∷ []) = refl
ends_with-append (c ∷ d ∷ u) = ends_with-append (d ∷ u)

is_clean-spliced : (u : Text) → is_clean (spliced u) ≡ false
unfolding is_clean is_ok is_error is_exact_alarm is_status_report match_error strip_prefix_any_case
    same strip_prefix starts_with
is_clean-spliced u = rw (strip-spliced u) (ends_with-append (b'<' ∷ u))

is_plain-append : (u : Text) → is_plain u ≡ true → is_plain (u ++ codes "ok") ≡ true
is_plain-append [] h = refl
is_plain-append (c ∷ u) h = ground (arith, is_plain-append u)

lift-plain :
    (s f : Text)
    → is_plain s ≡ true
    → lift s (record { messages = []; remainder = []; fragment = some f })
      ≡ record { messages = []; remainder = []; fragment = some (reverse_aux s f) }
unfolding lift lift_char
lift-plain [] f h = refl
lift-plain (c ∷ s) f h =
    let tests = plain_tests (c == b'<') (c == b'>') (is_plain s) h in
    rw (tests.0, tests.1) (lift-plain s (c ∷ f) tests.2)
  where
    plain_tests :
        (a b r : Bool) → (not a && not b && r) ≡ true → (a ≡ false) × (b ≡ false) × (r ≡ true)
    plain_tests a b r k = (ground arith, ground arith, ground arith)

lift_blocks-spliced : (u : Text) → is_plain u ≡ true → lift_blocks (spliced u) ≡ ([], spliced u)
unfolding lift_blocks lift lift_char
lift_blocks-spliced u h =
    rw
      (
        lift-plain (u ++ codes "ok") (b'<' ∷ []) (is_plain-append u h),
        append-nil (reverse_aux (u ++ codes "ok") (b'<' ∷ [])),
      )
      (ap (λ s. ([], s)) (reverse-reverse (spliced u)))

has_trailing_ok-spliced : (u : Text) → has_trailing_ok (spliced u) ≡ true
unfolding has_trailing_ok starts_with strip_prefix drop_while is_space
has_trailing_ok-spliced u = rw (reverse-append (b'<' ∷ u) (codes "ok")) refl

or_whole-snoc : (s m : Text) (ms : List Text) → or_whole s (ms ++ m ∷ []) ≡ ms ++ m ∷ []
or_whole-snoc s m [] = refl
or_whole-snoc s m (n ∷ ms) = refl

salvage-spliced :
    (u : Text)
    → is_plain u ≡ true
    → salvage (spliced u) ≡ fault_tokens 0 (spliced u) ++ codes "ok" ∷ []
unfolding salvage starts_with strip_prefix
salvage-spliced u h =
    let found : List Text × Text → List Text = λ r.
      (r.0 ++ (if starts_with (codes "[") (spliced u) then [] else fault_tokens 0 r.1))
      ++ (if has_trailing_ok r.1 then codes "ok" ∷ [] else []) in
    ap found (lift_blocks-spliced u h)
    ∙ ap (λ b. fault_tokens 0 (spliced u) ++ (if b then codes "ok" ∷ [] else []))
        (has_trailing_ok-spliced u)

-- An "ok" that the firmware splices onto a truncated status report is not lost: for whatever came of
-- the report, as long as it has no further bracket, the line splits into the fault tokens found in
-- it and then the "ok", as the last message and apart from them.
pub spliced_ok_is_recovered :
    (u : Text)
    → is_plain u ≡ true
    → split_responses (spliced u) ≡ fault_tokens 0 (spliced u) ++ codes "ok" ∷ []
unfolding split_responses
spliced_ok_is_recovered u h =
    rw (strip-spliced u, is_clean-spliced u, salvage-spliced u h)
      (or_whole-snoc (spliced u) (codes "ok") (fault_tokens 0 (spliced u)))
