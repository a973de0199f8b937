-- ===== src/Protocol/Report/RoundTrip.antt =====
-- parse_status_report of grbl_protocol.py on the text that make_status_response makes.
use grbl_proxy.Prelude.{
  ℕ, ◌≡◌, refl, sym, ap, ◌∙◌, Bool, true, false, ◌&&◌, ◌||◌, some, [], ◌∷◌, ◌++◌, append_assoc, ℤ,
  ◌==◌, arith, if◌then◌else◌,
}
use grbl_proxy.Text.{
  Text, codes, is_empty, is_space, is_digit, is_letter, to_upper, same, take_while, drop_while,
  drop_while_end, strip, upper, split_on,
}
use grbl_proxy.Text.Digits.{print_int, all_pass-weaker}
use grbl_proxy.Text.Parts.{
  all_pass, all_pass-append, take_while-part, drop_while-part, split_on-part, split_on-whole,
  drop_while_end-part, filled,
}
use grbl_proxy.Protocol.Print.{line_terminator, print_fixed, position, rates, make_status_response}
use grbl_proxy.Protocol.Report.{
  Decimal, Coords, StatusReport, only_state, parse_coords, two_ints, keep, put_field, put_fields,
  segment, read_body, read_open, tail_of, parse_status_report, not_char,
}
use grbl_proxy.Protocol.Report.Printed.{
  is_number, char_apart, fixed-numbers, print_int-numbers, printed, parse_position, parse_rates,
}

-- A character of a field.
abbrev is_field : ℕ → Bool
is_field c = is_number c || c == b','

number_is_field : (c : ℕ) → is_number c ≡ true → is_field c ≡ true
number_is_field c h = ap (λ b. b || c == b',') h

numbers_are_fields : (s : Text) → all_pass is_number s ≡ true → all_pass is_field s ≡ true
numbers_are_fields s h = all_pass-weaker is_number is_field number_is_field s h

then_field :
    (a b : Text)
    → all_pass is_number a ≡ true
    → all_pass is_field b ≡ true
    → all_pass is_field (a ++ b',' ∷ b) ≡ true
unfolding is_digit
then_field a b h k =
    all_pass-append is_field a (b',' ∷ b)
    ∙ ap (λ x. x && all_pass is_field b) (numbers_are_fields a h)
    ∙ k

not_field :
    (a : ℕ) (s : Text)
    → is_field a ≡ false
    → all_pass is_field s ≡ true
    → all_pass (not_char a) s ≡ true
not_field a s h k = all_pass-weaker is_field (not_char a) (λ c e. char_apart a c is_field h e) s k

rates-fields : (feed spindle : ℤ) → all_pass is_field (rates feed spindle) ≡ true
rates-fields feed spindle =
    then_field (print_int feed) (print_int spindle) (print_int-numbers feed)
      (numbers_are_fields (print_int spindle) (print_int-numbers spindle))

unless {ℓ} : {A : Type ℓ} (b : Bool) (x y : A) → b ≡ false → (if b then x else y) ≡ y
unless b x y h = ground arith

-- The two fields are put in.
put_mpos :
    (val : Text) (v : Coords) (r : StatusReport)
    → is_empty val ≡ false
    → parse_coords val ≡ some v
    → segment (codes "MPos:" ++ val) r ≡ record r { mpos = some v }
unfolding take_while drop_while is_letter upper to_upper put_field same
put_mpos val v r h k = unless (is_empty val) _ _ h ∙ ap (λ o. record r { mpos = keep o r.mpos }) k

put_fs :
    (val : Text) (v : ℤ × ℤ) (r : StatusReport)
    → is_empty val ≡ false
    → two_ints (split_on b',' val) ≡ some v
    → segment (codes "FS:" ++ val) r ≡ record r { fs = some v }
unfolding take_while drop_while is_letter upper to_upper put_field same
put_fs val v r h k = unless (is_empty val) _ _ h ∙ ap (λ o. record r { fs = keep o r.fs }) k

split_fields :
    (p r : Text)
    → all_pass (not_char b'|') p ≡ true
    → all_pass (not_char b'|') r ≡ true
    → tail_of (split_on b'|' (codes "|MPos:" ++ (p ++ (codes "|FS:" ++ r))))
      ≡ (codes "MPos:" ++ p) ∷ (codes "FS:" ++ r) ∷ []
split_fields p r h k =
    ap tail_of (split_on-part b'|' [] (codes "MPos:" ++ (p ++ (codes "|FS:" ++ r))) refl)
    ∙ split_on-part b'|' (codes "MPos:" ++ p) (codes "FS:" ++ r) h
    ∙ ap (λ ts. (codes "MPos:" ++ p) ∷ ts) (split_on-whole b'|' (codes "FS:" ++ r) k)

-- What stands between the brackets.
abbrev body : Text → Text → Text → Text
body state p r = state ++ (codes "|MPos:" ++ (p ++ (codes "|FS:" ++ r)))

body-append :
    (state p r t : Text)
    → state ++ (codes "|MPos:" ++ (p ++ (codes "|FS:" ++ (r ++ t)))) ≡ body state p r ++ t
body-append state p r t = sym (
    append_assoc state (codes "|MPos:" ++ (p ++ (codes "|FS:" ++ r))) t
    ∙ ap (λ u. state ++ (codes "|MPos:" ++ u)) (append_assoc p (codes "|FS:" ++ r) t))

body-not_closing :
    (state p r : Text)
    → all_pass (not_char b'>') state ≡ true
    → all_pass is_field p ≡ true
    → all_pass is_field r ≡ true
    → all_pass (not_char b'>') (body state p r) ≡ true
unfolding is_digit
body-not_closing state p r h k l =
    let pass : Text → Bool = all_pass (not_char b'>') in
    all_pass-append (not_char b'>') state (codes "|MPos:" ++ (p ++ (codes "|FS:" ++ r)))
    ∙ ap (λ b. b && pass (p ++ (codes "|FS:" ++ r))) h
    ∙ all_pass-append (not_char b'>') p (codes "|FS:" ++ r)
    ∙ ap (λ b. b && pass r) (not_field b'>' p refl k)
    ∙ not_field b'>' r refl l

strip-closed : (s : Text) → strip (b'<' ∷ s ++ b'>' ∷ line_terminator) ≡ b'<' ∷ s ++ b'>' ∷ []
unfolding strip drop_while drop_while_end is_space
strip-closed s = drop_while_end-part is_space (b'<' ∷ s) line_terminator b'>' refl refl

read_open-closed :
    (s : Text)
    → all_pass (not_char b'>') s ≡ true
    → read_open (b'<' ∷ s ++ b'>' ∷ []) ≡ read_body s (b'>' ∷ [])
read_open-closed s h =
    ap (λ t. read_body t (drop_while (not_char b'>') (s ++ b'>' ∷ [])))
      (take_while-part (not_char b'>') s [] b'>' h refl)
    ∙ ap (read_body s) (drop_while-part (not_char b'>') s [] b'>' h refl)

read_body-state :
    (state rest : Text)
    → is_empty state ≡ false
    → all_pass (not_char b'|') state ≡ true
    → read_body (state ++ b'|' ∷ rest) (b'>' ∷ [])
      ≡ some (put_fields (tail_of (split_on b'|' (b'|' ∷ rest))) (only_state state))
unfolding same
read_body-state state rest h k =
    rw
      (
        take_while-part (not_char b'|') state rest b'|' k refl,
        drop_while-part (not_char b'|') state rest b'|' k refl,
        h,
      )
      refl

-- The report with a state, a position and two rates.
abbrev pub reports : Text → Coords → ℤ × ℤ → StatusReport
reports state mpos fs = record (only_state state) { mpos = some mpos; fs = some fs }

put_both :
    (state p r : Text) (mpos : Coords) (fs : ℤ × ℤ)
    → is_empty p ≡ false
    → is_empty r ≡ false
    → parse_coords p ≡ some mpos
    → two_ints (split_on b',' r) ≡ some fs
    → put_fields ((codes "MPos:" ++ p) ∷ (codes "FS:" ++ r) ∷ []) (only_state state)
      ≡ reports state mpos fs
unfolding put_fields
put_both state p r mpos fs h k l m =
    ap (segment (codes "FS:" ++ r)) (put_mpos p mpos (only_state state) h l)
    ∙ put_fs r fs (record (only_state state) { mpos = some mpos }) k m

-- A text of this form is read back.
read_report :
    (state p r : Text) (mpos : Coords) (fs : ℤ × ℤ)
    → is_empty state ≡ false
    → all_pass (not_char b'|') state ≡ true
    → all_pass (not_char b'>') state ≡ true
    → is_empty p ≡ false
    → is_empty r ≡ false
    → all_pass is_field p ≡ true
    → all_pass is_field r ≡ true
    → parse_coords p ≡ some mpos
    → two_ints (split_on b',' r) ≡ some fs
    → parse_status_report (b'<' ∷ body state p r ++ b'>' ∷ line_terminator)
      ≡ some (reports state mpos fs)
unfolding parse_status_report is_digit
read_report state p r mpos fs full bar closing pf rf pn rn pm rm =
    ap read_open (strip-closed (body state p r))
    ∙ read_open-closed (body state p r) (body-not_closing state p r closing pn rn)
    ∙ read_body-state state (codes "MPos:" ++ (p ++ (codes "|FS:" ++ r))) full bar
    ∙ ap (λ ts. some (put_fields ts (only_state state)))
        (split_fields p r (not_field b'|' p refl pn) (not_field b'|' r refl rn))
    ∙ ap some (put_both state p r mpos fs pf rf pm rm)

module _ (thousandths : Decimal → ℕ) where
  position-fields : (mpos : Coords) → all_pass is_field (position thousandths mpos) ≡ true
  position-fields (x, y, z) =
      let fixed = print_fixed thousandths in
      then_field (fixed x) (fixed y ++ b',' ∷ fixed z) (fixed-numbers thousandths x) (
        then_field (fixed y) (fixed z) (fixed-numbers thousandths y)
          (numbers_are_fields (fixed z) (fixed-numbers thousandths z)))

  abbrev pub all_printed : Coords → Coords
  all_printed (x, y, z) = (printed thousandths x, printed thousandths y, printed thousandths z)

  parse_position_of :
      (mpos : Coords) → parse_coords (position thousandths mpos) ≡ some (all_printed mpos)
  parse_position_of (x, y, z) = parse_position thousandths x y z

  position-filled : (mpos : Coords) → is_empty (position thousandths mpos) ≡ false
  position-filled (x, y, z) =
      filled (print_fixed thousandths x)
        (print_fixed thousandths y ++ b',' ∷ print_fixed thousandths z) b','

  -- A status report that the proxy makes is read back by its own parser: however Python rounds a
  -- coordinate to thousandths, if the state is not empty and has no "|" and no ">", then the report
  -- is parsed as one with this state, the coordinates as they were rounded, with their signs, the
  -- feed and the spindle speed, and nothing else.
  pub made_response_parses :
      (state : Text) (mpos : Coords) (feed spindle : ℤ)
      → is_empty state ≡ false
      → all_pass (not_char b'|') state ≡ true
      → all_pass (not_char b'>') state ≡ true
      → parse_status_report (make_status_response thousandths state mpos feed spindle)
        ≡ some (reports state (all_printed mpos) (feed, spindle))
  unfolding make_status_response
  made_response_parses state mpos feed spindle full bar closing =
      let p = position thousandths mpos in
      let r = rates feed spindle in
      ap (λ t. parse_status_report (b'<' ∷ t)) (body-append state p r (b'>' ∷ line_terminator))
      ∙ read_report state p r (all_printed mpos) (feed, spindle) full bar closing
          (position-filled mpos) (filled (print_int feed) (print_int spindle) b',')
          (position-fields mpos) (rates-fields feed spindle) (parse_position_of mpos)
          (parse_rates feed spindle)
