-- ===== src/Web/Names.antt =====
-- The names under which start_uploaded_job of web/status.py archives an upload. `wide` says which
-- characters beyond ASCII `\w` accepts.
use grbl_proxy.Prelude.{
  ℕ, zero, suc, Bool, ◌||◌, Option, none, some, List, [], ◌∷◌, ◌++◌, ◌==◌, ltb, length, last?,
  is_some, if◌then◌else◌,
}
use grbl_proxy.Text.{
  Text, codes, is_empty, is_digit, is_letter, strip, split_on, ends_with, drop_while,
  drop_while_end, same,
}
use grbl_proxy.Text.Decimal.{print}
use grbl_proxy.Job.{gcode_name}
use grbl_proxy.Job.Files.{Dir, read}
use grbl_proxy.Job.History.{stem}

-- a part of a path that pathlib drops
abbrev is_dropped : Text → Bool
is_dropped part = is_empty part || same part (codes ".")

unfoldable pub kept_parts : List Text → List Text
unfolding same
kept_parts [] = []
kept_parts (part ∷ parts) =
    let rest = kept_parts parts in if is_dropped part then rest else part ∷ rest

abbrev pub or_empty : Option Text → Text
or_empty none = []
or_empty (some s) = s

-- Path(name).name
unfoldable pub path_name : Text → Text
unfolding split_on kept_parts
path_name name = or_empty (last? (kept_parts (split_on b'/' name)))

-- Path(name).stem
unfoldable pub path_stem : Text → Text
unfolding path_name stem ends_with
path_stem name = if ends_with b'.' (path_name name) then path_name name else stem (path_name name)

abbrev pub is_underscore : ℕ → Bool
is_underscore c = c == b'_'

-- re.sub(r"_+", "_", s)
unfoldable pub squeeze : Text → Text
squeeze [] = []
squeeze (c ∷ s) =
    let rest = squeeze s in if is_underscore c then c ∷ drop_while is_underscore rest else c ∷ rest

-- s.strip("_")
unfoldable pub strip_underscores : Text → Text
unfolding drop_while drop_while_end
strip_underscores s = drop_while_end is_underscore (drop_while is_underscore s)

module _ (wide : ℕ → Bool) where
  -- `\w`
  unfoldable pub is_word : ℕ → Bool
  unfolding is_digit is_letter
  is_word c = if ltb c 128 then is_digit c || is_letter c || is_underscore c else wide c

  -- `[\w\-]`
  unfoldable pub is_kept : ℕ → Bool
  unfolding is_word
  is_kept c = is_word c || c == b'-'

  -- re.sub(r"[^\w\-]", "_", s)
  unfoldable pub replace_others : Text → Text
  unfolding is_kept
  replace_others [] = []
  replace_others (c ∷ s) = (if is_kept c then c else b'_') ∷ replace_others s

  -- _safe_stem
  unfoldable pub safe_stem : Text → Text
  unfolding path_stem strip replace_others squeeze strip_underscores
  safe_stem name =
      let s = strip_underscores (squeeze (replace_others (strip (path_stem name)))) in
      if is_empty s then codes "job" else s

abbrev pub exists : Text → Dir → Bool
exists stem d = is_some (read (gcode_name stem) d)

-- f"{base}_{n}"
unfoldable pub numbered : Text → ℕ → Text
unfolding print
numbered base n = base ++ b'_' ∷ print n

-- the loop over n, with fuel
unfoldable pub first_free : ℕ → ℕ → Text → Dir → Option Text
unfolding numbered read
first_free zero n base d = none
first_free (suc fuel) n base d =
    let later = first_free fuel (suc n) base d in
    if exists (numbered base n) d then later else some (numbered base n)

-- _unique_stem, with fuel for one try more than there are files
unfoldable pub unique_stem : Text → Dir → Option Text
unfolding first_free read
unique_stem base d = if exists base d then first_free (suc (length d)) 2 base d else some base
