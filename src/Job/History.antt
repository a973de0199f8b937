-- ===== src/Job/History.antt =====
-- rotate_history of job_buffer.py.
use grbl_proxy.Prelude.{
  ℕ, ◌-◌, Bool, true, false, not, ◌&&◌, List, [], ◌∷◌, ◌++◌, ◌||◌, ltb, ◌==◌, length, take, reverse,
  if◌then◌else◌,
}
use grbl_proxy.Text.{Text, codes, is_empty, starts_with, drop_while}
use grbl_proxy.Job.Files.{Dir, remove}

-- s.endswith(p)
unfoldable pub has_suffix : Text → Text → Bool
unfolding starts_with
has_suffix p s = starts_with (reverse p) (reverse s)

-- a name that glob("*.meta.json") gives
unfoldable pub is_meta_name : Text → Bool
unfolding has_suffix
is_meta_name name = has_suffix (codes ".meta.json") name

unfoldable pub text_le : Text → Text → Bool
text_le [] t = true
text_le (a ∷ s) [] = false
text_le (a ∷ s) (b ∷ t) = ltb a b || a == b && text_le s t

unfoldable pub insert_sorted : Text → List Text → List Text
unfolding text_le
insert_sorted x [] = x ∷ []
insert_sorted x (y ∷ ys) =
    let rest = insert_sorted x ys in if text_le x y then x ∷ y ∷ ys else y ∷ rest

-- sorted(storage_dir.glob("*.meta.json"))
unfoldable pub meta_files : Dir → List Text
unfolding is_meta_name insert_sorted
meta_files [] = []
meta_files ((n, s) ∷ d) =
    let rest = meta_files d in if is_meta_name n then insert_sorted n rest else rest

abbrev not_dot : ℕ → Bool
not_dot c = not (c == b'.')

abbrev before_suffix : Text → Text → Text
before_suffix name [] = name
before_suffix name (c ∷ s) = if is_empty s then name else reverse s

-- Path.stem: without what follows the last dot, the dot included
unfoldable pub stem : Text → Text
unfolding drop_while
stem name = before_suffix name (drop_while not_dot (reverse name))

-- the loop over the oldest
unfoldable pub delete_pairs : List Text → Dir → Dir
unfolding remove stem
delete_pairs [] d = d
delete_pairs (m ∷ ms) d = delete_pairs ms (remove (stem m ++ codes ".gcode") (remove m d))

unfoldable pub rotate_history : ℕ → Dir → Dir
unfolding meta_files delete_pairs
rotate_history max_history d =
    let files = meta_files d in delete_pairs (take (length files - max_history) files) d
