-- ===== src/Job/Files.antt =====
-- The files of a directory, as the calls of pathlib in job_buffer.py see them.
use grbl_proxy.Prelude.{◌≡◌, ◌↔◌, true, Option, none, some, List, [], ◌∷◌, if◌then◌else◌, arith}
use grbl_proxy.Text.{Text, same}
use grbl_proxy.Text.Laws.{same_refl, eq_of_same}

abbrev pub Dir : Type 0
Dir = List (Text × Text)

unfoldable pub read : Text → Dir → Option Text
unfolding same
read name [] = none
read name ((n, s) ∷ d) = if same n name then some s else read name d

-- unlink(missing_ok=True)
unfoldable pub remove : Text → Dir → Dir
unfolding same
remove name [] = []
remove name ((n, s) ∷ d) = let rest = remove name d in if same n name then rest else (n, s) ∷ rest

-- write_text, or open(…, "w")
unfoldable pub save : Text → Text → Dir → Dir
unfolding remove
save name s d = (name, s) ∷ remove name d

abbrev moved : Option Text → Text → Text → Dir → Dir
moved none from to d = d
moved (some s) from to d = save to s (remove from d)

-- `if p.exists(): p.rename(q)`
unfoldable pub rename : Text → Text → Dir → Dir
unfolding read remove save
rename from to d = moved (read from d) from to d

-- Equality of texts as a symmetric test.
pub same_iff : (s t : Text) → (same s t ≡ true) ↔ (s ≡ t)
same_iff s t = (eq_of_same s t, λ e. rw e (same_refl t))

pub read-remove :
    (n m : Text) (d : Dir) → read m (remove n d) ≡ (if same n m then none else read m d)
unfolding read remove
read-remove n m [] = ground arith
read-remove n m ((k, s) ∷ d) =
    ground (arith, same_iff k n, same_iff k m, same_iff n m, read-remove n m d)

pub read-save :
    (n m s : Text) (d : Dir) → read m (save n s d) ≡ (if same n m then some s else read m d)
unfolding read save
read-save n m s d = ground (arith, read-remove n m d)

pub read-rename :
    (from to m s : Text) (d : Dir)
    → read from d ≡ some s
    → read m (rename from to d)
      ≡ (if same to m then some s else if same from m then none else read m d)
unfolding rename
read-rename from to m s d h =
    rw h (ground (arith, read-save to m s (remove from d), read-remove from m d))
