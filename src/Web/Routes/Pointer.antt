-- ===== src/Web/Routes/Pointer.antt =====
-- The files of web/routes.py that say which job is selected, beside the stored G-code.
use mathlib.Core.List.{reverse-append}
use grbl_proxy.Prelude.{
  ◌≡◌, refl, ap, ◌∙◌, Bool, true, false, not, Option, none, some, [], ◌∷◌, arith, if◌then◌else◌,
}
use grbl_proxy.Text.{Text, codes, same, strip, is_empty, starts_with, strip_prefix}
use grbl_proxy.Text.Laws.{same_refl}
use grbl_proxy.Job.{gcode_name}
use grbl_proxy.Job.Files.{Dir, read, save, remove, read-save, read-remove}
use grbl_proxy.Job.History.{has_suffix}
use grbl_proxy.Job.Rotation.{same_apart}
use grbl_proxy.Web.Start.{uploaded}
use grbl_proxy.Web.Routes.{RouteIo, pointer, or_none, note, chosen_stem, stored_stem}

pub or_none-filled : (s : Text) → is_empty s ≡ false → or_none s ≡ some s
or_none-filled [] h = absurd (ground arith)
or_none-filled (c ∷ s) h = refl

pub gcode_is_gcode : (s : Text) → has_suffix (codes ".gcode") (gcode_name s) ≡ true
unfolding has_suffix starts_with strip_prefix
gcode_is_gcode s = rw (reverse-append s (codes ".gcode")) refl

abbrev pub not_gcode : Text → Bool
not_gcode m = not (has_suffix (codes ".gcode") m)

pub pointer_apart : (s : Text) → same pointer (gcode_name s) ≡ false
unfolding has_suffix starts_with strip_prefix
pointer_apart s = same_apart not_gcode pointer (gcode_name s) refl (ap not (gcode_is_gcode s))

pub read_other : (n m s : Text) (d : Dir) → same n m ≡ false → read m (save n s d) ≡ read m d
read_other n m s d h = read-save n m s d ∙ ap (λ b. if b then some s else read m d) h

pub read_left : (n m : Text) (d : Dir) → same n m ≡ false → read m (remove n d) ≡ read m d
read_left n m d h = read-remove n m d ∙ ap (λ b. if b then none else read m d) h

-- The stem that is found when it has been selected, and nothing else is asked for.
pub chosen_selected :
    (r : RouteIo) (stem : Text) (d : Dir)
    → r.pointer_ok ≡ true
    → is_empty stem ≡ false
    → strip stem ≡ stem
    → chosen_stem r none (save pointer stem d) ≡ some stem
unfolding chosen_stem
chosen_selected r stem d ok full stripped =
    ap (λ o. note r.pointer_ok o)
      (read-save pointer pointer stem d
        ∙ ap (λ b. if b then some stem else read pointer d) (same_refl pointer))
    ∙ ap (λ b. if b then or_none (strip stem) else none) ok
    ∙ ap or_none stripped
    ∙ or_none-filled stem full

pub stored_not_uploaded : (s : Text) → same s uploaded ≡ false → stored_stem (some s) ≡ some s
stored_not_uploaded s h = ap (λ b. if b then none else some s) h

pub some_case {ℓ} :
    {A : Type ℓ} (o : Option Text) (s : Text) (x : A) (f : Text → A)
    → o ≡ some s
    → (elim o [ some t ↦ f t | none ↦ x ]) ≡ f s
some_case o s x f h = ap (λ u. elim u [ some t ↦ f t | none ↦ x ]) h
