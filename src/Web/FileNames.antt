-- ===== src/Web/FileNames.antt =====
-- The file names that start_uploaded_job of web/status.py makes.
use Prim.Native.Nat.{◌/◌, ◌%◌}
use grbl_proxy.Prelude.{
  ℕ, zero, suc, ◌+◌, ◌≡◌, refl, Bool, true, false, ◌&&◌, Option, none, some, [], ◌∷◌, ◌++◌, reverse,
  ltb, arith,
}
use mathlib.Core.List.{reverse-append, reverse_aux}
use grbl_proxy.Text.{Text, codes, starts_with, strip_prefix}
use grbl_proxy.Text.Decimal.{print, print_by}
use grbl_proxy.Job.{gcode_name, meta_name}
use grbl_proxy.Job.Files.{Dir}
use grbl_proxy.Job.History.{is_meta_name, has_suffix}
use grbl_proxy.Web.Names.{numbered, first_free}
use grbl_proxy.Web.Safe.{all_of, in_name}

all_of-append : (p : ℕ → Bool) (s t : Text) → all_of p (s ++ t) ≡ (all_of p s && all_of p t)
all_of-append p [] t = refl
all_of-append p (c ∷ s) t = ground (arith, all_of-append p s t)

all_of-reverse_aux :
    (p : ℕ → Bool) (s t : Text) → all_of p (reverse_aux s t) ≡ (all_of p s && all_of p t)
all_of-reverse_aux p [] t = refl
all_of-reverse_aux p (c ∷ s) t = ground (arith, all_of-reverse_aux p s (c ∷ t))

digit_in_name : (n : ℕ) → ltb n 10 ≡ true → in_name (b'0' + n) ≡ true
digit_in_name n h = ground arith

print_by-in_name : (fuel n : ℕ) → all_of in_name (print_by fuel n) ≡ true
unfolding print_by
print_by-in_name zero n = refl
print_by-in_name (suc fuel) n = ground (
  arith,
  print_by-in_name fuel (n / 10),
  all_of-append in_name (print_by fuel (n / 10)) ((b'0' + n % 10) ∷ []),
)

numbered-in_name :
    (base : Text) (n : ℕ) → all_of in_name base ≡ true → all_of in_name (numbered base n) ≡ true
unfolding numbered print
numbered-in_name base n h =
    ground
      (arith, all_of-append in_name base (b'_' ∷ print_by (suc n) n), print_by-in_name (suc n) n)

unfoldable pub stem_in_name : Option Text → Bool
stem_in_name none = true
stem_in_name (some s) = all_of in_name s

pub first_free-in_name :
    (k n : ℕ) (base : Text) (d : Dir)
    → all_of in_name base ≡ true
    → stem_in_name (first_free k n base d) ≡ true
unfolding first_free stem_in_name
first_free-in_name zero n base d h = refl
first_free-in_name (suc k) n base d h =
    ground (arith, first_free-in_name k (suc n) base d h, numbered-in_name base n h)

-- No G-code file is a metadata file.
pub gcode_not_meta : (s : Text) → is_meta_name (gcode_name s) ≡ false
unfolding is_meta_name has_suffix starts_with strip_prefix
gcode_not_meta s = rw (reverse-append s (codes ".gcode")) refl

no_dotted : (r : Text) → all_of in_name r ≡ true → starts_with (codes "atem.") r ≡ false
unfolding starts_with strip_prefix
no_dotted [] h = refl
no_dotted (a ∷ []) h = ground arith
no_dotted (a ∷ b ∷ []) h = ground arith
no_dotted (a ∷ b ∷ c ∷ []) h = ground arith
no_dotted (a ∷ b ∷ c ∷ d ∷ []) h = ground arith
no_dotted (a ∷ b ∷ c ∷ d ∷ e ∷ r) h = ground arith

pub gcode_not_meta_gcode :
    (s : Text) → all_of in_name s ≡ true → has_suffix (codes ".meta.gcode") (gcode_name s) ≡ false
unfolding has_suffix starts_with strip_prefix
gcode_not_meta_gcode s h =
    rw (reverse-append s (codes ".gcode"))
      (no_dotted (reverse s) (ground (arith, all_of-reverse_aux in_name s [])))

pub meta_is_meta : (s : Text) → is_meta_name (meta_name s) ≡ true
unfolding is_meta_name has_suffix starts_with strip_prefix
meta_is_meta s = rw (reverse-append s (codes ".meta.json")) refl
