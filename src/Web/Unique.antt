-- ===== src/Web/Unique.antt =====
-- _unique_stem of web/status.py.
use grbl_proxy.Prelude.{
  ℕ, zero, suc, ◌≡◌, refl, sym, ap, ◌∙◌, ◌≤◌, ◌<◌, Bool, true, false, ◌&&◌, Option, none, some, [],
  ◌∷◌, length, drop, is_some, arith, if◌then◌else◌,
}
use mathlib.Core.List.{append_cancel_left, append_cancel_right}
use grbl_proxy.Text.{Text, codes, same, decimal}
use grbl_proxy.Text.Laws.{eq_of_same}
use grbl_proxy.Text.Decimal.{print, decimal-print}
use grbl_proxy.Job.{gcode_name}
use grbl_proxy.Job.Files.{Dir, read, remove, read-remove}
use grbl_proxy.Web.Names.{exists, numbered, first_free, unique_stem}

print-Injective : (n m : ℕ) → print n ≡ print m → n ≡ m
print-Injective n m e = sym (decimal-print n) ∙ ap (λ s. decimal 0 s) e ∙ decimal-print m

numbered-Injective :
    (base : Text) (n m : ℕ) → gcode_name (numbered base n) ≡ gcode_name (numbered base m) → n ≡ m
unfolding numbered
numbered-Injective base n m e =
    let joined = append_cancel_right (numbered base n) (numbered base m) (codes ".gcode") e in
    let numbers = append_cancel_left base (b'_' ∷ print n) (b'_' ∷ print m) joined in
    print-Injective n m (ap (λ s. drop 1 s) numbers)

numbered-apart :
    (base : Text) (n m : ℕ)
    → n < m
    → same (gcode_name (numbered base n)) (gcode_name (numbered base m)) ≡ false
numbered-apart base n m h =
    let s = gcode_name (numbered base n) in
    let t = gcode_name (numbered base m) in
    elim (same s t) as (λ b. same s t ≡ b → b ≡ false) [
      | true ↦ λ e. ground (arith, h, numbered-Injective base n m (eq_of_same s t e))
      | false ↦ λ e. refl
    ]
      refl

length-remove : (name : Text) (d : Dir) → length (remove name d) ≤ length d
unfolding remove
length-remove name [] = omega arith
length-remove name ((n, s) ∷ d) = ground (arith, length-remove name d)

length-remove-lt :
    (name : Text) (d : Dir) → is_some (read name d) ≡ true → length (remove name d) < length d
unfolding remove read
length-remove-lt name [] h = cc
length-remove-lt name ((n, s) ∷ d) h = ground (arith, length-remove name d, length-remove-lt name d)

-- The names with the numbers from `n` on, `k` of them, are all taken.
abbrev all_taken : ℕ → ℕ → Text → Dir → Bool
all_taken zero n base d = true
all_taken (suc k) n base d = exists (numbered base n) d && all_taken k (suc n) base d

exists-remove :
    (base : Text) (n m : ℕ) (d : Dir)
    → n < m
    → exists (numbered base m) (remove (gcode_name (numbered base n)) d)
      ≡ exists (numbered base m) d
exists-remove base n m d h =
    rw
      (
        read-remove (gcode_name (numbered base n)) (gcode_name (numbered base m)) d,
        numbered-apart base n m h,
      )
      refl

all_taken-remove :
    (k n m : ℕ) (base : Text) (d : Dir)
    → n < m
    → all_taken k m base (remove (gcode_name (numbered base n)) d) ≡ all_taken k m base d
all_taken-remove zero n m base d h = refl
all_taken-remove (suc k) n m base d h =
    rw (exists-remove base n m d h, all_taken-remove k n (suc m) base d (omega (arith, h))) refl

-- So many names need as many files.
all_taken-length : (k n : ℕ) (base : Text) (d : Dir) → all_taken k n base d ≡ true → k ≤ length d
all_taken-length zero n base d h = omega arith
all_taken-length (suc k) n base d h =
    let name = gcode_name (numbered base n) in
    ground (
      arith,
      all_taken-length k (suc n) base (remove name d),
      all_taken-remove k n (suc n) base d (omega arith),
      length-remove-lt name d,
    )

-- What a stem that is found promises: no G-code file has it.
abbrev pub IsFree : Dir → Option Text → Type 0
IsFree d none = ⊥
IsFree d (some stem) = exists stem d ≡ false

first_free-IsFree :
    (k n : ℕ) (base : Text) (d : Dir)
    → all_taken k n base d ≡ false
    → IsFree d (first_free k n base d)
unfolding first_free
first_free-IsFree zero n base d h = cc
first_free-IsFree (suc k) n base d h =
    (elim (exists (numbered base n) d)
        as (λ b.
          exists (numbered base n) d ≡ b
          → (b && all_taken k (suc n) base d) ≡ false
          → IsFree d (if b then first_free k (suc n) base d else some (numbered base n))) [
            | true ↦ λ e rest. first_free-IsFree k (suc n) base d rest
            | false ↦ λ e rest. e
          ])
      refl h

not_all_taken : (base : Text) (d : Dir) → all_taken (suc (length d)) 2 base d ≡ false
not_all_taken base d =
    elim (all_taken (suc (length d)) 2 base d)
        as (λ b. all_taken (suc (length d)) 2 base d ≡ b → b ≡ false) [
          | true ↦ λ e. ground (arith, all_taken-length (suc (length d)) 2 base d e)
          | false ↦ λ e. refl
        ]
      refl

-- The search for a free name ends, and with a free name: the loop of _unique_stem tries at most one
-- number more than there are files, and returns a stem for which no G-code file exists.
pub unique_stem-IsFree : (base : Text) (d : Dir) → IsFree d (unique_stem base d)
unfolding unique_stem
unique_stem-IsFree base d =
    let numbered_stem = first_free (suc (length d)) 2 base d in
    (elim (exists base d)
        as (λ b. exists base d ≡ b → IsFree d (if b then numbered_stem else some base)) [
          | true ↦ λ e. first_free-IsFree (suc (length d)) 2 base d (not_all_taken base d)
          | false ↦ λ e. e
        ])
      refl
