-- ===== src/Job/Rotation.antt =====
-- What rotate_history of job_buffer.py leaves of a directory.
use mathlib.Core.List.{reverse-append, reverse-reverse}
use grbl_proxy.Prelude.{
  ℕ, zero, suc, ◌-◌, ◌≡◌, refl, ap, ◌∙◌, Bool, true, false, some, List, [], ◌∷◌, ◌++◌, arith,
  Bool-cases, Option-cases, inl, inr, length, take, reverse, if◌then◌else◌,
}
use grbl_proxy.Text.{Text, codes, same, strip_prefix, starts_with, drop_while}
use grbl_proxy.Text.Laws.{eq_of_same}
use grbl_proxy.Job.Files.{Dir, read, remove, read-remove}
use grbl_proxy.Job.History.{
  has_suffix, is_meta_name, text_le, insert_sorted, meta_files, stem, delete_pairs, rotate_history,
}

strip_prefix-eq : (p s r : Text) → strip_prefix p s ≡ some r → s ≡ p ++ r
unfolding strip_prefix
strip_prefix-eq [] s r h = ground arith
strip_prefix-eq (a ∷ p) [] r h = cc
strip_prefix-eq (a ∷ p) (c ∷ s) r h = ground (arith, strip_prefix-eq p s r)

starts_with-eq : (p s : Text) → starts_with p s ≡ true → (r : Text) × (s ≡ p ++ r)
unfolding starts_with
starts_with-eq p s h = elim (Option-cases (strip_prefix p s)) [
  | inl e ↦ absurd (ground arith)
  | inr (r, e) ↦ (r, strip_prefix-eq p s r e)
]

stem-eq :
    (n r : Text)
    → reverse n ≡ reverse (codes ".meta.json") ++ r
    → stem n ≡ reverse (codes "atem." ++ r)
unfolding stem drop_while
stem-eq n r e = rw e

meta_gcode_suffix :
    (r : Text)
    → has_suffix (codes ".meta.gcode") (reverse (codes "atem." ++ r) ++ codes ".gcode") ≡ true
unfolding has_suffix starts_with
meta_gcode_suffix r =
    rw (reverse-append (reverse (codes "atem." ++ r)) (codes ".gcode"))
      (rw (reverse-reverse (codes "atem." ++ r)))

-- The stem of a metadata name keeps ".meta": the G-code name that is built from it ends in
-- ".meta.gcode".
stem_of_meta_name :
    (n : Text)
    → is_meta_name n ≡ true
    → has_suffix (codes ".meta.gcode") (stem n ++ codes ".gcode") ≡ true
unfolding is_meta_name has_suffix
stem_of_meta_name n h =
    let (r, e) = starts_with-eq (reverse (codes ".meta.json")) (reverse n) h in
    rw (stem-eq n r e) (meta_gcode_suffix r)

abbrev AllMeta : List Text → Type 0
AllMeta [] = Unit {0}
AllMeta (n ∷ ns) = (is_meta_name n ≡ true) × AllMeta ns

insert_sorted-AllMeta :
    (n : Text) (ns : List Text) → is_meta_name n ≡ true → AllMeta ns → AllMeta (insert_sorted n ns)
unfolding insert_sorted
insert_sorted-AllMeta n [] h a = (h, tt)
insert_sorted-AllMeta n (m ∷ ms) h a =
    elim (text_le n m) as (λ b. AllMeta (if b then n ∷ m ∷ ms else m ∷ insert_sorted n ms)) [
      | true ↦ (h, a)
      | false ↦ (a.0, insert_sorted-AllMeta n ms h a.1)
    ]

meta_files-AllMeta : (d : Dir) → AllMeta (meta_files d)
unfolding meta_files
meta_files-AllMeta [] = tt
meta_files-AllMeta ((n, s) ∷ d) = elim (Bool-cases (is_meta_name n)) [
  | inl h ↦ rw h (insert_sorted-AllMeta n (meta_files d) h (meta_files-AllMeta d))
  | inr h ↦ rw h (meta_files-AllMeta d)
]

take-AllMeta : (k : ℕ) (ns : List Text) → AllMeta ns → AllMeta (take k ns)
take-AllMeta zero ns a = tt
take-AllMeta (suc k) [] a = tt
take-AllMeta (suc k) (n ∷ ns) a = (a.0, take-AllMeta k ns a.1)

-- A test that tells two texts apart.
pub same_apart : (p : Text → Bool) (n m : Text) → p n ≡ true → p m ≡ false → same n m ≡ false
same_apart p n m h k = elim (Bool-cases (same n m)) [
  | inl e ↦ cc (ap p (eq_of_same n m e), h, k)
  | inr e ↦ e
]

read-delete_pairs :
    (ns : List Text) (m : Text) (d : Dir)
    → AllMeta ns
    → is_meta_name m ≡ false
    → has_suffix (codes ".meta.gcode") m ≡ false
    → read m (delete_pairs ns d) ≡ read m d
unfolding delete_pairs
read-delete_pairs [] m d a h k = refl
read-delete_pairs (n ∷ ns) m d a h k =
    let g = stem n ++ codes ".gcode" in
    let apart = same_apart is_meta_name n m a.0 h in
    let apart' = same_apart (has_suffix (codes ".meta.gcode")) g m (stem_of_meta_name n a.0) k in
    read-delete_pairs ns m (remove g (remove n d)) a.1 h k
    ∙ rw (read-remove g m (remove n d), apart', read-remove n m d, apart)

-- Rotation leaves every file alone that is neither a metadata file nor named "….meta.gcode": the
-- G-code of a job whose metadata it deletes stays, with the contents it had.
pub rotation_keeps_gcode :
    (max_history : ℕ) (m : Text) (d : Dir)
    → is_meta_name m ≡ false
    → has_suffix (codes ".meta.gcode") m ≡ false
    → read m (rotate_history max_history d) ≡ read m d
unfolding rotate_history
rotation_keeps_gcode max_history m d h k =
    let files = meta_files d in
    let excess = length files - max_history in
    read-delete_pairs (take excess files) m d (take-AllMeta excess files (meta_files-AllMeta d)) h k
