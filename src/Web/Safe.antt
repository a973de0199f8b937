-- ===== src/Web/Safe.antt =====
-- _safe_stem of web/status.py.
use grbl_proxy.Prelude.{
  ℕ, ◌≡◌, refl, Bool, true, false, not, ◌&&◌, [], ◌∷◌, ◌==◌, arith, if◌then◌else◌,
}
use grbl_proxy.Text.{Text, codes, is_empty, strip, drop_while, drop_while_end, is_digit, is_letter}
use grbl_proxy.Web.Names.{
  is_underscore, squeeze, strip_underscores, is_word, is_kept, replace_others, path_stem, safe_stem,
}

abbrev pub all_of : (ℕ → Bool) → Text → Bool
all_of p [] = true
all_of p (c ∷ s) = p c && all_of p s

abbrev pub begins_with : (ℕ → Bool) → Text → Bool
begins_with p [] = false
begins_with p (c ∷ s) = p c

abbrev pub ends_by : (ℕ → Bool) → Text → Bool
ends_by p [] = false
ends_by p (c ∷ []) = p c
ends_by p (_ ∷ d ∷ s) = ends_by p (d ∷ s)

all_of-drop_while :
    (p q : ℕ → Bool) (s : Text) → all_of p s ≡ true → all_of p (drop_while q s) ≡ true
unfolding drop_while
all_of-drop_while p q [] h = refl
all_of-drop_while p q (c ∷ s) h = ground (arith, all_of-drop_while p q s)

all_of-drop_while_end :
    (p q : ℕ → Bool) (s : Text) → all_of p s ≡ true → all_of p (drop_while_end q s) ≡ true
unfolding drop_while_end
all_of-drop_while_end p q [] h = refl
all_of-drop_while_end p q (c ∷ s) h = ground (arith, all_of-drop_while_end p q s)

all_of-squeeze : (p : ℕ → Bool) (s : Text) → all_of p s ≡ true → all_of p (squeeze s) ≡ true
unfolding squeeze
all_of-squeeze p [] h = refl
all_of-squeeze p (c ∷ s) h =
    ground (arith, all_of-squeeze p s, all_of-drop_while p is_underscore (squeeze s))

drop_while-begins : (p : ℕ → Bool) (s : Text) → begins_with p (drop_while p s) ≡ false
unfolding drop_while
drop_while-begins p [] = refl
drop_while-begins p (c ∷ s) = ground (arith, drop_while-begins p s)

drop_while_end-begins :
    (p q : ℕ → Bool) (s : Text)
    → begins_with p s ≡ false
    → begins_with p (drop_while_end q s) ≡ false
unfolding drop_while_end
drop_while_end-begins p q [] h = refl
drop_while_end-begins p q (c ∷ s) h = ground arith

ends_by-cons :
    (p : ℕ → Bool) (c : ℕ) (s : Text)
    → ends_by p s ≡ false
    → (is_empty s && p c) ≡ false
    → ends_by p (c ∷ s) ≡ false
ends_by-cons p c [] h k = k
ends_by-cons p c (d ∷ s) h k = h

drop_while_end-ends : (p : ℕ → Bool) (s : Text) → ends_by p (drop_while_end p s) ≡ false
unfolding drop_while_end
drop_while_end-ends p [] = refl
drop_while_end-ends p (c ∷ s) =
    ground (arith, drop_while_end-ends p s, ends_by-cons p c (drop_while_end p s))

-- neither a slash nor a dot
abbrev pub in_name : ℕ → Bool
in_name c = not (c == b'/') && not (c == b'.')

module _ (wide : ℕ → Bool) where
  all_of-replace_others : (s : Text) → all_of (is_kept wide) (replace_others wide s) ≡ true
  unfolding replace_others is_kept is_word is_letter is_digit
  all_of-replace_others [] = refl
  all_of-replace_others (c ∷ s) = ground (arith, all_of-replace_others s)

  in_name_of_kept : (s : Text) → all_of (is_kept wide) s ≡ true → all_of in_name s ≡ true
  unfolding is_kept is_word is_letter is_digit
  in_name_of_kept [] h = refl
  in_name_of_kept (c ∷ s) h = ground (arith, in_name_of_kept s)

  -- What a stem made of a name promises.
  pub record IsSafe (s : Text) : Type 0 where
    pub kept : all_of (is_kept wide) s ≡ true
    pub in_directory : all_of in_name s ≡ true
    pub some_left : is_empty s ≡ false
    pub no_first : begins_with is_underscore s ≡ false
    pub no_last : ends_by is_underscore s ≡ false

  or_job-IsSafe :
      (s : Text)
      → all_of (is_kept wide) s ≡ true
      → begins_with is_underscore s ≡ false
      → ends_by is_underscore s ≡ false
      → IsSafe (if is_empty s then codes "job" else s)
  unfolding is_kept is_word is_letter is_digit
  or_job-IsSafe [] h k l = record {
    kept = refl;
    in_directory = refl;
    some_left = refl;
    no_first = refl;
    no_last = refl;
  }
  or_job-IsSafe (c ∷ s) h k l = record {
    kept = h;
    in_directory = in_name_of_kept (c ∷ s) h;
    some_left = refl;
    no_first = k;
    no_last = l;
  }

  -- Whatever name a browser sends for an upload, the stem it is stored under is not empty, consists
  -- of word characters and dashes alone, so of no dot and no slash, and neither begins nor ends with
  -- an underscore.
  pub safe_stem-IsSafe : (name : Text) → IsSafe (safe_stem wide name)
  unfolding safe_stem strip_underscores
  safe_stem-IsSafe name =
      let s = squeeze (replace_others wide (strip (path_stem name))) in
      let t = drop_while is_underscore s in
      let kept =
        all_of-squeeze (is_kept wide) (replace_others wide (strip (path_stem name)))
          (all_of-replace_others (strip (path_stem name))) in
      or_job-IsSafe (drop_while_end is_underscore t)
        (all_of-drop_while_end (is_kept wide) is_underscore t
          (all_of-drop_while (is_kept wide) is_underscore s kept))
        (drop_while_end-begins is_underscore is_underscore t (drop_while-begins is_underscore s))
        (drop_while_end-ends is_underscore t)
