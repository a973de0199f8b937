-- ===== src/Text/Parts.antt =====
-- How the functions on texts act on a text that is put together from parts.
use grbl_proxy.Prelude.{
  ℕ, ◌≡◌, refl, ap, ◌∙◌, Bool, true, false, not, ◌&&◌, List, [], ◌∷◌, ◌++◌, ◌==◌, arith,
  if◌then◌else◌,
}
use grbl_proxy.Text.{
  Text, is_empty, take_while, drop_while, drop_while_end, strip, is_space, split_on, prepend,
}

abbrev pub all_pass : (ℕ → Bool) → Text → Bool
all_pass p [] = true
all_pass p (c ∷ s) = p c && all_pass p s

pub all_pass-append :
    (p : ℕ → Bool) (s t : Text) → all_pass p (s ++ t) ≡ (all_pass p s && all_pass p t)
all_pass-append p [] t = refl
all_pass-append p (c ∷ s) t = ground (arith, all_pass-append p s t)

-- A part that passes a test, up to a character that does not.
pub take_while-part :
    (p : ℕ → Bool) (s t : Text) (c : ℕ)
    → all_pass p s ≡ true
    → p c ≡ false
    → take_while p (s ++ c ∷ t) ≡ s
unfolding take_while
take_while-part p [] t c h k = ground arith
take_while-part p (d ∷ s) t c h k = ground (arith, take_while-part p s t c)

pub drop_while-part :
    (p : ℕ → Bool) (s t : Text) (c : ℕ)
    → all_pass p s ≡ true
    → p c ≡ false
    → drop_while p (s ++ c ∷ t) ≡ c ∷ t
unfolding drop_while
drop_while-part p [] t c h k = ground arith
drop_while-part p (d ∷ s) t c h k = ground (arith, drop_while-part p s t c)

pub take_while-all : (p : ℕ → Bool) (s : Text) → all_pass p s ≡ true → take_while p s ≡ s
unfolding take_while
take_while-all p [] h = refl
take_while-all p (d ∷ s) h = ground (arith, take_while-all p s)

pub drop_while-all : (p : ℕ → Bool) (s : Text) → all_pass p s ≡ true → drop_while p s ≡ []
unfolding drop_while
drop_while-all p [] h = refl
drop_while-all p (d ∷ s) h = ground (arith, drop_while-all p s)

prepend_filled : (sep c : ℕ) (ps : List Text) → is_empty (prepend sep c ps) ≡ false
prepend_filled sep c [] = refl
prepend_filled sep c (part ∷ parts) = ground arith

split_on_filled : (sep : ℕ) (s : Text) → is_empty (split_on sep s) ≡ false
unfolding split_on
split_on_filled sep [] = refl
split_on_filled sep (c ∷ s) = prepend_filled sep c (split_on sep s)

prepend_sep : (sep : ℕ) (ps : List Text) → is_empty ps ≡ false → prepend sep sep ps ≡ [] ∷ ps
prepend_sep sep [] h = absurd (ground arith)
prepend_sep sep (part ∷ parts) h = ground arith

prepend_other :
    (sep c : ℕ) (s : Text) (ps qs : List Text)
    → (c == sep) ≡ false
    → ps ≡ s ∷ qs
    → prepend sep c ps ≡ (c ∷ s) ∷ qs
prepend_other sep c s ps qs h e =
    ap (prepend sep c) e ∙ ap (λ b. if b then [] ∷ s ∷ qs else (c ∷ s) ∷ qs) h

-- What a test decides.
pub when_true {ℓ} : {A : Type ℓ} (b : Bool) (x y : A) → b ≡ true → (if b then x else y) ≡ x
when_true b x y h = ground arith

pub when_false {ℓ} : {A : Type ℓ} (b : Bool) (x y : A) → b ≡ false → (if b then x else y) ≡ y
when_false b x y h = ground arith

pub third {ℓ} :
    {A : Type ℓ} (a b : Bool) (x y z : A)
    → a ≡ false
    → b ≡ false
    → (if a then x else if b then y else z) ≡ z
third a b x y z h k = ground arith

pub both_pass : (x y : Bool) → (x && y) ≡ true → (x ≡ true) × (y ≡ true)
both_pass x y h = (ground arith, ground arith)

both : (a b : Bool) → (not a && b) ≡ true → (a ≡ false) × (b ≡ true)
both a b h = (ground arith, ground arith)

-- The first field.
pub split_on-part :
    (sep : ℕ) (s t : Text)
    → all_pass (λ c. not (c == sep)) s ≡ true
    → split_on sep (s ++ sep ∷ t) ≡ s ∷ split_on sep t
unfolding split_on
split_on-part sep [] t h = prepend_sep sep (split_on sep t) (split_on_filled sep t)
split_on-part sep (d ∷ s) t h =
    let (a, b) = both (d == sep) (all_pass (λ c. not (c == sep)) s) h in
    prepend_other sep d s (split_on sep (s ++ sep ∷ t)) (split_on sep t) a (split_on-part sep s t b)

pub split_on-whole :
    (sep : ℕ) (s : Text) → all_pass (λ c. not (c == sep)) s ≡ true → split_on sep s ≡ s ∷ []
unfolding split_on
split_on-whole sep [] h = refl
split_on-whole sep (d ∷ s) h =
    let (a, b) = both (d == sep) (all_pass (λ c. not (c == sep)) s) h in
    prepend_other sep d s (split_on sep s) [] a (split_on-whole sep s b)

abbrev pub not_space : ℕ → Bool
not_space c = not (is_space c)

pub filled : (s t : Text) (c : ℕ) → is_empty (s ++ c ∷ t) ≡ false
filled [] t c = refl
filled (d ∷ s) t c = refl

kept_before :
    (rest : Text) (b : Bool) (d : ℕ)
    → is_empty rest ≡ false
    → (if is_empty rest && b then [] else d ∷ rest) ≡ d ∷ rest
kept_before rest b d h = ground arith

pub drop_while_end-part :
    (p : ℕ → Bool) (s t : Text) (c : ℕ)
    → p c ≡ false
    → drop_while_end p t ≡ []
    → drop_while_end p (s ++ c ∷ t) ≡ s ++ c ∷ []
unfolding drop_while_end
drop_while_end-part p [] t c h k = ground (arith, k)
drop_while_end-part p (d ∷ s) t c h k =
    ap (λ u. if is_empty u && p d then [] else d ∷ u) (drop_while_end-part p s t c h k)
    ∙ kept_before (s ++ c ∷ []) (p d) d (filled s [] c)

and_false {ℓ} : {A : Type ℓ} (b : Bool) (x y : A) → (if b && false then x else y) ≡ y
and_false true x y = refl
and_false false x y = refl

drop_while_end-none :
    (p : ℕ → Bool) (s : Text) → all_pass (λ c. not (p c)) s ≡ true → drop_while_end p s ≡ s
unfolding drop_while_end
drop_while_end-none p [] h = refl
drop_while_end-none p (c ∷ s) h =
    let (a, b) = both (p c) (all_pass (λ c. not (p c)) s) h in
    ap (λ e. if is_empty (drop_while_end p s) && e then [] else c ∷ drop_while_end p s) a
    ∙ and_false (is_empty (drop_while_end p s)) [] (c ∷ drop_while_end p s)
    ∙ ap (λ u. c ∷ u) (drop_while_end-none p s b)

drop_while-none :
    (p : ℕ → Bool) (s : Text) → all_pass (λ c. not (p c)) s ≡ true → drop_while p s ≡ s
unfolding drop_while
drop_while-none p [] h = refl
drop_while-none p (c ∷ s) h =
    ap (λ e. if e then drop_while p s else c ∷ s) (both (p c) (all_pass (λ c. not (p c)) s) h).0

-- A text without white space is its own stripped text.
pub strip-all : (s : Text) → all_pass not_space s ≡ true → strip s ≡ s
unfolding strip
strip-all s h =
    ap (drop_while_end is_space) (drop_while-none is_space s h) ∙ drop_while_end-none is_space s h
