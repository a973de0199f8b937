-- ===== src/Devices.antt =====
-- The choice of the serial port in config.py. The names that glob finds and the times that os.stat
-- gives are inputs.
use grbl_proxy.Prelude.{
  ℕ, ◌+◌, ◌≡◌, refl, Bool, true, not, ◌&&◌, Option, none, some, List, [], ◌∷◌, ◌++◌, leb, last?,
  arith, if◌then◌else◌,
}
use grbl_proxy.Text.{Text, codes, same}
use grbl_proxy.Job.History.{insert_sorted}

-- _created, with os.stat failing as `none`
unfoldable pub created : (Text → Option ℕ) → Text → ℕ
created stat path = elim (stat path) [ none ↦ 0 | some mtime ↦ mtime ]

-- before the first that is not newer
unfoldable pub insert_newest : (Text → ℕ) → Text → List Text → List Text
insert_newest key path [] = path ∷ []
insert_newest key path (p ∷ ps) =
    let rest = insert_newest key path ps in
    if leb (key p) (key path) then path ∷ p ∷ ps else p ∷ rest

-- sorted(paths, key=key, reverse=True), which keeps the order of equal keys
unfoldable pub sort_newest : (Text → ℕ) → List Text → List Text
unfolding insert_newest
sort_newest key [] = []
sort_newest key (p ∷ ps) = insert_newest key p (sort_newest key ps)

-- list_serial_candidates
unfoldable pub list_serial_candidates : (Text → Option ℕ) → List Text → List Text → List Text
unfolding created sort_newest
list_serial_candidates stat usb acm = sort_newest (created stat) (usb ++ acm)

-- sorted(paths)
unfoldable pub sort_names : List Text → List Text
unfolding insert_sorted
sort_names [] = []
sort_names (p ∷ ps) = insert_sorted p (sort_names ps)

abbrev pub fallback : Text
fallback = codes "/dev/ttyUSB0"

-- resolve_serial_port
unfoldable pub resolve_serial_port : Text → List Text → List Text → Text
unfolding sort_names same
resolve_serial_port port usb acm =
    if not (same port (codes "auto"))
    then port
    else elim (last? (sort_names (usb ++ acm))) [ none ↦ fallback | some path ↦ path ]

-- How often a path is in a list.
abbrev pub count : Text → List Text → ℕ
count path [] = 0
count path (p ∷ ps) = (if same path p then 1 else 0) + count path ps

-- Is no path newer than one before it?
abbrev pub newest_first : (Text → ℕ) → List Text → Bool
newest_first key [] = true
newest_first key (p ∷ []) = true
newest_first key (p ∷ q ∷ ps) = leb (key q) (key p) && newest_first key (q ∷ ps)

count-insert_newest :
    (key : Text → ℕ) (path p : Text) (ps : List Text)
    → count path (insert_newest key p ps) ≡ count path (p ∷ ps)
unfolding insert_newest
count-insert_newest key path p [] = refl
count-insert_newest key path p (q ∷ qs) = ground (arith, count-insert_newest key path p qs)

count-sort_newest :
    (key : Text → ℕ) (path : Text) (ps : List Text)
    → count path (sort_newest key ps) ≡ count path ps
unfolding sort_newest
count-sort_newest key path [] = refl
count-sort_newest key path (p ∷ ps) =
    ground
      (arith, count-insert_newest key path p (sort_newest key ps), count-sort_newest key path ps)

newest_first-insert :
    (key : Text → ℕ) (p : Text) (ps : List Text)
    → newest_first key ps ≡ true
    → newest_first key (insert_newest key p ps) ≡ true
unfolding insert_newest
newest_first-insert key p [] h = refl
newest_first-insert key p (q ∷ []) h = ground arith
newest_first-insert key p (q ∷ r ∷ rs) h = ground (arith, newest_first-insert key p (r ∷ rs))

newest_first-sort : (key : Text → ℕ) (ps : List Text) → newest_first key (sort_newest key ps) ≡ true
unfolding sort_newest
newest_first-sort key [] = refl
newest_first-sort key (p ∷ ps) =
    newest_first-insert key p (sort_newest key ps) (newest_first-sort key ps)

-- The candidates are the device files found, each as often as it was found, and none is newer than
-- one before it, a file that cannot be examined counting as oldest.
pub candidates_newest_first :
    (stat : Text → Option ℕ) (usb acm : List Text) (path : Text)
    → (count path (list_serial_candidates stat usb acm) ≡ count path (usb ++ acm))
      × (newest_first (created stat) (list_serial_candidates stat usb acm) ≡ true)
unfolding list_serial_candidates
candidates_newest_first stat usb acm path = (
  count-sort_newest (created stat) path (usb ++ acm),
  newest_first-sort (created stat) (usb ++ acm),
)
