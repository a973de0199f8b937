-- ===== src/Web/Routes/Stored.antt =====
-- The requests of web/routes.py that list, select, delete and download the stored files. Time, size
-- and readability of a file are inputs, and so is the name that is found in the text of its metadata.
use grbl_proxy.Prelude.{
  ℕ, Bool, true, false, ◌&&◌, is_some, Option, none, some, List, [], ◌∷◌, map, if◌then◌else◌,
}
use grbl_proxy.Text.{Text, codes, same, strip}
use grbl_proxy.Job.{gcode_name, meta_name}
use grbl_proxy.Job.Files.{Dir, read, save, remove}
use grbl_proxy.Job.History.{has_suffix, stem}
use grbl_proxy.Devices.{sort_newest}
use grbl_proxy.Web.Start.{uploaded}
use grbl_proxy.Web.Routes.{
  Answer, answered, raised, file_not_found, job_file_not_found, RouteIo, pointer, sidecar, note,
  filled, line_feeds,
}

abbrev pub has_file : Text → Dir → Bool
has_file name d = is_some (read name d)

abbrev pub or_stem : Text → Option Text → Text
or_stem s none = s
or_stem s (some name) = name

-- What the file system says of a file.
pub record Stat : Type 0 where
  pub mtime : ℕ
  pub size : ℕ
  pub readable : Bool

pub record Listed : Type 0 where
  pub stem : Text
  pub display_name : Text
  pub size_bytes : ℕ
  pub line_count : Option ℕ
  pub modified : ℕ

-- glob("*.gcode")
unfoldable pub gcode_files : Dir → List Text
unfolding has_suffix
gcode_files [] = []
gcode_files ((n, s) ∷ d) =
    let rest = gcode_files d in if has_suffix (codes ".gcode") n then n ∷ rest else rest

-- the names without that of the capture in progress
unfoldable pub user_visible : List Text → List Text
unfolding stem same
user_visible [] = []
user_visible (n ∷ ns) =
    let rest = user_visible ns in if same (stem n) (codes "current") then rest else n ∷ rest

abbrev pub counted : Bool → Option Text → Option ℕ
counted true (some content) = some (line_feeds content)
counted _ _ = none

-- `original_filename` gives the name of a metadata text that can be parsed and has one.
module _ (original_filename : Text → Option Text) where
  abbrev name_in : Option Text → Option Text
  name_in none = none
  name_in (some meta) = filled (original_filename meta)

  -- the name that is shown for a file, found in the sidecar or in the metadata
  unfoldable pub display_name : RouteIo → Text → Dir → Text
  unfolding read same strip
  display_name r s d = or_stem s (
      if same s uploaded && has_file sidecar d
      then note r.sidecar_ok (read sidecar d)
      else name_in (read (meta_name s) d))

  abbrev listed : (Text → Stat) → RouteIo → Dir → Text → Listed
  listed stat r d n = record {
    stem = stem n;
    display_name = display_name r (stem n) d;
    size_bytes = (stat n).size;
    line_count = counted (stat n).readable (read n d);
    modified = (stat n).mtime;
  }

  -- list_files
  unfoldable pub list_files : (Text → Stat) → RouteIo → Dir → List Listed
  unfolding gcode_files user_visible sort_newest
  list_files stat r d =
      map (listed stat r d) (user_visible (sort_newest (λ n. (stat n).mtime) (gcode_files d)))

  -- select_file
  unfoldable pub select_file : RouteIo → Text → Dir → Dir × Answer Text
  unfolding display_name save
  select_file r s d =
      let selected = save pointer s d in
      if has_file (gcode_name s) d
      then (selected, answered (display_name r s selected))
      else (d, raised 404 file_not_found)

abbrev points_to : Text → Option Text → Bool
points_to s none = false
points_to s (some t) = same (strip t) s

-- the selection that points at the file that was removed
unfoldable pub drop_selection : RouteIo → Text → Dir → Dir
unfolding remove read same strip
drop_selection r s d = if r.pointer_ok && points_to s (read pointer d) then remove pointer d else d

-- delete_file
unfoldable pub delete_file : RouteIo → Text → Dir → Dir × Answer Bool
unfolding drop_selection remove same
delete_file r s d =
    let without = remove (meta_name s) (remove (gcode_name s) d) in
    if has_file (gcode_name s) d
    then (
      drop_selection r s (if same s uploaded then remove sidecar without else without),
      answered true,
    )
    else (d, raised 404 file_not_found)

-- download_job: the contents that are sent
unfoldable pub download_job : Text → Dir → Answer Text
unfolding read
download_job filename d = elim (read (gcode_name filename) d) [
  | some content ↦ answered content
  | none ↦ raised 404 job_file_not_found
]
