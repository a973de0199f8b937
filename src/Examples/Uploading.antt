-- ===== src/Examples/Uploading.antt =====
-- The web page's commands of web/status.py on concrete inputs.
use grbl_proxy.Prelude.{ℕ, ◌≡◌, refl, Bool, true, false, none, some, length, [], ◌∷◌}
use grbl_proxy.Text.{codes, same}
use grbl_proxy.Text.Lines.{text_lines}
use grbl_proxy.Job.Files.{Dir, read}
use grbl_proxy.Job.History.{is_meta_name, has_suffix}
use grbl_proxy.Proxy.{Proxy, executing, new_proxy}
use grbl_proxy.Proxy.Bytes.{control_byte}
use grbl_proxy.Web.Names.{safe_stem, unique_stem}
use grbl_proxy.Web.Safe.{IsSafe, safe_stem-IsSafe}
use grbl_proxy.Web.Unique.{IsFree, unique_stem-IsFree}
use grbl_proxy.Web.Control.{web_pause, web_resume, web_cancel}
use grbl_proxy.Web.Mirror.{accepted, rejected, buttons_mirror_bytes}
use grbl_proxy.Web.Start.{StartIo, start_uploaded_job}
use grbl_proxy.Web.Upload.{MayUpload, upload_keeps_files}
use grbl_proxy.Examples.Proxying.{defaults, works}

abbrev pub none_wide : ℕ → Bool
none_wide c = false

safe_stem_test : safe_stem none_wide (codes "../a b (1).gcode") ≡ codes "a_b_1"
unfolding safe_stem same
safe_stem_test = refl

safe_stem-IsSafe_example : IsSafe none_wide (safe_stem none_wide (codes "../a b (1).gcode"))
safe_stem-IsSafe_example = safe_stem-IsSafe none_wide (codes "../a b (1).gcode")

-- a directory with an upload, and with two jobs of one name
abbrev stored : Dir
stored =
    (codes "uploaded.gcode", codes "G0 X1\nM2")
    ∷ (codes "cup.gcode", codes "M2\n")
    ∷ (codes "cup_2.gcode", codes "M5\n")
    ∷ []

unique_stem_test : unique_stem (codes "cup") stored ≡ some (codes "cup_3")
unfolding unique_stem
unique_stem_test = refl

unique_stem-IsFree_example : IsFree stored (unique_stem (codes "cup") stored)
unique_stem-IsFree_example = unique_stem-IsFree (codes "cup") stored

abbrev idle : Proxy
unfolding new_proxy
idle = new_proxy defaults stored

abbrev pub page : StartIo
page = record {
  attached = true;
  connected = true;
  read_ok = true;
  rename_ok = true;
  meta_ok = true;
  stored_name = none;
}

text_lines_test : length (text_lines false (codes "G0 X1\r\nM5\rM2")) ≡ 3
unfolding text_lines
text_lines_test = refl

buttons_mirror_bytes_example :
    (web_pause works true (record idle { state = executing })
      ≡ accepted (control_byte works b'!' false (record idle { state = executing })))
    × (web_resume works true (record idle { state = executing })
        ≡ rejected (record idle { state = executing }))
    × (web_cancel works true (record idle { state = executing })
        ≡ accepted (control_byte works 0x18 false (record idle { state = executing })))
buttons_mirror_bytes_example =
    buttons_mirror_bytes works true false (record idle { state = executing }) refl

abbrev may_upload : MayUpload page (codes "G0 X1\nM2") idle
unfolding new_proxy read same
may_upload = record { state = refl; serial = refl; file = refl; read_ok = refl; rename_ok = refl }

upload_keeps_files_example :
    read
      (codes "cup.gcode")
      (start_uploaded_job none_wide works page (some (codes "cup.nc")) idle).0.disk
    ≡ some (codes "M2\n")
unfolding new_proxy read same is_meta_name has_suffix
upload_keeps_files_example =
    upload_keeps_files none_wide works page (codes "cup.nc") (codes "G0 X1\nM2") (codes "cup.gcode")
      (codes "M2\n") idle refl may_upload refl refl refl refl
