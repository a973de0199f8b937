-- ===== src/Examples/Requesting.antt =====
-- Requests to web/routes.py.
use grbl_proxy.Prelude.{◌≡◌, refl, true, Option, none, [], ◌∷◌}
use grbl_proxy.Text.{Text, codes, same, strip}
use grbl_proxy.Job.Files.{Dir, read}
use grbl_proxy.Proxy.{passthrough, executing, Proxy, new_proxy}
use grbl_proxy.Proxy.Handover.{IsStreaming}
use grbl_proxy.Web.Routes.{answered, pointer, RouteIo, chosen_stem, start_job, upload_job}
use grbl_proxy.Web.Routes.Stored.{select_file, delete_file}
use grbl_proxy.Web.Routes.Rerun.{MayRerun, selected_job_reruns}
use grbl_proxy.Streamer.Run.{loaded, sent, Env}
use grbl_proxy.Web.Start.{upload_stem}
use grbl_proxy.Web.Routes.Uploaded.{stem_of_upload}
use grbl_proxy.Pipeline.Uploads.{after_start}
use grbl_proxy.Examples.Streaming.{answers, at_once}
use grbl_proxy.Examples.Proxying.{defaults, works}
use grbl_proxy.Examples.Uploading.{page, none_wide}

abbrev stored_files : Dir
stored_files = (codes "cup.gcode", codes "G0 X1\nM2\n") ∷ (codes "cup.meta.json", codes "{}") ∷ []

abbrev idle : Proxy
idle = record (new_proxy defaults stored_files) { state = passthrough }

abbrev all_work : RouteIo
all_work = record { pointer_ok = true; sidecar_ok = true; unlink_ok = true }

abbrev no_name : Text → Option Text
no_name t = none

may_rerun : MayRerun page (codes "cup") (codes "G0 X1\nM2\n") idle
unfolding new_proxy read same strip
may_rerun = record {
  state = refl;
  serial = refl;
  file = refl;
  read_ok = refl;
  stored = refl;
  filled = refl;
  stripped = refl;
}

abbrev selected : Proxy
selected = record idle { disk = (select_file no_name all_work (codes "cup") idle.disk).0 }

selected_job_reruns_example :
    ((start_job none_wide works page all_work none selected).1 ≡ answered true)
    × IsStreaming
        (codes "cup.gcode")
        works.now
        (start_job none_wide works page all_work none selected).0
    × (read pointer (start_job none_wide works page all_work none selected).0.disk ≡ none)
    × (read (codes "cup.gcode") (start_job none_wide works page all_work none selected).0.disk
        ≡ read (codes "cup.gcode") idle.disk)
unfolding same
selected_job_reruns_example =
    selected_job_reruns none_wide no_name works page all_work (codes "cup") (codes "G0 X1\nM2\n")
      (codes "cup.gcode") idle may_rerun refl refl

-- A selected job is refused while another one runs, and the selection is gone: without a stem in its
-- body the next request takes the path of the upload.
refused_start_forgets :
    chosen_stem all_work none
      (start_job none_wide works page all_work none (record selected { state = executing })).0.disk
    ≡ none
unfolding start_job chosen_stem new_proxy select_file
refused_start_forgets = refl

-- A file that is selected and then deleted is not selected any more.
deleted_is_forgotten : read pointer (delete_file all_work (codes "cup") selected.disk).0 ≡ none
unfolding delete_file select_file new_proxy read
deleted_is_forgotten = refl

-- The line count that the upload reports leaves out a last line that does not end.
upload_counts_ends : (upload_job none (codes "G0 X1\nM2") []).1 ≡ answered (1, none)
unfolding upload_job
upload_counts_ends = refl

abbrev started_upload : Proxy
started_upload =
    after_start none_wide works page all_work (codes "mug.nc") (codes "G0 X1\r\n\r\nM2") idle

abbrev two_lines : Env
two_lines = record {
  load = loaded (codes "G0 X1\n" ∷ codes "\n" ∷ codes "M2" ∷ []);
  started = 1_010;
  turns = at_once 1_020 [] ∷ at_once 1_030 [] ∷ [];
  tail = answers 1_050 (codes "ok\r\n") ∷ answers 1_060 (codes "ok\r\n") ∷ [];
  failsafe = sent;
}

upload_stem_of :
    stem_of_upload none_wide works (codes "mug.nc") (codes "G0 X1\r\n\r\nM2") idle ≡ codes "mug"
unfolding upload_stem upload_job new_proxy
upload_stem_of = refl
