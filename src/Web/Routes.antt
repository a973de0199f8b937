-- ===== src/Web/Routes.antt =====
-- The requests of web/routes.py that start and steer a job. A request acts on the proxy and on its
-- files through ProxyControl of web/status.py. What json.loads makes of a body is an input.
pub mod Stored
pub mod Views
pub mod Pointer
pub mod Uploaded
pub mod Rerun
use grbl_proxy.Prelude.{
  ℕ, zero, suc, Bool, true, false, not, ◌&&◌, ◌==◌, is_some, Option, none, some, List, [], ◌∷◌,
  if◌then◌else◌,
}
use grbl_proxy.Text.{Text, codes, same, strip, is_empty}
use grbl_proxy.Job.Files.{Dir, read, save, remove}
use grbl_proxy.Proxy.{Proxy, Effect, Io}
use grbl_proxy.Web.Control.{web_pause, web_resume, web_cancel, send_console}
use grbl_proxy.Web.Start.{
  Start, started, refused, Refusal, StartIo, uploaded, start_uploaded_job, start_existing_job,
}

-- What an HTTPException says.
pub data Detail : Type 0 where
  reason : Refusal → Detail
  command_refused file_not_found job_file_not_found command_required : Detail

-- A response: a value, or an HTTPException with its status.
pub data Answer {ℓ} (A : Type ℓ) : Type ℓ where
  answered : A → Answer A
  raised : ℕ → Detail → Answer A

-- Which of the small files can be read, and whether the sidecar can be removed.
pub record RouteIo : Type 0 where
  pub pointer_ok : Bool
  pub sidecar_ok : Bool
  pub unlink_ok : Bool

-- selected_ptr
abbrev pub pointer : Text
pointer = codes "selected.stem"

abbrev pub sidecar : Text
sidecar = codes "uploaded.filename"

abbrev pub staging : Text
staging = codes "uploaded.gcode"

-- `t or None`
abbrev pub or_none : Text → Option Text
or_none [] = none
or_none (c ∷ s) = some (c ∷ s)

abbrev pub filled : Option Text → Option Text
filled none = none
filled (some t) = or_none t

-- the stripped text of a file that is there and can be read, if there is something in it
abbrev pub note : Bool → Option Text → Option Text
note ok none = none
note ok (some t) = if ok then or_none (strip t) else none

abbrev pub line_feeds : Text → ℕ
line_feeds [] = 0
line_feeds (c ∷ s) = let rest = line_feeds s in if c == 10 then suc rest else rest

abbrev save_name : Option Text → Dir → Dir
save_name none d = d
save_name (some name) d = save sidecar name d

-- upload_job, with `file.filename` and the contents: the line count and the name
unfoldable pub upload_job : Option Text → Text → Dir → Dir × Answer (ℕ × Option Text)
unfolding save
upload_job filename content d =
    let original_filename = filled filename in
    (
      save pointer uploaded (save_name original_filename (save staging content d)),
      answered (line_feeds content, original_filename),
    )

-- the stem that the request gives, or else the one that was selected
unfoldable pub chosen_stem : RouteIo → Option Text → Dir → Option Text
unfolding read strip
chosen_stem r body d = elim (filled body) [
  | some stem ↦ some stem
  | none ↦ note r.pointer_ok (read pointer d)
]

-- `stem and stem != "uploaded"`
abbrev pub stored_stem : Option Text → Option Text
stored_stem none = none
stored_stem (some stem) = if same stem uploaded then none else some stem

abbrev pub answer_start : Start → Answer Bool
answer_start (started m) = answered true
answer_start (refused why) = raised 409 (reason why)

-- The stored job: the selection is consumed whether or not the job starts.
abbrev pub rerun_selected : Proxy × Start → Proxy × Answer Bool
rerun_selected (p, s) = (record p { disk = remove pointer p.disk }, answer_start s)

-- The fresh upload: the sidecar and the selection are consumed when the job has started.
abbrev pub run_upload : RouteIo → Proxy × Start → Proxy × Answer Bool
run_upload r (p, refused why) = (p, raised 409 (reason why))
run_upload r (p, started m) =
    let d = if r.unlink_ok then remove sidecar p.disk else p.disk in
    (record p { disk = remove pointer d }, answered true)

module _ (wide : ℕ → Bool) where
  -- start_job, with the stem found in the body
  unfoldable pub start_job : Io → StartIo → RouteIo → Option Text → Proxy → Proxy × Answer Bool
  unfolding chosen_stem start_existing_job start_uploaded_job remove strip read same
  start_job io w r body p = elim (stored_stem (chosen_stem r body p.disk)) [
    | some stem ↦ rerun_selected (start_existing_job io w stem p)
    | none ↦ run_upload r (start_uploaded_job wide io w (note r.sidecar_ok (read sidecar p.disk)) p)
  ]

abbrev answer_ok : Bool → Answer Bool
answer_ok true = answered true
answer_ok false = raised 409 command_refused

abbrev answer_command : Proxy × List Effect × Bool → Proxy × List Effect × Answer Bool
answer_command (p, es, ok) = (p, es, answer_ok ok)

-- pause_job, resume_job, cancel_job
unfoldable pub pause_job : Io → Bool → Proxy → Proxy × List Effect × Answer Bool
unfolding web_pause
pause_job io attached p = answer_command (web_pause io attached p)

unfoldable pub resume_job : Io → Bool → Proxy → Proxy × List Effect × Answer Bool
unfolding web_resume
resume_job io attached p = answer_command (web_resume io attached p)

unfoldable pub cancel_job : Io → Bool → Proxy → Proxy × List Effect × Answer Bool
unfolding web_cancel
cancel_job io attached p = answer_command (web_cancel io attached p)

-- post_console, with the command found in the body
unfoldable pub post_console : Io → Bool → Option Text → Proxy → Proxy × List Effect × Answer Bool
unfolding strip send_console
post_console io attached body p = elim (note true body) [
  | none ↦ (p, [], raised 400 command_required)
  | some command ↦ answer_command (send_console io attached command p)
]
