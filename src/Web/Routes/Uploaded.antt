-- ===== src/Web/Routes/Uploaded.antt =====
-- What uploading a file and starting it do, in web/routes.py.
use grbl_proxy.Prelude.{
  ℕ, ◌≡◌, refl, sym, ap, ◌∙◌, subst, Bool, true, false, not, ◌&&◌, is_some, Option, none, some, [],
  ◌∷◌, arith, length, if◌then◌else◌,
}
use grbl_proxy.Text.{Text, same, strip, is_empty, starts_with, strip_prefix}
use grbl_proxy.Job.{gcode_name, upload}
use grbl_proxy.Job.Files.{Dir, read, save, remove, read-save}
use grbl_proxy.Job.History.{has_suffix}
use grbl_proxy.Job.Rotation.{same_apart}
use grbl_proxy.Text.Lines.{text_lines}
use grbl_proxy.Proxy.{Proxy, Io}
use grbl_proxy.Proxy.Life.{after_handover}
use grbl_proxy.Proxy.Handover.{IsStreaming}
use grbl_proxy.Web.Names.{exists}
use grbl_proxy.Web.Control.{has_serial}
use grbl_proxy.Web.Start.{
  StartIo, uploaded, may_start, archive_upload, upload_stem, metadata, start_uploaded_job,
  start_existing_job,
}
use grbl_proxy.Web.Upload.{MayUpload, stored, start_uploaded_job-stored, upload_is_stored}
use grbl_proxy.Web.Routes.{
  answered, RouteIo, pointer, sidecar, staging, or_none, note, chosen_stem, stored_stem, run_upload,
  rerun_selected, upload_job, start_job,
}
use grbl_proxy.Web.Routes.Pointer.{
  not_gcode, or_none-filled, pointer_apart, gcode_is_gcode, read_other, read_left, chosen_selected,
}
use grbl_proxy.Web.Routes.Rerun.{begin_execution-IsStreaming, IsStreaming-disk}

-- What the proxy and the disk must allow, and the name that the browser gave.
pub record MayRun (w : StartIo) (r : RouteIo) (name : Text) (p : Proxy) : Type 0 where
  pub state : may_start p.state ≡ true
  pub serial : (has_serial w.attached p && w.connected) ≡ true
  pub read_ok : w.read_ok ≡ true
  pub rename_ok : w.rename_ok ≡ true
  pub pointer_ok : r.pointer_ok ≡ true
  pub sidecar_ok : r.sidecar_ok ≡ true
  pub named : is_empty name ≡ false
  pub stripped : strip name ≡ name

abbrev noted : Text → Text → Dir → Dir
noted name content d = save sidecar name (save staging content d)

-- The files after the upload.
abbrev after_upload : Text → Text → Dir → Dir
after_upload name content d = save pointer uploaded (noted name content d)

upload_job_files :
    (name content : Text) (d : Dir)
    → is_empty name ≡ false
    → (upload_job (some name) content d).0 ≡ after_upload name content d
unfolding upload_job
upload_job_files [] content d h = absurd (ground arith)
upload_job_files (c ∷ name) content d h = refl

-- The proxy after the upload.
abbrev pub uploading : Text → Text → Proxy → Proxy
uploading name content p = record p { disk = (upload_job (some name) content p.disk).0 }

staged :
    (name content : Text) (d : Dir)
    → read (gcode_name uploaded) (after_upload name content d) ≡ some content
unfolding same
staged name content d =
    read-save pointer staging uploaded (noted name content d)
    ∙ read-save sidecar staging name (save staging content d)
    ∙ read-save staging staging content d

noted_name :
    (name content : Text) (d : Dir) → read sidecar (after_upload name content d) ≡ some name
unfolding same
noted_name name content d =
    read-save pointer sidecar uploaded (noted name content d)
    ∙ read-save sidecar sidecar name (save staging content d)

uploaded_chosen :
    (r : RouteIo) (d : Dir)
    → r.pointer_ok ≡ true
    → stored_stem (chosen_stem r none (save pointer uploaded d)) ≡ none
unfolding strip same
uploaded_chosen r d h = ap stored_stem (chosen_selected r uploaded d h refl refl)

note_filled :
    (b : Bool) (t : Text) → b ≡ true → is_empty t ≡ false → strip t ≡ t → note b (some t) ≡ some t
note_filled b t h full e =
    ap (λ x. if x then or_none (strip t) else none) h ∙ ap or_none e ∙ or_none-filled t full

sidecar_apart : (s : Text) → same sidecar (gcode_name s) ≡ false
unfolding has_suffix starts_with strip_prefix
sidecar_apart s = same_apart not_gcode sidecar (gcode_name s) refl (ap not (gcode_is_gcode s))

none_case {ℓ} :
    {A : Type ℓ} (o : Option Text) (x : A) (f : Text → A)
    → o ≡ none
    → (elim o [ some t ↦ f t | none ↦ x ]) ≡ x
none_case o x f h = ap (λ u. elim u [ some t ↦ f t | none ↦ x ]) h

was_free :
    (b : Bool) (o u v : Option Text)
    → u ≡ (if b then v else o)
    → is_some v ≡ true
    → is_some u ≡ false
    → is_some o ≡ false
was_free b o u v e there h = ground (arith, e)

-- A file that is not of an upload was there before.
free_before :
    (stem name content : Text) (d : Dir)
    → exists stem (after_upload name content d) ≡ false
    → exists stem d ≡ false
free_before stem name content d h =
    let m = gcode_name stem in
    let there =
      read_other pointer m uploaded (noted name content d) (pointer_apart stem)
      ∙ read_other sidecar m name (save staging content d) (sidecar_apart stem)
      ∙ read-save staging m content d in
    was_free (same staging m) (read m d) (read m (after_upload name content d)) (some content) there
      refl h

upload_allowed :
    (w : StartIo) (r : RouteIo) (name content : Text) (p : Proxy)
    → MayRun w r name p
    → MayUpload w content (uploading name content p)
upload_allowed w r name content p h = record {
  state = h.state;
  serial = h.serial;
  file =
      ap (read (gcode_name uploaded)) (upload_job_files name content p.disk h.named)
      ∙ staged name content p.disk;
  read_ok = h.read_ok;
  rename_ok = h.rename_ok;
}

module _ (wide : ℕ → Bool) where
  -- the proxy and the files when the job has started
  abbrev run_by : RouteIo → Io → StartIo → Text → Text → Proxy → Proxy
  run_by r io w name content p =
      (run_upload r (stored wide io w (some name) content (uploading name content p))).0

  start_job-fresh :
      (io : Io) (w : StartIo) (r : RouteIo) (body : Option Text) (p : Proxy)
      → stored_stem (chosen_stem r body p.disk) ≡ none
      → start_job wide io w r body p
        ≡ run_upload r (start_uploaded_job wide io w (note r.sidecar_ok (read sidecar p.disk)) p)
  unfolding start_job
  start_job-fresh io w r body p h =
      none_case (stored_stem (chosen_stem r body p.disk)) _
        (λ s. rerun_selected (start_existing_job io w s p)) h

  upload_runs :
      (io : Io) (w : StartIo) (r : RouteIo) (name content : Text) (p : Proxy)
      → MayRun w r name p
      → start_job wide io w r none (uploading name content p)
        ≡ (run_by r io w name content p, answered true)
  upload_runs io w r name content p h =
      let q = uploading name content p in
      let files = upload_job_files name content p.disk h.named in
      let may = upload_allowed w r name content p h in
      start_job-fresh io w r none q (
        ap (λ d. stored_stem (chosen_stem r none d)) files
        ∙ uploaded_chosen r (noted name content p.disk) h.pointer_ok)
      ∙ ap (λ o. run_upload r (start_uploaded_job wide io w o q))
          (ap (λ d. note r.sidecar_ok (read sidecar d)) files
            ∙ ap (note r.sidecar_ok) (noted_name name content p.disk)
            ∙ note_filled r.sidecar_ok name h.sidecar_ok h.named h.stripped)
      ∙ ap (run_upload r) (start_uploaded_job-stored wide io w (some name) content q may)

  -- The stem under which the upload is stored.
  abbrev pub stem_of_upload : Io → Text → Text → Proxy → Text
  stem_of_upload io name content p =
      upload_stem wide io.stamp (some name) (uploading name content p).disk

  -- consuming the sidecar and the selection takes no G-code away
  run_upload_gcode :
      (r : RouteIo) (stem : Text) (q : Proxy)
      → read
          (gcode_name stem)
          (remove pointer (if r.unlink_ok then remove sidecar q.disk else q.disk))
        ≡ read (gcode_name stem) q.disk
  run_upload_gcode r stem q =
      let m = gcode_name stem in
      read_left pointer m (if r.unlink_ok then remove sidecar q.disk else q.disk)
        (pointer_apart stem)
      ∙ (elim r.unlink_ok
          as (λ b. read m (if b then remove sidecar q.disk else q.disk) ≡ read m q.disk) [
            | true ↦ read_left sidecar m q.disk (sidecar_apart stem)
            | false ↦ refl
          ])

  -- Uploading a file and starting it runs it: if the browser gave a name that is not empty and has
  -- no white space at its ends, the state and the serial connection allow a start, and the disk
  -- does what it is asked, then the request is accepted, once the handover has ended the proxy
  -- executes with a new streamer, which was given the path of the upload as it is archived, and the
  -- contents of the upload are stored as a job under a stem that no job had before.
  pub uploaded_job_runs :
      (io : Io) (w : StartIo) (r : RouteIo) (name content : Text) (p : Proxy)
      → MayRun w r name p
      → ((start_job wide io w r none (uploading name content p)).1 ≡ answered true)
        × IsStreaming
            (gcode_name (stem_of_upload io name content p))
            io.now
            (after_handover io (start_job wide io w r none (uploading name content p)).0)
        × (exists (stem_of_upload io name content p) p.disk ≡ false)
        × (read
              (gcode_name (stem_of_upload io name content p))
              (start_job wide io w r none (uploading name content p)).0.disk
            ≡ some content)
  uploaded_job_runs io w r name content p h =
      let q = uploading name content p in
      let stem = stem_of_upload io name content p in
      let runs = upload_runs io w r name content p h in
      let may = upload_allowed w r name content p h in
      let kept = upload_is_stored wide io w name content q h.named may in
      let q' = stored wide io w (some name) content q in
      let streaming =
        IsStreaming-disk io (gcode_name stem) (run_by r io w name content p).disk q'.0 (
          begin_execution-IsStreaming io
            (metadata upload stem (some name) (length (text_lines false content)) io.now)
            (record q { disk = archive_upload w stem io.json q.config.max_history q.disk })) in
      (
        ap (λ x. x.1) runs,
        subst (λ x. IsStreaming (gcode_name stem) io.now (after_handover io x.0)) (sym runs)
            streaming,
        free_before stem name content p.disk
            (ap (λ d. exists stem d) (sym (upload_job_files name content p.disk h.named)) ∙ kept.1),
        ap (λ x. read (gcode_name stem) x.0.disk) runs
            ∙ run_upload_gcode r stem q'.0
            ∙ ap (λ x. read (gcode_name stem) x.0.disk)
                (sym (start_uploaded_job-stored wide io w (some name) content q may))
            ∙ kept.2,
      )
