-- ===== src/Web/Routes/Rerun.antt =====
-- What selecting a stored job and starting it do, in web/routes.py.
use grbl_proxy.Prelude.{
  ℕ, ◌≡◌, refl, sym, ap, ◌∙◌, subst, Bool, true, false, ◌&&◌, is_some, Option, none, some, length,
  arith, if◌then◌else◌,
}
use grbl_proxy.Text.{Text, same, strip, is_empty}
use grbl_proxy.Text.Laws.{same_refl}
use grbl_proxy.Text.Lines.{text_lines}
use grbl_proxy.Job.{gcode_name, rerun, JobMetadata}
use grbl_proxy.Job.Files.{Dir, read, save, remove, read-remove}
use grbl_proxy.Proxy.{Proxy, Io, executing, waiting}
use grbl_proxy.Proxy.Life.{start_streamer, hand_over, after_handover}
use grbl_proxy.Proxy.Handover.{IsStreaming, await_reader-IsStreaming}
use grbl_proxy.Web.Control.{has_serial}
use grbl_proxy.Web.Upload.{begin_execution_disk}
use grbl_proxy.Web.Start.{
  StartIo, started, uploaded, may_start, metadata, begin_execution, start_existing_job,
  start_stored, start_checked-runs,
}
use grbl_proxy.Web.Routes.{
  answered, RouteIo, pointer, chosen_stem, stored_stem, rerun_selected, start_job,
}
use grbl_proxy.Web.Routes.Pointer.{
  pointer_apart, read_other, read_left, chosen_selected, stored_not_uploaded, some_case,
}
use grbl_proxy.Web.Routes.Stored.{has_file, select_file}

-- A stem that a selection can be made of, and the job under it.
pub record MayRerun (w : StartIo) (stem content : Text) (p : Proxy) : Type 0 where
  pub state : may_start p.state ≡ true
  pub serial : (has_serial w.attached p && w.connected) ≡ true
  pub file : read (gcode_name stem) p.disk ≡ some content
  pub read_ok : w.read_ok ≡ true
  pub stored : same stem uploaded ≡ false
  pub filled : is_empty stem ≡ false
  pub stripped : strip stem ≡ stem

-- The proxy with the stem selected.
abbrev pub selecting : Text → Proxy → Proxy
selecting stem p = record p { disk = save pointer stem p.disk }

-- The metadata of the job that is rerun.
abbrev rerun_meta : Io → StartIo → Text → Text → JobMetadata
rerun_meta io w stem content =
    metadata rerun stem w.stored_name (length (text_lines false content)) io.now

-- The proxy after a selected job was started.
abbrev after_rerun : Io → StartIo → Text → Text → Proxy → Proxy
after_rerun io w stem content p =
    let q = begin_execution io (rerun_meta io w stem content) (selecting stem p) in
    record q { disk = remove pointer q.disk }

first_of {ℓ κ} :
    {A : Type ℓ} {B : Type κ} (b : Bool) (x y : A) (u v : B)
    → b ≡ true
    → (if◌then◌else◌ {A = A × B} b (x, u) (y, v)).0 ≡ x
first_of {A = A} {B = B} b x y u v h = ap (λ e. (if◌then◌else◌ {A = A × B} e (x, u) (y, v)).0) h

select_found :
    (original_filename : Text → Option Text) (r : RouteIo) (stem content : Text) (d : Dir)
    → read (gcode_name stem) d ≡ some content
    → (select_file original_filename r stem d).0 ≡ save pointer stem d
unfolding select_file
select_found original_filename r stem content d h =
    first_of (has_file (gcode_name stem) d) (save pointer stem d) d _ _ (ap is_some h)

pub begin_execution-IsStreaming :
    (io : Io) (meta : JobMetadata) (p : Proxy)
    → IsStreaming meta.path io.now (after_handover io (begin_execution io meta p))
unfolding begin_execution
begin_execution-IsStreaming io meta p =
    await_reader-IsStreaming io meta
      (record p {
        serial_conn = true;
        state = executing;
        serial_readable = false;
        serial_yield = true;
        handover = waiting meta;
      })
      refl refl refl

-- The end of a handover does not look at the files.
pub IsStreaming-disk :
    (io : Io) (path : Text) (d : Dir) (p : Proxy)
    → IsStreaming path io.now (after_handover io p)
    → IsStreaming path io.now (after_handover io (record p { disk = d }))
unfolding hand_over start_streamer
IsStreaming-disk io path d p h = (ground (arith, h.0), ground (arith, h.1), ground (arith, h.2))

stored_runs :
    (io : Io) (w : StartIo) (stem content : Text) (p : Proxy)
    → w.read_ok ≡ true
    → start_stored io w stem content p ≡ (
      begin_execution io (rerun_meta io w stem content) p,
      started (rerun_meta io w stem content),
    )
unfolding start_stored
stored_runs io w stem content p h = rw h refl

start_existing-runs :
    (io : Io) (w : StartIo) (stem content : Text) (p : Proxy)
    → MayRerun w stem content p
    → start_existing_job io w stem (selecting stem p) ≡ (
      begin_execution io (rerun_meta io w stem content) (selecting stem p),
      started (rerun_meta io w stem content),
    )
unfolding start_existing_job
start_existing-runs io w stem content p h =
    start_checked-runs w (read (gcode_name stem) (selecting stem p).disk)
      (λ text. start_stored io w stem text (selecting stem p)) content (selecting stem p) h.state
      h.serial (read_other pointer (gcode_name stem) stem p.disk (pointer_apart stem) ∙ h.file)
    ∙ stored_runs io w stem content (selecting stem p) h.read_ok

module _ (wide : ℕ → Bool) where
  start_job-stored :
      (io : Io) (w : StartIo) (r : RouteIo) (body : Option Text) (stem : Text) (p : Proxy)
      → stored_stem (chosen_stem r body p.disk) ≡ some stem
      → start_job wide io w r body p ≡ rerun_selected (start_existing_job io w stem p)
  unfolding start_job
  start_job-stored io w r body stem p h =
      some_case (stored_stem (chosen_stem r body p.disk)) stem _
        (λ s. rerun_selected (start_existing_job io w s p)) h

  selected_runs :
      (io : Io) (w : StartIo) (r : RouteIo) (stem content : Text) (p : Proxy)
      → MayRerun w stem content p
      → r.pointer_ok ≡ true
      → start_job wide io w r none (selecting stem p)
        ≡ (after_rerun io w stem content p, answered true)
  selected_runs io w r stem content p h ok =
      let chosen = chosen_selected r stem p.disk ok h.filled h.stripped in
      start_job-stored io w r none stem (selecting stem p)
        (ap stored_stem chosen ∙ stored_not_uploaded stem h.stored)
      ∙ ap rerun_selected (start_existing-runs io w stem content p h)

  after_rerun_files :
      (io : Io) (w : StartIo) (stem content m : Text) (p : Proxy)
      → same pointer m ≡ false
      → read m (after_rerun io w stem content p).disk ≡ read m p.disk
  after_rerun_files io w stem content m p other =
      let meta = rerun_meta io w stem content in
      let q = begin_execution io meta (selecting stem p) in
      read_left pointer m q.disk other
      ∙ ap (read m) (begin_execution_disk io meta (selecting stem p))
      ∙ read_other pointer m stem p.disk other

  -- Selecting a stored job and starting the selection reruns the job in place: if the stem is not
  -- empty, has no white space at its ends and is not that of the staged upload, the file is there
  -- and can be read, and the state and the serial connection allow a start, then the request is
  -- accepted, once the handover has ended the proxy executes with a new streamer, which was given the
  -- path of the selected job, the selection is consumed, and every file but the one that records the
  -- selection has the contents that it had, none if there was none.
  pub selected_job_reruns :
      (original_filename : Text → Option Text) (io : Io) (w : StartIo) (r : RouteIo)
      (stem content m : Text) (p : Proxy)
      → MayRerun w stem content p
      → r.pointer_ok ≡ true
      → same pointer m ≡ false
      → ((start_job wide io w r none
            (record p { disk = (select_file original_filename r stem p.disk).0 })).1
          ≡ answered true)
        × IsStreaming (gcode_name stem) io.now (
            after_handover io
              (start_job wide io w r none
                (record p { disk = (select_file original_filename r stem p.disk).0 })).0)
        × (read pointer
              (start_job wide io w r none
                (record p { disk = (select_file original_filename r stem p.disk).0 })).0.disk
            ≡ none)
        × (read m
              (start_job wide io w r none
                (record p { disk = (select_file original_filename r stem p.disk).0 })).0.disk
            ≡ read m p.disk)
  selected_job_reruns original_filename io w r stem content m p h ok other =
      let q = begin_execution io (rerun_meta io w stem content) (selecting stem p) in
      let runs =
        ap (λ d. start_job wide io w r none (record p { disk = d }))
          (select_found original_filename r stem content p.disk h.file)
        ∙ selected_runs io w r stem content p h ok in
      let streaming =
        IsStreaming-disk io (gcode_name stem) (remove pointer q.disk) q
          (begin_execution-IsStreaming io (rerun_meta io w stem content) (selecting stem p)) in
      (
        ap (λ x. x.1) runs,
        subst (λ x. IsStreaming (gcode_name stem) io.now (after_handover io x.0)) (sym runs)
            streaming,
        ap (λ x. read pointer x.0.disk) runs
            ∙ read-remove pointer pointer q.disk
            ∙ ap (λ b. if b then none else read pointer q.disk) (same_refl pointer),
        ap (λ x. read m x.0.disk) runs ∙ after_rerun_files io w stem content m p other,
      )
