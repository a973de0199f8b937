-- ===== src/Web/Upload.antt =====
-- What start_uploaded_job of web/status.py does to the stored files.
use grbl_proxy.Prelude.{
  ℕ, suc, ◌≡◌, refl, sym, ap, ◌∙◌, subst, Bool, true, false, ◌&&◌, Option, none, some, length,
  is_some, arith, if◌then◌else◌,
}
use grbl_proxy.Text.{Text, codes, same, is_empty}
use grbl_proxy.Text.Laws.{eq_of_same, same_refl}
use grbl_proxy.Text.Lines.{text_lines}
use grbl_proxy.Job.{gcode_name, meta_name, upload, JobMetadata}
use grbl_proxy.Job.Files.{Dir, read, save, rename, read-save, read-rename}
use grbl_proxy.Job.History.{is_meta_name, has_suffix, rotate_history}
use grbl_proxy.Job.Rotation.{rotation_keeps_gcode, same_apart}
use grbl_proxy.Proxy.{Proxy, Io}
use grbl_proxy.Proxy.Life.{start_streamer, await_reader, hand_over}
use grbl_proxy.Web.Names.{exists, unique_stem, safe_stem}
use grbl_proxy.Web.Safe.{all_of, in_name, safe_stem-IsSafe}
use grbl_proxy.Web.Unique.{IsFree, unique_stem-IsFree}
use grbl_proxy.Web.Control.{has_serial}
use grbl_proxy.Web.Start.{
  Start, StartIo, started, uploaded, may_start, stem_or, archive_upload, begin_execution,
  upload_stem, start_upload, start_uploaded_job, metadata, start_checked-runs,
}
use grbl_proxy.Web.FileNames.{
  stem_in_name, first_free-in_name, gcode_not_meta, gcode_not_meta_gcode, meta_is_meta,
}

-- A name that no rotation deletes and no metadata file has.
record IsKept (m : Text) : Type 0 where
  not_meta : is_meta_name m ≡ false
  not_meta_gcode : has_suffix (codes ".meta.gcode") m ≡ false

-- What archiving an upload leaves under a name that is kept.
read-archive_upload :
    (w : StartIo) (stem json m content : Text) (k : ℕ) (d : Dir)
    → IsKept m
    → read (gcode_name uploaded) d ≡ some content
    → read m (archive_upload w stem json k d) ≡ (
        if same (gcode_name stem) m
        then some content
        else if same (gcode_name uploaded) m
        then none
        else read m d)
read-archive_upload w stem json m content k d kept h =
    let renamed = rename (gcode_name uploaded) (gcode_name stem) d in
    let moved = read-rename (gcode_name uploaded) (gcode_name stem) m content d h in
    let apart = same_apart is_meta_name (meta_name stem) m (meta_is_meta stem) kept.not_meta in
    elim w.meta_ok
      as (λ b.
        read m (if b then rotate_history k (save (meta_name stem) json renamed) else renamed) ≡ (
          if same (gcode_name stem) m
          then some content
          else if same (gcode_name uploaded) m
          then none
          else read m d)) [
            | true ↦
                rotation_keeps_gcode k m (save (meta_name stem) json renamed) kept.not_meta
                  kept.not_meta_gcode
                ∙ (rw (read-save (meta_name stem) m json renamed, apart) moved)
            | false ↦ moved
          ]

-- The checks that start_uploaded_job makes, and what it needs of the disk.
pub record MayUpload (w : StartIo) (content : Text) (p : Proxy) : Type 0 where
  pub state : may_start p.state ≡ true
  pub serial : (has_serial w.attached p && w.connected) ≡ true
  pub file : read (gcode_name uploaded) p.disk ≡ some content
  pub read_ok : w.read_ok ≡ true
  pub rename_ok : w.rename_ok ≡ true

pub free_apart :
    (stem m s : Text) (d : Dir)
    → exists stem d ≡ false
    → read m d ≡ some s
    → same (gcode_name stem) m ≡ false
free_apart stem m s d free there =
    elim (same (gcode_name stem) m) as (λ b. same (gcode_name stem) m ≡ b → b ≡ false) [
      | true ↦ λ e.
          let missing =
            subst (λ n. is_some (read n d) ≡ false) (eq_of_same (gcode_name stem) m e) free in
          ground (arith, there, missing)
      | false ↦ λ e. refl
    ]
      refl

-- The stem of an upload that has a name.
record IsUploadStem (s : Text) (d : Dir) : Type 0 where
  free : exists s d ≡ false
  in_directory : all_of in_name s ≡ true

stem_or-IsUploadStem :
    (base : Text) (o : Option Text) (d : Dir)
    → IsFree d o
    → stem_in_name o ≡ true
    → IsUploadStem (stem_or base o) d
unfolding stem_in_name
stem_or-IsUploadStem base none d f h = absurd f
stem_or-IsUploadStem base (some s) d f h = record { free = f; in_directory = h }

unique_stem-in_name :
    (base : Text) (d : Dir) → all_of in_name base ≡ true → stem_in_name (unique_stem base d) ≡ true
unfolding unique_stem stem_in_name
unique_stem-in_name base d h = ground (arith, first_free-in_name (suc (length d)) 2 base d h)

pub begin_execution_disk :
    (io : Io) (meta : JobMetadata) (p : Proxy) → (begin_execution io meta p).disk ≡ p.disk
unfolding begin_execution await_reader hand_over start_streamer
begin_execution_disk io meta p = ground arith

module _ (wide : ℕ → Bool) where
  upload_stem-IsUploadStem :
      (stamp name : Text) (d : Dir)
      → is_empty name ≡ false
      → IsUploadStem (upload_stem wide stamp (some name) d) d
  unfolding upload_stem
  upload_stem-IsUploadStem stamp name d h =
      let base = safe_stem wide name in
      let found =
        stem_or-IsUploadStem base (unique_stem base d) d (unique_stem-IsFree base d)
          (unique_stem-in_name base d (safe_stem-IsSafe wide name).in_directory) in
      subst (λ b. IsUploadStem (if b then stamp else stem_or base (unique_stem base d)) d) (sym h)
        found

  -- what it does then
  abbrev pub stored : Io → StartIo → Option Text → Text → Proxy → Proxy × Start
  stored io w name content p =
      let stem = upload_stem wide io.stamp name p.disk in
      let meta = metadata upload stem name (length (text_lines false content)) io.now in
      (
        begin_execution io meta
            (record p { disk = archive_upload w stem io.json p.config.max_history p.disk }),
        started meta,
      )

  start_upload-stored :
      (io : Io) (w : StartIo) (name : Option Text) (content : Text) (p : Proxy)
      → MayUpload w content p
      → start_upload wide io w name content p ≡ stored io w name content p
  unfolding start_upload
  start_upload-stored io w name content p h = rw (h.read_ok, h.rename_ok) refl

  pub start_uploaded_job-stored :
      (io : Io) (w : StartIo) (name : Option Text) (content : Text) (p : Proxy)
      → MayUpload w content p
      → start_uploaded_job wide io w name p ≡ stored io w name content p
  unfolding start_uploaded_job
  start_uploaded_job-stored io w name content p h =
      start_checked-runs w (read (gcode_name uploaded) p.disk)
        (λ text. start_upload wide io w name text p) content p h.state h.serial h.file
      ∙ start_upload-stored io w name content p h

  -- An upload that is started is stored under a name of its own: if the name that the browser gave is
  -- not empty, the state and the serial connection allow a start, and the file is there and can be
  -- read and renamed, then the job starts from a file that did not exist before, whose contents are
  -- those of the upload.
  pub upload_is_stored :
      (io : Io) (w : StartIo) (name content : Text) (p : Proxy)
      → is_empty name ≡ false
      → MayUpload w content p
      → ((start_uploaded_job wide io w (some name) p).1
          ≡ started (
              metadata upload
                (upload_stem wide io.stamp (some name) p.disk)
                (some name)
                (length (text_lines false content))
                io.now))
        × (exists (upload_stem wide io.stamp (some name) p.disk) p.disk ≡ false)
        × (read
              (gcode_name (upload_stem wide io.stamp (some name) p.disk))
              (start_uploaded_job wide io w (some name) p).0.disk
            ≡ some content)
  upload_is_stored io w name content p named h =
      let stem = upload_stem wide io.stamp (some name) p.disk in
      let stem_ok = upload_stem-IsUploadStem io.stamp name p.disk named in
      let runs = start_uploaded_job-stored io w (some name) content p h in
      let kept : IsKept (gcode_name stem) = record {
        not_meta = gcode_not_meta stem;
        not_meta_gcode = gcode_not_meta_gcode stem stem_ok.in_directory;
      } in
      (
        ap (λ r. r.1) runs,
        stem_ok.free,
        ap (λ r. read (gcode_name stem) r.0.disk) runs
            ∙ ap (read (gcode_name stem)) (
                begin_execution_disk io
                  (metadata upload stem (some name) (length (text_lines false content)) io.now)
                  (record p { disk = archive_upload w stem io.json p.config.max_history p.disk }))
            ∙ read-archive_upload w stem io.json (gcode_name stem) content p.config.max_history
                p.disk kept h.file
            ∙ rw (same_refl (gcode_name stem)) refl,
      )

  -- Starting an upload harms no stored job: under the same conditions every other file has the
  -- contents that it had, unless its name is that of metadata or ends in ".meta.gcode".
  pub upload_keeps_files :
      (io : Io) (w : StartIo) (name content m s : Text) (p : Proxy)
      → is_empty name ≡ false
      → MayUpload w content p
      → read m p.disk ≡ some s
      → same (gcode_name uploaded) m ≡ false
      → is_meta_name m ≡ false
      → has_suffix (codes ".meta.gcode") m ≡ false
      → read m (start_uploaded_job wide io w (some name) p).0.disk ≡ some s
  upload_keeps_files io w name content m s p named h there other meta meta_gcode =
      let stem = upload_stem wide io.stamp (some name) p.disk in
      let runs = start_uploaded_job-stored io w (some name) content p h in
      let fresh =
        free_apart stem m s p.disk (upload_stem-IsUploadStem io.stamp name p.disk named).free
          there in
      ap (λ r. read m r.0.disk) runs
      ∙ ap (read m) (
          begin_execution_disk io
            (metadata upload stem (some name) (length (text_lines false content)) io.now)
            (record p { disk = archive_upload w stem io.json p.config.max_history p.disk }))
      ∙ read-archive_upload w stem io.json m content p.config.max_history p.disk
          (record { not_meta = meta; not_meta_gcode = meta_gcode }) h.file
      ∙ rw (fresh, other) there
