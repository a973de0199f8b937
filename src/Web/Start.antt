-- ===== src/Web/Start.antt =====
-- The starting of a job by ProxyControl of web/status.py. The json text of the metadata is an input,
-- and so is what is read of it.
use grbl_proxy.Prelude.{
  ℕ, ◌≡◌, refl, Bool, true, false, not, ◌&&◌, Option, none, some, if◌then◌else◌, length,
}
use grbl_proxy.Text.{Text, codes, is_empty}
use grbl_proxy.Text.Lines.{text_lines}
use grbl_proxy.Job.{Source, upload, rerun, JobMetadata, gcode_name, meta_name}
use grbl_proxy.Job.Files.{Dir, read, save, rename}
use grbl_proxy.Job.History.{rotate_history}
use grbl_proxy.Proxy.{ProxyState, disconnected, passthrough, executing, Proxy, Io, waiting}
use grbl_proxy.Proxy.Life.{await_reader}
use grbl_proxy.Web.Control.{has_serial}
use grbl_proxy.Web.Names.{safe_stem, unique_stem}

-- Why a job is not started.
pub data Refusal : Type 0 where
  wrong_state not_connected no_file cannot_read cannot_archive : Refusal

pub data Start : Type 0 where
  started : JobMetadata → Start
  refused : Refusal → Start

-- What the environment answers beside `Io`: whether a serial connection is attached and open,
-- whether the file can be read and renamed, the metadata be written, and the name found in them.
pub record StartIo : Type 0 where
  pub attached : Bool
  pub connected : Bool
  pub read_ok : Bool
  pub rename_ok : Bool
  pub meta_ok : Bool
  pub stored_name : Option Text

abbrev pub uploaded : Text
uploaded = codes "uploaded"

-- _begin_execution
unfoldable pub begin_execution : Io → JobMetadata → Proxy → Proxy
unfolding await_reader
begin_execution io meta p = await_reader io (record p {
  serial_conn = true;
  state = executing;
  serial_readable = false;
  serial_yield = true;
  handover = waiting meta;
})

-- the states in which a job may be started
abbrev pub may_start : ProxyState → Bool
may_start passthrough = true
may_start disconnected = true
may_start _ = false

abbrev pub metadata : Source → Text → Option Text → ℕ → ℕ → JobMetadata
metadata source stem name line_count now = record {
  path = gcode_name stem;
  line_count = line_count;
  start_time = now;
  end_time = now;
  source = source;
  original_filename = name;
}

-- the checks of both starts, before what `run` does with the text of the file
unfoldable pub start_checked :
    StartIo → Option Text → (Text → Proxy × Start) → Proxy → Proxy × Start
start_checked w file run p =
    if not (may_start p.state)
    then (p, refused wrong_state)
    else if not (has_serial w.attached p && w.connected)
    then (p, refused not_connected)
    else elim file [ none ↦ (p, refused no_file) | some content ↦ run content ]

-- A start that passes the checks does what `run` does.
pub start_checked-runs :
    (w : StartIo) (file : Option Text) (run : Text → Proxy × Start) (content : Text) (p : Proxy)
    → may_start p.state ≡ true
    → (has_serial w.attached p && w.connected) ≡ true
    → file ≡ some content
    → start_checked w file run p ≡ run content
unfolding start_checked
start_checked-runs w file run content p state serial there = rw (state, serial, there) refl

-- What holds of a refusal and of what `run` does holds of a start.
pub start_checked_cases :
    (P : Proxy × Start → Type 0) (w : StartIo) (file : Option Text) (run : Text → Proxy × Start)
    (p : Proxy)
    → ((why : Refusal) → P (p, refused why))
    → ((content : Text) → may_start p.state ≡ true → P (run content))
    → P (start_checked w file run p)
unfolding start_checked
start_checked_cases P w file run p denied runs = by_state (may_start p.state) refl
  where
    by_file :
        (o : Option Text)
        → may_start p.state ≡ true
        → P (elim o [ none ↦ (p, refused no_file) | some content ↦ run content ])
    by_file none h = denied no_file
    by_file (some content) h = runs content h

    by_serial :
        (b : Bool)
        → may_start p.state ≡ true
        → P (
            if not b
            then (p, refused not_connected)
            else elim file [ none ↦ (p, refused no_file) | some content ↦ run content ])
    by_serial true h = by_file file h
    by_serial false h = denied not_connected

    by_state :
        (b : Bool)
        → may_start p.state ≡ b
        → P (
            if not b
            then (p, refused wrong_state)
            else if not (has_serial w.attached p && w.connected)
            then (p, refused not_connected)
            else elim file [ none ↦ (p, refused no_file) | some content ↦ run content ])
    by_state true h = by_serial (has_serial w.attached p && w.connected) h
    by_state false h = denied wrong_state

-- the stem found, which there always is
abbrev pub stem_or : Text → Option Text → Text
stem_or base none = base
stem_or base (some stem) = stem

-- the renaming, the metadata and the rotation
abbrev pub archive_upload : StartIo → Text → Text → ℕ → Dir → Dir
archive_upload w stem json max_history d =
    let renamed = rename (gcode_name uploaded) (gcode_name stem) d in
    if w.meta_ok then rotate_history max_history (save (meta_name stem) json renamed) else renamed

module _ (wide : ℕ → Bool) where
  -- the stem under which an upload is archived
  unfoldable pub upload_stem : Text → Option Text → Dir → Text
  unfolding safe_stem unique_stem
  upload_stem stamp none d = stamp
  upload_stem stamp (some name) d =
      if is_empty name
      then stamp
      else stem_or (safe_stem wide name) (unique_stem (safe_stem wide name) d)

  -- start_uploaded_job, with the text of the upload, past its checks
  unfoldable pub start_upload : Io → StartIo → Option Text → Text → Proxy → Proxy × Start
  unfolding upload_stem rename save rotate_history begin_execution
  start_upload io w name content p =
      let stem = upload_stem io.stamp name p.disk in
      let disk = archive_upload w stem io.json p.config.max_history p.disk in
      let meta = metadata upload stem name (length (text_lines false content)) io.now in
      if not w.read_ok
      then (p, refused cannot_read)
      else if not w.rename_ok
      then (p, refused cannot_archive)
      else (begin_execution io meta (record p { disk = disk }), started meta)

  -- start_uploaded_job
  unfoldable pub start_uploaded_job : Io → StartIo → Option Text → Proxy → Proxy × Start
  unfolding read start_checked start_upload
  start_uploaded_job io w name p =
      start_checked w (read (gcode_name uploaded) p.disk)
        (λ content. start_upload io w name content p) p

-- start_existing_job, with the text of the file, past its checks
unfoldable pub start_stored : Io → StartIo → Text → Text → Proxy → Proxy × Start
unfolding begin_execution
start_stored io w stem content p =
    let meta = metadata rerun stem w.stored_name (length (text_lines false content)) io.now in
    if w.read_ok then (begin_execution io meta p, started meta) else (p, refused cannot_read)

-- start_existing_job
unfoldable pub start_existing_job : Io → StartIo → Text → Proxy → Proxy × Start
unfolding read start_checked start_stored
start_existing_job io w stem p =
    start_checked w (read (gcode_name stem) p.disk) (λ content. start_stored io w stem content p) p
