-- ===== src/Job.antt =====
-- job_buffer.py: the buffered job and the files of the storage directory. A directory is a list of
-- named contents; disk operations on it succeed, but for the one that opens the buffer, whose
-- failure its caller is told of.
pub mod Files
pub mod History
pub mod Rotation
pub mod Contents
pub mod Listing
use grbl_proxy.Prelude.{
  ℕ, zero, suc, ◌+◌, ◌-◌, Bool, true, false, not, Option, none, some, List, [], ◌∷◌, ◌++◌, leb,
  length, if◌then◌else◌,
}
use grbl_proxy.Text.{Text, codes, is_empty}
use grbl_proxy.Job.Files.{Dir, read, save, remove, rename}
use grbl_proxy.Job.History.{rotate_history}

abbrev pub flush_batch : ℕ
flush_batch = 50

pub data Source : Type 0 where
  lightburn upload rerun : Source

pub record JobMetadata : Type 0 where
  pub path : Text
  pub line_count : ℕ
  pub start_time : ℕ
  pub end_time : ℕ
  pub source : Source
  pub original_filename : Option Text

-- `is_open` says whether `_file` is open on current.gcode.
pub record JobBuffer : Type 0 where
  pub start_time : ℕ
  pub source : Source
  pub original_filename : Option Text
  pub max_history : ℕ
  pub line_count : ℕ
  pub pending : List Text
  pub is_open : Bool
  pub finalized : Bool
  pub discarded : Bool

abbrev pub current : Text
current = codes "current.gcode"

abbrev pub newline : Text
newline = 10 ∷ []

-- __init__, as ProxyCore calls it
unfoldable pub new_buffer : ℕ → ℕ → JobBuffer
new_buffer now max_history = record {
  start_time = now;
  source = lightburn;
  original_filename = none;
  max_history = max_history;
  line_count = 0;
  pending = [];
  is_open = false;
  finalized = false;
  discarded = false;
}

-- open(): mode "w" truncates the file
unfoldable pub open_buffer : JobBuffer → Dir → JobBuffer × Dir
unfolding save
open_buffer b d = (record b { is_open = true }, save current [] d)

-- "".join
unfoldable pub join : List Text → Text
join [] = []
join (s ∷ ss) = s ++ join ss

abbrev or_empty : Option Text → Text
or_empty none = []
or_empty (some s) = s

-- _flush_sync
unfoldable pub append_data : Bool → Text → Dir → Dir
unfolding save read
append_data true s d = save current (or_empty (read current d) ++ s) d
append_data false s d = d

-- _flush
unfoldable pub flush : JobBuffer → Dir → JobBuffer × Dir
unfolding append_data join
flush b d =
    if is_empty b.pending
    then (b, d)
    else (record b { pending = [] }, append_data b.is_open (join b.pending) d)

-- write_line
unfoldable pub write_line : Text → JobBuffer → Dir → JobBuffer × Dir
unfolding flush
write_line line b d =
    let b' = record b {
      pending = b.pending ++ (line ++ newline) ∷ [];
      line_count = b.line_count + 1;
    } in
    if leb flush_batch (length b'.pending) then flush b' d else (b', d)

-- discard
unfoldable pub discard : JobBuffer → Dir → JobBuffer × Dir
unfolding remove
discard b d = (
  record b { discarded = true; is_open = false },
  remove (codes "current.meta.json") (remove current d),
)

abbrev pub gcode_name : Text → Text
gcode_name stem = stem ++ codes ".gcode"

abbrev pub meta_name : Text → Text
meta_name stem = stem ++ codes ".meta.json"

abbrev pub metadata : Text → ℕ → JobBuffer → JobMetadata
metadata stamp now b = record {
  path = gcode_name stamp;
  line_count = b.line_count;
  start_time = b.start_time;
  end_time = now;
  source = b.source;
  original_filename = b.original_filename;
}

-- _finalize_sync; `json` is the text of the metadata
unfoldable pub archive : Text → Text → ℕ → Dir → Dir
unfolding rename save rotate_history
archive stamp json max_history d =
    rotate_history max_history (save (meta_name stamp) json (rename current (gcode_name stamp) d))

-- finalize, with the timestamp that strftime writes
unfoldable pub finalize : Text → Text → ℕ → JobBuffer → Dir → JobMetadata × JobBuffer × Dir
unfolding flush archive
finalize stamp json now b d =
    let (b', d') = flush b d in
    (
      metadata stamp now b',
      record b' { is_open = false; finalized = true },
      archive stamp json b'.max_history d',
    )
