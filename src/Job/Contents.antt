-- ===== src/Job/Contents.antt =====
-- What a job buffer of job_buffer.py has on disk when it is finalized.
use grbl_proxy.Prelude.{
  ℕ, ◌+◌, ◌≡◌, refl, sym, ap, ◌∙◌, Bool, true, false, some, List, [], ◌∷◌, ◌++◌, arith, length,
  length-append, leb, append_assoc, append-nil, if◌then◌else◌,
}
use grbl_proxy.Text.{Text, codes, same, is_empty}
use grbl_proxy.Job.{
  JobBuffer, current, newline, flush_batch, new_buffer, open_buffer, join, append_data, flush,
  write_line, gcode_name, meta_name, archive, finalize,
}
use grbl_proxy.Text.Laws.{same_refl}
use grbl_proxy.Job.Files.{Dir, read, save, rename, read-save, read-rename}
use grbl_proxy.Job.History.{is_meta_name, has_suffix}
use grbl_proxy.Job.Rotation.{rotation_keeps_gcode}

-- Lines as a file holds them.
abbrev pub as_file : List Text → Text
as_file [] = []
as_file (l ∷ ls) = (l ++ newline) ++ as_file ls

join-snoc : (ss : List Text) (s : Text) → join (ss ++ s ∷ []) ≡ join ss ++ s
unfolding join
join-snoc [] s = append-nil s
join-snoc (t ∷ ss) s = ap (λ u. t ++ u) (join-snoc ss s) ∙ sym (append_assoc t (join ss) s)

as_file-snoc : (ls : List Text) (l : Text) → as_file (ls ++ l ∷ []) ≡ as_file ls ++ (l ++ newline)
as_file-snoc [] l = append-nil (l ++ newline)
as_file-snoc (k ∷ ls) l =
    ap (λ u. (k ++ newline) ++ u) (as_file-snoc ls l)
    ∙ sym (append_assoc (k ++ newline) (as_file ls) (l ++ newline))

-- The open file and the pending lines hold the lines `ls`, in order.
pub record Holds (ls : List Text) (b : JobBuffer) (d : Dir) : Type 0 where
  pub is_open : b.is_open ≡ true
  pub on_disk : Text
  pub file : read current d ≡ some on_disk
  pub all : on_disk ++ join b.pending ≡ as_file ls
  pub count : b.line_count ≡ length ls

read_current-append :
    (b : Bool) (s t : Text) (d : Dir)
    → b ≡ true
    → read current d ≡ some t
    → read current (append_data b s d) ≡ some (t ++ s)
unfolding append_data
read_current-append true s t d h e = rw (read-save current current _ d, e)
read_current-append false s t d h e = cc

nil_of_empty {ℓ} : {A : Type ℓ} (xs : List A) → is_empty xs ≡ true → xs ≡ []
nil_of_empty [] h = refl
nil_of_empty (x ∷ xs) h = cc

-- What flushing leaves: the same lines, none of them pending.
abbrev Flushed : List Text → JobBuffer × Dir → Type 0
Flushed ls (b, d) = Holds ls b d × (b.pending ≡ [])

flush-Flushed : (ls : List Text) (b : JobBuffer) (d : Dir) → Holds ls b d → Flushed ls (flush b d)
unfolding flush
flush-Flushed ls b d h =
    let written : JobBuffer × Dir =
      (record b { pending = [] }, append_data b.is_open (join b.pending) d) in
    (elim (is_empty b.pending)
        as (λ e. is_empty b.pending ≡ e → Flushed ls (if e then (b, d) else written)) [
          | true ↦ λ q. (h, nil_of_empty b.pending q)
          | false ↦ λ q. (
            record {
              is_open = h.is_open;
              on_disk = h.on_disk ++ join b.pending;
              file = read_current-append b.is_open (join b.pending) h.on_disk d h.is_open h.file;
              all = append-nil (h.on_disk ++ join b.pending) ∙ h.all;
              count = h.count;
            },
            refl,
          )
        ])
      refl

abbrev pub HoldsIn : List Text → JobBuffer × Dir → Type 0
HoldsIn ls (b, d) = Holds ls b d

-- Writing a line to a buffer that holds `ls` makes it hold `ls` and the line, whether or not the
-- write flushes.
pub write_line-Holds :
    (line : Text) (ls : List Text) (b : JobBuffer) (d : Dir)
    → Holds ls b d
    → HoldsIn (ls ++ line ∷ []) (write_line line b d)
unfolding write_line
write_line-Holds line ls b d h =
    let b' = record b {
      pending = b.pending ++ (line ++ newline) ∷ [];
      line_count = b.line_count + 1;
    } in
    let h' : Holds (ls ++ line ∷ []) b' d = record {
      is_open = h.is_open;
      on_disk = h.on_disk;
      file = h.file;
      all =
          ap (λ s. h.on_disk ++ s) (join-snoc b.pending (line ++ newline))
          ∙ sym (append_assoc h.on_disk (join b.pending) (line ++ newline))
          ∙ ap (λ s. s ++ (line ++ newline)) h.all
          ∙ sym (as_file-snoc ls line);
      count = omega (arith, h.count, length-append {0} ls (line ∷ []));
    } in
    elim (leb flush_batch (length b'.pending))
      as (λ e. HoldsIn (ls ++ line ∷ []) (if e then flush b' d else (b', d))) [
        | true ↦ (flush-Flushed (ls ++ line ∷ []) b' d h').0
        | false ↦ h'
      ]

-- An opened buffer holds no line.
pub open_buffer-Holds :
    (now max_history : ℕ) (d : Dir) → HoldsIn [] (open_buffer (new_buffer now max_history) d)
unfolding open_buffer new_buffer join
open_buffer-Holds now max_history d = record {
  is_open = refl;
  on_disk = [];
  file = read-save current current [] d;
  all = refl;
  count = refl;
}

-- A name that a job may be archived under: no other file of the buffer has it.
pub record IsStamp (stamp : Text) : Type 0 where
  pub not_current : same current (gcode_name stamp) ≡ false
  pub not_meta : is_meta_name (gcode_name stamp) ≡ false
  pub not_meta_gcode : has_suffix (codes ".meta.gcode") (gcode_name stamp) ≡ false
  pub own_meta : same (meta_name stamp) (gcode_name stamp) ≡ false

read-archive :
    (stamp json s : Text) (k : ℕ) (d : Dir)
    → IsStamp stamp
    → read current d ≡ some s
    → read (gcode_name stamp) (archive stamp json k d) ≡ some s
unfolding archive
read-archive stamp json s k d st h =
    let g = gcode_name stamp in
    let renamed = rename current g d in
    rotation_keeps_gcode k g (save (meta_name stamp) json renamed) st.not_meta st.not_meta_gcode
    ∙ rw (
      read-save (meta_name stamp) g json renamed,
      st.own_meta,
      read-rename current g g s d h,
      same_refl g,
    )

-- Finalizing a buffer that holds `ls` leaves a file under the job's name whose contents are those
-- lines, in order, each ended by a newline, and metadata that counts them; whatever the rotation of
-- the history deletes.
pub finalize_contents :
    (stamp json : Text) (now : ℕ) (ls : List Text) (b : JobBuffer) (d : Dir)
    → IsStamp stamp
    → Holds ls b d
    → (read (gcode_name stamp) (finalize stamp json now b d).2 ≡ some (as_file ls))
      × ((finalize stamp json now b d).0.line_count ≡ length ls)
unfolding finalize
finalize_contents stamp json now ls b d st h = by_flush (flush b d) (flush-Flushed ls b d h)
  where
    by_flush :
        (f : JobBuffer × Dir)
        → Flushed ls f
        → (read (gcode_name stamp) (archive stamp json f.0.max_history f.1) ≡ some (as_file ls))
          × (f.0.line_count ≡ length ls)
    by_flush (b', d') h' =
        let on_disk : h'.0.on_disk ≡ as_file ls =
          sym (append-nil h'.0.on_disk)
          ∙ ap (λ ss. h'.0.on_disk ++ join ss) (sym h'.1)
          ∙ h'.0.all in
        (
          read-archive stamp json (as_file ls) b'.max_history d' st (h'.0.file ∙ ap some on_disk),
          h'.0.count,
        )
