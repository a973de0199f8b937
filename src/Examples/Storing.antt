-- ===== src/Examples/Storing.antt =====
-- The files of job_buffer.py.
use grbl_proxy.Prelude.{◌≡◌, refl, some, [], ◌∷◌}
use grbl_proxy.Text.{codes}
use grbl_proxy.Job.{JobBuffer, new_buffer, open_buffer, write_line, finalize, gcode_name}
use grbl_proxy.Job.Files.{Dir, read}
use grbl_proxy.Job.History.{rotate_history}
use grbl_proxy.Job.Rotation.{rotation_keeps_gcode}
use grbl_proxy.Job.Contents.{open_buffer-Holds, write_line-Holds, finalize_contents}

-- Rotating to one job: the metadata of the older job goes, and its G-code stays.
abbrev two_jobs : Dir
two_jobs =
    (codes "2.meta.json", [])
    ∷ (codes "1.gcode", codes "M2")
    ∷ (codes "1.meta.json", [])
    ∷ (codes "2.gcode", codes "M2")
    ∷ []

older_gcode_stays :
    rotate_history 1 two_jobs
    ≡ (codes "2.meta.json", []) ∷ (codes "1.gcode", codes "M2") ∷ (codes "2.gcode", codes "M2") ∷ []
unfolding rotate_history
older_gcode_stays = refl

abbrev opened : JobBuffer × Dir
opened = open_buffer (new_buffer 1_000 20) []

rotation_keeps_gcode_example :
    read (codes "1.gcode") (rotate_history 1 two_jobs) ≡ some (codes "M2")
unfolding rotate_history read
rotation_keeps_gcode_example = rotation_keeps_gcode 1 (codes "1.gcode") two_jobs refl refl

abbrev written : JobBuffer × Dir
written = write_line (codes "G0 X1") opened.0 opened.1

finalize_contents_example :
    (read
        (gcode_name (codes "20250101_120000"))
        (finalize (codes "20250101_120000") (codes "{}") 2_000 written.0 written.1).2
      ≡ some (codes "G0 X1\n"))
    × ((finalize (codes "20250101_120000") (codes "{}") 2_000 written.0 written.1).0.line_count ≡ 1)
unfolding finalize
finalize_contents_example =
    finalize_contents (codes "20250101_120000") (codes "{}") 2_000 (codes "G0 X1" ∷ []) written.0
      written.1
      (record { not_current = refl; not_meta = refl; not_meta_gcode = refl; own_meta = refl })
      (write_line-Holds (codes "G0 X1") [] opened.0 opened.1 (open_buffer-Holds 1_000 20 []))
