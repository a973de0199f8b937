-- ===== src/Examples/Listing.antt =====
-- The job history of job_buffer.py on a concrete directory.
use grbl_proxy.Prelude.{◌≡◌, refl, some, [], ◌∷◌}
use grbl_proxy.Text.{codes}
use grbl_proxy.Job.Files.{Dir}
use grbl_proxy.Job.Listing.{load_job_history}

abbrev two_jobs : Dir
two_jobs =
    (codes "a.meta.json", codes "{}")
    ∷ (codes "b.meta.json", codes "[]")
    ∷ (codes "b.gcode", [])
    ∷ []

history_test : load_job_history some 1 two_jobs ≡ codes "[]" ∷ []
unfolding load_job_history
history_test = refl
