-- ===== src/Job/Listing.antt =====
-- load_job_history of job_buffer.py. `parse` is what json.loads makes of the text of a file.
use grbl_proxy.Prelude.{
  ℕ, zero, suc, ◌+◌, ◌≡◌, refl, ap, Bool, true, false, Option, none, some, List, [], ◌∷◌, leb, take,
  reverse, arith, if◌then◌else◌,
}
use grbl_proxy.Text.{Text}
use grbl_proxy.Job.Files.{Dir, read}
use grbl_proxy.Job.History.{meta_files}

module _ {ℓ} {A : Type ℓ} (parse : Text → Option A) where
  -- the text of a file that is there, parsed
  abbrev pub parse_text : Option Text → Option A
  parse_text none = none
  parse_text (some text) = parse text

  -- the loop, with `n` results found before
  unfoldable pub collect : ℕ → ℕ → List Text → Dir → List A
  unfolding read
  collect max_history n [] d = []
  collect max_history n (f ∷ fs) d =
      let skipped = collect max_history n fs d in
      let kept = collect max_history (n + 1) fs d in
      elim (parse_text (read f d)) [
        | none ↦ if leb max_history n then [] else skipped
        | some data_read ↦ data_read ∷ (if leb max_history (n + 1) then [] else kept)
      ]

  -- load_job_history
  unfoldable pub load_job_history : ℕ → Dir → List A
  unfolding collect meta_files
  load_job_history max_history d = collect max_history 0 (reverse (meta_files d)) d

  -- All that can be parsed, in order.
  abbrev pub parsed : List Text → Dir → List A
  parsed [] d = []
  parsed (f ∷ fs) d =
      let rest = parsed fs d in
      elim (parse_text (read f d)) [ none ↦ rest | some data_read ↦ data_read ∷ rest ]

  if_room : (b : Bool) (x y : List A) → b ≡ false → x ≡ y → (if b then [] else x) ≡ y
  if_room b x y h e = rw (h, e) refl

  -- what follows a result, with room for `k` more
  after_one :
      (k n max_history : ℕ) (fs : List Text) (d : Dir)
      → n + suc k ≡ max_history
      → ((j : ℕ)
          → n + 1 + suc j ≡ max_history
          → collect max_history (n + 1) fs d ≡ take (suc j) (parsed fs d))
      → (if leb max_history (n + 1) then [] else collect max_history (n + 1) fs d)
        ≡ take k (parsed fs d)
  after_one zero n max_history fs d h rest =
      let full : leb max_history (n + 1) ≡ true = ground (arith, h) in rw full refl
  after_one (suc j) n max_history fs d h rest =
      if_room (leb max_history (n + 1)) _ _ (ground (arith, h)) (rest j (omega (arith, h)))

  -- with room for `k` results more, and one at least
  collect-take :
      (k n max_history : ℕ) (fs : List Text) (d : Dir)
      → n + suc k ≡ max_history
      → collect max_history n fs d ≡ take (suc k) (parsed fs d)
  unfolding collect
  collect-take k n max_history [] d h = refl
  collect-take k n max_history (f ∷ fs) d h =
      elim (parse_text (read f d))
        as (λ o.
          (elim o [
            | none ↦ if leb max_history n then [] else collect max_history n fs d
            | some data_read ↦
                data_read
                ∷ (if leb max_history (n + 1) then [] else collect max_history (n + 1) fs d)
          ])
          ≡ take (suc k)
              (elim o [ none ↦ parsed fs d | some data_read ↦ data_read ∷ parsed fs d ])) [
                | none ↦
                    if_room (leb max_history n) _ _ (ground (arith, h))
                      (collect-take k n max_history fs d h)
                | some data_read ↦
                    ap (λ ds. data_read ∷ ds)
                      (after_one k n max_history fs d h
                        (λ j e. collect-take j (n + 1) max_history fs d e))
              ]

  -- The history is a list of what can be read, capped: for a cap of one or more, load_job_history
  -- returns the first of the metadata that can be parsed, as many as the cap allows, the names taken
  -- in the reverse of their order.
  pub history_is_capped :
      (k : ℕ) (d : Dir)
      → load_job_history (suc k) d ≡ take (suc k) (parsed (reverse (meta_files d)) d)
  unfolding load_job_history
  history_is_capped k d = collect-take k 0 (suc k) (reverse (meta_files d)) d (omega arith)
