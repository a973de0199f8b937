-- ===== src/Examples/Logging.antt =====
-- The console log of web/console_log.py on a concrete input.
use grbl_proxy.Prelude.{ℕ, ◌≡◌, min, List, [], ◌∷◌}
use grbl_proxy.Text.{codes, Text}
use grbl_proxy.Web.Console.{
  Direction, rx, tx, new_log, add_all, recent, last_of, entries, recent_of_all,
}

abbrev traffic : List (ℕ × Direction × Text)
traffic = (1, tx, codes "$$") ∷ (2, rx, codes "ok") ∷ (3, rx, codes " <Idle> ") ∷ []

recent_of_all_example :
    (recent 1 (add_all traffic (new_log 2)) ≡ last_of (min 1 2) (entries traffic))
    × (recent 0 (add_all traffic (new_log 2)) ≡ last_of 2 (entries traffic))
recent_of_all_example = recent_of_all 0 2 traffic
