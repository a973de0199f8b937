-- ===== src/Proxy/Detector.antt =====
-- _HeuristicDetector of proxy_core.py: a window of lines with their times in microseconds. The
-- ratio of the configuration is a number of thousandths.
use grbl_proxy.Prelude.{
  ℕ, ◌+◌, ◌*◌, Bool, false, List, [], ◌∷◌, ◌++◌, ltb, leb, length, if◌then◌else◌,
}
use grbl_proxy.Text.{Text}
use grbl_proxy.Protocol.{is_motion_command}

pub record AutoDetect : Type 0 where
  pub line_burst : ℕ
  pub window_ms : ℕ
  pub motion_ratio : ℕ

abbrev pub Window : Type 0
Window = List (ℕ × Bool)

-- the `popleft` loop: entries older than the window go, up to the first that is not
unfoldable pub expire : ℕ → ℕ → Window → Window
expire now span [] = []
expire now span ((t, m) ∷ w) =
    let rest = expire now span w in if ltb (t + span) now then rest else (t, m) ∷ w

unfoldable pub motion_count : Window → ℕ
motion_count [] = 0
motion_count ((t, m) ∷ w) = (if m then 1 else 0) + motion_count w

-- feed
unfoldable pub feed : AutoDetect → Text → ℕ → Window → Window × Bool
unfolding expire motion_count is_motion_command
feed cfg line now w =
    let w' = expire now (cfg.window_ms * 1000) w ++ (now, is_motion_command line) ∷ [] in
    if ltb (length w') cfg.line_burst
    then (w', false)
    else (w', leb (cfg.motion_ratio * length w') (motion_count w' * 1000))
