-- ===== src/Pipeline/Completes.antt =====
-- The parts joined: a job that a client sends, proxy_core.py hands over and streamer.py completes, with
-- a controller that answers in time.
use grbl_proxy.Prelude.{◌≡◌, true, List}
use grbl_proxy.Text.{Text}
use grbl_proxy.Streamer.{Streamer, StreamerResult}
use grbl_proxy.Streamer.Run.{RunEnd, done}
use grbl_proxy.Proxy.{Proxy}
use grbl_proxy.Pipeline.{HasSentAll}

-- A run has ended as completed, with these lines sent.
abbrev pub HasCompleted : List Text → RunEnd → Type 0
HasCompleted ls e =
    (r : StreamerResult) × (t : Streamer) × (e ≡ done r t)
    × (r.completed ≡ true)
    × HasSentAll ls r t
