-- ===== src/Web/Routes/Views.antt =====
-- What web/routes.py shows of the proxy: the state of the job, the console, the history, and the
-- status that WebSocketManager sends to every page. A page is a number.
use grbl_proxy.Prelude.{ℕ, Bool, Option, List, [], ◌∷◌, ◌==◌, if◌then◌else◌}
use grbl_proxy.Text.{Text}
use grbl_proxy.Job.Files.{Dir}
use grbl_proxy.Job.Listing.{load_job_history}
use grbl_proxy.Proxy.{ProxyState, Proxy, is_active}
use grbl_proxy.Web.Console.{ConsoleLog, Entry, recent}
use grbl_proxy.Web.Status.{StatusSnapshot, snapshot}

pub record JobStatus : Type 0 where
  pub proxy_state : ProxyState
  pub lines_sent : Option ℕ
  pub total_lines : Option ℕ
  pub progress_pct : Option ℕ
  pub elapsed_s : Option ℕ

abbrev job_status : StatusSnapshot → JobStatus
job_status snap = record {
  proxy_state = snap.proxy_state;
  lines_sent = snap.job_lines_sent;
  total_lines = snap.job_total_lines;
  progress_pct = snap.job_progress_pct;
  elapsed_s = snap.job_elapsed_s;
}

-- get_status
unfoldable pub get_status : ℕ → ℕ → Bool → Proxy → StatusSnapshot
unfolding snapshot
get_status now timestamp connected p = snapshot now timestamp connected p

-- get_job
unfoldable pub get_job : ℕ → ℕ → Bool → Proxy → JobStatus
unfolding snapshot
get_job now timestamp connected p = job_status (snapshot now timestamp connected p)

-- get_console
unfoldable pub get_console : ℕ → ConsoleLog → List Entry
unfolding recent
get_console n log = recent n log

-- get_jobs, with what json.loads makes of a text
unfoldable pub get_jobs {ℓ} : {A : Type ℓ} → (Text → Option A) → ℕ → Dir → List A
unfolding load_job_history
get_jobs parse max_history d = load_job_history parse max_history d

-- _connections.discard
unfoldable pub discard_page : ℕ → List ℕ → List ℕ
discard_page ws [] = []
discard_page ws (c ∷ cs) = let rest = discard_page ws cs in if c == ws then rest else c ∷ rest

-- connect, up to the wait: a set holds a page once
unfoldable pub connect_page : ℕ → List ℕ → List ℕ
unfolding discard_page
connect_page ws cs = ws ∷ discard_page ws cs

-- one round of sending: the pages that take the status stay
unfoldable pub send_all_pages : (ℕ → Bool) → List ℕ → List ℕ
send_all_pages takes [] = []
send_all_pages takes (c ∷ cs) =
    let rest = send_all_pages takes cs in if takes c then c ∷ rest else rest

-- the pause between two rounds, in microseconds
abbrev pub interval : ProxyState → ℕ
interval s = if is_active s then 250_000 else 1_000_000

-- one round of broadcast_loop: what is sent, the pages that are left, and the pause
unfoldable pub broadcast_round :
    ℕ → ℕ → Bool → (ℕ → Bool) → Proxy → List ℕ → StatusSnapshot × List ℕ × ℕ
unfolding snapshot send_all_pages
broadcast_round now timestamp connected takes p cs =
    (snapshot now timestamp connected p, send_all_pages takes cs, interval p.state)
