-- ===== src/Hypr/Jobs/Tests.antt =====
-- Runs of the jobs of hypr/src/module.cpp, and their theorems at concrete inputs.
use koya_plugins.Base.{
  ℕ, ◌+◌, ◌*◌, ◌≤◌, ◌≡◌, true, Option, none, some, List, [], ◌∷◌, Bytes, codes, bytes_eq, length,
  tally, entries, arith, if◌then◌else◌,
}
use koya_plugins.Hypr.Types.{JobType, PendingPromise}
use koya_plugins.Hypr.Socket.{Received}
use koya_plugins.Hypr.Jobs.{Event, enqueues, finishes, updates, max_pending, steps, no_jobs}
use koya_plugins.Hypr.Jobs.Accounting.{
  made, called, freed, handed, returned, keeps, joined, same_id, result_ids,
}
use koya_plugins.Hypr.Jobs.Invariant.{Unwrapped}
use koya_plugins.Hypr.Jobs.Ledger.{jobs_settled_once, jobs_tracked, steps-Unwrapped}
use koya_plugins.Hypr.Jobs.Shutdown.{shutdown, jobs_released}
use koya_plugins.Hypr.Jobs.Run.{at_rest, one_job, answer, job_run}

-- A parser that knows one text.
abbrev parses_one : Bytes → Option ℕ
parses_one text = if bytes_eq text (codes "1") then some 1 else none

abbrev query : PendingPromise
query = record { resolve = 70; reject = 71; type = JobType.json }

abbrev two_jobs : List Event
two_jobs =
    enqueues query
    ∷ enqueues query
    ∷ finishes 2 none
    ∷ updates
    ∷ finishes 1 (some (record { ok = true; out = codes "1" }))
    ∷ []

two_jobs-Unwrapped : Unwrapped (steps parses_one no_jobs two_jobs)
two_jobs-Unwrapped = steps-Unwrapped parses_one two_jobs (omega arith)

jobs_settled_once_example :
    let s = steps parses_one no_jobs two_jobs in
    (tally (made 2) s.log ≤ 1)
    × (tally (called 2) s.log + entries 2 s.promises ≡ tally (made 2) s.log)
    × (tally (freed 2) s.log + 2 * entries 2 s.promises ≡ 2 * tally (made 2) s.log)
    × (tally (joined 2) s.log + entries 2 s.threads ≡ tally (made 2) s.log)
    × ((f : ℕ) → tally (returned f) s.log + tally (keeps f) s.promises ≡ tally (handed f) s.log)
jobs_settled_once_example = jobs_settled_once parses_one two_jobs 2 two_jobs-Unwrapped

jobs_tracked_example :
    let s = steps parses_one no_jobs two_jobs in
    (length s.promises ≤ max_pending)
    × ((a : ℕ)
        → entries a s.promises ≡ tally (same_id a) s.at_work + tally (result_ids a) s.results)
jobs_tracked_example = jobs_tracked parses_one two_jobs two_jobs-Unwrapped

abbrev good_reply : Option Received
good_reply = some (record { ok = true; out = codes "1" })

job_run_example :
    let a = answer parses_one query good_reply in
    (steps parses_one (at_rest 3 []) (enqueues query ∷ finishes 3 good_reply ∷ updates ∷ [])).log
    ≡ one_job 3 query [] a.0 a.1
job_run_example = job_run parses_one 3 [] query good_reply

jobs_released_example :
    let log = (shutdown (steps parses_one no_jobs two_jobs)).log in
    (tally (freed 1) log ≡ 2 * tally (made 1) log)
    × (tally (called 1) log ≤ 1)
    × (tally (joined 1) log ≡ tally (made 1) log)
    × ((f : ℕ) → tally (returned f) log ≡ tally (handed f) log)
jobs_released_example = jobs_released parses_one two_jobs 1 two_jobs-Unwrapped
