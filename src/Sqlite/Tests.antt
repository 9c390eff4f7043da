-- ===== src/Sqlite/Tests.antt =====
-- Runs of the model of sqlite/src/module.cpp, and its theorems at concrete inputs.
use koya_plugins.Base.{
  true, false, ◌+◌, ◌≡◌, refl, none, some, List, [], ◌∷◌, codes, arith, tally, find,
}
use koya_plugins.Sqlite.Types.{exec, query}
use koya_plugins.Sqlite.Handles.{
  Handles, Call, opens, closes, succeeds, fails, run_calls, close_databases, no_handles,
}
use koya_plugins.Sqlite.Handles.Ledger.{openings, closings, losses, holding, databases_closed_once}
use koya_plugins.Sqlite.Worker.{
  Answer, waiting, Request, Event, submits, takes, looks_up, updates, steps, step_at, submit,
  take_job, look_up, post, update, shutdown, initial,
}
use koya_plugins.Sqlite.Worker.Fifo.{Fifo, submitted, jobs_in_order}
use koya_plugins.Sqlite.Worker.Delivery.{freed, owns, functions_freed}

abbrev four_calls : List Call
four_calls =
    opens (succeeds 40)
    ∷ opens (fails (record { db = some 41; rc = 14; message = [] }))
    ∷ closes 1 false
    ∷ opens (succeeds 42)
    ∷ closes 3 true
    ∷ []

databases_closed_once_example :
    let h = run_calls no_handles four_calls in
    (tally (openings 42) h.log
      ≡ tally (closings 42) h.log + tally (losses 42) h.log + holding 42 h.databases)
    × (tally (openings 42) (close_databases h).log
        ≡ tally (closings 42) (close_databases h).log + tally (losses 42) (close_databases h).log)
databases_closed_once_example = databases_closed_once four_calls 42 (omega arith)

abbrev insert : Request
insert = record { type = exec; id64 = 1; sql = codes "insert"; resolve = 70; reject = 71 }

abbrev select : Request
select = record { type = query; id64 = 1; sql = codes "select"; resolve = 80; reject = 81 }

abbrev no_answer : Answer
no_answer = record {
  exec_rc = 5;
  exec_message = none;
  prepare_rc = 0;
  prepare_message = [];
  rows = [];
  last_rc = 101;
  last_message = [];
}

-- No database is open: the first job fails, the second is still queued.
abbrev two_jobs : List Event
two_jobs = submits insert ∷ submits select ∷ takes ∷ looks_up ∷ updates ∷ []

jobs_in_order_example : Fifo (steps initial two_jobs) (submitted two_jobs)
jobs_in_order_example = jobs_in_order two_jobs

two_jobs-waiting : (steps initial two_jobs).worker ≡ waiting
unfolding steps step_at submit take_job look_up post update find
two_jobs-waiting = refl

functions_freed_example :
    tally (freed 81) (shutdown (steps initial two_jobs)).log ≡ tally (owns 81) (submitted two_jobs)
functions_freed_example = functions_freed two_jobs 81 two_jobs-waiting

abbrev one_open : Handles
one_open = record { databases = (1, 40) ∷ []; next_database_id = 2; log = [] }
