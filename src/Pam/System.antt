-- ===== src/Pam/System.antt =====
-- The script thread and the worker thread of pam/src/module.cpp together. Each step runs between
-- two points where the code takes or gives up a mutex or the script thread returns to the engine;
-- any order of steps that the code's waits allow is a run.
pub mod Accounting
pub mod Invariant
pub mod Steps
pub mod WorkerSteps
pub mod Reachable
pub mod Safety
pub mod Liveness
pub mod EndToEnd
use koya_plugins.Base.{
  ℕ, ◌≡◌, Bool, true, false, ◌&&◌, not, Option, none, some, List, [], ◌∷◌, ◌++◌, Bytes, is_empty,
  if◌then◌else◌,
}
use koya_plugins.Pam.Types.{AuthRequest, AuthResult, PendingPromise, PamState, PamLib}
use koya_plugins.Pam.Conversation.{erase_password}
use koya_plugins.Pam.Worker.{perform}
use koya_plugins.Pam.Script.{
  Options, Effect, copy_password, moved, wipe, new_promise, call, free_value, Reply,
  js_authenticate, pam_update, stop_worker, release_all,
}

-- At the wait of worker_loop, between taking a request and pushing its result, or past the loop.
pub data Worker : Type 0 where
  waiting exited : Worker
  busy : AuthRequest → Worker

-- The script thread serves the engine, is in the join of pam_shutdown, or is past it.
pub data Phase : Type 0 where
  serving joining stopped : Phase

pub record World : Type 0 where
  pub state : PamState
  pub worker : Worker
  pub phase : Phase
  pub log : List Effect

pub data Event : Type 0 where
  authenticates : PendingPromise → Option Options → Event
  updates takes finishes leaves begins_shutdown ends_shutdown : Event

-- helix_plugin_integrate: the worker is started and the context is set.
abbrev pub initial : World
initial = record {
  state = record {
    next_id = 1;
    requests = [];
    results = [];
    promises = [];
    running = true;
    context = true;
  };
  worker = Worker.waiting;
  phase = Phase.serving;
  log = [];
}

pub authenticate : World → PendingPromise → Option Options → World
authenticate w p o =
    let r = js_authenticate w.state p o in record w { state = r.0; log = w.log ++ r.1 }

pub update : World → World
update w = let r = pam_update w.state in record w { state = r.0; log = w.log ++ r.1 }

-- The worker wakes up with the mutex held: it leaves the loop, or takes the oldest request.
pub take : World → List AuthRequest → Option World
take w [] = none
take w (r ∷ requests) =
    if w.state.running
    then some (record w {
      state = record (w.state) { requests = requests };
      worker = busy r;
      log = w.log ++ moved r.password ∷ [];
    })
    else none

-- The conversation with PAM, the erasure of the request's password, and the push of the result.
pub finish : PamLib → World → AuthRequest → World
finish lib w r = record w {
  state = record (w.state) { results = w.state.results ++ perform lib r ∷ [] };
  worker = waiting;
  log = w.log ++ wipe r.password (erase_password r.password).0 ∷ [];
}

pub end_shutdown : World → World
end_shutdown w =
    let r = release_all w.state in record w { state = r.0; phase = stopped; log = w.log ++ r.1 }

-- `none` where the step cannot be taken.
pub step : PamLib → World → Worker → Phase → Event → Option World
unfolding authenticate update take finish end_shutdown
step lib w worker serving (authenticates p o) = some (authenticate w p o)
step lib w worker serving updates = some (update w)
step lib w worker serving begins_shutdown =
    some (record w { state = stop_worker w.state; phase = joining })
step lib w waiting phase takes = take w w.state.requests
step lib w waiting phase leaves =
    if w.state.running then none else some (record w { worker = exited })
step lib w (busy r) phase finishes = some (finish lib w r)
step lib w exited joining ends_shutdown = some (end_shutdown w)
step lib w worker phase event = none

unfoldable pub advance : PamLib → World → Event → Option World
unfolding step
advance lib w e = step lib w w.worker w.phase e

unfoldable pub run : PamLib → World → List Event → Option World
run lib w [] = some w
run lib w (e ∷ events) = elim (advance lib w e) [ none ↦ none | some w' ↦ run lib w' events ]

pub data Reach (lib : PamLib) : World → Type 0 where
  start : Reach lib initial
  next : {w w' : World} (e : Event) → Reach lib w → advance lib w e ≡ some w' → Reach lib w'
