-- ===== src/Hypr/Jobs/Shutdown.antt =====
-- hypr_shutdown of hypr/src/module.cpp, where it concerns the commands under way.
use koya_plugins.Base.{
  ℕ, ◌+◌, ◌*◌, ◌≤◌, ◌≡◌, refl, Option, List, [], ◌∷◌, ◌++◌, arith, Bytes, Table, entries, tally,
  tally-append,
}
use koya_plugins.Hypr.Types.{PendingPromise}
use koya_plugins.Hypr.Jobs.{Jobs, Effect, join, free_value, Event, steps, no_jobs}
use koya_plugins.Hypr.Jobs.Accounting.{made, joined, called, freed, handed, returned, keeps}
use koya_plugins.Hypr.Jobs.Invariant.{Unwrapped}
use koya_plugins.Hypr.Jobs.Ledger.{jobs_settled_once}

join_all : Table (Unit {0}) → List Effect
join_all [] = []
join_all ((id, thread) ∷ threads) = join id ∷ join_all threads

free_promises : Table PendingPromise → List Effect
free_promises [] = []
free_promises ((id, p) ∷ promises) =
    free_value id p.resolve ∷ free_value id p.reject ∷ free_promises promises

-- A worker that is joined here pushes its result before it ends or, if it sees that the plugin is
-- stopping, not at all; no result outlives the shutdown.
pub shutdown : Jobs → Jobs
unfolding join_all free_promises
shutdown s = record s {
  promises = [];
  threads = [];
  at_work = [];
  results = [];
  log = s.log ++ (join_all s.threads ++ free_promises s.promises);
}

join_all-joined : (a : ℕ) (t : Table (Unit {0})) → tally (joined a) (join_all t) ≡ entries a t
unfolding join_all
join_all-joined a [] = refl
join_all-joined a ((id, thread) ∷ t) = omega (arith, join_all-joined a t)

join_all_quiet :
    (w : Effect → ℕ)
    → ((id : ℕ) → w (join id) ≡ 0)
    → (t : Table (Unit {0})) → tally w (join_all t) ≡ 0
unfolding join_all
join_all_quiet w h [] = refl
join_all_quiet w h ((id, thread) ∷ t) = omega (arith, h id, join_all_quiet w h t)

free_promises-freed :
    (a : ℕ) (t : Table PendingPromise) → tally (freed a) (free_promises t) ≡ 2 * entries a t
unfolding free_promises
free_promises-freed a [] = refl
free_promises-freed a ((id, p) ∷ t) = omega (arith, free_promises-freed a t)

free_promises-returned :
    (f : ℕ) (t : Table PendingPromise) → tally (returned f) (free_promises t) ≡ tally (keeps f) t
unfolding free_promises
free_promises-returned f [] = refl
free_promises-returned f ((id, p) ∷ t) = omega (arith, free_promises-returned f t)

free_promises_quiet :
    (w : Effect → ℕ)
    → ((id f : ℕ) → w (free_value id f) ≡ 0)
    → (t : Table PendingPromise) → tally w (free_promises t) ≡ 0
unfolding free_promises
free_promises_quiet w h [] = refl
free_promises_quiet w h ((id, p) ∷ t) =
    omega (arith, h id p.resolve, h id p.reject, free_promises_quiet w h t)

shutdown-tally :
    (w : Effect → ℕ) (s : Jobs)
    → tally w (shutdown s).log
      ≡ tally w s.log + tally w (join_all s.threads) + tally w (free_promises s.promises)
unfolding shutdown
shutdown-tally w s = omega (
  arith,
  tally-append w s.log (join_all s.threads ++ free_promises s.promises),
  tally-append w (join_all s.threads) (free_promises s.promises),
)

-- Whatever commands were sent and whatever became of them, and before the numbers of jobs wrap around:
-- after the shutdown, two frees were made for every promise and at most one of its functions was called;
-- each function value was freed exactly as often as it was handed over as a resolving or a rejecting
-- function; and the thread of every job was joined exactly once.
pub jobs_released :
    (parse : Bytes → Option ℕ) (events : List Event) (a : ℕ)
    → Unwrapped (steps parse no_jobs events)
    → let log = (shutdown (steps parse no_jobs events)).log in
      (tally (freed a) log ≡ 2 * tally (made a) log)
      × (tally (called a) log ≤ 1)
      × (tally (joined a) log ≡ tally (made a) log)
      × ((f : ℕ) → tally (returned f) log ≡ tally (handed f) log)
jobs_released parse events a u =
    let (once, answered, owned, threaded, balanced) = jobs_settled_once parse events a u in
    (
      omega (
        arith,
        owned,
        same_made,
        shutdown-tally (freed a) s,
        join_all_quiet (freed a) (λ id. refl) s.threads,
        free_promises-freed a s.promises,
      ),
      omega (
        arith,
        once,
        answered,
        shutdown-tally (called a) s,
        join_all_quiet (called a) (λ id. refl) s.threads,
        free_promises_quiet (called a) (λ id f. refl) s.promises,
      ),
      omega (
        arith,
        threaded,
        same_made,
        shutdown-tally (joined a) s,
        join_all-joined a s.threads,
        free_promises_quiet (joined a) (λ id f. refl) s.promises,
      ),
      λ f. omega (
        arith,
        balanced f,
        shutdown-tally (handed f) s,
        shutdown-tally (returned f) s,
        join_all_quiet (handed f) (λ id. refl) s.threads,
        join_all_quiet (returned f) (λ id. refl) s.threads,
        free_promises_quiet (handed f) (λ id g. refl) s.promises,
        free_promises-returned f s.promises,
      ),
    )
  where
    s : Jobs
    s = steps parse no_jobs events

    same_made : tally (made a) (shutdown s).log ≡ tally (made a) s.log
    same_made = omega (
      arith,
      shutdown-tally (made a) s,
      join_all_quiet (made a) (λ id. refl) s.threads,
      free_promises_quiet (made a) (λ id f. refl) s.promises,
    )
