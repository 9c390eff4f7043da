-- ===== src/Process/Shutdown/Release.antt =====
-- What the shutdown of process/src/module.cpp leaves behind.
use koya_plugins.Base.{
  ℕ, Bool, ◌+◌, ◌≤◌, ◌≡◌, refl, some, List, [], ◌∷◌, ◌++◌, arith, Table, tally, tally-append,
}
use koya_plugins.Process.Types.{
  ChildProcess, ListenerLists, ExecRequest, Effect, ProcessState, initial,
}
use koya_plugins.Process.Update.{free_lists, close_all_fds}
use koya_plugins.Process.Shutdown.{
  Answers, free_requests, free_listeners, terminate_all, close_processes, shutdown_effects,
  shutdown,
}
use koya_plugins.Process.Shutdown.Reaping.{Advances, reap_all-Reaps}
use koya_plugins.Process.System.{Event, steps}
use koya_plugins.Process.System.Accounting.{
  Still, free_lists-Still, started, reaped, settled, opened_fd, closed_fd,
}
use koya_plugins.Process.System.Rounds.{fds}
use koya_plugins.Process.System.Burials.{close_all_fds-closed, close_all_fds_silent}
use koya_plugins.Process.System.Safety.{Few, children_reaped_once, exec_settled_once}
use koya_plugins.Process.System.Balance.{leaks}
use koya_plugins.Process.System.Descriptors.{descriptors_balanced}

module _ (w : Effect → ℕ) (mute : Still w) where
  free_requests-Still : (t : Table ExecRequest) → tally w (free_requests t) ≡ 0
  unfolding free_requests
  free_requests-Still [] = refl
  free_requests-Still ((id, r) ∷ t) =
      omega (arith, mute.on_free r.resolve, mute.on_free r.reject, free_requests-Still t)

  free_listeners-Still : (t : Table ListenerLists) → tally w (free_listeners t) ≡ 0
  unfolding free_listeners
  free_listeners-Still [] = refl
  free_listeners-Still ((id, l) ∷ t) = omega (
    arith,
    tally-append w (free_lists l) (free_listeners t),
    free_lists-Still w mute l,
    free_listeners-Still t,
  )

  terminate_all_silent :
      ((pid signal : ℕ) → w (Effect.kills pid signal) ≡ 0)
      → (t : Table ChildProcess) → tally w (terminate_all t) ≡ 0
  unfolding terminate_all
  terminate_all_silent h [] = refl
  terminate_all_silent h ((id, p) ∷ t) = omega (arith, h p.pid 15, terminate_all_silent h t)

  shutdown_effects-tally :
      (s : ProcessState)
      → ((pid signal : ℕ) → w (Effect.kills pid signal) ≡ 0)
      → tally w (shutdown_effects s) ≡ tally w (close_processes s.processes)
  unfolding shutdown_effects
  shutdown_effects-tally s h = omega (
    arith,
    tally-append w (free_requests s.exec_requests)
        (free_listeners s.listeners ++ (terminate_all s.processes ++ close_processes s.processes)),
    tally-append w (free_listeners s.listeners)
        (terminate_all s.processes ++ close_processes s.processes),
    tally-append w (terminate_all s.processes) (close_processes s.processes),
    free_requests-Still s.exec_requests,
    free_listeners-Still s.listeners,
    terminate_all_silent h s.processes,
  )

close_processes-closed :
    (d : ℕ) (t : Table ChildProcess) → tally (closed_fd d) (close_processes t) ≡ tally (fds d) t
unfolding close_processes
close_processes-closed d [] = refl
close_processes-closed d ((id, p) ∷ t) = omega (
  arith,
  tally-append (closed_fd d) (close_all_fds p) (close_processes t),
  close_all_fds-closed d id p,
  close_processes-closed d t,
)

close_processes_silent :
    (w : Effect → ℕ)
    → ((fd : ℕ) → w (Effect.closes fd) ≡ 0)
    → (t : Table ChildProcess) → tally w (close_processes t) ≡ 0
unfolding close_processes
close_processes_silent w h [] = refl
close_processes_silent w h ((id, p) ∷ t) = omega (
  arith,
  tally-append w (close_all_fds p) (close_processes t),
  close_all_fds_silent w h p,
  close_processes_silent w h t,
)

shutdown_silent :
    (s : ProcessState) (w : Effect → ℕ)
    → Still w
    → ((fd : ℕ) → w (Effect.closes fd) ≡ 0)
    → ((pid signal : ℕ) → w (Effect.kills pid signal) ≡ 0)
    → tally w (shutdown_effects s) ≡ 0
shutdown_silent s w mute h k =
    omega (arith, shutdown_effects-tally w mute s k, close_processes_silent w h s.processes)

-- Whatever the script called and the kernel answered, while fewer than 2^32 - 1 children are asked for,
-- and if each round of waiting takes ten milliseconds or more: the shutdown comes to an end; then every
-- child that was ever started was reaped exactly once, at most one settlement was made for a number,
-- and every descriptor was closed as often as it was opened, but for those of calls that failed.
pub shutdown_releases_children :
    (events : List Event) (answers : ℕ → Answers) (a d : ℕ)
    → Few events
    → ((id : ℕ) → Advances (answers id))
    → (s : ProcessState) × (shutdown answers (steps initial events) ≡ some s)
      × (tally (reaped a) s.log ≡ tally (started a) s.log)
      × (tally (settled a) s.log ≤ 1)
      × (tally (opened_fd d) s.log ≡ tally (closed_fd d) s.log + tally (leaks d) events)
unfolding shutdown
shutdown_releases_children events answers a d few advances =
    let (es, found, reaps_all) = reap_all-Reaps answers b.processes advances in
    let (once, alive, told) = children_reaped_once events a few in
    let (promised_once, pending, waiting, done) = exec_settled_once events a few in
    (
      record b {
        processes = [];
        context = Bool.false;
        listeners = [];
        exec_requests = [];
        log = b.log ++ (shutdown_effects b ++ es);
      },
      rw (found, shutdown) refl,
      omega (
        arith,
        alive,
        logs (reaped a) es,
        logs (started a) es,
        reaps_all.each a,
        reaps_all.silent (started a) (λ id. refl) (λ pid n. refl),
        shutdown_silent b (reaped a)
            (record { on_call = λ f e. refl; on_duplicate = λ f. refl; on_free = λ f. refl })
            (λ fd. refl) (λ pid n. refl),
        shutdown_silent b (started a)
            (record { on_call = λ f e. refl; on_duplicate = λ f. refl; on_free = λ f. refl })
            (λ fd. refl) (λ pid n. refl),
      ),
      omega (
        arith,
        promised_once,
        pending,
        logs (settled a) es,
        reaps_all.silent (settled a) (λ id. refl) (λ pid n. refl),
        shutdown_silent b (settled a)
            (record { on_call = λ f e. refl; on_duplicate = λ f. refl; on_free = λ f. refl })
            (λ fd. refl) (λ pid n. refl),
      ),
      omega (
        arith,
        descriptors_balanced events d few,
        logs (opened_fd d) es,
        logs (closed_fd d) es,
        reaps_all.silent (opened_fd d) (λ id. refl) (λ pid n. refl),
        reaps_all.silent (closed_fd d) (λ id. refl) (λ pid n. refl),
        shutdown_silent b (opened_fd d)
            (record { on_call = λ f e. refl; on_duplicate = λ f. refl; on_free = λ f. refl })
            (λ fd. refl) (λ pid n. refl),
        shutdown_effects-tally (closed_fd d)
            (record { on_call = λ f e. refl; on_duplicate = λ f. refl; on_free = λ f. refl }) b
            (λ pid n. refl),
        close_processes-closed d b.processes,
      ),
    )
  where
    b : ProcessState
    b = steps initial events

    logs :
        (w : Effect → ℕ) (es : List Effect)
        → tally w (b.log ++ (shutdown_effects b ++ es))
          ≡ tally w b.log + tally w (shutdown_effects b) + tally w es
    logs w es = omega (
      arith,
      tally-append w b.log (shutdown_effects b ++ es),
      tally-append w (shutdown_effects b) es,
    )
