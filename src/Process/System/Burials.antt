-- ===== src/Process/System/Burials.antt =====
-- The loops of process_update_callback of process/src/module.cpp that take finished requests and ended
-- processes out of their tables.
use koya_plugins.Base.{
  ℕ, ◌+◌, ◌-◌, ◌≤◌, ◌≡◌, inl, inr, refl, Option, none, some, List, [], ◌∷◌, ◌++◌, arith, Table,
  find, erase, entries, entries-erase, find-entries, tally-erase, Differs, erase-Differs, All-erase,
  erase_absent, tally, tally-append, All, Option-cases,
}
use koya_plugins.Process.Types.{ChildProcess, ListenerLists, ExecRequest, Effect, closes}
use koya_plugins.Process.Control.{close_fd}
use koya_plugins.Process.Update.{
  Final, release_requests, close_all_fds, bury_process, bury_listeners, bury_all,
}
use koya_plugins.Process.System.Accounting.{same, closed_fd, final_id, Still, free_lists-Still}
use koya_plugins.Process.System.Rounds.{Idle, AllIdle, fd_is, fds, Sorted}

pub release_requests-entries :
    (a : ℕ) (finals : List Final) (requests : Table ExecRequest)
    → entries a (release_requests finals requests).0
      ≡ entries a requests - tally (final_id a) finals
unfolding release_requests
release_requests-entries a [] requests = omega arith
release_requests-entries a (f ∷ finals) requests = elim (Option-cases (find f.id requests)) [
  | inl e ↦
      rw (e, release_requests)
        (ground (arith, find-entries f.id a requests e, release_requests-entries a finals requests))
  | inr (r, e) ↦
      rw (e, release_requests)
        (ground (
          arith,
          entries-erase f.id a requests r e,
          release_requests-entries a finals (erase f.id requests),
        ))
]

bury_process-entries :
    (a id : ℕ) (t : Table ChildProcess) → entries a (bury_process id t).0 ≡ entries a t - same a id
unfolding bury_process
bury_process-entries a id t = elim (Option-cases (find id t)) [
  | inl e ↦ rw (e, bury_process) (ground (arith, find-entries id a t e))
  | inr (p, e) ↦ rw (e, bury_process) (ground (arith, entries-erase id a t p e))
]

pub bury_all-entries :
    (a : ℕ) (dead : List ℕ) (processes : Table ChildProcess) (listeners : Table ListenerLists)
    → entries a (bury_all dead processes listeners).0 ≡ entries a processes - tally (same a) dead
unfolding bury_all
bury_all-entries a [] processes listeners = omega arith
bury_all-entries a (id ∷ dead) processes listeners = omega (
  arith,
  bury_process-entries a id processes,
  bury_all-entries a dead (bury_process id processes).0 (bury_listeners id listeners).0,
)

-- A count of what closing a descriptor, and nothing else of a burial, adds to.
module _ (w : Effect → ℕ) (mute : Still w) (held : ℕ × ChildProcess → ℕ)
    (closing : (id : ℕ) (p : ChildProcess) → tally w (close_all_fds p) ≡ held (id, p)) where
  bury_process-tally :
      (id : ℕ) (t : Table ChildProcess)
      → tally held (bury_process id t).0 + tally w (bury_process id t).1 ≡ tally held t
  unfolding bury_process
  bury_process-tally id t = elim (Option-cases (find id t)) [
    | inl e ↦ rw (e, bury_process) (omega arith)
    | inr (p, e) ↦ rw (e, bury_process) (omega (arith, closing id p, tally-erase held id t p e))
  ]

  bury_listeners-tally : (id : ℕ) (t : Table ListenerLists) → tally w (bury_listeners id t).1 ≡ 0
  unfolding bury_listeners
  bury_listeners-tally id t = elim (Option-cases (find id t)) [
    | inl e ↦ rw (e, bury_listeners) refl
    | inr (l, e) ↦ rw (e, bury_listeners) (free_lists-Still w mute l)
  ]

  pub bury_all-tally :
      (dead : List ℕ) (processes : Table ChildProcess) (listeners : Table ListenerLists)
      → let r = bury_all dead processes listeners in
        tally held r.0 + tally w r.2 ≡ tally held processes
  unfolding bury_all
  bury_all-tally [] processes listeners = omega arith
  bury_all-tally (id ∷ dead) processes listeners =
      let p = bury_process id processes in
      let l = bury_listeners id listeners in
      let rest = bury_all dead p.0 l.0 in
      omega (
        arith,
        tally-append w p.1 (l.1 ++ rest.2),
        tally-append w l.1 rest.2,
        bury_process-tally id processes,
        bury_listeners-tally id listeners,
        bury_all-tally dead p.0 l.0,
      )

pub close_fd-closed : (d : ℕ) (fd : Option ℕ) → tally (closed_fd d) (close_fd fd) ≡ fd_is d fd
close_fd-closed d none = refl
close_fd-closed d (some fd) = omega arith

pub close_all_fds-closed :
    (d id : ℕ) (p : ChildProcess) → tally (closed_fd d) (close_all_fds p) ≡ fds d (id, p)
unfolding close_all_fds
close_all_fds-closed d id p = omega (
  arith,
  tally-append (closed_fd d) (close_fd p.stdin_fd) (close_fd p.stdout_fd ++ close_fd p.stderr_fd),
  tally-append (closed_fd d) (close_fd p.stdout_fd) (close_fd p.stderr_fd),
  close_fd-closed d p.stdin_fd,
  close_fd-closed d p.stdout_fd,
  close_fd-closed d p.stderr_fd,
)

close_fd_silent :
    (w : Effect → ℕ) → ((fd : ℕ) → w (closes fd) ≡ 0) → (fd : Option ℕ) → tally w (close_fd fd) ≡ 0
close_fd_silent w h none = refl
close_fd_silent w h (some fd) = omega (arith, h fd)

pub close_all_fds_silent :
    (w : Effect → ℕ)
    → ((fd : ℕ) → w (closes fd) ≡ 0)
    → (p : ChildProcess) → tally w (close_all_fds p) ≡ 0
unfolding close_all_fds
close_all_fds_silent w h p = omega (
  arith,
  tally-append w (close_fd p.stdin_fd) (close_fd p.stdout_fd ++ close_fd p.stderr_fd),
  tally-append w (close_fd p.stdout_fd) (close_fd p.stderr_fd),
  close_fd_silent w h p.stdin_fd,
  close_fd_silent w h p.stdout_fd,
  close_fd_silent w h p.stderr_fd,
)

none_held : (t : Table ChildProcess) → tally (λ e. 0) t ≡ 0
none_held [] = refl
none_held (e ∷ t) = omega (arith, none_held t)

pub bury_all_silent :
    (w : Effect → ℕ)
    → Still w
    → ((fd : ℕ) → w (closes fd) ≡ 0)
    → (dead : List ℕ) (processes : Table ChildProcess) (listeners : Table ListenerLists)
    → tally w (bury_all dead processes listeners).2 ≡ 0
bury_all_silent w mute h dead processes listeners = omega (
  arith,
  bury_all-tally w mute (λ e. 0) (λ id p. close_all_fds_silent w h p) dead processes listeners,
  none_held processes,
)

-- A process whose number is not the one that is buried stays sorted.
Sorted-next :
    (id : ℕ) (dead : List ℕ) (t : Table ChildProcess)
    → All (Sorted (id ∷ dead)) t
    → All (Differs id) t
    → All (Sorted dead) t
Sorted-next id dead [] h k = tt
Sorted-next id dead ((j, p) ∷ t) h k = (narrower (h.0), Sorted-next id dead t (h.1) (k.1))
  where
    narrower : Sorted (id ∷ dead) (j, p) → Sorted dead (j, p)
    narrower (inl idle) = inl idle
    narrower (inr m) = inr (ground (arith, k.0))

bury_process-Sorted :
    (id : ℕ) (dead : List ℕ) (t : Table ChildProcess)
    → entries id t ≤ 1
    → All (Sorted (id ∷ dead)) t
    → All (Sorted dead) (bury_process id t).0
unfolding bury_process
bury_process-Sorted id dead t one h = elim (Option-cases (find id t)) [
  | inl e ↦
      rw (e, bury_process)
        (let same_t : erase id t ≡ t = erase_absent id t (find-entries id id t e (ground arith)) in
          Sorted-next id dead t h (rw same_t at (erase-Differs id t one)))
  | inr (p, e) ↦
      rw (e, bury_process)
        (Sorted-next id dead (erase id t) (All-erase (Sorted (id ∷ dead)) id t h)
          (erase-Differs id t one))
]

Sorted-nil : (t : Table ChildProcess) → All (Sorted []) t → AllIdle t
Sorted-nil [] h = tt
Sorted-nil ((j, p) ∷ t) h = (alive (h.0), Sorted-nil t (h.1))
  where
    alive : Sorted [] (j, p) → Idle p
    alive (inl idle) = idle
    alive (inr m) = absurd (omega arith)

-- The processes that are left have not ended.
pub bury_all-AllIdle :
    (dead : List ℕ) (processes : Table ChildProcess) (listeners : Table ListenerLists)
    → ((a : ℕ) → entries a processes ≤ 1)
    → All (Sorted dead) processes
    → AllIdle (bury_all dead processes listeners).0
unfolding bury_all
bury_all-AllIdle [] processes listeners one h = Sorted-nil processes h
bury_all-AllIdle (id ∷ dead) processes listeners one h =
    bury_all-AllIdle dead (bury_process id processes).0 (bury_listeners id listeners).0
      (λ a. omega (arith, one a, bury_process-entries a id processes))
      (bury_process-Sorted id dead processes (one id) h)
