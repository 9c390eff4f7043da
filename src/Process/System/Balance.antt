-- ===== src/Process/System/Balance.antt =====
-- The parts of process/src/module.cpp that open and close descriptors, and what they leave open.
use koya_plugins.Base.{
  ℕ, ◌+◌, ◌^◌, ◌≡◌, refl, ap, Option, none, some, List, [], ◌∷◌, ◌++◌, arith, Bytes, find,
  assign_fresh, tally, tally-append, tally-replace, Option-cases, Bool-cases, inl, inr, ◌%◌, ◌==◌,
}
use koya_plugins.Process.Types.{ChildProcess, Effect, ProcessState}
use koya_plugins.Process.Launch.{
  Launch, opened, new_child, launch_effects, track, give_up, fork_child, launch, request,
  request_launched,
}
use koya_plugins.Process.Control.{without, write_to, close_fd, js_close_stdin}
use koya_plugins.Process.Update.{Poll, Final, update}
use koya_plugins.Process.System.{Event, spawns, execs}
use koya_plugins.Process.System.Accounting.{same, opened_fd, closed_fd, Mute, still}
use koya_plugins.Process.System.Rounds.{fds, reap_of}
use koya_plugins.Process.System.Burials.{bury_all-tally, close_all_fds-closed, close_fd-closed}
use koya_plugins.Process.System.Invariant.{Inv, no_process}
use koya_plugins.Process.System.Updates.{
  round, rounded, buried, after, after-tally, update_open, unchanged, tally_zero,
}

abbrev pub ends : ℕ → ℕ × ℕ → ℕ
ends d i = same d i.0 + same d i.1

-- What a launch that fails leaves open: the ends of the pipes before the failure.
pub lost : ℕ → Launch → ℕ
lost d l = elim l.in_pipe [
  | none ↦ 0
  | some i ↦ elim l.out_pipe [
    | none ↦ ends d i
    | some o ↦ elim l.err_pipe [
      | none ↦ ends d i + ends d o
      | some e ↦ elim l.pid [ none ↦ ends d i + (ends d o + ends d e) | some pid ↦ 0 ]
    ]
  ]
]

unfoldable pub leaks : ℕ → Event → ℕ
unfolding lost
leaks d (spawns none l) = 0
leaks d (spawns (some o) l) = elim o.cmd [ none ↦ 0 | some cmd ↦ lost d l ]
leaks d (execs none l resolve reject) = 0
leaks d (execs (some command) l resolve reject) = lost d l
leaks d e = 0

-- The descriptors that were opened are closed, held, or lost.
abbrev pub Balanced : ℕ → ProcessState → ℕ → Type 0
Balanced d s n =
    tally (opened_fd d) s.log ≡ tally (closed_fd d) s.log + tally (fds d) s.processes + n

give_up-Balanced :
    (d n m : ℕ) (s : ProcessState) (es : List Effect)
    → tally (opened_fd d) es ≡ m
    → tally (closed_fd d) es ≡ 0
    → Balanced d s n
    → Balanced d (give_up s es).0 (n + m)
unfolding give_up
give_up-Balanced d n m s es o c b =
    omega (arith, o, c, b, tally-append (opened_fd d) s.log es, tally-append (closed_fd d) s.log es)

track-Balanced :
    (d n : ℕ) (s : ProcessState) (words : List Bytes) (i o e : ℕ × ℕ) (pid : ℕ)
    → Inv s
    → Balanced d s n
    → Balanced d (track s words i o e pid) n
unfolding track new_child
track-Balanced d n s words i o e pid inv b = omega (
  arith,
  b,
  ap (tally (fds d))
      (assign_fresh s.next_id (new_child pid i.1 o.0 e.0) s.processes (no_process s inv)),
  tally-append (opened_fd d) s.log (launch_effects s.next_id words i o e pid),
  tally-append (closed_fd d) s.log (launch_effects s.next_id words i o e pid),
)

pub launch-Balanced :
    (d n : ℕ) (s : ProcessState) (words : List Bytes) (l : Launch)
    → Inv s
    → Balanced d s n
    → Balanced d (launch s words l).0 (n + lost d l)
unfolding launch fork_child lost
launch-Balanced d n s words l inv b = elim (Option-cases l.in_pipe) [
  | inl e ↦ rw (e, launch, lost) (give_up-Balanced d n 0 s [] refl refl b)
  | inr (i, ei) ↦ elim (Option-cases l.out_pipe) [
    | inl e ↦
        rw (ei, e, launch, lost) (give_up-Balanced d n (ends d i) s (opened i) (omega arith) refl b)
    | inr (o, eo) ↦ elim (Option-cases l.err_pipe) [
      | inl e ↦
          rw (ei, eo, e, launch, lost)
            (give_up-Balanced d n (ends d i + ends d o) s (opened i ++ opened o) (omega arith) refl
              b)
      | inr (x, ex) ↦ elim (Option-cases l.pid) [
        | inl e ↦
            rw (ei, eo, ex, e, launch, lost)
              (give_up-Balanced d n (ends d i + (ends d o + ends d x)) s
                (opened i ++ (opened o ++ opened x)) (omega arith) refl b)
        | inr (pid, ep) ↦
            rw (ei, eo, ex, ep, launch, lost)
              (omega (arith, track-Balanced d n s words i o x pid inv b))
      ]
    ]
  ]
]

pub request_launched-Balanced :
    (d n : ℕ) (r : ProcessState × Option ℕ) (resolve reject : ℕ)
    → Balanced d (r.0) n
    → Balanced d (request_launched r resolve reject).0 n
unfolding request_launched request
request_launched-Balanced d n (s, none) resolve reject b = b
request_launched-Balanced d n (s, some id) resolve reject b =
    omega (arith, b, tally-append (opened_fd d) s.log _, tally-append (closed_fd d) s.log _)

pub without_silent :
    (d f : ℕ) (fs : List ℕ)
    → (tally (opened_fd d) (without f fs).1 ≡ 0) × (tally (closed_fd d) (without f fs).1 ≡ 0)
unfolding without
without_silent d f [] = (refl, refl)
without_silent d f (g ∷ fs) = elim (Bool-cases (g == f)) [
  | inl e ↦
      rw (e, without)
        (omega (arith, (without_silent d f fs).0), omega (arith, (without_silent d f fs).1))
  | inr e ↦ rw (e, without) (without_silent d f fs)
]

pub update-Balanced :
    (d n : ℕ) (polls : ℕ → Poll) (s : ProcessState)
    → Inv s
    → Balanced d s n
    → Balanced d (update polls s) n
unfolding after buried
update-Balanced d n polls s inv b = rw (update_open polls s inv) (
    omega (
      arith,
      b,
      after-tally polls s inv (closed_fd d) mute (λ f. 0) (λ f g o. refl),
      unchanged polls s inv (opened_fd d) mute_opened (λ fd. refl) (λ id. refl) (λ e. refl)
          (λ f g o. refl),
      tally_zero (reap_of (closed_fd d)) (λ id. refl) (round polls s inv).dead,
      tally_zero (λ e. closed_fd d (Effect.emits e)) (λ e. refl) (round polls s inv).events,
      tally_zero {A = Final} (λ f. 0) (λ f. refl) (round polls s inv).finals,
      bury_all-tally (closed_fd d) (still mute) (fds d) (λ id p. close_all_fds-closed d id p)
          (round polls s inv).dead (round polls s inv).processes s.listeners,
      (rounded polls s inv).holding d,
    ))
  where
    mute : Mute (closed_fd d)
    mute = record {
      on_out = λ id b. refl;
      on_err = λ id b. refl;
      on_call = λ f e. refl;
      on_duplicate = λ f. refl;
      on_free = λ f. refl;
    }

    mute_opened : Mute (opened_fd d)
    mute_opened = record {
      on_out = λ id b. refl;
      on_err = λ id b. refl;
      on_call = λ f e. refl;
      on_duplicate = λ f. refl;
      on_free = λ f. refl;
    }

pub write_to_silent :
    (d : ℕ) (p : ChildProcess) (text : Bytes)
    → (tally (opened_fd d) (write_to p text) ≡ 0) × (tally (closed_fd d) (write_to p text) ≡ 0)
unfolding write_to
write_to_silent d p text = elim (Option-cases p.stdin_fd) [
  | inl e ↦ rw (e, write_to) (refl, refl)
  | inr (fd, e) ↦ rw (e, write_to) (refl, refl)
]

pub close_stdin-Balanced :
    (d n id64 : ℕ) (s : ProcessState) → Balanced d s n → Balanced d (js_close_stdin s id64).0 n
unfolding js_close_stdin
close_stdin-Balanced d n id64 s b = elim (Option-cases (find (id64 % 2 ^ 32) s.processes)) [
  | inl e ↦ rw (e, js_close_stdin) b
  | inr (p, e) ↦
      rw (e, js_close_stdin)
        (omega (
          arith,
          b,
          tally-replace (fds d) (id64 % 2 ^ 32) s.processes p (record p { stdin_fd = none }) e,
          close_fd-closed d p.stdin_fd,
          close_fd-opened d p.stdin_fd,
          tally-append (opened_fd d) s.log (close_fd p.stdin_fd),
          tally-append (closed_fd d) s.log (close_fd p.stdin_fd),
        ))
]
  where
    close_fd-opened : (d : ℕ) (fd : Option ℕ) → tally (opened_fd d) (close_fd fd) ≡ 0
    close_fd-opened d none = refl
    close_fd-opened d (some fd) = refl
