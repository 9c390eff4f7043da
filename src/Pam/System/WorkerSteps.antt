-- ===== src/Pam/System/WorkerSteps.antt =====
-- The steps of the worker thread of pam/src/module.cpp, and the end of shutdown, keep the invariant.
use koya_plugins.Base.{
  ℕ, ◌+◌, ◌≡◌, refl, ap, ◌∙◌, inl, inr, true, none, some, List, [], ◌∷◌, ◌++◌, arith, Table, tally,
  tally-append, if◌then◌else◌, Bool-cases, subst,
}
use koya_plugins.Pam.Types.{AuthRequest, PendingPromise, PamLib}
use koya_plugins.Pam.Conversation.{erase_password}
use koya_plugins.Pam.Worker.{perform}
use koya_plugins.Pam.Script.{Effect, moved, wipe, release_all, free_promises, wipe_requests}
use koya_plugins.Pam.System.Accounting.{
  made, called, freed, promises_made, copies, wipes, left_behind, handed, returned,
  free_promises-returned, result_ids, wipes-erase_password, free_promises-freed,
  free_promises_quiet, wipe_requests-wipes, wipe_requests_quiet,
}
use koya_plugins.Pam.System.Invariant.{Inv, Agrees, Called}
use koya_plugins.Pam.System.{
  waiting, exited, busy, Phase, serving, joining, stopped, World, take, finish, end_shutdown,
}

pub take-Inv :
    (w : World) (requests : List AuthRequest) {w' : World}
    → Inv w
    → w.worker ≡ waiting
    → w.state.requests ≡ requests
    → take w requests ≡ some w'
    → Inv w'
unfolding take
take-Inv w [] inv idle q e = cc
take-Inv w (r ∷ requests) {w'} inv idle q e = elim (Bool-cases w.state.running) [
  | inr stop ↦ cc (ap (λ b. if b then some taker else none) stop)
  | inl go ↦
      subst Inv (let moved : taker ≡ w' = cc (ap (λ b. if b then some taker else none) go) in moved)
        (record {
          numbered = omega (arith, inv.numbered, logs promises_made);
          fresh = λ a h. omega (arith, inv.fresh a h, logs (made a));
          once = λ a. omega (arith, inv.once a, logs (made a));
          owned = λ a. omega (arith, inv.owned a, logs (made a), logs (freed a));
          answered = λ a. answered a w.phase (inv.answered a);
          tracked = λ a. ground (arith, inv.tracked a);
          bounded = inv.bounded;
          balanced = λ f. omega (arith, inv.balanced f, logs (handed f), logs (returned f));
          covered = λ b. ground (arith, inv.covered b, logs (copies b), logs (wipes b));
          left = λ b. ground (arith, inv.left b, logs (copies b), logs (left_behind b));
          agrees = taken w.phase go (rw idle at inv.agrees);
        })
]
  where
    taker : World
    taker = record w {
      state = record (w.state) { requests = requests };
      worker = busy r;
      log = w.log ++ moved r.password ∷ [];
    }

    logs :
        (f : Effect → ℕ)
        → tally f (w.log ++ moved r.password ∷ []) ≡ tally f w.log + tally f (moved r.password ∷ [])
    logs f = tally-append f w.log _

    answered : (a : ℕ) (phase : Phase) → Called a w phase → Called a taker phase
    answered a serving h = omega (arith, h, logs (made a), logs (called a))
    answered a joining h = omega (arith, h, logs (made a), logs (called a))
    answered a stopped h = omega (arith, h, logs (made a), logs (called a))

    taken :
        (phase : Phase)
        → w.state.running ≡ true
        → Agrees w.state waiting phase
        → Agrees (record (w.state) { requests = requests }) (busy r) phase
    taken serving go h = (h.0, h.1, λ e. cc)
    taken joining go h = cc
    taken stopped go h = cc

pub finish-Inv :
    (lib : PamLib) (w : World) (r : AuthRequest) → Inv w → w.worker ≡ busy r → Inv (finish lib w r)
unfolding finish perform
finish-Inv lib w r inv b = record {
  numbered = omega (arith, inv.numbered, logs promises_made);
  fresh = λ a h. omega (arith, inv.fresh a h, logs (made a));
  once = λ a. omega (arith, inv.once a, logs (made a));
  owned = λ a. omega (arith, inv.owned a, logs (made a), logs (freed a));
  answered = λ a. answered a w.phase (inv.answered a);
  tracked = λ a.
      ground
        (arith, inv.tracked a, tally-append (result_ids a) w.state.results (perform lib r ∷ []));
  bounded = inv.bounded;
  balanced = λ f. omega (arith, inv.balanced f, logs (handed f), logs (returned f));
  covered = λ c. omega (
    arith,
    (rw b at (inv.covered c)),
    logs (copies c),
    logs (wipes c),
    wipes-erase_password c r.password,
  );
  left = λ c. omega (arith, inv.left c, logs (copies c), logs (left_behind c));
  agrees = agrees w.phase (rw b at inv.agrees);
}
  where
    logs :
        (f : Effect → ℕ)
        → tally f (w.log ++ wipe r.password (erase_password r.password).0 ∷ [])
          ≡ tally f w.log + tally f (wipe r.password (erase_password r.password).0 ∷ [])
    logs f = tally-append f w.log _

    answered : (a : ℕ) (phase : Phase) → Called a w phase → Called a (finish lib w r) phase
    answered a serving h = omega (arith, h, logs (made a), logs (called a))
    answered a joining h = omega (arith, h, logs (made a), logs (called a))
    answered a stopped h = omega (arith, h, logs (made a), logs (called a))

    agrees :
        (phase : Phase)
        → Agrees w.state (busy r) phase
        → Agrees (finish lib w r).state waiting phase
    agrees serving h = (h.0, h.1, λ e. cc)
    agrees joining h = h
    agrees stopped h = cc

pub end_shutdown-Inv :
    (w : World) → Inv w → w.worker ≡ exited → w.phase ≡ joining → Inv (end_shutdown w)
unfolding end_shutdown release_all
end_shutdown-Inv w inv gone joins = record {
  numbered = omega (
    arith,
    inv.numbered,
    logs promises_made,
    free_promises_quiet promises_made (λ i f. refl) t,
    wipe_requests_quiet promises_made (λ p l. refl) q,
  );
  fresh = λ a h. omega (arith, inv.fresh a h, made_none a);
  once = λ a. omega (arith, inv.once a, made_none a);
  owned = λ a. omega (
    arith,
    inv.owned a,
    made_none a,
    logs (freed a),
    free_promises-freed a t,
    wipe_requests_quiet (freed a) (λ p l. refl) q,
  );
  answered = λ a. omega (
    arith,
    (rw joins at (inv.answered a)),
    made_none a,
    logs (called a),
    free_promises_quiet (called a) (λ i f. refl) t,
    wipe_requests_quiet (called a) (λ p l. refl) q,
  );
  tracked = λ a. rw gone;
  bounded = omega arith;
  balanced = λ f. omega (
    arith,
    inv.balanced f,
    logs (handed f),
    logs (returned f),
    free_promises_quiet (handed f) (λ i g. refl) t,
    free_promises-returned f t,
    wipe_requests_quiet (handed f) (λ p l. refl) q,
    wipe_requests_quiet (returned f) (λ p l. refl) q,
  );
  covered = λ b. rw gone (
      omega (
        arith,
        (rw gone at (inv.covered b)),
        logs (copies b),
        logs (wipes b),
        wipe_requests-wipes b q,
        free_promises_quiet (copies b) (λ i f. refl) t,
        free_promises_quiet (wipes b) (λ i f. refl) t,
        wipe_requests_quiet (copies b) (λ p l. refl) q,
      ));
  left = λ b. omega (
    arith,
    inv.left b,
    logs (copies b),
    logs (left_behind b),
    free_promises_quiet (copies b) (λ i f. refl) t,
    free_promises_quiet (left_behind b) (λ i f. refl) t,
    wipe_requests_quiet (copies b) (λ p l. refl) q,
    wipe_requests_quiet (left_behind b) (λ p l. refl) q,
  );
  agrees = ((rw joins at inv.agrees).0, gone, refl, refl, refl);
}
  where
    t : Table PendingPromise
    t = w.state.promises

    q : List AuthRequest
    q = w.state.requests

    logs :
        (f : Effect → ℕ)
        → tally f (w.log ++ (free_promises t ++ wipe_requests q))
          ≡ tally f w.log + (tally f (free_promises t) + tally f (wipe_requests q))
    logs f =
        tally-append f w.log _ ∙ ap (λ n. tally f w.log + n) (tally-append f (free_promises t) _)

    made_none :
        (a : ℕ)
        → tally (made a) (w.log ++ (free_promises t ++ wipe_requests q)) ≡ tally (made a) w.log
    made_none a = omega (
      arith,
      logs (made a),
      free_promises_quiet (made a) (λ i f. refl) t,
      wipe_requests_quiet (made a) (λ p l. refl) q,
    )
