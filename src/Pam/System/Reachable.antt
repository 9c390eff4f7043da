-- ===== src/Pam/System/Reachable.antt =====
-- The invariant of pam/src/module.cpp holds in every state that the two threads can reach.
use koya_plugins.Base.{
  ◌≡◌, refl, sym, ap, inl, inr, false, none, some, List, [], ◌∷◌, ◌++◌, arith, tally, tally-append,
  append-nil, if◌then◌else◌, Bool-cases, subst, some-injective,
}
use koya_plugins.Pam.Types.{AuthRequest, PamLib}
use koya_plugins.Pam.Script.{Effect, moved, stop_worker}
use koya_plugins.Pam.System.Accounting.{promises_made}
use koya_plugins.Pam.System.Invariant.{Inv, Inv-initial, Agrees}
use koya_plugins.Pam.System.{
  Worker, waiting, exited, busy, Phase, serving, joining, stopped, World, Event, authenticates,
  updates, takes, finishes, leaves, begins_shutdown, ends_shutdown, take, step, advance, Reach,
  start, next,
}
use koya_plugins.Pam.System.Steps.{Unwrapped, authenticate-Inv, update-Inv}
use koya_plugins.Pam.System.WorkerSteps.{take-Inv, finish-Inv, end_shutdown-Inv}

-- A step only adds to the log.
abbrev Extends : World → World → Type 0
Extends w w' = (es : List Effect) × (w'.log ≡ w.log ++ es)

same-Extends : (w : World) → Extends w w
same-Extends w = ([], sym (append-nil w.log))

take-Extends :
    (w : World) (requests : List AuthRequest) {w' : World}
    → take w requests ≡ some w'
    → Extends w w'
unfolding take
take-Extends w [] e = cc
take-Extends w (r ∷ requests) {w'} e = elim (Bool-cases w.state.running) [
  | inr stop ↦ cc (ap (λ b. if b then some taker else none) stop)
  | inl go ↦
      subst (Extends w)
        (let moved : taker ≡ w' = cc (ap (λ b. if b then some taker else none) go) in moved)
        (_, refl)
]
  where
    taker : World
    taker = record w {
      state = record (w.state) { requests = requests };
      worker = busy r;
      log = w.log ++ moved r.password ∷ [];
    }

leave-cases :
    (w : World) {w' : World}
    → (if w.state.running then none else some (record w { worker = exited })) ≡ some w'
    → (w.state.running ≡ false) × (record w { worker = exited } ≡ w')
leave-cases w {w'} e = elim (Bool-cases w.state.running) [
  | inl go ↦ cc (ap (λ b. if b then none else some (record w { worker = exited })) go)
  | inr stop ↦ (stop, cc (ap (λ b. if b then none else some (record w { worker = exited })) stop))
]

step-Extends :
    (lib : PamLib) (w : World) (worker : Worker) (phase : Phase) (e : Event) {w' : World}
    → step lib w worker phase e ≡ some w'
    → Extends w w'
unfolding step
step-Extends lib w worker serving (authenticates p o) h =
    subst (Extends w) (some-injective _ _ h) (_, refl)
step-Extends lib w worker serving updates h = subst (Extends w) (some-injective _ _ h) (_, refl)
step-Extends lib w worker serving begins_shutdown h =
    subst (Extends w) (some-injective _ _ h) (same-Extends w)
step-Extends lib w waiting phase takes h = take-Extends w w.state.requests h
step-Extends lib w waiting phase leaves h = subst (Extends w) (leave-cases w h).1 (same-Extends w)
step-Extends lib w (busy r) phase finishes h = subst (Extends w) (some-injective _ _ h) (_, refl)
step-Extends lib w exited joining ends_shutdown h =
    subst (Extends w) (some-injective _ _ h) (_, refl)
step-Extends lib w worker phase event h = cc

leave-Inv :
    (w : World)
    → Inv w
    → w.worker ≡ waiting
    → w.state.running ≡ false
    → Inv (record w { worker = exited })
leave-Inv w inv idle stop = record {
  numbered = inv.numbered;
  fresh = inv.fresh;
  once = inv.once;
  owned = inv.owned;
  answered = inv.answered;
  tracked = λ a. rw idle at (inv.tracked a);
  bounded = inv.bounded;
  balanced = inv.balanced;
  covered = λ b. rw idle at (inv.covered b);
  left = inv.left;
  agrees = left w.phase (rw idle at inv.agrees);
}
  where
    left : (phase : Phase) → Agrees w.state waiting phase → Agrees w.state exited phase
    left serving h = cc (h.0, stop)
    left joining h = h
    left stopped h = cc (h.1)

stop-Inv :
    (w : World)
    → Inv w
    → w.phase ≡ serving
    → Inv (record w { state = stop_worker w.state; phase = joining })
unfolding stop_worker
stop-Inv w inv serves = record {
  numbered = inv.numbered;
  fresh = inv.fresh;
  once = inv.once;
  owned = inv.owned;
  answered = λ a. rw serves at (inv.answered a);
  tracked = inv.tracked;
  bounded = inv.bounded;
  balanced = inv.balanced;
  covered = inv.covered;
  left = inv.left;
  agrees = (refl, (rw serves at inv.agrees).1);
}

step-Inv :
    (lib : PamLib) (w : World) (worker : Worker) (phase : Phase) (e : Event) {w' : World}
    → w.worker ≡ worker
    → w.phase ≡ phase
    → Inv w
    → step lib w worker phase e ≡ some w'
    → Unwrapped w'
    → Inv w'
unfolding step
step-Inv lib w worker serving (authenticates p o) q s inv h u =
    let moved = some-injective _ _ h in
    subst Inv moved (authenticate-Inv w inv s p o (rw (← moved) at u))
step-Inv lib w worker serving updates q s inv h u =
    subst Inv (some-injective _ _ h) (update-Inv w inv s)
step-Inv lib w worker serving begins_shutdown q s inv h u =
    subst Inv (some-injective _ _ h) (stop-Inv w inv s)
step-Inv lib w waiting phase takes q s inv h u = take-Inv w w.state.requests inv q refl h
step-Inv lib w waiting phase leaves q s inv h u =
    subst Inv (leave-cases w h).1 (leave-Inv w inv q (leave-cases w h).0)
step-Inv lib w (busy r) phase finishes q s inv h u =
    subst Inv (some-injective _ _ h) (finish-Inv lib w r inv q)
step-Inv lib w exited joining ends_shutdown q s inv h u =
    subst Inv (some-injective _ _ h) (end_shutdown-Inv w inv q s)
step-Inv lib w worker phase event q s inv h u = cc

Extends-Unwrapped : (w w' : World) → Extends w w' → Unwrapped w' → Unwrapped w
Extends-Unwrapped w w' (es, e) u =
    omega (arith, ap (tally promises_made) e, tally-append promises_made w.log es)

-- The invariant holds in every state that can be reached before the identifiers wrap around.
pub Reach-Inv : {lib : PamLib} {w : World} → Reach lib w → Unwrapped w → Inv w
unfolding advance
Reach-Inv start u = Inv-initial
Reach-Inv {lib} (next {w} {w'} e r h) u =
    step-Inv lib w w.worker w.phase e refl refl
      (Reach-Inv r (Extends-Unwrapped w w' (step-Extends lib w w.worker w.phase e h) u)) h u
