-- ===== src/Pam/System/Liveness.antt =====
-- The worker and the update hook of pam/src/module.cpp settle every pending promise.
use koya_plugins.Base.{
  ◌++◌, ℕ, suc, ◌+◌, ◌*◌, ◌≤◌, ◌≡◌, refl, sym, ap, subst, some-injective, Option-cases, inl, inr,
  ◌∙◌, true, none, some, List, [], ◌∷◌, length, Table, entries, tally, arith, if◌then◌else◌,
}
use koya_plugins.Pam.Script.{moved}
use koya_plugins.Pam.Types.{AuthRequest, PamLib}
use koya_plugins.Pam.Script.{pam_update_open}
use koya_plugins.Pam.System.Accounting.{made, called, request_ids, settle_all-entries}
use koya_plugins.Pam.System.Invariant.{Inv, held_ids}
use koya_plugins.Pam.System.Steps.{Unwrapped, update-Inv}
use koya_plugins.Pam.System.WorkerSteps.{take-Inv, finish-Inv}
use koya_plugins.Pam.System.Reachable.{Reach-Inv}
use koya_plugins.Pam.System.{
  World, Worker, exited, Event, takes, finishes, updates, waiting, busy, serving, Reach, next,
  update, finish, take, step, advance, run,
}

no_entries {ℓ} : {V : Type ℓ} (t : Table V) → ((id : ℕ) → entries id t ≡ 0) → t ≡ []
no_entries [] h = refl
no_entries ((id, v) ∷ t) h = absurd (ground (arith, h id))

-- A schedule that settles everything: its length is bounded by the work that is waiting.
abbrev pub Drains : PamLib → World → ℕ → Type 0
Drains lib w n =
    (events : List Event) × (w' : World) × (run lib w events ≡ some w')
    × (length events ≤ n)
    × (w'.state.promises ≡ [])
    × ((id : ℕ) → tally (called id) w'.log ≡ tally (made id) w'.log)

pub run-cons :
    (lib : PamLib) (w w' : World) (e : Event) (events : List Event)
    → advance lib w e ≡ some w'
    → run lib w (e ∷ events) ≡ run lib w' events
unfolding run
run-cons lib w w' e events h = rw (h, run)

run-stuck :
    (lib : PamLib) (w : World) (e : Event) (events : List Event)
    → advance lib w e ≡ none
    → run lib w (e ∷ events) ≡ none
unfolding run
run-stuck lib w e events h = rw (h, run)

Drains-step :
    (lib : PamLib) (w w' : World) (e : Event) (n : ℕ)
    → advance lib w e ≡ some w'
    → Drains lib w' n
    → Drains lib w (suc n)
Drains-step lib w w' e n h (events, v, r, l, p, c) =
    (e ∷ events, v, run-cons lib w w' e events h ∙ r, omega arith, p, c)

pub advance-updates :
    (lib : PamLib) (w : World) → w.phase ≡ serving → advance lib w updates ≡ some (update w)
unfolding advance step
advance-updates lib w s = λ i. step lib w w.worker (s i) updates

pub advance-finishes :
    (lib : PamLib) (w : World) (r : AuthRequest)
    → w.worker ≡ busy r
    → w.phase ≡ serving
    → advance lib w finishes ≡ some (finish lib w r)
unfolding advance step
advance-finishes lib w r b s = λ i. step lib w (b i) (s i) finishes

unfoldable pub taken : World → AuthRequest → List AuthRequest → World
taken w r requests = record w {
  state = record (w.state) { requests = requests };
  worker = busy r;
  log = w.log ++ moved r.password ∷ [];
}

pub advance-takes :
    (lib : PamLib) (w : World) (r : AuthRequest) (requests : List AuthRequest)
    → w.worker ≡ waiting
    → w.phase ≡ serving
    → w.state.running ≡ true
    → w.state.requests ≡ r ∷ requests
    → advance lib w takes ≡ some (taken w r requests)
unfolding advance step take taken
advance-takes lib w r requests b s go q =
    (λ i. step lib w (b i) (s i) takes)
    ∙ ap (take w) q
    ∙ ap (λ g. if g then some (taken w r requests) else none) go

-- An update with nothing left to do for the worker settles the whole table.
update-empties :
    (w : World)
    → Inv w
    → w.phase ≡ serving
    → w.worker ≡ waiting
    → w.state.requests ≡ []
    → (update w).state.promises ≡ []
unfolding update
update-empties w inv s b q = rw (pam_update_open w.state (rw s at inv.agrees).1) (
    no_entries _ λ id. omega (
      arith,
      settle_all-entries id w.state.results w.state.promises,
      inv.tracked id,
      ap (tally (request_ids id)) q,
      ap (held_ids id) b,
    ))

updated : (w : World) → w.phase ≡ serving → (update w).phase ≡ serving
unfolding update
updated w s = s

drain_once :
    (lib : PamLib) (w : World)
    → Inv w
    → w.phase ≡ serving
    → w.worker ≡ waiting
    → w.state.requests ≡ []
    → Drains lib w 1
unfolding run
drain_once lib w inv s b q = (
  updates ∷ [],
  update w,
  run-cons lib w (update w) updates [] (advance-updates lib w s),
  omega arith,
  update-empties w inv s b q,
  λ id. omega (
    arith,
    (rw (updated w s) at ((update-Inv w inv s).answered id)),
    ap (entries id) (update-empties w inv s b q),
  ),
)

drain :
    (lib : PamLib) (w : World) (requests : List AuthRequest)
    → Inv w
    → w.phase ≡ serving
    → w.worker ≡ waiting
    → w.state.requests ≡ requests
    → Drains lib w (2 * length requests + 1)
unfolding take taken finish
drain lib w [] inv s b q = drain_once lib w inv s b q
drain lib w (r ∷ requests) inv s b q = subst (Drains lib w) (omega arith) (
    Drains-step lib w (taken w r requests) takes _ on_the_way (
      Drains-step lib (taken w r requests) (finish lib (taken w r requests) r) finishes
        (2 * length requests + 1) (advance-finishes lib (taken w r requests) r refl s)
        (drain lib (finish lib (taken w r requests) r) requests
          (finish-Inv lib (taken w r requests) r (take-Inv w (r ∷ requests) inv b q grabbed) refl) s
          refl refl)))
  where
    go : w.state.running ≡ true
    go = (rw s at inv.agrees).0

    grabbed : take w (r ∷ requests) ≡ some (taken w r requests)
    grabbed = ap (λ g. if g then some (taken w r requests) else none) go

    on_the_way : advance lib w takes ≡ some (taken w r requests)
    on_the_way = advance-takes lib w r requests b s go q

drain_from :
    (lib : PamLib) (w : World) (worker : Worker)
    → Inv w
    → w.phase ≡ serving
    → w.worker ≡ worker
    → Drains lib w (2 * length w.state.requests + 2)
unfolding finish
drain_from lib w waiting inv s b =
    let (events, w', e, l, p, c) = drain lib w w.state.requests inv s b refl in
    (events, w', e, omega arith, p, c)
drain_from lib w (busy r) inv s b = subst (Drains lib w) (omega arith) (
    Drains-step lib w (finish lib w r) finishes (2 * length w.state.requests + 1)
      (advance-finishes lib w r b s)
      (drain lib (finish lib w r) w.state.requests (finish-Inv lib w r inv b) s refl refl))
drain_from lib w exited inv s b = absurd ((rw s at inv.agrees).2 b)

-- From every state that can be reached while the plugin serves, before the identifiers wrap around,
-- some schedule of at most two steps for each queued request and two more leaves no promise
-- pending, and every promise that was ever handed out has had one of its functions called.
pub all_settled :
    {lib : PamLib} {w : World}
    → Reach lib w
    → Unwrapped w
    → w.phase ≡ serving
    → Drains lib w (2 * length w.state.requests + 2)
all_settled {lib} {w} r u s = drain_from lib w w.worker (Reach-Inv r u) s refl

pub run-Reach :
    (lib : PamLib) (w : World) (events : List Event) {w' : World}
    → Reach lib w
    → run lib w events ≡ some w'
    → Reach lib w'
unfolding run
run-Reach lib w [] r h = subst (Reach lib) (some-injective _ _ h) r
run-Reach lib w (e ∷ events) r h = elim (Option-cases (advance lib w e)) [
  | inl stuck ↦ cc (run-stuck lib w e events stuck)
  | inr (v, on_the_way) ↦
      run-Reach lib v events (next e r on_the_way) (sym (run-cons lib w v e events on_the_way) ∙ h)
]
