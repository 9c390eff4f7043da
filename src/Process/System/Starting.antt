-- ===== src/Process/System/Starting.antt =====
-- js_spawn and js_exec of process/src/module.cpp keep the invariant.
use koya_plugins.Base.{
  ℕ, ◌+◌, ◌^◌, ◌<◌, ◌≡◌, refl, Option, none, some, List, [], ◌∷◌, ◌++◌, map, arith, Bytes, codes,
  c_string, entries, tally, tally-append, Option-cases, inl, inr,
}
use koya_plugins.Process.Types.{Effect, ProcessState}
use koya_plugins.Process.Launch.{
  Launch, opened, launch_effects, track, give_up, fork_child, launch, SpawnOptions, js_spawn,
  request, request_launched, js_exec,
}
use koya_plugins.Process.System.Accounting.{all_started, promised}
use koya_plugins.Process.System.Invariant.{Inv, Quiet, Quiet-Inv, track-Inv, request-Inv}

-- The number of one more child does not wrap around.
abbrev pub Room : ProcessState → Type 0
Room s = 2 + tally all_started s.log < 2 ^ 32

-- How a launch ends: some pipes are left open, or a process is tracked.
pub data Launches (s : ProcessState) (words : List Bytes) : ProcessState × Option ℕ → Type 0 where
  fails : (es : List Effect) → Quiet es → Launches s words (give_up s es)
  works : (i o e : ℕ × ℕ) (pid : ℕ) → Launches s words (track s words i o e pid, some s.next_id)

Quiet-opened : (i : ℕ × ℕ) (es : List Effect) → Quiet es → Quiet (opened i ++ es)
Quiet-opened i es q = record {
  none_started = omega (arith, q.none_started);
  started_zero = λ a. omega (arith, q.started_zero a);
  reaped_zero = λ a. omega (arith, q.reaped_zero a);
  told_zero = λ a. omega (arith, q.told_zero a);
  settled_zero = λ a. omega (arith, q.settled_zero a);
  promised_zero = λ a. omega (arith, q.promised_zero a);
}

pub Quiet-nil : Quiet []
Quiet-nil = record {
  none_started = refl;
  started_zero = λ a. refl;
  reaped_zero = λ a. refl;
  told_zero = λ a. refl;
  settled_zero = λ a. refl;
  promised_zero = λ a. refl;
}

pub launch-Launches :
    (s : ProcessState) (words : List Bytes) (l : Launch) → Launches s words (launch s words l)
unfolding launch fork_child
launch-Launches s words l = elim (Option-cases l.in_pipe) [
  | inl e ↦ rw (e, launch) (fails [] Quiet-nil)
  | inr (i, ei) ↦ elim (Option-cases l.out_pipe) [
    | inl e ↦ rw (ei, e, launch) (fails (opened i) (Quiet-opened i [] Quiet-nil))
    | inr (o, eo) ↦ elim (Option-cases l.err_pipe) [
      | inl e ↦
          rw (ei, eo, e, launch)
            (fails (opened i ++ opened o) (Quiet-opened i _ (Quiet-opened o [] Quiet-nil)))
      | inr (x, ex) ↦ elim (Option-cases l.pid) [
        | inl e ↦
            rw (ei, eo, ex, e, launch)
              (fails (opened i ++ (opened o ++ opened x))
                (Quiet-opened i _ (Quiet-opened o _ (Quiet-opened x [] Quiet-nil))))
        | inr (pid, ep) ↦ rw (ei, eo, ex, ep, launch) (works i o x pid)
      ]
    ]
  ]
]

launches-Inv :
    (s : ProcessState) (words : List Bytes) {r : ProcessState × Option ℕ}
    → Launches s words r
    → Inv s
    → Room s
    → Inv (r.0)
unfolding give_up track
launches-Inv s words (fails es q) inv u =
    Quiet-Inv s s.processes s.listeners es inv q (λ a. refl) inv.idle
launches-Inv s words (works i o e pid) inv u = track-Inv s inv words i o e pid u

launch-Inv :
    (s : ProcessState) (words : List Bytes) (l : Launch) → Inv s → Room s → Inv (launch s words l).0
launch-Inv s words l inv u = launches-Inv s words (launch-Launches s words l) inv u

pub spawn-Inv :
    (s : ProcessState) (o : Option SpawnOptions) (l : Launch)
    → Inv s
    → Room s
    → Inv (js_spawn s o l).0
unfolding js_spawn
spawn-Inv s none l inv u = inv
spawn-Inv s (some o) l inv u = elim (Option-cases o.cmd) [
  | inl e ↦ rw (e, js_spawn) inv
  | inr (cmd, e) ↦ rw (e, js_spawn) (launch-Inv s (map c_string (cmd ∷ o.args)) l inv u)
]

requested-Inv :
    (s : ProcessState) (words : List Bytes) (resolve reject : ℕ) {r : ProcessState × Option ℕ}
    → Launches s words r
    → Inv s
    → Room s
    → Inv (request_launched r resolve reject).0
unfolding request_launched give_up request track
requested-Inv s words resolve reject (fails es q) inv u =
    Quiet-Inv s s.processes s.listeners es inv q (λ a. refl) inv.idle
requested-Inv s words resolve reject (works i o e pid) inv u =
    request-Inv (track s words i o e pid) (track-Inv s inv words i o e pid u) s.next_id resolve
      reject one unpromised
  where
    tracked :
        (w : Effect → ℕ)
        → tally w (track s words i o e pid).log
          ≡ tally w s.log + tally w (launch_effects s.next_id words i o e pid)
    tracked w = tally-append w s.log (launch_effects s.next_id words i o e pid)

    next : Inv (track s words i o e pid)
    next = track-Inv s inv words i o e pid u

    one : entries s.next_id (track s words i o e pid).processes ≡ 1
    one = ground (
      arith,
      next.reaping s.next_id,
      next.once s.next_id,
      inv.reaping s.next_id,
      inv.fresh s.next_id,
    )

    unpromised : tally (promised s.next_id) (track s words i o e pid).log ≡ 0
    unpromised =
        ground (arith, tracked (promised s.next_id), inv.promising s.next_id, inv.fresh s.next_id)

pub exec-Inv :
    (s : ProcessState) (command : Option Bytes) (l : Launch) (resolve reject : ℕ)
    → Inv s
    → Room s
    → Inv (js_exec s command l resolve reject).0
unfolding js_exec
exec-Inv s none l resolve reject inv u = inv
exec-Inv s (some command) l resolve reject inv u =
    requested-Inv s words resolve reject (launch-Launches s words l) inv u
  where
    words : List Bytes
    words = map c_string (codes "sh" ∷ codes "-c" ∷ command ∷ [])
