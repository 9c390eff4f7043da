-- ===== src/Process/Shutdown/Reaping.antt =====
-- The waiting loop of the shutdown of process/src/module.cpp ends.
use koya_plugins.Base.{
  ℕ, zero, suc, ◌+◌, ◌*◌, ◌≤◌, ◌≡◌, refl, Bool, true, false, some, List, [], ◌∷◌, ◌++◌, arith,
  Table, entries, tally, tally-append, Bool-cases, inl, inr, ltb, if◌then◌else◌, ◌==◌,
}
use koya_plugins.Process.Types.{ChildProcess, Effect, reaps}
use koya_plugins.Process.Shutdown.{Answers, patience, wait_loop, end_child, rounds, reap_all}
use koya_plugins.Process.System.Accounting.{reaped}

-- Each round sleeps for ten milliseconds at least.
abbrev pub Advances : Answers → Type 0
Advances r = (k : ℕ) → r.clock k + 10 ≤ r.clock (k + 1)

wait_loop_ends :
    (fuel : ℕ) (r : Answers) (k : ℕ)
    → Advances r
    → patience ≤ r.clock k + 10 * fuel
    → (done : Bool) × (wait_loop (suc fuel) r k ≡ some done)
unfolding wait_loop
wait_loop_ends zero r k a h = elim (Bool-cases (r.running k)) [
  | inl e ↦ (false, rw (e, late) refl)
  | inr e ↦ (true, rw e refl)
]
  where
    late : ltb (r.clock k) patience ≡ false
    late = ground arith
wait_loop_ends (suc fuel) r k a h = elim (Bool-cases (r.running k)) [
  | inl e ↦ elim (Bool-cases (ltb (r.clock k) patience)) [
    | inl early ↦
        let (done, more) = wait_loop_ends fuel r (k + 1) a (omega (arith, h, a k)) in
        (done, rw (e, early) more)
    | inr late ↦ (false, rw (e, late) refl)
  ]
  | inr e ↦ (true, rw e refl)
]

-- The waiting for one child ends within the rounds that are given.
pub wait_loop-rounds :
    (r : Answers) → Advances r → (done : Bool) × (wait_loop rounds r 0 ≡ some done)
wait_loop-rounds r a = wait_loop_ends 50 r 0 a (omega arith)

end_child-reaped :
    (a id pid : ℕ) (r : Answers) (done : Bool)
    → tally (reaped a) (end_child id pid r done) ≡ (if id == a then 1 else 0)
unfolding end_child
end_child-reaped a id pid r true = omega arith
end_child-reaped a id pid r false = elim (Bool-cases r.runs_on) [
  | inl e ↦ rw (e, end_child) (omega arith)
  | inr e ↦ rw (e, end_child) (omega arith)
]

-- The counts that the reaping leaves alone.
end_child_silent :
    (w : Effect → ℕ)
    → ((id : ℕ) → w (reaps id) ≡ 0)
    → ((pid signal : ℕ) → w (Effect.kills pid signal) ≡ 0)
    → (id pid : ℕ) (r : Answers) (done : Bool) → tally w (end_child id pid r done) ≡ 0
unfolding end_child
end_child_silent w h k id pid r true = omega (arith, h id)
end_child_silent w h k id pid r false = elim (Bool-cases r.runs_on) [
  | inl e ↦ rw (e, end_child) (omega (arith, h id, k pid 9))
  | inr e ↦ rw (e, end_child) (omega (arith, h id))
]

-- All children are waited for, and each is reaped once.
pub record Reaps (processes : Table ChildProcess) (es : List Effect) : Type 0 where
  pub each : (a : ℕ) → tally (reaped a) es ≡ entries a processes
  pub silent :
      (w : Effect → ℕ)
      → ((id : ℕ) → w (reaps id) ≡ 0)
      → ((pid signal : ℕ) → w (Effect.kills pid signal) ≡ 0)
      → tally w es ≡ 0

pub reap_all-Reaps :
    (answers : ℕ → Answers) (processes : Table ChildProcess)
    → ((id : ℕ) → Advances (answers id))
    → (es : List Effect) × (reap_all answers processes ≡ some es) × Reaps processes es
unfolding reap_all
reap_all-Reaps answers [] a = ([], refl, record { each = λ b. refl; silent = λ w h k. refl })
reap_all-Reaps answers ((id, p) ∷ processes) a =
    let (done, ended) = wait_loop-rounds (answers id) (a id) in
    let (es, found, rest) = reap_all-Reaps answers processes a in
    let first = end_child id p.pid (answers id) done in
    (
      first ++ es,
      rw (ended, found, reap_all) refl,
      record {
        each = λ b. omega (
          arith,
          tally-append (reaped b) first es,
          end_child-reaped b id p.pid (answers id) done,
          rest.each b,
        );
        silent = λ w h k. omega (
          arith,
          tally-append w first es,
          end_child_silent w h k id p.pid (answers id) done,
          rest.silent w h k,
        );
      },
    )
