-- ===== src/Pam/System/Invariant.antt =====
-- What holds between any two steps of the two threads of pam/src/module.cpp.
use koya_plugins.Base.{
  ℕ, Bytes, bytes_eq, ◌+◌, ◌*◌, ◌≤◌, ◌≡◌, refl, ◌≢◌, true, false, [], arith, length, entries, tally,
  ◌==◌,
}
use koya_plugins.Pam.Types.{PamState}
use koya_plugins.Pam.Script.{max_pending}
use koya_plugins.Pam.System.Accounting.{
  made, called, freed, promises_made, copies, wipes, left_behind, secrets, handed, returned, keeps,
  one_if, result_ids, request_ids,
}
use koya_plugins.Pam.System.{Worker, exited, busy, Phase, serving, joining, stopped, World, initial}

-- The request that the worker holds.
abbrev pub held_ids : ℕ → Worker → ℕ
held_ids a (busy r) = one_if (r.id == a)
held_ids a _ = 0

abbrev pub held_secrets : Bytes → Worker → ℕ
held_secrets b (busy r) = one_if (bytes_eq r.password b)
held_secrets b _ = 0

-- What a phase says of the rest.
abbrev pub Agrees : PamState → Worker → Phase → Type 0
Agrees s worker serving = (s.running ≡ true) × (s.context ≡ true) × (worker ≢ exited)
Agrees s worker joining = (s.running ≡ false) × (s.context ≡ true)
Agrees s worker stopped =
    (s.running ≡ false)
    × (worker ≡ exited)
    × (s.requests ≡ [])
    × (s.results ≡ [])
    × (s.promises ≡ [])

-- A call for every promise that left the table, until shutdown drops the rest.
abbrev pub Called : ℕ → World → Phase → Type 0
Called a w stopped = tally (called a) w.log ≤ tally (made a) w.log
Called a w _ = tally (called a) w.log + entries a w.state.promises ≡ tally (made a) w.log

pub record Inv (w : World) : Type 0 where
  pub numbered : w.state.next_id ≡ 1 + tally promises_made w.log
  pub fresh : (a : ℕ) → w.state.next_id ≤ a → tally (made a) w.log ≡ 0
  pub once : (a : ℕ) → tally (made a) w.log ≤ 1
  pub owned :
      (a : ℕ) → tally (freed a) w.log + 2 * entries a w.state.promises ≡ 2 * tally (made a) w.log
  pub answered : (a : ℕ) → Called a w w.phase
  pub tracked :
      (a : ℕ)
      → entries a w.state.promises
        ≡ tally (request_ids a) w.state.requests
          + held_ids a w.worker
          + tally (result_ids a) w.state.results
  pub bounded : length w.state.promises ≤ max_pending
  pub balanced :
      (f : ℕ) → tally (returned f) w.log + tally (keeps f) w.state.promises ≡ tally (handed f) w.log
  pub covered :
      (b : Bytes)
      → tally (copies b) w.log
        ≡ tally (wipes b) w.log + tally (secrets b) w.state.requests + held_secrets b w.worker
  pub left :
      (b : Bytes)
      → tally (left_behind b) w.log + tally (secrets b) w.state.requests
        ≤ 3 * tally (copies b) w.log
  pub agrees : Agrees w.state w.worker w.phase

pub Inv-initial : Inv initial
Inv-initial = record {
  numbered = refl;
  fresh = λ a h. refl;
  once = λ a. omega arith;
  owned = λ a. refl;
  answered = λ a. refl;
  tracked = λ a. refl;
  bounded = omega arith;
  balanced = λ f. refl;
  covered = λ b. refl;
  left = λ b. omega arith;
  agrees = (refl, refl, λ e. cc);
}
