-- ===== src/Pam/System/Safety.antt =====
-- What callers of the plugin of pam/src/module.cpp may rely on in every reachable state.
use koya_plugins.Base.{ℕ, Bytes, ◌+◌, ◌*◌, ◌≤◌, ◌≡◌, ap, length, entries, tally, arith}
use koya_plugins.Pam.Types.{PamLib}
use koya_plugins.Pam.Script.{max_pending}
use koya_plugins.Pam.System.Accounting.{
  made, called, freed, copies, wipes, left_behind, secrets, handed, returned, keeps, result_ids,
  request_ids,
}
use koya_plugins.Pam.System.Invariant.{Inv, held_secrets, held_ids}
use koya_plugins.Pam.System.Steps.{Unwrapped}
use koya_plugins.Pam.System.Reachable.{Reach-Inv}
use koya_plugins.Pam.System.{World, serving, stopped, Reach}

module _ {lib : PamLib} {w : World} (r : Reach lib w) (unwrapped : Unwrapped w) where
  inv : Inv w
  inv = Reach-Inv r unwrapped

  -- While the plugin serves, and before the identifiers wrap around, an identifier stands for at
  -- most one promise, and a promise that was handed out is either still in the table or had exactly
  -- one of its functions called: never both, never twice, never neither.
  pub settled_once :
      w.phase ≡ serving
      → (id : ℕ)
      → (tally (made id) w.log ≤ 1)
        × (tally (called id) w.log + entries id w.state.promises ≡ tally (made id) w.log)
  settled_once serves id = (inv.once id, rw serves at (inv.answered id))

  -- Before the identifiers wrap around, each pending promise has its request in exactly one place:
  -- in the queue, with the worker, or among the results. None is lost, and no place holds work for
  -- a promise that is gone.
  pub pending_tracked :
      (id : ℕ)
      → entries id w.state.promises
        ≡ tally (request_ids id) w.state.requests
          + held_ids id w.worker
          + tally (result_ids id) w.state.results
  pending_tracked = inv.tracked

  -- Before the identifiers wrap around, at most sixteen promises are pending. For each text: each
  -- string that a password of this text was read into, followed through its moves, was overwritten
  -- with zeros, of the whole length of the text, or belongs to a request with this password that is in
  -- the queue or with the worker. The strings that such a password was moved out of, which are not
  -- overwritten, are at most three for each that it was read into.
  pub passwords_covered :
      (length w.state.promises ≤ max_pending)
      × ((b : Bytes)
          → (tally (copies b) w.log
              ≡ tally (wipes b) w.log
                + tally (secrets b) w.state.requests
                + held_secrets b w.worker)
            × (tally (left_behind b) w.log ≤ 3 * tally (copies b) w.log))
  passwords_covered = (inv.bounded, λ b. (inv.covered b, omega (arith, inv.left b)))

  -- Once shutdown is over, and if the identifiers did not wrap around, two frees were made for every
  -- promise ever handed out and at most one of its functions was called; each function value was freed
  -- exactly as often as it was handed over as a resolving or a rejecting function; and for each text,
  -- each string that a password of this text was read into, followed through its moves, was overwritten
  -- with zeros.
  pub shutdown_releases :
      w.phase ≡ stopped
      → ((id : ℕ)
          → (tally (freed id) w.log ≡ 2 * tally (made id) w.log) × (tally (called id) w.log ≤ 1))
        × ((f : ℕ) → tally (returned f) w.log ≡ tally (handed f) w.log)
        × ((b : Bytes) → tally (copies b) w.log ≡ tally (wipes b) w.log)
  shutdown_releases stops = (
    λ id. (
      omega (arith, inv.owned id, ap (entries id) empty),
      omega (arith, (rw stops at (inv.answered id)), inv.once id),
    ),
    λ f. omega (arith, inv.balanced f, ap (tally (keeps f)) empty),
    λ b. omega (arith, inv.covered b, ap (tally (secrets b)) idle, ap (held_secrets b) gone),
  )
    where
      open (rw stops at inv.agrees) use {«1» as gone, «2» as idle, «4» as empty}
