-- ===== src/Pam/System/Steps.antt =====
-- Each step of pam/src/module.cpp keeps the invariant.
use koya_plugins.Base.{
  ℕ, ◌+◌, ◌^◌, ◌<◌, ◌≡◌, refl, inl, inr, Option, List, [], ◌∷◌, ◌++◌, arith, length, Bytes, entries,
  emplace_fresh, tally, tally-append, append-nil,
}
use koya_plugins.Pam.Types.{AuthRequest, PendingPromise}
use koya_plugins.Pam.Conversation.{erase_password}
use koya_plugins.Pam.Script.{
  Options, Answer, call, free_value, Effect, copy_password, moved, wipe, new_promise, settle_all,
  max_pending, enqueue, js_authenticate_cases, pam_update_open,
}
use koya_plugins.Pam.System.Accounting.{
  made, called, freed, promises_made, copies, wipes, left_behind, secrets, handed, returned,
  request_ids, settle_all-returned, wipes-erase_password, settle_all-called, settle_all-freed,
  settle_all-entries, settle_all-length, settle_all_quiet,
}
use koya_plugins.Pam.System.Invariant.{Inv}
use koya_plugins.Pam.System.{serving, World, authenticate, update}

-- The number of requests before the identifiers wrap around.
abbrev pub Unwrapped : World → Type 0
Unwrapped w = 1 + tally promises_made w.log < 2 ^ 32

module _ (w : World) (inv : Inv w) (serves : w.phase ≡ serving) where
  logs : (es : List Effect) (f : Effect → ℕ) → tally f (w.log ++ es) ≡ tally f w.log + tally f es
  logs es f = tally-append f w.log es

  refuse-Inv :
      (b : Bytes)
      → Inv (record w { log = w.log ++ copy_password b ∷ wipe b (erase_password b).0 ∷ [] })
  refuse-Inv b = record {
    numbered = ground (arith, inv.numbered, logs es promises_made);
    fresh = λ a h. ground (arith, inv.fresh a h, logs es (made a));
    once = λ a. ground (arith, inv.once a, logs es (made a));
    owned = λ a. ground (arith, inv.owned a, logs es (made a), logs es (freed a));
    answered = λ a.
        rw serves
          (ground (arith, (rw serves at (inv.answered a)), logs es (made a), logs es (called a)));
    tracked = inv.tracked;
    bounded = inv.bounded;
    balanced = λ f. omega (arith, inv.balanced f, logs es (handed f), logs es (returned f));
    covered = λ c.
        omega
          (arith, inv.covered c, logs es (copies c), logs es (wipes c), wipes-erase_password c b);
    left = λ c. omega (arith, inv.left c, logs es (left_behind c), logs es (copies c));
    agrees = inv.agrees;
  }
    where
      es : List Effect
      es = copy_password b ∷ wipe b (erase_password b).0 ∷ []

module _ (w : World) (inv : Inv w) (serves : w.phase ≡ serving) where
  fresh_entries : entries w.state.next_id w.state.promises ≡ 0
  fresh_entries = omega (arith, inv.owned w.state.next_id, inv.fresh w.state.next_id (omega arith))

  enqueue-Inv :
      (p : PendingPromise) (service user password : Bytes)
      → length w.state.promises < max_pending
      → 2 + tally promises_made w.log < 2 ^ 32
      → Inv (record w {
        state = (enqueue w.state p service user password).0;
        log =
            w.log
            ++ copy_password password
              ∷ new_promise w.state.next_id p
              ∷ moved password
              ∷ moved password
              ∷ [];
      })
  unfolding enqueue
  enqueue-Inv p service user password room small = record {
    numbered = ground (arith, inv.numbered, logs w inv serves es promises_made);
    fresh = λ a h. ground (arith, inv.numbered, inv.fresh a, logs w inv serves es (made a));
    once = λ a. ground (arith, inv.once a, inv.fresh a, logs w inv serves es (made a));
    owned = λ a. rw (emplace_fresh w.state.next_id p w.state.promises fresh_entries) (
        ground (arith, inv.owned a, logs w inv serves es (made a), logs w inv serves es (freed a)));
    answered = λ a. rw serves (
        rw (emplace_fresh w.state.next_id p w.state.promises fresh_entries) (
          ground (
            arith,
            (rw serves at (inv.answered a)),
            logs w inv serves es (made a),
            logs w inv serves es (called a),
          )));
    tracked = λ a.
        rw (emplace_fresh w.state.next_id p w.state.promises fresh_entries)
          (ground (arith, inv.tracked a, tally-append (request_ids a) w.state.requests (req ∷ [])));
    bounded = rw (emplace_fresh w.state.next_id p w.state.promises fresh_entries) (omega arith);
    balanced = λ f. rw (emplace_fresh w.state.next_id p w.state.promises fresh_entries) (
        omega (
          arith,
          inv.balanced f,
          logs w inv serves es (handed f),
          logs w inv serves es (returned f),
        ));
    covered = λ b. omega (
      arith,
      inv.covered b,
      logs w inv serves es (copies b),
      logs w inv serves es (wipes b),
      tally-append (secrets b) w.state.requests (req ∷ []),
    );
    left = λ b. omega (
      arith,
      inv.left b,
      logs w inv serves es (copies b),
      logs w inv serves es (left_behind b),
      tally-append (secrets b) w.state.requests (req ∷ []),
    );
    agrees = rw serves (rw serves at inv.agrees);
  }
    where
      es : List Effect
      es =
          copy_password password
          ∷ new_promise w.state.next_id p
          ∷ moved password
          ∷ moved password
          ∷ []

      req : AuthRequest
      req = record { id = w.state.next_id; service = service; user = user; password = password }

module _ (w : World) (inv : Inv w) (serves : w.phase ≡ serving) where
  pub authenticate-Inv :
      (p : PendingPromise) (o : Option Options)
      → Unwrapped (authenticate w p o)
      → Inv (authenticate w p o)
  unfolding authenticate
  authenticate-Inv p o u = elim (js_authenticate_cases w.state p o) [
    | inl e ↦ rw (e, append-nil w.log) inv
    | inr (inl (b, reply, e)) ↦ rw e (refuse-Inv w inv serves b)
    | inr (inr (room, service, user, password, e)) ↦
        rw e
          (enqueue-Inv w inv serves p service user password room (counted password p (rw e at u)))
  ]
    where
      counted :
          (password : Bytes) (p : PendingPromise)
          → 1
              + tally promises_made (
                  w.log
                  ++ copy_password password
                    ∷ new_promise w.state.next_id p
                    ∷ moved password
                    ∷ moved password
                    ∷ [])
            < 2 ^ 32
          → 2 + tally promises_made w.log < 2 ^ 32
      counted password p h = omega (
        arith,
        tally-append promises_made w.log (
            copy_password password
            ∷ new_promise w.state.next_id p
            ∷ moved password
            ∷ moved password
            ∷ []),
      )

  pub update-Inv : Inv (update w)
  unfolding update
  update-Inv = rw (pam_update_open w.state (rw serves at inv.agrees).1) (record {
    numbered = omega (
      arith,
      inv.numbered,
      logs w inv serves es promises_made,
      settle_all_quiet promises_made (λ i f a. refl) (λ i f. refl) w.state.results w.state.promises,
    );
    fresh = λ a h. omega (arith, inv.fresh a h, logs w inv serves es (made a), quiet a);
    once = λ a. omega (arith, inv.once a, logs w inv serves es (made a), quiet a);
    owned = λ a. omega (
      arith,
      inv.owned a,
      logs w inv serves es (made a),
      quiet a,
      logs w inv serves es (freed a),
      settle_all-freed a w.state.results w.state.promises,
    );
    answered = λ a. rw serves (
        omega (
          arith,
          (rw serves at (inv.answered a)),
          logs w inv serves es (made a),
          quiet a,
          logs w inv serves es (called a),
          settle_all-called a w.state.results w.state.promises,
        ));
    tracked =
        λ a. omega (arith, inv.tracked a, settle_all-entries a w.state.results w.state.promises);
    bounded = omega (arith, inv.bounded, settle_all-length w.state.results w.state.promises);
    balanced = λ f. omega (
      arith,
      inv.balanced f,
      logs w inv serves es (handed f),
      logs w inv serves es (returned f),
      no (handed f) (λ i g a. refl) (λ i g. refl),
      settle_all-returned f w.state.results w.state.promises,
    );
    covered = λ b. omega (
      arith,
      inv.covered b,
      logs w inv serves es (copies b),
      logs w inv serves es (wipes b),
      no (copies b) (λ i f a. refl) (λ i f. refl),
      no (wipes b) (λ i f a. refl) (λ i f. refl),
    );
    left = λ b. omega (
      arith,
      inv.left b,
      logs w inv serves es (copies b),
      logs w inv serves es (left_behind b),
      no (copies b) (λ i f a. refl) (λ i f. refl),
      no (left_behind b) (λ i f a. refl) (λ i f. refl),
    );
    agrees = rw serves (rw serves at inv.agrees);
  })
    where
      es : List Effect
      es = (settle_all w.state.results w.state.promises).1

      no :
          (v : Effect → ℕ)
          → ((id f : ℕ) (answer : Answer) → v (call id f answer) ≡ 0)
          → ((id f : ℕ) → v (free_value id f) ≡ 0)
          → tally v es ≡ 0
      no v c f = settle_all_quiet v c f w.state.results w.state.promises

      quiet : (a : ℕ) → tally (made a) es ≡ 0
      quiet a =
          settle_all_quiet (made a) (λ i f b. refl) (λ i f. refl) w.state.results w.state.promises
