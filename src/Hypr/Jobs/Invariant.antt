-- ===== src/Hypr/Jobs/Invariant.antt =====
-- What holds of the jobs of hypr/src/module.cpp between any two events.
use koya_plugins.Base.{
  ℕ, ◌+◌, ◌*◌, ◌^◌, ◌<◌, ◌≤◌, ◌≡◌, refl, ap, true, Option, none, some, List, [], ◌∷◌, ◌++◌, arith,
  Bytes, emplace, entries, emplace_fresh, length, tally, tally-append,
}
use koya_plugins.Hypr.Types.{PendingPromise}
use koya_plugins.Hypr.Socket.{Received}
use koya_plugins.Hypr.Jobs.{
  Jobs, Effect, new_promise, max_pending, start_job, job_result, finish_job, remove_id, is_at_work,
  settle_all, update, no_jobs,
}
use koya_plugins.Hypr.Jobs.Accounting.{
  made, joined, called, freed, handed, returned, keeps, promises_made, result_ids, same_id,
  Completes, settle_all-Completes,
}

-- Before the numbers wrap around.
abbrev pub Unwrapped : Jobs → Type 0
Unwrapped s = 1 + tally promises_made s.log < 2 ^ 32

pub record Inv (s : Jobs) : Type 0 where
  pub numbered : s.next_job_id ≡ 1 + tally promises_made s.log
  pub fresh : (a : ℕ) → s.next_job_id ≤ a → tally (made a) s.log ≡ 0
  pub once : (a : ℕ) → tally (made a) s.log ≤ 1
  pub answered : (a : ℕ) → tally (called a) s.log + entries a s.promises ≡ tally (made a) s.log
  pub owned : (a : ℕ) → tally (freed a) s.log + 2 * entries a s.promises ≡ 2 * tally (made a) s.log
  pub balanced :
      (f : ℕ) → tally (returned f) s.log + tally (keeps f) s.promises ≡ tally (handed f) s.log
  pub threaded : (a : ℕ) → tally (joined a) s.log + entries a s.threads ≡ tally (made a) s.log
  pub paired : (a : ℕ) → entries a s.threads ≡ entries a s.promises
  pub tracked :
      (a : ℕ) → entries a s.promises ≡ tally (same_id a) s.at_work + tally (result_ids a) s.results
  pub bounded : length s.promises ≤ max_pending

pub Inv-no_jobs : Inv no_jobs
Inv-no_jobs = record {
  numbered = refl;
  fresh = λ a h. refl;
  once = λ a. omega arith;
  answered = λ a. refl;
  owned = λ a. refl;
  balanced = λ f. refl;
  threaded = λ a. refl;
  paired = λ a. refl;
  tracked = λ a. refl;
  bounded = omega arith;
}

module _ (s : Jobs) (inv : Inv s) where
  pub start_job-Inv :
      (p : PendingPromise)
      → length s.promises < max_pending
      → 2 + tally promises_made s.log < 2 ^ 32
      → Inv (start_job s p)
  unfolding start_job
  start_job-Inv p room small =
      rw (new_entry, new_thread)
        (record {
          numbered = ground (arith, inv.numbered, logs promises_made);
          fresh = λ a h. ground (arith, inv.numbered, inv.fresh a, logs (made a));
          once = λ a. ground (arith, inv.once a, inv.fresh a, logs (made a));
          answered = λ a. ground (arith, inv.answered a, logs (made a), logs (called a));
          owned = λ a. ground (arith, inv.owned a, logs (made a), logs (freed a));
          balanced = λ f. omega (arith, inv.balanced f, logs (handed f), logs (returned f));
          threaded = λ a. ground (arith, inv.threaded a, logs (made a), logs (joined a));
          paired = λ a. ground (arith, inv.paired a);
          tracked = λ a.
              ground
                (arith, inv.tracked a, tally-append (same_id a) s.at_work (s.next_job_id ∷ []));
          bounded = room;
        })
    where
      logs :
          (f : Effect → ℕ)
          → tally f (s.log ++ new_promise s.next_job_id p ∷ [])
            ≡ tally f s.log + tally f (new_promise s.next_job_id p ∷ [])
      logs f = tally-append f s.log _

      no_entry : entries s.next_job_id s.promises ≡ 0
      no_entry = omega (arith, inv.answered s.next_job_id, inv.fresh s.next_job_id (omega arith))

      new_entry : emplace s.next_job_id p s.promises ≡ (s.next_job_id, p) ∷ s.promises
      new_entry = emplace_fresh s.next_job_id p s.promises no_entry

      new_thread : emplace s.next_job_id tt s.threads ≡ (s.next_job_id, tt) ∷ s.threads
      new_thread =
          emplace_fresh s.next_job_id tt s.threads
            (omega (arith, no_entry, inv.paired s.next_job_id))

  pub update-Inv : (parse : Bytes → Option ℕ) → Inv (update parse s)
  unfolding update
  update-Inv parse = record {
    numbered = omega (arith, inv.numbered, logs promises_made, (done 0).none_counted);
    fresh = λ a h. omega (arith, inv.fresh a h, logs (made a), (done a).none_made);
    once = λ a. omega (arith, inv.once a, logs (made a), (done a).none_made);
    answered = λ a. omega (
      arith,
      inv.answered a,
      logs (made a),
      logs (called a),
      (done a).none_made,
      (done a).promises_called,
    );
    owned = λ a. omega (
      arith,
      inv.owned a,
      logs (made a),
      logs (freed a),
      (done a).none_made,
      (done a).promises_freed,
    );
    balanced = λ f. omega (
      arith,
      inv.balanced f,
      logs (handed f),
      logs (returned f),
      (done f).none_handed,
      (done f).functions_returned,
    );
    threaded = λ a. omega (
      arith,
      inv.threaded a,
      logs (made a),
      logs (joined a),
      (done a).none_made,
      (done a).threads_joined,
    );
    paired = λ a. omega (arith, inv.paired a, (done a).threads_left, (done a).promises_left);
    tracked = λ a. omega (arith, inv.tracked a, (done a).promises_left);
    bounded = omega (arith, inv.bounded, (done 0).smaller);
  }
    where
      done :
          (a : ℕ)
          → let r = settle_all parse s.results s.threads s.promises in
            Completes a s.results s.threads r.0 s.promises r.1 r.2
      done a = settle_all-Completes parse a s.results s.threads s.promises

      logs :
          (f : Effect → ℕ)
          → tally f (s.log ++ (settle_all parse s.results s.threads s.promises).2)
            ≡ tally f s.log + tally f (settle_all parse s.results s.threads s.promises).2
      logs f = tally-append f s.log _

remove_id-tally :
    (a id : ℕ) (ids : List ℕ)
    → is_at_work id ids ≡ true
    → tally (same_id a) (remove_id id ids) + same_id a id ≡ tally (same_id a) ids
unfolding remove_id is_at_work
remove_id-tally a id [] h = cc
remove_id-tally a id (j ∷ ids) h = ground (arith, remove_id-tally a id ids)

pub finish_job-Inv :
    (s : Jobs) (id : ℕ) (received : Option Received)
    → Inv s
    → is_at_work id s.at_work ≡ true
    → Inv (finish_job s id received)
unfolding finish_job job_result
finish_job-Inv s id received inv h = record {
  numbered = inv.numbered;
  fresh = inv.fresh;
  once = inv.once;
  answered = inv.answered;
  owned = inv.owned;
  balanced = inv.balanced;
  threaded = inv.threaded;
  paired = inv.paired;
  tracked = λ a. omega (
    arith,
    inv.tracked a,
    remove_id-tally a id s.at_work h,
    tally-append (result_ids a) s.results (job_result id received ∷ []),
    ap (same_id a) (result_id id received),
  );
  bounded = inv.bounded;
}
  where
    result_id : (id : ℕ) (received : Option Received) → (job_result id received).id ≡ id
    result_id id none = refl
    result_id id (some r) = refl
