-- ===== src/Hypr/Jobs/Accounting.antt =====
-- What the settling loop of hypr/src/module.cpp takes from the tables and adds to the log.
use koya_plugins.Base.{
  ℕ, ◌+◌, ◌-◌, ◌*◌, ◌≤◌, ◌≡◌, refl, ap, ◌∙◌, Bool, Option, List, [], ◌∷◌, ◌++◌, arith, Bytes, Table,
  find, entries, find-entries, entries-erase, length, length-erase, tally, tally-append,
  tally-erase, ◌==◌, if◌then◌else◌, Option-cases, inl, inr,
}
use koya_plugins.Hypr.Types.{PendingPromise, JobResult}
use koya_plugins.Hypr.Jobs.{
  Effect, new_promise, join, call, free_value, join_worker, settle_one, settle_all,
}

abbrev pub one_if : Bool → ℕ
one_if b = if b then 1 else 0

-- Promises made, threads joined, calls made and functions freed under a job's number.
abbrev pub made : ℕ → Effect → ℕ
made a (new_promise id p) = one_if (id == a)
made a _ = 0

abbrev pub joined : ℕ → Effect → ℕ
joined a (join id) = one_if (id == a)
joined a _ = 0

abbrev pub called : ℕ → Effect → ℕ
called a (call id f v) = one_if (id == a)
called a _ = 0

abbrev pub freed : ℕ → Effect → ℕ
freed a (free_value id f) = one_if (id == a)
freed a _ = 0

-- How often a function `f` was handed to the plugin, was freed, and stands in the table.
abbrev pub uses : ℕ → PendingPromise → ℕ
uses f p = one_if (p.resolve == f) + one_if (p.reject == f)

abbrev pub handed : ℕ → Effect → ℕ
handed f (new_promise id p) = uses f p
handed f _ = 0

abbrev pub returned : ℕ → Effect → ℕ
returned f (free_value id g) = one_if (g == f)
returned f _ = 0

abbrev pub keeps : ℕ → ℕ × PendingPromise → ℕ
keeps f (id, p) = uses f p

abbrev pub promises_made : Effect → ℕ
promises_made (new_promise id p) = 1
promises_made _ = 0

abbrev pub result_ids : ℕ → JobResult → ℕ
result_ids a r = one_if (r.id == a)

abbrev pub same_id : ℕ → ℕ → ℕ
same_id a id = one_if (id == a)

-- One turn of the loop on the threads.
abbrev Joins : ℕ → ℕ → Table (Unit {0}) → Table (Unit {0}) × List Effect → Type 0
Joins a id t r =
    (entries a r.0 ≡ entries a t - same_id a id)
    × (tally (joined a) r.1 + entries a r.0 ≡ entries a t)
    × (tally (made a) r.1 ≡ 0)
    × (tally (called a) r.1 ≡ 0)
    × (tally (freed a) r.1 ≡ 0)
    × (tally promises_made r.1 ≡ 0)
    × (tally (handed a) r.1 ≡ 0)
    × (tally (returned a) r.1 ≡ 0)

join_worker-Joins : (a id : ℕ) (t : Table (Unit {0})) → Joins a id t (join_worker id t)
unfolding join_worker
join_worker-Joins a id t = elim (Option-cases (find id t)) [
  | inl e ↦
      rw (e, join_worker)
        (ground (arith, find-entries id a t e), omega arith, refl, refl, refl, refl, refl, refl)
  | inr (v, e) ↦
      rw (e, join_worker)
        (
          ground (arith, entries-erase id a t v e),
          ground (arith, entries-erase id a t v e),
          refl,
          refl,
          refl,
          refl,
          refl,
          refl,
        )
]

-- One turn of the loop on the promises.
abbrev Settles : ℕ → ℕ → Table PendingPromise → Table PendingPromise × List Effect → Type 0
Settles a id t r =
    (entries a r.0 ≡ entries a t - same_id a id)
    × (tally (called a) r.1 + entries a r.0 ≡ entries a t)
    × (tally (freed a) r.1 + 2 * entries a r.0 ≡ 2 * entries a t)
    × (tally (made a) r.1 ≡ 0)
    × (tally (joined a) r.1 ≡ 0)
    × (tally promises_made r.1 ≡ 0)
    × (length r.0 ≤ length t)
    × (tally (handed a) r.1 ≡ 0)
    × (tally (returned a) r.1 + tally (keeps a) r.0 ≡ tally (keeps a) t)

settle_one-Settles :
    (parse : Bytes → Option ℕ) (a : ℕ) (r : JobResult) (t : Table PendingPromise)
    → Settles a r.id t (settle_one parse r t)
unfolding settle_one
settle_one-Settles parse a r t = elim (Option-cases (find r.id t)) [
  | inl e ↦
      rw (e, settle_one)
        (
          ground (arith, find-entries r.id a t e),
          omega arith,
          omega arith,
          refl,
          refl,
          refl,
          omega arith,
          refl,
          omega arith,
        )
  | inr (p, e) ↦
      rw (e, settle_one)
        (
          ground (arith, entries-erase r.id a t p e),
          ground (arith, entries-erase r.id a t p e),
          ground (arith, entries-erase r.id a t p e),
          refl,
          refl,
          refl,
          omega (arith, length-erase r.id t p e),
          refl,
          omega (arith, tally-erase (keeps a) r.id t p e),
        )
]

-- The loop over the completed jobs.
pub record Completes (a : ℕ) (completed : List JobResult) (threads threads' : Table (Unit {0}))
    (promises promises' : Table PendingPromise) (es : List Effect) : Type 0 where
  pub threads_left : entries a threads' ≡ entries a threads - tally (result_ids a) completed
  pub threads_joined : tally (joined a) es + entries a threads' ≡ entries a threads
  pub promises_left : entries a promises' ≡ entries a promises - tally (result_ids a) completed
  pub promises_called : tally (called a) es + entries a promises' ≡ entries a promises
  pub promises_freed : tally (freed a) es + 2 * entries a promises' ≡ 2 * entries a promises
  pub none_handed : tally (handed a) es ≡ 0
  pub functions_returned :
      tally (returned a) es + tally (keeps a) promises' ≡ tally (keeps a) promises
  pub none_made : tally (made a) es ≡ 0
  pub none_counted : tally promises_made es ≡ 0
  pub smaller : length promises' ≤ length promises

pub settle_all-Completes :
    (parse : Bytes → Option ℕ) (a : ℕ) (completed : List JobResult) (threads : Table (Unit {0}))
    (promises : Table PendingPromise)
    → let r = settle_all parse completed threads promises in
      Completes a completed threads r.0 promises r.1 r.2
unfolding settle_all
settle_all-Completes parse a [] threads promises = omega arith
settle_all-Completes parse a (r ∷ completed) threads promises =
    let j = join_worker-Joins a r.id threads in
    let s = settle_one-Settles parse a r promises in
    let rest =
      settle_all-Completes parse a completed (join_worker r.id threads).0
        (settle_one parse r promises).0 in
    record {
      threads_left = omega (arith, j.0, rest.threads_left);
      threads_joined = omega (arith, j.1, s.4, rest.threads_joined, parts (joined a));
      promises_left = omega (arith, s.0, rest.promises_left);
      promises_called = omega (arith, s.1, j.3, rest.promises_called, parts (called a));
      promises_freed = omega (arith, s.2, j.4, rest.promises_freed, parts (freed a));
      none_handed = omega (arith, s.7, j.6, rest.none_handed, parts (handed a));
      functions_returned = omega (arith, s.8, j.7, rest.functions_returned, parts (returned a));
      none_made = omega (arith, s.3, j.2, rest.none_made, parts (made a));
      none_counted = omega (arith, s.5, j.5, rest.none_counted, parts promises_made);
      smaller = omega (arith, s.6, rest.smaller);
    }
  where
    first : List Effect
    first = (join_worker r.id threads).1

    second : List Effect
    second = (settle_one parse r promises).1

    others : List Effect
    others =
        (settle_all parse completed (join_worker r.id threads).0 (settle_one parse r promises).0).2

    parts :
        (f : Effect → ℕ)
        → tally f (first ++ (second ++ others)) ≡ tally f first + (tally f second + tally f others)
    parts f =
        tally-append f first (second ++ others)
        ∙ ap (λ n. tally f first + n) (tally-append f second others)
