-- ===== src/Http/Requests/Promises.antt =====
-- What is known of the promise of one identifier in http/src/module.cpp, and how it is made and settled.
use koya_plugins.Base.{
  ℕ, ◌+◌, ◌^◌, ◌<◌, ◌≤◌, ◌≡◌, sym, ap, ◌∙◌, subst, Bool, true, false, some, List, [], ◌∷◌, ◌++◌,
  arith, Table, find, erase, replace, entries, entries-erase, entries-replace, find_present,
  find-replace, find-replace_other, tally, tally-append, ◌==◌, if◌then◌else◌, Bool-cases, ◌⊎◌, inl,
  inr,
}
use koya_plugins.Http.Types.{Job}
use koya_plugins.Http.Requests.{
  RequestPromiseContext, Effect, made, called, freed_resolve, freed_reject, HttpContext,
  release_effects, call_effect,
}

abbrev pub one_if : Bool → ℕ
one_if b = if b then 1 else 0

-- How often the promise of an identifier is made, settled and released.
abbrev pub makes : ℕ → Effect → ℕ
makes a (made id) = one_if (id == a)
makes a e = 0

abbrev pub settles : ℕ → Effect → ℕ
settles a (called id function result) = one_if (id == a)
settles a e = 0

abbrev pub frees_resolve : ℕ → Effect → ℕ
frees_resolve a (freed_resolve id function) = one_if (id == a)
frees_resolve a e = 0

abbrev pub frees_reject : ℕ → Effect → ℕ
frees_reject a (freed_reject id function) = one_if (id == a)
frees_reject a e = 0

abbrev pub promises_made : Effect → ℕ
promises_made (made id) = 1
promises_made e = 0

-- Before the identifiers wrap around.
abbrev pub Within : List Effect → Type 0
Within log = 1 + tally promises_made log < 2 ^ 64

-- What is known of the promise with one identifier.
pub record At (a next : ℕ) (pending : Table ℕ) (promises : Table RequestPromiseContext)
    (log : List Effect) : Type 0 where
  pub fresh : next ≤ a → tally (makes a) log ≡ 0
  pub once : tally (makes a) log ≤ 1
  pub known : entries a promises ≡ tally (makes a) log
  pub split : tally (settles a) log + entries a pending ≡ tally (makes a) log
  pub resolves : tally (frees_resolve a) log ≡ tally (settles a) log
  pub rejects : tally (frees_reject a) log ≡ tally (settles a) log
  pub unreleased :
      (p : RequestPromiseContext)
      → find a promises ≡ some p
      → one_if p.released + entries a pending ≡ 1

pub record Inv (next : ℕ) (pending : Table ℕ) (promises : Table RequestPromiseContext)
    (log : List Effect) : Type 0 where
  pub counted : next ≡ 1 + tally promises_made log
  pub at : (a : ℕ) → At a next pending promises log

abbrev pub Ok : HttpContext → Type 0
Ok s = Within s.log → Inv s.next_request_id s.pending s.promises s.log

pub release-tally :
    (w : Effect → ℕ) (log : List Effect) (k : ℕ) (p : RequestPromiseContext)
    → p.released ≡ false
    → tally w (log ++ release_effects k p)
      ≡ tally w log + w (freed_resolve k p.resolve) + w (freed_reject k p.reject)
release-tally w log k p fresh =
    rw fresh
      (omega (arith, tally-append w log (freed_resolve k p.resolve ∷ freed_reject k p.reject ∷ [])))

pub settle-tally :
    (w : Effect → ℕ) (log : List Effect) (c : Effect) (k : ℕ) (p : RequestPromiseContext)
    → p.released ≡ false
    → tally w ((log ++ c ∷ []) ++ release_effects k p)
      ≡ tally w log + w c + w (freed_resolve k p.resolve) + w (freed_reject k p.reject)
settle-tally w log c k p fresh =
    omega (arith, release-tally w (log ++ c ∷ []) k p fresh, tally-append w log (c ∷ []))

-- A promise that is released, and those beside it.
pub released-unreleased :
    (k a : ℕ) (promises : Table RequestPromiseContext) (p q : RequestPromiseContext)
    → find k promises ≡ some p
    → find a (replace k (record p { released = true }) promises) ≡ some q
    → ((k == a) ≡ true × q.released ≡ true) ⊎ ((k == a) ≡ false × find a promises ≡ some q)
released-unreleased k a promises p q e h = elim (Bool-cases (k == a)) [
  | inl same ↦
      let eq : k ≡ a = ground arith in
      let was : record p { released = true } ≡ q =
        cc (find-replace k promises p (record p { released = true }) e, h, eq) in
      inl (same, ap (λ r. r.released) (sym was))
  | inr other ↦
      inr (other, sym (find-replace_other k a promises (record p { released = true }) other) ∙ h)
]

-- A settlement.
pub settled-At :
    (a next : ℕ) (pending : Table ℕ) (promises : Table RequestPromiseContext) (log : List Effect)
    (p : RequestPromiseContext) (job : Job)
    → find job.complete promises ≡ some p
    → p.released ≡ false
    → entries job.complete pending ≡ 1
    → At a next pending promises log
    → At a next
        (erase job.complete pending)
        (replace job.complete (record p { released = true }) promises)
        ((log ++ call_effect job p ∷ []) ++ release_effects job.complete p)
settled-At a next pending promises log p job e fresh one at_a = record {
  fresh = λ le. omega (arith, sums (makes a), at_a.fresh le);
  once = omega (arith, sums (makes a), at_a.once);
  known = omega (
    arith,
    sums (makes a),
    at_a.known,
    entries-replace job.complete a (record p { released = true }) promises,
  );
  split = omega (arith, sums (makes a), sums (settles a), at_a.split, gone);
  resolves = omega (arith, sums (frees_resolve a), sums (settles a), at_a.resolves);
  rejects = omega (arith, sums (frees_reject a), sums (settles a), at_a.rejects);
  unreleased = λ q h. elim (released-unreleased job.complete a promises p q e h) [
    | inl (same, released) ↦
        let eq : job.complete ≡ a = ground arith in
        let here : entries a pending ≡ 1 = subst (λ k. entries k pending ≡ 1) eq one in
        rw released (ground (arith, gone, same, here))
    | inr (other, was) ↦ ground (arith, at_a.unreleased q was, gone, other)
  ];
}
  where
    sums :
        (w : Effect → ℕ)
        → tally w ((log ++ call_effect job p ∷ []) ++ release_effects job.complete p)
          ≡ tally w log
            + w (call_effect job p)
            + w (freed_resolve job.complete p.resolve)
            + w (freed_reject job.complete p.reject)
    sums w = settle-tally w log (call_effect job p) job.complete p fresh

    gone :
        entries a (erase job.complete pending) + (if job.complete == a then 1 else 0)
        ≡ entries a pending
    gone =
        let (v, found) = find_present job.complete pending (omega (arith, one)) in
        entries-erase job.complete a pending v found
