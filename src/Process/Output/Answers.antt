-- ===== src/Process/Output/Answers.antt =====
-- What process/src/module.cpp hands over when it settles promises.
use koya_plugins.Base.{
  ℕ, ◌≤◌, ◌≡◌, refl, ◌∙◌, some, List, [], ◌∷◌, arith, Bytes, Table, find, find-erase, erase,
  entries, entries-erase, All, tally, Option-cases, Bool-cases, inl, inr,
}
use koya_plugins.Process.Types.{ExecRequest, Effect, settles, Outcome, output, failure}
use koya_plugins.Process.Update.{Final, outcome, release_requests, finish_all}
use koya_plugins.Process.System.Accounting.{Mute, Still}
use koya_plugins.Process.Output.{is_read}
use koya_plugins.Process.Output.Collected.{Complete}

-- A request that is left was there.
pub release_requests-find :
    (finals : List Final) (requests : Table ExecRequest) (a : ℕ) (r : ExecRequest)
    → ((i : ℕ) → entries i requests ≤ 1)
    → find a (release_requests finals requests).0 ≡ some r
    → find a requests ≡ some r
unfolding release_requests find
release_requests-find [] requests a r once h = h
release_requests-find (f ∷ finals) requests a r once h = elim (Option-cases (find f.id requests)) [
  | inl e ↦ release_requests-find finals requests a r once (rw (e, release_requests) at h)
  | inr (x, e) ↦ find-erase f.id a requests r (once f.id) (
      release_requests-find finals (erase f.id requests) a r
        (λ i. omega (arith, once i, entries-erase f.id i requests x e))
        (rw (e, release_requests) at h))
]

abbrev pub stdout_of : Outcome → Bytes
stdout_of (output out err) = out
stdout_of (failure code out err) = out

abbrev pub stderr_of : Outcome → Bytes
stderr_of (output out err) = err
stderr_of (failure code out err) = err

-- If an effect settles a promise, it hands over the output that is known under its number.
pub Answered : (ℕ → Bytes) → (ℕ → Bytes) → Effect → Type 0
Answered O E (settles id f o) = (stdout_of o ≡ O id) × (stderr_of o ≡ E id)
Answered O E _ = Unit

abbrev pub is_settlement : Effect → ℕ
is_settlement (settles id f o) = 1
is_settlement _ = 0

module _ (O E : ℕ → Bytes) where
  unsettled_one : (e : Effect) → is_settlement e ≡ 0 → Answered O E e
  unfolding Answered
  unsettled_one (settles id f o) h = absurd (omega (arith, h))
  unsettled_one e h = tt

  pub unsettled : (es : List Effect) → tally is_settlement es ≡ 0 → All (Answered O E) es
  unsettled [] h = tt
  unsettled (e ∷ es) h = (unsettled_one e (omega (arith, h)), unsettled es (omega (arith, h)))

  outcome-texts : (f : Final) → (stdout_of (outcome f) ≡ f.out) × (stderr_of (outcome f) ≡ f.err)
  unfolding outcome
  outcome-texts f = elim (Bool-cases f.ok) [
    | inl e ↦ rw (e, outcome) (refl, refl)
    | inr e ↦ rw (e, outcome) (refl, refl)
  ]

  pub finish_all-Answered :
      (finals : List Final) → All (Complete O E) finals → All (Answered O E) (finish_all finals)
  unfolding finish_all Answered
  finish_all-Answered [] h = tt
  finish_all-Answered (f ∷ finals) (whole, rest) =
      let texts = outcome-texts f in
      ((texts.0 ∙ whole.0, texts.1 ∙ whole.1), (tt, (tt, finish_all-Answered finals rest)))

pub reads-Still : Still is_read
reads-Still = record { on_call = λ f e. refl; on_duplicate = λ f. refl; on_free = λ f. refl }

pub settles-Mute : Mute is_settlement
settles-Mute = record {
  on_out = λ id b. refl;
  on_err = λ id b. refl;
  on_call = λ f e. refl;
  on_duplicate = λ f. refl;
  on_free = λ f. refl;
}
