-- ===== src/Process/Output.antt =====
-- What process/src/module.cpp has read from its children, and what it hands over of it.
pub mod Collected
pub mod Rounds
pub mod Calls
pub mod Known
pub mod Answers
pub mod Delivery
pub mod Truthful
use koya_plugins.Base.{
  ℕ, ◌+◌, ◌≡◌, refl, ap, sym, ◌∙◌, Bool, true, false, Option, none, some, List, [], ◌∷◌, ◌++◌, map,
  append_assoc, append-nil, arith, Bytes, tally, ◌==◌, if◌then◌else◌, Bool-cases, inl, inr,
}
use koya_plugins.Process.Types.{
  Effect, reads_stdout, reads_stderr, settles, Outcome, output, failure,
}
use koya_plugins.Process.Update.{Poll, concat, io_effects}

-- The bytes that were read from the two pipes of a child.
unfoldable pub chunk_out : ℕ → Effect → Bytes
chunk_out a (reads_stdout id b) = if id == a then b else []
chunk_out a _ = []

pub chunk_err : ℕ → Effect → Bytes
chunk_err a (reads_stderr id b) = if id == a then b else []
chunk_err a _ = []

-- All that a list of effects read, one of the two pipes chosen by `chunk`.
unfoldable pub gathered_by : (Effect → Bytes) → List Effect → Bytes
gathered_by chunk [] = []
gathered_by chunk (e ∷ es) = chunk e ++ gathered_by chunk es

pub gathered_by-append :
    (chunk : Effect → Bytes) (xs ys : List Effect)
    → gathered_by chunk (xs ++ ys) ≡ gathered_by chunk xs ++ gathered_by chunk ys
unfolding gathered_by
gathered_by-append chunk [] ys = refl
gathered_by-append chunk (e ∷ xs) ys =
    ap (λ b. chunk e ++ b) (gathered_by-append chunk xs ys)
    ∙ sym (append_assoc (chunk e) (gathered_by chunk xs) (gathered_by chunk ys))

abbrev pub outs : ℕ → List Effect → Bytes
outs a es = gathered_by (chunk_out a) es

abbrev pub errs : ℕ → List Effect → Bytes
errs a es = gathered_by (chunk_err a) es

-- Readings and settlements.
abbrev pub noted : Effect → ℕ
noted (reads_stdout id b) = 1
noted (reads_stderr id b) = 1
noted (settles id f o) = 1
noted _ = 0

abbrev pub is_read : Effect → ℕ
is_read (reads_stdout id b) = 1
is_read (reads_stderr id b) = 1
is_read _ = 0

unread-chunk : (a : ℕ) (e : Effect) → is_read e ≡ 0 → (chunk_out a e ≡ []) × (chunk_err a e ≡ [])
unfolding chunk_out chunk_err
unread-chunk a (reads_stdout id b) h = absurd (omega arith)
unread-chunk a (reads_stderr id b) h = absurd (omega arith)
unread-chunk a e h = (refl, refl)

pub unread : (a : ℕ) (es : List Effect) → tally is_read es ≡ 0 → (outs a es ≡ []) × (errs a es ≡ [])
unfolding gathered_by
unread a [] h = (refl, refl)
unread a (e ∷ es) h =
    let none_here = unread-chunk a e (omega (arith, h)) in
    let none_later = unread a es (omega (arith, h)) in
    (rw (none_here.0) none_later.0, rw (none_here.1) none_later.1)

-- What one child gives in a round.
module _ (a id : ℕ) where
  all_out :
      (blocks : List Bytes)
      → outs a (map (reads_stdout id) blocks) ≡ (if id == a then concat blocks else [])
  unfolding gathered_by chunk_out concat
  all_out [] = elim (Bool-cases (id == a)) [ inl e ↦ rw e refl | inr e ↦ rw e refl ]
  all_out (b ∷ blocks) = elim (Bool-cases (id == a)) [
    | inl e ↦ rw e (ap (λ bs. b ++ bs) (all_out blocks ∙ rw e refl))
    | inr e ↦ rw e (all_out blocks ∙ rw e refl)
  ]

  all_err :
      (blocks : List Bytes)
      → errs a (map (reads_stderr id) blocks) ≡ (if id == a then concat blocks else [])
  unfolding gathered_by chunk_err concat
  all_err [] = elim (Bool-cases (id == a)) [ inl e ↦ rw e refl | inr e ↦ rw e refl ]
  all_err (b ∷ blocks) = elim (Bool-cases (id == a)) [
    | inl e ↦ rw e (ap (λ bs. b ++ bs) (all_err blocks ∙ rw e refl))
    | inr e ↦ rw e (all_err blocks ∙ rw e refl)
  ]

  no_err_in_out : (blocks : List Bytes) → errs a (map (reads_stdout id) blocks) ≡ []
  unfolding gathered_by chunk_err
  no_err_in_out [] = refl
  no_err_in_out (b ∷ blocks) = no_err_in_out blocks

  no_out_in_err : (blocks : List Bytes) → outs a (map (reads_stderr id) blocks) ≡ []
  unfolding gathered_by chunk_out
  no_out_in_err [] = refl
  no_out_in_err (b ∷ blocks) = no_out_in_err blocks

  pub io_effects-outs :
      (poll : Poll) → outs a (io_effects id poll) ≡ (if id == a then concat poll.out else [])
  unfolding io_effects
  io_effects-outs poll =
      gathered_by-append (chunk_out a) (map (reads_stdout id) poll.out)
        (map (reads_stderr id) poll.err)
      ∙ ap (λ b. outs a (map (reads_stdout id) poll.out) ++ b) (no_out_in_err poll.err)
      ∙ append-nil (outs a (map (reads_stdout id) poll.out))
      ∙ all_out poll.out

  pub io_effects-errs :
      (poll : Poll) → errs a (io_effects id poll) ≡ (if id == a then concat poll.err else [])
  unfolding io_effects
  io_effects-errs poll =
      gathered_by-append (chunk_err a) (map (reads_stdout id) poll.out)
        (map (reads_stderr id) poll.err)
      ∙ ap (λ b. b ++ errs a (map (reads_stderr id) poll.err)) (no_err_in_out poll.out)
      ∙ all_err poll.err
