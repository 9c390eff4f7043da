-- ===== src/Process/Output/Rounds.antt =====
-- The first loop of process_update_callback of process/src/module.cpp takes out requests with all of
-- their output.
use koya_plugins.Base.{
  ℕ, ◌≤◌, ◌≡◌, refl, ap, sym, ◌∙◌, false, List, [], ◌∷◌, ◌++◌, append_assoc, append-nil, arith,
  Bytes, Table, find, entries, All, All-append, Option-cases, Bool-cases, inl, inr, ◌==◌,
}
use koya_plugins.Process.Types.{ChildProcess, ExecRequest, Effect}
use koya_plugins.Process.Update.{
  Poll, process_poll_io, Final, final_of, Round, settle_child, poll_one, poll_all,
}
use koya_plugins.Process.System.Rounds.{Idle, AllIdle}
use koya_plugins.Process.Output.{outs, errs, chunk_out, chunk_err, gathered_by-append, unread}
use koya_plugins.Process.Output.Collected.{
  Collected, Complete, more_out, more_err, poll_one-outs, poll_one-Collected,
}

-- The same knowledge of the output.
Collected-same :
    (O E O' E' : ℕ → Bytes) (requests : Table ExecRequest)
    → ((a : ℕ) → O a ≡ O' a)
    → ((a : ℕ) → E a ≡ E' a)
    → Collected O E requests
    → Collected O' E' requests
Collected-same O E O' E' requests o e known a r found =
    ((known a r found).0 ∙ o a, (known a r found).1 ∙ e a)

more_out-append :
    (O : ℕ → Bytes) (xs ys : List Effect) (a : ℕ)
    → more_out (more_out O xs) ys a ≡ more_out O (xs ++ ys) a
more_out-append O xs ys a =
    append_assoc (O a) (outs a xs) (outs a ys)
    ∙ ap (λ b. O a ++ b) (sym (gathered_by-append (chunk_out a) xs ys))

more_err-append :
    (E : ℕ → Bytes) (xs ys : List Effect) (a : ℕ)
    → more_err (more_err E xs) ys a ≡ more_err E (xs ++ ys) a
more_err-append E xs ys a =
    append_assoc (E a) (errs a xs) (errs a ys)
    ∙ ap (λ b. E a ++ b) (sym (gathered_by-append (chunk_err a) xs ys))

-- The finished request of one process.
abbrev Finishes : (ℕ → Bytes) → (ℕ → Bytes) → ℕ → Final → Type 0
Finishes O E id f = (f.id ≡ id) × Complete O E f

final_of-Finishes :
    (O E : ℕ → Bytes) (id code : ℕ) (requests : Table ExecRequest)
    → Collected O E requests
    → All (Finishes O E id) (final_of id code (find id requests))
unfolding final_of
final_of-Finishes O E id code requests known = elim (Option-cases (find id requests)) [
  | inl e ↦ rw (e, final_of) tt
  | inr (r, e) ↦ rw (e, final_of) ((refl, known id r e), tt)
]

module _ (O E : ℕ → Bytes) (id : ℕ) (poll : Poll) (p : ChildProcess) (requests : Table ExecRequest)
    (idle : Idle p) (known : Collected O E requests) where
  poll_one-Finishes :
      let round = poll_one id poll p requests in
      All (Finishes (more_out O round.effects) (more_err E round.effects) id) round.finals
  unfolding poll_one
  poll_one-Finishes =
      elim (Bool-cases (settle_child id poll.status (process_poll_io p poll)).0.exited) [
        | inl e ↦
            rw (e, poll_one)
              (final_of-Finishes _ _ id _ _ (poll_one-Collected O E id poll p requests idle known))
        | inr e ↦ rw (e, poll_one) tt
      ]

-- Nothing is read for a number without a process.
pub poll_all-unread :
    (polls : ℕ → Poll) (processes : Table ChildProcess) (requests : Table ExecRequest) (a : ℕ)
    → entries a processes ≡ 0
    → (outs a (poll_all polls processes requests).effects ≡ [])
      × (errs a (poll_all polls processes requests).effects ≡ [])
unfolding poll_all
poll_all-unread polls [] requests a h = unread a [] refl
poll_all-unread polls ((id, p) ∷ processes) requests a h =
    let one = poll_one id (polls id) p requests in
    let rest = poll_all-unread polls processes one.requests a (omega (arith, h)) in
    let more = (poll_all polls processes one.requests).effects in
    let now = poll_one-outs a id (polls id) p requests in
    let no_out : outs a one.effects ≡ [] = now.0 ∙ rw differs refl in
    let no_err : errs a one.effects ≡ [] = now.1 ∙ rw differs refl in
    (
      gathered_by-append (chunk_out a) one.effects more
          ∙ ap (λ b. b ++ outs a more) no_out
          ∙ rest.0,
      gathered_by-append (chunk_err a) one.effects more
          ∙ ap (λ b. b ++ errs a more) no_err
          ∙ rest.1,
    )
  where
    differs : (id == a) ≡ false
    differs = ground (arith, h)

pub All-weaken {ℓ κ} :
    {A : Type ℓ} (P Q : A → Type κ) (xs : List A) → ((x : A) → P x → Q x) → All P xs → All Q xs
All-weaken P Q [] h a = tt
All-weaken P Q (x ∷ xs) h a = (h x a.0, All-weaken P Q xs h a.1)

-- After the loop, the requests hold all that is known of their output, and so do the promises that
-- it takes out.
pub record PollsOutput (O E : ℕ → Bytes) (round : Round) : Type 0 where
  pub collected : Collected (more_out O round.effects) (more_err E round.effects) round.requests
  pub complete : All (Complete (more_out O round.effects) (more_err E round.effects)) round.finals

pub poll_all-output :
    (O E : ℕ → Bytes) (polls : ℕ → Poll) (processes : Table ChildProcess)
    (requests : Table ExecRequest)
    → AllIdle processes
    → ((a : ℕ) → entries a processes ≤ 1)
    → Collected O E requests
    → PollsOutput O E (poll_all polls processes requests)
unfolding poll_all
poll_all-output O E polls [] requests idle once known = record {
  collected =
      Collected-same O E _ _ requests
        (λ a. sym (ap (λ b. O a ++ b) (unread a [] refl).0 ∙ append-nil (O a)))
        (λ a. sym (ap (λ b. E a ++ b) (unread a [] refl).1 ∙ append-nil (E a))) known;
  complete = tt;
}
poll_all-output O E polls ((id, p) ∷ processes) requests idle once known =
    let one = poll_one id (polls id) p requests in
    let more = (poll_all polls processes one.requests).effects in
    let known' = poll_one-Collected O E id (polls id) p requests (idle.0) known in
    let rest =
      poll_all-output (more_out O one.effects) (more_err E one.effects) polls processes one.requests
        (idle.1) (λ a. omega (arith, once a)) known' in
    let later = poll_all-unread polls processes one.requests id (none_later (once id)) in
    record {
      collected =
          Collected-same _ _ _ _ _ (more_out-append O one.effects more)
            (more_err-append E one.effects more) rest.collected;
      complete =
          All-append _ one.finals (poll_all polls processes one.requests).finals
            (All-weaken _ _ one.finals
              (λ f h. (
                h.1.0
                    ∙ sym (append-nil (more_out O one.effects f.id))
                    ∙ ap (λ b. more_out O one.effects f.id ++ b)
                        (sym (ap (λ k. outs k more) h.0 ∙ later.0))
                    ∙ more_out-append O one.effects more f.id,
                h.1.1
                    ∙ sym (append-nil (more_err E one.effects f.id))
                    ∙ ap (λ b. more_err E one.effects f.id ++ b)
                        (sym (ap (λ k. errs k more) h.0 ∙ later.1))
                    ∙ more_err-append E one.effects more f.id,
              ))
              (poll_one-Finishes O E id (polls id) p requests (idle.0) known))
            (All-weaken _ _ (poll_all polls processes one.requests).finals
              (λ f h. (
                h.0 ∙ more_out-append O one.effects more f.id,
                h.1 ∙ more_err-append E one.effects more f.id,
              ))
              rest.complete);
    }
  where
    none_later : entries id ((id, p) ∷ processes) ≤ 1 → entries id processes ≡ 0
    none_later h = ground (arith, h)
