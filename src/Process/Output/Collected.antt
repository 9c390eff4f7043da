-- ===== src/Process/Output/Collected.antt =====
-- The first loop of process_update_callback of process/src/module.cpp adds to each request what it
-- reads for it.
use koya_plugins.Base.{
  ℕ, ==_iff, ◌≡◌, refl, ap, sym, ◌∙◌, subst, true, false, none, some, some-injective, List, [],
  ◌++◌, append-nil, Bytes, Table, find, replace, find-replace, find-replace_other, Option-cases,
  Bool-cases, inl, inr, ◌==◌, if◌then◌else◌,
}
use koya_plugins.Process.Types.{ChildProcess, ExecRequest, Effect}
use koya_plugins.Process.Update.{
  Poll, concat, process_poll_io, io_effects, gather, wait_effects, Final, Round, poll_one,
}
use koya_plugins.Process.System.Rounds.{Idle}
use koya_plugins.Process.Output.{
  outs, errs, chunk_out, chunk_err, gathered_by-append, io_effects-outs, io_effects-errs, unread,
}

-- The requests hold the output that is known under their numbers.
abbrev pub Collected : (ℕ → Bytes) → (ℕ → Bytes) → Table ExecRequest → Type 0
Collected O E requests =
    (a : ℕ) (r : ExecRequest) → find a requests ≡ some r → (r.out ≡ O a) × (r.err ≡ E a)

-- A promise is settled with the output that is known under its number.
abbrev pub Complete : (ℕ → Bytes) → (ℕ → Bytes) → Final → Type 0
Complete O E f = (f.out ≡ O f.id) × (f.err ≡ E f.id)

abbrev pub more_out : (ℕ → Bytes) → List Effect → ℕ → Bytes
more_out O es a = O a ++ outs a es

abbrev pub more_err : (ℕ → Bytes) → List Effect → ℕ → Bytes
more_err E es a = E a ++ errs a es

wait_effects_unread :
    (a id : ℕ) (poll : Poll)
    → (outs a (wait_effects id poll.status) ≡ []) × (errs a (wait_effects id poll.status) ≡ [])
unfolding wait_effects
wait_effects_unread a id poll =
    unread a (wait_effects id poll.status) (elim (Option-cases poll.status) [
      | inl e ↦ rw (e, wait_effects)
      | inr (st, e) ↦ rw (e, wait_effects)
    ])

pub poll_one-outs :
    (a id : ℕ) (poll : Poll) (p : ChildProcess) (requests : Table ExecRequest)
    → (outs a (poll_one id poll p requests).effects ≡ (if id == a then concat poll.out else []))
      × (errs a (poll_one id poll p requests).effects ≡ (if id == a then concat poll.err else []))
unfolding poll_one
poll_one-outs a id poll p requests = (
  gathered_by-append (chunk_out a) (io_effects id poll) (wait_effects id poll.status)
      ∙ ap (λ b. outs a (io_effects id poll) ++ b) (wait_effects_unread a id poll).0
      ∙ append-nil (outs a (io_effects id poll))
      ∙ io_effects-outs a id poll,
  gathered_by-append (chunk_err a) (io_effects id poll) (wait_effects id poll.status)
      ∙ ap (λ b. errs a (io_effects id poll) ++ b) (wait_effects_unread a id poll).1
      ∙ append-nil (errs a (io_effects id poll))
      ∙ io_effects-errs a id poll,
)

-- The buffers of an idle child hold what was just read.
full_out :
    (p : ChildProcess) (poll : Poll)
    → Idle p
    → (process_poll_io p poll).stdout_buf ≡ concat poll.out
unfolding process_poll_io
full_out p poll idle = ap (λ b. b ++ concat poll.out) (idle.2)

full_err :
    (p : ChildProcess) (poll : Poll)
    → Idle p
    → (process_poll_io p poll).stderr_buf ≡ concat poll.err
unfolding process_poll_io
full_err p poll idle = ap (λ b. b ++ concat poll.err) (idle.3)

module _ (O E : ℕ → Bytes) (id : ℕ) (poll : Poll) (p : ChildProcess) (requests : Table ExecRequest)
    (idle : Idle p) (known : Collected O E requests) where
  abbrev pub one : Round
  one = poll_one id poll p requests

  -- A request that the loop does not touch.
  other_request :
      (a : ℕ) (r : ExecRequest)
      → (id == a) ≡ false
      → find a requests ≡ some r
      → (r.out ≡ more_out O one.effects a) × (r.err ≡ more_err E one.effects a)
  other_request a r differs e = (
    (known a r e).0
        ∙ sym (append-nil (O a))
        ∙ ap (λ b. O a ++ b) (sym ((poll_one-outs a id poll p requests).0 ∙ rw differs refl)),
    (known a r e).1
        ∙ sym (append-nil (E a))
        ∙ ap (λ b. E a ++ b) (sym ((poll_one-outs a id poll p requests).1 ∙ rw differs refl)),
  )

  own_request :
      (a : ℕ) (r : ExecRequest)
      → (id == a) ≡ true
      → find a requests ≡ some r
      → (r.out ++ (process_poll_io p poll).stdout_buf ≡ more_out O one.effects a)
        × (r.err ++ (process_poll_io p poll).stderr_buf ≡ more_err E one.effects a)
  own_request a r same e = (
    ap (λ b. b ++ (process_poll_io p poll).stdout_buf) (known a r e).0
        ∙ ap (λ b. O a ++ b)
            (full_out p poll idle ∙ sym ((poll_one-outs a id poll p requests).0 ∙ rw same refl)),
    ap (λ b. b ++ (process_poll_io p poll).stderr_buf) (known a r e).1
        ∙ ap (λ b. E a ++ b)
            (full_err p poll idle ∙ sym ((poll_one-outs a id poll p requests).1 ∙ rw same refl)),
  )

  grown : ExecRequest → ExecRequest
  grown x = record x {
    out = x.out ++ (process_poll_io p poll).stdout_buf;
    err = x.err ++ (process_poll_io p poll).stderr_buf;
  }

  gather_absent : find id requests ≡ none → one.requests ≡ requests
  unfolding poll_one gather
  gather_absent e = rw (e, gather) refl

  gather_present :
      (x : ExecRequest) → find id requests ≡ some x → one.requests ≡ replace id (grown x) requests
  unfolding poll_one gather grown
  gather_present x e = rw (e, gather) refl

  same_key : (a : ℕ) → (id == a) ≡ true → id ≡ a
  same_key a h = (==_iff id a).0 h

  pub poll_one-Collected : Collected (more_out O one.effects) (more_err E one.effects) one.requests
  unfolding grown
  poll_one-Collected a r found = elim (Option-cases (find id requests)) [
    | inl e ↦ elim (Bool-cases (id == a)) [
      | inl same ↦ own_absent same (subst (λ t. find a t ≡ some r) (gather_absent e) found) e
      | inr differs ↦
          other_request a r differs (subst (λ t. find a t ≡ some r) (gather_absent e) found)
    ]
    | inr (x, e) ↦ elim (Bool-cases (id == a)) [
      | inl same ↦
          let here = subst (λ k. find k requests ≡ some x) (same_key a same) e in
          let is_grown = some-injective (grown x) r (
            sym (
              subst (λ k. find k (replace id (grown x) requests) ≡ some (grown x)) (same_key a same)
                (find-replace id requests x (grown x) e))
            ∙ subst (λ t. find a t ≡ some r) (gather_present x e) found) in
          let own = own_request a x same here in
          (ap (λ y. y.out) (sym is_grown) ∙ own.0, ap (λ y. y.err) (sym is_grown) ∙ own.1)
      | inr differs ↦ other_request a r differs (
          sym (find-replace_other id a requests (grown x) differs)
          ∙ subst (λ t. find a t ≡ some r) (gather_present x e) found)
    ]
  ]
    where
      own_absent :
          {A : Type 0} → (id == a) ≡ true → find a requests ≡ some r → find id requests ≡ none → A
      own_absent same f e = absurd (cc (subst (λ k. find k requests ≡ none) (same_key a same) e, f))
