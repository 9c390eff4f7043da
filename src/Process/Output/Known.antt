-- ===== src/Process/Output/Known.antt =====
-- The requests of process/src/module.cpp hold the output of their children after any events.
use koya_plugins.Base.{
  ℕ, ==_iff, ◌≡◌, refl, ap, sym, ◌∙◌, subst, true, false, Option, none, some, some-injective, List,
  [], ◌∷◌, ◌++◌, map, append-nil, arith, Bytes, codes, c_string, find, assign, assign_fresh,
  entries, tally, tally-append, Option-cases, Bool-cases, inl, inr, ◌==◌,
}
use koya_plugins.Process.Types.{ExecRequest, Effect, ProcessState}
use koya_plugins.Process.Launch.{Launch, track, give_up, launch, request, request_launched, js_exec}
use koya_plugins.Process.System.Accounting.{started}
use koya_plugins.Process.System.Starting.{Launches, fails, works, launch-Launches}
use koya_plugins.Process.System.Invariant.{Inv}
use koya_plugins.Process.Output.{
  is_read, outs, errs, chunk_out, chunk_err, gathered_by-append, unread,
}
use koya_plugins.Process.Output.Collected.{Collected}
use koya_plugins.Process.Output.Calls.{ReadsNothing, launch-reads}

-- The requests hold what was read from their children, and nothing was read under a number that has
-- not been used.
pub record Known (s : ProcessState) : Type 0 where
  pub collected : Collected (λ a. outs a s.log) (λ a. errs a s.log) s.exec_requests
  pub unused : (a : ℕ) → tally (started a) s.log ≡ 0 → (outs a s.log ≡ []) × (errs a s.log ≡ [])

pub outs-more : (a : ℕ) (xs ys : List Effect) → tally is_read ys ≡ 0 → outs a (xs ++ ys) ≡ outs a xs
outs-more a xs ys h =
    gathered_by-append (chunk_out a) xs ys
    ∙ ap (λ b. outs a xs ++ b) (unread a ys h).0
    ∙ append-nil (outs a xs)

pub errs-more : (a : ℕ) (xs ys : List Effect) → tally is_read ys ≡ 0 → errs a (xs ++ ys) ≡ errs a xs
errs-more a xs ys h =
    gathered_by-append (chunk_err a) xs ys
    ∙ ap (λ b. errs a xs ++ b) (unread a ys h).1
    ∙ append-nil (errs a xs)

module _ (s s' : ProcessState) (r : ReadsNothing s s') where
  same_outs : (a : ℕ) → outs a s'.log ≡ outs a s.log
  same_outs a = ap (outs a) r.log ∙ outs-more a s.log r.added r.none_read

  same_errs : (a : ℕ) → errs a s'.log ≡ errs a s.log
  same_errs a = ap (errs a) r.log ∙ errs-more a s.log r.added r.none_read

  pub ReadsNothing-Known : Known s → Known s'
  ReadsNothing-Known k = record {
    collected = λ a x found.
        let here = k.collected a x (subst (λ t. find a t ≡ some x) r.requests found) in
        (here.0 ∙ sym (same_outs a), here.1 ∙ sym (same_errs a));
    unused = λ a h.
        let none_before = k.unused a (
          omega (arith, h, ap (tally (started a)) r.log, tally-append (started a) s.log r.added)) in
        (same_outs a ∙ none_before.0, same_errs a ∙ none_before.1);
  }

-- A promise for a number that nothing was read under.
request-Known :
    (s : ProcessState) (id resolve reject : ℕ)
    → entries id s.exec_requests ≡ 0
    → (outs id s.log ≡ []) × (errs id s.log ≡ [])
    → Known s
    → Known (request s id resolve reject)
unfolding request find
request-Known s id resolve reject free nothing k = record {
  collected = λ a x found. elim (Bool-cases (id == a)) [
    | inl same ↦
        let at : some fresh ≡ some x =
          sym (first a same) ∙ subst (λ t. find a t ≡ some x) entry found in
        (
          ap (λ y. y.out) (sym (some-injective fresh x at))
              ∙ sym (
                  outs-more a s.log _ refl
                  ∙ ap (λ i. outs i s.log) (sym ((==_iff id a).0 same))
                  ∙ nothing.0),
          ap (λ y. y.err) (sym (some-injective fresh x at))
              ∙ sym (
                  errs-more a s.log _ refl
                  ∙ ap (λ i. errs i s.log) (sym ((==_iff id a).0 same))
                  ∙ nothing.1),
        )
    | inr differs ↦
        let here =
          k.collected a x
            (sym (behind_it a differs) ∙ subst (λ t. find a t ≡ some x) entry found) in
        (here.0 ∙ sym (outs-more a s.log _ refl), here.1 ∙ sym (errs-more a s.log _ refl))
  ];
  unused = λ a h.
      let none_before = k.unused a (
        omega
          (arith, h, tally-append (started a) s.log (Effect.new_promise id resolve reject ∷ []))) in
      (outs-more a s.log _ refl ∙ none_before.0, errs-more a s.log _ refl ∙ none_before.1);
}
  where
    fresh : ExecRequest
    fresh = record { id = id; out = []; err = []; resolve = resolve; reject = reject }

    entry : assign id fresh s.exec_requests ≡ (id, fresh) ∷ s.exec_requests
    entry = assign_fresh id fresh s.exec_requests free

    first : (a : ℕ) → (id == a) ≡ true → find a ((id, fresh) ∷ s.exec_requests) ≡ some fresh
    first a same = rw (same, find) refl

    behind_it :
        (a : ℕ)
        → (id == a) ≡ false
        → find a ((id, fresh) ∷ s.exec_requests) ≡ find a s.exec_requests
    behind_it a differs = rw (differs, find) refl

launched_id :
    (s : ProcessState) (words : List Bytes) {r : ProcessState × Option ℕ} (id : ℕ)
    → Launches s words r
    → r.1 ≡ some id
    → id ≡ s.next_id
unfolding give_up track
launched_id s words id (fails es q) h = cc (h)
launched_id s words id (works i o e pid) h = sym (some-injective s.next_id id h)

pub exec-Known :
    (s : ProcessState) (command : Option Bytes) (l : Launch) (resolve reject : ℕ)
    → Inv s
    → Known s
    → Known (js_exec s command l resolve reject).0
unfolding js_exec request_launched
exec-Known s none l resolve reject inv k = k
exec-Known s (some command) l resolve reject inv k = elim (Option-cases launched.1) [
  | inl e ↦ rw (e, request_launched) now
  | inr (id, e) ↦
      let next = launched_id s _ id (launch-Launches s _ l) e in
      rw (e, request_launched)
        (request-Known launched.0 id resolve reject
          (omega (
            arith,
            ap (entries id) same.requests,
            ap (λ i. entries i s.exec_requests) next,
            no_request,
          ))
          (
            ap (outs id) same.log
                ∙ outs-more id s.log same.added same.none_read
                ∙ ap (λ i. outs i s.log) next
                ∙ (k.unused s.next_id (inv.fresh s.next_id (omega arith))).0,
            ap (errs id) same.log
                ∙ errs-more id s.log same.added same.none_read
                ∙ ap (λ i. errs i s.log) next
                ∙ (k.unused s.next_id (inv.fresh s.next_id (omega arith))).1,
          )
          now)
]
  where
    launched : ProcessState × Option ℕ
    launched = launch s (map c_string (codes "sh" ∷ codes "-c" ∷ command ∷ [])) l

    same : ReadsNothing s launched.0
    same = launch-reads s (map c_string (codes "sh" ∷ codes "-c" ∷ command ∷ [])) l

    now : Known launched.0
    now = ReadsNothing-Known s launched.0 same k

    no_request : entries s.next_id s.exec_requests ≡ 0
    no_request =
        omega
          (arith, inv.waiting s.next_id, inv.reaping s.next_id, inv.fresh s.next_id (omega arith))
