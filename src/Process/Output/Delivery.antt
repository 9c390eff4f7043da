-- ===== src/Process/Output/Delivery.antt =====
-- What one run of process_update_callback of process/src/module.cpp adds to the log.
use koya_plugins.Base.{
  ℕ, ◌≤◌, ◌≡◌, refl, ap, sym, ◌∙◌, subst, some, List, [], ◌++◌, append_assoc, arith, find, entries,
  All, All-append, tally, tally-append,
}
use koya_plugins.Process.Types.{Effect, closes, emits, Emit, ProcessState}
use koya_plugins.Process.Update.{
  Poll, Final, Round, poll_all, release_requests, duplicate_all, emit_events, finish_all, bury_all,
  update,
}
use koya_plugins.Process.System.Accounting.{
  started, still, Still, duplicate_all-Still, release_requests-Still, emit_events-tally,
  finish_all-tally,
}
use koya_plugins.Process.System.Rounds.{reap_of}
use koya_plugins.Process.System.Loops.{poll_all-Polled}
use koya_plugins.Process.System.Burials.{bury_all_silent}
use koya_plugins.Process.System.Invariant.{Inv}
use koya_plugins.Process.System.Updates.{tally_zero}
use koya_plugins.Process.Output.{is_read, outs, errs, chunk_out, chunk_err, gathered_by-append}
use koya_plugins.Process.Output.Collected.{Complete, more_out, more_err}
use koya_plugins.Process.Output.Rounds.{All-weaken, PollsOutput, poll_all-output, poll_all-unread}
use koya_plugins.Process.Output.Known.{Known, outs-more, errs-more}
use koya_plugins.Process.Output.Answers.{
  release_requests-find, Answered, is_settlement, unsettled, finish_all-Answered, reads-Still,
  settles-Mute,
}

module _ (polls : ℕ → Poll) (s : ProcessState) (inv : Inv s) (known : Known s) where
  polled : Round
  polled = poll_all polls s.processes s.exec_requests

  one_process : (a : ℕ) → entries a s.processes ≤ 1
  one_process a = omega (arith, inv.reaping a, inv.once a)

  -- Between the reading and the calls of the script, and after that.
  before_calls : List Effect
  before_calls = duplicate_all polled.finals ++ (release_requests polled.finals polled.requests).1

  after_calls : List Effect
  after_calls =
      emit_events s.listeners polled.events
      ++ (finish_all polled.finals ++ (bury_all polled.dead polled.processes s.listeners).2)

  before_calls-tally : (w : Effect → ℕ) → Still w → tally w before_calls ≡ 0
  unfolding before_calls
  before_calls-tally w mute = omega (
    arith,
    tally-append w (duplicate_all polled.finals) (release_requests polled.finals polled.requests).1,
    duplicate_all-Still w mute polled.finals,
    release_requests-Still w mute polled.finals polled.requests,
  )

  emitted-tally :
      (w : Effect → ℕ)
      → Still w
      → ((e : Emit) → w (emits e) ≡ 0)
      → tally w (emit_events s.listeners polled.events) ≡ 0
  emitted-tally w mute h =
      emit_events-tally w mute s.listeners polled.events
      ∙ tally_zero (λ e. w (emits e)) h polled.events

  buried-tally :
      (w : Effect → ℕ)
      → Still w
      → ((fd : ℕ) → w (closes fd) ≡ 0)
      → tally w (bury_all polled.dead polled.processes s.listeners).2 ≡ 0
  buried-tally w mute h = bury_all_silent w mute h polled.dead polled.processes s.listeners

  after_calls_unread : tally is_read after_calls ≡ 0
  unfolding after_calls
  after_calls_unread = omega (
    arith,
    tally-append is_read (emit_events s.listeners polled.events)
        (finish_all polled.finals ++ (bury_all polled.dead polled.processes s.listeners).2),
    tally-append is_read (finish_all polled.finals)
        (bury_all polled.dead polled.processes s.listeners).2,
    emitted-tally is_read reads-Still (λ e. refl),
    finish_all-tally is_read reads-Still (λ f. 0) (λ f g o. refl) polled.finals,
    tally_zero {A = Final} (λ f. 0) (λ f. refl) polled.finals,
    buried-tally is_read reads-Still (λ fd. refl),
  )

  whole_log : List Effect
  whole_log = (s.log ++ (polled.effects ++ before_calls)) ++ after_calls

  whole_log-outs : (a : ℕ) → outs a whole_log ≡ more_out (λ a. outs a s.log) polled.effects a
  unfolding whole_log
  whole_log-outs a =
      outs-more a (s.log ++ (polled.effects ++ before_calls)) after_calls after_calls_unread
      ∙ gathered_by-append (chunk_out a) s.log (polled.effects ++ before_calls)
      ∙ ap (λ b. outs a s.log ++ b)
          (outs-more a polled.effects before_calls (before_calls-tally is_read reads-Still))

  whole_log-errs : (a : ℕ) → errs a whole_log ≡ more_err (λ a. errs a s.log) polled.effects a
  unfolding whole_log
  whole_log-errs a =
      errs-more a (s.log ++ (polled.effects ++ before_calls)) after_calls after_calls_unread
      ∙ gathered_by-append (chunk_err a) s.log (polled.effects ++ before_calls)
      ∙ ap (λ b. errs a s.log ++ b)
          (errs-more a polled.effects before_calls (before_calls-tally is_read reads-Still))

  output_of_round : PollsOutput (λ a. outs a s.log) (λ a. errs a s.log) polled
  unfolding polled
  output_of_round =
      poll_all-output (λ a. outs a s.log) (λ a. errs a s.log) polls s.processes s.exec_requests
        inv.idle one_process known.collected

  update_log : (update polls s).log ≡ whole_log
  unfolding update whole_log polled before_calls after_calls
  update_log = rw inv.open_context refl

  update_requests :
      (update polls s).exec_requests ≡ (release_requests polled.finals polled.requests).0
  unfolding update polled
  update_requests = rw inv.open_context refl

  requests_once : (a : ℕ) → entries a polled.requests ≤ 1
  unfolding polled
  requests_once a = omega (
    arith,
    (poll_all-Polled polls s.processes s.exec_requests inv.idle).requesting a,
    inv.waiting a,
    one_process a,
  )

  nothing_read :
      (a : ℕ)
      → tally (started a) s.log ≡ 0
      → (outs a polled.effects ≡ []) × (errs a polled.effects ≡ [])
  unfolding polled
  nothing_read a h =
      poll_all-unread polls s.processes s.exec_requests a (omega (arith, h, inv.reaping a))

  pub update-Known : Known (update polls s)
  unfolding whole_log
  update-Known = record {
    collected = λ a r found.
        let left =
          release_requests-find polled.finals polled.requests a r requests_once
            (subst (λ t. find a t ≡ some r) update_requests found) in
        let here = output_of_round.collected a r left in
        (
          here.0 ∙ sym (whole_log-outs a) ∙ ap (outs a) (sym update_log),
          here.1 ∙ sym (whole_log-errs a) ∙ ap (errs a) (sym update_log),
        );
    unused = λ a h.
        let before = not_before a h in
        let old = known.unused a before in
        let new = nothing_read a before in
        (
          ap (outs a) update_log
              ∙ whole_log-outs a
              ∙ ap (λ b. b ++ outs a polled.effects) old.0
              ∙ new.0,
          ap (errs a) update_log
              ∙ whole_log-errs a
              ∙ ap (λ b. b ++ errs a polled.effects) old.1
              ∙ new.1,
        );
  }
    where
      not_before :
          (a : ℕ) → tally (started a) (update polls s).log ≡ 0 → tally (started a) s.log ≡ 0
      not_before a h = omega (
        arith,
        h,
        ap (tally (started a)) update_log,
        tally-append (started a) (s.log ++ (polled.effects ++ before_calls)) after_calls,
        tally-append (started a) s.log (polled.effects ++ before_calls),
      )

  -- What the update adds to the log.
  pub added : List Effect
  added = (polled.effects ++ before_calls) ++ after_calls

  pub update_added : (update polls s).log ≡ s.log ++ added
  unfolding added whole_log
  update_added = update_log ∙ append_assoc s.log (polled.effects ++ before_calls) after_calls

  abbrev Whole : Effect → Type 0
  Whole = Answered (λ a. outs a (update polls s).log) (λ a. errs a (update polls s).log)

  finals_whole :
      All
        (Complete (λ a. outs a (update polls s).log) (λ a. errs a (update polls s).log))
        polled.finals
  finals_whole =
      All-weaken _ _ polled.finals
        (λ f h. (
          h.0 ∙ sym (whole_log-outs f.id) ∙ ap (outs f.id) (sym update_log),
          h.1 ∙ sym (whole_log-errs f.id) ∙ ap (errs f.id) (sym update_log),
        ))
        output_of_round.complete

  read_only : tally is_settlement polled.effects ≡ 0
  unfolding polled
  read_only =
      (poll_all-Polled polls s.processes s.exec_requests inv.idle).reaping is_settlement
        settles-Mute
      ∙ tally_zero (reap_of is_settlement) (λ id. refl) polled.dead

  pub added-Answered :
      All (Answered (λ a. outs a (update polls s).log) (λ a. errs a (update polls s).log)) added
  unfolding added before_calls after_calls
  added-Answered =
      All-append Whole (polled.effects ++ before_calls) after_calls
        (All-append Whole polled.effects before_calls (unsettled _ _ polled.effects read_only)
          (unsettled _ _ before_calls (before_calls-tally is_settlement (still settles-Mute))))
        (All-append Whole (emit_events s.listeners polled.events) _
          (unsettled _ _ (emit_events s.listeners polled.events)
            (emitted-tally is_settlement (still settles-Mute) (λ e. refl)))
          (All-append Whole (finish_all polled.finals) _
            (finish_all-Answered _ _ polled.finals finals_whole)
            (unsettled _ _ _ (buried-tally is_settlement (still settles-Mute) (λ fd. refl)))))
