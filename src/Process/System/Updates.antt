-- ===== src/Process/System/Updates.antt =====
-- process_update_callback of process/src/module.cpp keeps the invariant of its children.
use koya_plugins.Base.{
  ℕ, ◌+◌, ◌-◌, ◌≡◌, refl, List, [], ◌∷◌, ◌++◌, arith, Table, entries, tally, tally-append,
}
use koya_plugins.Process.Types.{
  ChildProcess, ListenerLists, ExecRequest, Emit, Outcome, Effect, closes, reaps, emits, settles,
  ProcessState,
}
use koya_plugins.Process.Update.{
  Poll, Final, Round, poll_all, release_requests, emit_events, finish_all, duplicate_all, bury_all,
  update,
}
use koya_plugins.Process.System.Accounting.{
  same, started, reaped, exits_told, exit_event, promised, settled, all_started, final_id, Mute,
  still, duplicate_all-Still, release_requests-Still, emit_events-tally, finish_all-tally,
}
use koya_plugins.Process.System.Rounds.{reap_of}
use koya_plugins.Process.System.Loops.{Polled, poll_all-Polled}
use koya_plugins.Process.System.Burials.{
  release_requests-entries, bury_all-entries, bury_all_silent, bury_all-AllIdle,
}
use koya_plugins.Process.System.Invariant.{Inv}

pub tally_zero {ℓ} : {A : Type ℓ} (w : A → ℕ) → ((x : A) → w x ≡ 0) → (xs : List A) → tally w xs ≡ 0
tally_zero w h [] = refl
tally_zero w h (x ∷ xs) = omega (arith, h x, tally_zero w h xs)

module _ (polls : ℕ → Poll) (s : ProcessState) (inv : Inv s) where
  pub round : Round
  round = poll_all polls s.processes s.exec_requests

  pub rounded : Polled s.processes s.exec_requests round
  unfolding round
  rounded = poll_all-Polled polls s.processes s.exec_requests inv.idle

  released : Table ExecRequest × List Effect
  released = release_requests round.finals round.requests

  unfoldable pub buried : Table ChildProcess × Table ListenerLists × List Effect
  buried = bury_all round.dead round.processes s.listeners

  pub after_log : List Effect
  unfolding round released buried
  after_log =
      (s.log ++ (round.effects ++ (duplicate_all round.finals ++ released.1)))
      ++ (emit_events s.listeners round.events ++ (finish_all round.finals ++ buried.2))

  unfoldable pub after : ProcessState
  unfolding round released buried
  after = record s {
    processes = buried.0;
    listeners = buried.1;
    exec_requests = released.0;
    log = after_log;
  }

  pub update_open : update polls s ≡ after
  unfolding update round released buried after after_log
  update_open = rw inv.open_context refl

  -- One count over the whole update, but for the burials.
  pub after-tally :
      (w : Effect → ℕ)
      → Mute w
      → (g : Final → ℕ)
      → ((f : Final) (function : ℕ) (o : Outcome) → w (settles f.id function o) ≡ g f)
      → tally w after_log
        ≡ tally w s.log
          + tally (reap_of w) round.dead
          + tally (λ e. w (emits e)) round.events
          + tally g round.finals
          + tally w buried.2
  unfolding after_log released
  after-tally w mute g h = omega (
    arith,
    tally-append w (s.log ++ (round.effects ++ (duplicate_all round.finals ++ released.1)))
        (emit_events s.listeners round.events ++ (finish_all round.finals ++ buried.2)),
    tally-append w s.log (round.effects ++ (duplicate_all round.finals ++ released.1)),
    tally-append w round.effects (duplicate_all round.finals ++ released.1),
    tally-append w (duplicate_all round.finals) released.1,
    tally-append w (emit_events s.listeners round.events) (finish_all round.finals ++ buried.2),
    tally-append w (finish_all round.finals) buried.2,
    rounded.reaping w mute,
    duplicate_all-Still w (still mute) round.finals,
    release_requests-Still w (still mute) round.finals round.requests,
    emit_events-tally w (still mute) s.listeners round.events,
    finish_all-tally w (still mute) g h round.finals,
  )

  buried_silent : (w : Effect → ℕ) → Mute w → ((fd : ℕ) → w (closes fd) ≡ 0) → tally w buried.2 ≡ 0
  unfolding buried
  buried_silent w mute h = bury_all_silent w (still mute) h round.dead round.processes s.listeners

  -- The counts of the invariant that an update leaves alone.
  pub unchanged :
      (w : Effect → ℕ)
      → Mute w
      → ((fd : ℕ) → w (closes fd) ≡ 0)
      → ((id : ℕ) → w (reaps id) ≡ 0)
      → ((e : Emit) → w (emits e) ≡ 0)
      → ((f : Final) (function : ℕ) (o : Outcome) → w (settles f.id function o) ≡ 0)
      → tally w after_log ≡ tally w s.log
  unchanged w mute c r e f = omega (
    arith,
    after-tally w mute (λ f. 0) f,
    tally_zero (reap_of w) r round.dead,
    tally_zero (λ e. w (emits e)) e round.events,
    tally_zero {A = Final} (λ f. 0) (λ f. refl) round.finals,
    buried_silent w mute c,
  )

  pub update-Inv : Inv (update polls s)
  unfolding after after_log buried released
  update-Inv = rw update_open (record {
    numbered = omega (
      arith,
      inv.numbered,
      unchanged all_started
          (record {
            on_out = λ id b. refl;
            on_err = λ id b. refl;
            on_call = λ f e. refl;
            on_duplicate = λ f. refl;
            on_free = λ f. refl;
          })
          (λ fd. refl) (λ id. refl) (λ e. refl) (λ f g o. refl),
    );
    fresh = λ a h. omega (arith, inv.fresh a h, same_started a);
    once = λ a. omega (arith, inv.once a, same_started a);
    reaping = λ a.
        omega (arith, inv.reaping a, same_started a, reaped_more a, keys a, rounded.dead_few a);
    telling = λ a. omega (arith, inv.telling a, told_more a, reaped_more a, rounded.telling a);
    settling = λ a. ground (
      arith,
      inv.settling a,
      inv.waiting a,
      inv.reaping a,
      inv.once a,
      settled_more a,
      same_promised a,
      left a,
      rounded.finishing a,
      rounded.dead_few a,
    );
    waiting = λ a. ground (
      arith,
      inv.waiting a,
      inv.reaping a,
      inv.once a,
      keys a,
      left a,
      rounded.finishing a,
      rounded.dead_few a,
    );
    promising = λ a. omega (arith, inv.promising a, same_promised a, same_started a);
    idle =
        bury_all-AllIdle round.dead round.processes s.listeners
          (λ a. omega (arith, rounded.keys a, inv.reaping a, inv.once a)) rounded.sorting;
    open_context = inv.open_context;
  })
    where
      same_started : (a : ℕ) → tally (started a) after_log ≡ tally (started a) s.log
      same_started a =
          unchanged (started a)
            (record {
              on_out = λ id b. refl;
              on_err = λ id b. refl;
              on_call = λ f e. refl;
              on_duplicate = λ f. refl;
              on_free = λ f. refl;
            })
            (λ fd. refl) (λ id. refl) (λ e. refl) (λ f g o. refl)

      same_promised : (a : ℕ) → tally (promised a) after_log ≡ tally (promised a) s.log
      same_promised a =
          unchanged (promised a)
            (record {
              on_out = λ id b. refl;
              on_err = λ id b. refl;
              on_call = λ f e. refl;
              on_duplicate = λ f. refl;
              on_free = λ f. refl;
            })
            (λ fd. refl) (λ id. refl) (λ e. refl) (λ f g o. refl)

      reaped_more :
          (a : ℕ) → tally (reaped a) after_log ≡ tally (reaped a) s.log + tally (same a) round.dead
      reaped_more a = omega (
        arith,
        after-tally (reaped a)
            (record {
              on_out = λ id b. refl;
              on_err = λ id b. refl;
              on_call = λ f e. refl;
              on_duplicate = λ f. refl;
              on_free = λ f. refl;
            })
            (λ f. 0) (λ f g o. refl),
        tally_zero (λ e. reaped a (emits e)) (λ e. refl) round.events,
        tally_zero {A = Final} (λ f. 0) (λ f. refl) round.finals,
        buried_silent (reaped a)
            (record {
              on_out = λ id b. refl;
              on_err = λ id b. refl;
              on_call = λ f e. refl;
              on_duplicate = λ f. refl;
              on_free = λ f. refl;
            })
            (λ fd. refl),
      )

      told_more :
          (a : ℕ)
          → tally (exits_told a) after_log
            ≡ tally (exits_told a) s.log + tally (exit_event a) round.events
      told_more a = omega (
        arith,
        after-tally (exits_told a)
            (record {
              on_out = λ id b. refl;
              on_err = λ id b. refl;
              on_call = λ f e. refl;
              on_duplicate = λ f. refl;
              on_free = λ f. refl;
            })
            (λ f. 0) (λ f g o. refl),
        tally_zero (reap_of (exits_told a)) (λ e. refl) round.dead,
        tally_zero {A = Final} (λ f. 0) (λ f. refl) round.finals,
        buried_silent (exits_told a)
            (record {
              on_out = λ id b. refl;
              on_err = λ id b. refl;
              on_call = λ f e. refl;
              on_duplicate = λ f. refl;
              on_free = λ f. refl;
            })
            (λ fd. refl),
      )

      settled_more :
          (a : ℕ)
          → tally (settled a) after_log ≡ tally (settled a) s.log + tally (final_id a) round.finals
      settled_more a = omega (
        arith,
        after-tally (settled a)
            (record {
              on_out = λ id b. refl;
              on_err = λ id b. refl;
              on_call = λ f e. refl;
              on_duplicate = λ f. refl;
              on_free = λ f. refl;
            })
            (final_id a) (λ f g o. refl),
        tally_zero (reap_of (settled a)) (λ e. refl) round.dead,
        tally_zero (λ e. settled a (emits e)) (λ e. refl) round.events,
        buried_silent (settled a)
            (record {
              on_out = λ id b. refl;
              on_err = λ id b. refl;
              on_call = λ f e. refl;
              on_duplicate = λ f. refl;
              on_free = λ f. refl;
            })
            (λ fd. refl),
      )

      keys : (a : ℕ) → entries a buried.0 ≡ entries a s.processes - tally (same a) round.dead
      keys a =
          omega (arith, bury_all-entries a round.dead round.processes s.listeners, rounded.keys a)

      left :
          (a : ℕ)
          → entries a released.0 ≡ entries a s.exec_requests - tally (final_id a) round.finals
      left a =
          omega
            (arith, release_requests-entries a round.finals round.requests, rounded.requesting a)
