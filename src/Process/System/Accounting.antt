-- ===== src/Process/System/Accounting.antt =====
-- What the log of process/src/module.cpp holds under each number, and the effects that no count reads.
use koya_plugins.Base.{
  ℕ, ◌≡◌, refl, Bool, List, [], ◌∷◌, ◌++◌, map, arith, Bytes, Table, find, erase, tally,
  tally-append, Option-cases, inl, inr, ◌==◌, if◌then◌else◌,
}
use koya_plugins.Process.Types.{
  ListenerLists, ExecRequest, Emit, exit, Outcome, Effect, opens, closes, forks, reads_stdout,
  reads_stderr, reaps, emits, calls, new_promise, settles, duplicates, free_value,
}
use koya_plugins.Process.Update.{
  Final, call_all, listeners_for, emit_all, raise_all, emit_events, finish_all, duplicate_all,
  free_all, free_lists, release_requests,
}

abbrev pub one_if : Bool → ℕ
one_if b = if b then 1 else 0

abbrev pub same : ℕ → ℕ → ℕ
same a id = one_if (id == a)

-- Forks, statuses, exit events, promises and settlements under the number `a`.
abbrev pub started : ℕ → Effect → ℕ
started a (forks id pid words) = same a id
started a _ = 0

abbrev pub reaped : ℕ → Effect → ℕ
reaped a (reaps id) = same a id
reaped a _ = 0

abbrev pub exit_event : ℕ → Emit → ℕ
exit_event a (exit id code) = same a id
exit_event a _ = 0

abbrev pub exits_told : ℕ → Effect → ℕ
exits_told a (emits e) = exit_event a e
exits_told a _ = 0

abbrev pub promised : ℕ → Effect → ℕ
promised a (new_promise id resolve reject) = same a id
promised a _ = 0

abbrev pub settled : ℕ → Effect → ℕ
settled a (settles id f o) = same a id
settled a _ = 0

abbrev pub all_started : Effect → ℕ
all_started (forks id pid words) = 1
all_started _ = 0

-- Openings and closings of one descriptor.
abbrev pub opened_fd : ℕ → Effect → ℕ
opened_fd d (opens fd) = same d fd
opened_fd d _ = 0

abbrev pub closed_fd : ℕ → Effect → ℕ
closed_fd d (closes fd) = same d fd
closed_fd d _ = 0

abbrev pub final_id : ℕ → Final → ℕ
final_id a f = same a f.id

-- A count that reads no call of a listener and no reference, and one that reads no transfer either.
pub record Still (w : Effect → ℕ) : Type 0 where
  pub on_call : (f : ℕ) (e : Emit) → w (calls f e) ≡ 0
  pub on_duplicate : (f : ℕ) → w (duplicates f) ≡ 0
  pub on_free : (f : ℕ) → w (free_value f) ≡ 0

pub record Mute (w : Effect → ℕ) : Type 0 where
  pub on_out : (id : ℕ) (b : Bytes) → w (reads_stdout id b) ≡ 0
  pub on_err : (id : ℕ) (b : Bytes) → w (reads_stderr id b) ≡ 0
  pub on_call : (f : ℕ) (e : Emit) → w (calls f e) ≡ 0
  pub on_duplicate : (f : ℕ) → w (duplicates f) ≡ 0
  pub on_free : (f : ℕ) → w (free_value f) ≡ 0

pub still : {w : Effect → ℕ} → Mute w → Still w
still mute = record {
  on_call = mute.on_call;
  on_duplicate = mute.on_duplicate;
  on_free = mute.on_free;
}

pub tally-map_silent {ℓ} :
    {A : Type ℓ} (w : Effect → ℕ) (f : A → Effect)
    → ((x : A) → w (f x) ≡ 0)
    → (xs : List A) → tally w (map f xs) ≡ 0
tally-map_silent w f h [] = refl
tally-map_silent w f h (x ∷ xs) = omega (arith, h x, tally-map_silent w f h xs)

module _ (w : Effect → ℕ) (mute : Still w) where
  free_all-Still : (fs : List ℕ) → tally w (free_all fs) ≡ 0
  unfolding free_all
  free_all-Still [] = refl
  free_all-Still (f ∷ fs) = omega (arith, mute.on_free f, free_all-Still fs)

  pub free_lists-Still : (l : ListenerLists) → tally w (free_lists l) ≡ 0
  unfolding free_lists
  free_lists-Still l = omega (
    arith,
    tally-append w (free_all l.stdout_data) (free_all l.stderr_data ++ free_all l.exit_listeners),
    tally-append w (free_all l.stderr_data) (free_all l.exit_listeners),
    free_all-Still l.stdout_data,
    free_all-Still l.stderr_data,
    free_all-Still l.exit_listeners,
  )

  pub duplicate_all-Still : (fs : List Final) → tally w (duplicate_all fs) ≡ 0
  unfolding duplicate_all
  duplicate_all-Still [] = refl
  duplicate_all-Still (f ∷ fs) =
      omega (arith, mute.on_duplicate f.resolve, mute.on_duplicate f.reject, duplicate_all-Still fs)

  pub release_requests-Still :
      (finals : List Final) (requests : Table ExecRequest)
      → tally w (release_requests finals requests).1 ≡ 0
  unfolding release_requests
  release_requests-Still [] requests = refl
  release_requests-Still (f ∷ finals) requests = elim (Option-cases (find f.id requests)) [
    | inl e ↦ rw (e, release_requests) (release_requests-Still finals requests)
    | inr (r, e) ↦
        rw (e, release_requests)
          (omega (
            arith,
            mute.on_free r.resolve,
            mute.on_free r.reject,
            release_requests-Still finals (erase f.id requests),
          ))
  ]

  call_all-Still : (e : Emit) (fs : List ℕ) → tally w (call_all e fs) ≡ 0
  unfolding call_all
  call_all-Still e [] = refl
  call_all-Still e (f ∷ fs) = omega (arith, mute.on_call f e, call_all-Still e fs)

  emit_all-Still : (t : Table ListenerLists) (events : List Emit) → tally w (emit_all t events) ≡ 0
  unfolding emit_all
  emit_all-Still t [] = refl
  emit_all-Still t (e ∷ events) = omega (
    arith,
    tally-append w (call_all e (listeners_for e t)) (emit_all t events),
    call_all-Still e (listeners_for e t),
    emit_all-Still t events,
  )

  raise_all-tally :
      (events : List Emit) → tally w (raise_all events) ≡ tally (λ e. w (emits e)) events
  unfolding raise_all
  raise_all-tally [] = refl
  raise_all-tally (e ∷ events) = omega (arith, raise_all-tally events)

  pub emit_events-tally :
      (t : Table ListenerLists) (events : List Emit)
      → tally w (emit_events t events) ≡ tally (λ e. w (emits e)) events
  unfolding emit_events
  emit_events-tally t events = omega (
    arith,
    tally-append w (raise_all events) (emit_all t events),
    emit_all-Still t events,
    raise_all-tally events,
  )

  pub finish_all-tally :
      (g : Final → ℕ)
      → ((f : Final) (function : ℕ) (o : Outcome) → w (settles f.id function o) ≡ g f)
      → (finals : List Final) → tally w (finish_all finals) ≡ tally g finals
  unfolding finish_all
  finish_all-tally g h [] = refl
  finish_all-tally g h (f ∷ finals) =
      omega
        (arith, h f _ _, mute.on_free f.resolve, mute.on_free f.reject, finish_all-tally g h finals)
