-- ===== src/Dbus/Service/Serving.antt =====
-- The counts of calls and answers over service_update of dbus/src/service.hpp.
use koya_plugins.Base.{
  codes, ℕ, ◌+◌, ◌≤◌, ◌≡◌, refl, ap, ◌∙◌, Option, none, some, List, [], ◌∷◌, ◌++◌, arith, Bytes,
  Table, find, emplace, emplace_fresh, entries, tally, tally-append, Option-cases, inl, inr,
}
use koya_plugins.Dbus.Marshal.{Libdbus}
use koya_plugins.Dbus.Calls.{
  Request, error, Effect, assigned, duplicated, freed, called, DbusState, note, Names,
  finish_effects, key_of, find_export, Action, unknown, after_handler, begin_call,
}
use koya_plugins.Dbus.Service.{
  act, acts, Script, run_handler, serve, serve_all, service_update, step, steps,
}
use koya_plugins.Dbus.Service.Accounting.{
  gets, unrefs, wants, sends, numbered, refers, Within, finish_effects-Sums, Inv, Ok, change-Inv,
  quiet-Ok, finish-Ok, answered,
}
use koya_plugins.Dbus.Service.Ledger.{act-Ok, acts-Ok}
use koya_plugins.Dbus.Service.Open.{Acted, act-Acted, acts-Acted}

begin_call-Ok :
    (b : List Request) (s : DbusState) (request : Request) (handler : ℕ)
    → Ok (request ∷ b) s
    → Ok b (begin_call s request handler)
begin_call-Ok b s request handler ok within =
    rw (emplace_fresh s.next_invocation request s.invocations none_yet) (record {
      counted = omega (arith, inv.counted, more, within);
      fresh = λ k le. ground (arith, inv.fresh k, le, inv.counted, more, within);
      unique = λ k. ground (arith, inv.unique k, inv.fresh k);
      refs = λ m.
          omega
            (arith, inv.refs m, tally-append (gets m) s.log es, tally-append (unrefs m) s.log es);
      answers = λ c m. omega (
        arith,
        inv.answers c m,
        tally-append (wants m) s.log es,
        tally-append (sends m) s.log es,
      );
    })
  where
    es : List Effect
    es = assigned s.next_invocation ∷ duplicated handler ∷ called handler s.next_invocation ∷ []

    more : tally numbered (s.log ++ es) ≡ tally numbered s.log + 1
    more = omega (arith, tally-append numbered s.log es)

    inv : Inv (request ∷ b) s.next_invocation s.connection s.methods s.invocations s.log
    inv = ok (omega (arith, within, more))

    none_yet : entries s.next_invocation s.invocations ≡ 0
    none_yet = inv.fresh s.next_invocation (omega arith)

find_begun :
    (k : ℕ) (request : Request) (t : Table Request)
    → entries k t ≡ 0
    → find k (emplace k request t) ≡ some request
unfolding find
find_begun k request t none_yet = rw (emplace_fresh k request t none_yet) (ground arith)

-- The handler's exception answers the call, if it is still open.
after_handler-Ok :
    (b : List Request) (s0 s : DbusState) (id : ℕ) (request : Request) (thrown : Option Bytes)
    → ((k : ℕ) → entries k s0.invocations ≤ 1)
    → find id s0.invocations ≡ some request
    → Acted s0 s
    → Ok b s
    → Ok b (after_handler s id request thrown)
after_handler-Ok b s0 s id request none u e acted ok = ok
after_handler-Ok b s0 s id request (some text) u e acted ok =
    elim (Option-cases (find id s.invocations)) [
      | inl gone ↦ rw (gone, after_handler) ok
      | inr (r, f) ↦
          let same : r ≡ request = cc (acted.kept u id r f, e) in
          rw (f, after_handler)
            (finish-Ok b s id request
              (some (error (codes "org.freedesktop.DBus.Error.Failed") text)) (f ∙ ap some same) ok)
    ]

-- The exception leaves the count of invocations and the connection.
after_handler-keeps :
    (s : DbusState) (id : ℕ) (request : Request) (thrown : Option Bytes)
    → let s' = after_handler s id request thrown in
      (tally numbered s'.log ≡ tally numbered s.log) × (s'.connection ≡ s.connection)
after_handler-keeps s id request none = (refl, refl)
after_handler-keeps s id request (some text) = elim (Option-cases (find id s.invocations)) [
  | inl gone ↦ rw (gone, after_handler) (refl, refl)
  | inr (r, f) ↦
      let failed = error (codes "org.freedesktop.DBus.Error.Failed") text in
      rw (f, after_handler)
        (
          omega (
            arith,
            (finish_effects-Sums s.connection request failed 0).4,
            tally-append numbered s.log (finish_effects s.connection request failed),
          ),
          refl,
        )
]

module _ (lib : Libdbus) (names : Names) (script : Script lib names) where
  serve-connection :
      (s : DbusState) (request : Request)
      → (serve lib names script s request).connection ≡ s.connection
  unfolding serve
  serve-connection s request = elim (Option-cases (find_export (key_of request) s.exports)) [
    | inl e ↦ rw (e, serve) refl
    | inr (handler, e) ↦
        let s' = begin_call s request handler in
        let ran = script s' request s.next_invocation in
        rw (e, serve)
          ((after_handler-keeps (note (acts lib names s' ran.0) (freed handler ∷ []))
              s.next_invocation request ran.1).1
            ∙ (acts-Acted lib names s' ran.0).connected)
  ]

  run_handler-Ok :
      (b : List Request) (s : DbusState) (request : Request) (handler : ℕ)
      → Ok (request ∷ b) s
      → Ok b (run_handler lib names script s request handler)
  run_handler-Ok b s request handler ok within =
      after_handler-Ok b s1 s3 s.next_invocation request ran.1 inv.unique there
        (record {
          fewer = acted.fewer;
          kept = acted.kept;
          unnumbered = same;
          connected = acted.connected;
        })
        (quiet-Ok b (acts lib names s1 ran.0) (freed handler ∷ []) (λ m. omega arith)
          (acts-Ok lib names b s1 ran.0 ok1))
        within
    where
      s1 : DbusState
      s1 = begin_call s request handler

      ran : List Action × Option Bytes
      ran = script s1 request s.next_invocation

      s3 : DbusState
      s3 = note (acts lib names s1 ran.0) (freed handler ∷ [])

      ok1 : Ok b s1
      ok1 = begin_call-Ok b s request handler ok

      acted : Acted s1 (acts lib names s1 ran.0)
      acted = acts-Acted lib names s1 ran.0

      same : tally numbered s3.log ≡ tally numbered s1.log
      same = omega (
        arith,
        acted.unnumbered,
        tally-append numbered (acts lib names s1 ran.0).log (freed handler ∷ []),
      )

      within1 : Within s1
      within1 =
          omega (arith, within, same, (after_handler-keeps s3 s.next_invocation request ran.1).0)

      before : Inv (request ∷ b) s.next_invocation s.connection s.methods s.invocations s.log
      before = ok (
          omega (
            arith,
            within1,
            tally-append numbered s.log (
                assigned s.next_invocation
                ∷ duplicated handler
                ∷ called handler s.next_invocation
                ∷ []),
          ))

      inv : Inv b s1.next_invocation s1.connection s1.methods s1.invocations s1.log
      inv = ok1 within1

      there : find s.next_invocation s1.invocations ≡ some request
      there =
          find_begun s.next_invocation request s.invocations
            (before.fresh s.next_invocation (omega arith))

  serve-Ok :
      (b : List Request) (s : DbusState) (request : Request)
      → Ok (request ∷ b) s
      → Ok b (serve lib names script s request)
  unfolding serve
  serve-Ok b s request ok = elim (Option-cases (find_export (key_of request) s.exports)) [
    | inl e ↦
        rw (e, serve)
          (change-Inv (request ∷ b) b s s.methods s.invocations
            (finish_effects s.connection request (unknown s request)) (λ m. 0)
            (λ m. refers m request) (λ m. 0) (λ m. answered s.connection m request)
            (finish_effects-Sums s.connection request (unknown s request)) (λ k. omega arith)
            (λ m. omega arith) (λ c m. rw c (omega arith)) ok)
    | inr (handler, e) ↦ rw (e, serve) (run_handler-Ok b s request handler ok)
  ]

  serve_all-Ok :
      (s : DbusState) (incoming : List Request)
      → Ok incoming s
      → Ok [] (serve_all lib names script s incoming)
  unfolding serve_all
  serve_all-Ok s [] ok = ok
  serve_all-Ok s (request ∷ incoming) ok =
      serve_all-Ok (serve lib names script s request) incoming (serve-Ok incoming s request ok)

  serve_all-connection :
      (s : DbusState) (incoming : List Request)
      → (serve_all lib names script s incoming).connection ≡ s.connection
  unfolding serve_all
  serve_all-connection s [] = refl
  serve_all-connection s (request ∷ incoming) =
      serve_all-connection (serve lib names script s request) incoming ∙ serve-connection s request

  step-Ok : (s : DbusState) (e : Option Action) → Ok [] s → Ok [] (step lib names script s e)
  unfolding step service_update
  step-Ok s (some a) ok = act-Ok lib names [] s a ok
  step-Ok s none ok =
      serve_all-Ok (record s { methods = [] }) s.methods
        (λ within.
          let inv = ok within in
          record {
            counted = inv.counted;
            fresh = inv.fresh;
            unique = inv.unique;
            refs = λ m. omega (arith, inv.refs m);
            answers = λ c m. omega (arith, inv.answers c m);
          })

  pub steps-Ok :
      (s : DbusState) (events : List (Option Action))
      → Ok [] s
      → Ok [] (steps lib names script s events)
  unfolding steps
  steps-Ok s [] ok = ok
  steps-Ok s (e ∷ events) ok = steps-Ok (step lib names script s e) events (step-Ok s e ok)

  pub steps-connection :
      (s : DbusState) (events : List (Option Action))
      → (steps lib names script s events).connection ≡ s.connection
  unfolding steps step service_update
  steps-connection s [] = refl
  steps-connection s (some a ∷ events) =
      steps-connection (act lib names s a) events ∙ (act-Acted lib names s a).connected
  steps-connection s (none ∷ events) =
      steps-connection (service_update lib names script s) events
      ∙ serve_all-connection (record s { methods = [] }) s.methods
