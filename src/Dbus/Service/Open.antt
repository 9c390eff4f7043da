-- ===== src/Dbus/Service/Open.antt =====
-- What an action of dbus/src/service.hpp leaves of the open calls.
use koya_plugins.Base.{
  ℕ, ◌≤◌, ◌≡◌, refl, ◌∙◌, ◌&&◌, Option, none, some, List, [], ◌∷◌, arith, Bytes, bytes_eq, Table,
  find, entries, entries-erase, find-erase, find_absent, tally, tally-append, ◌==◌, if_keeps,
  Option-cases, Bool-cases, inl, inr,
}
use koya_plugins.Dbus.Marshal.{Libdbus, append_values}
use koya_plugins.Dbus.Calls.{
  Request, Answer, Effect, received, emitted, duplicated, freed, DbusState, note, Names,
  finish_effects, key_of, service_key, find_export, Action, receives, finishes, exports_object,
  unexports_object, emits, keep_others, finish_those, finish,
}
use koya_plugins.Dbus.Service.{
  answer_of, invocation_finish, export_object, unexport_object, emit_signal, address_ok, act, acts,
}
use koya_plugins.Dbus.Service.Accounting.{numbered, finish_effects-Sums}
use koya_plugins.Dbus.Service.Ledger.{finish_those-Sums, keep_others-entries}

-- What an action leaves: no more open calls, and those that were there, under their numbers.
pub record Acted (s s' : DbusState) : Type 0 where
  pub fewer : (k : ℕ) → entries k s'.invocations ≤ entries k s.invocations
  pub kept :
      ((k : ℕ) → entries k s.invocations ≤ 1)
      → (k : ℕ) (r : Request) → find k s'.invocations ≡ some r
      → find k s.invocations ≡ some r
  pub unnumbered : tally numbered s'.log ≡ tally numbered s.log
  pub connected : s'.connection ≡ s.connection

pub Acted-self : (s : DbusState) → Acted s s
Acted-self s = record {
  fewer = λ k. omega arith;
  kept = λ u k r h. h;
  unnumbered = refl;
  connected = refl;
}

pub finish-Acted :
    (s : DbusState) (id : ℕ) (request : Request) (answer : Option Answer)
    → find id s.invocations ≡ some request
    → Acted s (finish s id request answer)
finish-Acted s id request none e = Acted-self s
finish-Acted s id request (some answer) e = record {
  fewer = λ k. omega (arith, entries-erase id k s.invocations request e);
  kept = λ u k r h. find-erase id k s.invocations r (u id) h;
  connected = refl;
  unnumbered = omega (
    arith,
    (finish_effects-Sums s.connection request answer 0).4,
    tally-append numbered s.log (finish_effects s.connection request answer),
  );
}

find-keep_others :
    (key : Bytes) (k : ℕ) (t : Table Request) (r : Request)
    → entries k t ≤ 1
    → find k (keep_others key t) ≡ some r
    → find k t ≡ some r
unfolding keep_others find
find-keep_others key k [] r one h = h
find-keep_others key k ((id, request) ∷ t) r one h =
    elim (Bool-cases (bytes_eq (key_of request) key)) [
      | inl e ↦
          let kept = rw e at h in
          elim (Bool-cases (id == k)) [
            | inl same ↦
                let gone =
                  find_absent k (keep_others key t)
                    (ground (arith, one, same, keep_others-entries key k t)) in
                absurd (cc (gone, kept))
            | inr other ↦ rw other (find-keep_others key k t r (ground (arith, one, other)) kept)
          ]
      | inr e ↦
          let kept = rw e at h in
          elim (Bool-cases (id == k)) [
            | inl same ↦ ground (arith, kept, same)
            | inr other ↦ ground (arith, kept, other, find-keep_others key k t r)
          ]
    ]

module _ (lib : Libdbus) (names : Names) where
  pub act-Acted : (s : DbusState) (a : Action) → Acted s (act lib names s a)
  unfolding act invocation_finish export_object unexport_object emit_signal
  act-Acted s (receives request) = record {
    fewer = λ k. omega arith;
    kept = λ u k r h. h;
    connected = refl;
    unnumbered = omega (arith, tally-append numbered s.log (received request ∷ []));
  }
  act-Acted s (finishes id f) =
      if_keeps (Acted s) s.shutting_down (Acted-self s)
        (elim (Option-cases (find id s.invocations)) [
          | inl e ↦ rw e (Acted-self s)
          | inr (request, e) ↦ rw e (finish-Acted s id request (answer_of lib names f) e)
        ])
  act-Acted s (exports_object path iface handler) =
      if_keeps (Acted s)
        (s.connection && (lib.validate_path path && names.validate_interface iface))
        (elim (Option-cases (find_export (service_key path iface) s.exports)) [
          | inl e ↦ rw e (record {
            fewer = λ k. omega arith;
            kept = λ u k r h. h;
            connected = refl;
            unnumbered = omega (arith, tally-append numbered s.log (duplicated handler ∷ []));
          })
          | inr (old, e) ↦ rw e (Acted-self s)
        ])
        (Acted-self s)
  act-Acted s (unexports_object path iface) =
      elim (Option-cases (find_export (service_key path iface) s.exports)) [
        | inl e ↦ rw (e, unexport_object) (Acted-self s)
        | inr (handler, e) ↦
            let key = service_key path iface in
            let es : List Effect = freed handler ∷ finish_those s.connection key s.invocations in
            rw (e, unexport_object)
              (record {
                fewer = λ k. keep_others-entries key k s.invocations;
                kept = λ u k r h. find-keep_others key k s.invocations r (u k) h;
                connected = refl;
                unnumbered = omega (
                  arith,
                  (finish_those-Sums s.connection key s.invocations 0).4,
                  tally-append numbered s.log es,
                );
              })
      ]
  act-Acted s (emits destination path iface member types_text values) =
      if_keeps (Acted s) (address_ok lib names s destination path iface member)
        {x = elim (append_values lib types_text values) [
          | none ↦ s
          | some wires ↦ note s (emitted destination path iface member wires ∷ [])
        ]}
        (elim (Option-cases (append_values lib types_text values)) [
          | inl e ↦ rw e (Acted-self s)
          | inr (wires, e) ↦ rw e (record {
            fewer = λ k. omega arith;
            kept = λ u k r h. h;
            connected = refl;
            unnumbered = omega (
              arith,
              tally-append numbered s.log (emitted destination path iface member wires ∷ []),
            );
          })
        ])
        (Acted-self s)

  pub acts-Acted : (s : DbusState) (actions : List Action) → Acted s (acts lib names s actions)
  unfolding acts
  acts-Acted s [] = Acted-self s
  acts-Acted s (a ∷ actions) =
      let first = act-Acted s a in
      let rest = acts-Acted (act lib names s a) actions in
      record {
        fewer = λ k. omega (arith, first.fewer k, rest.fewer k);
        kept =
            λ u k r h. first.kept u k r (rest.kept (λ j. omega (arith, first.fewer j, u j)) k r h);
        unnumbered = rest.unnumbered ∙ first.unnumbered;
        connected = rest.connected ∙ first.connected;
      }
