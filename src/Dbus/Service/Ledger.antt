-- ===== src/Dbus/Service/Ledger.antt =====
-- The references of dbus/src/service.hpp to method calls, and the answers to them.
use koya_plugins.Base.{
  ℕ, ◌+◌, ◌≤◌, ◌≡◌, refl, Bool, ◌&&◌, Option, none, some, List, [], ◌∷◌, ◌++◌, arith, Bytes,
  bytes_eq, Table, find, entries, tally, tally-append, if◌then◌else◌, if_keeps, Option-cases,
  Bool-cases, inl, inr,
}
use koya_plugins.Dbus.Types.{JsValues}
use koya_plugins.Dbus.Marshal.{Libdbus, append_values}
use koya_plugins.Dbus.Calls.{
  Request, received, emitted, duplicated, freed, DbusState, note, Names, finish_effects, key_of,
  service_key, find_export, Finish, Action, receives, finishes, exports_object, unexports_object,
  emits, keep_others, finish_those, unexported,
}
use koya_plugins.Dbus.Service.{
  answer_of, invocation_finish, export_object, unexport_object, emit_signal, address_ok, act, acts,
}
use koya_plugins.Dbus.Service.Accounting.{
  owed, refers, in_call, Sums, Sums-append, answered, finish_effects-Sums, Ok, change-Inv, quiet-Ok,
  finish-Ok,
}

receive-Ok :
    (lib : Libdbus) (names : Names) (b : List Request) (s : DbusState) (request : Request)
    → Ok b s
    → Ok b (act lib names s (receives request))
unfolding act
receive-Ok lib names b s request =
    change-Inv b b s (s.methods ++ request ∷ []) s.invocations (received request ∷ [])
      (λ m. refers m request) (λ m. 0) (λ m. owed m request) (λ m. 0) (λ m. omega arith)
      (λ k. omega arith) (λ m. omega (arith, tally-append (refers m) s.methods (request ∷ [])))
      (λ c m. omega (arith, tally-append (owed m) s.methods (request ∷ [])))

invocation_finish-Ok :
    (lib : Libdbus) (names : Names) (b : List Request) (s : DbusState) (id : ℕ) (f : Finish)
    → Ok b s
    → Ok b (invocation_finish lib names s id f)
unfolding invocation_finish
invocation_finish-Ok lib names b s id f ok =
    if_keeps (Ok b) s.shutting_down ok (elim (Option-cases (find id s.invocations)) [
      | inl e ↦ rw e ok
      | inr (request, e) ↦ rw e (finish-Ok b s id request (answer_of lib names f) e ok)
    ])

pub keep_others-entries :
    (key : Bytes) (k : ℕ) (t : Table Request) → entries k (keep_others key t) ≤ entries k t
unfolding keep_others
keep_others-entries key k [] = omega arith
keep_others-entries key k ((id, request) ∷ t) = elim (Bool-cases (bytes_eq (key_of request) key)) [
  | inl e ↦ rw (e, keep_others) (omega (arith, keep_others-entries key k t))
  | inr e ↦ rw (e, keep_others) (omega (arith, keep_others-entries key k t))
]

-- The calls that are not kept, by a weight.
abbrev pub dropped : (Request → ℕ) → Bytes → Table Request → ℕ
dropped w key [] = 0
dropped w key ((id, request) ∷ t) =
    (if bytes_eq (key_of request) key then w request else 0) + dropped w key t

keep_others-tally :
    (w : Request → ℕ) (key : Bytes) (t : Table Request)
    → tally (in_call w) (keep_others key t) + dropped w key t ≡ tally (in_call w) t
unfolding keep_others
keep_others-tally w key [] = refl
keep_others-tally w key ((id, request) ∷ t) = elim (Bool-cases (bytes_eq (key_of request) key)) [
  | inl e ↦ rw (e, keep_others) (omega (arith, keep_others-tally w key t))
  | inr e ↦ rw (e, keep_others) (omega (arith, keep_others-tally w key t))
]

pub finish_those-Sums :
    (connection : Bool) (key : Bytes) (t : Table Request) (m : ℕ)
    → Sums m
        (finish_those connection key t)
        0
        (dropped (refers m) key t)
        0
        (dropped (answered connection m) key t)
        0
unfolding finish_those
finish_those-Sums connection key [] m = omega arith
finish_those-Sums connection key ((id, request) ∷ t) m =
    elim (Bool-cases (bytes_eq (key_of request) key)) [
      | inl e ↦
          rw (e, finish_those)
            (omega (
              arith,
              Sums-append m (finish_effects connection request unexported)
                  (finish_those connection key t) 0 (refers m request) 0
                  (answered connection m request) 0 0 (dropped (refers m) key t) 0
                  (dropped (answered connection m) key t) 0
                  (finish_effects-Sums connection request unexported m)
                  (finish_those-Sums connection key t m),
            ))
      | inr e ↦ rw (e, finish_those) (omega (arith, finish_those-Sums connection key t m))
    ]

unexport-Ok :
    (lib : Libdbus) (names : Names) (b : List Request) (s : DbusState) (path iface : Bytes)
    → Ok b s
    → Ok b (unexport_object lib names s path iface)
unfolding unexport_object
unexport-Ok lib names b s path iface ok =
    elim (Option-cases (find_export (service_key path iface) s.exports)) [
      | inl e ↦ rw (e, unexport_object) ok
      | inr (handler, e) ↦
          let key = service_key path iface in
          rw (e, unexport_object)
            (change-Inv b b s s.methods (keep_others key s.invocations)
              (freed handler ∷ finish_those s.connection key s.invocations) (λ m. 0)
              (λ m. dropped (refers m) key s.invocations) (λ m. 0)
              (λ m. dropped (answered s.connection m) key s.invocations)
              (λ m. omega (arith, finish_those-Sums s.connection key s.invocations m))
              (λ k. keep_others-entries key k s.invocations)
              (λ m. omega (arith, keep_others-tally (refers m) key s.invocations))
              (λ c m. rw c (omega (arith, keep_others-tally (owed m) key s.invocations))) ok)
    ]

export-Ok :
    (lib : Libdbus) (names : Names) (b : List Request) (s : DbusState) (path iface : Bytes)
    (handler : ℕ)
    → Ok b s
    → Ok b (export_object lib names s path iface handler)
unfolding export_object
export-Ok lib names b s path iface handler ok =
    if_keeps (Ok b) (s.connection && (lib.validate_path path && names.validate_interface iface))
      (elim (Option-cases (find_export (service_key path iface) s.exports)) [
        | inl e ↦ rw e (quiet-Ok b s (duplicated handler ∷ []) (λ m. omega arith) ok)
        | inr (old, e) ↦ rw e ok
      ])
      ok

emit-Ok :
    (lib : Libdbus) (names : Names) (b : List Request) (s : DbusState) (destination : Option Bytes)
    (path iface member types_text : Bytes) (values : JsValues)
    → Ok b s
    → Ok b (emit_signal lib names s destination path iface member types_text values)
unfolding emit_signal
emit-Ok lib names b s destination path iface member types_text values ok =
    if_keeps (Ok b) (address_ok lib names s destination path iface member)
      {x = elim (append_values lib types_text values) [
        | none ↦ s
        | some wires ↦ note s (emitted destination path iface member wires ∷ [])
      ]}
      (elim (Option-cases (append_values lib types_text values)) [
        | inl e ↦ rw e ok
        | inr (wires, e) ↦
            rw e (
              quiet-Ok b s (emitted destination path iface member wires ∷ []) (λ m. omega arith) ok)
      ])
      ok

pub act-Ok :
    (lib : Libdbus) (names : Names) (b : List Request) (s : DbusState) (a : Action)
    → Ok b s
    → Ok b (act lib names s a)
unfolding act
act-Ok lib names b s (receives request) ok = receive-Ok lib names b s request ok
act-Ok lib names b s (finishes id f) ok = invocation_finish-Ok lib names b s id f ok
act-Ok lib names b s (exports_object path iface handler) ok =
    export-Ok lib names b s path iface handler ok
act-Ok lib names b s (unexports_object path iface) ok = unexport-Ok lib names b s path iface ok
act-Ok lib names b s (emits destination path iface member types_text values) ok =
    emit-Ok lib names b s destination path iface member types_text values ok

pub acts-Ok :
    (lib : Libdbus) (names : Names) (b : List Request) (s : DbusState) (as' : List Action)
    → Ok b s
    → Ok b (acts lib names s as')
unfolding acts
acts-Ok lib names b s [] ok = ok
acts-Ok lib names b s (a ∷ actions) ok =
    acts-Ok lib names b (act lib names s a) actions (act-Ok lib names b s a ok)
