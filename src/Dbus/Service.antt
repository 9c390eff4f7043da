-- ===== src/Dbus/Service.antt =====
-- dbus/src/service.hpp: exported objects and the method calls that wait for an answer, with the part of
-- the pump that queues a call and the part of the shutdown that drops them.
pub mod Accounting
pub mod Ledger
pub mod Open
pub mod Serving
pub mod Answers
use koya_plugins.Base.{
  ℕ, ◌+◌, ◌%◌, ◌^◌, Bool, true, false, not, ◌&&◌, ◌||◌, Option, none, some, List, [], ◌∷◌, ◌++◌,
  Bytes, codes, bytes_eq, is_empty, Table, find, erase, emplace, if◌then◌else◌, ◌==◌,
}
use koya_plugins.Dbus.Types.{JsValues, Wires}
use koya_plugins.Dbus.Marshal.{Libdbus, append_values}
use koya_plugins.Dbus.Calls.{
  Request, Answer, method_return, error, Effect, received, unref, emitted, DbusState, note, Names,
  reply_effects, finish_effects, service_key, key_of, find_export, erase_export, begins_with,
  known_path, Finish, replies, fails, Action, receives, finishes, exports_object, unexports_object,
  emits, keep_others, unexported, finish_those, finish, unknown, after_handler, begin_call, sent,
  assigned, duplicated, freed, called,
}

module _ (lib : Libdbus) (names : Names) where
  -- The answer that the arguments make, if they are allowed.
  abbrev pub answer_of : Finish → Option Answer
  answer_of (replies none) = none
  answer_of (replies (some (types_text, values))) = elim (append_values lib types_text values) [
    | none ↦ none
    | some wires ↦ some (method_return wires)
  ]
  answer_of (fails none) = none
  answer_of (fails (some (name, message))) =
      if names.validate_error_name name then some (error name message) else none

  -- The calls that throw change nothing.
  unfoldable pub invocation_finish : DbusState → ℕ → Finish → DbusState
  invocation_finish s id f = if s.shutting_down then s else elim (find id s.invocations) [
    | none ↦ s
    | some request ↦ finish s id request (answer_of f)
  ]

  unfoldable pub export_object : DbusState → Bytes → Bytes → ℕ → DbusState
  unfolding find_export service_key
  export_object s path iface handler =
      if s.connection && (lib.validate_path path && names.validate_interface iface)
      then elim (find_export (service_key path iface) s.exports) [
        | some old ↦ s
        | none ↦ record s {
          exports = (service_key path iface, handler) ∷ s.exports;
          log = s.log ++ duplicated handler ∷ [];
        }
      ]
      else s

  unfoldable pub unexport_object : DbusState → Bytes → Bytes → DbusState
  unfolding find_export erase_export keep_others finish_those service_key
  unexport_object s path iface = elim (find_export (service_key path iface) s.exports) [
    | none ↦ s
    | some handler ↦ record s {
      exports = erase_export (service_key path iface) s.exports;
      invocations = keep_others (service_key path iface) s.invocations;
      log =
          s.log ++ freed handler ∷ finish_those s.connection (service_key path iface) s.invocations;
    }
  ]

  abbrev destination_ok : Option Bytes → Bool
  destination_ok none = true
  destination_ok (some name) = names.validate_bus_name name

  abbrev pub address_ok : DbusState → Option Bytes → Bytes → Bytes → Bytes → Bool
  address_ok s destination path iface member =
      s.connection
      && (destination_ok destination
          && (lib.validate_path path
              && (names.validate_interface iface && names.validate_member member)))

  -- js_emitSignal, and js_emitSignalTo where there is a destination.
  unfoldable pub emit_signal :
      DbusState → Option Bytes → Bytes → Bytes → Bytes → Bytes → JsValues → DbusState
  emit_signal s destination path iface member types_text values =
      if address_ok s destination path iface member
      then elim (append_values lib types_text values) [
        | none ↦ s
        | some wires ↦ note s (emitted destination path iface member wires ∷ [])
      ]
      else s

  unfoldable pub act : DbusState → Action → DbusState
  unfolding invocation_finish export_object unexport_object emit_signal
  act s (receives request) = record s {
    methods = s.methods ++ request ∷ [];
    log = s.log ++ received request ∷ [];
  }
  act s (finishes id f) = invocation_finish s id f
  act s (exports_object path iface handler) = export_object s path iface handler
  act s (unexports_object path iface) = unexport_object s path iface
  act s (emits destination path iface member types_text values) =
      emit_signal s destination path iface member types_text values

  unfoldable pub acts : DbusState → List Action → DbusState
  unfolding act
  acts s [] = s
  acts s (a ∷ actions) = acts (act s a) actions

  -- What happens while a handler runs, and the text of the exception that it throws, if it does.
  abbrev pub Script : Type 0
  Script = DbusState → Request → ℕ → List Action × Option Bytes

  module _ (script : Script) where
    abbrev pub run_handler : DbusState → Request → ℕ → DbusState
    run_handler s request handler =
        let s' = begin_call s request handler in
        let (actions, thrown) = script s' request s.next_invocation in
        after_handler (note (acts s' actions) (freed handler ∷ [])) s.next_invocation request thrown

    unfoldable pub serve : DbusState → Request → DbusState
    unfolding known_path find_export service_key acts
    serve s request = elim (find_export (key_of request) s.exports) [
      | none ↦ note s (finish_effects s.connection request (unknown s request))
      | some handler ↦ run_handler s request handler
    ]

    unfoldable pub serve_all : DbusState → List Request → DbusState
    unfolding serve
    serve_all s [] = s
    serve_all s (request ∷ incoming) = serve_all (serve s request) incoming

    unfoldable pub service_update : DbusState → DbusState
    unfolding serve_all
    service_update s = serve_all (record s { methods = [] }) s.methods

    unfoldable pub step : DbusState → Option Action → DbusState
    unfolding service_update act
    step s none = service_update s
    step s (some a) = act s a

    -- Actions, and updates between them.
    unfoldable pub steps : DbusState → List (Option Action) → DbusState
    unfolding step
    steps s [] = s
    steps s (e ∷ events) = steps (step s e) events

unfoldable pub unref_calls : Table Request → List Effect
unref_calls [] = []
unref_calls ((id, request) ∷ t) = unref request.message ∷ unref_calls t

unfoldable pub unref_methods : List Request → List Effect
unref_methods [] = []
unref_methods (request ∷ methods) = unref request.message ∷ unref_methods methods

unfoldable pub free_exports : List (Bytes × ℕ) → List Effect
free_exports [] = []
free_exports ((key, handler) ∷ exports) = freed handler ∷ free_exports exports

-- The part of dbus_shutdown about services, after the threads were joined.
unfoldable pub dbus_shutdown : DbusState → DbusState
unfolding unref_calls unref_methods free_exports
dbus_shutdown s = record s {
  shutting_down = true;
  connection = false;
  exports = [];
  invocations = [];
  methods = [];
  log = s.log ++ (free_exports s.exports ++ (unref_calls s.invocations ++ unref_methods s.methods));
}

abbrev pub initial : (connection : Bool) → DbusState
initial connection = record {
  methods = [];
  exports = [];
  invocations = [];
  next_invocation = 1;
  connection = connection;
  shutting_down = false;
  log = [];
}
