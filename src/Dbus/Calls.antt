-- ===== src/Dbus/Calls.antt =====
-- dbus/src/service.hpp: the state of the plugin as far as calls go, their effects, and the
-- parts of the handlers that need no library.
use koya_plugins.Base.{
  ℕ, ◌+◌, ◌%◌, ◌^◌, Bool, true, false, not, ◌&&◌, ◌||◌, Option, none, some, List, [], ◌∷◌, ◌++◌,
  Bytes, codes, bytes_eq, Table, find, erase, emplace, if◌then◌else◌, ◌==◌,
}
use koya_plugins.Dbus.Types.{JsValues, Wires}

-- A method call: its DBusMessage, where it goes, and whether its sender wants no answer.
pub record Request : Type 0 where
  pub message : ℕ
  pub path : Bytes
  pub iface : Option Bytes
  pub no_reply : Bool

pub data Answer : Type 0 where
  method_return : Wires → Answer
  error : (name : Bytes) (message : Bytes) → Answer

-- `received` records a call that is queued and its reference, `assigned` the number of an invocation.
pub data Effect : Type 0 where
  received : Request → Effect
  unref : (message : ℕ) → Effect
  sent : (message : ℕ) → Answer → Effect
  emitted : (destination : Option Bytes) (path iface member : Bytes) → Wires → Effect
  assigned : (id : ℕ) → Effect
  duplicated freed : (handler : ℕ) → Effect
  called : (handler id : ℕ) → Effect

-- The connection is only tested for being there.
pub record DbusState : Type 0 where
  pub methods : List Request
  pub exports : List (Bytes × ℕ)
  pub invocations : Table Request
  pub next_invocation : ℕ
  pub connection : Bool
  pub shutting_down : Bool
  pub log : List Effect

abbrev pub note : DbusState → List Effect → DbusState
note s effects = record s { log = s.log ++ effects }

-- The tests of libdbus on names.
pub record Names : Type 0 where
  pub validate_interface : Bytes → Bool
  pub validate_member : Bytes → Bool
  pub validate_bus_name : Bytes → Bool
  pub validate_error_name : Bytes → Bool

-- send_service_reply
abbrev pub reply_effects : Bool → Request → Answer → List Effect
reply_effects connection request answer =
    if not request.no_reply && connection then sent request.message answer ∷ [] else []

-- An answer and the end of the reference to the call.
abbrev pub finish_effects : Bool → Request → Answer → List Effect
finish_effects connection request answer =
    reply_effects connection request answer ++ unref request.message ∷ []

abbrev text_or_empty : Option Bytes → Bytes
text_or_empty none = []
text_or_empty (some text) = text

unfoldable pub service_key : Bytes → Bytes → Bytes
service_key path iface = path ++ 10 ∷ iface

abbrev pub key_of : Request → Bytes
key_of request = service_key request.path (text_or_empty request.iface)

unfoldable pub find_export : Bytes → List (Bytes × ℕ) → Option ℕ
unfolding bytes_eq
find_export key [] = none
find_export key ((k, handler) ∷ exports) =
    if bytes_eq k key then some handler else find_export key exports

unfoldable pub erase_export : Bytes → List (Bytes × ℕ) → List (Bytes × ℕ)
unfolding bytes_eq
erase_export key [] = []
erase_export key ((k, handler) ∷ exports) =
    if bytes_eq k key then exports else (k, handler) ∷ erase_export key exports

-- A path with an exported interface: a key begins with it and a newline.
pub begins_with : Bytes → Bytes → Bool
begins_with [] text = true
begins_with (c ∷ start) [] = false
begins_with (c ∷ start) (d ∷ text) = c == d && begins_with start text

unfoldable pub known_path : Bytes → List (Bytes × ℕ) → Bool
unfolding begins_with
known_path path [] = false
known_path path ((k, handler) ∷ exports) =
    begins_with (path ++ 10 ∷ []) k || known_path path exports

-- The arguments of `reply` and `error`; `none` if they are not of the kinds that are asked for.
pub data Finish : Type 0 where
  replies : Option (Bytes × JsValues) → Finish
  fails : Option (Bytes × Bytes) → Finish

-- js_exportObject and js_unexportObject, emitSignal and emitSignalTo, an answer, and a call that comes in.
pub data Action : Type 0 where
  receives : Request → Action
  finishes : (id : ℕ) → Finish → Action
  exports_object : (path iface : Bytes) (handler : ℕ) → Action
  unexports_object : (path iface : Bytes) → Action
  emits :
      (destination : Option Bytes) (path iface member : Bytes) (types_text : Bytes)
      (values : JsValues)
      → Action

-- The entries that stay when an object is taken back, and what becomes of the others.
unfoldable pub keep_others : Bytes → Table Request → Table Request
unfolding bytes_eq service_key
keep_others key [] = []
keep_others key ((id, request) ∷ t) =
    if bytes_eq (key_of request) key then keep_others key t else (id, request) ∷ keep_others key t

abbrev pub unexported : Answer
unexported =
    error (codes "org.freedesktop.DBus.Error.UnknownObject") (codes "Object interface unexported")

unfoldable pub finish_those : Bool → Bytes → Table Request → List Effect
unfolding bytes_eq service_key
finish_those connection key [] = []
finish_those connection key ((id, request) ∷ t) =
    if bytes_eq (key_of request) key
    then finish_effects connection request unexported ++ finish_those connection key t
    else finish_those connection key t

abbrev pub finish : DbusState → ℕ → Request → Option Answer → DbusState
finish s id request none = s
finish s id request (some answer) = record s {
  invocations = erase id s.invocations;
  log = s.log ++ finish_effects s.connection request answer;
}

abbrev pub unknown : DbusState → Request → Answer
unknown s request =
    error
      (if known_path request.path s.exports
        then codes "org.freedesktop.DBus.Error.UnknownMethod"
        else codes "org.freedesktop.DBus.Error.UnknownObject")
      (codes "No exported handler for object interface")

-- A handler that throws answers a call that is still open.
abbrev pub after_handler : DbusState → ℕ → Request → Option Bytes → DbusState
after_handler s id request none = s
after_handler s id request (some text) = elim (find id s.invocations) [
  | none ↦ s
  | some open_call ↦
      finish s id request (some (error (codes "org.freedesktop.DBus.Error.Failed") text))
]

abbrev pub begin_call : DbusState → Request → ℕ → DbusState
begin_call s request handler = record s {
  next_invocation = (s.next_invocation + 1) % 2 ^ 32;
  invocations = emplace s.next_invocation request s.invocations;
  log =
      s.log
      ++ assigned s.next_invocation ∷ duplicated handler ∷ called handler s.next_invocation ∷ [];
}
