-- ===== src/Hypr/Commands.antt =====
-- build_sock_path, js_connect and the texts of the commands of hypr/src/module.cpp.
pub mod Words
pub mod Connecting
use koya_plugins.Base.{
  ℕ, ◌+◌, Bool, true, false, ◌||◌, Option, none, some, List, [], ◌∷◌, ◌++◌, Bytes, codes, is_empty,
  ◌==◌, if◌then◌else◌,
}

-- base.pop_back() if the last byte is a slash.
trim_slash : Bytes → Bytes
trim_slash [] = []
trim_slash (c ∷ []) = if c == b'/' then [] else c ∷ []
trim_slash (c ∷ d ∷ text) = c ∷ trim_slash (d ∷ text)

pub build_sock_path : Bytes → Bytes → Bool → Bytes
unfolding trim_slash
build_sock_path runtime_dir instance_sig event =
    trim_slash runtime_dir
    ++ (codes "/hypr/"
        ++ (instance_sig ++ (if event then codes "/.socket2.sock" else codes "/.socket.sock")))

-- The arguments that js_json appends, each behind a space.
append_args : Bytes → List Bytes → Bytes
append_args full [] = full
append_args full (arg ∷ args) = append_args (full ++ b' ' ∷ arg) args

-- js_json; `args` is empty where no array was given.
pub json_command : Bytes → List Bytes → Bytes
unfolding append_args
json_command topic args = append_args (codes "j/" ++ topic) args

-- The part of the state that js_connect sets, with the event threads started so far.
pub record Endpoint : Type 0 where
  pub runtime_dir : Bytes
  pub instance_signature : Bytes
  pub command_socket_path : Bytes
  pub event_socket_path : Bytes
  pub running : Bool
  pub threads_started : ℕ

-- The options object: a property that is not undefined, as text.
pub record Options : Type 0 where
  pub runtime_dir : Option Bytes
  pub instance_signature : Option Bytes

pub data Reply : Type 0 where
  undefined throws_type_error throws_reference_error : Reply

-- The first argument, if there is one: an object or something else.
pub data Argument : Type 0 where
  missing other : Argument
  object : Options → Argument

abbrev or_else : Option Bytes → Bytes → Bytes
or_else none text = text
or_else (some given) text = given

start_thread : Endpoint → Endpoint
start_thread e =
    if e.running then e else record e { running = true; threads_started = e.threads_started + 1 }

set_paths : Endpoint → Bytes → Bytes → Endpoint
set_paths e dir sig = record e {
  runtime_dir = dir;
  instance_signature = sig;
  command_socket_path = build_sock_path dir sig false;
  event_socket_path = build_sock_path dir sig true;
}

connect_with : Endpoint → Bytes → Bytes → Endpoint × Reply
unfolding start_thread set_paths
connect_with e dir sig =
    if is_empty dir || is_empty sig
    then (e, throws_reference_error)
    else (start_thread (set_paths e dir sig), undefined)

-- `dir` and `sig` are the two environment variables, empty where they are not set.
pub js_connect : Endpoint → (dir sig : Bytes) → Argument → Endpoint × Reply
unfolding connect_with
js_connect e dir sig missing = connect_with e dir sig
js_connect e dir sig other = (e, throws_type_error)
js_connect e dir sig (object o) =
    connect_with e (or_else o.runtime_dir dir) (or_else o.instance_signature sig)
