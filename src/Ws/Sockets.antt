-- ===== src/Ws/Sockets.antt =====
-- ws/src/module.cpp: create, the methods of a socket object, and the callback of the library.
pub mod Accounting
pub mod Ledger
pub mod Messages
pub mod Queues
use koya_plugins.Base.{
  ℕ, ◌+◌, ◌-◌, ◌%◌, ◌^◌, Bool, true, false, Option, none, some, List, [], ◌∷◌, ◌++◌, Bytes, find,
  erase, assign, replace, ◌==◌, if◌then◌else◌,
}
use koya_plugins.Ws.Types.{
  error, JsValue, null, primitive, object, WsCallbacks, JsWebSocketMessage, WebSocketMessage,
  WsInstance, SocketCall, start, close, stop, destroy, enable_automatic_reconnection,
  disable_automatic_reconnection, set_url, send_text, Effect, taken, freed, created, received,
  socket, init_net_system, uninit_net_system, WebSocketState, note,
}

unfoldable pub retain_net_system : WebSocketState → WebSocketState
retain_net_system s = record s {
  net_users = s.net_users + 1;
  log = s.log ++ (if s.net_users == 0 then init_net_system ∷ [] else []);
}

unfoldable pub release_net_system : WebSocketState → WebSocketState
release_net_system s = record s {
  net_users = s.net_users - 1;
  log = s.log ++ (if s.net_users == 1 then uninit_net_system ∷ [] else []);
}

-- JS_FreeValue, and JS_GetPropertyStr, on which the caller owns the value.
abbrev pub free_value : JsValue → List Effect
free_value null = []
free_value primitive = []
free_value (object ref callable) = freed ref ∷ []

abbrev pub get_property : JsValue → List Effect
get_property null = []
get_property primitive = []
get_property (object ref callable) = taken ref ∷ []

abbrev is_null : JsValue → Bool
is_null null = true
is_null v = false

-- `if(!JS_IsNull(v)) JS_FreeValue(ctx, v)`
abbrev pub free_callback : JsValue → List Effect
free_callback v = if is_null v then [] else free_value v

-- The four fields are null afterwards; every caller drops them.
unfoldable pub ws_free_callbacks : WsCallbacks → List Effect
ws_free_callbacks cbs =
    if cbs.ctx
    then free_callback cbs.on_message
      ++ (free_callback cbs.on_open ++ (free_callback cbs.on_close ++ free_callback cbs.on_error))
    else []

-- ws_start_func, ws_close_func, ws_stop_func: a call of the socket, if it is still there.
abbrev pub with_socket : WebSocketState → ℕ → SocketCall → WebSocketState
with_socket s id call = elim (find id s.instances) [
  | none ↦ s
  | some ws ↦ note s (socket id call ∷ [])
]

unfoldable pub ws_start_func : WebSocketState → ℕ → WebSocketState
ws_start_func s id = with_socket s id start

unfoldable pub ws_close_func : WebSocketState → ℕ → WebSocketState
ws_close_func s id = with_socket s id close

unfoldable pub ws_stop_func : WebSocketState → ℕ → WebSocketState
ws_stop_func s id = with_socket s id stop

-- Without an argument the text is empty.
abbrev message_of : Option Bytes → Bytes
message_of none = []
message_of (some text) = text

unfoldable pub ws_send_func : WebSocketState → ℕ → Option Bytes → WebSocketState
ws_send_func s id argument = with_socket s id (send_text (message_of argument))

unfoldable pub ws_set_auto_reconnect_func : WebSocketState → ℕ → Bool → WebSocketState
ws_set_auto_reconnect_func s id enable =
    with_socket s id
      (if enable then enable_automatic_reconnection else disable_automatic_reconnection)

unfoldable pub ws_destroy_func : WebSocketState → ℕ → WebSocketState
ws_destroy_func s id = elim (find id s.instances) [
  | none ↦ s
  | some ws ↦
      note (record s { instances = erase id s.instances })
        (socket id close ∷ (ws_free_callbacks ws.callbacks ++ socket id destroy ∷ []))
]

-- The properties of the object that create is given.
pub record Options : Type 0 where
  pub on_message : JsValue
  pub on_open : JsValue
  pub on_close : JsValue
  pub on_error : JsValue
  pub url : Bytes

abbrev pub callbacks_of : Options → WsCallbacks
callbacks_of o = record {
  ctx = true;
  on_message = o.on_message;
  on_open = o.on_open;
  on_close = o.on_close;
  on_error = o.on_error;
}

abbrev pub get_callbacks : Options → List Effect
get_callbacks o =
    get_property o.on_message
    ++ (get_property o.on_open ++ (get_property o.on_close ++ get_property o.on_error))

abbrev pub ensure_network : WebSocketState → WebSocketState
ensure_network s =
    if s.network_initialized then s else retain_net_system (record s { network_initialized = true })

abbrev pub add_effects : ℕ → Options → List Effect
add_effects id o =
    socket id disable_automatic_reconnection
    ∷ (get_callbacks o ++ (socket id (set_url o.url) ∷ created id (callbacks_of o) ∷ []))

abbrev pub new_instance : Options → WsInstance
new_instance o = record { message_queue = []; callbacks = callbacks_of o }

abbrev pub add_instance : WebSocketState → Options → WebSocketState
add_instance s o = record s {
  instances = assign s.next_id (new_instance o) s.instances;
  next_id = (s.next_id + 1) % 2 ^ 32;
  log = s.log ++ add_effects s.next_id o;
}

-- Nothing is made for an argument that is no object: the call throws.
unfoldable pub ws_create : WebSocketState → Option Options → WebSocketState
ws_create s none = s
ws_create s (some o) = add_instance (ensure_network s) o

-- For an error, the reason stands for the text.
abbrev pub text_of : WebSocketMessage → Bytes
text_of m = elim m.type as (λ _. Bytes) [ error ↦ m.reason | _ ↦ m.str ]

abbrev pub js_message : WebSocketMessage → JsWebSocketMessage
js_message m = record { type = m.type; str = text_of m; binary = m.binary }

-- The callback that create hands to the socket, which runs on a thread of the library.
unfoldable pub message_callback : WebSocketState → ℕ → WebSocketMessage → WebSocketState
message_callback s id m = elim (find id s.instances) [
  | none ↦ s
  | some ws ↦
      note
        (record s {
          instances =
              replace id (record ws { message_queue = ws.message_queue ++ js_message m ∷ [] })
                s.instances;
        })
        (received id (js_message m) ∷ [])
]

-- What a script, or a thread of the library, does at one time.
pub data Action : Type 0 where
  creates : Option Options → Action
  starts closing stops destroys : (id : ℕ) → Action
  sends : (id : ℕ) → Option Bytes → Action
  sets_auto_reconnect : (id : ℕ) (enable : Bool) → Action
  receives : (id : ℕ) → WebSocketMessage → Action

unfoldable pub act : WebSocketState → Action → WebSocketState
unfolding ws_create ws_start_func ws_close_func ws_stop_func ws_destroy_func ws_send_func
    ws_set_auto_reconnect_func message_callback
act s (creates o) = ws_create s o
act s (starts id) = ws_start_func s id
act s (closing id) = ws_close_func s id
act s (stops id) = ws_stop_func s id
act s (destroys id) = ws_destroy_func s id
act s (sends id argument) = ws_send_func s id argument
act s (sets_auto_reconnect id enable) = ws_set_auto_reconnect_func s id enable
act s (receives id m) = message_callback s id m

unfoldable pub acts : WebSocketState → List Action → WebSocketState
acts s [] = s
acts s (a ∷ actions) = acts (act s a) actions
