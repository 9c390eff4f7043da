-- ===== src/Ws/Drain.antt =====
-- ws/src/module.cpp: drain, the update and the shutdown, and the runs of a script.
pub mod Ownership
pub mod Batch
pub mod Order
pub mod Calls
use koya_plugins.Base.{
  ℕ, true, false, Option, none, some, List, [], ◌∷◌, ◌++◌, Table, find, c_string, if◌then◌else◌,
}
use koya_plugins.Ws.Types.{
  WebSocketMessageType, message, opens, closes, error, ping, pong, fragment, JsValue, null,
  primitive, object, WsCallbacks, JsWebSocketMessage, WsInstance, Argument, nothing, text, buffer,
  stop, destroy, Effect, duplicated, freed, called, turn, socket, WebSocketState, note,
}
use koya_plugins.Ws.Sockets.{release_net_system, ws_free_callbacks, Action, act, acts}

-- WsMessageBatch
abbrev pub WsMessageBatch : Type 0
WsMessageBatch = Table (List JsWebSocketMessage)

-- An identifier has an entry if its queue held something.
abbrev pub add_queue : ℕ → List JsWebSocketMessage → WsMessageBatch → WsMessageBatch
add_queue id [] batch = batch
add_queue id (m ∷ ms) batch = (id, m ∷ ms) ∷ batch

unfoldable pub local_queues : Table WsInstance → WsMessageBatch
local_queues [] = []
local_queues ((id, ws) ∷ instances) = add_queue id ws.message_queue (local_queues instances)

unfoldable pub empty_queues : Table WsInstance → Table WsInstance
empty_queues [] = []
empty_queues ((id, ws) ∷ instances) =
    (id, record ws { message_queue = [] }) ∷ empty_queues instances

-- The callback that the switch selects.
abbrev pub source : WsCallbacks → WebSocketMessageType → JsValue
source cbs message = cbs.on_message
source cbs opens = cbs.on_open
source cbs closes = cbs.on_close
source cbs error = cbs.on_error
source cbs ping = null
source cbs pong = null
source cbs fragment = null

-- JS_IsFunction
abbrev pub function : JsValue → Option ℕ
function null = none
function primitive = none
function (object ref callable) = if callable then some ref else none

abbrev pub callback : Option WsInstance → JsWebSocketMessage → Option ℕ
callback none m = none
callback (some ws) m = function (source ws.callbacks m.type)

abbrev pub argument : JsWebSocketMessage → Argument
argument m = elim m.type as (λ _. Argument) [
  | message ↦ if m.binary then buffer m.str else text (c_string m.str)
  | error ↦ text (c_string m.str)
  | _ ↦ nothing
]

-- What is done while a callback runs, by the function and its argument: its own calls, and messages
-- that come in.
abbrev pub Script : Type 0
Script = WebSocketState → ℕ → Argument → List Action

pub data Event : Type 0 where
  acting : Action → Event
  drains updates : Event

module _ (script : Script) where
  unfoldable pub call : WebSocketState → ℕ → JsWebSocketMessage → Option ℕ → WebSocketState
  call s id m none = note s (turn id m none ∷ [])
  call s id m (some f) =
      let s' = note s (duplicated f ∷ turn id m (some f) ∷ called f (argument m) ∷ []) in
      note (acts s' (script s' f (argument m))) (freed f ∷ [])

  unfoldable pub deliver : WebSocketState → ℕ → List JsWebSocketMessage → WebSocketState
  deliver s id [] = s
  deliver s id (m ∷ ms) = deliver (call s id m (callback (find id s.instances) m)) id ms

  unfoldable pub deliver_all : WebSocketState → WsMessageBatch → WebSocketState
  deliver_all s [] = s
  deliver_all s ((id, ms) ∷ batch) = deliver_all (deliver s id ms) batch

  unfoldable pub ws_drain : WebSocketState → WebSocketState
  ws_drain s =
      deliver_all (record s { instances = empty_queues s.instances }) (local_queues s.instances)

  unfoldable pub ws_update_callback : WebSocketState → WebSocketState
  ws_update_callback s = if s.context then ws_drain s else s

  unfoldable pub step : WebSocketState → Event → WebSocketState
  unfolding ws_update_callback
  step s (acting a) = act s a
  step s drains = ws_drain s
  step s updates = ws_update_callback s

  unfoldable pub steps : WebSocketState → List Event → WebSocketState
  steps s [] = s
  steps s (e ∷ events) = steps (step s e) events

-- The sockets that are swapped out are destroyed at the end of the function.
unfoldable pub stop_all : Table WsInstance → List Effect
stop_all [] = []
stop_all ((id, ws) ∷ instances) =
    socket id stop ∷ (ws_free_callbacks ws.callbacks ++ stop_all instances)

unfoldable pub destroy_all : Table WsInstance → List Effect
destroy_all [] = []
destroy_all ((id, ws) ∷ instances) = socket id destroy ∷ destroy_all instances

unfoldable pub leave_network : WebSocketState → WebSocketState
leave_network s =
    if s.network_initialized
    then record (release_net_system s) { network_initialized = false }
    else s

unfoldable pub script_shutdown : WebSocketState → WebSocketState
unfolding leave_network
script_shutdown s =
    let stopped = note (record s { instances = [] }) (stop_all s.instances) in
    note (record (leave_network stopped) { context = false }) (destroy_all s.instances)

abbrev pub initial : (net_users : ℕ) → WebSocketState
initial users = record {
  instances = [];
  next_id = 1;
  network_initialized = false;
  context = true;
  net_users = users;
  log = [];
}
