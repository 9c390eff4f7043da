-- ===== src/Ws/Types.antt =====
-- The data of ws/src/module.cpp, and what it asks of the engine and of its WebSocket library.
use koya_plugins.Base.{ℕ, Bool, Option, List, ◌++◌, Bytes, Table}

-- ix::WebSocketMessageType.
pub data WebSocketMessageType : Type 0 where
  message opens closes error ping pong fragment : WebSocketMessageType

-- A value of the engine: null, another value that is not counted, or a counted object.
pub data JsValue : Type 0 where
  null primitive : JsValue
  object : (ref : ℕ) (callable : Bool) → JsValue

pub record WsCallbacks : Type 0 where
  pub ctx : Bool
  pub on_message : JsValue
  pub on_open : JsValue
  pub on_close : JsValue
  pub on_error : JsValue

pub record JsWebSocketMessage : Type 0 where
  pub type : WebSocketMessageType
  pub str : Bytes
  pub binary : Bool

-- ix::WebSocketMessage, as far as it is read.
pub record WebSocketMessage : Type 0 where
  pub type : WebSocketMessageType
  pub str : Bytes
  pub binary : Bool
  pub reason : Bytes

pub record WsInstance : Type 0 where
  pub message_queue : List JsWebSocketMessage
  pub callbacks : WsCallbacks

-- What a callback is given: nothing, a text or a buffer.
pub data Argument : Type 0 where
  nothing : Argument
  text buffer : Bytes → Argument

-- The calls of an ix::WebSocket.
pub data SocketCall : Type 0 where
  start close stop destroy : SocketCall
  enable_automatic_reconnection disable_automatic_reconnection : SocketCall
  set_url send_text : Bytes → SocketCall

-- What happens outside the state: references to objects that are taken, duplicated and freed, calls
-- of functions and of sockets. `created`, `received` and `turn` record a socket with its callbacks,
-- a message that was queued, and a message taken by drain with the function called for it, if any.
pub data Effect : Type 0 where
  taken duplicated freed : (ref : ℕ) → Effect
  called : (ref : ℕ) → Argument → Effect
  created : (id : ℕ) → WsCallbacks → Effect
  received : (id : ℕ) → JsWebSocketMessage → Effect
  turn : (id : ℕ) → JsWebSocketMessage → Option ℕ → Effect
  socket : (id : ℕ) → SocketCall → Effect
  init_net_system uninit_net_system : Effect

-- `net_users` is wsNetUsers, which all instances of the plugin in the process share.
pub record WebSocketState : Type 0 where
  pub instances : Table WsInstance
  pub next_id : ℕ
  pub network_initialized : Bool
  pub context : Bool
  pub net_users : ℕ
  pub log : List Effect

abbrev pub note : WebSocketState → List Effect → WebSocketState
note s effects = record s { log = s.log ++ effects }
