-- ===== src/Ws/Drain/Calls.antt =====
-- Which functions one drain of ws/src/module.cpp calls, and with what.
use koya_plugins.Base.{
  ℕ, Bytes, ◌+◌, ◌≤◌, ◌≡◌, refl, sym, ap, ◌∙◌, Bool, true, false, Option, none, some, List, [], ◌∷◌,
  ◌++◌, append_assoc, append-nil, arith, Table, find, entries, c_string, ◌==◌, ==_iff,
  if◌then◌else◌, Bool-cases, inl, inr,
}
use koya_plugins.Ws.Types.{
  WebSocketMessageType, message, opens, closes, error, ping, pong, fragment, JsValue, null,
  primitive, object, WsCallbacks, JsWebSocketMessage, WsInstance, Argument, nothing, text, buffer,
  Effect, duplicated, freed, called, turn, WebSocketState,
}
use koya_plugins.Ws.Sockets.{acts}
use koya_plugins.Ws.Sockets.Accounting.{Within, Inv}
use koya_plugins.Ws.Drain.{
  add_queue, function, local_queues, empty_queues, WsMessageBatch, callback, argument, Script, call,
  deliver, deliver_all, ws_drain, Event, steps, initial,
}
use koya_plugins.Ws.Drain.Ownership.{steps-Ok, initial-Ok}

-- The functions called, with their arguments.
abbrev pub calls_of : List Effect → List (ℕ × Argument)
calls_of [] = []
calls_of (called f a ∷ es) = (f, a) ∷ calls_of es
calls_of (e ∷ es) = calls_of es

-- A value that is a function is to be called.
abbrev pub given : JsValue → Argument → List (ℕ × Argument)
given (object f true) a = (f, a) ∷ []
given v a = []

-- What a message is due: one that came in goes to onMessage, as a buffer if it is binary and as a text
-- up to its first NUL byte otherwise; an opening and a closing to onOpen and onClose with no argument;
-- an error to onError with its reason; the others to nobody.
abbrev pub due_one : WsCallbacks → JsWebSocketMessage → List (ℕ × Argument)
due_one cbs m = elim m.type as (λ _. List (ℕ × Argument)) [
  | message ↦ given cbs.on_message (if m.binary then buffer m.str else text (c_string m.str))
  | opens ↦ given cbs.on_open nothing
  | closes ↦ given cbs.on_close nothing
  | error ↦ given cbs.on_error (text (c_string m.str))
  | _ ↦ []
]

abbrev pub due : WsCallbacks → List JsWebSocketMessage → List (ℕ × Argument)
due cbs [] = []
due cbs (m ∷ ms) = due_one cbs m ++ due cbs ms

-- What the queues of all sockets are due, socket by socket.
abbrev pub calls_due : Table WsInstance → List (ℕ × Argument)
calls_due [] = []
calls_due ((id, ws) ∷ t) = due ws.callbacks ws.message_queue ++ calls_due t

-- Callbacks that do not call the plugin, while no message comes in.
abbrev pub passive : Script
passive s f a = []

calls_of-append : (xs ys : List Effect) → calls_of (xs ++ ys) ≡ calls_of xs ++ calls_of ys
calls_of-append [] ys = refl
calls_of-append (called f a ∷ xs) ys = ap (λ cs. (f, a) ∷ cs) (calls_of-append xs ys)
calls_of-append (e ∷ xs) ys = calls_of-append xs ys

abbrev called_for : JsWebSocketMessage → Option ℕ → List (ℕ × Argument)
called_for m none = []
called_for m (some f) = (f, argument m) ∷ []

call-calls :
    (s : WebSocketState) (id : ℕ) (m : JsWebSocketMessage) (f : Option ℕ)
    → (calls_of (call passive s id m f).log ≡ calls_of s.log ++ called_for m f)
      × ((call passive s id m f).instances ≡ s.instances)
unfolding call acts
call-calls s id m none = (calls_of-append s.log (turn id m none ∷ []), refl)
call-calls s id m (some f) = (
  calls_of-append (s.log ++ duplicated f ∷ turn id m (some f) ∷ called f (argument m) ∷ [])
        (freed f ∷ [])
      ∙ append-nil _
      ∙ calls_of-append s.log (duplicated f ∷ turn id m (some f) ∷ called f (argument m) ∷ []),
  refl,
)

abbrev dues : Option WsInstance → List JsWebSocketMessage → List (ℕ × Argument)
dues w [] = []
dues w (m ∷ ms) = called_for m (callback w m) ++ dues w ms

deliver-calls :
    (s : WebSocketState) (id : ℕ) (ms : List JsWebSocketMessage)
    → (calls_of (deliver passive s id ms).log ≡ calls_of s.log ++ dues (find id s.instances) ms)
      × ((deliver passive s id ms).instances ≡ s.instances)
unfolding deliver
deliver-calls s id [] = (sym (append-nil (calls_of s.log)), refl)
deliver-calls s id (m ∷ ms) =
    let f = callback (find id s.instances) m in
    let first = call-calls s id m f in
    let rest = deliver-calls (call passive s id m f) id ms in
    (
      rest.0
          ∙ ap (λ cs. cs ++ dues (find id (call passive s id m f).instances) ms) first.0
          ∙ ap (λ t. (calls_of s.log ++ called_for m f) ++ dues (find id t) ms) first.1
          ∙ append_assoc (calls_of s.log) (called_for m f) (dues (find id s.instances) ms),
      rest.1 ∙ first.1,
    )

abbrev batch_dues : Table WsInstance → WsMessageBatch → List (ℕ × Argument)
batch_dues t [] = []
batch_dues t ((id, ms) ∷ batch) = dues (find id t) ms ++ batch_dues t batch

deliver_all-calls :
    (s : WebSocketState) (batch : WsMessageBatch)
    → calls_of (deliver_all passive s batch).log ≡ calls_of s.log ++ batch_dues s.instances batch
unfolding deliver_all
deliver_all-calls s [] = sym (append-nil (calls_of s.log))
deliver_all-calls s ((id, ms) ∷ batch) =
    let first = deliver-calls s id ms in
    deliver_all-calls (deliver passive s id ms) batch
    ∙ ap (λ cs. cs ++ batch_dues (deliver passive s id ms).instances batch) first.0
    ∙ ap (λ t. (calls_of s.log ++ dues (find id s.instances) ms) ++ batch_dues t batch) first.1
    ∙ append_assoc (calls_of s.log) (dues (find id s.instances) ms) (batch_dues s.instances batch)

given-called :
    (v : JsValue) (m : JsWebSocketMessage) → called_for m (function v) ≡ given v (argument m)
given-called null m = refl
given-called primitive m = refl
given-called (object f true) m = refl
given-called (object f false) m = refl

typed-due :
    (ws : WsInstance) (type : WebSocketMessageType) (s : Bytes) (b : Bool)
    → let m : JsWebSocketMessage = record { type = type; str = s; binary = b } in
      called_for m (callback (some ws) m) ≡ due_one ws.callbacks m
typed-due ws message s b =
    given-called ws.callbacks.on_message (record { type = message; str = s; binary = b })
typed-due ws opens s b =
    given-called ws.callbacks.on_open (record { type = opens; str = s; binary = b })
typed-due ws closes s b =
    given-called ws.callbacks.on_close (record { type = closes; str = s; binary = b })
typed-due ws error s b =
    given-called ws.callbacks.on_error (record { type = error; str = s; binary = b })
typed-due ws ping s b = refl
typed-due ws pong s b = refl
typed-due ws fragment s b = refl

dues-due :
    (ws : WsInstance) (ms : List JsWebSocketMessage) → dues (some ws) ms ≡ due ws.callbacks ms
dues-due ws [] = refl
dues-due ws (m ∷ ms) =
    ap (λ cs. cs ++ dues (some ws) ms) (typed-due ws m.type m.str m.binary)
    ∙ ap (λ cs. due_one ws.callbacks m ++ cs) (dues-due ws ms)

add_queue-entries :
    (k j : ℕ) (q : List JsWebSocketMessage) (batch : WsMessageBatch)
    → entries k (add_queue j q batch) ≤ (if j == k then 1 else 0) + entries k batch
add_queue-entries k j [] batch = omega arith
add_queue-entries k j (m ∷ q) batch = omega arith

local_queues-entries : (k : ℕ) (t : Table WsInstance) → entries k (local_queues t) ≤ entries k t
unfolding local_queues
local_queues-entries k [] = omega arith
local_queues-entries k ((j, ws) ∷ t) =
    omega (arith, add_queue-entries k j ws.message_queue (local_queues t), local_queues-entries k t)

-- A socket that is not in the batch does not matter.
batch_dues-other :
    (j : ℕ) (w : WsInstance) (t : Table WsInstance) (batch : WsMessageBatch)
    → entries j batch ≡ 0
    → batch_dues ((j, w) ∷ t) batch ≡ batch_dues t batch
unfolding find
batch_dues-other j w t [] none_there = refl
batch_dues-other j w t ((id, ms) ∷ batch) none_there = elim (Bool-cases (j == id)) [
  | inl e ↦ absurd (ground (arith, none_there, turned e))
  | inr e ↦ rw e (
      ap (λ cs. dues (find id t) ms ++ cs)
        (batch_dues-other j w t batch (ground (arith, none_there))))
]
  where
    turned : (j == id) ≡ true → (id == j) ≡ true
    turned e = (==_iff id j).1 (sym ((==_iff j id).0 e))

abbrev emptied : WsInstance → WsInstance
emptied ws = record ws { message_queue = [] }

add_queue-due :
    (j : ℕ) (ws : WsInstance) (t : Table WsInstance) (q : List JsWebSocketMessage)
    (batch : WsMessageBatch) (cs : List (ℕ × Argument))
    → batch_dues ((j, emptied ws) ∷ t) batch ≡ cs
    → batch_dues ((j, emptied ws) ∷ t) (add_queue j q batch) ≡ due ws.callbacks q ++ cs
unfolding find
add_queue-due j ws t [] batch cs rest = rest
add_queue-due j ws t (m ∷ q) batch cs rest =
    ap (λ w. dues w (m ∷ q) ++ batch_dues ((j, emptied ws) ∷ t) batch) here
    ∙ ap (λ ds. ds ++ batch_dues ((j, emptied ws) ∷ t) batch) (dues-due (emptied ws) (m ∷ q))
    ∙ ap (λ ds. due ws.callbacks (m ∷ q) ++ ds) rest
  where
    here : find j ((j, emptied ws) ∷ t) ≡ some (emptied ws)
    here = rw ((==_iff j j).1 refl) refl

local_queues-due :
    (t : Table WsInstance)
    → ((k : ℕ) → entries k t ≤ 1)
    → batch_dues (empty_queues t) (local_queues t) ≡ calls_due t
unfolding local_queues empty_queues
local_queues-due [] unique = refl
local_queues-due ((j, ws) ∷ t) unique =
    add_queue-due j ws (empty_queues t) ws.message_queue (local_queues t) (calls_due t) (
      batch_dues-other j (emptied ws) (empty_queues t) (local_queues t)
        (ground (arith, unique j, local_queues-entries j t, (==_iff j j).1 refl))
      ∙ local_queues-due t (λ k. omega (arith, unique k)))

-- After any run that makes fewer than 2^32 - 1 sockets, whatever callbacks did in it: a drain in which
-- the callbacks do not call the plugin and no message comes in calls, socket by socket and message by
-- message in the order of the queue, the function that stands for the kind of the message, with the
-- buffer, the text or no argument that the kind is due, and calls nothing else.
pub drain_calls :
    (script : Script) (users : ℕ) (events : List Event)
    → Within (steps script (initial users) events)
    → let s = steps script (initial users) events in
      calls_of (ws_drain passive s).log ≡ calls_of s.log ++ calls_due s.instances
unfolding ws_drain
drain_calls script users events within =
    let s = steps script (initial users) events in
    let inv : Inv (λ r. 0) s =
      steps-Ok script (λ r. 0) (initial users) events (initial-Ok users) within in
    deliver_all-calls (record s { instances = empty_queues s.instances }) (local_queues s.instances)
    ∙ ap (λ cs. calls_of s.log ++ cs) (local_queues-due s.instances inv.unique)
