-- ===== src/Ws/Drain/Ownership.antt =====
-- The references of ws/src/module.cpp to callbacks over whole runs, with drains and the shutdown.
use koya_plugins.Base.{
  ℕ, ◌+◌, ◌≡◌, refl, ap, Bool, true, false, Option, none, some, List, [], ◌∷◌, arith, Table, find,
  entries, tally, tally-append, ◌==◌, if◌then◌else◌, if_keeps,
}
use koya_plugins.Ws.Types.{
  JsWebSocketMessage, WsInstance, Effect, duplicated, freed, called, turn, uninit_net_system,
  WebSocketState, note,
}
use koya_plugins.Ws.Sockets.{ws_free_callbacks, release_net_system, acts}
use koya_plugins.Ws.Sockets.Accounting.{
  gains, losses, holds, free_callbacks-Sums, Within, Inv, Ok, note-Ok,
}
use koya_plugins.Ws.Sockets.Ledger.{act-Ok, acts-Ok}
use koya_plugins.Ws.Drain.{
  local_queues, empty_queues, WsMessageBatch, callback, argument, Script, call, deliver,
  deliver_all, ws_drain, Event, acting, drains, updates, step, steps, stop_all, destroy_all,
  leave_network, script_shutdown, initial,
}

empty_queues-entries : (a : ℕ) (t : Table WsInstance) → entries a (empty_queues t) ≡ entries a t
unfolding empty_queues
empty_queues-entries a [] = refl
empty_queues-entries a ((id, ws) ∷ t) = omega (arith, empty_queues-entries a t)

empty_queues-holds :
    (r : ℕ) (t : Table WsInstance) → tally (holds r) (empty_queues t) ≡ tally (holds r) t
unfolding empty_queues
empty_queues-holds r [] = refl
empty_queues-holds r ((id, ws) ∷ t) = ap (λ n. holds r (id, ws) + n) (empty_queues-holds r t)

pub emptied-Ok :
    (x : ℕ → ℕ) (s : WebSocketState)
    → Ok x s
    → Ok x (record s { instances = empty_queues s.instances })
emptied-Ok x s ok within =
    let inv : Inv x s = ok within in
    record {
      counted = inv.counted;
      fresh = λ a le. omega (arith, inv.fresh a le, empty_queues-entries a s.instances);
      unique = λ a. omega (arith, inv.unique a, empty_queues-entries a s.instances);
      balanced = λ r. omega (arith, inv.balanced r, empty_queues-holds r s.instances);
    }

module _ (script : Script) (x : ℕ → ℕ) where
  pub call-Ok :
      (s : WebSocketState) (id : ℕ) (m : JsWebSocketMessage) (f : Option ℕ)
      → Ok x s
      → Ok x (call script s id m f)
  unfolding call
  call-Ok s id m none ok =
      note-Ok x x s (turn id m none ∷ []) (λ r. 0) (λ r. 0) (λ r. omega arith) (λ r. omega arith) ok
  call-Ok s id m (some f) ok =
      let one : ℕ → ℕ = λ r. if f == r then 1 else 0 in
      let y : ℕ → ℕ = λ r. x r + one r in
      let es : List Effect = duplicated f ∷ turn id m (some f) ∷ called f (argument m) ∷ [] in
      note-Ok y x (acts (note s es) (script (note s es) f (argument m))) (freed f ∷ []) (λ r. 0) one
        (λ r. omega arith) (λ r. omega arith)
        (acts-Ok y (note s es) (script (note s es) f (argument m))
          (note-Ok x y s es one (λ r. 0) (λ r. omega arith) (λ r. omega arith) ok))

  pub deliver-Ok :
      (s : WebSocketState) (id : ℕ) (ms : List JsWebSocketMessage)
      → Ok x s
      → Ok x (deliver script s id ms)
  unfolding deliver
  deliver-Ok s id [] ok = ok
  deliver-Ok s id (m ∷ ms) ok =
      let f = callback (find id s.instances) m in
      deliver-Ok (call script s id m f) id ms (call-Ok s id m f ok)

  pub deliver_all-Ok :
      (s : WebSocketState) (batch : WsMessageBatch) → Ok x s → Ok x (deliver_all script s batch)
  unfolding deliver_all
  deliver_all-Ok s [] ok = ok
  deliver_all-Ok s ((id, ms) ∷ batch) ok =
      deliver_all-Ok (deliver script s id ms) batch (deliver-Ok s id ms ok)

  pub drain-Ok : (s : WebSocketState) → Ok x s → Ok x (ws_drain script s)
  unfolding ws_drain
  drain-Ok s ok =
      deliver_all-Ok (record s { instances = empty_queues s.instances }) (local_queues s.instances)
        (emptied-Ok x s ok)

  pub step-Ok : (s : WebSocketState) (e : Event) → Ok x s → Ok x (step script s e)
  unfolding step
  step-Ok s (acting a) ok = act-Ok x s a ok
  step-Ok s drains ok = drain-Ok s ok
  step-Ok s updates ok = if_keeps (Ok x) s.context (drain-Ok s ok) ok

  pub steps-Ok : (s : WebSocketState) (events : List Event) → Ok x s → Ok x (steps script s events)
  unfolding steps
  steps-Ok s [] ok = ok
  steps-Ok s (e ∷ events) ok = steps-Ok (step script s e) events (step-Ok s e ok)

stop_all-losses :
    (r : ℕ) (t : Table WsInstance)
    → (tally (gains r) (stop_all t) ≡ 0) × (tally (losses r) (stop_all t) ≡ tally (holds r) t)
unfolding stop_all
stop_all-losses r [] = (refl, refl)
stop_all-losses r ((id, ws) ∷ t) = omega (
  arith,
  stop_all-losses r t,
  free_callbacks-Sums r ws.callbacks,
  tally-append (gains r) (ws_free_callbacks ws.callbacks) (stop_all t),
  tally-append (losses r) (ws_free_callbacks ws.callbacks) (stop_all t),
)

destroy_all-losses :
    (r : ℕ) (t : Table WsInstance)
    → (tally (gains r) (destroy_all t) ≡ 0) × (tally (losses r) (destroy_all t) ≡ 0)
unfolding destroy_all
destroy_all-losses r [] = (refl, refl)
destroy_all-losses r ((id, ws) ∷ t) = omega (arith, destroy_all-losses r t)

leave_effects-losses :
    (r : ℕ) (last : Bool)
    → (tally (gains r) (if last then uninit_net_system ∷ [] else []) ≡ 0)
      × (tally (losses r) (if last then uninit_net_system ∷ [] else []) ≡ 0)
leave_effects-losses r true = (refl, refl)
leave_effects-losses r false = (refl, refl)

leave_network-losses :
    (r : ℕ) (s : WebSocketState)
    → (tally (gains r) (leave_network s).log ≡ tally (gains r) s.log)
      × (tally (losses r) (leave_network s).log ≡ tally (losses r) s.log)
unfolding leave_network release_net_system
leave_network-losses r s =
    let es : List Effect = if s.net_users == 1 then uninit_net_system ∷ [] else [] in
    if_keeps {A = WebSocketState}
      (λ t.
        (tally (gains r) t.log ≡ tally (gains r) s.log)
        × (tally (losses r) t.log ≡ tally (losses r) s.log))
      s.network_initialized
      (omega (
        arith,
        tally-append (gains r) s.log es,
        tally-append (losses r) s.log es,
        leave_effects-losses r (s.net_users == 1),
      ))
      (refl, refl)

shutdown-balanced :
    (r : ℕ) (s : WebSocketState)
    → tally (gains r) s.log ≡ tally (losses r) s.log + tally (holds r) s.instances
    → tally (gains r) (script_shutdown s).log ≡ tally (losses r) (script_shutdown s).log
unfolding script_shutdown
shutdown-balanced r s h =
    let stopped = note (record s { instances = [] }) (stop_all s.instances) in
    let left = (leave_network stopped).log in
    omega (
      arith,
      h,
      tally-append (gains r) s.log (stop_all s.instances),
      tally-append (losses r) s.log (stop_all s.instances),
      stop_all-losses r s.instances,
      leave_network-losses r stopped,
      tally-append (gains r) left (destroy_all s.instances),
      tally-append (losses r) left (destroy_all s.instances),
      destroy_all-losses r s.instances,
    )

pub initial-Ok : (users : ℕ) → Ok (λ r. 0) (initial users)
initial-Ok users within = record {
  counted = omega arith;
  fresh = λ a le. refl;
  unique = λ a. omega arith;
  balanced = λ r. omega arith;
}

-- Whatever sockets a script makes and destroys, whatever messages come in, and whatever the callbacks
-- do while they run, in runs that make fewer than 2^32 - 1 sockets: the plugin has taken and
-- duplicated each object as often as it has freed it and still holds it for sockets in the table, and
-- after the shutdown as often as it has freed it.
pub socket_callbacks_freed :
    (script : Script) (users : ℕ) (events : List Event) (r : ℕ)
    → Within (steps script (initial users) events)
    → let s = steps script (initial users) events in
      (tally (gains r) s.log ≡ tally (losses r) s.log + tally (holds r) s.instances)
      × (tally (gains r) (script_shutdown s).log ≡ tally (losses r) (script_shutdown s).log)
socket_callbacks_freed script users events r within =
    let s = steps script (initial users) events in
    let held : tally (gains r) s.log ≡ tally (losses r) s.log + tally (holds r) s.instances =
      omega (
        arith,
        (steps-Ok script (λ r. 0) (initial users) events (initial-Ok users) within).balanced r,
      ) in
    (held, shutdown-balanced r s held)
