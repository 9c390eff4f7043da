-- ===== src/Ws/Sockets/Ledger.antt =====
-- The references of ws/src/module.cpp to callbacks: taken by create, freed with the socket.
use koya_plugins.Base.{
  ℕ, ◌+◌, ◌≤◌, ◌≡◌, Option, none, some, List, [], ◌∷◌, arith, find, assign, assign_fresh, tally,
  tally-append, ◌==◌, if◌then◌else◌, if_keeps, Option-cases, Bool-cases, inl, inr,
}
use koya_plugins.Ws.Types.{
  SocketCall, set_url, Effect, created, socket, init_net_system, WebSocketState, note,
}
use koya_plugins.Ws.Sockets.{
  retain_net_system, get_callbacks, with_socket, ws_start_func, ws_close_func, ws_stop_func,
  ws_send_func, ws_set_auto_reconnect_func, ws_destroy_func, Options, callbacks_of, add_effects,
  new_instance, ensure_network, add_instance, ws_create, message_callback, Action, creates, starts,
  closing, stops, destroys, sends, sets_auto_reconnect, receives, act, acts,
}
use koya_plugins.Ws.Sockets.Accounting.{
  gains, losses, creations, refs, Sums, get_callbacks-Sums, Inv, Ok, note-Ok, with_socket-Ok,
  destroy-Ok, receive-Ok,
}

network_effects : ℕ → List Effect
network_effects users = if users == 0 then init_net_system ∷ [] else []

network_effects-Sums : (users r : ℕ) → Sums r (network_effects users) 0 0 0
unfolding network_effects
network_effects-Sums users r = elim (Bool-cases (users == 0)) [
  | inl e ↦ rw (e, network_effects) (omega arith)
  | inr e ↦ rw (e, network_effects) (omega arith)
]

pub ensure_network-Ok : (x : ℕ → ℕ) (s : WebSocketState) → Ok x s → Ok x (ensure_network s)
unfolding retain_net_system network_effects
ensure_network-Ok x s ok = elim (Bool-cases s.network_initialized) [
  | inl e ↦ rw e (λ within.
      let inv : Inv x s = ok within in
      record {
        counted = inv.counted;
        fresh = inv.fresh;
        unique = inv.unique;
        balanced = inv.balanced;
      })
  | inr e ↦ rw e (λ within.
      let inv : Inv x (note s (network_effects s.net_users)) =
        note-Ok x x s (network_effects s.net_users) (λ r. 0) (λ r. 0)
          (network_effects-Sums s.net_users) (λ r. omega arith) ok within in
      record {
        counted = inv.counted;
        fresh = inv.fresh;
        unique = inv.unique;
        balanced = inv.balanced;
      })
]

add_effects-Sums :
    (id : ℕ) (o : Options) (r : ℕ) → Sums r (add_effects id o) (refs r (callbacks_of o)) 0 1
add_effects-Sums id o r =
    let tail = socket id (set_url o.url) ∷ created id (callbacks_of o) ∷ [] in
    omega (
      arith,
      get_callbacks-Sums r o,
      tally-append (gains r) (get_callbacks o) tail,
      tally-append (losses r) (get_callbacks o) tail,
      tally-append creations (get_callbacks o) tail,
    )

pub add_instance-creations :
    (s : WebSocketState) (o : Options)
    → tally creations (add_instance s o).log ≡ tally creations s.log + 1
add_instance-creations s o =
    omega (
      arith,
      add_effects-Sums s.next_id o 0,
      tally-append creations s.log (add_effects s.next_id o),
    )

add_instance-Ok : (x : ℕ → ℕ) (s : WebSocketState) (o : Options) → Ok x s → Ok x (add_instance s o)
add_instance-Ok x s o ok within = rw same (record {
  counted = omega (arith, inv.counted, within, grown);
  fresh = λ a le. ground (arith, inv.counted, within, grown, inv.fresh a);
  unique = λ a. ground (arith, inv.unique a, inv.fresh s.next_id);
  balanced = λ r. omega (
    arith,
    inv.balanced r,
    add_effects-Sums s.next_id o r,
    tally-append (gains r) s.log (add_effects s.next_id o),
    tally-append (losses r) s.log (add_effects s.next_id o),
  );
})
  where
    grown : tally creations (add_instance s o).log ≡ tally creations s.log + 1
    grown = add_instance-creations s o

    inv : Inv x s
    inv = ok (omega (arith, within, grown))

    same : assign s.next_id (new_instance o) s.instances ≡ (s.next_id, new_instance o) ∷ s.instances
    same = assign_fresh s.next_id (new_instance o) s.instances (inv.fresh s.next_id (omega arith))

create-Ok : (x : ℕ → ℕ) (s : WebSocketState) (o : Option Options) → Ok x s → Ok x (ws_create s o)
unfolding ws_create
create-Ok x s none ok = ok
create-Ok x s (some o) ok = add_instance-Ok x (ensure_network s) o (ensure_network-Ok x s ok)

pub act-Ok : (x : ℕ → ℕ) (s : WebSocketState) (a : Action) → Ok x s → Ok x (act s a)
unfolding act ws_start_func ws_close_func ws_stop_func ws_send_func ws_set_auto_reconnect_func
act-Ok x s (creates o) ok = create-Ok x s o ok
act-Ok x s (starts id) ok = with_socket-Ok x s id _ ok
act-Ok x s (closing id) ok = with_socket-Ok x s id _ ok
act-Ok x s (stops id) ok = with_socket-Ok x s id _ ok
act-Ok x s (destroys id) ok = destroy-Ok x s id ok
act-Ok x s (sends id argument) ok = with_socket-Ok x s id _ ok
act-Ok x s (sets_auto_reconnect id enable) ok = with_socket-Ok x s id _ ok
act-Ok x s (receives id m) ok = receive-Ok x s id m ok

pub acts-Ok : (x : ℕ → ℕ) (s : WebSocketState) (as' : List Action) → Ok x s → Ok x (acts s as')
unfolding acts
acts-Ok x s [] ok = ok
acts-Ok x s (a ∷ actions) ok = acts-Ok x (act s a) actions (act-Ok x s a ok)

-- The log only grows.
abbrev pub Grows : WebSocketState → WebSocketState → Type 0
Grows s t = tally creations s.log ≤ tally creations t.log

pub note-Grows : (s : WebSocketState) (es : List Effect) → Grows s (note s es)
note-Grows s es = omega (arith, tally-append creations s.log es)

with_socket-Grows : (s : WebSocketState) (id : ℕ) (c : SocketCall) → Grows s (with_socket s id c)
with_socket-Grows s id c = elim (Option-cases (find id s.instances)) [
  | inl e ↦ rw (e, with_socket) (omega arith)
  | inr (ws, e) ↦ rw (e, with_socket) (note-Grows s (socket id c ∷ []))
]

ensure_network-Grows : (s : WebSocketState) → Grows s (ensure_network s)
unfolding retain_net_system network_effects
ensure_network-Grows s =
    if_keeps (Grows s) s.network_initialized (omega arith)
      (note-Grows s (network_effects s.net_users))

pub act-Grows : (s : WebSocketState) (a : Action) → Grows s (act s a)
unfolding act ws_create ws_start_func ws_close_func ws_stop_func ws_send_func
    ws_set_auto_reconnect_func ws_destroy_func message_callback
act-Grows s (creates none) = omega arith
act-Grows s (creates (some o)) =
    omega (arith, ensure_network-Grows s, add_instance-creations (ensure_network s) o)
act-Grows s (starts id) = with_socket-Grows s id _
act-Grows s (closing id) = with_socket-Grows s id _
act-Grows s (stops id) = with_socket-Grows s id _
act-Grows s (destroys id) = elim (Option-cases (find id s.instances)) [
  | inl e ↦ rw (e, ws_destroy_func) (omega arith)
  | inr (ws, e) ↦ rw (e, ws_destroy_func) (note-Grows s _)
]
act-Grows s (sends id argument) = with_socket-Grows s id _
act-Grows s (sets_auto_reconnect id enable) = with_socket-Grows s id _
act-Grows s (receives id m) = elim (Option-cases (find id s.instances)) [
  | inl e ↦ rw (e, message_callback) (omega arith)
  | inr (ws, e) ↦ rw (e, message_callback) (note-Grows s _)
]

pub acts-Grows : (s : WebSocketState) (as' : List Action) → Grows s (acts s as')
unfolding acts
acts-Grows s [] = omega arith
acts-Grows s (a ∷ actions) = omega (arith, act-Grows s a, acts-Grows (act s a) actions)
