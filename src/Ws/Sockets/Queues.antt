-- ===== src/Ws/Sockets/Queues.antt =====
-- What the calls of ws/src/module.cpp do to the queue of one socket, and to the order of its messages.
use koya_plugins.Base.{
  ℕ, ◌+◌, ◌≤◌, ◌≡◌, refl, sym, ap, ◌∙◌, subst, Bool, false, Option, none, some, List, [], ◌∷◌, ◌++◌,
  append_assoc, append-nil, arith, All, Table, find, erase, assign_fresh, replace, find-erase,
  find-replace, find-replace_other, entries, entries_found, tally, ◌==◌, ==_iff, if◌then◌else◌,
  if_keeps, Option-cases, Bool-cases, inl, inr,
}
use mathlib.Core.List.{append-eq-nil_iff}
use koya_plugins.Ws.Types.{
  JsWebSocketMessage, WebSocketMessage, WsInstance, SocketCall, Effect, received, socket,
  init_net_system, WebSocketState, note,
}
use koya_plugins.Ws.Sockets.{
  retain_net_system, with_socket, ws_start_func, ws_close_func, ws_stop_func, ws_send_func,
  ws_set_auto_reconnect_func, ws_destroy_func, Options, add_effects, new_instance, ensure_network,
  add_instance, ws_create, js_message, message_callback, Action, creates, starts, closing, stops,
  destroys, sends, sets_auto_reconnect, receives, act, acts,
}
use koya_plugins.Ws.Sockets.Accounting.{creations, Within, Inv, Ok}
use koya_plugins.Ws.Sockets.Ledger.{
  act-Ok, ensure_network-Ok, add_instance-creations, act-Grows, acts-Grows,
}
use koya_plugins.Ws.Sockets.Messages.{
  turns_of, received_of, Quiet, turns_of-append, received_of-append, Silent-turns, Quiet-Silent,
  Quiet-received, destroy_effects-Quiet, add_effects-Quiet, network_effects-Quiet,
}

-- The queue of a socket, and its messages in the order of their arrival: those that had their turn,
-- those that a drain has taken out, and those that wait or were lost with their socket.
pub record Fifo (id : ℕ) (taken_out : List JsWebSocketMessage) (s : WebSocketState) : Type 0 where
  pub waiting : List JsWebSocketMessage
  pub ordered : turns_of id s.log ++ (taken_out ++ waiting) ≡ received_of id s.log
  pub queued : (ws : WsInstance) → find id s.instances ≡ some ws → ws.message_queue ≡ waiting
  pub unseen : s.next_id ≤ id → received_of id s.log ≡ []

append-Quiet :
    (id : ℕ) (log es : List Effect)
    → All Quiet es
    → (turns_of id (log ++ es) ≡ turns_of id log)
      × (received_of id (log ++ es) ≡ received_of id log)
append-Quiet id log es q = (
  turns_of-append id log es
      ∙ ap (λ ms. turns_of id log ++ ms) (Silent-turns id es (Quiet-Silent es q))
      ∙ append-nil (turns_of id log),
  received_of-append id log es
      ∙ ap (λ ms. received_of id log ++ ms) (Quiet-received id es q)
      ∙ append-nil (received_of id log),
)

module _ (id : ℕ) (b : List JsWebSocketMessage) where
  abbrev Unheard : List Effect → List Effect → Type 0
  Unheard log es =
      (turns_of id (log ++ es) ≡ turns_of id log)
      × (received_of id (log ++ es) ≡ received_of id log)

  -- Another table in which no queue of the socket is new.
  pub change-Fifo :
      (s : WebSocketState) (t : Table WsInstance) (es : List Effect)
      → Unheard s.log es
      → ((ws : WsInstance)
          → find id t ≡ some ws
          → (old : WsInstance) × (find id s.instances ≡ some old)
            × (ws.message_queue ≡ old.message_queue))
      → Fifo id b s
      → Fifo id b (note (record s { instances = t }) es)
  change-Fifo s t es q same f = record {
    waiting = f.waiting;
    ordered = ap (λ ms. ms ++ (b ++ f.waiting)) (q.0) ∙ f.ordered ∙ sym (q.1);
    queued = λ ws e. let h = same ws e in h.2 ∙ f.queued (h.0) (h.1);
    unseen = λ le. q.1 ∙ f.unseen le;
  }

  pub note-Fifo :
      (s : WebSocketState) (es : List Effect) → All Quiet es → Fifo id b s → Fifo id b (note s es)
  note-Fifo s es q =
      change-Fifo s s.instances es (append-Quiet id s.log es q) (λ ws e. (ws, e, refl))

  with_socket-Fifo :
      (s : WebSocketState) (j : ℕ) (c : SocketCall) → Fifo id b s → Fifo id b (with_socket s j c)
  with_socket-Fifo s j c f = elim (Option-cases (find j s.instances)) [
    | inl e ↦ rw (e, with_socket) f
    | inr (ws, e) ↦ rw (e, with_socket) (note-Fifo s (socket j c ∷ []) (tt, tt) f)
  ]

  destroy-Fifo :
      (s : WebSocketState) (j : ℕ)
      → entries j s.instances ≤ 1
      → Fifo id b s
      → Fifo id b (ws_destroy_func s j)
  unfolding ws_destroy_func
  destroy-Fifo s j one f = elim (Option-cases (find j s.instances)) [
    | inl e ↦ rw (e, ws_destroy_func) f
    | inr (ws, e) ↦
        rw (e, ws_destroy_func)
          (change-Fifo s (erase j s.instances) _
            (append-Quiet id s.log _ (destroy_effects-Quiet j ws.callbacks))
            (λ u h. (u, find-erase j id s.instances u one h, refl)) f)
  ]

  abbrev pushed : WsInstance → JsWebSocketMessage → WsInstance
  pushed ws m = record ws { message_queue = ws.message_queue ++ m ∷ [] }

  abbrev arrived : WebSocketState → ℕ → WsInstance → JsWebSocketMessage → WebSocketState
  arrived s j ws m =
      note (record s { instances = replace j (pushed ws m) s.instances }) (received j m ∷ [])

  arrive-Fifo :
      (s : WebSocketState) (ws : WsInstance) (m : JsWebSocketMessage)
      → find id s.instances ≡ some ws
      → ¬ (s.next_id ≤ id)
      → Fifo id b s
      → Fifo id b (arrived s id ws m)
  arrive-Fifo s ws m e old f = record {
    waiting = f.waiting ++ m ∷ [];
    ordered =
        rw
          (
            turns_of-append id s.log (received id m ∷ []),
            received_of-append id s.log (received id m ∷ []),
            (==_iff id id).1 refl,
            append-nil (turns_of id s.log),
          )
          (ap (λ ms. turns_of id s.log ++ ms) (sym (append_assoc b f.waiting (m ∷ [])))
            ∙ sym (append_assoc (turns_of id s.log) (b ++ f.waiting) (m ∷ []))
            ∙ ap (λ ms. ms ++ m ∷ []) f.ordered);
    queued = λ u h.
        let same : u ≡ pushed ws m = cc (find-replace id s.instances ws (pushed ws m) e) in
        ap (λ w. w.message_queue) same ∙ ap (λ ms. ms ++ m ∷ []) (f.queued ws e);
    unseen = λ le. absurd (old le);
  }

  arrive-Fifo_other :
      (s : WebSocketState) (j : ℕ) (ws : WsInstance) (m : JsWebSocketMessage)
      → (j == id) ≡ false
      → Fifo id b s
      → Fifo id b (arrived s j ws m)
  arrive-Fifo_other s j ws m other f =
      change-Fifo s (replace j (pushed ws m) s.instances) (received j m ∷ [])
        (
          turns_of-append id s.log (received j m ∷ []) ∙ append-nil (turns_of id s.log),
          received_of-append id s.log (received j m ∷ [])
              ∙ rw other (append-nil (received_of id s.log)),
        )
        (λ u h. (u, sym (find-replace_other j id s.instances (pushed ws m) other) ∙ h, refl)) f

  receive-Fifo :
      (s : WebSocketState) (j : ℕ) (m : WebSocketMessage)
      → ((a : ℕ) → s.next_id ≤ a → entries a s.instances ≡ 0)
      → Fifo id b s
      → Fifo id b (message_callback s j m)
  unfolding message_callback
  receive-Fifo s j m fresh f = elim (Option-cases (find j s.instances)) [
    | inl e ↦ rw (e, message_callback) f
    | inr (ws, e) ↦
        rw (e, message_callback)
          (elim (Bool-cases (j == id)) [
            | inl same ↦
                let eq : id ≡ j = ground arith in
                subst (λ k. Fifo id b (arrived s k ws (js_message m))) eq
                  (arrive-Fifo s ws (js_message m) (ap (λ k. find k s.instances) eq ∙ e)
                    (λ le. absurd (
                      omega (
                        arith,
                        fresh j (subst (λ k. s.next_id ≤ k) eq le),
                        entries_found j s.instances ws e,
                      )))
                    f)
            | inr other ↦ arrive-Fifo_other s j ws (js_message m) other f
          ])
  ]

  ensure_network-Fifo : (s : WebSocketState) → Fifo id b s → Fifo id b (ensure_network s)
  unfolding retain_net_system
  ensure_network-Fifo s f = if_keeps (Fifo id b) s.network_initialized f (
      let first : Bool = s.net_users == 0 in
      let g : Fifo id b (note s (if first then init_net_system ∷ [] else [])) =
        note-Fifo s _ (network_effects-Quiet first) f in
      record { waiting = g.waiting; ordered = g.ordered; queued = g.queued; unseen = g.unseen })

  no_waiting : (s : WebSocketState) (f : Fifo id b s) → s.next_id ≤ id → f.waiting ≡ []
  no_waiting s f le =
      let nothing : turns_of id s.log ++ (b ++ f.waiting) ≡ [] = f.ordered ∙ f.unseen le in
      (append-eq-nil_iff.0 ((append-eq-nil_iff.0 nothing).1)).1

  add_instance-queued :
      (s : WebSocketState) (o : Options) (f : Fifo id b s)
      → entries s.next_id s.instances ≡ 0
      → (u : WsInstance) → find id (add_instance s o).instances ≡ some u
      → u.message_queue ≡ f.waiting
  unfolding find
  add_instance-queued s o f fresh u h = elim (Bool-cases (s.next_id == id)) [
    | inl same ↦
        let new : new_instance o ≡ u = cc (rw same at first) in
        ap (λ w. w.message_queue) (sym new) ∙ sym (no_waiting s f (ground arith))
    | inr other ↦ f.queued u (rw other at first)
  ]
    where
      first : (if s.next_id == id then some (new_instance o) else find id s.instances) ≡ some u
      first = ap (find id) (sym (assign_fresh s.next_id (new_instance o) s.instances fresh)) ∙ h

  add_instance-Fifo :
      (x : ℕ → ℕ) (s : WebSocketState) (o : Options)
      → Ok x s
      → Within (add_instance s o)
      → Fifo id b s
      → Fifo id b (add_instance s o)
  add_instance-Fifo x s o ok within f = record {
    waiting = f.waiting;
    ordered = ap (λ ms. ms ++ (b ++ f.waiting)) (quiet.0) ∙ f.ordered ∙ sym (quiet.1);
    queued = add_instance-queued s o f (inv.fresh s.next_id (omega arith));
    unseen = λ le. quiet.1 ∙ f.unseen (omega (arith, le, inv.counted, within, grown));
  }
    where
      quiet : Unheard s.log (add_effects s.next_id o)
      quiet = append-Quiet id s.log (add_effects s.next_id o) (add_effects-Quiet s.next_id o)

      grown : tally creations (add_instance s o).log ≡ tally creations s.log + 1
      grown = add_instance-creations s o

      inv : Inv x s
      inv = ok (omega (arith, within, grown))

  create-Fifo :
      (x : ℕ → ℕ) (s : WebSocketState) (o : Option Options)
      → Ok x s
      → Within (ws_create s o)
      → Fifo id b s
      → Fifo id b (ws_create s o)
  unfolding ws_create
  create-Fifo x s none ok within f = f
  create-Fifo x s (some o) ok within f =
      add_instance-Fifo x (ensure_network s) o (ensure_network-Ok x s ok) within
        (ensure_network-Fifo s f)

  act-Fifo :
      (x : ℕ → ℕ) (s : WebSocketState) (a : Action)
      → Ok x s
      → Within (act s a)
      → Fifo id b s
      → Fifo id b (act s a)
  unfolding act ws_start_func ws_close_func ws_stop_func ws_send_func ws_set_auto_reconnect_func
  act-Fifo x s (creates o) ok within f = create-Fifo x s o ok within f
  act-Fifo x s (starts j) ok within f = with_socket-Fifo s j _ f
  act-Fifo x s (closing j) ok within f = with_socket-Fifo s j _ f
  act-Fifo x s (stops j) ok within f = with_socket-Fifo s j _ f
  act-Fifo x s (destroys j) ok within f =
      let inv : Inv x s = ok (omega (arith, within, act-Grows s (destroys j))) in
      destroy-Fifo s j (inv.unique j) f
  act-Fifo x s (sends j argument) ok within f = with_socket-Fifo s j _ f
  act-Fifo x s (sets_auto_reconnect j enable) ok within f = with_socket-Fifo s j _ f
  act-Fifo x s (receives j m) ok within f =
      let inv : Inv x s = ok (omega (arith, within, act-Grows s (receives j m))) in
      receive-Fifo s j m (inv.fresh) f

  pub acts-Fifo :
      (x : ℕ → ℕ) (s : WebSocketState) (as' : List Action)
      → Ok x s
      → Within (acts s as')
      → Fifo id b s
      → Fifo id b (acts s as')
  unfolding acts
  acts-Fifo x s [] ok within f = f
  acts-Fifo x s (a ∷ actions) ok within f =
      acts-Fifo x (act s a) actions (act-Ok x s a ok) within
        (act-Fifo x s a ok (omega (arith, within, acts-Grows (act s a) actions)) f)
