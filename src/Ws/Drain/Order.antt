-- ===== src/Ws/Drain/Order.antt =====
-- The order in which drain of ws/src/module.cpp gives messages their turn.
use koya_plugins.Base.{
  ℕ, ◌≤◌, ◌≡◌, refl, sym, ap, ◌∙◌, subst, Bool, true, false, Option, none, some, List, [], ◌∷◌,
  ◌++◌, append_assoc, append-nil, arith, find, entries, ◌==◌, if◌then◌else◌, if_keeps, Option-cases,
  Bool-cases, inl, inr,
}
use koya_plugins.Ws.Types.{
  JsWebSocketMessage, WsInstance, Effect, duplicated, freed, called, turn, WebSocketState, note,
}
use koya_plugins.Ws.Sockets.{acts}
use koya_plugins.Ws.Sockets.Accounting.{Within, Inv, Ok, note-Ok}
use koya_plugins.Ws.Sockets.Ledger.{Grows, note-Grows, act-Grows, acts-Grows}
use koya_plugins.Ws.Sockets.Messages.{turns_of, received_of, turns_of-append, received_of-append}
use koya_plugins.Ws.Sockets.Queues.{Fifo, note-Fifo, acts-Fifo}
use koya_plugins.Ws.Drain.{
  local_queues, empty_queues, WsMessageBatch, callback, argument, Script, call, deliver,
  deliver_all, ws_drain, Event, acting, drains, updates, step, steps, initial,
}
use koya_plugins.Ws.Drain.Ownership.{call-Ok, deliver-Ok, emptied-Ok, step-Ok, initial-Ok}
use koya_plugins.Ws.Drain.Batch.{
  taken_for, queue_of, taken_for-local_queues, find-empty_queues-none, find-empty_queues,
}

-- The first message of `j` has its turn.
abbrev next_for : ℕ → ℕ → JsWebSocketMessage → List JsWebSocketMessage → List JsWebSocketMessage
next_for id j m b = if j == id then m ∷ b else b

-- A turn of a message of `j`, with what else is done for it.
turn-Fifo :
    (id j : ℕ) (b : List JsWebSocketMessage) (s : WebSocketState) (m : JsWebSocketMessage)
    (es : List Effect)
    → turns_of id es ≡ next_for id j m []
    → received_of id es ≡ []
    → Fifo id (next_for id j m b) s
    → Fifo id b (note s es)
turn-Fifo id j b s m es one none_in fifo = record {
  waiting = fifo.waiting;
  ordered = ordered_by (j == id) one fifo.ordered;
  queued = fifo.queued;
  unseen = λ le. same ∙ fifo.unseen le;
}
  where
    same : received_of id (s.log ++ es) ≡ received_of id s.log
    same =
        received_of-append id s.log es
        ∙ ap (λ ms. received_of id s.log ++ ms) none_in
        ∙ append-nil (received_of id s.log)

    ordered_by :
        (mine : Bool)
        → turns_of id es ≡ (if mine then m ∷ [] else [])
        → turns_of id s.log ++ ((if mine then m ∷ b else b) ++ fifo.waiting) ≡ received_of id s.log
        → turns_of id (s.log ++ es) ++ (b ++ fifo.waiting) ≡ received_of id (s.log ++ es)
    ordered_by true e h =
        ap (λ ms. ms ++ (b ++ fifo.waiting))
          (turns_of-append id s.log es ∙ ap (λ ms. turns_of id s.log ++ ms) e)
        ∙ append_assoc (turns_of id s.log) (m ∷ []) (b ++ fifo.waiting)
        ∙ h
        ∙ sym same
    ordered_by false e h =
        ap (λ ms. ms ++ (b ++ fifo.waiting))
          (turns_of-append id s.log es
            ∙ ap (λ ms. turns_of id s.log ++ ms) e
            ∙ append-nil (turns_of id s.log))
        ∙ h
        ∙ sym same

emptied : WebSocketState → WebSocketState
emptied s = record s { instances = empty_queues s.instances }

emptied-Fifo :
    (id : ℕ) (s : WebSocketState)
    → entries id s.instances ≤ 1
    → Fifo id [] s
    → Fifo id (taken_for id (local_queues s.instances)) (emptied s)
unfolding emptied
emptied-Fifo id s one f =
    rw (taken_for-local_queues id s.instances one) (elim (Option-cases (find id s.instances)) [
      | inl e ↦
          rw (e, queue_of)
            (record {
              waiting = f.waiting;
              ordered = f.ordered;
              queued = λ ws h. cc (h, find-empty_queues-none id s.instances e);
              unseen = f.unseen;
            })
      | inr (ws, e) ↦
          rw (e, queue_of)
            (record {
              waiting = [];
              ordered =
                  ap (λ ms. turns_of id s.log ++ ms) (append-nil ws.message_queue ∙ f.queued ws e)
                  ∙ f.ordered;
              queued = λ u h. find-empty_queues id s.instances u h;
              unseen = f.unseen;
            })
    ])

module _ (script : Script) where
  call-Grows :
      (s : WebSocketState) (j : ℕ) (m : JsWebSocketMessage) (f : Option ℕ)
      → Grows s (call script s j m f)
  unfolding call
  call-Grows s j m none = note-Grows s (turn j m none ∷ [])
  call-Grows s j m (some f) =
      let s' = note s (duplicated f ∷ turn j m (some f) ∷ called f (argument m) ∷ []) in
      let actions = script s' f (argument m) in
      omega (
        arith,
        note-Grows s (duplicated f ∷ turn j m (some f) ∷ called f (argument m) ∷ []),
        acts-Grows s' actions,
        note-Grows (acts s' actions) (freed f ∷ []),
      )

  deliver-Grows :
      (s : WebSocketState) (j : ℕ) (ms : List JsWebSocketMessage) → Grows s (deliver script s j ms)
  unfolding deliver
  deliver-Grows s j [] = omega arith
  deliver-Grows s j (m ∷ ms) =
      let f = callback (find j s.instances) m in
      omega (arith, call-Grows s j m f, deliver-Grows (call script s j m f) j ms)

  deliver_all-Grows :
      (s : WebSocketState) (batch : WsMessageBatch) → Grows s (deliver_all script s batch)
  unfolding deliver_all
  deliver_all-Grows s [] = omega arith
  deliver_all-Grows s ((j, ms) ∷ batch) =
      omega (arith, deliver-Grows s j ms, deliver_all-Grows (deliver script s j ms) batch)

  step-Grows : (s : WebSocketState) (e : Event) → Grows s (step script s e)
  unfolding step ws_drain
  step-Grows s (acting a) = act-Grows s a
  step-Grows s drains =
      deliver_all-Grows (record s { instances = empty_queues s.instances })
        (local_queues s.instances)
  step-Grows s updates =
      if_keeps (Grows s) s.context
        (deliver_all-Grows (record s { instances = empty_queues s.instances })
          (local_queues s.instances))
        (omega arith)

  steps-Grows : (s : WebSocketState) (events : List Event) → Grows s (steps script s events)
  unfolding steps
  steps-Grows s [] = omega arith
  steps-Grows s (e ∷ events) = omega (arith, step-Grows s e, steps-Grows (step script s e) events)

  module _ (id : ℕ) where
    call-Fifo :
        (s : WebSocketState) (j : ℕ) (m : JsWebSocketMessage) (f : Option ℕ)
        (b : List JsWebSocketMessage)
        → Ok (λ r. 0) s
        → Within (call script s j m f)
        → Fifo id (next_for id j m b) s
        → Fifo id b (call script s j m f)
    unfolding call
    call-Fifo s j m none b ok within fifo = turn-Fifo id j b s m (turn j m none ∷ []) refl refl fifo
    call-Fifo s j m (some f) b ok within fifo =
        let one : ℕ → ℕ = λ r. if f == r then 1 else 0 in
        let es : List Effect = duplicated f ∷ turn j m (some f) ∷ called f (argument m) ∷ [] in
        let actions = script (note s es) f (argument m) in
        note-Fifo id b (acts (note s es) actions) (freed f ∷ []) (tt, tt)
          (acts-Fifo id b one (note s es) actions
            (note-Ok (λ r. 0) one s es one (λ r. 0) (λ r. omega arith) (λ r. omega arith) ok)
            (omega (arith, within, note-Grows (acts (note s es) actions) (freed f ∷ [])))
            (turn-Fifo id j b s m es refl refl fifo))

    abbrev ahead : ℕ → List JsWebSocketMessage → List JsWebSocketMessage → List JsWebSocketMessage
    ahead j ms b = if j == id then ms ++ b else b

    ahead-cons :
        (j : ℕ) (m : JsWebSocketMessage) (ms b : List JsWebSocketMessage)
        → ahead j (m ∷ ms) b ≡ next_for id j m (ahead j ms b)
    ahead-cons j m ms b = elim (Bool-cases (j == id)) [ inl e ↦ rw e refl | inr e ↦ rw e refl ]

    deliver-Fifo :
        (s : WebSocketState) (j : ℕ) (ms b : List JsWebSocketMessage)
        → Ok (λ r. 0) s
        → Within (deliver script s j ms)
        → Fifo id (ahead j ms b) s
        → Fifo id b (deliver script s j ms)
    unfolding deliver
    deliver-Fifo s j [] b ok within fifo =
        subst (λ ns. Fifo id ns s) (if_keeps (λ ns. ns ≡ b) (j == id) refl refl) fifo
    deliver-Fifo s j (m ∷ ms) b ok within fifo =
        let f = callback (find j s.instances) m in
        let s' = call script s j m f in
        deliver-Fifo s' j ms b (call-Ok script (λ r. 0) s j m f ok) within (
          call-Fifo s j m f (ahead j ms b) ok (omega (arith, within, deliver-Grows s' j ms))
            (subst (λ ns. Fifo id ns s) (ahead-cons j m ms b) fifo))

    deliver_all-Fifo :
        (s : WebSocketState) (batch : WsMessageBatch)
        → Ok (λ r. 0) s
        → Within (deliver_all script s batch)
        → Fifo id (taken_for id batch) s
        → Fifo id [] (deliver_all script s batch)
    unfolding deliver_all
    deliver_all-Fifo s [] ok within fifo = fifo
    deliver_all-Fifo s ((j, ms) ∷ batch) ok within fifo =
        let s' = deliver script s j ms in
        deliver_all-Fifo s' batch (deliver-Ok script (λ r. 0) s j ms ok) within (
          deliver-Fifo s j ms (taken_for id batch) ok
            (omega (arith, within, deliver_all-Grows s' batch)) fifo)

    drain-Fifo :
        (s : WebSocketState)
        → Ok (λ r. 0) s
        → Within (ws_drain script s)
        → Fifo id [] s
        → Fifo id [] (ws_drain script s)
    unfolding ws_drain emptied
    drain-Fifo s ok within fifo =
        let grows : Grows s (ws_drain script s) =
          deliver_all-Grows (emptied s) (local_queues s.instances) in
        let inv : Inv (λ r. 0) s = ok (omega (arith, within, grows)) in
        deliver_all-Fifo (emptied s) (local_queues s.instances) (emptied-Ok (λ r. 0) s ok) within
          (emptied-Fifo id s (inv.unique id) fifo)

    step-Fifo :
        (s : WebSocketState) (e : Event)
        → Ok (λ r. 0) s
        → Within (step script s e)
        → Fifo id [] s
        → Fifo id [] (step script s e)
    unfolding step acts
    step-Fifo s (acting a) ok within fifo = acts-Fifo id [] (λ r. 0) s (a ∷ []) ok within fifo
    step-Fifo s drains ok within fifo = drain-Fifo s ok within fifo
    step-Fifo s updates ok within fifo =
        if_keeps (λ t. Within t → Fifo id [] t) s.context (λ w. drain-Fifo s ok w fifo) (λ w. fifo)
          within

    steps-Fifo :
        (s : WebSocketState) (events : List Event)
        → Ok (λ r. 0) s
        → Within (steps script s events)
        → Fifo id [] s
        → Fifo id [] (steps script s events)
    unfolding steps
    steps-Fifo s [] ok within fifo = fifo
    steps-Fifo s (e ∷ events) ok within fifo =
        steps-Fifo (step script s e) events (step-Ok script (λ r. 0) s e ok) within
          (step-Fifo s e ok (omega (arith, within, steps-Grows (step script s e) events)) fifo)

-- Whatever sockets a script makes and destroys, whatever messages come in for them, and whatever the
-- callbacks do while they run, short of draining again, in runs that make fewer than 2^32 - 1 sockets:
-- the messages of a socket that had their turn in a drain, and then some that still wait, are those
-- that came in for it while it was there, in their order, and those that wait are its queue if it
-- is still there.
pub messages_in_order :
    (script : Script) (users : ℕ) (events : List Event) (id : ℕ)
    → Within (steps script (initial users) events)
    → let s = steps script (initial users) events in
      (waiting : List JsWebSocketMessage) × (turns_of id s.log ++ waiting ≡ received_of id s.log)
      × ((ws : WsInstance) → find id s.instances ≡ some ws → ws.message_queue ≡ waiting)
unfolding find
messages_in_order script users events id within =
    let f : Fifo id [] (steps script (initial users) events) =
      steps-Fifo script id (initial users) events (initial-Ok users) within
        (record { waiting = []; ordered = refl; queued = λ ws h. cc; unseen = λ le. refl }) in
    (f.waiting, f.ordered, f.queued)
