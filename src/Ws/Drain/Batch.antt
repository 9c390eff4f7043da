-- ===== src/Ws/Drain/Batch.antt =====
-- The batch that drain of ws/src/module.cpp takes out, and the queues that it was taken from.
use koya_plugins.Base.{
  ℕ, ◌≤◌, ◌≡◌, refl, sym, ap, ◌∙◌, none, some, List, [], ◌∷◌, ◌++◌, append-nil, arith, Table, find,
  entries, find_absent, ◌==◌, if◌then◌else◌, if_keeps, Bool-cases, inl, inr,
}
use koya_plugins.Ws.Types.{JsWebSocketMessage, WsInstance}
use koya_plugins.Ws.Drain.{add_queue, local_queues, empty_queues, WsMessageBatch}

-- The messages that a drain has taken out of the queue of one socket.
abbrev pub taken_for : ℕ → WsMessageBatch → List JsWebSocketMessage
taken_for id [] = []
taken_for id ((j, ms) ∷ batch) = if j == id then ms ++ taken_for id batch else taken_for id batch

abbrev pub queue_of : ℕ → Table WsInstance → List JsWebSocketMessage
queue_of id t = elim (find id t) [ none ↦ [] | some ws ↦ ws.message_queue ]

queue_of-entries : (id : ℕ) (t : Table WsInstance) → entries id t ≡ 0 → queue_of id t ≡ []
queue_of-entries id t h = rw (find_absent id t h, queue_of) refl

queue_of-cons :
    (id j : ℕ) (ws : WsInstance) (t : Table WsInstance)
    → queue_of id ((j, ws) ∷ t) ≡ (if j == id then ws.message_queue else queue_of id t)
unfolding find
queue_of-cons id j ws t = ground arith

add_queue-taken_for :
    (id j : ℕ) (q : List JsWebSocketMessage) (batch : WsMessageBatch)
    → taken_for id (add_queue j q batch)
      ≡ (if j == id then q ++ taken_for id batch else taken_for id batch)
add_queue-taken_for id j [] batch = if_keeps (λ n. taken_for id batch ≡ n) (j == id) refl refl
add_queue-taken_for id j (m ∷ q) batch = refl

-- What a drain takes out for a socket is its queue.
pub taken_for-local_queues :
    (id : ℕ) (t : Table WsInstance)
    → entries id t ≤ 1
    → taken_for id (local_queues t) ≡ queue_of id t
unfolding local_queues find
taken_for-local_queues id [] one = refl
taken_for-local_queues id ((j, ws) ∷ t) one =
    add_queue-taken_for id j ws.message_queue (local_queues t) ∙ elim (Bool-cases (j == id)) [
      | inl e ↦
          rw (queue_of-cons id j ws t, e)
            (ap (λ ms. ws.message_queue ++ ms)
                (taken_for-local_queues id t (ground (arith, e))
                  ∙ queue_of-entries id t (ground (arith, e)))
              ∙ append-nil ws.message_queue)
      | inr e ↦ rw (queue_of-cons id j ws t, e) (taken_for-local_queues id t (ground (arith, e)))
    ]

pub find-empty_queues-none :
    (id : ℕ) (t : Table WsInstance) → find id t ≡ none → find id (empty_queues t) ≡ none
unfolding empty_queues find
find-empty_queues-none id [] h = refl
find-empty_queues-none id ((j, u) ∷ t) h = elim (Bool-cases (j == id)) [
  | inl e ↦ absurd (cc (rw e at h))
  | inr e ↦ rw e (find-empty_queues-none id t (rw e at h))
]

pub find-empty_queues :
    (id : ℕ) (t : Table WsInstance) (ws : WsInstance)
    → find id (empty_queues t) ≡ some ws
    → ws.message_queue ≡ []
unfolding empty_queues find
find-empty_queues id [] ws h = cc
find-empty_queues id ((j, u) ∷ t) ws h = elim (Bool-cases (j == id)) [
  | inl e ↦
      let same : record u { message_queue = [] } ≡ ws = cc (rw e at h) in
      ap (λ w. w.message_queue) (sym same)
  | inr e ↦ find-empty_queues id t ws (rw e at h)
]
