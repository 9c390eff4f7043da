-- ===== src/Ws/Sockets/Accounting.antt =====
-- The objects that sockets of ws/src/module.cpp hold, counted, over the operations on one socket.
use koya_plugins.Base.{
  ℕ, ◌+◌, ◌^◌, ◌<◌, ◌≤◌, ◌≡◌, Bool, List, [], ◌∷◌, ◌++◌, arith, Table, find, erase, replace,
  entries, entries-erase, entries-replace, tally, tally-append, tally-erase, tally-replace, ◌==◌,
  if◌then◌else◌, Option-cases, Bool-cases, inl, inr,
}
use koya_plugins.Ws.Types.{
  JsValue, null, primitive, object, WsCallbacks, WebSocketMessage, WsInstance, SocketCall, close,
  destroy, Effect, taken, duplicated, freed, created, received, socket, WebSocketState, note,
}
use koya_plugins.Ws.Sockets.{
  get_property, get_callbacks, free_callback, with_socket, ws_free_callbacks, ws_destroy_func,
  Options, callbacks_of, js_message, message_callback,
}

abbrev one_if : Bool → ℕ
one_if b = if b then 1 else 0

-- References to an object that an effect makes and gives back, and the sockets that it makes.
abbrev pub gains : ℕ → Effect → ℕ
gains r (taken ref) = one_if (ref == r)
gains r (duplicated ref) = one_if (ref == r)
gains r effect = 0

abbrev pub losses : ℕ → Effect → ℕ
losses r (freed ref) = one_if (ref == r)
losses r effect = 0

abbrev pub creations : Effect → ℕ
creations (created id cbs) = 1
creations effect = 0

abbrev owns : ℕ → JsValue → ℕ
owns r null = 0
owns r primitive = 0
owns r (object ref callable) = one_if (ref == r)

-- The references that the callbacks of a socket are.
abbrev pub refs : ℕ → WsCallbacks → ℕ
refs r cbs =
    if cbs.ctx
    then owns r cbs.on_message + (owns r cbs.on_open + (owns r cbs.on_close + owns r cbs.on_error))
    else 0

abbrev pub holds : ℕ → ℕ × WsInstance → ℕ
holds r (id, ws) = refs r ws.callbacks

abbrev pub Sums : ℕ → List Effect → ℕ → ℕ → ℕ → Type 0
Sums r es g l c = (tally (gains r) es ≡ g) × (tally (losses r) es ≡ l) × (tally creations es ≡ c)

pub Sums-append :
    (r : ℕ) (xs ys : List Effect) (g l c g' l' c' : ℕ)
    → Sums r xs g l c
    → Sums r ys g' l' c'
    → Sums r (xs ++ ys) (g + g') (l + l') (c + c')
Sums-append r xs ys g l c g' l' c' h k = (
  omega (arith, h.0, k.0, tally-append (gains r) xs ys),
  omega (arith, h.1, k.1, tally-append (losses r) xs ys),
  omega (arith, h.2, k.2, tally-append creations xs ys),
)

get_property-Sums : (r : ℕ) (v : JsValue) → Sums r (get_property v) (owns r v) 0 0
get_property-Sums r null = omega arith
get_property-Sums r primitive = omega arith
get_property-Sums r (object ref callable) = omega arith

pub get_callbacks-Sums :
    (r : ℕ) (o : Options) → Sums r (get_callbacks o) (refs r (callbacks_of o)) 0 0
get_callbacks-Sums r o =
    Sums-append r (get_property o.on_message)
      (get_property o.on_open ++ (get_property o.on_close ++ get_property o.on_error)) _ 0 0 _ 0 0
      (get_property-Sums r o.on_message)
      (Sums-append r (get_property o.on_open) (get_property o.on_close ++ get_property o.on_error) _
        0 0 _ 0 0 (get_property-Sums r o.on_open)
        (Sums-append r (get_property o.on_close) (get_property o.on_error) _ 0 0 _ 0 0
          (get_property-Sums r o.on_close) (get_property-Sums r o.on_error)))

free_callback-Sums : (r : ℕ) (v : JsValue) → Sums r (free_callback v) 0 (owns r v) 0
free_callback-Sums r null = omega arith
free_callback-Sums r primitive = omega arith
free_callback-Sums r (object ref callable) = omega arith

pub free_callbacks-Sums :
    (r : ℕ) (cbs : WsCallbacks) → Sums r (ws_free_callbacks cbs) 0 (refs r cbs) 0
unfolding ws_free_callbacks
free_callbacks-Sums r cbs = elim (Bool-cases cbs.ctx) [
  | inl e ↦ rw e (
      Sums-append r (free_callback cbs.on_message)
        (free_callback cbs.on_open ++ (free_callback cbs.on_close ++ free_callback cbs.on_error)) 0
        _ 0 0 _ 0 (free_callback-Sums r cbs.on_message)
        (Sums-append r (free_callback cbs.on_open)
          (free_callback cbs.on_close ++ free_callback cbs.on_error) 0 _ 0 0 _ 0
          (free_callback-Sums r cbs.on_open)
          (Sums-append r (free_callback cbs.on_close) (free_callback cbs.on_error) 0 _ 0 0 _ 0
            (free_callback-Sums r cbs.on_close) (free_callback-Sums r cbs.on_error))))
  | inr e ↦ rw e (omega arith)
]

-- Before the identifiers wrap around.
abbrev pub Within : WebSocketState → Type 0
Within s = 1 + tally creations s.log < 2 ^ 32

-- The references beside those of the sockets are `extra`.
pub record Inv (extra : ℕ → ℕ) (s : WebSocketState) : Type 0 where
  pub counted : s.next_id ≡ 1 + tally creations s.log
  pub fresh : (a : ℕ) → s.next_id ≤ a → entries a s.instances ≡ 0
  pub unique : (a : ℕ) → entries a s.instances ≤ 1
  pub balanced :
      (r : ℕ)
      → tally (gains r) s.log ≡ tally (losses r) s.log + tally (holds r) s.instances + extra r

abbrev pub Ok : (ℕ → ℕ) → WebSocketState → Type 0
Ok extra s = Within s → Inv extra s

-- A change of the table, with effects that make no socket.
pub change-Ok :
    (x y : ℕ → ℕ) (s : WebSocketState) (t : Table WsInstance) (es : List Effect) (g l : ℕ → ℕ)
    → ((a : ℕ) → entries a t ≤ entries a s.instances)
    → ((r : ℕ) → Sums r es (g r) (l r) 0)
    → ((r : ℕ) → tally (holds r) s.instances + x r + g r ≡ l r + tally (holds r) t + y r)
    → Ok x s
    → Ok y (note (record s { instances = t }) es)
change-Ok x y s t es g l fewer sums moved ok within = record {
  counted = omega (arith, inv.counted, (sums 0).2, tally-append creations s.log es);
  fresh = λ a le. omega (arith, inv.fresh a le, fewer a);
  unique = λ a. omega (arith, inv.unique a, fewer a);
  balanced = λ r. omega (
    arith,
    inv.balanced r,
    sums r,
    moved r,
    tally-append (gains r) s.log es,
    tally-append (losses r) s.log es,
  );
}
  where
    inv : Inv x s
    inv = ok (omega (arith, within, (sums 0).2, tally-append creations s.log es))

-- Effects of which some make references beside those of the sockets, and some give them back.
pub note-Ok :
    (x y : ℕ → ℕ) (s : WebSocketState) (es : List Effect) (g l : ℕ → ℕ)
    → ((r : ℕ) → Sums r es (g r) (l r) 0)
    → ((r : ℕ) → x r + g r ≡ l r + y r)
    → Ok x s
    → Ok y (note s es)
note-Ok x y s es g l sums moved =
    change-Ok x y s s.instances es g l (λ a. omega arith) sums (λ r. omega (arith, moved r))

pub with_socket-Ok :
    (x : ℕ → ℕ) (s : WebSocketState) (id : ℕ) (c : SocketCall) → Ok x s → Ok x (with_socket s id c)
with_socket-Ok x s id c ok = elim (Option-cases (find id s.instances)) [
  | inl e ↦ rw (e, with_socket) ok
  | inr (ws, e) ↦
      rw (e, with_socket)
        (note-Ok x x s (socket id c ∷ []) (λ r. 0) (λ r. 0) (λ r. omega arith) (λ r. omega arith)
          ok)
]

destroy_effects-Sums :
    (id : ℕ) (cbs : WsCallbacks) (r : ℕ)
    → Sums r (socket id close ∷ (ws_free_callbacks cbs ++ socket id destroy ∷ [])) 0 (refs r cbs) 0
destroy_effects-Sums id cbs r =
    let tail = socket id destroy ∷ [] in
    omega (
      arith,
      free_callbacks-Sums r cbs,
      tally-append (gains r) (ws_free_callbacks cbs) tail,
      tally-append (losses r) (ws_free_callbacks cbs) tail,
      tally-append creations (ws_free_callbacks cbs) tail,
    )

pub destroy-Ok : (x : ℕ → ℕ) (s : WebSocketState) (id : ℕ) → Ok x s → Ok x (ws_destroy_func s id)
unfolding ws_destroy_func
destroy-Ok x s id ok = elim (Option-cases (find id s.instances)) [
  | inl e ↦ rw (e, ws_destroy_func) ok
  | inr (ws, e) ↦
      rw (e, ws_destroy_func)
        (change-Ok x x s (erase id s.instances)
          (socket id close ∷ (ws_free_callbacks ws.callbacks ++ socket id destroy ∷ [])) (λ r. 0)
          (λ r. refs r ws.callbacks) (λ a. omega (arith, entries-erase id a s.instances ws e))
          (destroy_effects-Sums id ws.callbacks)
          (λ r. omega (arith, tally-erase (holds r) id s.instances ws e)) ok)
]

pub receive-Ok :
    (x : ℕ → ℕ) (s : WebSocketState) (id : ℕ) (m : WebSocketMessage)
    → Ok x s
    → Ok x (message_callback s id m)
unfolding message_callback
receive-Ok x s id m ok = elim (Option-cases (find id s.instances)) [
  | inl e ↦ rw (e, message_callback) ok
  | inr (ws, e) ↦
      let ws' : WsInstance = record ws { message_queue = ws.message_queue ++ js_message m ∷ [] } in
      rw (e, message_callback)
        (change-Ok x x s (replace id ws' s.instances) (received id (js_message m) ∷ []) (λ r. 0)
          (λ r. 0) (λ a. omega (arith, entries-replace id a ws' s.instances)) (λ r. omega arith)
          (λ r. omega (arith, tally-replace (holds r) id s.instances ws ws' e)) ok)
]
