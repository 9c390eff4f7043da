-- ===== src/Ws/Sockets/Messages.antt =====
-- The messages of ws/src/module.cpp in a log of effects, and the queue of one socket.
use koya_plugins.Base.{
  ℕ, ◌≡◌, refl, ap, Bool, true, false, List, [], ◌∷◌, ◌++◌, All, All-append, ◌==◌, if◌then◌else◌,
  if_keeps, Bool-cases, inl, inr,
}
use koya_plugins.Ws.Types.{
  JsValue, null, primitive, object, WsCallbacks, JsWebSocketMessage, close, destroy, Effect, taken,
  duplicated, received, turn, socket, init_net_system,
}
use koya_plugins.Ws.Sockets.{
  get_property, get_callbacks, free_callback, ws_free_callbacks, Options, add_effects,
}

-- The messages of a socket that had their turn, and those that were queued.
abbrev pub turns_of : ℕ → List Effect → List JsWebSocketMessage
turns_of id [] = []
turns_of id (turn j m f ∷ es) = if j == id then m ∷ turns_of id es else turns_of id es
turns_of id (e ∷ es) = turns_of id es

abbrev pub received_of : ℕ → List Effect → List JsWebSocketMessage
received_of id [] = []
received_of id (received j m ∷ es) = if j == id then m ∷ received_of id es else received_of id es
received_of id (e ∷ es) = received_of id es

-- Neither a turn nor a message.
abbrev pub Quiet : Effect → Type 0
Quiet (turn j m f) = ⊥
Quiet (received j m) = ⊥
Quiet e = Unit

-- No turn.
abbrev pub Silent : Effect → Type 0
Silent (turn j m f) = ⊥
Silent e = Unit

pub turns_of-append :
    (id : ℕ) (xs ys : List Effect) → turns_of id (xs ++ ys) ≡ turns_of id xs ++ turns_of id ys
turns_of-append id [] ys = refl
turns_of-append id (turn j m f ∷ xs) ys = elim (Bool-cases (j == id)) [
  | inl e ↦ rw e (ap (λ ms. m ∷ ms) (turns_of-append id xs ys))
  | inr e ↦ rw e (turns_of-append id xs ys)
]
turns_of-append id (taken r ∷ xs) ys = turns_of-append id xs ys
turns_of-append id (duplicated r ∷ xs) ys = turns_of-append id xs ys
turns_of-append id (e ∷ xs) ys = turns_of-append id xs ys

pub received_of-append :
    (id : ℕ) (xs ys : List Effect)
    → received_of id (xs ++ ys) ≡ received_of id xs ++ received_of id ys
received_of-append id [] ys = refl
received_of-append id (received j m ∷ xs) ys = elim (Bool-cases (j == id)) [
  | inl e ↦ rw e (ap (λ ms. m ∷ ms) (received_of-append id xs ys))
  | inr e ↦ rw e (received_of-append id xs ys)
]
received_of-append id (e ∷ xs) ys = received_of-append id xs ys

pub Silent-turns : (id : ℕ) (es : List Effect) → All Silent es → turns_of id es ≡ []
Silent-turns id [] q = refl
Silent-turns id (turn j m f ∷ es) q = absurd (q.0)
Silent-turns id (e ∷ es) q = Silent-turns id es (q.1)

pub Quiet-Silent : (es : List Effect) → All Quiet es → All Silent es
Quiet-Silent [] q = tt
Quiet-Silent (turn j m f ∷ es) q = absurd (q.0)
Quiet-Silent (received j m ∷ es) q = absurd (q.0)
Quiet-Silent (e ∷ es) q = (tt, Quiet-Silent es (q.1))

pub Quiet-received : (id : ℕ) (es : List Effect) → All Quiet es → received_of id es ≡ []
Quiet-received id [] q = refl
Quiet-received id (turn j m f ∷ es) q = absurd (q.0)
Quiet-received id (received j m ∷ es) q = absurd (q.0)
Quiet-received id (e ∷ es) q = Quiet-received id es (q.1)

get_property-Quiet : (v : JsValue) → All Quiet (get_property v)
get_property-Quiet null = tt
get_property-Quiet primitive = tt
get_property-Quiet (object ref callable) = (tt, tt)

free_callback-Quiet : (v : JsValue) → All Quiet (free_callback v)
free_callback-Quiet null = tt
free_callback-Quiet primitive = tt
free_callback-Quiet (object ref callable) = (tt, tt)

four-Quiet :
    (a b c d : List Effect)
    → All Quiet a
    → All Quiet b
    → All Quiet c
    → All Quiet d
    → All Quiet (a ++ (b ++ (c ++ d)))
four-Quiet a b c d p q r s =
    All-append Quiet a (b ++ (c ++ d)) p (All-append Quiet b (c ++ d) q (All-append Quiet c d r s))

get_callbacks-Quiet : (o : Options) → All Quiet (get_callbacks o)
get_callbacks-Quiet o =
    four-Quiet (get_property o.on_message) (get_property o.on_open) (get_property o.on_close)
      (get_property o.on_error) (get_property-Quiet o.on_message) (get_property-Quiet o.on_open)
      (get_property-Quiet o.on_close) (get_property-Quiet o.on_error)

free_callbacks-Quiet : (cbs : WsCallbacks) → All Quiet (ws_free_callbacks cbs)
unfolding ws_free_callbacks
free_callbacks-Quiet cbs =
    if_keeps (All Quiet) cbs.ctx
      (four-Quiet (free_callback cbs.on_message) (free_callback cbs.on_open)
        (free_callback cbs.on_close) (free_callback cbs.on_error)
        (free_callback-Quiet cbs.on_message) (free_callback-Quiet cbs.on_open)
        (free_callback-Quiet cbs.on_close) (free_callback-Quiet cbs.on_error))
      tt

pub destroy_effects-Quiet :
    (id : ℕ) (cbs : WsCallbacks)
    → All Quiet (socket id close ∷ (ws_free_callbacks cbs ++ socket id destroy ∷ []))
destroy_effects-Quiet id cbs =
    (tt, All-append Quiet (ws_free_callbacks cbs) _ (free_callbacks-Quiet cbs) (tt, tt))

pub add_effects-Quiet : (id : ℕ) (o : Options) → All Quiet (add_effects id o)
add_effects-Quiet id o =
    (tt, All-append Quiet (get_callbacks o) _ (get_callbacks-Quiet o) (tt, (tt, tt)))

pub network_effects-Quiet : (first : Bool) → All Quiet (if first then init_net_system ∷ [] else [])
network_effects-Quiet true = (tt, tt)
network_effects-Quiet false = tt
