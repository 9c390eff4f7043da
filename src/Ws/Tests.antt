-- ===== src/Ws/Tests.antt =====
-- Runs of the model of ws/src/module.cpp, and its theorems at concrete inputs.
use koya_plugins.Base.{
  ◌+◌, ◌≡◌, refl, true, false, none, some, List, [], ◌∷◌, ◌++◌, codes, arith, tally, find, erase,
  assign, replace, c_string,
}
use koya_plugins.Ws.Types.{
  text, null, primitive, object, JsWebSocketMessage, WebSocketMessage, message, opens, WsInstance,
}
use koya_plugins.Ws.Sockets.{
  Options, creates, destroys, receives, act, acts, retain_net_system, ws_free_callbacks,
}
use koya_plugins.Ws.Sockets.Accounting.{gains, losses, holds, Within}
use koya_plugins.Ws.Sockets.Messages.{turns_of, received_of}
use koya_plugins.Ws.Drain.{
  Script, call, deliver, deliver_all, local_queues, empty_queues, ws_drain, Event, acting, updates,
  step, steps, script_shutdown, initial,
}
use koya_plugins.Ws.Drain.Ownership.{socket_callbacks_freed}
use koya_plugins.Ws.Drain.Order.{messages_in_order}
use koya_plugins.Ws.Drain.Calls.{calls_of, calls_due, passive, drain_calls}

abbrev options : Options
options = record {
  on_message = object 50 true;
  on_open = object 51 false;
  on_close = primitive;
  on_error = null;
  url = codes "ws://a";
}

abbrev greeting : WebSocketMessage
greeting = record { type = message; str = codes "hi"; binary = false; reason = [] }

abbrev opened : WebSocketMessage
opened = record { type = opens; str = []; binary = false; reason = [] }

-- A callback destroys its own socket, and a message comes in for it before.
abbrev destroying : Script
destroying s f a = receives 1 greeting ∷ destroys 1 ∷ []

abbrev run : List Event
run =
    acting (creates (some options))
    ∷ acting (creates none)
    ∷ acting (receives 1 opened)
    ∷ acting (receives 1 greeting)
    ∷ acting (receives 1 greeting)
    ∷ []

run-Within : Within (steps destroying (initial 0) run)
unfolding steps step act assign erase find replace retain_net_system
run-Within = omega arith

drained-Within : Within (steps destroying (initial 0) (run ++ updates ∷ []))
unfolding steps step act acts assign erase find replace retain_net_system ws_drain deliver_all
    deliver call local_queues empty_queues ws_free_callbacks
drained-Within = omega arith

-- Two messages have their turn with the socket gone, and the one that came in during the drain is lost.
drained-turns :
    turns_of 1 (steps destroying (initial 0) (run ++ updates ∷ [])).log
    ≡ record { type = opens; str = []; binary = false }
      ∷ record { type = message; str = codes "hi"; binary = false }
      ∷ record { type = message; str = codes "hi"; binary = false }
      ∷ []
unfolding steps step act acts assign erase find replace retain_net_system ws_drain deliver_all
    deliver call local_queues empty_queues ws_free_callbacks c_string
drained-turns = refl

socket_callbacks_freed_example :
    let s = steps destroying (initial 0) (run ++ updates ∷ []) in
    (tally (gains 50) s.log ≡ tally (losses 50) s.log + tally (holds 50) s.instances)
    × (tally (gains 50) (script_shutdown s).log ≡ tally (losses 50) (script_shutdown s).log)
socket_callbacks_freed_example =
    socket_callbacks_freed destroying 0 (run ++ updates ∷ []) 50 drained-Within

messages_in_order_example :
    let s = steps destroying (initial 0) (run ++ updates ∷ []) in
    (waiting : List JsWebSocketMessage) × (turns_of 1 s.log ++ waiting ≡ received_of 1 s.log)
    × ((ws : WsInstance) → find 1 s.instances ≡ some ws → ws.message_queue ≡ waiting)
messages_in_order_example = messages_in_order destroying 0 (run ++ updates ∷ []) 1 drained-Within

drain_calls_example :
    let s = steps destroying (initial 0) run in
    calls_of (ws_drain passive s).log ≡ calls_of s.log ++ calls_due s.instances
drain_calls_example = drain_calls destroying 0 run run-Within

-- onOpen is no function; the two texts go to onMessage.
two_due :
    calls_due (steps destroying (initial 0) run).instances
    ≡ (50, text (codes "hi")) ∷ (50, text (codes "hi")) ∷ []
unfolding steps step act assign erase find replace retain_net_system c_string
two_due = refl
