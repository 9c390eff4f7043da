-- ===== src/Hypr/Subscribers/Dispatch.antt =====
-- Who is called for which event by hypr/src/module.cpp.
use koya_plugins.Base.{ℕ, ◌≡◌, refl, ap, List, [], ◌∷◌, ◌++◌, map}
use koya_plugins.Hypr.Types.{EventItem}
use koya_plugins.Hypr.Subscribers.{
  Subscribers, callbacks, Invocation, Script, call_all, as_object, dispatch_events,
}

invoke : EventItem → ℕ → Invocation
invoke event f = record { callback = f; event = event }

-- The table after the callbacks ran for an event.
pub after_calls : Script → EventItem → List ℕ → Subscribers → Subscribers
after_calls script event [] subs = subs
after_calls script event (f ∷ funcs) subs = after_calls script event funcs (script f event subs)

-- For each event in order, one call of each callback that was subscribed when the event's turn came.
pub deliveries : Script → List EventItem → Subscribers → List Invocation
unfolding invoke
deliveries script [] subs = []
deliveries script (event ∷ events) subs =
    map (invoke (as_object event)) (callbacks subs event.name)
    ++ deliveries script events
        (after_calls script (as_object event) (callbacks subs event.name) subs)

call_all-deliveries :
    (script : Script) (event : EventItem) (funcs : List ℕ) (subs : Subscribers)
    → call_all script event funcs subs
      ≡ (after_calls script event funcs subs, map (invoke event) funcs)
unfolding call_all after_calls invoke
call_all-deliveries script event [] subs = refl
call_all-deliveries script event (f ∷ funcs) subs =
    ap (λ (r : Subscribers × List Invocation). (r.0, record { callback = f; event = event } ∷ r.1))
      (call_all-deliveries script event funcs (script f event subs))

-- Whatever the callbacks do to the subscriptions while they run, each event is given, in order, to
-- exactly the callbacks that were subscribed to its name when its turn came, in their order: a callback that is
-- removed meanwhile is still called for it, and one that is added is not.
pub dispatch_events-deliveries :
    (script : Script) (events : List EventItem) (subs : Subscribers)
    → (dispatch_events script events subs).1 ≡ deliveries script events subs
unfolding dispatch_events deliveries
dispatch_events-deliveries script [] subs = refl
dispatch_events-deliveries script (event ∷ events) subs =
    rw (call_all-deliveries script (as_object event) (callbacks subs event.name) subs) (
      ap (λ calls. map (invoke (as_object event)) (callbacks subs event.name) ++ calls)
        (dispatch_events-deliveries script events
          (after_calls script (as_object event) (callbacks subs event.name) subs)))
