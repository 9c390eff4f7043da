-- ===== src/Hypr/Subscribers.antt =====
-- js_on, js_off and dispatch_events of hypr/src/module.cpp. A callback is the pointer of its function
-- object; two values are the same callback if the pointers are equal.
pub mod Table
pub mod Dispatch
pub mod Ownership
use koya_plugins.Base.{
  ℕ, Bool, true, false, Option, none, some, List, [], ◌∷◌, ◌++◌, Bytes, bytes_eq, c_string, ◌==◌,
  is_empty, if◌then◌else◌,
}
use koya_plugins.Hypr.Types.{EventItem}

-- std::unordered_map<std::string, std::vector<JsCallback>>
abbrev pub Subscribers : Type 0
Subscribers = List (Bytes × List ℕ)

-- subscribers[name], with no list for a name that is not there.
pub callbacks : Subscribers → Bytes → List ℕ
callbacks [] name = []
callbacks ((key, funcs) ∷ subs) name = if bytes_eq key name then funcs else callbacks subs name

-- js_on: subscribers[name].push_back(cb), which makes the entry if it is not there.
pub js_on : Subscribers → Bytes → ℕ → Subscribers
js_on [] name func = (name, func ∷ []) ∷ []
js_on ((key, funcs) ∷ subs) name func =
    if bytes_eq key name
    then (key, funcs ++ func ∷ []) ∷ subs
    else (key, funcs) ∷ js_on subs name func

-- The loop that takes out the first callback with the pointer.
pub remove_first : ℕ → List ℕ → List ℕ
remove_first func [] = []
remove_first func (f ∷ funcs) = if f == func then funcs else f ∷ remove_first func funcs

-- The entry that `find` found, put back without the callback, or erased if it has none left.
keep_unless_empty : Bytes → List ℕ → Subscribers → Subscribers
keep_unless_empty key funcs subs = if is_empty funcs then subs else (key, funcs) ∷ subs

-- js_off: with a function, its first callback; without one (`none`), the whole entry.
pub js_off : Subscribers → Bytes → Option ℕ → Subscribers
unfolding keep_unless_empty
js_off [] name func = []
js_off ((key, funcs) ∷ subs) name func =
    let rest = js_off subs name func in
    if bytes_eq key name
    then (elim func [ some f ↦ keep_unless_empty key (remove_first f funcs) subs | none ↦ subs ])
    else (key, funcs) ∷ rest

-- A call of a callback, with the object that it is given.
pub record Invocation : Type 0 where
  pub callback : ℕ
  pub event : EventItem

-- What the script does in a callback: it may subscribe and unsubscribe.
abbrev pub Script : Type 0
Script = ℕ → EventItem → Subscribers → Subscribers

-- The calls for one event, of the callbacks that were copied before the first of them.
call_all : Script → EventItem → List ℕ → Subscribers → Subscribers × List Invocation
call_all script event [] subs = (subs, [])
call_all script event (f ∷ funcs) subs =
    let rest = call_all script event funcs (script f event subs) in
    (rest.0, record { callback = f; event = event } ∷ rest.1)

-- The object that the callbacks are given: its texts end at their first NUL byte.
as_object : EventItem → EventItem
as_object event = record { name = c_string event.name; payload_raw = c_string event.payload_raw }

-- dispatch_events, for the events that were taken out of the queue.
pub dispatch_events : Script → List EventItem → Subscribers → Subscribers × List Invocation
unfolding call_all
dispatch_events script [] subs = (subs, [])
dispatch_events script (event ∷ events) subs =
    let called = call_all script (as_object event) (callbacks subs event.name) subs in
    let rest = dispatch_events script events called.0 in (rest.0, called.1 ++ rest.1)
