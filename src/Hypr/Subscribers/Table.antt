-- ===== src/Hypr/Subscribers/Table.antt =====
-- What js_on and js_off of hypr/src/module.cpp do to each name.
use koya_plugins.Base.{
  ℕ, ◌≡◌, refl, false, Option, none, some, List, [], ◌∷◌, ◌++◌, arith, Bytes, bytes_eq,
  bytes_eq_iff, is_empty, if◌then◌else◌,
}
use koya_plugins.Hypr.Subscribers.{Subscribers, callbacks, js_on, js_off, remove_first}

-- After js_on the name has the new callback behind those it had, and every other name is as it was.
pub callbacks-js_on :
    (subs : Subscribers) (name other : Bytes) (func : ℕ)
    → callbacks (js_on subs name func) other
      ≡ (if bytes_eq name other then callbacks subs other ++ func ∷ [] else callbacks subs other)
unfolding callbacks js_on
callbacks-js_on [] name other func = ground (arith, bytes_eq_iff name other)
callbacks-js_on ((key, funcs) ∷ subs) name other func = ground (
  arith,
  bytes_eq_iff key name,
  bytes_eq_iff key other,
  bytes_eq_iff name other,
  callbacks-js_on subs name other func,
)

-- A name stands in one entry.
abbrev Absent : Bytes → Subscribers → Type 0
Absent name [] = Unit
Absent name ((key, funcs) ∷ subs) = (bytes_eq key name ≡ false) × Absent name subs

-- Each name has one entry at most, and no entry has an empty list.
abbrev pub IsTable : Subscribers → Type 0
IsTable [] = Unit
IsTable ((key, funcs) ∷ subs) = (is_empty funcs ≡ false) × Absent key subs × IsTable subs

Absent-callbacks : (subs : Subscribers) (name : Bytes) → Absent name subs → callbacks subs name ≡ []
unfolding callbacks
Absent-callbacks [] name h = refl
Absent-callbacks ((key, funcs) ∷ subs) name h = ground (arith, Absent-callbacks subs name h.1)

-- The callbacks that js_off leaves under the name.
abbrev pub left_by : Option ℕ → List ℕ → List ℕ
left_by none funcs = []
left_by (some f) funcs = remove_first f funcs

-- In a table that has one entry at most for each name and none that is empty, after js_off the name has lost the first callback with the given pointer, or all of them if no
-- function was given, and every other name is as it was.
pub callbacks-js_off :
    (subs : Subscribers) (name other : Bytes) (func : Option ℕ)
    → IsTable subs
    → callbacks (js_off subs name func) other
      ≡ (if bytes_eq name other then left_by func (callbacks subs other) else callbacks subs other)
unfolding callbacks js_off remove_first
callbacks-js_off [] name other none t = ground arith
callbacks-js_off [] name other (some f) t = ground arith
callbacks-js_off ((key, funcs) ∷ subs) name other none t = ground (
  arith,
  bytes_eq_iff key name,
  bytes_eq_iff key other,
  bytes_eq_iff name other,
  Absent-callbacks subs key t.1,
  callbacks-js_off subs name other none t.2,
)
callbacks-js_off ((key, funcs) ∷ subs) name other (some f) t = ground (
  arith,
  bytes_eq_iff key name,
  bytes_eq_iff key other,
  bytes_eq_iff name other,
  Absent-callbacks subs key t.1,
  callbacks-js_off subs name other (some f) t.2,
)

Absent-js_on :
    (subs : Subscribers) (key name : Bytes) (func : ℕ)
    → bytes_eq key name ≡ false
    → Absent name subs
    → Absent name (js_on subs key func)
unfolding js_on
Absent-js_on [] key name func ne a = (ne, tt)
Absent-js_on ((k, funcs) ∷ subs) key name func ne a =
    ground (arith, Absent-js_on subs key name func ne a.1)

Absent-js_off :
    (subs : Subscribers) (key name : Bytes) (func : Option ℕ)
    → Absent name subs
    → Absent name (js_off subs key func)
unfolding js_off
Absent-js_off [] key name func a = tt
Absent-js_off ((k, funcs) ∷ subs) key name none a =
    ground (arith, Absent-js_off subs key name none a.1)
Absent-js_off ((k, funcs) ∷ subs) key name (some f) a =
    ground (arith, Absent-js_off subs key name (some f) a.1)

-- js_on keeps a table well formed: if it has one entry at most for each name, and none that is empty,
-- it has so afterwards.
pub js_on-IsTable :
    (subs : Subscribers) (name : Bytes) (func : ℕ) → IsTable subs → IsTable (js_on subs name func)
unfolding js_on
js_on-IsTable [] name func t = (refl, tt, tt)
js_on-IsTable ((key, []) ∷ subs) name func t = cc (t.0)
js_on-IsTable ((key, f ∷ funcs) ∷ subs) name func t = ground (
  arith,
  js_on-IsTable subs name func t.2,
  Absent-js_on subs name key func,
  bytes_eq_iff key name,
  bytes_eq_iff name key,
)

-- js_off keeps a table well formed: if it has one entry at most for each name, and none that is empty,
-- it has so afterwards.
pub js_off-IsTable :
    (subs : Subscribers) (name : Bytes) (func : Option ℕ)
    → IsTable subs
    → IsTable (js_off subs name func)
unfolding js_off
js_off-IsTable [] name func t = tt
js_off-IsTable ((key, funcs) ∷ subs) name none t =
    ground (arith, js_off-IsTable subs name none t.2, Absent-js_off subs name key none t.1)
js_off-IsTable ((key, funcs) ∷ subs) name (some f) t =
    ground (arith, js_off-IsTable subs name (some f) t.2, Absent-js_off subs name key (some f) t.1)
