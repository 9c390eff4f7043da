-- ===== src/Base/Objects.antt =====
-- The own properties of a plain object of the script engine whose values are texts, by their names.
use mathlib.Core.Path.{◌≡◌, refl, ap, sym, ◌∙◌}
use mathlib.Core.Bool.{true, false}
use mathlib.Core.Option.{Option, none, some}
use mathlib.Core.List.{List, [], ◌∷◌}
use mathlib.Core.Logic.{inl, inr}
use koya_plugins.Base.Tests.{if◌then◌else◌, Bool-cases}
use koya_plugins.Base.Strings.{Bytes, codes, bytes_eq, bytes_eq_iff}

abbrev pub Properties : Type 0
Properties = List (Bytes × Bytes)

abbrev pub proto : Bytes
proto = codes "__proto__"

-- A property of the object itself.
unfoldable pub put_property : Bytes → Bytes → Properties → Properties
unfolding bytes_eq
put_property key val [] = (key, val) ∷ []
put_property key val ((k, v) ∷ properties) =
    let rest = put_property key val properties in
    if bytes_eq k key then (key, val) ∷ properties else (k, v) ∷ rest

-- JS_SetPropertyStr with a text: the setter that the object inherits under `__proto__` takes no text.
unfoldable pub set_property : Bytes → Bytes → Properties → Properties
unfolding put_property
set_property key val properties =
    if bytes_eq key proto then properties else put_property key val properties

unfoldable pub get_property : Bytes → Properties → Option Bytes
unfolding bytes_eq
get_property key [] = none
get_property key ((k, v) ∷ properties) =
    if bytes_eq k key then some v else get_property key properties

same_name : (a b c : Bytes) → bytes_eq a b ≡ true → bytes_eq a c ≡ bytes_eq b c
same_name a b c e = ap (λ x. bytes_eq x c) ((bytes_eq_iff a b).0 e)

get-put :
    (name key val : Bytes) (obj : Properties)
    → get_property name (put_property key val obj)
      ≡ (if bytes_eq key name then some val else get_property name obj)
unfolding get_property put_property
get-put name key val [] = refl
get-put name key val ((k, v) ∷ obj) = elim (Bool-cases (bytes_eq k key)) [
  | inl e ↦ elim (Bool-cases (bytes_eq key name)) [
    | inl n ↦ rw (e, n, put_property) refl
    | inr n ↦ rw (e, n, put_property, same_name k key name e ∙ n) refl
  ]
  | inr e ↦ elim (Bool-cases (bytes_eq k name)) [
    | inl n ↦ rw (e, n, put_property, other e n) refl
    | inr n ↦ rw (e, n, put_property) (get-put name key val obj)
  ]
]
  where
    other : bytes_eq k key ≡ false → bytes_eq k name ≡ true → bytes_eq key name ≡ false
    other e n = elim (Bool-cases (bytes_eq key name)) [
      | inr m ↦ m
      | inl m ↦
          m
          ∙ sym (
              (bytes_eq_iff k key).1
                ((bytes_eq_iff k name).0 n ∙ sym ((bytes_eq_iff key name).0 m)))
          ∙ e
    ]

-- A name that is not `__proto__` is found with the value that was set last.
pub get-set :
    (name key val : Bytes) (obj : Properties)
    → bytes_eq name proto ≡ false
    → get_property name (set_property key val obj)
      ≡ (if bytes_eq key name then some val else get_property name obj)
unfolding set_property
get-set name key val obj plain = elim (Bool-cases (bytes_eq key proto)) [
  | inr e ↦ rw (e, set_property) (get-put name key val obj)
  | inl e ↦ elim (Bool-cases (bytes_eq key name)) [
    | inl n ↦ absurd (differs (sym (same_name key name proto n) ∙ e))
    | inr n ↦ rw (e, n, set_property) refl
  ]
]
  where
    differs : bytes_eq name proto ≡ true → ⊥
    differs m = cc (m, plain)

-- No property of an object that was made by setting is named `__proto__`.
pub set-proto :
    (key val : Bytes) (obj : Properties)
    → get_property proto obj ≡ none
    → get_property proto (set_property key val obj) ≡ none
unfolding set_property
set-proto key val obj h = elim (Bool-cases (bytes_eq key proto)) [
  | inl e ↦ rw (e, set_property) h
  | inr e ↦ rw (e, set_property) (get-put proto key val obj ∙ rw e h)
]
