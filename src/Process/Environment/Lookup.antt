-- ===== src/Process/Environment/Lookup.antt =====
-- Which entry of the environment process/src/module.cpp gives a script for a name.
use koya_plugins.Base.{
  ◌≡◌, refl, ap, sym, ◌∙◌, Bool, true, false, Option, none, some, List, [], ◌∷◌, ◌++◌, arith, Bytes,
  is_empty, contains, Properties, proto, get_property, get-set, bytes_eq, bytes_eq_iff,
  c_string_whole, Option-cases, Bool-cases, inl, inr, ◌==◌, if◌then◌else◌,
}
use koya_plugins.Process.Environment.{
  equals_sign, split_entry, add_entry, add_entries, js_env, Variable, text, absent, js_get_env,
}

-- What follows `prefix` in a text that begins with it.
abbrev pub behind : (prefix text : Bytes) → Option Bytes
behind [] t = some t
behind (c ∷ prefix) [] = none
behind (c ∷ prefix) (d ∷ t) = if d == c then behind prefix t else none

abbrev pub assigned : Bytes → Bytes → Option Bytes
assigned name entry = behind (name ++ equals_sign ∷ []) entry

-- The value of the last entry that begins with the name and the sign, and of the first.
unfoldable pub last_of : Bytes → List Bytes → Option Bytes
last_of name [] = none
last_of name (entry ∷ environ) = elim (last_of name environ) [
  | none ↦ assigned name entry
  | some v ↦ some v
]

unfoldable pub first_of : Bytes → List Bytes → Option Bytes
first_of name [] = none
first_of name (entry ∷ environ) = elim (assigned name entry) [
  | none ↦ first_of name environ
  | some v ↦ some v
]

-- A name that a variable can have.
abbrev pub IsName : Bytes → Type 0
IsName name = (is_empty name ≡ false) × (contains equals_sign name ≡ false)

-- The part of an entry before the sign, against a name without one.
matched : Bytes → Option (Bytes × Bytes) → Option Bytes
matched name none = none
matched name (some (key, val)) = if bytes_eq key name then some val else none

assigned-split :
    (name entry : Bytes)
    → contains equals_sign name ≡ false
    → assigned name entry ≡ matched name (split_entry entry)
unfolding split_entry matched contains bytes_eq
assigned-split [] [] h = refl
assigned-split (c ∷ name) [] h = refl
assigned-split [] (d ∷ entry) h = elim (Bool-cases (d == equals_sign)) [
  | inl e ↦ rw (e, split_entry) refl
  | inr e ↦ elim (Option-cases (split_entry entry)) [
    | inl n ↦ rw (e, n, split_entry) refl
    | inr ((key, val), n) ↦ rw (e, n, split_entry) refl
  ]
]
assigned-split (c ∷ name) (d ∷ entry) h = elim (Bool-cases (d == equals_sign)) [
  | inl e ↦ rw (e, split_entry, the_sign e) refl
  | inr e ↦ elim (Bool-cases (d == c)) [
    | inl same ↦ elim (Option-cases (split_entry entry)) [
      | inl n ↦ rw (e, n, same, split_entry) (assigned-split name entry rest ∙ rw n refl)
      | inr ((key, val), n) ↦
          rw (e, n, same, split_entry) (assigned-split name entry rest ∙ rw n refl)
    ]
    | inr differs ↦ elim (Option-cases (split_entry entry)) [
      | inl n ↦ rw (e, n, differs, split_entry) refl
      | inr ((key, val), n) ↦ rw (e, n, differs, split_entry) refl
    ]
  ]
]
  where
    rest : contains equals_sign name ≡ false
    rest = ground (arith, h)

    the_sign : (d == equals_sign) ≡ true → (d == c) ≡ false
    the_sign e = ground (arith, h)

abbrev or_else : Option Bytes → Option Bytes → Option Bytes
or_else none o = o
or_else (some v) o = some v

no_key :
    (name key : Bytes) → is_empty name ≡ false → is_empty key ≡ true → bytes_eq key name ≡ false
unfolding bytes_eq
no_key [] key h k = ground (arith, h)
no_key (c ∷ name) [] h k = refl
no_key (c ∷ name) (d ∷ key) h k = ground (arith, k)

abbrev pub decoded : (Bytes → Bytes) → Option Bytes → Option Bytes
decoded decode none = none
decoded decode (some b) = some (decode b)

-- A text of the engine is a name that the object can have, and no other variable is read as this name.
abbrev pub Named : (Bytes → Bytes) → Bytes → Type 0
Named decode name =
    (bytes_eq (decode name) proto ≡ false) × ((key : Bytes) → decode key ≡ decode name → key ≡ name)

decode-same :
    (decode : Bytes → Bytes) (name key : Bytes)
    → Named decode name
    → bytes_eq (decode key) (decode name) ≡ bytes_eq key name
decode-same decode name key named = elim (Bool-cases (bytes_eq key name)) [
  | inl e ↦
      (bytes_eq_iff (decode key) (decode name)).1 (ap decode ((bytes_eq_iff key name).0 e)) ∙ sym e
  | inr e ↦ elim (Bool-cases (bytes_eq (decode key) (decode name))) [
    | inl f ↦ absurd (
        cc (
          (bytes_eq_iff key name).1 (named.1 key ((bytes_eq_iff (decode key) (decode name)).0 f)),
          e,
        ))
    | inr f ↦ f ∙ sym e
  ]
]

module _ (decode : Bytes → Bytes) (name : Bytes) (h : IsName name) (named : Named decode name) where
  add_entry-get :
      (entry : Bytes) (obj : Properties)
      → get_property (decode name) (add_entry decode entry obj)
        ≡ or_else (decoded decode (assigned name entry)) (get_property (decode name) obj)
  unfolding add_entry matched
  add_entry-get entry obj = elim (Option-cases (split_entry entry)) [
    | inl e ↦ rw (assigned-split name entry h.1, e, add_entry) refl
    | inr ((key, val), e) ↦ elim (Bool-cases (is_empty key)) [
      | inl n ↦ rw (assigned-split name entry h.1, e, n, add_entry, no_key name key h.0 n) refl
      | inr n ↦
          let found =
            get-set (decode name) (decode key) (decode val) obj named.0
            ∙ ap (λ b. if b then some (decode val) else get_property (decode name) obj)
                (decode-same decode name key named) in
          elim (Bool-cases (bytes_eq key name)) [
            | inl m ↦ rw (assigned-split name entry h.1, e, n, m, add_entry) (found ∙ rw m refl)
            | inr m ↦ rw (assigned-split name entry h.1, e, n, m, add_entry) (found ∙ rw m refl)
          ]
    ]
  ]

  add_entries-get :
      (environ : List Bytes) (obj : Properties)
      → get_property (decode name) (add_entries decode environ obj)
        ≡ or_else (decoded decode (last_of name environ)) (get_property (decode name) obj)
  unfolding add_entries last_of
  add_entries-get [] obj = refl
  add_entries-get (entry ∷ environ) obj = elim (Option-cases (last_of name environ)) [
    | inl e ↦
        rw (e, last_of)
          (add_entries-get environ (add_entry decode entry obj) ∙ rw e (add_entry-get entry obj))
    | inr (v, e) ↦
        rw (e, last_of) (add_entries-get environ (add_entry decode entry obj) ∙ rw e refl)
  ]

-- However the engine reads bytes as texts, and for a name that is not empty, has no `=`, is not read as
-- `__proto__`, and is not read as another name is: env() without arguments gives an object whose own
-- property of the name is what follows the name and `=` in the last entry that begins with them, and
-- is absent if there is none.
pub env_lookup :
    (decode : Bytes → Bytes) (name : Bytes) (environ : List Bytes)
    → IsName name
    → Named decode name
    → (obj : Properties) × (js_env decode 0 environ ≡ some obj)
      × (get_property (decode name) obj ≡ decoded decode (last_of name environ))
unfolding js_env get_property
env_lookup decode name environ h named = (
  add_entries decode environ [],
  refl,
  add_entries-get decode name h named environ []
      ∙ elim (Option-cases (last_of name environ)) [ inl e ↦ rw e refl | inr (v, e) ↦ rw e refl ],
)

abbrev pub answer : Bool → Option Bytes → Variable
answer has_default none = absent has_default
answer has_default (some v) = text v

-- For a name as for env(), without NUL: if getenv gives for it the value of the first entry that begins
-- with the name and `=`, and no later entry that begins so has another value, then getEnv of the name
-- gives what the object of env() has for it, and the default or undefined if that has nothing.
pub get_env_agrees :
    (decode : Bytes → Bytes) (getenv : Bytes → Option Bytes) (name : Bytes) (environ : List Bytes)
    (has_default : Bool)
    → IsName name
    → Named decode name
    → contains 0 name ≡ false
    → getenv name ≡ first_of name environ
    → first_of name environ ≡ last_of name environ
    → (obj : Properties) × (js_env decode 0 environ ≡ some obj)
      × (js_get_env decode getenv (some name) has_default
          ≡ answer has_default (get_property (decode name) obj))
unfolding js_get_env
get_env_agrees decode getenv name environ has_default h named no_nul first one =
    let (obj, made, found) = env_lookup decode name environ h named in
    (
      obj,
      made,
      elim (Option-cases (last_of name environ)) [
        | inl e ↦
            rw
              (
                h.0,
                c_string_whole name no_nul,
                first ∙ one ∙ e,
                js_get_env,
                found ∙ ap (decoded decode) e,
              )
              refl
        | inr (v, e) ↦
            rw
              (
                h.0,
                c_string_whole name no_nul,
                first ∙ one ∙ e,
                js_get_env,
                found ∙ ap (decoded decode) e,
              )
              refl
      ],
    )
