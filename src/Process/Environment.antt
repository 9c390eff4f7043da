-- ===== src/Process/Environment.antt =====
-- js_get_env and js_env of process/src/module.cpp. `environ` is the list of its entries, C strings
-- without their NUL byte. JS_NewStringLen is taken to succeed.
pub mod Lookup
use koya_plugins.Base.{
  ℕ, Bool, true, false, Option, none, some, List, [], ◌∷◌, Bytes, is_empty, c_string, Properties,
  set_property, ◌==◌, if◌then◌else◌,
}

-- The byte of `=`.
abbrev pub equals_sign : ℕ
equals_sign = 61

-- strchr, the key before the sign, and the text behind it.
pub split_entry : Bytes → Option (Bytes × Bytes)
split_entry [] = none
split_entry (b ∷ entry) =
    let rest = split_entry entry in
    if b == equals_sign
    then some ([], entry)
    else elim rest [ none ↦ none | some (key, val) ↦ some (b ∷ key, val) ]

-- `decode` is the engine's reading of bytes as a text, which need not keep bytes that are not UTF-8.
module _ (decode : Bytes → Bytes) where
  -- The body of the loop; an entry without a sign or without a key is passed over.
  unfoldable pub add_entry : Bytes → Properties → Properties
  unfolding split_entry set_property
  add_entry entry obj = elim (split_entry entry) [
    | none ↦ obj
    | some (key, val) ↦ if is_empty key then obj else set_property (decode key) (decode val) obj
  ]

  unfoldable pub add_entries : List Bytes → Properties → Properties
  unfolding add_entry
  add_entries [] obj = obj
  add_entries (entry ∷ environ) obj = add_entries environ (add_entry entry obj)

  -- `none` for the type error that an argument gives.
  unfoldable pub js_env : (argc : ℕ) → List Bytes → Option Properties
  unfolding add_entries
  js_env argc environ = if argc == 0 then some (add_entries environ []) else none

-- What getEnv returns: a text, its second argument, or undefined.
pub data Variable : Type 0 where
  is_type_error is_default is_undefined : Variable
  text : Bytes → Variable

pub absent : (has_default : Bool) → Variable
absent true = is_default
absent false = is_undefined

-- `getenv` is the one of the C library, and `name` the first argument if it is a string.
unfoldable pub js_get_env :
    (decode : Bytes → Bytes) (getenv : Bytes → Option Bytes)
    → (name : Option Bytes) → (has_default : Bool) → Variable
unfolding absent c_string
js_get_env decode getenv none has_default = is_type_error
js_get_env decode getenv (some name) has_default =
    if is_empty name then absent has_default else elim (getenv (c_string name)) [
      | none ↦ absent has_default
      | some value ↦ text (decode value)
    ]
