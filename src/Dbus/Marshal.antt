-- ===== src/Dbus/Marshal.antt =====
-- dbus/src/marshal.hpp: the values of a script written into a message by a signature.
pub mod Ranges
pub mod Typing
use koya_plugins.Base.{
  ℕ, ◌+◌, ◌-◌, ◌%◌, ◌^◌, ℤ, pos, negsuc, Bool, true, false, not, ◌&&◌, ◌||◌, Option, none, some,
  List, [], ◌∷◌, Bytes, codes, contains, bytes_eq, c_string, leb, ltb, if◌then◌else◌,
}
use koya_plugins.Dbus.Types.{
  DbusType, byte, boolean, int16, uint16, int32, uint32, int64, uint64, double, string, object_path,
  signature, unix_fd, variant, array, dict, struct, DbusTypes, Number, integer, fraction,
  not_finite, JsValue, undefined, other, bool, number, bigint, text, items, object, JsValues,
  Properties, property, Wire, natural, signed, truth, float, chars, boxed, sequence, entries, Wires,
}

-- What the code uses of libdbus: the tests of a path and of a signature, and the reading of a signature
-- as one complete type, or as a list of them.
pub record Libdbus : Type 0 where
  pub validate_path : Bytes → Bool
  pub validate_signature : Bytes → Bool
  pub parse_single : Bytes → Option DbusType
  pub parse_signature : Bytes → Option DbusTypes

-- 0 <= number && number <= max
abbrev pub is_unsigned : ℕ → ℤ → Bool
is_unsigned max (pos n) = leb n max
is_unsigned max (negsuc n) = false

-- -max - 1 <= number && number <= max
abbrev pub is_signed : ℕ → ℤ → Bool
is_signed max (pos n) = leb n max
is_signed max (negsuc n) = leb n max

abbrev pub magnitude : ℤ → ℕ
magnitude (pos n) = n
magnitude (negsuc n) = n + 1

-- JS_ToBigInt64, read as an unsigned number and as a signed one: modulo 2^64.
abbrev pub low_bits : ℤ → ℕ
low_bits (pos n) = n % 18446744073709551616
low_bits (negsuc n) = 18446744073709551615 - n % 18446744073709551616

abbrev pub from_bits : ℕ → ℤ
from_bits u = if ltb u 9223372036854775808 then pos u else negsuc (18446744073709551615 - u)

abbrev pub unsigned_wire : ℕ → ℤ → Option Wire
unsigned_wire max z = if is_unsigned max z then some (natural (magnitude z)) else none

abbrev pub signed_wire : ℕ → ℤ → Option Wire
signed_wire max z = if is_signed max z then some (signed z) else none

-- The numbers that a double holds exactly.
abbrev pub is_safe : ℤ → Bool
is_safe z = leb (magnitude z) 9007199254740991

-- The types for which a number is read as a double.
abbrev pub number_wire : Number → DbusType → Option Wire
number_wire (integer z) byte = unsigned_wire 255 z
number_wire (integer z) int16 = signed_wire 32767 z
number_wire (integer z) uint16 = unsigned_wire 65535 z
number_wire (integer z) int32 = signed_wire 2147483647 z
number_wire (integer z) uint32 = unsigned_wire 4294967295 z
number_wire (integer z) int64 = if is_safe z then some (signed z) else none
number_wire (integer z) uint64 = if is_safe z then unsigned_wire 9007199254740991 z else none
number_wire (integer z) double = some (float (integer z))
number_wire (fraction n) double = some (float (fraction n))
number_wire n type = none

abbrev pub bigint_wire : ℤ → DbusType → Option Wire
bigint_wire z int64 = some (signed (from_bits (low_bits z)))
bigint_wire z uint64 = some (natural (low_bits z))
bigint_wire z type = none

abbrev pub bool_wire : Bool → DbusType → Option Wire
bool_wire b boolean = some (truth b)
bool_wire b type = none

-- The text of a value, which is read as a C string.
abbrev pub js_to_string : Bytes → Bytes
js_to_string s = c_string s

module _ (lib : Libdbus) where
  abbrev pub text_wire : Bytes → DbusType → Option Wire
  text_wire s string = if contains 0 s then none else some (chars s)
  text_wire s object_path =
      if contains 0 s then none else (if lib.validate_path s then some (chars s) else none)
  text_wire s signature =
      if contains 0 s then none else (if lib.validate_signature s then some (chars s) else none)
  text_wire s type = none

  -- append_value for the types that are no containers.
  abbrev pub append_basic : JsValue → DbusType → Option Wire
  append_basic (bool b) type = bool_wire b type
  append_basic (number n) type = number_wire n type
  append_basic (bigint z) type = bigint_wire z type
  append_basic (text s) type = text_wire (js_to_string s) type
  append_basic value type = none

  abbrev pub box : DbusType → Option Wire → Option Wire
  box type none = none
  box type (some w) = some (boxed type w)

  -- JS_GetPropertyStr
  unfoldable pub get_property : Bytes → Properties → JsValue
  unfolding bytes_eq
  get_property name Properties.empty = undefined
  get_property name (property key value rest) =
      if bytes_eq key name then value else get_property name rest

  -- The tag of a variant: `_t`, or `t`, if that is a text.
  abbrev pub text_of : JsValue → Option Bytes
  text_of (text s) = some (js_to_string s)
  text_of value = none

  abbrev pub tag_of : Properties → Option Bytes
  tag_of fields = elim (text_of (get_property (codes "_t") fields)) [
    | some tag ↦ some tag
    | none ↦ text_of (get_property (codes "t") fields)
  ]

  abbrev pub is_undefined : JsValue → Bool
  is_undefined undefined = true
  is_undefined value = false

  -- The payload is `_v`, or `v` if that is undefined.
  abbrev pub payload_name : Properties → Bytes
  payload_name fields =
      if is_undefined (get_property (codes "_v") fields) then codes "v" else codes "_v"

  -- The elements of an untagged array: bytes if the first is a number, texts otherwise.
  abbrev pub element_type : JsValues → DbusType
  element_type (JsValues.cons (number n) values) = byte
  element_type values = string

  abbrev pub pack : (Wires → Wire) → Option Wires → Option Wire
  pack f none = none
  pack f (some ws) = some (f ws)

  abbrev pub push : Option Wire → Option Wires → Option Wires
  push none ws = none
  push (some w) none = none
  push (some w) (some ws) = some (Wires.cons w ws)

  -- An untagged value in a variant that is no array and no object.
  abbrev pub untagged : JsValue → Option Wire
  untagged (text s) = box string (append_basic (text s) string)
  untagged (bool b) = box boolean (append_basic (bool b) boolean)
  untagged (number n) = box int32 (append_basic (number n) int32)
  untagged value = none

  abbrev pub append_simple : JsValue → DbusType → Option Wire
  append_simple value variant = untagged value
  append_simple value (array t) = none
  append_simple value (dict k t) = none
  append_simple value (struct ts) = none
  append_simple value type = append_basic value type

  abbrev pub append_single : Option DbusType → (DbusType → Option Wire) → Option Wire
  append_single none write = none
  append_single (some type) write = box type (write type)

  -- A variant with the type that its tag names, by what writes its payload.
  abbrev pub append_tagged : Option Bytes → (DbusType → Option Wire) → Option Wire
  append_tagged none write = none
  append_tagged (some tag) write = append_single (lib.parse_single tag) write

  unfoldable mutual
    unfolding get_property

    pub append_value : JsValue → DbusType → Option Wire
    append_value (items values) (array t) = pack sequence (append_items values t)
    append_value (items values) (struct ts) = pack sequence (append_struct values ts)
    append_value (items values) variant =
        box (array (element_type values))
          (pack sequence (append_items values (element_type values)))
    append_value (items values) type = none
    append_value (object fields) (dict k t) = pack entries (append_entries fields k t)
    append_value (object fields) variant =
        append_tagged (tag_of fields) (λ type. append_property fields (payload_name fields) type)
    append_value (object fields) type = none
    append_value value type = append_simple value type

    -- The elements of an array.
    pub append_items : JsValues → DbusType → Option Wires
    append_items JsValues.nil t = some Wires.nil
    append_items (JsValues.cons value values) t =
        push (append_value value t) (append_items values t)

    -- The fields of a structure: neither too many values nor too few.
    pub append_struct : JsValues → DbusTypes → Option Wires
    append_struct JsValues.nil DbusTypes.nil = some Wires.nil
    append_struct JsValues.nil (DbusTypes.cons t ts) = none
    append_struct (JsValues.cons value values) DbusTypes.nil = none
    append_struct (JsValues.cons value values) (DbusTypes.cons t ts) =
        push (append_value value t) (append_struct values ts)

    -- The entries of a dictionary: the name of a property is its key.
    pub append_entries : Properties → DbusType → DbusType → Option Wires
    append_entries Properties.empty k t = some Wires.nil
    append_entries (property name value rest) k t =
        push (append_basic (text name) k) (push (append_value value t) (append_entries rest k t))

    -- The value of one property.
    pub append_property : Properties → Bytes → DbusType → Option Wire
    append_property Properties.empty name t = none
    append_property (property key value rest) name t =
        if bytes_eq key name then append_value value t else append_property rest name t

  -- The arguments of a call, a reply or a signal: as many as the signature has types.
  unfoldable pub append_values : Bytes → JsValues → Option Wires
  append_values types_text values = elim (lib.parse_signature types_text) [
    | none ↦ none
    | some types ↦ append_struct values types
  ]
