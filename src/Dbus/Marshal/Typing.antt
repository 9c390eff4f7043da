-- ===== src/Dbus/Marshal/Typing.antt =====
-- The types of what dbus/src/marshal.hpp writes.
use koya_plugins.Base.{
  ◌≡◌, subst, ℤ, pos, negsuc, Bool, Option, none, some, arith, Bytes, contains, bytes_eq, if_keeps,
  Bool-cases, Option-cases, inl, inr,
}
use koya_plugins.Dbus.Types.{
  DbusType, byte, boolean, int16, uint16, int32, uint32, int64, uint64, double, string, object_path,
  signature, unix_fd, variant, array, dict, struct, DbusTypes, Number, integer, fraction, JsValue,
  bool, number, bigint, text, items, object, JsValues, Properties, property, Wire, chars, sequence,
  entries, Wires,
}
use koya_plugins.Dbus.Marshal.{
  Libdbus, low_bits, is_safe, number_wire, bigint_wire, bool_wire, js_to_string, text_wire,
  append_basic, box, tag_of, payload_name, element_type, pack, push, untagged, append_simple,
  append_single, append_tagged, append_value, append_items, append_struct, append_entries,
  append_property, append_values,
}
use koya_plugins.Dbus.Marshal.Ranges.{
  Holds, test-Holds, unsigned-Holds, signed-Holds, low_bits-lt, from_bits-Within, HasType,
  HaveTypes, HaveEntries, HaveType,
}

module _ (lib : Libdbus) where
  Typed : DbusType → Option Wire → Type 0
  Typed t = Holds (λ w. HasType lib w t)

  number-Typed : (n : Number) (t : DbusType) → Typed t (number_wire n t)
  unfolding HasType Typed
  number-Typed (integer z) byte = unsigned-Holds _ 255 z (λ n h. h)
  number-Typed (integer z) int16 = signed-Holds _ 32767 z (λ h. h)
  number-Typed (integer z) uint16 = unsigned-Holds _ 65535 z (λ n h. h)
  number-Typed (integer z) int32 = signed-Holds _ 2147483647 z (λ h. h)
  number-Typed (integer z) uint32 = unsigned-Holds _ 4294967295 z (λ n h. h)
  number-Typed (integer (pos n)) int64 = test-Holds _ (is_safe (pos n)) _ (λ e. ground (arith, e))
  number-Typed (integer (negsuc n)) int64 =
      test-Holds _ (is_safe (negsuc n)) _ (λ e. ground (arith, e))
  number-Typed (integer z) uint64 =
      if_keeps (Typed uint64) (is_safe z) (unsigned-Holds _ 9007199254740991 z (λ n h. omega arith))
        tt
  number-Typed (integer z) double = tt
  number-Typed (fraction n) double = tt
  number-Typed n t = tt

  bigint-Typed : (z : ℤ) (t : DbusType) → Typed t (bigint_wire z t)
  unfolding HasType Typed
  bigint-Typed z int64 = from_bits-Within (low_bits z) (low_bits-lt z)
  bigint-Typed z uint64 = omega (arith, low_bits-lt z)
  bigint-Typed z t = tt

  bool-Typed : (b : Bool) (t : DbusType) → Typed t (bool_wire b t)
  unfolding HasType Typed
  bool-Typed b boolean = tt
  bool-Typed b t = tt

  text-Typed : (s : Bytes) (t : DbusType) → Typed t (text_wire lib s t)
  unfolding HasType Typed
  text-Typed s string = elim (Bool-cases (contains 0 s)) [ inl e ↦ rw e tt | inr e ↦ rw e e ]
  text-Typed s object_path = elim (Bool-cases (contains 0 s)) [
    | inl e ↦ rw e tt
    | inr e ↦ rw e (test-Holds _ (lib.validate_path s) (chars s) (λ v. (e, v)))
  ]
  text-Typed s signature = elim (Bool-cases (contains 0 s)) [
    | inl e ↦ rw e tt
    | inr e ↦ rw e (test-Holds _ (lib.validate_signature s) (chars s) (λ v. (e, v)))
  ]
  text-Typed s t = tt

  basic-Typed : (v : JsValue) (t : DbusType) → Typed t (append_basic lib v t)
  unfolding Typed
  basic-Typed (bool b) t = bool-Typed b t
  basic-Typed (number n) t = number-Typed n t
  basic-Typed (bigint z) t = bigint-Typed z t
  basic-Typed (text s) t = text-Typed (js_to_string s) t
  basic-Typed v t = tt

  box-Typed : (t : DbusType) (o : Option Wire) → Typed t o → Typed variant (box lib t o)
  unfolding HasType Typed
  box-Typed t none h = tt
  box-Typed t (some w) h = h

  pack-Typed :
      (t : DbusType) (f : Wires → Wire) (P : Wires → Type 0) (o : Option Wires)
      → ((ws : Wires) → P ws → HasType lib (f ws) t)
      → Holds P o
      → Typed t (pack lib f o)
  unfolding Typed
  pack-Typed t f P none g h = tt
  pack-Typed t f P (some ws) g h = g ws h

  push-Holds :
      (P : Wire → Type 0) (Q R : Wires → Type 0) (o : Option Wire) (os : Option Wires)
      → ((w : Wire) (ws : Wires) → P w → Q ws → R (Wires.cons w ws))
      → Holds P o
      → Holds Q os
      → Holds R (push lib o os)
  push-Holds P Q R none os g h k = tt
  push-Holds P Q R (some w) none g h k = tt
  push-Holds P Q R (some w) (some ws) g h k = g w ws h k

  untagged-Typed : (v : JsValue) → Typed variant (untagged lib v)
  unfolding Typed
  untagged-Typed (text s) =
      box-Typed string (append_basic lib (text s) string) (basic-Typed (text s) string)
  untagged-Typed (bool b) =
      box-Typed boolean (append_basic lib (bool b) boolean) (basic-Typed (bool b) boolean)
  untagged-Typed (number n) =
      box-Typed int32 (append_basic lib (number n) int32) (basic-Typed (number n) int32)
  untagged-Typed v = tt

  simple-Typed : (v : JsValue) (t : DbusType) → Typed t (append_simple lib v t)
  unfolding Typed
  simple-Typed v variant = untagged-Typed v
  simple-Typed v (array t) = tt
  simple-Typed v (dict k t) = tt
  simple-Typed v (struct ts) = tt
  simple-Typed v byte = basic-Typed v byte
  simple-Typed v boolean = basic-Typed v boolean
  simple-Typed v int16 = basic-Typed v int16
  simple-Typed v uint16 = basic-Typed v uint16
  simple-Typed v int32 = basic-Typed v int32
  simple-Typed v uint32 = basic-Typed v uint32
  simple-Typed v int64 = basic-Typed v int64
  simple-Typed v uint64 = basic-Typed v uint64
  simple-Typed v double = basic-Typed v double
  simple-Typed v string = basic-Typed v string
  simple-Typed v object_path = basic-Typed v object_path
  simple-Typed v signature = basic-Typed v signature
  simple-Typed v unix_fd = basic-Typed v unix_fd

  -- A value and the entries behind it.
  HaveTail : Wires → DbusType → DbusType → Type 0
  HaveTail Wires.nil k t = ⊥
  HaveTail (Wires.cons w ws) k t = HasType lib w t × HaveEntries lib ws k t

  HaveTail-entries :
      (w : Wire) (ws : Wires) (k t : DbusType)
      → HasType lib w k
      → HaveTail ws k t
      → HaveEntries lib (Wires.cons w ws) k t
  unfolding HaveTail HasType
  HaveTail-entries w Wires.nil k t h r = absurd r
  HaveTail-entries w (Wires.cons u ws) k t h r = (h, r.0, r.1)

  single-Typed :
      (o : Option DbusType) (write : DbusType → Option Wire)
      → ((t : DbusType) → Typed t (write t))
      → Typed variant (append_single lib o write)
  unfolding Typed
  single-Typed none write h = tt
  single-Typed (some t) write h = box-Typed t (write t) (h t)

  tagged-Typed :
      (tag : Option Bytes) (write : DbusType → Option Wire)
      → ((t : DbusType) → Typed t (write t))
      → Typed variant (append_tagged lib tag write)
  unfolding Typed
  tagged-Typed none write h = tt
  tagged-Typed (some tag) write h = single-Typed (lib.parse_single tag) write h

  mutual
    unfolding append_value HasType Typed HaveTail

    value-Typed : (v : JsValue) (t : DbusType) → Typed t (append_value lib v t)
    value-Typed (items values) (array t) =
        pack-Typed (array t) sequence (λ ws. HaveType lib ws t) (append_items lib values t)
          (λ ws h. h) (items-Typed values t)
    value-Typed (items values) (struct ts) =
        pack-Typed (struct ts) sequence (λ ws. HaveTypes lib ws ts) (append_struct lib values ts)
          (λ ws h. h) (struct-Typed values ts)
    value-Typed (items values) variant =
        let t = element_type lib values in
        box-Typed (array t) (pack lib sequence (append_items lib values t)) (
          pack-Typed (array t) sequence (λ ws. HaveType lib ws t) (append_items lib values t)
            (λ ws h. h) (items-Typed values t))
    value-Typed (items values) t = tt
    value-Typed (object fields) (dict k t) =
        pack-Typed (dict k t) entries (λ ws. HaveEntries lib ws k t) (append_entries lib fields k t)
          (λ ws h. h) (entries-Typed fields k t)
    value-Typed (object fields) variant =
        tagged-Typed (tag_of lib fields)
          (λ type. append_property lib fields (payload_name lib fields) type)
          (λ type. property-Typed fields (payload_name lib fields) type)
    value-Typed (object fields) t = tt
    value-Typed v t = simple-Typed v t

    items-Typed :
        (vs : JsValues) (t : DbusType) → Holds (λ ws. HaveType lib ws t) (append_items lib vs t)
    items-Typed JsValues.nil t = tt
    items-Typed (JsValues.cons v vs) t =
        push-Holds _ _ _ (append_value lib v t) (append_items lib vs t) (λ w ws h k. (h, k))
          (value-Typed v t) (items-Typed vs t)

    struct-Typed :
        (vs : JsValues) (ts : DbusTypes)
        → Holds (λ ws. HaveTypes lib ws ts) (append_struct lib vs ts)
    struct-Typed JsValues.nil DbusTypes.nil = tt
    struct-Typed JsValues.nil (DbusTypes.cons t ts) = tt
    struct-Typed (JsValues.cons v vs) DbusTypes.nil = tt
    struct-Typed (JsValues.cons v vs) (DbusTypes.cons t ts) =
        push-Holds _ _ _ (append_value lib v t) (append_struct lib vs ts) (λ w ws h k. (h, k))
          (value-Typed v t) (struct-Typed vs ts)

    entries-Typed :
        (fields : Properties) (k t : DbusType)
        → Holds (λ ws. HaveEntries lib ws k t) (append_entries lib fields k t)
    entries-Typed Properties.empty k t = tt
    entries-Typed (property name v rest) k t =
        push-Holds (λ w. HasType lib w k) (λ ws. HaveTail ws k t) (λ ws. HaveEntries lib ws k t)
          (append_basic lib (text name) k)
          (push lib (append_value lib v t) (append_entries lib rest k t))
          (λ w ws h r. HaveTail-entries w ws k t h r) (basic-Typed (text name) k)
          (push-Holds (λ w. HasType lib w t) (λ ws. HaveEntries lib ws k t) (λ ws. HaveTail ws k t)
            (append_value lib v t) (append_entries lib rest k t) (λ w ws h r. (h, r))
            (value-Typed v t) (entries-Typed rest k t))

    property-Typed :
        (fields : Properties) (name : Bytes) (t : DbusType)
        → Typed t (append_property lib fields name t)
    property-Typed Properties.empty name t = tt
    property-Typed (property key v rest) name t =
        if_keeps (Typed t) (bytes_eq key name) (value-Typed v t) (property-Typed rest name t)

-- Whatever values a script passes for whatever signature, if they are written into a message, then as
-- many are written as the signature has types, and each has its type, at every depth: integers that
-- are in the range of their type, finite doubles, texts without a NUL byte that are valid paths and
-- signatures where they must be, arrays of the one element type, dictionaries of the key and value
-- types, structures field by field, and variants of the type that they are tagged with.
pub append_values-typed :
    (lib : Libdbus) (types_text : Bytes) (values : JsValues) (ws : Wires)
    → append_values lib types_text values ≡ some ws
    → (types : DbusTypes) × (lib.parse_signature types_text ≡ some types) × HaveTypes lib ws types
unfolding append_values
append_values-typed lib types_text values ws h =
    elim (Option-cases (lib.parse_signature types_text)) [
      | inl e ↦ absurd (cc (rw (e, append_values) at h))
      | inr (types, e) ↦ (
        types,
        e,
        subst (Holds (λ us. HaveTypes lib us types)) (rw (e, append_values) at h)
            (struct-Typed lib values types),
      )
    ]
