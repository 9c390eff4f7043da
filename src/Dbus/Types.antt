-- ===== src/Dbus/Types.antt =====
-- The types and values of D-Bus messages and of a script, as dbus/src handles them.
use koya_plugins.Base.{ℕ, ℤ, Bool, Bytes}

-- A single complete type of a signature that libdbus has validated, as its iterator walks it. An array
-- of dictionary entries is a type of its own, since such entries stand nowhere else.
mutual
  pub data DbusType : Type 0 where
    byte boolean int16 uint16 int32 uint32 int64 uint64 double : DbusType
    string object_path signature unix_fd variant : DbusType
    array : DbusType → DbusType
    dict : (key value : DbusType) → DbusType
    struct : DbusTypes → DbusType

  pub data DbusTypes : Type 0 where
    nil : DbusTypes
    cons : DbusType → DbusTypes → DbusTypes

-- A number of a script: an integer, another finite number, or none of these.
pub data Number : Type 0 where
  integer : ℤ → Number
  fraction : ℕ → Number
  not_finite : Number

-- A value of a script: `other` is one of which no test that the code makes holds.
mutual
  pub data JsValue : Type 0 where
    undefined other : JsValue
    bool : Bool → JsValue
    number : Number → JsValue
    bigint : ℤ → JsValue
    text : Bytes → JsValue
    items : JsValues → JsValue
    object : Properties → JsValue

  pub data JsValues : Type 0 where
    nil : JsValues
    cons : JsValue → JsValues → JsValues

  pub data Properties : Type 0 where
    empty : Properties
    property : (name : Bytes) → JsValue → Properties → Properties

-- What is written into a message.
mutual
  pub data Wire : Type 0 where
    natural : ℕ → Wire
    signed : ℤ → Wire
    truth : Bool → Wire
    float : Number → Wire
    chars : Bytes → Wire
    boxed : DbusType → Wire → Wire
    sequence : Wires → Wire
    entries : Wires → Wire

  -- The elements of an array, the fields of a structure, or the keys and values of entries in turn.
  pub data Wires : Type 0 where
    nil : Wires
    cons : Wire → Wires → Wires
