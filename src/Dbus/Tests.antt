-- ===== src/Dbus/Tests.antt =====
-- Runs of the model of dbus/src, and its theorems at concrete inputs.
use koya_plugins.Base.{
  ◌≡◌, refl, pos, true, false, none, some, List, [], ◌∷◌, codes, tally, Option, contains, c_string,
  find, emplace, erase,
}
use koya_plugins.Dbus.Types.{
  byte, uint32, string, variant, array, DbusTypes, integer, number, text, items, object, JsValues,
  Properties, property, natural, chars, boxed, sequence, Wires,
}
use koya_plugins.Dbus.Marshal.{
  Libdbus, append_values, append_value, append_items, append_struct, append_property, get_property,
}
use koya_plugins.Dbus.Marshal.Ranges.{HaveTypes}
use koya_plugins.Dbus.Marshal.Typing.{append_values-typed}
use koya_plugins.Dbus.Calls.{Action, receives, finishes, exports_object, replies, Names, DbusState}
use koya_plugins.Dbus.Service.{Script, steps, initial}
use koya_plugins.Dbus.Service.Accounting.{unrefs, sends}

-- A library that reads every signature as a text, an array of bytes and a variant.
abbrev three : DbusTypes
three = DbusTypes.cons string (DbusTypes.cons (array byte) (DbusTypes.cons variant DbusTypes.nil))

abbrev lib : Libdbus
lib = record {
  validate_path = λ path. true;
  validate_signature = λ text. true;
  parse_single = λ text. some uint32;
  parse_signature = λ text. some three;
}

abbrev tagged : Properties
tagged =
    property (codes "_t") (text (codes "u"))
      (property (codes "_v") (number (integer (pos 7))) Properties.empty)

abbrev values : JsValues
values = JsValues.cons (text (codes "name")) (
    JsValues.cons (items (JsValues.cons (number (integer (pos 3))) JsValues.nil))
      (JsValues.cons (object tagged) JsValues.nil))

abbrev wires : Wires
wires = Wires.cons (chars (codes "name")) (
    Wires.cons (sequence (Wires.cons (natural 3) Wires.nil))
      (Wires.cons (boxed uint32 (natural 7)) Wires.nil))

written : append_values lib (codes "sayv") values ≡ some wires
unfolding append_values append_value append_items append_struct append_property get_property
    contains c_string
written = refl

append_values-typed_example :
    (types : DbusTypes) × (lib.parse_signature (codes "sayv") ≡ some types)
    × HaveTypes lib wires types
append_values-typed_example = append_values-typed lib (codes "sayv") values wires written

abbrev names : Names
names = record {
  validate_interface = λ name. true;
  validate_member = λ name. true;
  validate_bus_name = λ name. true;
  validate_error_name = λ name. true;
}

-- A handler that answers, throws all the same, and lets another call in.
abbrev script : Script lib names
script s request id = (
  finishes id (replies (some (codes "sayv", values)))
      ∷ receives (record { message = 12; path = codes "/b"; iface = none; no_reply = false })
      ∷ [],
  some (codes "late"),
)

abbrev events : List (Option Action)
events =
    some (exports_object (codes "/a") (codes "i") 90)
    ∷ some (
        receives
          (record { message = 11; path = codes "/a"; iface = some (codes "i"); no_reply = false }))
    ∷ none
    ∷ none
    ∷ []

abbrev final : DbusState
final = steps lib names script (initial true) events

answered_and_refused :
    (tally (sends 11) final.log ≡ 1)
    × (tally (sends 12) final.log ≡ 1)
    × (tally (unrefs 12) final.log ≡ 1)
unfolding steps find emplace append_values append_struct contains c_string erase
answered_and_refused = (refl, refl, refl)
