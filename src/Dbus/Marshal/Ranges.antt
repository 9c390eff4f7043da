-- ===== src/Dbus/Marshal/Ranges.antt =====
-- The types that written values of dbus/src/marshal.hpp have, and the ranges of its integers.
use koya_plugins.Base.{
  ℕ, ◌<◌, ◌≤◌, ◌≡◌, refl, ℤ, pos, negsuc, Bool, true, false, Option, none, some, arith, contains,
  leb, ltb, if◌then◌else◌, Bool-cases, inl, inr,
}
use koya_plugins.Dbus.Types.{
  DbusType, byte, boolean, int16, uint16, int32, uint32, int64, uint64, double, string, object_path,
  signature, variant, array, dict, struct, DbusTypes, integer, fraction, Wire, natural, signed,
  truth, float, chars, boxed, sequence, entries, Wires,
}
use koya_plugins.Dbus.Marshal.{Libdbus, low_bits, from_bits, unsigned_wire, signed_wire}

-- From -max - 1 to max.
abbrev pub Within : ℕ → ℤ → Type 0
Within max (pos n) = n ≤ max
Within max (negsuc n) = n ≤ max

-- What a wire of a type is: numbers in the range of the type, texts without a NUL byte that are what
-- the type says, finite doubles, elements of the type of the array, keys and values of those of the
-- dictionary, and as many fields as the structure has types, each of its own.
module _ (lib : Libdbus) where
  unfoldable mutual
    pub HasType : Wire → DbusType → Type 0
    HasType (natural n) byte = n ≤ 255
    HasType (natural n) uint16 = n ≤ 65535
    HasType (natural n) uint32 = n ≤ 4294967295
    HasType (natural n) uint64 = n ≤ 18446744073709551615
    HasType (signed z) int16 = Within 32767 z
    HasType (signed z) int32 = Within 2147483647 z
    HasType (signed z) int64 = Within 9223372036854775807 z
    HasType (truth b) boolean = Unit {0}
    HasType (float (integer z)) double = Unit {0}
    HasType (float (fraction n)) double = Unit {0}
    HasType (chars s) string = contains 0 s ≡ false
    HasType (chars s) object_path = (contains 0 s ≡ false) × (lib.validate_path s ≡ true)
    HasType (chars s) signature = (contains 0 s ≡ false) × (lib.validate_signature s ≡ true)
    HasType (boxed t w) variant = HasType w t
    HasType (sequence ws) (array t) = HaveType ws t
    HasType (sequence ws) (struct ts) = HaveTypes ws ts
    HasType (entries ws) (dict k t) = HaveEntries ws k t
    HasType w t = ⊥

    pub HaveType : Wires → DbusType → Type 0
    HaveType Wires.nil t = Unit {0}
    HaveType (Wires.cons w ws) t = HasType w t × HaveType ws t

    pub HaveTypes : Wires → DbusTypes → Type 0
    HaveTypes Wires.nil DbusTypes.nil = Unit {0}
    HaveTypes (Wires.cons w ws) (DbusTypes.cons t ts) = HasType w t × HaveTypes ws ts
    HaveTypes ws ts = ⊥

    pub HaveEntries : Wires → DbusType → DbusType → Type 0
    HaveEntries Wires.nil k t = Unit {0}
    HaveEntries (Wires.cons w Wires.nil) k t = ⊥
    HaveEntries (Wires.cons w (Wires.cons u ws)) k t =
        HasType w k × HasType u t × HaveEntries ws k t

-- What holds of a result, if there is one.
abbrev pub Holds {ℓ} : {A : Type ℓ} → (A → Type 0) → Option A → Type 0
Holds P none = Unit {0}
Holds P (some a) = P a

pub test-Holds {ℓ} :
    {A : Type ℓ} (P : A → Type 0) (b : Bool) (a : A)
    → (b ≡ true → P a)
    → Holds P (if b then some a else none)
test-Holds P true a h = h refl
test-Holds P false a h = tt

pub unsigned-Holds :
    (P : Wire → Type 0) (max : ℕ) (z : ℤ)
    → ((n : ℕ) → n ≤ max → P (natural n))
    → Holds P (unsigned_wire max z)
unsigned-Holds P max (pos n) h = test-Holds P (leb n max) (natural n) (λ e. h n (ground (arith, e)))
unsigned-Holds P max (negsuc n) h = tt

pub signed-Holds :
    (P : Wire → Type 0) (max : ℕ) (z : ℤ)
    → (Within max z → P (signed z))
    → Holds P (signed_wire max z)
signed-Holds P max (pos n) h =
    test-Holds P (leb n max) (signed (pos n)) (λ e. h (ground (arith, e)))
signed-Holds P max (negsuc n) h =
    test-Holds P (leb n max) (signed (negsuc n)) (λ e. h (ground (arith, e)))

pub low_bits-lt : (z : ℤ) → low_bits z < 18446744073709551616
low_bits-lt (pos n) = omega arith
low_bits-lt (negsuc n) = omega arith

pub from_bits-Within : (u : ℕ) → u < 18446744073709551616 → Within 9223372036854775807 (from_bits u)
from_bits-Within u h = elim (Bool-cases (ltb u 9223372036854775808)) [
  | inl e ↦ rw e (ground (arith, e))
  | inr e ↦ rw e (ground (arith, e, h))
]
