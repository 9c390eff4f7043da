-- ===== src/Base/Decimal.antt =====
-- std::to_string and `%d` for numbers that are not negative.
use Prim.Native.Nat.{ℕ, zero, suc, ◌+◌, ◌/◌, ◌%◌}
use mathlib.Core.List.{[], ◌∷◌}
use koya_plugins.Base.Tests.{◌==◌, if◌then◌else◌}
use koya_plugins.Base.Strings.{Bytes}

-- std::to_string of a number of 64 bits, which has twenty digits at most.
pub digits_from : ℕ → ℕ → Bytes → Bytes
digits_from zero n text = text
digits_from (suc fuel) n text =
    let rest = digits_from fuel (n / 10) ((48 + n % 10) ∷ text) in
    if n / 10 == 0 then (48 + n % 10) ∷ text else rest

unfoldable pub to_string : ℕ → Bytes
unfolding digits_from
to_string n = digits_from 20 n []
