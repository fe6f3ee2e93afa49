-- ===== src/Base/Decimal.antt =====
-- Decimal numerals, as fmt prints an int with %d.
use Prim.Native.Nat.{ℕ, zero, suc, ◌+◌, ◌/◌, ◌%◌}
use mathlib.Core.List.{[], ◌∷◌, ◌++◌}
use ech_tunnel.Base.Tests.{ltb, if◌then◌else◌}
use ech_tunnel.Base.Text.{Bytes}

decimal_digits : ℕ → ℕ → Bytes
decimal_digits zero n = []
decimal_digits (suc fuel) n =
    let high = decimal_digits fuel (n / 10) in
    if ltb n 10 then (48 + n) ∷ [] else high ++ (48 + n % 10) ∷ []

-- A number has no more digits than its value plus one.
unfoldable pub decimal : ℕ → Bytes
unfolding decimal_digits
decimal n = decimal_digits (suc n) n
