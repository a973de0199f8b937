-- ===== src/Text/Rounding.antt =====
-- Rounding to the nearest, a tie to the even one, as Python's round and its formats do.
use Prim.Native.Nat.{◌/◌, ◌%◌}
use grbl_proxy.Prelude.{ℕ, suc, ◌*◌, ltb, ◌==◌, if◌then◌else◌}

-- The quotient `q` with the remainder `r`, rounded.
abbrev rounded : ℕ → ℕ → ℕ → ℕ
rounded d q r =
    if ltb (2 * r) d then q else if 2 * r == d then (if q % 2 == 0 then q else suc q) else suc q

-- n / d, for d not 0
unfoldable pub round_div : ℕ → ℕ → ℕ
round_div n d = rounded d (n / d) (n % d)
