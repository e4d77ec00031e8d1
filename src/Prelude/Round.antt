-- ===== src/Prelude/Round.antt =====
-- Python's `round` on a quotient of naturals: to the nearest, a tie to the even neighbour.
use wms_secret_backend.Prelude.Tests.{ltb, ◌==◌, if◌then◌else◌}
use Prim.Native.Nat.{ℕ, ◌+◌, ◌*◌, ◌/◌, ◌%◌}

unfoldable pub round_half_even : ℕ → ℕ → ℕ
round_half_even n d =
    let q = n / d in
    let r = n % d in
    if ltb (2 * r) d then q else if ltb d (2 * r) then q + 1 else if (q % 2) == 0 then q else q + 1
