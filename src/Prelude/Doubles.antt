-- ===== src/Prelude/Doubles.antt =====
-- The numbers of JavaScript that are whole and not negative.
use Prim.Native.Nat.{ℕ, zero, suc, ◌+◌, ◌*◌, ◌/◌, ◌%◌, ◌^◌}
use mathlib.Core.Bool.{true, false, ◌||◌, ◌&&◌}
use mathlib.Core.Option.{Option, none, some}
use shield_wall.Prelude.Tests.{if◌then◌else◌, ltb, ◌==◌}

-- How many binary digits are too many for the 53 of a double, up to a limit.
excess : ℕ → ℕ → ℕ
excess zero n = 0
excess (suc limit) n = elim (ltb n (2 ^ 53)) [ true ↦ 0 | false ↦ suc (excess limit (n / 2)) ]

-- The nearest multiple of a unit, and the even one of two that are as near.
nearest : ℕ → ℕ → ℕ
nearest unit n =
    let q = n / unit in
    let r = n % unit in
    if ltb unit (2 * r) || (2 * r == unit && q % 2 == 1) then (q + 1) * unit else q * unit

within_range : ℕ → Option ℕ
within_range n = if ltb n (2 ^ 1024) then some n else none

-- The double that stands for a number, `none` for `Infinity`.
unfoldable pub double : ℕ → Option ℕ
unfolding excess nearest within_range
double n = within_range (nearest (2 ^ excess 1024 n) n)
