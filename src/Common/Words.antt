-- ===== src/Common/Words.antt =====
-- Bit operations of `usize`, a number below 2^64.
use Prim.Native.Nat.{ℕ, zero, suc, ◌/◌, ◌%◌, ◌^◌, ◌<◌}
use mathlib.Core.Path.{◌≡◌, refl, ap}
use mathlib.Core.Bool.{Bool, true, false, ◌&&◌, not}
use native.Mathlib.Nat.{pow-suc, one-le-pow}
use native.Mathlib.Omega.{arith}
use stark_stir_service.Common.Tests.{◌==◌, if◌then◌else◌}

zeros_below : ℕ → ℕ → ℕ
zeros_below zero v = 0
zeros_below (suc fuel) v = let rest = zeros_below fuel (v / 2) in if v % 2 == 1 then 0 else suc rest

-- 64 at 0.
unfoldable pub trailing_zeros : ℕ → ℕ
unfolding zeros_below
trailing_zeros v = zeros_below 64 v

unfoldable pub is_power_of_two : ℕ → Bool
unfolding trailing_zeros
is_power_of_two v = not (v == 0) && (v == 2 ^ trailing_zeros v)

zeros_below-pow : (fuel k : ℕ) → k < fuel → zeros_below fuel (2 ^ k) ≡ k
unfolding zeros_below
zeros_below-pow zero k h = absurd (omega arith)
zeros_below-pow (suc fuel) zero h = refl
zeros_below-pow (suc fuel) (suc k) h =
    let even : (2 ^ suc k % 2 == 1) ≡ false = ground (arith, pow-suc 2 k) in
    let half : 2 ^ suc k / 2 ≡ 2 ^ k = omega (arith, pow-suc 2 k) in
    rw (even, half) (ap suc (zeros_below-pow fuel k (omega arith)))

pub is_power_of_two-pow : (k : ℕ) → k < 64 → is_power_of_two (2 ^ k) ≡ true
unfolding is_power_of_two trailing_zeros
is_power_of_two-pow k h =
    let same : (2 ^ k == 2 ^ k) ≡ true = ground arith in
    let pos : not (2 ^ k == 0) ≡ true = ground (arith, one-le-pow k 2 (omega arith)) in
    rw (zeros_below-pow 64 k h, same, pos)
