-- ===== src/Common/Powers.antt =====
-- Powers of the native numbers.
use Prim.Native.Nat.{ℕ, zero, suc, ◌+◌, ◌*◌, ◌^◌}
use mathlib.Core.Path.{◌≡◌, ap, ◌∙◌}
use native.Mathlib.Nat.{pow-zero, pow-suc}
use native.Mathlib.Omega.{arith}

pub pow-add : (b m n : ℕ) → b ^ (m + n) ≡ b ^ m * b ^ n
pow-add b zero n =
    let e : 0 + n ≡ n = omega arith in
    rw e
      (let one : b ^ 0 * b ^ n ≡ 1 * b ^ n = ap (λ w. w * b ^ n) (pow-zero b) in omega (arith, one))
pow-add b (suc m) n =
    let e : suc m + n ≡ suc (m + n) = omega arith in
    let step : b ^ suc m * b ^ n ≡ b ^ m * b * b ^ n = ap (λ w. w * b ^ n) (pow-suc b m) in
    let rest : b ^ (m + n) * b ≡ b ^ m * b ^ n * b = ap (λ w. w * b) (pow-add b m n) in
    ap (λ k. b ^ k) e ∙ pow-suc b (m + n) ∙ omega (arith, step, rest)

pub pow-one : (b : ℕ) → b ^ 1 ≡ b
pow-one b =
    let one : b ^ 0 * b ≡ 1 * b = ap (λ w. w * b) (pow-zero b) in omega (arith, pow-suc b 0, one)
