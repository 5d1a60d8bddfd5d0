-- ===== src/Tower/Power.antt =====
-- `pow_u64` is exponentiation.
use native.Mathlib.Nat.{pow-suc}
use stark_stir_service.Common.{
  ℕ, zero, suc, ◌+◌, ◌/◌, ◌%◌, ◌^◌, ◌<◌, ◌≡◌, refl, sym, ap, ◌∙◌, inl, inr, arith, ◌==◌, ==_iff,
  ltb, Bool-cases, if◌then◌else◌,
}
use stark_stir_service.Tower.{Ring, TowerField, pow_loop, pow_u64}
use stark_stir_service.Tower.RingLaws.{IsCommRing, IsTowerField, mul-one}

-- The product of `n` copies of an element.
unfoldable pub power : {A : Type 0} → Ring A → A → ℕ → A
power r x zero = r.one
power r x (suc n) = r.mul x (power r x n)

module _ {A : Type 0} (r : Ring A) (l : IsCommRing r) where
  power-add : (x : A) (m n : ℕ) → power r x (m + n) ≡ r.mul (power r x m) (power r x n)
  unfolding power
  power-add x zero n = let e : 0 + n ≡ n = omega arith in rw e (sym (l.one-mul (power r x n)))
  power-add x (suc m) n =
      let e : suc m + n ≡ suc (m + n) = omega arith in
      ap (power r x) e
      ∙ ap (r.mul x) (power-add x m n)
      ∙ sym (l.mul_assoc x (power r x m) (power r x n))

  power-square : (x : A) (n : ℕ) → power r (r.mul x x) n ≡ power r x (n + n)
  unfolding power
  power-square x zero = refl
  power-square x (suc n) =
      let e : suc (suc (n + n)) ≡ suc n + suc n = omega arith in
      ap (r.mul (r.mul x x)) (power-square x n)
      ∙ l.mul_assoc x x (power r x (n + n))
      ∙ ap (power r x) e

module _ {F A : Type 0} (t : TowerField F A) (l : IsTowerField t) where
  -- One round: the halved exponent over the squared base, times the odd bit.
  pub round :
      (base result : A) (exp : ℕ)
      → t.ring.mul
          (if exp % 2 == 1 then t.ring.mul result base else result)
          (power t.ring (t.sq base) (exp / 2))
        ≡ t.ring.mul result (power t.ring base exp)
  unfolding power
  round base result exp =
      let q = exp / 2 in
      let halved : power t.ring (t.sq base) q ≡ power t.ring base (q + q) =
        rw (l.sq-mul base) (power-square t.ring l.comm_ring base q) in
      elim (Bool-cases (exp % 2 == 1)) [
        | inl odd ↦
            let e : suc (q + q) ≡ exp = omega (arith, (==_iff (exp % 2) 1).0 odd) in
            rw (odd, halved)
              (l.comm_ring.mul_assoc result base (power t.ring base (q + q))
                ∙ ap (λ n. t.ring.mul result (power t.ring base n)) e)
        | inr even ↦
            let e : q + q ≡ exp = ground arith in
            rw (even, halved) (ap (λ n. t.ring.mul result (power t.ring base n)) e)
      ]

  pow_loop-power :
      (fuel : ℕ) (base result : A) (exp : ℕ)
      → exp < 2 ^ fuel
      → pow_loop t fuel base result exp ≡ t.ring.mul result (power t.ring base exp)
  unfolding pow_loop power
  pow_loop-power zero base result exp h =
      let e : 0 ≡ exp = omega arith in
      sym (mul-one ⦃r = t.ring⦄ l.comm_ring result)
      ∙ ap (λ n. t.ring.mul result (power t.ring base n)) e
  pow_loop-power (suc fuel) base result exp h = elim (Bool-cases (ltb 0 exp)) [
    | inl more ↦ rw more (
        pow_loop-power fuel (t.sq base) _ (exp / 2) (omega (arith, pow-suc 2 fuel))
        ∙ round base result exp)
    | inr done ↦
        let e : 0 ≡ exp = ground arith in
        rw done (
          sym (mul-one ⦃r = t.ring⦄ l.comm_ring result)
          ∙ ap (λ n. t.ring.mul result (power t.ring base n)) e)
  ]

  -- For every exponent of 64 bits the loop ends, and its result is the power.
  pub pow_u64-power : (x : A) (exp : ℕ) → exp < 2 ^ 64 → pow_u64 t x exp ≡ power t.ring x exp
  unfolding pow_u64 power
  pow_u64-power x exp h = elim (Bool-cases (exp == 0)) [
    | inl z ↦ let e : 0 ≡ exp = ground arith in rw z (ap (power t.ring x) e)
    | inr nz ↦
        rw nz (pow_loop-power 64 x t.ring.one exp h ∙ l.comm_ring.one-mul (power t.ring x exp))
  ]
