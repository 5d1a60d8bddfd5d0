-- ===== src/Fri/Power.antt =====
-- `ext_pow` is exponentiation.
use native.Mathlib.Nat.{pow-suc}
use stark_stir_service.Common.{
  ℕ, zero, suc, ◌*◌, ◌/◌, ◌^◌, ◌<◌, ◌≡◌, refl, sym, ap, ◌∙◌, false, inl, inr, arith, ◌==◌, ltb,
  Bool-cases,
}
use stark_stir_service.Tower.RingLaws.{IsTowerField, mul-one}
use stark_stir_service.Tower.Power.{power, round}
use stark_stir_service.Fri.{Platform, ext_pow_loop, ext_pow}

module _ {F E : Type 0} (p : Platform F E) (l : IsTowerField p.tower) where
  -- At an exponent of at most 1 the loop ends.
  last_factor :
      (base result : E) (exp : ℕ)
      → 0 < exp
      → exp < 2
      → p.tower.ring.mul result base ≡ p.tower.ring.mul result (power p.tower.ring base exp)
  unfolding power
  last_factor base result zero pos h = absurd (omega arith)
  last_factor base result (suc zero) pos h =
      ap (p.tower.ring.mul result) (sym (mul-one ⦃r = p.tower.ring⦄ l.comm_ring base))
  last_factor base result (suc (suc exp)) pos h = absurd (omega arith)

  ext_pow_loop-power :
      (fuel : ℕ) (base result : E) (exp : ℕ)
      → 0 < exp
      → exp < 2 * 2 ^ fuel
      → ext_pow_loop p fuel base result exp ≡ p.tower.ring.mul result (power p.tower.ring base exp)
  unfolding ext_pow_loop
  ext_pow_loop-power zero base result exp pos h = last_factor base result exp pos (omega arith)
  ext_pow_loop-power (suc fuel) base result exp pos h = elim (Bool-cases (ltb 1 exp)) [
    | inl more ↦ rw more (
        ext_pow_loop-power fuel (p.tower.sq base) _ (exp / 2) (ground arith)
          (omega (arith, pow-suc 2 fuel))
        ∙ round p.tower l base result exp)
    | inr done ↦ rw done (last_factor base result exp pos (ground arith))
  ]

  -- For every exponent of 64 bits the loop of `ext_pow` ends, and its result is the power.
  pub ext_pow-power :
      (base : E) (exp : ℕ) → exp < 2 ^ 64 → ext_pow p base exp ≡ power p.tower.ring base exp
  unfolding ext_pow power
  ext_pow-power base zero h = refl
  ext_pow-power base (suc exp) h =
      let test : (suc exp == 0) ≡ false = ground arith in
      rw test (
        ext_pow_loop-power 64 base p.tower.ring.one (suc exp) (omega arith) (omega arith)
        ∙ l.comm_ring.one-mul (power p.tower.ring base (suc exp)))
