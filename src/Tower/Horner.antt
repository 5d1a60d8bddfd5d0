-- ===== src/Tower/Horner.antt =====
-- `eval_base_poly` is the value of the polynomial.
use mathlib.Core.List.{reverse, reverse-cons}
use stark_stir_service.Common.{◌≡◌, refl, sym, ap, ◌∙◌, List, [], ◌∷◌, ◌++◌}
use stark_stir_service.Tower.{TowerField, horner, horner_top, eval_base_poly}
use stark_stir_service.Tower.RingLaws.{IsTowerField, add-zero, mul-zero}

-- c0 + z (c1 + z (c2 + …)), the coefficients lowest first.
pub value : {F A : Type 0} → TowerField F A → List F → A → A
value t [] z = t.ring.zero
value t (c ∷ cs) z = t.ring.add (t.from_fp c) (t.ring.mul z (value t cs z))

module _ {F A : Type 0} (t : TowerField F A) (l : IsTowerField t) where
  horner-snoc :
      (z acc : A) (cs : List F) (c : F)
      → horner t z acc (cs ++ c ∷ []) ≡ t.ring.add (t.ring.mul (horner t z acc cs) z) (t.from_fp c)
  unfolding horner
  horner-snoc z acc [] c = refl
  horner-snoc z acc (d ∷ cs) c = horner-snoc z (t.ring.add (t.ring.mul acc z) (t.from_fp d)) cs c

  -- The coefficient of the constant term is read last.
  horner_top-snoc :
      (z : A) (cs : List F) (c : F)
      → horner_top t z (cs ++ c ∷ []) ≡ t.ring.add (t.from_fp c) (t.ring.mul z (horner_top t z cs))
  unfolding horner_top horner
  horner_top-snoc z [] c =
      sym (add-zero ⦃r = t.ring⦄ l.comm_ring (t.from_fp c))
      ∙ ap (t.ring.add (t.from_fp c)) (sym (mul-zero ⦃r = t.ring⦄ l.comm_ring z))
  horner_top-snoc z (d ∷ cs) c =
      horner-snoc z (t.from_fp d) cs c
      ∙ l.comm_ring.add_comm _ _
      ∙ ap (t.ring.add (t.from_fp c)) (l.comm_ring.mul_comm _ _)

  -- For every list of coefficients, lowest first, and every point `eval_base_poly` returns the value
  -- of the polynomial there; the empty list has the value zero.
  pub eval_base_poly-value :
      (coeffs : List F) (z : A) → eval_base_poly t coeffs z ≡ value t coeffs z
  unfolding eval_base_poly value horner_top
  eval_base_poly-value [] z = refl
  eval_base_poly-value (c ∷ cs) z =
      ap (horner_top t z) (reverse-cons c cs)
      ∙ horner_top-snoc z (reverse cs) c
      ∙ ap (λ x. t.ring.add (t.from_fp c) (t.ring.mul z x)) (eval_base_poly-value cs z)
