-- ===== src/Fri/Interpolate/Values.antt =====
-- Folding the coefficients of a coset evaluates its polynomial at the challenge.
use stark_stir_service.Common.{
  ℕ, zero, suc, ◌+◌, ◌*◌, ◌≤◌, ◌<◌, ◌≡◌, refl, sym, ap, ◌∙◌, some, List, [], ◌∷◌, ◌++◌, map, length,
  get_elem?, get_elem?-behind, length-append, append_assoc, map_all, arith,
}
use stark_stir_service.Tower.{Ring, ◌⊕◌, ◌⊗◌}
use stark_stir_service.Tower.RingLaws.{IsCommRing, IsTowerField, add-zero, mul-zero, semiring}
use stark_stir_service.Tower.Power.{power}
use stark_stir_service.Fri.{Platform, pows_from, build_ext_pows}
use stark_stir_service.Fri.Layers.{strided_sum, eval_final_poly_ext}
use stark_stir_service.Fri.Interpolate.{dot_first, interpolation_fold_ext}

get_elem?-pows_from :
    {A : Type 0} (r : Ring A) (l : IsCommRing r) (acc x : A) (n j : ℕ)
    → j < n
    → get_elem? (pows_from r acc x n) j ≡ some (r.mul acc (power r x j))
unfolding pows_from power
get_elem?-pows_from r l acc x zero j h = absurd (omega arith)
get_elem?-pows_from r l acc x (suc n) zero h = ap some (sym (l.mul_comm acc r.one ∙ l.one-mul acc))
get_elem?-pows_from r l acc x (suc n) (suc j) h =
    get_elem?-pows_from r l (r.mul acc x) x n j (omega arith)
    ∙ ap some (l.mul_assoc acc x (power r x j))

-- One more term of the value.
step :
    {A : Type 0} ⦃r : Ring A⦄ (l : IsCommRing r) (acc c w x v : A)
    → (acc ⊕ c ⊗ w) ⊕ (x ⊗ w) ⊗ v ≡ acc ⊕ w ⊗ (v ⊗ x ⊕ c)
step l acc c w x v = simp (semiring, l) (refl)

module _ {F E : Type 0} (p : Platform F E) (field : IsTowerField p.tower) where
  -- The sum from the coefficient behind `pre` on.
  strided_sum-value :
      (pre rest : List E) (x acc : E) (m j : ℕ)
      → j ≡ length pre
      → length pre + length rest ≤ m
      → strided_sum p.tower.ring
          (pre ++ rest)
          (pows_from p.tower.ring p.tower.ring.one x m)
          0
          1
          j
          (length rest)
          acc
        ≡ some (
            p.tower.ring.add acc
              (p.tower.ring.mul (power p.tower.ring x j) (eval_final_poly_ext p rest x)))
  unfolding strided_sum eval_final_poly_ext power
  strided_sum-value pre [] x acc m j at fits = ap some (
      sym (
        ap (p.tower.ring.add acc) (mul-zero ⦃r = p.tower.ring⦄ field.comm_ring _)
        ∙ add-zero ⦃r = p.tower.ring⦄ field.comm_ring acc))
  strided_sum-value pre (c ∷ rest) x acc m j at fits =
      let r = p.tower.ring in
      let w = power r x j in
      let index : 0 + j * 1 ≡ length pre = omega arith in
      let coeff = get_elem?-behind pre c rest (0 + j * 1) index in
      let pow : get_elem? (pows_from r r.one x m) j ≡ some w =
        get_elem?-pows_from r field.comm_ring r.one x m j (omega arith)
        ∙ ap some (field.comm_ring.one-mul w) in
      let more =
        strided_sum-value (pre ++ c ∷ []) rest x (r.add acc (r.mul c w)) m (j + 1)
          (omega (arith, length-append pre (c ∷ []))) (omega (arith, length-append pre (c ∷ []))) in
      let joined = append_assoc pre (c ∷ []) rest in
      let one_more : j + 1 ≡ suc j = omega arith in
      let next : power r x (j + 1) ≡ r.mul x w = ap (power r x) one_more in
      rw (coeff, pow)
        (ap
            (λ l.
              strided_sum r l (pows_from r r.one x m) 0 1 (j + 1) (length rest)
                (r.add acc (r.mul c w)))
            (sym joined)
          ∙ more
          ∙ ap (λ y. some (r.add (r.add acc (r.mul c w)) (r.mul y (eval_final_poly_ext p rest x))))
              next
          ∙ ap some (step ⦃r = r⦄ field.comm_ring acc c w x (eval_final_poly_ext p rest x)))

  dot_first-value :
      (coeffs : List E) (alpha : E) (m : ℕ)
      → length coeffs ≡ m
      → dot_first p coeffs (build_ext_pows p alpha m) m ≡ some (eval_final_poly_ext p coeffs alpha)
  unfolding dot_first build_ext_pows power
  dot_first-value coeffs alpha m size =
      ap
        (λ n.
          strided_sum p.tower.ring coeffs (pows_from p.tower.ring p.tower.ring.one alpha m) 0 1 0 n
            p.tower.ring.zero)
        (sym size)
      ∙ strided_sum-value [] coeffs alpha p.tower.ring.zero m 0 refl (omega (arith, size))
      ∙ ap some (
          field.comm_ring.zero-add _ ∙ field.comm_ring.one-mul (eval_final_poly_ext p coeffs alpha))

  -- Every tuple has m coefficients.
  abbrev pub Widths : ℕ → List (List E) → Type 0
  Widths m [] = Unit
  Widths m (t ∷ tuples) = (length t ≡ m) × Widths m tuples

  folds-values :
      (tuples : List (List E)) (alpha : E) (m : ℕ)
      → Widths m tuples
      → map_all (λ coeffs. dot_first p coeffs (build_ext_pows p alpha m) m) tuples
        ≡ some (map (λ coeffs. eval_final_poly_ext p coeffs alpha) tuples)
  unfolding map_all
  folds-values [] alpha m widths = refl
  folds-values (t ∷ tuples) alpha m (size, widths) =
      rw (dot_first-value t alpha m size, folds-values tuples alpha m widths) refl

  -- For tuples of one width, at least one, `interpolation_fold_ext` returns the values at alpha of
  -- the polynomials whose coefficients the tuples are, as the final polynomial is evaluated.
  pub interpolation_fold_ext-values :
      (first : List E) (rest : List (List E)) (alpha : E)
      → Widths (length first) rest
      → interpolation_fold_ext p (first ∷ rest) alpha
        ≡ some (map (λ coeffs. eval_final_poly_ext p coeffs alpha) (first ∷ rest))
  unfolding interpolation_fold_ext
  interpolation_fold_ext-values first rest alpha widths =
      folds-values (first ∷ rest) alpha (length first) (refl, widths)
