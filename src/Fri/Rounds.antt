-- ===== src/Fri/Rounds.antt =====
-- crates/deep_ali/src/fri.rs: folding by 2 and by 3 in a round, and the check of a query over
-- rounds.
pub mod Degrees
use stark_stir_service.Common.{
  ℕ, zero, suc, ◌+◌, ◌-◌, ◌/◌, Bool, true, false, ◌&&◌, not, Option, none, some, List, [], ◌∷◌,
  if◌then◌else◌, length, get_elem?, collect, ◌>>=◌,
}
use stark_stir_service.Tower.{Ring, ◌⊕◌, ◌⊖◌, ◌⊗◌}
use stark_stir_service.Fri.{Platform}

module _ {F E : Type 0} (p : Platform F E) where
  instance abbrev scalar_ring : Ring F
  scalar_ring = p.ground.ring

  instance abbrev ext_ring : Ring E
  ext_ring = p.tower.ring

  unfoldable pub fri_fold_degree2 : E → E → F → E → Option E
  fri_fold_degree2 f_pos f_neg x beta = do
    two_inv ← p.ground.inverse (p.ground.from_u64 2)
    x_inv ← p.ground.inverse x
    let f_even = (f_pos ⊕ f_neg) ⊗ p.tower.from_fp two_inv
    let f_odd = (f_pos ⊖ f_neg) ⊗ p.tower.from_fp (two_inv ⊗ x_inv)
    some (f_even ⊕ beta ⊗ f_odd)

  unfoldable pub fri_fold_degree3 : E → E → E → F → F → E → Option E
  fri_fold_degree3 f_at_y f_at_zy f_at_z2y y zeta beta = do
    let zeta2 = zeta ⊗ zeta
    inv3 ← p.ground.inverse (p.ground.from_u64 3)
    y_inv ← p.ground.inverse y
    let y2_inv = y_inv ⊗ y_inv
    let f0 = (f_at_y ⊕ f_at_zy ⊕ f_at_z2y) ⊗ p.tower.from_fp inv3
    let f1 =
        (f_at_y ⊕ f_at_zy ⊗ p.tower.from_fp zeta2 ⊕ f_at_z2y ⊗ p.tower.from_fp zeta)
        ⊗ p.tower.from_fp (inv3 ⊗ y_inv)
    let f2 =
        (f_at_y ⊕ f_at_zy ⊗ p.tower.from_fp zeta ⊕ f_at_z2y ⊗ p.tower.from_fp zeta2)
        ⊗ p.tower.from_fp (inv3 ⊗ y2_inv)
    let beta_sq = p.tower.sq beta
    some (f0 ⊕ beta ⊗ f1 ⊕ beta_sq ⊗ f2)

  unfoldable pub fri_fold_round : List E → List F → E → Option (List E)
  unfolding fri_fold_degree2
  fri_fold_round codeword domain beta =
      let half = length codeword / 2 in
      collect
        (λ i. do
          f_pos ← get_elem? codeword i
          f_neg ← get_elem? codeword (i + half)
          x ← get_elem? domain i
          fri_fold_degree2 f_pos f_neg x beta)
        0 half

  -- The fold of round r.
  unfoldable pub fold_at : List (E × E) → List F → List E → ℕ → Option E
  unfolding fri_fold_degree2
  fold_at round_evals round_domains betas r = do
    (f_pos, f_neg) ← get_elem? round_evals r
    x ← get_elem? round_domains r
    beta ← get_elem? betas r
    fri_fold_degree2 f_pos f_neg x beta

  -- The n rounds from r on.
  unfoldable pub verify_rounds : List (E × E) → List F → List E → E → ℕ → ℕ → E → Option Bool
  unfolding fold_at
  verify_rounds round_evals round_domains betas final_value r zero expected =
      some (p.eq expected final_value)
  verify_rounds round_evals round_domains betas final_value r (suc n) expected = do
    (f_pos, f_neg) ← get_elem? round_evals r
    elim (not (p.eq f_pos expected) && not (p.eq f_neg expected)) [
      | true ↦ some false
      | false ↦ (do
        next ← fold_at round_evals round_domains betas r
        verify_rounds round_evals round_domains betas final_value (r + 1) n next)
    ]

  unfoldable pub fri_verify_query : List (E × E) → List F → List E → E → Option Bool
  unfolding fold_at verify_rounds
  fri_verify_query round_evals round_domains betas final_value = do
    expected ← fold_at round_evals round_domains betas 0
    verify_rounds round_evals round_domains betas final_value 1 (length betas - 1) expected
