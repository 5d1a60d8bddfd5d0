-- ===== src/Fri/Interpolate.antt =====
-- crates/deep_ali/src/fri.rs: the fast Fourier transform on cosets, and the interpolation of fibres
-- that folding rests on. `debug_assert!` is left out, as in a release build.
pub mod Values
use stark_stir_service.Common.{
  ℕ, zero, suc, ◌+◌, ◌-◌, ◌*◌, ◌/◌, ◌%◌, ◌^◌, Bool, true, false, ◌&&◌, not, Option, none, some,
  List, [], ◌∷◌, ◌++◌, map, ◌==◌, ltb, if◌then◌else◌, length, get_elem?, set_elem, drop, collect,
  map_all, checked_div, exact_div, trailing_zeros, ◌>>=◌,
}
use stark_stir_service.Tower.{Ring, ◌⊕◌, ◌⊖◌, ◌⊗◌}
use stark_stir_service.Fri.{Platform, pows_from, build_ext_pows, ext_div, ext_pow}
use stark_stir_service.Fri.Layers.{
  strided_sum, spread, component_coeffs, eval_down, eval_final_poly_ext,
}

-- The lowest `bits` bits of x, reversed.
unfoldable pub bit_reverse : ℕ → ℕ → ℕ
bit_reverse zero x = 0
bit_reverse (suc bits) x = x % 2 * 2 ^ bits + bit_reverse bits (x / 2)

unfoldable pub swap : {A : Type 0} → List A → ℕ → ℕ → Option (List A)
swap vals i j = do
  a ← get_elem? vals i
  b ← get_elem? vals j
  some (set_elem (set_elem vals i b) j a)

-- The permutation, for n positions from i on.
unfoldable pub permute_from : {A : Type 0} → ℕ → ℕ → ℕ → List A → Option (List A)
unfolding swap bit_reverse
permute_from log_n i zero vals = some vals
permute_from log_n i (suc n) vals =
    let j = bit_reverse log_n i in
    do next ← if ltb i j then swap vals i j else some vals; permute_from log_n (i + 1) n next

module _ {F E : Type 0} (p : Platform F E) where
  instance abbrev ext_ring : Ring E
  ext_ring = p.tower.ring

  -- The inner loop of a block, from position `lo` on with the twiddle w.
  unfoldable pub butterflies : ℕ → ℕ → ℕ → F → F → List E → Option (List E)
  butterflies zero lo half w w_step vals = some vals
  butterflies (suc n) lo half w w_step vals = do
    u ← get_elem? vals lo
    v ← get_elem? vals (lo + half)
    let t = v ⊗ p.tower.from_fp w
    butterflies n (lo + 1) half (p.ground.ring.mul w w_step) w_step
        (set_elem (set_elem vals lo (u ⊕ t)) (lo + half) (u ⊖ t))

  -- The blocks of a stage; n rounds are enough.
  unfoldable pub blocks : ℕ → ℕ → ℕ → ℕ → F → List E → Option (List E)
  unfolding butterflies
  blocks zero n base half w_step vals = some vals
  blocks (suc fuel) n base half w_step vals = elim (ltb base n) [
    | true ↦ (do
      next ← butterflies half base half p.ground.ring.one w_step vals
      blocks fuel n (base + half * 2) half w_step next)
    | false ↦ some vals
  ]

  -- The stages; 64 rounds are enough.
  unfoldable pub stages : ℕ → ℕ → ℕ → F → List E → Option (List E)
  unfolding blocks
  stages zero n half root vals = some vals
  stages (suc fuel) n half root vals = elim (ltb half n) [
    | true ↦ (do
      next ← blocks n n 0 half (p.pow root (n / (half * 2))) vals
      stages fuel n (half * 2) root next)
    | false ↦ some vals
  ]

  unfoldable pub fft_in_place_ext : List E → F → Option (List E)
  unfolding permute_from stages
  fft_in_place_ext vals root =
      let n = length vals in
      if ltb n 2
      then some vals
      else (do permuted ← permute_from (trailing_zeros n) 0 n vals; stages 64 n 1 root permuted)

  -- Step 1 of both interpolations: the inverse transform, scaled by 1/m.
  unfoldable pub scaled_transform : List E → F → ℕ → Option (List E)
  unfolding fft_in_place_ext
  scaled_transform vals zeta m = do
    m_inv ← p.ground.inverse (p.ground.from_u64 m)
    zeta_inv ← p.ground.inverse zeta
    d ← fft_in_place_ext vals zeta_inv
    some (map (λ v. v ⊗ p.tower.from_fp m_inv) d)

  unfoldable pub interpolate_stir_coset : List E → E → F → ℕ → Option (List E)
  unfolding scaled_transform pows_from
  interpolate_stir_coset coset_evals z_ell zeta m = do
    d ← scaled_transform coset_evals zeta m
    z_inv ← p.tower.invert z_ell
    collect
        (λ k. do
          x ← get_elem? d k
          w ← get_elem? (pows_from p.tower.ring ext_ring.one z_inv m) k
          some (x ⊗ w))
        0 m

  unfoldable pub interpolate_coset_ext : List E → F → F → ℕ → Option (List E)
  unfolding scaled_transform pows_from
  interpolate_coset_ext fibre_values omega_b zeta m = do
    d ← scaled_transform fibre_values zeta m
    omega_b_inv ←
        if p.eq_ground omega_b p.ground.ring.zero
        then some p.ground.ring.one
        else p.ground.inverse omega_b
    shifted ←
        collect
          (λ k. do
            x ← get_elem? d k
            w ← get_elem? (pows_from p.ground.ring p.ground.ring.one omega_b_inv m) k
            some (x ⊗ p.tower.from_fp w))
          0 m
    some (shifted ++ drop m d)

  -- The evaluations out of the domain, on the coset of z_ell, and their interpolation.
  unfoldable pub evaluate_ood_coset : List E → E → F → ℕ → Option (List E × List E)
  unfolding component_coeffs eval_down interpolate_stir_coset pows_from
  evaluate_ood_coset f_l z_ell omega m = do
    let n = length f_l
    n_next ← checked_div n m
    comp_coeffs ← component_coeffs p f_l
    let zeta_base = p.pow omega n_next
    let zeta = p.tower.from_fp zeta_base
    coset_evals ←
        map_all (λ w. eval_down p comp_coeffs (w ⊗ z_ell) n ext_ring.zero)
          (pows_from p.tower.ring ext_ring.one zeta m)
    interp_coeffs ← interpolate_stir_coset coset_evals z_ell zeta_base m
    some (coset_evals, interp_coeffs)

  -- The quotient at each point of the domain.
  unfoldable pub stir_quotients : List E → E → ℕ → List E → List E → Option (List E)
  unfolding eval_final_poly_ext ext_pow ext_div
  stir_quotients interp_coeffs z_ell_m m [] xs = some []
  stir_quotients interp_coeffs z_ell_m m (f ∷ fs) [] = some []
  stir_quotients interp_coeffs z_ell_m m (f ∷ fs) (x ∷ xs) = do
    q ← ext_div p (f ⊖ eval_final_poly_ext p interp_coeffs x) (ext_pow p x m ⊖ z_ell_m)
    qs ← stir_quotients interp_coeffs z_ell_m m fs xs
    some (q ∷ qs)

  unfoldable pub compute_stir_quotient_ext : List E → E → F → ℕ → Option (List E × List E × List E)
  unfolding evaluate_ood_coset stir_quotients ext_pow pows_from
  compute_stir_quotient_ext f_l z_ell omega m = do
    (coset_evals, interp_coeffs) ← evaluate_ood_coset f_l z_ell omega m
    let xs = pows_from p.tower.ring ext_ring.one (p.tower.from_fp omega) (length f_l)
    quotient ← stir_quotients interp_coeffs (ext_pow p z_ell m) m f_l xs
    some (quotient, coset_evals, interp_coeffs)

  -- The coefficients of every coset; the cosets' shifts are the powers of omega.
  unfoldable pub extract_one : List E → ℕ → List F → F → ℕ → ℕ → Option (List E)
  unfolding interpolate_coset_ext
  extract_one evals n_next omega_b_table zeta m b = do
    fibre_values ← collect (λ j. get_elem? evals (b + j * n_next)) 0 m
    omega_b ← get_elem? omega_b_table b
    interpolate_coset_ext fibre_values omega_b zeta m

  unfoldable pub extract_all_coset_coefficients : List E → F → ℕ → Option (List (List E))
  unfolding extract_one pows_from
  extract_all_coset_coefficients evals omega m = do
    n_next ← exact_div (length evals) m
    let zeta = p.pow omega n_next
    let omega_b_table = pows_from p.ground.ring p.ground.ring.one omega n_next
    collect (extract_one evals n_next omega_b_table zeta m) 0 n_next

  -- `coeffs[0] * pows[0] + …`, m terms.
  unfoldable pub dot_first : List E → List E → ℕ → Option E
  unfolding strided_sum
  dot_first coeffs pows m = strided_sum p.tower.ring coeffs pows 0 1 0 m ext_ring.zero

  unfoldable pub interpolation_fold_ext : List (List E) → E → Option (List E)
  unfolding dot_first build_ext_pows
  interpolation_fold_ext coeff_tuples alpha = do
    first ← get_elem? coeff_tuples 0
    let m = length first
    map_all (λ coeffs. dot_first coeffs (build_ext_pows p alpha m) m) coeff_tuples

  unfoldable pub compute_s_layer_from_coeffs : List (List E) → E → ℕ → ℕ → Option (List E)
  unfolding interpolation_fold_ext spread
  compute_s_layer_from_coeffs coeff_tuples alpha n m = do
    n_next ← checked_div n m
    folded ← interpolation_fold_ext coeff_tuples alpha
    spread p.tower.ring folded n n_next m

  -- `sum + coeffs[i] * x_pow + …`, n terms, at a point of the ground field.
  unfoldable pub tuple_sum : List E → F → ℕ → ℕ → F → E → Option E
  tuple_sum coeffs x i zero x_pow sum = some sum
  tuple_sum coeffs x i (suc n) x_pow sum = do
    c ← get_elem? coeffs i
    tuple_sum coeffs x (i + 1) n (p.ground.ring.mul x_pow x) (sum ⊕ c ⊗ p.tower.from_fp x_pow)

  unfoldable pub tuple_at : List E → F → ℕ → Option E
  unfolding tuple_sum
  tuple_at coeffs x m = tuple_sum coeffs x 0 m p.ground.ring.one ext_ring.zero

  -- The comparison at n fibre points from j on.
  unfoldable pub consistent_from : List E → List F → List E → ℕ → ℕ → ℕ → Option Bool
  unfolding tuple_at
  consistent_from fibre_values fibre_points coeff_tuple m j zero = some true
  consistent_from fibre_values fibre_points coeff_tuple m j (suc n) = do
    x ← get_elem? fibre_points j
    eval ← tuple_at coeff_tuple x m
    value ← get_elem? fibre_values j
    elim (p.eq eval value) [
      | true ↦ consistent_from fibre_values fibre_points coeff_tuple m (j + 1) n
      | false ↦ some false
    ]

  unfoldable pub verify_interpolation_consistency : List E → List F → List E → Option Bool
  unfolding consistent_from
  verify_interpolation_consistency fibre_values fibre_points coeff_tuple =
      let m = length fibre_values in consistent_from fibre_values fibre_points coeff_tuple m 0 m

  -- The coefficient of degree k is zero in n components from j on.
  unfoldable pub row_vanishes : List (List F) → ℕ → ℕ → ℕ → Option Bool
  row_vanishes comp_coeffs k j zero = some true
  row_vanishes comp_coeffs k j (suc n) = do
    column ← get_elem? comp_coeffs j
    c ← get_elem? column k
    elim (p.eq_ground c p.ground.ring.zero) [
      | true ↦ row_vanishes comp_coeffs k (j + 1) n
      | false ↦ some false
    ]

  -- At n degrees from k on.
  unfoldable pub rows_vanish : List (List F) → ℕ → ℕ → Option Bool
  unfolding row_vanishes
  rows_vanish comp_coeffs k zero = some true
  rows_vanish comp_coeffs k (suc n) = do
    here ← row_vanishes comp_coeffs k 0 p.tower.degree
    elim here [ true ↦ rows_vanish comp_coeffs (k + 1) n | false ↦ some false ]

  unfoldable pub batched_degree_check_ext : List (List E) → E → ℕ → Option Bool
  unfolding interpolation_fold_ext component_coeffs rows_vanish
  batched_degree_check_ext [] beta d_final = some true
  batched_degree_check_ext (first ∷ rest) beta d_final = do
    gamma_evals ← interpolation_fold_ext (first ∷ rest) beta
    comp_coeffs ← component_coeffs p gamma_evals
    rows_vanish comp_coeffs d_final (length (first ∷ rest) - d_final)
