-- ===== src/Fri/Layers.antt =====
-- crates/deep_ali/src/fri.rs: folding, the quotients and the evaluations of the layers. The
-- branches for
-- several threads compute the same entries, and are not told apart.
pub mod Folding
pub mod Sampling
use stark_stir_service.Common.{
  ℕ, zero, suc, ◌+◌, ◌*◌, ◌%◌, ◌^◌, Bool, true, false, ◌&&◌, not, Option, none, some, List, [], ◌∷◌,
  ◌++◌, map, ◌==◌, ltb, if◌then◌else◌, length, get_elem?, set_elem, take, drop, replicate, text,
  collect, map_all, checked_div, exact_div, ◌>>=◌,
}
use stark_stir_service.Hashing.{Hash}
use stark_stir_service.Merkle.{chunks}
use stark_stir_service.Tower.{Ring, ◌⊕◌, ◌⊖◌, ◌⊗◌, eval_base_poly}
use stark_stir_service.Fri.{
  Platform, pows_from, build_z_pows, build_ext_pows, ext_div, tr_hash_fields_tagged,
  field_to_le_bytes,
}

module _ {A : Type 0} (r : Ring A) where
  -- `acc + xs[b + j * stride] * pows[j] + xs[b + (j + 1) * stride] * pows[j + 1] + …`, n terms.
  unfoldable pub strided_sum : List A → List A → ℕ → ℕ → ℕ → ℕ → A → Option A
  strided_sum xs pows b stride j zero acc = some acc
  strided_sum xs pows b stride j (suc n) acc = do
    x ← get_elem? xs (b + j * stride)
    y ← get_elem? pows j
    strided_sum xs pows b stride (j + 1) n (r.add acc (r.mul x y))

  -- One sum for each entry of the next layer.
  unfoldable pub fold_layer : List A → List A → ℕ → Option (List A)
  unfolding strided_sum
  fold_layer evals pows m = do
    n_next ← exact_div (length evals) m
    collect (λ b. strided_sum evals pows b n_next 0 m r.zero) 0 n_next

  -- `s[b + j * stride] = v` for n values of j.
  unfoldable pub spread_one : ℕ → ℕ → A → ℕ → ℕ → List A → Option (List A)
  spread_one b stride v j zero s = some s
  spread_one b stride v j (suc n) s =
      let next = spread_one b stride v (j + 1) n (set_elem s (b + j * stride) v) in
      if ltb (b + j * stride) (length s) then next else none

  -- For n values of b, from the folded layer.
  unfoldable pub spread_from : ℕ → ℕ → List A → ℕ → ℕ → List A → Option (List A)
  unfolding spread_one
  spread_from stride m folded b zero s = some s
  spread_from stride m folded b (suc n) s = do
    v ← get_elem? folded b
    next ← spread_one b stride v 0 m s
    spread_from stride m folded (b + 1) n next

  -- `s_per_i`.
  unfoldable pub spread : List A → ℕ → ℕ → ℕ → Option (List A)
  unfolding spread_from
  spread folded n n_next m = spread_from n_next m folded 0 n_next (replicate n r.zero)

  unfoldable pub dot_with_z_pows : A → List A → List A → A
  dot_with_z_pows s [] zps = s
  dot_with_z_pows s (v ∷ vs) [] = s
  dot_with_z_pows s (v ∷ vs) (zp ∷ zps) = dot_with_z_pows (r.add s (r.mul v zp)) vs zps

  unfoldable pub fold_layer_sequential : List A → List A → ℕ → Option (List A)
  unfolding dot_with_z_pows chunks
  fold_layer_sequential f_l z_pows m =
      if m == 0
      then none
      else some (map (λ chunk. dot_with_z_pows r.zero chunk z_pows) (chunks m f_l))

-- The chunks of the target that have a bucket are filled with it.
unfoldable pub fill_repeated_targets : {A : Type 0} → List A → List A → ℕ → List A
fill_repeated_targets target [] m = target
fill_repeated_targets target (bucket ∷ src) m =
    replicate (length (take m target)) bucket ++ fill_repeated_targets (drop m target) src m

module _ {F E : Type 0} (p : Platform F E) where
  instance abbrev ext_ring : Ring E
  ext_ring = p.tower.ring

  unfoldable pub compute_s_layer : List F → F → ℕ → Option (List F)
  unfolding fold_layer spread build_z_pows
  compute_s_layer f_l z_l m = do
    n_next ← exact_div (length f_l) m
    folded ← fold_layer p.ground.ring f_l (build_z_pows p z_l m) m
    spread p.ground.ring folded (length f_l) n_next m

  unfoldable pub fri_fold_layer_impl : List F → F → F → ℕ → Option (List F)
  unfolding fold_layer build_z_pows
  fri_fold_layer_impl evals z_l omega folding_factor =
      fold_layer p.ground.ring evals (build_z_pows p z_l folding_factor) folding_factor

  unfoldable pub fri_fold_layer : List F → F → ℕ → Option (List F)
  unfolding fri_fold_layer_impl
  fri_fold_layer evals z_l folding_factor = do
    omega ← p.group_gen (length evals)
    fri_fold_layer_impl evals z_l omega folding_factor

  unfoldable pub fri_fold_layer_ext_impl : List E → E → ℕ → Option (List E)
  unfolding fold_layer build_ext_pows
  fri_fold_layer_ext_impl evals alpha folding_factor =
      fold_layer p.tower.ring evals (build_ext_pows p alpha folding_factor) folding_factor

  unfoldable pub compute_s_layer_ext : List E → E → ℕ → Option (List E)
  unfolding fold_layer spread build_ext_pows
  compute_s_layer_ext f_l alpha m = do
    n_next ← exact_div (length f_l) m
    folded ← fold_layer p.tower.ring f_l (build_ext_pows p alpha m) m
    spread p.tower.ring folded (length f_l) n_next m

  -- The evaluations, the quotient's numerators and denominators side by side.
  unfoldable pub quotients : E → E → List E → List E → Option (List E)
  unfolding ext_div
  quotients fz z [] xs = some []
  quotients fz z (f ∷ fs) [] = some []
  quotients fz z (f ∷ fs) (x ∷ xs) = do
    q ← ext_div p (f ⊖ fz) (x ⊖ z)
    qs ← quotients fz z fs xs
    some (q ∷ qs)

  unfoldable pub compute_q_layer_ext : List F → E → F → Option (List E × E)
  unfolding quotients pows_from eval_base_poly
  compute_q_layer_ext f_l z omega = do
    let n = length f_l
    dom ← p.group_gen n
    let coeffs = p.ifft n f_l
    let fz = eval_base_poly p.tower coeffs z
    let xs = pows_from p.tower.ring ext_ring.one (p.tower.from_fp omega) n
    q ← quotients fz z (map p.tower.from_fp f_l) xs
    some (q, fz)

  -- `comp_coeffs`: component by component, the evaluations and then the coefficients.
  unfoldable pub component_coeffs : List E → Option (List (List F))
  component_coeffs f_l = do
    dom ← p.group_gen (length f_l)
    comp_evals ←
        collect (λ j. map_all (λ elem. get_elem? (p.tower.to_fp_components elem) j) f_l) 0
          p.tower.degree
    some (map (p.ifft (length f_l)) comp_evals)

  -- The coefficient of degree k.
  unfoldable pub ext_coeff : List (List F) → ℕ → Option E
  ext_coeff comp_coeffs k = do
    comps ←
        collect (λ j. get_elem? comp_coeffs j >>= (λ column. get_elem? column k)) 0 p.tower.degree
    p.tower.from_fp_components comps

  -- `eval_at`, from the coefficient of degree n - 1 downwards.
  unfoldable pub eval_down : List (List F) → E → ℕ → E → Option E
  unfolding ext_coeff
  eval_down comp_coeffs point zero result = some result
  eval_down comp_coeffs point (suc k) result = do
    c ← ext_coeff comp_coeffs k
    eval_down comp_coeffs point k (result ⊗ point ⊕ c)

  unfoldable pub compute_q_layer_ext_on_ext : List E → E → F → Option (List E × E)
  unfolding quotients pows_from component_coeffs eval_down
  compute_q_layer_ext_on_ext f_l z omega = do
    let n = length f_l
    comp_coeffs ← component_coeffs f_l
    fz ← eval_down comp_coeffs z n ext_ring.zero
    let xs = pows_from p.tower.ring ext_ring.one (p.tower.from_fp omega) n
    q ← quotients fz z f_l xs
    some (q, fz)

  unfoldable pub ext_evals_to_coeffs : List E → Option (List E)
  unfolding component_coeffs ext_coeff
  ext_evals_to_coeffs evals = if ltb (length evals) 2 then some evals else (do
    comp_coeffs ← component_coeffs evals
    collect (ext_coeff comp_coeffs) 0 (length evals))

  -- Horner's rule from the last coefficient.
  unfoldable pub eval_final_poly_ext : List E → E → E
  eval_final_poly_ext [] x = ext_ring.zero
  eval_final_poly_ext (c ∷ cs) x = eval_final_poly_ext cs x ⊗ x ⊕ c

  module _ ⦃H : Hash⦄ where
    -- The candidates of the loop of `fri_sample_z_ell`, from the k-th draw on.
    unfoldable pub sample_loop : ℕ → ℕ → List ℕ → ℕ → F → F
    sample_loop zero k seed_bytes domain_size fallback =
        if p.eq_ground (p.pow fallback domain_size) p.ground.ring.one
        then p.ground.from_u64 11
        else fallback
    sample_loop (suc tries) k seed_bytes domain_size fallback =
        let cand = p.ground.from_u64 (p.draw seed_bytes k) in
        let rest = sample_loop tries (k + 1) seed_bytes domain_size fallback in
        if not (p.eq_ground cand p.ground.ring.zero)
          && not (p.eq_ground (p.pow cand domain_size) p.ground.ring.one)
        then cand
        else rest

    unfoldable pub fri_sample_z_ell : ℕ → ℕ → ℕ → Option F
    unfolding sample_loop tr_hash_fields_tagged field_to_le_bytes
    fri_sample_z_ell seed_z level domain_size = do
      fused ←
          tr_hash_fields_tagged p (text "FRI/z/l") (
            p.ground.from_u64 seed_z ∷ p.ground.from_u64 level ∷ p.ground.from_u64 domain_size ∷ [])
      let fallback = p.ground.from_u64 ((seed_z + level + 7) % 2 ^ 64)
      some (sample_loop 1000 0 (field_to_le_bytes p fused ++ replicate 24 0) domain_size fallback)
