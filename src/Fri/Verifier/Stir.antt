-- ===== src/Fri/Verifier/Stir.antt =====
-- crates/deep_ali/src/fri.rs: the proximity queries of `deep_fri_verify` in STIR mode.
use stark_stir_service.Common.{
  ℕ, ◌+◌, ◌*◌, ◌%◌, Bool, true, false, ◌&&◌, Option, none, some, List, [], ◌∷◌, map, ◌==◌, ltb,
  if◌then◌else◌, length, get_elem?, checked_div, ◌>>=◌,
}
use stark_stir_service.Hashing.{Hash}
use stark_stir_service.Merkle.{MerkleChannelCfg, verify_opening}
use stark_stir_service.Fri.{Platform, build_ext_pows}
use stark_stir_service.Fri.Sizes.{layer_cfg, f0_packed_tree_config, query_position}
use stark_stir_service.Fri.Layers.{eval_final_poly_ext}
use stark_stir_service.Fri.Interpolate.{interpolate_coset_ext, dot_first}
use stark_stir_service.Fri.Data.{StirProximityPayload, DeepFriProof, DeepFriParams}
use stark_stir_service.Fri.Commitments.{stir_leaf_fields}
use stark_stir_service.Fri.Verifier.{require, and_then, Derived, check_leaf}

-- The indices of a fibre, from the j-th on.
unfoldable pub fiber_matches : ℕ → ℕ → ℕ → List ℕ → Bool
fiber_matches base_index n_next j [] = true
fiber_matches base_index n_next j (idx ∷ indices) =
    (idx == base_index + j * n_next) && fiber_matches base_index n_next (j + 1) indices

-- The configuration of layer 1, where there are two layers.
unfoldable pub layer1_cfg : List ℕ → List ℕ → Option (Option MerkleChannelCfg)
unfolding layer_cfg
layer1_cfg sizes schedule = if ltb (length schedule) 2 then some none else (do
  n1 ← get_elem? sizes 1
  m1 ← get_elem? schedule 1
  cfg ← layer_cfg n1 m1 1
  some (some cfg))

module _ {F E : Type 0} (p : Platform F E) ⦃H : Hash⦄ where
  open H use {Digest}

  -- The fold against layer 1, or against the final polynomial.
  unfoldable pub check_fold :
      DeepFriProof F E Digest
      → Derived F E
      → Option MerkleChannelCfg
      → StirProximityPayload F E Digest
      → ℕ
      → E
      → Option Bool
  unfolding and_then require check_leaf verify_opening stir_leaf_fields eval_final_poly_ext
  check_fold proof d none pq base_index fold_val =
      let x_final = p.tower.from_fp (p.pow d.omega_final base_index) in
      some (p.eq fold_val (eval_final_poly_ext p proof.final_poly_coeffs x_final))
  check_fold proof d (some l1_cfg) pq base_index fold_val = elim pq.layer1_opening [
    | none ↦ some false
    | some layer1_opening ↦ (do
      root ← get_elem? proof.roots 1
      and_then (verify_opening l1_cfg root layer1_opening) (
          require (layer1_opening.index == base_index) (
            check_leaf p l1_cfg layer1_opening (stir_leaf_fields p pq.f_next_val)
              (some (p.eq fold_val pq.f_next_val)))))
  ]

  unfoldable pub check_proximity :
      DeepFriProof F E Digest
      → Derived F E
      → MerkleChannelCfg
      → Option MerkleChannelCfg
      → ℕ
      → ℕ
      → F
      → E
      → ℕ
      → StirProximityPayload F E Digest
      → Option Bool
  unfolding and_then require check_leaf check_fold fiber_matches verify_opening query_position
      interpolate_coset_ext dot_first build_ext_pows
  check_proximity proof d f0_packed_cfg l1_cfg m0 n_next omega_0 alpha_0 qi pq = do
    expected_raw ← query_position p d.challenges.query_seed proof.n0 qi
    require (pq.raw_query_index == expected_raw) (do
      base_index ← if n_next == 0 then none else some (expected_raw % n_next)
      require (pq.base_index == base_index) (
          require ((length pq.fiber_indices == m0) && (length pq.fiber_f_vals == m0)) (
            require (fiber_matches base_index n_next 0 pq.fiber_indices) (
              and_then (verify_opening f0_packed_cfg proof.root_f0 pq.f0_packed_opening) (
                require (pq.f0_packed_opening.index == base_index) (
                  check_leaf p f0_packed_cfg pq.f0_packed_opening pq.fiber_f_vals (do
                    coeff_tuple ←
                        interpolate_coset_ext p (map p.tower.from_fp pq.fiber_f_vals)
                          (p.pow omega_0 base_index) (p.pow omega_0 n_next) m0
                    fold_val ← dot_first p coeff_tuple (build_ext_pows p alpha_0 m0) m0
                    check_fold proof d l1_cfg pq base_index fold_val)))))))

  -- The queries from the qi-th on.
  unfoldable pub check_proximities :
      DeepFriProof F E Digest
      → Derived F E
      → MerkleChannelCfg
      → Option MerkleChannelCfg
      → ℕ
      → ℕ
      → F
      → E
      → ℕ
      → List (StirProximityPayload F E Digest)
      → Option Bool
  unfolding and_then check_proximity
  check_proximities proof d f0_packed_cfg l1_cfg m0 n_next omega_0 alpha_0 qi [] = some true
  check_proximities proof d f0_packed_cfg l1_cfg m0 n_next omega_0 alpha_0 qi (pq ∷ queries) =
      and_then (check_proximity proof d f0_packed_cfg l1_cfg m0 n_next omega_0 alpha_0 qi pq)
        (check_proximities proof d f0_packed_cfg l1_cfg m0 n_next omega_0 alpha_0 (qi + 1) queries)

  unfoldable pub verify_stir : DeepFriParams → DeepFriProof F E Digest → Derived F E → Option Bool
  unfolding require check_proximities f0_packed_tree_config layer1_cfg
  verify_stir params proof d = elim proof.stir_proximity_queries [
    | none ↦ some false
    | some prox_queries ↦ require (length prox_queries == params.s0) (do
      m0 ← get_elem? params.schedule 0
      n ← get_elem? d.sizes 0
      n_next ← checked_div n m0
      omega_0 ← get_elem? d.omega_per_layer 0
      alpha_0 ← get_elem? d.challenges.alpha_layers 0
      f0_packed_cfg ← f0_packed_tree_config proof.n0 m0
      l1_cfg ← layer1_cfg d.sizes params.schedule
      check_proximities proof d f0_packed_cfg l1_cfg m0 n_next omega_0 alpha_0 0 prox_queries)
  ]
