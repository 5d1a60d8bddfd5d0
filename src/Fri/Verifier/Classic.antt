-- ===== src/Fri/Verifier/Classic.antt =====
-- crates/deep_ali/src/fri.rs: the queries of `deep_fri_verify` outside STIR mode.
use stark_stir_service.Common.{
  ℕ, zero, suc, ◌+◌, ◌-◌, ◌%◌, Bool, true, ◌&&◌, Option, none, some, List, [], ◌∷◌, ◌==◌, ltb,
  if◌then◌else◌, length, get_elem?, checked_div, ◌>>=◌,
}
use stark_stir_service.Hashing.{Hash}
use stark_stir_service.Merkle.{MerkleChannelCfg, verify_opening}
use stark_stir_service.Fri.{Platform, build_ext_pows}
use stark_stir_service.Fri.Sizes.{layer_cfg, f0_tree_config, query_position}
use stark_stir_service.Fri.Layers.{eval_final_poly_ext}
use stark_stir_service.Fri.Interpolate.{dot_first, tuple_at}
use stark_stir_service.Fri.Data.{
  LayerQueryRef, LayerOpenPayload, FriQueryPayload, DeepFriProof, DeepFriParams,
}
use stark_stir_service.Fri.Commitments.{ext_leaf_fields}
use stark_stir_service.Fri.Verifier.{require, and_then, Derived, check_leaf}

-- The positions through the layers from ell on, and the final index.
unfoldable pub check_positions : List LayerQueryRef → List ℕ → ℕ → ℕ → List ℕ → ℕ → Option Bool
unfolding require
check_positions refs sizes final_index ell [] expected_i = some (final_index == expected_i)
check_positions refs sizes final_index ell (m ∷ schedule) expected_i = do
  ref ← get_elem? refs ell
  require (ref.i == expected_i) (do
    n ← get_elem? sizes ell
    n_next ← checked_div n m
    if n_next == 0
        then none
        else check_positions refs sizes final_index (ell + 1) schedule (expected_i % n_next))

module _ {F E : Type 0} (p : Platform F E) ⦃H : Hash⦄ where
  open H use {Digest}

  -- The components behind the first are zero.
  unfoldable pub is_base : List F → Bool
  is_base [] = true
  is_base (c ∷ cs) = p.eq_ground c p.ground.ring.zero && is_base cs

  -- The first layer's value is in the base field, and opens in the tree of f0.
  unfoldable pub check_f0 :
      MerkleChannelCfg → DeepFriProof F E Digest → FriQueryPayload E Digest → ℕ → Option Bool
  unfolding and_then require check_leaf is_base verify_opening
  check_f0 f0_cfg proof qp expected_i0 =
      and_then (verify_opening f0_cfg proof.root_f0 qp.f0_opening) (do
        pay0 ← get_elem? qp.per_layer_payloads 0
        elim (p.tower.to_fp_components pay0.f_val) [
          | [] ↦ none
          | c0 ∷ cs ↦ require (is_base cs) (
              check_leaf p f0_cfg qp.f0_opening (c0 ∷ [])
                (some (qp.f0_opening.index == expected_i0)))
        ])

  -- With committed coefficients: the value is that of the coset's polynomial, and its fold that of
  -- the
  -- final polynomial.
  unfoldable pub check_coeff_fold :
      DeepFriParams
      → DeepFriProof F E Digest
      → Derived F E
      → ℕ
      → FriQueryPayload E Digest
      → LayerQueryRef
      → LayerOpenPayload E
      → ℕ
      → Option Bool
  unfolding require tuple_at build_ext_pows dot_first eval_final_poly_ext
  check_coeff_fold params proof d ell qp ref pay m = do
    coeff_tuples ← proof.coeff_tuples
    coeff_tuple ← get_elem? coeff_tuples qp.final_index
    omega_ell ← get_elem? d.omega_per_layer ell
    h_star ← tuple_at p coeff_tuple (p.pow omega_ell ref.i) m
    require (p.eq pay.f_val h_star) (do
      alpha_final ← get_elem? d.challenges.alpha_layers (length params.schedule - 1)
      fold_val ← dot_first p coeff_tuple (build_ext_pows p alpha_final m) m
      let x_final = p.tower.from_fp (p.pow d.omega_final qp.final_index)
      some (p.eq fold_val (eval_final_poly_ext p proof.final_poly_coeffs x_final)))

  -- The folded value is the next layer's, or that of the final polynomial.
  unfoldable pub check_next :
      DeepFriProof F E Digest
      → Derived F E
      → ℕ
      → ℕ
      → FriQueryPayload E Digest
      → LayerOpenPayload E
      → Option Bool
  unfolding eval_final_poly_ext
  check_next proof d l ell qp pay = do
    verified_f_next ←
        if ltb (ell + 1) l
        then (do next ← get_elem? qp.per_layer_payloads (ell + 1); some next.f_val)
        else some (
            eval_final_poly_ext p proof.final_poly_coeffs
              (p.tower.from_fp (p.pow d.omega_final qp.final_index)))
    some (p.eq pay.s_val verified_f_next)

  -- One layer of query q.
  unfoldable pub check_layer :
      Bool
      → DeepFriParams
      → DeepFriProof F E Digest
      → Derived F E
      → ℕ
      → FriQueryPayload E Digest
      → ℕ
      → ℕ
      → Option Bool
  unfolding and_then require check_leaf check_coeff_fold check_next layer_cfg verify_opening
      ext_leaf_fields
  check_layer use_coeff_commit params proof d q qp ell m = do
    layer ← get_elem? proof.layer_proofs.layers ell
    opening ← get_elem? layer.openings q
    ref ← get_elem? qp.per_layer_refs ell
    pay ← get_elem? qp.per_layer_payloads ell
    n ← get_elem? d.sizes ell
    cfg ← layer_cfg n m ell
    root ← get_elem? proof.roots ell
    and_then (verify_opening cfg root opening) (
        require (opening.index == ref.i) (
          check_leaf p cfg opening (ext_leaf_fields p pay.f_val pay.s_val pay.q_val) (do
            omega_ell ← get_elem? d.omega_per_layer ell
            fz ← get_elem? proof.fz_per_layer ell
            let x_i = p.tower.from_fp (p.pow omega_ell ref.i)
            let num = p.tower.ring.sub pay.f_val fz
            let denom = p.tower.ring.sub x_i d.challenges.z_ext
            require (p.eq (p.tower.ring.mul pay.q_val denom) num) (
                if use_coeff_commit && (ell + 1 == length params.schedule)
                then check_coeff_fold params proof d ell qp ref pay m
                else check_next proof d (length params.schedule) ell qp pay))))

  unfoldable pub check_layers :
      Bool
      → DeepFriParams
      → DeepFriProof F E Digest
      → Derived F E
      → ℕ
      → FriQueryPayload E Digest
      → ℕ
      → List ℕ
      → Option Bool
  unfolding and_then check_layer
  check_layers use_coeff_commit params proof d q qp ell [] = some true
  check_layers use_coeff_commit params proof d q qp ell (m ∷ schedule) =
      and_then (check_layer use_coeff_commit params proof d q qp ell m)
        (check_layers use_coeff_commit params proof d q qp (ell + 1) schedule)

  unfoldable pub check_query :
      Bool
      → DeepFriParams
      → DeepFriProof F E Digest
      → Derived F E
      → MerkleChannelCfg
      → ℕ
      → Option Bool
  unfolding and_then check_positions check_f0 check_layers query_position
  check_query use_coeff_commit params proof d f0_cfg q = do
    qp ← get_elem? proof.queries q
    expected_i0 ← query_position p d.challenges.query_seed proof.n0 q
    and_then
        (check_positions qp.per_layer_refs d.sizes qp.final_index 0 params.schedule expected_i0)
        (and_then (check_f0 f0_cfg proof qp expected_i0)
          (check_layers use_coeff_commit params proof d q qp 0 params.schedule))

  -- The n queries from q on.
  unfoldable pub check_queries :
      Bool
      → DeepFriParams
      → DeepFriProof F E Digest
      → Derived F E
      → MerkleChannelCfg
      → ℕ
      → ℕ
      → Option Bool
  unfolding and_then check_query
  check_queries use_coeff_commit params proof d f0_cfg q zero = some true
  check_queries use_coeff_commit params proof d f0_cfg q (suc n) =
      and_then (check_query use_coeff_commit params proof d f0_cfg q)
        (check_queries use_coeff_commit params proof d f0_cfg (q + 1) n)

  unfoldable pub verify_classic :
      Bool → DeepFriParams → DeepFriProof F E Digest → Derived F E → Option Bool
  unfolding check_queries f0_tree_config
  verify_classic use_coeff_commit params proof d = do
    f0_cfg ← f0_tree_config proof.n0
    check_queries use_coeff_commit params proof d f0_cfg 0 params.r
