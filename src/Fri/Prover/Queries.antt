-- ===== src/Fri/Prover/Queries.antt =====
-- crates/deep_ali/src/fri.rs: the openings of the queries, and `deep_fri_prove`.
use stark_stir_service.Common.{
  ℕ, ◌+◌, ◌*◌, ◌%◌, Bool, true, false, not, ◌||◌, Option, none, some, List, [], ◌∷◌, map, ◌==◌, ltb,
  if◌then◌else◌, length, get_elem?, take, collect, map_all, checked_div, ◌>>=◌,
}
use stark_stir_service.Hashing.{Hash}
use stark_stir_service.Merkle.{MerkleOpening, MerkleTreeChannel, open_tree}
use stark_stir_service.Fri.{Platform}
use stark_stir_service.Fri.Sizes.{layer_cfg, f0_tree_config, f0_packed_tree_config, query_position}
use stark_stir_service.Fri.Layers.{ext_evals_to_coeffs}
use stark_stir_service.Fri.Data.{
  FriDomain, FriLayerCommitment, FriProverParams, FriProverState, LayerQueryRef, FriQueryOpenings,
  LayerOpenPayload, FriQueryPayload, StirProximityPayload, LayerProof, FriLayerProofs, DeepFriProof,
  DeepFriParams,
}
use stark_stir_service.Fri.Commitments.{
  row, layer_rows, packed_rows, stir_leaf_fields, tree_of, fiber, is_empty,
}
use stark_stir_service.Fri.Replay.{Shown, replay}
use stark_stir_service.Fri.Prover.{fri_build_transcript}

-- The references of a query through the layers from position i on, and where it ends.
unfoldable pub query_refs :
    {D : Type 0} → List (FriLayerCommitment D) → List ℕ → ℕ → Option (List LayerQueryRef × ℕ)
query_refs layers [] i = some ([], i)
query_refs [] (m ∷ schedule) i = none
query_refs (layer ∷ layers) (m ∷ schedule) i = do
  n_next ← checked_div layer.n m
  parent_index ← if n_next == 0 then none else some (i % n_next)
  (refs, final_index) ← query_refs layers schedule parent_index
  some (
    record { i = i; child_pos = i % m; parent_index = parent_index; parent_pos = 0 } ∷ refs,
    final_index,
  )

-- The number of positions of the first layer.
unfoldable pub first_n : {D : Type 0} → List (FriLayerCommitment D) → ℕ
first_n [] = 0
first_n (layer ∷ layers) = layer.n

module _ {F E : Type 0} (p : Platform F E) ⦃H : Hash⦄ where
  open H use {Digest, bytes}

  unfoldable pub prove_query : FriProverState F E Digest → F → ℕ → Option FriQueryOpenings
  unfolding query_position query_refs first_n
  prove_query st query_seed q = do
    i ← query_position p query_seed (first_n st.transcript.layers) q
    (refs, final_index) ← query_refs st.transcript.layers st.transcript.schedule i
    some (record { per_layer_refs = refs; final_index = final_index })

  -- The openings at the positions that the queries have in layer ell.
  unfoldable pub open_at :
      MerkleTreeChannel Digest → ℕ → List FriQueryOpenings → Option (List (MerkleOpening Digest))
  open_at tree ell all_refs =
      map_all (λ q. do ref ← get_elem? q.per_layer_refs ell; open_tree tree ref.i) all_refs

  unfoldable pub prove_layer :
      FriProverState F E Digest → List FriQueryOpenings → ℕ → Option (LayerProof Digest)
  unfolding layer_cfg layer_rows tree_of open_at
  prove_layer st all_refs ell = do
    layer ← get_elem? st.transcript.layers ell
    cfg ← layer_cfg layer.n layer.m ell
    fs ← get_elem? st.f_layers_ext ell
    ss ← get_elem? st.s_layers ell
    qs ← get_elem? st.q_layers ell
    rows ← layer_rows p false layer.n fs ss qs
    (root, tree) ← tree_of p cfg rows
    openings ← open_at tree ell all_refs
    some (record { openings = openings })

  unfoldable pub fri_prove_queries :
      FriProverState F E Digest
      → ℕ
      → F
      → Option (
          List FriQueryOpenings × List Digest × FriLayerProofs Digest × List (MerkleOpening Digest))
  unfolding prove_query prove_layer open_at tree_of f0_tree_config row
  fri_prove_queries st r query_seed = do
    all_refs ← collect (prove_query st query_seed) 0 r
    f0_cfg ← f0_tree_config (first_n st.transcript.layers)
    (f0_root, f0_tree) ← tree_of p f0_cfg (map (λ x. row p (x ∷ [])) st.f0_base)
    f0_openings ← open_at f0_tree 0 all_refs
    layer_proofs ← collect (prove_layer st all_refs) 0 (length st.transcript.schedule)
    some (
      all_refs,
      map (λ l. l.root) st.transcript.layers,
      record { layers = layer_proofs },
      f0_openings,
    )

  -- The tree of layer 1, if there is one.
  unfoldable pub layer1_tree :
      FriProverState F E Digest → Option (Option (MerkleTreeChannel Digest × List E))
  unfolding layer_cfg tree_of stir_leaf_fields row
  layer1_tree st = if ltb (length st.transcript.schedule) 2 then some none else (do
    layer ← get_elem? st.transcript.layers 1
    cfg ← layer_cfg layer.n layer.m 1
    fs ← get_elem? st.f_layers_ext 1
    (root, tree) ← tree_of p cfg (map (λ f. row p (stir_leaf_fields p f)) fs)
    some (some (tree, fs)))

  -- The value of the next layer, and its opening.
  unfoldable pub next_opening :
      Option (MerkleTreeChannel Digest × List E) → ℕ → Option (E × Option (MerkleOpening Digest))
  next_opening none base_index = some (p.tower.ring.zero, none)
  next_opening (some (tree, fs)) base_index = do
    opening ← open_tree tree base_index
    f_next_val ← get_elem? fs base_index
    some (f_next_val, some opening)

  unfoldable pub prove_proximity :
      FriProverState F E Digest
      → MerkleTreeChannel Digest
      → Option (MerkleTreeChannel Digest × List E)
      → ℕ
      → ℕ
      → ℕ
      → F
      → ℕ
      → Option (StirProximityPayload F E Digest)
  unfolding query_position next_opening fiber
  prove_proximity st f0_tree layer1 n0 m0 n_next query_seed q = do
    raw_i ← query_position p query_seed n0 q
    base_index ← if n_next == 0 then none else some (raw_i % n_next)
    fiber_indices ← collect (λ j. some (base_index + j * n_next)) 0 m0
    fiber_f_vals ← map_all (λ idx. get_elem? st.f0_base idx) fiber_indices
    f0_packed_opening ← open_tree f0_tree base_index
    (f_next_val, layer1_opening) ← next_opening layer1 base_index
    some (record {
      base_index = base_index;
      raw_query_index = raw_i;
      fiber_indices = fiber_indices;
      fiber_f_vals = fiber_f_vals;
      f0_packed_opening = f0_packed_opening;
      f_next_val = f_next_val;
      layer1_opening = layer1_opening;
    })

  unfoldable pub stir_prove_proximity_queries :
      FriProverState F E Digest → ℕ → F → ℕ → Option (List (StirProximityPayload F E Digest))
  unfolding prove_proximity layer1_tree packed_rows tree_of f0_packed_tree_config
  stir_prove_proximity_queries st s0 query_seed r =
      if not st.stir || is_empty st.transcript.layers then some [] else (do
        let n0 = first_n st.transcript.layers
        m0 ← get_elem? st.transcript.schedule 0
        n_next ← checked_div n0 m0
        cfg ← f0_packed_tree_config n0 m0
        rows ← packed_rows p st.f0_base m0 n_next
        (f0_root, f0_tree) ← tree_of p cfg rows
        layer1 ← layer1_tree st
        collect (λ q. prove_proximity st f0_tree layer1 n0 m0 n_next query_seed (r + q)) 0 s0)

  -- What a query opens, layer by layer from ell on.
  unfoldable pub query_payloads :
      FriProverState F E Digest → ℕ → List LayerQueryRef → Option (List (LayerOpenPayload E))
  query_payloads st ell [] = some []
  query_payloads st ell (ref ∷ refs) = do
    fs ← get_elem? st.f_layers_ext ell
    f_val ← get_elem? fs ref.i
    ss ← get_elem? st.s_layers ell
    s_val ← get_elem? ss ref.i
    qs ← get_elem? st.q_layers ell
    q_val ← if is_empty qs then some p.tower.ring.zero else get_elem? qs ref.i
    rest ← query_payloads st (ell + 1) refs
    some (record { f_val = f_val; s_val = s_val; q_val = q_val } ∷ rest)

  unfoldable pub query_payload :
      FriProverState F E Digest
      → FriQueryOpenings
      → MerkleOpening Digest
      → Option (FriQueryPayload E Digest)
  unfolding query_payloads
  query_payload st q f0_opening = do
    payloads ← query_payloads st 0 q.per_layer_refs
    some (record {
      per_layer_refs = q.per_layer_refs;
      per_layer_payloads = payloads;
      f0_opening = f0_opening;
      final_index = q.final_index;
    })

  unfoldable pub query_payloads_all :
      FriProverState F E Digest
      → List FriQueryOpenings
      → List (MerkleOpening Digest)
      → Option (List (FriQueryPayload E Digest))
  unfolding query_payload
  query_payloads_all st [] openings = some []
  query_payloads_all st (q ∷ qs) [] = none
  query_payloads_all st (q ∷ qs) (o ∷ openings) = do
    payload ← query_payload st q o
    rest ← query_payloads_all st qs openings
    some (payload ∷ rest)

  -- What the state shows to the replay.
  unfoldable pub shown_of : FriProverState F E Digest → ℕ → List E → Shown E Digest
  shown_of st size final_poly_coeffs = record {
    n0 = size;
    root_f0 = st.root_f0;
    stir_coset_evals = st.stir_coset_evals;
    fz_per_layer = st.fz_layers;
    roots = map (λ l. l.root) st.transcript.layers;
    coeff_root = st.coeff_root;
    final_poly_coeffs = final_poly_coeffs;
  }

  -- The openings in both modes.
  unfoldable pub prove_openings :
      Bool
      → FriProverState F E Digest
      → DeepFriParams
      → F
      → Option (
          List (FriQueryPayload E Digest)
          × FriLayerProofs Digest
          × List (MerkleOpening Digest)
          × Option (List (StirProximityPayload F E Digest)))
  unfolding stir_prove_proximity_queries fri_prove_queries query_payloads_all
  prove_openings true st params query_seed = do
    stir_prox ← stir_prove_proximity_queries st params.s0 query_seed 0
    some ([], record { layers = [] }, [], some stir_prox)
  prove_openings false st params query_seed = do
    (query_refs, roots, layer_proofs, f0_openings) ← fri_prove_queries st params.r query_seed
    queries ← query_payloads_all st query_refs f0_openings
    some (queries, layer_proofs, f0_openings, none)

  unfoldable pub prover_params : DeepFriParams → FriProverParams
  prover_params params = record {
    schedule = params.schedule;
    seed_z = params.seed_z;
    coeff_commit_final = params.coeff_commit_final;
    d_final = params.d_final;
    stir = params.stir;
    public_inputs_hash = params.public_inputs_hash;
  }

  unfoldable pub deep_fri_prove :
      List F → FriDomain F → DeepFriParams → Option (DeepFriProof F E Digest)
  unfolding prover_params fri_build_transcript ext_evals_to_coeffs replay shown_of prove_openings
  deep_fri_prove f0 domain0 params = do
    (st, tr) ← fri_build_transcript p f0 domain0 (prover_params params)
    final_evals ← get_elem? st.f_layers_ext (length params.schedule)
    all_coeffs ← ext_evals_to_coeffs p final_evals
    let final_poly_coeffs = take params.d_final all_coeffs
    challenges ← replay p params (shown_of st domain0.size final_poly_coeffs)
    (queries, layer_proofs, f0_openings, stir_proximity) ←
        prove_openings params.stir st params challenges.query_seed
    some (record {
      root_f0 = st.root_f0;
      roots = map (λ l. l.root) st.transcript.layers;
      layer_proofs = layer_proofs;
      f0_openings = f0_openings;
      queries = queries;
      fz_per_layer = st.fz_layers;
      final_poly_coeffs = final_poly_coeffs;
      n0 = domain0.size;
      omega0 = domain0.omega;
      coeff_tuples = st.coeff_tuples;
      coeff_root = st.coeff_root;
      stir_coset_evals = st.stir_coset_evals;
      stir_proximity_queries = stir_proximity;
    })
