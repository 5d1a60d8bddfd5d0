-- ===== src/Fri/Commitments.antt =====
-- crates/deep_ali/src/fri.rs: the leaves and trees of the layers, and what the transcript absorbs,
-- as
-- the provers and the verifier have them in common.
use stark_stir_service.Common.{
  ℕ, ◌+◌, ◌*◌, Bool, true, false, Option, none, some, List, [], ◌∷◌, ◌++◌, map, if◌then◌else◌,
  length, get_elem?, text, collect, checked_div, ◌>>=◌,
}
use stark_stir_service.Hashing.{Hash}
use stark_stir_service.Merkle.{
  MerkleChannelCfg, MerkleTreeChannel, new_tree, push_leaf, push_leaves_parallel, finalize,
}
use stark_stir_service.Transcript
use stark_stir_service.Transcript.{FsTranscript, absorb_element, new_matching_hash}
use stark_stir_service.Fri.{Platform, challenge_ext, absorb_ext, absorb_exts, absorb_fields}
use stark_stir_service.Fri.Sizes.{f0_tree_config, f0_packed_tree_config}

unfoldable pub bool_u64 : Bool → ℕ
bool_u64 b = if b then 1 else 0

-- `schedule.is_empty()`.
unfoldable pub is_empty : {A : Type 0} → List A → Bool
is_empty [] = true
is_empty (x ∷ xs) = false

module _ {F E : Type 0} (p : Platform F E) where
  -- Fields as the leaves of the Merkle trees take them.
  unfoldable pub row : List F → List ℕ
  row fields = map p.ground.into_u64 fields

  unfoldable pub ext_leaf_fields : E → E → E → List F
  ext_leaf_fields f s q =
      p.tower.to_fp_components f ++ (p.tower.to_fp_components s ++ p.tower.to_fp_components q)

  unfoldable pub stir_leaf_fields : E → List F
  stir_leaf_fields f = p.tower.to_fp_components f

  unfoldable pub coeff_leaf_fields : List E → List F
  coeff_leaf_fields [] = []
  coeff_leaf_fields (e ∷ es) = p.tower.to_fp_components e ++ coeff_leaf_fields es

  -- The rows of a layer's tree.
  unfoldable pub layer_rows : Bool → ℕ → List E → List E → List E → Option (List (List ℕ))
  unfolding row ext_leaf_fields stir_leaf_fields
  layer_rows true n fs ss qs =
      collect (λ i. do f ← get_elem? fs i; some (row (stir_leaf_fields f))) 0 n
  layer_rows false n fs ss qs =
      collect
        (λ i. do
          f ← get_elem? fs i
          s ← get_elem? ss i
          q ← get_elem? qs i
          some (row (ext_leaf_fields f s q)))
        0 n

  -- The fibre over b.
  unfoldable pub fiber : List F → ℕ → ℕ → ℕ → Option (List F)
  fiber f0 m0 n_next b = collect (λ j. get_elem? f0 (b + j * n_next)) 0 m0

  unfoldable pub packed_rows : List F → ℕ → ℕ → Option (List (List ℕ))
  unfolding fiber row
  packed_rows f0 m0 n_next = collect (λ b. do vals ← fiber f0 m0 n_next b; some (row vals)) 0 n_next

  module _ ⦃H : Hash⦄ where
    open H use {Digest, bytes}

    unfoldable pub push_rows :
        MerkleTreeChannel Digest → List (List ℕ) → Option (MerkleTreeChannel Digest)
    unfolding push_leaf
    push_rows tree [] = some tree
    push_rows tree (r ∷ rows) = do next ← push_leaf tree r; push_rows next rows

    -- A tree that is filled leaf by leaf.
    unfoldable pub tree_of :
        MerkleChannelCfg → List (List ℕ) → Option (Digest × MerkleTreeChannel Digest)
    unfolding push_rows finalize new_tree
    tree_of cfg rows = do tree ← push_rows (new_tree cfg) rows; finalize tree

    -- A tree that is filled at once.
    unfoldable pub commit_rows :
        MerkleChannelCfg → List (List ℕ) → Option (Digest × MerkleTreeChannel Digest)
    unfolding push_leaves_parallel finalize new_tree
    commit_rows cfg rows = do tree ← push_leaves_parallel (new_tree cfg) rows; finalize tree

    unfoldable pub absorb_public_inputs : FsTranscript F → Option (List ℕ) → Option (FsTranscript F)
    absorb_public_inputs tr none = some tr
    absorb_public_inputs tr (some pi_hash) = do
      tagged ← Transcript.absorb_bytes p.ground p.hashers tr (text "CAIRO-PUBLIC-INPUTS-V1")
      Transcript.absorb_bytes p.ground p.hashers tagged pi_hash

    unfoldable pub bind_statement_to_transcript :
        FsTranscript F → List ℕ → ℕ → ℕ → Bool → Bool → Option (List ℕ) → Option (FsTranscript F)
    unfolding absorb_public_inputs absorb_fields bool_u64
    bind_statement_to_transcript tr schedule n0 seed_z coeff_commit_final stir public_inputs_hash =
        do
          public ← absorb_public_inputs tr public_inputs_hash
          tagged ← Transcript.absorb_bytes p.ground p.hashers public (text "DEEP-FRI-STATEMENT-V2")
          absorb_fields p tagged (
              map p.ground.from_u64 (
                n0 ∷ length schedule ∷ []
                ++ (schedule
                    ++ (seed_z
                        ∷ p.tower.degree
                        ∷ bool_u64 coeff_commit_final
                        ∷ bool_u64 stir
                        ∷ []))))

    -- The tree of the first layer, packed by fibres in STIR mode.
    unfoldable pub commit_f0 :
        Bool → List ℕ → List F → ℕ → Option (Digest × MerkleTreeChannel Digest)
    unfolding packed_rows tree_of f0_packed_tree_config f0_tree_config row
    commit_f0 true (m0 ∷ schedule) f0 size = do
      n_next ← checked_div size m0
      cfg ← f0_packed_tree_config size m0
      rows ← packed_rows f0 m0 n_next
      tree_of cfg rows
    commit_f0 true [] f0 size = do
      cfg ← f0_tree_config size
      tree_of cfg (map (λ x. row (x ∷ [])) f0)
    commit_f0 false schedule f0 size = do
      cfg ← f0_tree_config size
      tree_of cfg (map (λ x. row (x ∷ [])) f0)

    -- The evaluations, and the root of the layer.
    unfoldable pub absorb_layer :
        FsTranscript F → Bool → List E → E → Digest → Option (FsTranscript F)
    unfolding absorb_exts absorb_ext
    absorb_layer tr stir coset_evals fz root = do
      evals ← if stir then absorb_exts p tr coset_evals else absorb_ext p tr fz
      Transcript.absorb_bytes p.ground p.hashers evals (bytes root)

    -- The challenges that the root of the coefficients is followed by.
    unfoldable pub coeff_challenges : FsTranscript F → Digest → Option (E × E × FsTranscript F)
    unfolding challenge_ext
    coeff_challenges tr coeff_root = do
      rooted ← Transcript.absorb_bytes p.ground p.hashers tr (bytes coeff_root)
      (alpha, tr1) ← challenge_ext p rooted (text "alpha")
      (beta_deg, tr2) ← challenge_ext p tr1 (text "beta_deg")
      some (alpha, beta_deg, tr2)
