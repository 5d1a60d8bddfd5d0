-- ===== src/Fri/Verifier.antt =====
-- crates/deep_ali/src/fri.rs: `deep_fri_verify`. `some false` is a rejection.
pub mod Classic
pub mod Stir
pub mod Verify
pub mod Accepted
use stark_stir_service.Common.{
  ℕ, zero, suc, ◌+◌, ◌-◌, ◌*◌, ◌%◌, Bool, true, false, ◌&&◌, not, Option, none, some, List, [], ◌∷◌,
  ◌++◌, map, ◌==◌, ltb, if◌then◌else◌, length, get_elem?, take, collect, map_all, checked_div,
  ◌>>=◌,
}
use stark_stir_service.Hashing.{Hash}
use stark_stir_service.Merkle.{MerkleChannelCfg, MerkleOpening, verify_opening, compute_leaf_hash}
use stark_stir_service.Fri.{Platform, build_ext_pows, ext_pow}
use stark_stir_service.Fri.Sizes.{layer_sizes_from_schedule, coeff_tree_config}
use stark_stir_service.Fri.Layers.{eval_final_poly_ext}
use stark_stir_service.Fri.Interpolate.{interpolate_stir_coset, dot_first, batched_degree_check_ext}
use stark_stir_service.Fri.Data.{DeepFriProof, DeepFriParams}
use stark_stir_service.Fri.Commitments.{row, coeff_leaf_fields, commit_rows, is_empty}
use stark_stir_service.Fri.Replay.{Shown, Challenges, replay}

-- A check that ends the verification, or lets it go on.
unfoldable pub require : Bool → Option Bool → Option Bool
require true rest = rest
require false rest = some false

-- A part of the verification, and the rest.
unfoldable pub and_then : Option Bool → Option Bool → Option Bool
unfolding require
and_then part rest = do ok ← part; require ok rest

-- What the checks of the queries are made against.
pub record Derived (F E : Type 0) : Type 0 where
  pub sizes : List ℕ
  pub challenges : Challenges F E
  pub omega_per_layer : List F
  pub omega_final : F

module _ {F E : Type 0} (p : Platform F E) ⦃H : Hash⦄ where
  open H use {Digest}

  unfoldable pub shown_by : DeepFriProof F E Digest → Shown E Digest
  shown_by proof = record {
    n0 = proof.n0;
    root_f0 = proof.root_f0;
    stir_coset_evals = proof.stir_coset_evals;
    fz_per_layer = proof.fz_per_layer;
    roots = proof.roots;
    coeff_root = proof.coeff_root;
    final_poly_coeffs = proof.final_poly_coeffs;
  }

  -- The opening hashes to the root, and its leaf is the hash of the row at its index.
  unfoldable pub check_leaf :
      MerkleChannelCfg → MerkleOpening Digest → List F → Option Bool → Option Bool
  unfolding require row
  check_leaf cfg opening fields rest = do
    expected_leaf ← compute_leaf_hash cfg opening.index (row p fields)
    require (H.beq expected_leaf opening.leaf) rest

  -- The interpolations of the cosets out of the domain, from layer ell on.
  unfoldable pub stir_interps :
      DeepFriProof F E Digest → List ℕ → ℕ → List ℕ → E → Option (List (List E))
  unfolding interpolate_stir_coset ext_pow
  stir_interps proof sizes ell [] z_current = some []
  stir_interps proof sizes ell (m ∷ schedule) z_current = do
    stir_coset_evals ← proof.stir_coset_evals
    coset_evals ← get_elem? stir_coset_evals ell
    n_ell ← get_elem? sizes ell
    n_next ← checked_div n_ell m
    omega_ell ← p.group_gen n_ell
    interp ← interpolate_stir_coset p coset_evals z_current (p.pow omega_ell n_next) m
    rest ← stir_interps proof sizes (ell + 1) schedule (ext_pow p z_current m)
    some (interp ∷ rest)

  -- `z_final`.
  unfoldable pub fold_point : E → List ℕ → E
  unfolding ext_pow
  fold_point z [] = z
  fold_point z (m ∷ schedule) = fold_point (ext_pow p z m) schedule

  -- The fold of each coset out of the domain is the first value of the next.
  unfoldable pub check_ood :
      DeepFriProof F E Digest
      → DeepFriParams
      → Challenges F E
      → List (List E)
      → ℕ
      → List ℕ
      → Option Bool
  unfolding build_ext_pows dot_first eval_final_poly_ext fold_point require
  check_ood proof params c interps ell [] = some true
  check_ood proof params c interps ell (m ∷ schedule) = do
    alpha_ell ← get_elem? c.alpha_layers ell
    interp ← get_elem? interps ell
    fold_at_ood ← dot_first p interp (build_ext_pows p alpha_ell m) m
    expected ← elim schedule [
      | [] ↦
          some (eval_final_poly_ext p proof.final_poly_coeffs (fold_point c.z_ext params.schedule))
      | next ∷ later ↦ (do
        stir_coset_evals ← proof.stir_coset_evals
        coset_evals ← get_elem? stir_coset_evals (ell + 1)
        get_elem? coset_evals 0)
    ]
    require (p.eq fold_at_ood expected) (check_ood proof params c interps (ell + 1) schedule)

  -- Every tuple has the width of a coset.
  unfoldable pub widths_are : ℕ → List (List E) → Bool
  widths_are m_final [] = true
  widths_are m_final (t ∷ tuples) = (length t == m_final) && widths_are m_final tuples

  unfoldable pub check_coeffs :
      Bool → DeepFriProof F E Digest → DeepFriParams → List ℕ → Challenges F E → Option Bool
  unfolding require widths_are coeff_tree_config commit_rows row coeff_leaf_fields
      batched_degree_check_ext
  check_coeffs false proof params sizes c = some true
  check_coeffs true proof params sizes c = elim proof.coeff_tuples [
    | none ↦ some false
    | some coeff_tuples ↦ (do
      n_final ← get_elem? sizes (length params.schedule)
      m_final ← get_elem? params.schedule (length params.schedule - 1)
      require (length coeff_tuples == n_final) (
          require (widths_are m_final coeff_tuples) (do
            cfg ← coeff_tree_config n_final
            (recomputed_root, tree) ←
                commit_rows p cfg (map (λ t. row p (coeff_leaf_fields p t)) coeff_tuples)
            coeff_root ← proof.coeff_root
            require (H.beq recomputed_root coeff_root) (do
              beta ← c.beta_deg
              batched_degree_check_ext p coeff_tuples beta params.d_final))))
  ]

  -- The generators of the layers' domains.
  unfoldable pub derive : DeepFriParams → List ℕ → Challenges F E → Option (Derived F E)
  derive params sizes c = do
    omega_per_layer ← map_all p.group_gen (take (length params.schedule) sizes)
    last ← get_elem? sizes (length params.schedule)
    omega_final ← if ltb last 2 then some p.ground.ring.one else p.group_gen last
    some (record {
      sizes = sizes;
      challenges = c;
      omega_per_layer = omega_per_layer;
      omega_final = omega_final;
    })
