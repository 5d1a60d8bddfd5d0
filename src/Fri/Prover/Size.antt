-- ===== src/Fri/Prover/Size.antt =====
-- crates/deep_ali/src/fri.rs: `deep_fri_proof_size_bytes`.
use stark_stir_service.Common.{ℕ, ◌+◌, ◌*◌, Bool, true, false, none, some, List, [], ◌∷◌, length}
use stark_stir_service.Hashing.{Hash}
use stark_stir_service.Merkle.{MerkleOpening}
use stark_stir_service.Fri.{Platform}
use stark_stir_service.Fri.Data.{StirProximityPayload, DeepFriProof}

-- `opening.path` in digests.
unfoldable pub path_len : {D : Type 0} → List (List D) → ℕ
path_len [] = 0
path_len (level ∷ path) = length level + path_len path

unfoldable pub sum_with : {A : Type 0} → (A → ℕ) → List A → ℕ
sum_with f [] = 0
sum_with f (x ∷ xs) = f x + sum_with f xs

module _ {F E : Type 0} (p : Platform F E) ⦃H : Hash⦄ where
  open H use {Digest}

  -- `HASH_BYTES` for the leaf and for each digest of the path.
  unfoldable pub opening_bytes : MerkleOpening Digest → ℕ
  unfolding path_len
  opening_bytes o = H.size + path_len o.path * H.size

  unfoldable pub proximity_bytes : ℕ → StirProximityPayload F E Digest → ℕ
  unfolding opening_bytes
  proximity_bytes ext_bytes pq =
      length pq.fiber_f_vals * 8
      + ext_bytes
      + opening_bytes pq.f0_packed_opening
      + elim pq.layer1_opening [ none ↦ 0 | some l1_open ↦ opening_bytes l1_open ]

  -- The part of the size that depends on the mode.
  unfoldable pub mode_bytes : Bool → ℕ → DeepFriProof F E Digest → ℕ
  unfolding proximity_bytes opening_bytes sum_with
  mode_bytes true ext_bytes proof =
      elim proof.stir_coset_evals [
        | none ↦ 0
        | some stir_evals ↦ sum_with (λ layer_evals. length layer_evals * ext_bytes) stir_evals
      ]
      + elim proof.stir_proximity_queries [
        | none ↦ 0
        | some prox ↦ sum_with (proximity_bytes ext_bytes) prox
      ]
  mode_bytes false ext_bytes proof =
      length proof.fz_per_layer * ext_bytes
      + sum_with (λ q. length q.per_layer_payloads * 3 * ext_bytes) proof.queries
      + sum_with opening_bytes proof.f0_openings
      + sum_with (λ layer. sum_with opening_bytes layer.openings) proof.layer_proofs.layers

  unfoldable pub deep_fri_proof_size_bytes : DeepFriProof F E Digest → Bool → ℕ
  unfolding mode_bytes sum_with
  deep_fri_proof_size_bytes proof stir =
      let ext_bytes = p.tower.degree * 8 in
      H.size
      + length proof.roots * H.size
      + length proof.final_poly_coeffs * ext_bytes
      + mode_bytes stir ext_bytes proof
      + elim proof.coeff_tuples [
        | none ↦ 0
        | some tuples ↦ sum_with (λ t. length t * ext_bytes) tuples
      ]
      + elim proof.coeff_root [ none ↦ 0 | some root ↦ H.size ]
