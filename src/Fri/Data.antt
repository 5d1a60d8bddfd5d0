-- ===== src/Fri/Data.antt =====
-- crates/deep_ali/src/fri.rs: the structs of the protocol, over the ground field F, its extension E
-- and
-- digests D, and the builder of the parameters.
use stark_stir_service.Common.{ℕ, Bool, true, false, Option, none, List}
use stark_stir_service.Merkle.{MerkleOpening}

pub record FriDomain (F : Type 0) : Type 0 where
  pub omega : F
  pub size : ℕ

pub record FriLayerCommitment (D : Type 0) : Type 0 where
  pub n : ℕ
  pub m : ℕ
  pub root : D

pub record FriTranscript (D : Type 0) : Type 0 where
  pub schedule : List ℕ
  pub layers : List (FriLayerCommitment D)

pub record FriProverParams : Type 0 where
  pub schedule : List ℕ
  pub seed_z : ℕ
  pub coeff_commit_final : Bool
  pub d_final : ℕ
  pub stir : Bool
  pub public_inputs_hash : Option (List ℕ)

pub record FriProverState (F E D : Type 0) : Type 0 where
  pub f0_base : List F
  pub f_layers_ext : List (List E)
  pub s_layers : List (List E)
  pub q_layers : List (List E)
  pub fz_layers : List E
  pub transcript : FriTranscript D
  pub omega_layers : List F
  pub z_ext : E
  pub alpha_layers : List E
  pub root_f0 : D
  pub trace_hash : List ℕ
  pub seed_z : ℕ
  pub coeff_tuples : Option (List (List E))
  pub coeff_root : Option D
  pub beta_deg : Option E
  pub coeff_commit_final : Bool
  pub d_final : ℕ
  pub stir_coset_evals : Option (List (List E))
  pub stir_z_per_layer : Option (List E)
  pub stir_interp_coeffs : Option (List (List E))
  pub stir : Bool

pub record LayerQueryRef : Type 0 where
  pub i : ℕ
  pub child_pos : ℕ
  pub parent_index : ℕ
  pub parent_pos : ℕ

pub record FriQueryOpenings : Type 0 where
  pub per_layer_refs : List LayerQueryRef
  pub final_index : ℕ

pub record LayerOpenPayload (E : Type 0) : Type 0 where
  pub f_val : E
  pub s_val : E
  pub q_val : E

pub record FriQueryPayload (E D : Type 0) : Type 0 where
  pub per_layer_refs : List LayerQueryRef
  pub per_layer_payloads : List (LayerOpenPayload E)
  pub f0_opening : MerkleOpening D
  pub final_index : ℕ

pub record StirProximityPayload (F E D : Type 0) : Type 0 where
  pub base_index : ℕ
  pub raw_query_index : ℕ
  pub fiber_indices : List ℕ
  pub fiber_f_vals : List F
  pub f0_packed_opening : MerkleOpening D
  pub f_next_val : E
  pub layer1_opening : Option (MerkleOpening D)

pub record LayerProof (D : Type 0) : Type 0 where
  pub openings : List (MerkleOpening D)

pub record FriLayerProofs (D : Type 0) : Type 0 where
  pub layers : List (LayerProof D)

pub record DeepFriProof (F E D : Type 0) : Type 0 where
  pub root_f0 : D
  pub roots : List D
  pub layer_proofs : FriLayerProofs D
  pub f0_openings : List (MerkleOpening D)
  pub queries : List (FriQueryPayload E D)
  pub fz_per_layer : List E
  pub final_poly_coeffs : List E
  pub n0 : ℕ
  pub omega0 : F
  pub coeff_tuples : Option (List (List E))
  pub coeff_root : Option D
  pub stir_coset_evals : Option (List (List E))
  pub stir_proximity_queries : Option (List (StirProximityPayload F E D))

pub record DeepFriParams : Type 0 where
  pub schedule : List ℕ
  pub r : ℕ
  pub seed_z : ℕ
  pub coeff_commit_final : Bool
  pub d_final : ℕ
  pub stir : Bool
  pub s0 : ℕ
  pub public_inputs_hash : Option (List ℕ)

-- `DeepFriParams::new`.
unfoldable pub new_params : List ℕ → ℕ → ℕ → DeepFriParams
new_params schedule r seed_z = record {
  schedule = schedule;
  r = r;
  seed_z = seed_z;
  coeff_commit_final = false;
  d_final = 1;
  stir = false;
  s0 = r;
  public_inputs_hash = none;
}

unfoldable pub with_coeff_commit : DeepFriParams → DeepFriParams
with_coeff_commit params = record params { coeff_commit_final = true }

unfoldable pub with_d_final : DeepFriParams → ℕ → DeepFriParams
with_d_final params d = record params { d_final = d }

unfoldable pub with_stir : DeepFriParams → DeepFriParams
with_stir params = record params { stir = true }

unfoldable pub with_s0 : DeepFriParams → ℕ → DeepFriParams
with_s0 params s0 = record params { s0 = s0 }
