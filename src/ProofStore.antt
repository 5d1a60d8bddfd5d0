-- ===== src/ProofStore.antt =====
-- crates/proof-store/src/lib.rs: proofs in their stored forms. A field element of an extension is a
-- list of hexadecimal words, a digest a hexadecimal string. `V` stands for `serde_json::Value`;
-- a timestamp is a number.
pub mod Disk
pub mod Compact
pub mod Split
pub mod RoundTrip
pub mod SplitFiles
use stark_stir_service.Common.{
  ℕ, Bool, true, false, not, ◌&&◌, ◌||◌, Option, none, some, List, [], ◌∷◌, ◌++◌, if◌then◌else◌,
  Text, text, text_eq,
}

pub record SerializedMerkleOpening : Type 0 where
  pub leaf : Text
  pub path : List (List Text)
  pub index : ℕ

pub record SerializedLayerQueryRef : Type 0 where
  pub i : ℕ
  pub child_pos : ℕ
  pub parent_index : ℕ
  pub parent_pos : ℕ

pub record SerializedLayerOpenPayload : Type 0 where
  pub f_val : List Text
  pub s_val : List Text
  pub q_val : List Text

pub record SerializedFriQuery : Type 0 where
  pub per_layer_refs : List SerializedLayerQueryRef
  pub per_layer_payloads : List SerializedLayerOpenPayload
  pub f0_opening : SerializedMerkleOpening
  pub final_index : ℕ

pub record SerializedStirProximityQuery : Type 0 where
  pub base_index : ℕ
  pub raw_query_index : ℕ
  pub fiber_indices : List ℕ
  pub fiber_f_vals : List Text
  pub f0_packed_opening : SerializedMerkleOpening
  pub f_next_val : List Text
  pub layer1_opening : Option SerializedMerkleOpening

pub record SerializedProof : Type 0 where
  pub root_f0 : Text
  pub roots : List Text
  pub layer_proofs : List (List SerializedMerkleOpening)
  pub f0_openings : List SerializedMerkleOpening
  pub queries : List SerializedFriQuery
  pub fz_per_layer : List (List Text)
  pub final_poly_coeffs : List (List Text)
  pub n0 : ℕ
  pub omega0 : Text
  pub coeff_tuples : Option (List (List (List Text)))
  pub coeff_root : Option Text
  pub stir_coset_evals : Option (List (List (List Text)))
  pub stir_proximity_queries : Option (List SerializedStirProximityQuery)
  pub ext_degree : ℕ

pub record SerializedParams : Type 0 where
  pub schedule : List ℕ
  pub r : ℕ
  pub seed_z : ℕ
  pub coeff_commit_final : Bool
  pub d_final : ℕ
  pub stir : Bool
  pub s0 : ℕ
  pub n0 : ℕ
  pub blowup : ℕ
  pub air_type : Text
  pub security_level : ℕ
  pub public_inputs_hash : Text
  pub nist_level : Option ℕ
  pub quantum_budget_log2 : Option ℕ
  pub ext_degree : ℕ
  pub hash_alg : Text

pub record ProofMetadata : Type 0 where
  pub prove_time_ms : ℕ
  pub proof_size_bytes : ℕ
  pub trace_width : ℕ
  pub trace_length : ℕ

pub record SplitParamsFile : Type 0 where
  pub format : Text
  pub created_at : ℕ
  pub proof_id : Text
  pub params : SerializedParams
  pub metadata : ProofMetadata

pub record SplitPublicInputFile (V : Type 0) : Type 0 where
  pub format : Text
  pub created_at : ℕ
  pub proof_id : Text
  pub public_inputs : V
  pub public_inputs_hash : Text

pub record SplitProofFile : Type 0 where
  pub format : Text
  pub created_at : ℕ
  pub proof_id : Text
  pub proof : SerializedProof
  pub public_inputs_hash : Text

pub record JsonProofBundle (V : Type 0) : Type 0 where
  pub version : Text
  pub proof_id : Text
  pub created_at : ℕ
  pub public_inputs : V
  pub proof : SerializedProof
  pub params : SerializedParams
  pub metadata : ProofMetadata

pub data StoreError : Type 0 where
  not_found invalid_id : Text → StoreError
  io json : StoreError

pub data StoreResult {ℓ} (A : Type ℓ) : Type ℓ where
  ok : A → StoreResult A
  err : StoreError → StoreResult A

abbrev pub version_1 : Text
version_1 = text "stark-stir-fips-v1"

unfoldable pub id_mismatch : Text → Text → Text → StoreError
id_mismatch p q r = invalid_id (
    text "proof_id mismatch across split files: params="
    ++ (p ++ (text ", public_input=" ++ (q ++ (text ", proof=" ++ r)))))

module _ {V : Type 0} where
  -- `JsonProofBundle::new`, with the fresh id and the time as arguments.
  unfoldable pub new_bundle :
      Text → ℕ → V → SerializedProof → SerializedParams → ProofMetadata → JsonProofBundle V
  new_bundle id now inputs proof params metadata = record {
    version = version_1;
    proof_id = id;
    created_at = now;
    public_inputs = inputs;
    proof = proof;
    params = params;
    metadata = metadata;
  }

  unfoldable pub split_params : JsonProofBundle V → SplitParamsFile
  split_params b = record {
    format = text "stark-stir-fips/params-v1";
    created_at = b.created_at;
    proof_id = b.proof_id;
    params = b.params;
    metadata = b.metadata;
  }

  unfoldable pub split_public_input : JsonProofBundle V → SplitPublicInputFile V
  split_public_input b = record {
    format = text "stark-stir-fips/public-input-v1";
    created_at = b.created_at;
    proof_id = b.proof_id;
    public_inputs = b.public_inputs;
    public_inputs_hash = b.params.public_inputs_hash;
  }

  unfoldable pub split_proof : JsonProofBundle V → SplitProofFile
  split_proof b = record {
    format = text "stark-stir-fips/proof-v1";
    created_at = b.created_at;
    proof_id = b.proof_id;
    proof = b.proof;
    public_inputs_hash = b.params.public_inputs_hash;
  }

  unfoldable pub split :
      JsonProofBundle V → SplitParamsFile × SplitPublicInputFile V × SplitProofFile
  unfolding split_params split_public_input split_proof
  split b = (split_params b, split_public_input b, split_proof b)

  unfoldable pub reassembled :
      SplitParamsFile → SplitPublicInputFile V → SplitProofFile → JsonProofBundle V
  reassembled params input proof = record {
    version = version_1;
    proof_id = params.proof_id;
    created_at = params.created_at;
    public_inputs = input.public_inputs;
    proof = proof.proof;
    params = params.params;
    metadata = params.metadata;
  }

  unfoldable pub from_split :
      SplitParamsFile → SplitPublicInputFile V → SplitProofFile → StoreResult (JsonProofBundle V)
  unfolding text_eq reassembled id_mismatch
  from_split params input proof =
      let pih = params.params.public_inputs_hash in
      if not (text_eq params.proof_id input.proof_id)
        || not (text_eq params.proof_id proof.proof_id)
      then err (id_mismatch params.proof_id input.proof_id proof.proof_id)
      else (if not (text_eq pih input.public_inputs_hash)
            || not (text_eq pih proof.public_inputs_hash)
          then err (invalid_id (text "public_inputs_hash mismatch across split files"))
          else ok (reassembled params input proof))
