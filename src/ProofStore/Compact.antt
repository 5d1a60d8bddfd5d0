-- ===== src/ProofStore/Compact.antt =====
-- crates/proof-store/src/lib.rs: the binary form of a proof, whose size the benchmarks report.
-- `hex_decode` stands for `hex::decode`.
use mathlib.Core.Option
use stark_stir_service.Common.{
  ℕ, ◌+◌, ◌-◌, ◌*◌, ◌^◌, ◌&&◌, Option, none, some, List, [], ◌∷◌, map, ltb, leb, ◌==◌,
  if◌then◌else◌, Text, text, ◌>>=◌,
}
use stark_stir_service.ProofStore.{
  SerializedMerkleOpening, SerializedLayerQueryRef, SerializedLayerOpenPayload, SerializedFriQuery,
  SerializedStirProximityQuery, SerializedProof,
}
use stark_stir_service.ProofStore.Disk.{trim_start_matches}

pub record SerializedMerkleOpeningBytes : Type 0 where
  pub leaf : List ℕ
  pub path : List (List (List ℕ))
  pub index : ℕ

pub record SerializedLayerOpenPayloadBytes : Type 0 where
  pub f_val : List ℕ
  pub s_val : List ℕ
  pub q_val : List ℕ

pub record SerializedFriQueryBytes : Type 0 where
  pub per_layer_refs : List SerializedLayerQueryRef
  pub per_layer_payloads : List SerializedLayerOpenPayloadBytes
  pub f0_opening : SerializedMerkleOpeningBytes
  pub final_index : ℕ

pub record SerializedStirProximityQueryBytes : Type 0 where
  pub base_index : ℕ
  pub raw_query_index : ℕ
  pub fiber_indices : List ℕ
  pub fiber_f_vals : List ℕ
  pub f0_packed_opening : SerializedMerkleOpeningBytes
  pub f_next_val : List ℕ
  pub layer1_opening : Option SerializedMerkleOpeningBytes

pub record SerializedProofBytes : Type 0 where
  pub root_f0 : List ℕ
  pub roots : List (List ℕ)
  pub layer_proofs : List (List SerializedMerkleOpeningBytes)
  pub f0_openings : List SerializedMerkleOpeningBytes
  pub queries : List SerializedFriQueryBytes
  pub fz_per_layer : List (List ℕ)
  pub final_poly_coeffs : List (List ℕ)
  pub n0 : ℕ
  pub omega0 : ℕ
  pub coeff_tuples : Option (List (List (List ℕ)))
  pub coeff_root : Option (List ℕ)
  pub stir_coset_evals : Option (List (List (List ℕ)))
  pub stir_proximity_queries : Option (List SerializedStirProximityQueryBytes)
  pub ext_degree : ℕ

-- `char::to_digit(16)`.
unfoldable pub hex_digit : ℕ → Option ℕ
hex_digit c =
    if leb 48 c && leb c 57
    then some (c - 48)
    else (if leb 97 c && leb c 102
        then some (c - 87)
        else (if leb 65 c && leb c 70 then some (c - 55) else none))

-- `u64::from_str_radix(_, 16)`: a digit at a time, `none` at a character that is no digit and when
-- the number outgrows 64 bits.
unfoldable pub hex_digits : ℕ → Text → Option ℕ
unfolding hex_digit
hex_digits acc [] = some acc
hex_digits acc (c ∷ cs) =
    let next : Option ℕ = (do
      d ← hex_digit c
      if ltb (acc * 16 + d) (2 ^ 64) then some (acc * 16 + d) else none) in
    elim next [ none ↦ none | some n ↦ hex_digits n cs ]

-- A sign is accepted before at least one digit.
unfoldable pub from_str_radix_16 : Text → Option ℕ
unfolding hex_digits
from_str_radix_16 [] = none
from_str_radix_16 (c ∷ []) = hex_digits 0 (c ∷ [])
from_str_radix_16 (c ∷ d ∷ cs) =
    if c == 43 then hex_digits 0 (d ∷ cs) else hex_digits 0 (c ∷ d ∷ cs)

unfoldable pub hex_to_u64 : Text → ℕ
unfolding from_str_radix_16 trim_start_matches
hex_to_u64 s = elim (from_str_radix_16 (trim_start_matches (text "0x") s)) [ none ↦ 0 | some n ↦ n ]

module _ (hex_decode : Text → Option (List ℕ)) where
  unfoldable pub hex_to_bytes : Text → List ℕ
  unfolding trim_start_matches
  hex_to_bytes s = elim (hex_decode (trim_start_matches (text "0x") s)) [
    | none ↦ []
    | some bytes ↦ bytes
  ]

  unfoldable pub opening_to_bytes : SerializedMerkleOpening → SerializedMerkleOpeningBytes
  unfolding hex_to_bytes
  opening_to_bytes o = record {
    leaf = hex_to_bytes o.leaf;
    path = map (map hex_to_bytes) o.path;
    index = o.index;
  }

  unfoldable pub payload_to_bytes : SerializedLayerOpenPayload → SerializedLayerOpenPayloadBytes
  unfolding hex_to_u64
  payload_to_bytes p = record {
    f_val = map hex_to_u64 p.f_val;
    s_val = map hex_to_u64 p.s_val;
    q_val = map hex_to_u64 p.q_val;
  }

  unfoldable pub query_to_bytes : SerializedFriQuery → SerializedFriQueryBytes
  unfolding opening_to_bytes payload_to_bytes
  query_to_bytes q = record {
    per_layer_refs = q.per_layer_refs;
    per_layer_payloads = map payload_to_bytes q.per_layer_payloads;
    f0_opening = opening_to_bytes q.f0_opening;
    final_index = q.final_index;
  }

  unfoldable pub stir_query_to_bytes :
      SerializedStirProximityQuery → SerializedStirProximityQueryBytes
  unfolding opening_to_bytes hex_to_u64
  stir_query_to_bytes q = record {
    base_index = q.base_index;
    raw_query_index = q.raw_query_index;
    fiber_indices = q.fiber_indices;
    fiber_f_vals = map hex_to_u64 q.fiber_f_vals;
    f0_packed_opening = opening_to_bytes q.f0_packed_opening;
    f_next_val = map hex_to_u64 q.f_next_val;
    layer1_opening = Option.map opening_to_bytes q.layer1_opening;
  }

  -- `SerializedProofBytes::from`.
  unfoldable pub proof_to_bytes : SerializedProof → SerializedProofBytes
  unfolding hex_to_bytes hex_to_u64 opening_to_bytes query_to_bytes stir_query_to_bytes
  proof_to_bytes p = record {
    root_f0 = hex_to_bytes p.root_f0;
    roots = map hex_to_bytes p.roots;
    layer_proofs = map (map opening_to_bytes) p.layer_proofs;
    f0_openings = map opening_to_bytes p.f0_openings;
    queries = map query_to_bytes p.queries;
    fz_per_layer = map (map hex_to_u64) p.fz_per_layer;
    final_poly_coeffs = map (map hex_to_u64) p.final_poly_coeffs;
    n0 = p.n0;
    omega0 = hex_to_u64 p.omega0;
    coeff_tuples = Option.map (map (map (map hex_to_u64))) p.coeff_tuples;
    coeff_root = Option.map hex_to_bytes p.coeff_root;
    stir_coset_evals = Option.map (map (map (map hex_to_u64))) p.stir_coset_evals;
    stir_proximity_queries = Option.map (map stir_query_to_bytes) p.stir_proximity_queries;
    ext_degree = p.ext_degree;
  }
