-- ===== src/Tests/Proofs.antt =====
-- A proof of a layer of two positions and one query, made and accepted.
use stark_stir_service.Common.{
  ℕ, ◌%◌, ◌≡◌, refl, false, none, some, [], ◌∷◌, ◌==◌, if◌then◌else◌, collect, map_all, checked_div,
  exact_div, to_le_bytes, from_le_bytes, trailing_zeros, is_power_of_two,
}
use stark_stir_service.Tower.{GroundField, ground_tower}
use stark_stir_service.Fri.{Platform}
use stark_stir_service.Fri.Data.{FriDomain, DeepFriProof, DeepFriParams}
use stark_stir_service.Fri.Prover.Queries.{deep_fri_prove}
use stark_stir_service.Merkle
use stark_stir_service.Merkle.{compress_node_standalone, level_tag}
use stark_stir_service.Transcript
use stark_stir_service.Transcript.{FsTranscript}
use stark_stir_service.Fri.Commitments.{is_empty}
use stark_stir_service.Fri.Data.{FriProverState}
use stark_stir_service.Fri.Replay.{Challenges, replay}
use stark_stir_service.Fri.Replay.Seeds.{deep_fri_prove-replay}
use stark_stir_service.Fri.Prover.{fri_build_transcript}
use stark_stir_service.Fri.Prover.Queries.{prover_params}
use stark_stir_service.Fri.Verifier.{shown_by}
use stark_stir_service.Tests.Commitments.{checksum, sum}
use stark_stir_service.Tests.Transcripts.{steady}
use stark_stir_service.Tests.Protocols.{trit_eq, trit_pow, transform, generator}
use stark_stir_service.Tests.Trits.{Trit, nil, unit, double, trits, trit_inverse, trit_word}

unfoldable from_remainder : ℕ → Trit
from_remainder n = if n % 3 == 0 then nil else (if n % 3 == 1 then unit else double)

abbrev field : GroundField Trit
field = record {
  ring = trits;
  inverse = trit_inverse;
  from_u64 = from_remainder;
  into_u64 = trit_word;
}

abbrev tiny : Platform Trit Trit
tiny = record {
  ground = field;
  tower = ground_tower field;
  eq_ground = trit_eq;
  eq = trit_eq;
  pow = trit_pow;
  group_gen = generator;
  ifft = transform;
  draw = λ seed k. 5;
  hashers = steady;
}

abbrev params : DeepFriParams
params = record {
  schedule = 2 ∷ [];
  r = 1;
  seed_z = 7;
  coeff_commit_final = false;
  d_final = 1;
  stir = false;
  s0 = 1;
  public_inputs_hash = none;
}

abbrev domain0 : FriDomain Trit
domain0 = record { omega = double; size = 2 }

abbrev proof : DeepFriProof Trit Trit ℕ
proof = record {
  root_f0 = 2816;
  roots = 2053 ∷ [];
  layer_proofs = record {
    layers =
        record { openings = record { leaf = 1026; path = (1024 ∷ []) ∷ []; index = 1 } ∷ [] } ∷ [];
  };
  f0_openings = record { leaf = 1280; path = (1278 ∷ []) ∷ []; index = 1 } ∷ [];
  queries =
      record {
        per_layer_refs = record { i = 1; child_pos = 1; parent_index = 0; parent_pos = 0 } ∷ [];
        per_layer_payloads = record { f_val = double; s_val = nil; q_val = unit } ∷ [];
        f0_opening = record { leaf = 1280; path = (1278 ∷ []) ∷ []; index = 1 };
        final_index = 0;
      }
      ∷ [];
  fz_per_layer = nil ∷ [];
  final_poly_coeffs = nil ∷ [];
  n0 = 2;
  omega0 = double;
  coeff_tuples = none;
  coeff_root = none;
  stir_coset_evals = none;
  stir_proximity_queries = none;
}

made : deep_fri_prove tiny (unit ∷ double ∷ []) domain0 params ≡ some proof
unfolding deep_fri_prove ground_tower trits trit_word trit_eq trit_pow transform trit_inverse
    from_remainder collect map_all checked_div exact_div to_le_bytes from_le_bytes trailing_zeros
    is_power_of_two sum Transcript.absorb_bytes Transcript.challenge_bytes Merkle.open_tree is_empty
    compress_node_standalone level_tag
made = refl

deep_fri_prove-replay_example :
    (st : FriProverState Trit Trit ℕ) × (tr : FsTranscript Trit) × (c : Challenges Trit Trit)
    × (fri_build_transcript tiny (unit ∷ double ∷ []) domain0 (prover_params tiny params)
        ≡ some (st, tr))
    × (replay tiny params (shown_by tiny proof) ≡ some c)
    × ((c.z_ext ≡ st.z_ext)
        × (c.trace_hash ≡ st.trace_hash)
        × (c.alpha_layers ≡ st.alpha_layers)
        × (c.beta_deg ≡ st.beta_deg))
deep_fri_prove-replay_example =
    deep_fri_prove-replay tiny (unit ∷ double ∷ []) domain0 params proof made
