-- ===== src/Tests/Stores.antt =====
-- A store whose serialisations are fixed strings, read back by comparison.
use stark_stir_service.Common.{
  ℕ, ◌≡◌, ◌↔◌, refl, true, false, none, some, [], ◌∷◌, Text, text, text_eq, if◌then◌else◌,
}
use stark_stir_service.ProofStore.{
  SerializedProof, SerializedParams, ProofMetadata, JsonProofBundle, ok, version_1, split_params,
  split_public_input, split_proof, from_split, reassembled,
}
use stark_stir_service.ProofStore.Split.{Agree, from_split-Agree, from_split-split}
use stark_stir_service.ProofStore.Disk.{
  Json, RoundTrips, System, ProofStore, new_store, save, get, split_paths, save_split,
  load_from_split,
}
use stark_stir_service.ProofStore.RoundTrip.{save-get, get-get}
use stark_stir_service.ProofStore.SplitFiles.{CanSaveSplit, save_split-load_from_split}

abbrev proof : SerializedProof
proof = record {
  root_f0 = text "0xdead";
  roots = text "0xbeef" ∷ [];
  layer_proofs = [];
  f0_openings = [];
  queries = [];
  fz_per_layer = [];
  final_poly_coeffs = [];
  n0 = 256;
  omega0 = text "0x1";
  coeff_tuples = none;
  coeff_root = none;
  stir_coset_evals = none;
  stir_proximity_queries = none;
  ext_degree = 6;
}

abbrev params : SerializedParams
params = record {
  schedule = 2 ∷ 2 ∷ 2 ∷ [];
  r = 54;
  seed_z = 42;
  coeff_commit_final = false;
  d_final = 1;
  stir = false;
  s0 = 54;
  n0 = 256;
  blowup = 4;
  air_type = text "fib_w2_d2";
  security_level = 128;
  public_inputs_hash = text "abc123";
  nist_level = some 1;
  quantum_budget_log2 = some 40;
  ext_degree = 6;
  hash_alg = text "SHA3-256";
}

abbrev metadata : ProofMetadata
metadata = record { prove_time_ms = 0; proof_size_bytes = 0; trace_width = 2; trace_length = 64 }

-- Public inputs are numbers here.
abbrev bundle : JsonProofBundle ℕ
bundle = record {
  version = version_1;
  proof_id = text "p1";
  created_at = 7;
  public_inputs = 5;
  proof = proof;
  params = params;
  metadata = metadata;
}

-- Every value gets the one text, which is read as the given value.
abbrev constant_json : {A : Type 0} → A → Text → Json A
constant_json a s = record {
  to_string_pretty = λ b. some s;
  from_str = λ t. if text_eq t s then some a else none;
}

abbrev system : System ℕ
system = record {
  bundle_json = constant_json bundle (text "{bundle}");
  params_json = constant_json (split_params bundle) (text "{params}");
  input_json = constant_json (split_public_input bundle) (text "{input}");
  proof_json = constant_json (split_proof bundle) (text "{proof}");
  writable = λ path. true;
  makes_parent = λ path. true;
}

abbrev store : ProofStore ℕ
store = new_store (text "/proofs") []

bundle-RoundTrips : RoundTrips system.bundle_json bundle (text "{bundle}")
unfolding RoundTrips text_eq
bundle-RoundTrips = (refl, refl)

save-get_example :
    (after : ProofStore ℕ) × (save system store bundle ≡ (after, ok (text "p1")))
    × (get system after (text "p1") ≡ (after, ok bundle))
    × ((get system (new_store after.store_dir after.files) (text "p1")).1 ≡ ok bundle)
save-get_example = save-get system store bundle (text "{bundle}") bundle-RoundTrips refl

get-get_example :
    ((get system store (text "p1")).0.files ≡ store.files)
    × ((get system (get system store (text "p1")).0 (text "p1")).1
        ≡ (get system store (text "p1")).1)
get-get_example = get-get system store (text "p1")

can_save : CanSaveSplit system bundle (text "out/p1.json")
unfolding CanSaveSplit RoundTrips text_eq
can_save = (
  (text "{params}", (refl, refl)),
  (text "{input}", (refl, refl)),
  (text "{proof}", (refl, refl)),
  refl,
  refl,
  refl,
  refl,
)

save_split-load_from_split_example :
    (after : ProofStore ℕ) × (save_split system store bundle (text "out/p1.json")
      ≡ (after, ok (split_paths (text "out/p1.json"))))
    × (load_from_split system after
          (split_paths (text "out/p1.json")).params
          (split_paths (text "out/p1.json")).public_input
          (split_paths (text "out/p1.json")).proof
        ≡ ok (record bundle { version = version_1 }))
save_split-load_from_split_example =
    save_split-load_from_split system store bundle (text "out/p1.json") can_save

from_split-Agree_example :
    (from_split (split_params bundle) (split_public_input bundle) (split_proof bundle)
      ≡ ok (reassembled (split_params bundle) (split_public_input bundle) (split_proof bundle)))
    ↔ Agree (split_params bundle) (split_public_input bundle) (split_proof bundle)
from_split-Agree_example =
    from_split-Agree (split_params bundle) (split_public_input bundle) (split_proof bundle)

from_split-split_example :
    from_split (split_params bundle) (split_public_input bundle) (split_proof bundle)
    ≡ ok (record bundle { version = version_1 })
from_split-split_example = from_split-split bundle
