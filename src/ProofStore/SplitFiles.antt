-- ===== src/ProofStore/SplitFiles.antt =====
-- The three files of `save_split` are put together again by `load_from_split`.
use stark_stir_service.Common.{◌≡◌, ap, ◌∙◌, true, false, some, Text, text, text_eq}
use stark_stir_service.ProofStore.{
  JsonProofBundle, ok, version_1, split_params, split_public_input, split_proof,
}
use stark_stir_service.ProofStore.Split.{from_split-split}
use stark_stir_service.ProofStore.Disk.{
  RoundTrips, System, ProofStore, lookup, remember, put_file, remember_after, split_paths,
  write_next, save_split, read_json, load_from_split, from_results, trim_end_matches,
}
use stark_stir_service.ProofStore.RoundTrip.{
  lookup-head, lookup-other, text_eq-append, write_json-ok, read_json-head,
}

-- The three paths differ.
input-params :
    (stem : Text) → text_eq (split_paths stem).params (split_paths stem).public_input ≡ false
unfolding split_paths text_eq
input-params stem =
    text_eq-append (trim_end_matches (text ".json") stem) (text ".params.json")
      (text ".public_input.json")

params-proof : (stem : Text) → text_eq (split_paths stem).params (split_paths stem).proof ≡ false
unfolding split_paths text_eq
params-proof stem =
    text_eq-append (trim_end_matches (text ".json") stem) (text ".params.json") (text ".proof.json")

input-proof :
    (stem : Text) → text_eq (split_paths stem).public_input (split_paths stem).proof ≡ false
unfolding split_paths text_eq
input-proof stem =
    text_eq-append (trim_end_matches (text ".json") stem) (text ".public_input.json")
      (text ".proof.json")

-- The three files are serialised, to texts that are read back, and may be written.
unfoldable pub CanSaveSplit : {V : Type 0} → System V → JsonProofBundle V → Text → Type 0
CanSaveSplit sys b stem =
    let paths = split_paths stem in
    ((c : Text) × RoundTrips sys.params_json (split_params b) c)
    × ((c : Text) × RoundTrips sys.input_json (split_public_input b) c)
    × ((c : Text) × RoundTrips sys.proof_json (split_proof b) c)
    × (sys.makes_parent stem ≡ true)
    × (sys.writable paths.params ≡ true)
    × (sys.writable paths.public_input ≡ true)
    × (sys.writable paths.proof ≡ true)

module _ {V : Type 0} (sys : System V) where
  -- When the three files are serialised to texts that are read back, and may be written,
  -- `save_split` returns their paths, and `load_from_split` at these paths returns the bundle, with
  -- the current version.
  pub save_split-load_from_split :
      (s : ProofStore V) (b : JsonProofBundle V) (stem : Text)
      → CanSaveSplit sys b stem
      → (after : ProofStore V) × (save_split sys s b stem ≡ (after, ok (split_paths stem)))
        × (load_from_split sys after
              (split_paths stem).params
              (split_paths stem).public_input
              (split_paths stem).proof
            ≡ ok (record b { version = version_1 }))
  unfolding CanSaveSplit RoundTrips save_split write_next remember_after remember put_file
      load_from_split from_results
  save_split-load_from_split s b stem can =
      let ((c1, (w1, p1)), (c2, (w2, p2)), (c3, (w3, p3)), parent, a1, a2, a3) = can in
      let paths = split_paths stem in
      let s1 = put_file s paths.params c1 in
      let s2 = put_file s1 paths.public_input c2 in
      let s3 = put_file s2 paths.proof c3 in
      let after = remember s3 b.proof_id b in
      let first = write_json-ok sys sys.params_json s (split_params b) paths.params c1 w1 a1 in
      let second =
        ap (write_next sys sys.input_json (split_public_input b) paths.public_input) first
        ∙ write_json-ok sys sys.input_json s1 (split_public_input b) paths.public_input c2 w2 a2 in
      let third =
        ap (write_next sys sys.proof_json (split_proof b) paths.proof) second
        ∙ write_json-ok sys sys.proof_json s2 (split_proof b) paths.proof c3 w3 a3 in
      let f1 : lookup paths.params after.files ≡ some c1 =
        lookup-other paths.params paths.proof c3 s2.files (params-proof stem)
        ∙ lookup-other paths.params paths.public_input c2 s1.files (input-params stem)
        ∙ lookup-head paths.params c1 s.files in
      let f2 : lookup paths.public_input after.files ≡ some c2 =
        lookup-other paths.public_input paths.proof c3 s2.files (input-proof stem)
        ∙ lookup-head paths.public_input c2 s1.files in
      let r1 = read_json-head sys sys.params_json after (split_params b) paths.params c1 p1 f1 in
      let r2 =
        read_json-head sys sys.input_json after (split_public_input b) paths.public_input c2 p2
          f2 in
      let r3 =
        read_json-head sys sys.proof_json after (split_proof b) paths.proof c3 p3
          (lookup-head paths.proof c3 s2.files) in
      (
        after,
        rw parent (ap (remember_after b paths) third),
        ap
              (λ r.
                from_results r (read_json sys.input_json after paths.public_input)
                  (read_json sys.proof_json after paths.proof))
              r1
            ∙ ap
                (λ r.
                  from_results (ok (split_params b)) r (read_json sys.proof_json after paths.proof))
                r2
            ∙ ap (from_results (ok (split_params b)) (ok (split_public_input b))) r3
            ∙ from_split-split b,
      )
