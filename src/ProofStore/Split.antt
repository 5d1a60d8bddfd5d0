-- ===== src/ProofStore/Split.antt =====
-- `split` and `from_split`.
use stark_stir_service.Common.{◌≡◌, refl, ◌↔◌, text_eq_iff, text_eq_refl, arith}
use stark_stir_service.ProofStore.{
  SplitParamsFile, SplitPublicInputFile, SplitProofFile, JsonProofBundle, ok, version_1,
  split_params, split_public_input, split_proof, reassembled, from_split,
}

module _ {V : Type 0} where
  -- What the three files share.
  unfoldable pub Agree : SplitParamsFile → SplitPublicInputFile V → SplitProofFile → Type 0
  Agree p q r =
      (p.proof_id ≡ q.proof_id)
      × (p.proof_id ≡ r.proof_id)
      × (p.params.public_inputs_hash ≡ q.public_inputs_hash)
      × (p.params.public_inputs_hash ≡ r.public_inputs_hash)

  -- Three files are put together exactly when they agree on the proof's id and on the hash of
  -- the public inputs.
  pub from_split-Agree :
      (p : SplitParamsFile) (q : SplitPublicInputFile V) (r : SplitProofFile)
      → (from_split p q r ≡ ok (reassembled p q r)) ↔ Agree p q r
  unfolding from_split Agree
  from_split-Agree p q r =
      let same_input = text_eq_iff p.proof_id q.proof_id in
      let same_proof = text_eq_iff p.proof_id r.proof_id in
      let hash_input = text_eq_iff p.params.public_inputs_hash q.public_inputs_hash in
      let hash_proof = text_eq_iff p.params.public_inputs_hash r.public_inputs_hash in
      (
        λ e. ground arith,
        λ (e1, e2, h1, h2).
            rw (same_input.1 e1, same_proof.1 e2, hash_input.1 h1, hash_proof.1 h2) refl,
      )

  -- A bundle that is split comes back as it was, but for the version, which is the current one.
  pub from_split-split :
      (b : JsonProofBundle V)
      → from_split (split_params b) (split_public_input b) (split_proof b)
        ≡ ok (record b { version = version_1 })
  unfolding from_split split_params split_public_input split_proof reassembled
  from_split-split b = rw (text_eq_refl b.proof_id, text_eq_refl b.params.public_inputs_hash) refl
