-- ===== src/Fri/Replay/Seeds.antt =====
-- The challenges of the verifier are those under which the proof was made.
use stark_stir_service.Common.{
  some_injective, ℕ, ◌-◌, ◌≡◌, refl, sym, ap, ◌∙◌, subst, ◌&&◌, not, Option, some, List, map,
  if◌then◌else◌, length, get_elem?, take, text, >>=-eq-some, ◌>>=◌,
}
use stark_stir_service.Hashing.{Hash}
use stark_stir_service.Transcript
use stark_stir_service.Transcript.{FsTranscript, new_matching_hash}
use stark_stir_service.Fri.{
  Platform, challenge_ext, absorb_exts, safe_field_challenge, transcript_challenge_hash,
}
use stark_stir_service.Fri.Commitments.{bind_statement_to_transcript, commit_f0, is_empty}
use stark_stir_service.Fri.Data.{FriDomain, FriProverState, DeepFriProof, DeepFriParams}
use stark_stir_service.Fri.Layers.{ext_evals_to_coeffs}
use stark_stir_service.Fri.Replay.{Shown, Challenges, replay_layers, replay}
use stark_stir_service.Fri.Replay.Agreement.Proofs.{prove_final-Agrees}
use stark_stir_service.Fri.Prover.{prove_rounds, fri_build_transcript}
use stark_stir_service.Fri.Prover.Queries.{shown_of, prover_params, prove_openings, deep_fri_prove}
use stark_stir_service.Fri.Verifier.{shown_by}

module _ {F E : Type 0} (p : Platform F E) ⦃H : Hash⦄ where
  open H use {Digest, bytes}

  -- The end of the replay.
  abbrev ending : E → List ℕ → List E → Option E → FsTranscript F → List E → Option (Challenges F E)
  ending z_ext trace_hash alpha_layers beta_deg tr coeffs = do
    ended ← absorb_exts p tr coeffs
    (query_seed, last) ← safe_field_challenge p ended (text "query_seed")
    some (record {
      z_ext = z_ext;
      trace_hash = trace_hash;
      alpha_layers = alpha_layers;
      beta_deg = beta_deg;
      query_seed = query_seed;
    })

  -- The challenges that the state holds.
  abbrev pub Holds : Challenges F E → E → List ℕ → List E → Option E → Type 0
  Holds c z_ext trace_hash alpha_layers beta_deg =
      (c.z_ext ≡ z_ext)
      × (c.trace_hash ≡ trace_hash)
      × (c.alpha_layers ≡ alpha_layers)
      × (c.beta_deg ≡ beta_deg)

  ending-Holds :
      (z_ext : E) (trace_hash : List ℕ) (alphas : List E) (beta : Option E) (tr : FsTranscript F)
      (coeffs : List E) (c : Challenges F E)
      → ending z_ext trace_hash alphas beta tr coeffs ≡ some c
      → Holds c z_ext trace_hash alphas beta
  ending-Holds z_ext trace_hash alphas beta tr coeffs c h =
      let (ended, e1, h1) = >>=-eq-some (absorb_exts p tr coeffs) _ h in
      let (drawn, e2, h2) = >>=-eq-some (safe_field_challenge p ended (text "query_seed")) _ h1 in
      subst (λ d. Holds d z_ext trace_hash alphas beta) (some_injective h2) (refl, refl, refl, refl)

  -- The parts of the replay, put together.
  replay-ending :
      (params : DeepFriParams) (shown : Shown E Digest) (bound rooted tr1 tr2 last : FsTranscript F)
      (z_ext : E) (trace_hash : List ℕ) (alphas : List E) (beta : Option E)
      → bind_statement_to_transcript p
          (new_matching_hash p.ground H.size (text "FRI/FS"))
          params.schedule
          shown.n0
          params.seed_z
          params.coeff_commit_final
          params.stir
          params.public_inputs_hash
        ≡ some bound
      → Transcript.absorb_bytes p.ground p.hashers bound (bytes shown.root_f0) ≡ some rooted
      → challenge_ext p rooted (text "z_fp3") ≡ some (z_ext, tr1)
      → transcript_challenge_hash p tr1 (text "FRI/seed") ≡ some (trace_hash, tr2)
      → replay_layers p
          (params.coeff_commit_final && not (is_empty params.schedule))
          params.stir
          (length params.schedule)
          shown
          tr2
        ≡ some (alphas, beta, last)
      → replay p params shown ≡ ending z_ext trace_hash alphas beta last shown.final_poly_coeffs
  unfolding replay
  replay-ending params shown bound rooted tr1 tr2 last z_ext trace_hash alphas beta e1 e2 e3 e4 e5 =
      rw (e1, e2, e3, e4, e5) refl

  build-Holds :
      (f0 : List F) (domain0 : FriDomain F) (params : DeepFriParams)
      (st : FriProverState F E Digest) (last : FsTranscript F) (coeffs : List E)
      (c : Challenges F E)
      → fri_build_transcript p f0 domain0 (prover_params p params) ≡ some (st, last)
      → replay p params (shown_of p st domain0.size coeffs) ≡ some c
      → Holds c st.z_ext st.trace_hash st.alpha_layers st.beta_deg
  unfolding fri_build_transcript prover_params shown_of
  build-Holds f0 domain0 params st last coeffs c built replayed =
      let commits = params.coeff_commit_final && not (is_empty params.schedule) in
      let layers =
        take (if commits then length params.schedule - 1 else length params.schedule)
          params.schedule in
      let start = new_matching_hash p.ground H.size (text "FRI/FS") in
      let (bound, e1, h1) =
        >>=-eq-some
          (bind_statement_to_transcript p start params.schedule domain0.size params.seed_z
            params.coeff_commit_final params.stir params.public_inputs_hash)
          _ built in
      let ((root_f0, f0_tree), e2, h2) =
        >>=-eq-some (commit_f0 p params.stir params.schedule f0 domain0.size) _ h1 in
      let (rooted, e3, h3) =
        >>=-eq-some (Transcript.absorb_bytes p.ground p.hashers bound (bytes root_f0)) _ h2 in
      let ((z_ext, tr1), e4, h4) = >>=-eq-some (challenge_ext p rooted (text "z_fp3")) _ h3 in
      let ((trace_hash, tr2), e5, h5) =
        >>=-eq-some (transcript_challenge_hash p tr1 (text "FRI/seed")) _ h4 in
      let ((rounds, tr3, z_current, cur_size, cur_f), e6, h6) =
        >>=-eq-some
          (prove_rounds p params.stir z_ext 0 layers domain0.size tr2 z_ext
            (map p.tower.from_fp f0))
          _ h5 in
      let (same_root, same_z, same_hash, same_layers) =
        prove_final-Agrees p commits f0 (prover_params p params) root_f0 z_ext trace_hash rounds
          domain0.size cur_size tr2 tr3 last z_current (map p.tower.from_fp f0) cur_f st
          domain0.size coeffs e6 h6 in
      let shown = shown_of p st domain0.size coeffs in
      let rooted_shown =
        ap (λ r. Transcript.absorb_bytes p.ground p.hashers bound (bytes r)) same_root ∙ e3 in
      let held = ending-Holds z_ext trace_hash st.alpha_layers st.beta_deg last coeffs c (
        sym (
          replay-ending params shown bound rooted tr1 tr2 last z_ext trace_hash st.alpha_layers
            st.beta_deg e1 rooted_shown e4 e5 same_layers)
        ∙ replayed) in
      (held.0 ∙ sym same_z, held.1 ∙ sym same_hash, held.2, held.3)

  -- When `deep_fri_prove` returns a proof, `deep_fri_verify` derives from the proof alone the
  -- challenges under which the prover made its layers: the point out of the domain, the trace hash,
  -- the folding challenges and the one of the degree check, in both modes, with or without committed
  -- coefficients.
  pub deep_fri_prove-replay :
      (f0 : List F) (domain0 : FriDomain F) (params : DeepFriParams)
      (proof : DeepFriProof F E Digest)
      → deep_fri_prove p f0 domain0 params ≡ some proof
      → (st : FriProverState F E Digest) × (tr : FsTranscript F) × (c : Challenges F E)
        × (fri_build_transcript p f0 domain0 (prover_params p params) ≡ some (st, tr))
        × (replay p params (shown_by p proof) ≡ some c)
        × Holds c st.z_ext st.trace_hash st.alpha_layers st.beta_deg
  unfolding deep_fri_prove shown_by shown_of
  deep_fri_prove-replay f0 domain0 params proof h =
      let ((st, tr), built, h1) =
        >>=-eq-some (fri_build_transcript p f0 domain0 (prover_params p params)) _ h in
      let (final_evals, e2, h2) =
        >>=-eq-some (get_elem? st.f_layers_ext (length params.schedule)) _ h1 in
      let (all_coeffs, e3, h3) = >>=-eq-some (ext_evals_to_coeffs p final_evals) _ h2 in
      let coeffs = take params.d_final all_coeffs in
      let (c, replayed, h4) =
        >>=-eq-some (replay p params (shown_of p st domain0.size coeffs)) _ h3 in
      let (opened, e5, h5) =
        >>=-eq-some (prove_openings p params.stir st params c.query_seed) _ h4 in
      (
        st,
        tr,
        c,
        built,
        subst (λ q. replay p params (shown_by p q) ≡ some c) (some_injective h5) replayed,
        build-Holds f0 domain0 params st tr coeffs c built replayed,
      )
