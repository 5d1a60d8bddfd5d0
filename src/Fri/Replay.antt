-- ===== src/Fri/Replay.antt =====
-- crates/deep_ali/src/fri.rs: the transcript of a proof once more, as `deep_fri_prove` derives the
-- seed of
-- its queries and `deep_fri_verify` all its challenges.
pub mod Agreement
pub mod Seeds
use stark_stir_service.Common.{
  ℕ, zero, suc, ◌+◌, ◌-◌, Bool, true, false, ◌&&◌, not, Option, none, some, List, [], ◌∷◌, ◌++◌,
  if◌then◌else◌, length, get_elem?, text, ◌>>=◌,
}
use stark_stir_service.Hashing.{Hash}
use stark_stir_service.Transcript
use stark_stir_service.Transcript.{FsTranscript, new_matching_hash}
use stark_stir_service.Fri.{
  Platform, challenge_ext, absorb_ext, absorb_exts, safe_field_challenge, transcript_challenge_hash,
}
use stark_stir_service.Fri.Commitments.{
  bind_statement_to_transcript, is_empty, absorb_layer, coeff_challenges,
}
use stark_stir_service.Fri.Data.{DeepFriParams}

-- What a proof shows of its layers, and what the replay reads of it.
pub record Shown (E D : Type 0) : Type 0 where
  pub n0 : ℕ
  pub root_f0 : D
  pub stir_coset_evals : Option (List (List E))
  pub fz_per_layer : List E
  pub roots : List D
  pub coeff_root : Option D
  pub final_poly_coeffs : List E

pub record Challenges (F E : Type 0) : Type 0 where
  pub z_ext : E
  pub trace_hash : List ℕ
  pub alpha_layers : List E
  pub beta_deg : Option E
  pub query_seed : F

module _ {F E : Type 0} (p : Platform F E) ⦃H : Hash⦄ where
  open H use {Digest, bytes}

  -- The coset evaluations or the value of layer ell, and its root.
  unfoldable pub absorb_shown : FsTranscript F → Bool → Shown E Digest → ℕ → Option (FsTranscript F)
  unfolding absorb_layer
  absorb_shown tr true shown ell = do
    stir_coset_evals ← shown.stir_coset_evals
    coset_evals ← get_elem? stir_coset_evals ell
    root ← get_elem? shown.roots ell
    absorb_layer p tr true coset_evals p.tower.ring.zero root
  absorb_shown tr false shown ell = do
    fz ← get_elem? shown.fz_per_layer ell
    root ← get_elem? shown.roots ell
    absorb_layer p tr false [] fz root

  -- n layers from ell on, and their challenges.
  unfoldable pub replay_rounds :
      Bool → Shown E Digest → ℕ → ℕ → FsTranscript F → Option (List E × FsTranscript F)
  unfolding challenge_ext absorb_shown
  replay_rounds stir shown ell zero tr = some ([], tr)
  replay_rounds stir shown ell (suc n) tr = do
    (alpha, challenged) ← challenge_ext p tr (text "alpha")
    absorbed ← absorb_shown challenged stir shown ell
    (alphas, last) ← replay_rounds stir shown (ell + 1) n absorbed
    some (alpha ∷ alphas, last)

  -- The committed coefficients of the final layer.
  unfoldable pub replay_coeff_commit :
      Bool → Shown E Digest → ℕ → FsTranscript F → Option (E × E × FsTranscript F)
  unfolding coeff_challenges absorb_shown
  replay_coeff_commit stir shown ell tr = do
    absorbed ← absorb_shown tr stir shown ell
    coeff_root ← shown.coeff_root
    coeff_challenges p absorbed coeff_root

  -- All layers of the schedule.
  unfoldable pub replay_layers :
      Bool
      → Bool
      → ℕ
      → Shown E Digest
      → FsTranscript F
      → Option (List E × Option E × FsTranscript F)
  unfolding replay_rounds replay_coeff_commit
  replay_layers false stir l shown tr = do
    (alphas, last) ← replay_rounds stir shown 0 l tr
    some (alphas, none, last)
  replay_layers true stir l shown tr = do
    (alphas, tr1) ← replay_rounds stir shown 0 (l - 1) tr
    (alpha, beta_deg, tr2) ← replay_coeff_commit stir shown (l - 1) tr1
    some (alphas ++ alpha ∷ [], some beta_deg, tr2)

  unfoldable pub replay : DeepFriParams → Shown E Digest → Option (Challenges F E)
  unfolding replay_layers bind_statement_to_transcript challenge_ext transcript_challenge_hash
      safe_field_challenge absorb_exts new_matching_hash
  replay params shown = do
    let use_coeff_commit = params.coeff_commit_final && not (is_empty params.schedule)
    let tr = new_matching_hash p.ground H.size (text "FRI/FS")
    bound ←
        bind_statement_to_transcript p tr params.schedule shown.n0 params.seed_z
          params.coeff_commit_final params.stir params.public_inputs_hash
    rooted ← Transcript.absorb_bytes p.ground p.hashers bound (bytes shown.root_f0)
    (z_ext, tr1) ← challenge_ext p rooted (text "z_fp3")
    (trace_hash, tr2) ← transcript_challenge_hash p tr1 (text "FRI/seed")
    (alpha_layers, beta_deg, tr3) ←
        replay_layers use_coeff_commit params.stir (length params.schedule) shown tr2
    ended ← absorb_exts p tr3 shown.final_poly_coeffs
    (query_seed, tr4) ← safe_field_challenge p ended (text "query_seed")
    some (record {
      z_ext = z_ext;
      trace_hash = trace_hash;
      alpha_layers = alpha_layers;
      beta_deg = beta_deg;
      query_seed = query_seed;
    })
