-- ===== src/Fri/Prover.antt =====
-- crates/deep_ali/src/fri.rs: `fri_build_transcript`, the layers of the prover and its transcript. A
-- round of the loop is a record, from whose fields the vectors of the prover's state are read.
pub mod Queries
pub mod Size
use stark_stir_service.Common.{
  ℕ, zero, suc, ◌+◌, ◌-◌, ◌*◌, Bool, true, false, ◌&&◌, ◌||◌, not, Option, none, some, List, [],
  ◌∷◌, ◌++◌, map, ◌==◌, ltb, if◌then◌else◌, length, get_elem?, take, drop, replicate, text, collect,
  map_all, checked_div, ◌>>=◌,
}
use mathlib.Core.Option
use stark_stir_service.Hashing.{Hash}
use stark_stir_service.Merkle.{
  MerkleChannelCfg, MerkleTreeChannel, MerkleOpening, new_tree, push_leaf, push_leaves_parallel,
  finalize, open_tree,
}
use stark_stir_service.Transcript
use stark_stir_service.Transcript.{FsTranscript, absorb_element, new_matching_hash}
use stark_stir_service.Fri.{
  Platform, challenge_ext, absorb_ext, absorb_exts, absorb_fields, transcript_challenge_hash,
  ext_pow,
}
use stark_stir_service.Fri.Sizes.{
  layer_cfg, coeff_tree_config, f0_tree_config, f0_packed_tree_config,
}
use stark_stir_service.Fri.Layers.{compute_q_layer_ext_on_ext}
use stark_stir_service.Fri.Interpolate.{
  evaluate_ood_coset, extract_all_coset_coefficients, compute_s_layer_from_coeffs,
  interpolation_fold_ext,
}
use stark_stir_service.Fri.Data.{
  FriDomain, FriLayerCommitment, FriTranscript, FriProverParams, FriProverState,
}
use stark_stir_service.Fri.Commitments.{
  row, layer_rows, packed_rows, coeff_leaf_fields, tree_of, commit_rows,
  bind_statement_to_transcript, commit_f0, absorb_layer, coeff_challenges, is_empty,
}

-- What a layer is opened to out of the domain: the quotient, or in STIR mode the coset.
pub record OutOfDomain (E : Type 0) : Type 0 where
  pub q : List E
  pub fz : E
  pub coset_evals : List E
  pub interp_coeffs : List E
  pub z_next : E

pub record Round (F E D : Type 0) : Type 0 where
  pub f : List E
  pub s : List E
  pub z : E
  pub ood : OutOfDomain E
  pub omega : F
  pub alpha : E
  pub layer : FriLayerCommitment D

-- The commitment of the final layer's coefficients.
pub record CoeffCommit (F E D : Type 0) : Type 0 where
  pub round : Round F E D
  pub coeff_tuples : List (List E)
  pub coeff_root : D
  pub beta_deg : E

module _ {F E : Type 0} (p : Platform F E) where
  module _ ⦃H : Hash⦄ where
    open H use {Digest, bytes}

    unfoldable pub out_of_domain : Bool → E → E → List E → F → ℕ → Option (OutOfDomain E)
    unfolding evaluate_ood_coset compute_q_layer_ext_on_ext ext_pow
    out_of_domain true z_ext z_current cur_f omega m = do
      (coset_evals, interp_coeffs) ← evaluate_ood_coset p cur_f z_current omega m
      fz ← get_elem? coset_evals 0
      some (record {
        q = [];
        fz = fz;
        coset_evals = coset_evals;
        interp_coeffs = interp_coeffs;
        z_next = ext_pow p z_current m;
      })
    out_of_domain false z_ext z_current cur_f omega m = do
      (q, fz) ← compute_q_layer_ext_on_ext p cur_f z_ext omega
      some (record { q = q; fz = fz; coset_evals = []; interp_coeffs = []; z_next = z_current })

    -- The s values of a layer: its fold, or zeros where they are not used.
    unfoldable pub s_values : Bool → List (List E) → E → ℕ → ℕ → Option (List E)
    unfolding compute_s_layer_from_coeffs
    s_values true coeff_tuples alpha cur_size m = some (replicate cur_size p.tower.ring.zero)
    s_values false coeff_tuples alpha cur_size m =
        compute_s_layer_from_coeffs p coeff_tuples alpha cur_size m

    -- Layer ell without its transcript: its openings out of the domain, its tree, and the
    -- coefficients
    -- of its cosets. The challenge of the fold is given; the s values of a final layer are zeros.
    unfoldable pub layer_of :
        Bool → Bool → E → ℕ → ℕ → ℕ → E → List E → E → Option (Round F E Digest × List (List E))
    unfolding out_of_domain extract_all_coset_coefficients s_values layer_rows layer_cfg commit_rows
    layer_of final stir z_ext ell m cur_size z_current cur_f alpha = do
      omega ← p.group_gen cur_size
      ood ← out_of_domain stir z_ext z_current cur_f omega m
      coeff_tuples ← extract_all_coset_coefficients p cur_f omega m
      s ← s_values (final || stir) coeff_tuples alpha cur_size m
      cfg ← layer_cfg cur_size m ell
      rows ← layer_rows p stir cur_size cur_f s ood.q
      (root, tree) ← commit_rows p cfg rows
      some (
        record {
          f = cur_f;
          s = s;
          z = z_current;
          ood = ood;
          omega = omega;
          alpha = alpha;
          layer = record { n = cur_size; m = m; root = root };
        },
        coeff_tuples,
      )

    -- The round of layer ell; the new transcript and the next layer stand beside it.
    unfoldable pub prove_round :
        Bool
        → E
        → ℕ
        → ℕ
        → ℕ
        → FsTranscript F
        → E
        → List E
        → Option (Round F E Digest × FsTranscript F × List E)
    unfolding challenge_ext layer_of absorb_layer interpolation_fold_ext
    prove_round stir z_ext ell m cur_size tr z_current cur_f = do
      (alpha, challenged) ← challenge_ext p tr (text "alpha")
      (made, coeff_tuples) ← layer_of false stir z_ext ell m cur_size z_current cur_f alpha
      absorbed ← absorb_layer p challenged stir made.ood.coset_evals made.ood.fz made.layer.root
      next_f ← interpolation_fold_ext p coeff_tuples alpha
      some (record made { alpha = alpha }, absorbed, next_f)

    -- The loop over the layers from ell on.
    unfoldable pub prove_rounds :
        Bool
        → E
        → ℕ
        → List ℕ
        → ℕ
        → FsTranscript F
        → E
        → List E
        → Option (List (Round F E Digest) × FsTranscript F × E × ℕ × List E)
    unfolding prove_round checked_div
    prove_rounds stir z_ext ell [] cur_size tr z_current cur_f =
        some ([], tr, z_current, cur_size, cur_f)
    prove_rounds stir z_ext ell (m ∷ schedule) cur_size tr z_current cur_f = do
      (round, tr1, next_f) ← prove_round stir z_ext ell m cur_size tr z_current cur_f
      next_size ← checked_div cur_size m
      (rounds, tr2, z_last, last_size, last_f) ←
          prove_rounds stir z_ext (ell + 1) schedule next_size tr1 round.ood.z_next next_f
      some (round ∷ rounds, tr2, z_last, last_size, last_f)

    -- The tree of the coefficients.
    unfoldable pub commit_coeffs : ℕ → ℕ → List (List E) → Option Digest
    unfolding checked_div coeff_tree_config commit_rows coeff_leaf_fields row
    commit_coeffs cur_size m coeff_tuples = do
      n_final ← checked_div cur_size m
      coeff_cfg ← coeff_tree_config n_final
      (coeff_root, coeff_tree) ←
          commit_rows p coeff_cfg (map (λ tuple. row p (coeff_leaf_fields p tuple)) coeff_tuples)
      some coeff_root

    -- The final layer, where its coefficients are committed before they are folded. Its s values
    -- are zero.
    unfoldable pub prove_coeff_commit :
        Bool
        → E
        → ℕ
        → ℕ
        → ℕ
        → FsTranscript F
        → E
        → List E
        → Option (CoeffCommit F E Digest × FsTranscript F × List E)
    unfolding coeff_challenges layer_of commit_coeffs absorb_layer interpolation_fold_ext
    prove_coeff_commit stir z_ext ell m cur_size tr z_current cur_f = do
      (made, coeff_tuples) ←
          layer_of true stir z_ext ell m cur_size z_current cur_f p.tower.ring.zero
      coeff_root ← commit_coeffs cur_size m coeff_tuples
      absorbed ← absorb_layer p tr stir made.ood.coset_evals made.ood.fz made.layer.root
      (alpha, beta_deg, last) ← coeff_challenges p absorbed coeff_root
      next_f ← interpolation_fold_ext p coeff_tuples alpha
      some (
        record {
          round = record made { alpha = alpha };
          coeff_tuples = coeff_tuples;
          coeff_root = coeff_root;
          beta_deg = beta_deg;
        },
        last,
        next_f,
      )

    -- The vectors of the state, from the rounds, the last layer and the coefficients' commitment.
    unfoldable pub assemble :
        List F
        → FriProverParams
        → Digest
        → E
        → List ℕ
        → List (Round F E Digest)
        → List E
        → Option (CoeffCommit F E Digest)
        → FriProverState F E Digest
    assemble f0 params root_f0 z_ext trace_hash rounds final_f final = record {
      f0_base = f0;
      f_layers_ext = map (λ r. r.f) rounds ++ final_f ∷ [];
      s_layers = map (λ r. r.s) rounds ++ replicate (length final_f) p.tower.ring.zero ∷ [];
      q_layers = map (λ r. r.ood.q) rounds;
      fz_layers = map (λ r. r.ood.fz) rounds;
      transcript = record { schedule = params.schedule; layers = map (λ r. r.layer) rounds };
      omega_layers = map (λ r. r.omega) rounds;
      z_ext = z_ext;
      alpha_layers = map (λ r. r.alpha) rounds;
      root_f0 = root_f0;
      trace_hash = trace_hash;
      seed_z = params.seed_z;
      coeff_tuples = Option.map (λ c. c.coeff_tuples) final;
      coeff_root = Option.map (λ c. c.coeff_root) final;
      beta_deg = Option.map (λ c. c.beta_deg) final;
      coeff_commit_final = params.coeff_commit_final && not (is_empty params.schedule);
      d_final = params.d_final;
      stir_coset_evals = if params.stir then some (map (λ r. r.ood.coset_evals) rounds) else none;
      stir_z_per_layer = if params.stir then some (map (λ r. r.z) rounds) else none;
      stir_interp_coeffs =
          if params.stir then some (map (λ r. r.ood.interp_coeffs) rounds) else none;
      stir = params.stir;
    }

    -- Behind the rounds: the final layer's coefficients, if they are committed.
    unfoldable pub prove_final :
        Bool
        → List F
        → FriProverParams
        → Digest
        → E
        → List ℕ
        → List (Round F E Digest)
        → ℕ
        → FsTranscript F
        → E
        → List E
        → Option (FriProverState F E Digest × FsTranscript F)
    unfolding prove_coeff_commit assemble
    prove_final false f0 params root_f0 z_ext trace_hash rounds cur_size tr z_current cur_f =
        some (assemble f0 params root_f0 z_ext trace_hash rounds cur_f none, tr)
    prove_final true f0 params root_f0 z_ext trace_hash rounds cur_size tr z_current cur_f = do
      let ell = length params.schedule - 1
      m ← get_elem? params.schedule ell
      (final, last, final_f) ←
          prove_coeff_commit params.stir z_ext ell m cur_size tr z_current cur_f
      some (
        assemble f0 params root_f0 z_ext trace_hash (rounds ++ final.round ∷ []) final_f
            (some final),
        last,
      )

    -- `fri_build_transcript`, with the transcript that it leaves behind.
    unfoldable pub fri_build_transcript :
        List F → FriDomain F → FriProverParams → Option (FriProverState F E Digest × FsTranscript F)
    unfolding bind_statement_to_transcript commit_f0 challenge_ext transcript_challenge_hash
        prove_rounds prove_final new_matching_hash
    fri_build_transcript f0 domain0 params = do
      let schedule = params.schedule
      let use_coeff_commit = params.coeff_commit_final && not (is_empty schedule)
      let normal_layers = if use_coeff_commit then length schedule - 1 else length schedule
      let tr = new_matching_hash p.ground H.size (text "FRI/FS")
      bound ←
          bind_statement_to_transcript p tr schedule domain0.size params.seed_z
            params.coeff_commit_final params.stir params.public_inputs_hash
      (root_f0, f0_tree) ← commit_f0 p params.stir schedule f0 domain0.size
      rooted ← Transcript.absorb_bytes p.ground p.hashers bound (bytes root_f0)
      (z_ext, tr1) ← challenge_ext p rooted (text "z_fp3")
      (trace_hash, tr2) ← transcript_challenge_hash p tr1 (text "FRI/seed")
      (rounds, tr3, z_current, cur_size, cur_f) ←
          prove_rounds params.stir z_ext 0 (take normal_layers schedule) domain0.size tr2 z_ext
            (map p.tower.from_fp f0)
      prove_final use_coeff_commit f0 params root_f0 z_ext trace_hash rounds cur_size tr3 z_current
          cur_f
