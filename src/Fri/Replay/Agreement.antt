-- ===== src/Fri/Replay/Agreement.antt =====
-- The rounds of the replay draw what the rounds of the prover drew.
pub mod Proofs
use stark_stir_service.Common.{
  some_injective, ℕ, zero, suc, ◌+◌, ◌-◌, ◌≡◌, refl, sym, ap, ap₂, ◌∙◌, subst, Bool, true, false,
  ◌&&◌, not, Option, none, some, List, [], ◌∷◌, ◌++◌, map, if◌then◌else◌, length, get_elem?, take,
  text, arith, checked_div, >>=-eq-some, get_elem?-behind, ◌>>=◌,
}
use stark_stir_service.Hashing.{Hash}
use stark_stir_service.Transcript
use stark_stir_service.Transcript.{FsTranscript}
use stark_stir_service.Fri.{Platform, challenge_ext}
use stark_stir_service.Fri.Commitments.{absorb_layer, coeff_challenges}
use stark_stir_service.Fri.Replay.{
  Shown, absorb_shown, replay_rounds, replay_coeff_commit, replay_layers, replay,
}
use stark_stir_service.Fri.Interpolate.{interpolation_fold_ext}
use stark_stir_service.Fri.Prover.{
  Round, CoeffCommit, layer_of, commit_coeffs, prove_round, prove_rounds, prove_coeff_commit,
}

module _ {F E : Type 0} (p : Platform F E) ⦃H : Hash⦄ where
  open H use {Digest, bytes}

  -- What a round does to the transcript.
  prove_round-transcript :
      (stir : Bool) (z_ext : E) (ell m size : ℕ) (tr last : FsTranscript F) (z : E)
      (f next : List E) (round : Round F E Digest)
      → prove_round p stir z_ext ell m size tr z f ≡ some (round, last, next)
      → (challenged : FsTranscript F) × (challenge_ext p tr (text "alpha")
          ≡ some (round.alpha, challenged))
        × (absorb_layer p challenged stir round.ood.coset_evals round.ood.fz round.layer.root
            ≡ some last)
  unfolding prove_round
  prove_round-transcript stir z_ext ell m size tr last z f next round h =
      let ((alpha, challenged), drawn, h1) = >>=-eq-some (challenge_ext p tr (text "alpha")) _ h in
      let ((made, tuples), e2, h2) =
        >>=-eq-some (layer_of p false stir z_ext ell m size z f alpha) _ h1 in
      let (absorbed, took, h3) =
        >>=-eq-some
          (absorb_layer p challenged stir made.ood.coset_evals made.ood.fz made.layer.root) _ h2 in
      let (folded, e4, h4) = >>=-eq-some (interpolation_fold_ext p tuples alpha) _ h3 in
      let (drawn', took') =
        subst
          (λ t.
            (challenge_ext p tr (text "alpha") ≡ some (t.0.alpha, challenged))
            × (absorb_layer p challenged stir t.0.ood.coset_evals t.0.ood.fz t.0.layer.root
                ≡ some t.1))
          (some_injective h4) (drawn, took) in
      (challenged, drawn', took')

  -- What is shown of the layers from ell on is what the rounds committed to.
  abbrev pub Shows : Shown E Digest → Bool → ℕ → List (Round F E Digest) → Type 0
  Shows shown stir ell [] = Unit
  Shows shown stir ell (round ∷ rounds) =
      ((tr : FsTranscript F)
        → absorb_shown p tr stir shown ell
          ≡ absorb_layer p tr stir round.ood.coset_evals round.ood.fz round.layer.root)
      × Shows shown stir (ell + 1) rounds

  pub replay_rounds-prove_rounds :
      (stir : Bool) (z_ext : E) (ell : ℕ) (schedule : List ℕ) (size : ℕ) (tr : FsTranscript F)
      (z : E) (f : List E) (shown : Shown E Digest) (rounds : List (Round F E Digest))
      (last : FsTranscript F) (z_last : E) (last_size : ℕ) (last_f : List E)
      → prove_rounds p stir z_ext ell schedule size tr z f
        ≡ some (rounds, last, z_last, last_size, last_f)
      → Shows shown stir ell rounds
      → replay_rounds p stir shown ell (length schedule) tr ≡ some (map (λ r. r.alpha) rounds, last)
  unfolding prove_rounds replay_rounds
  replay_rounds-prove_rounds stir z_ext ell [] size tr z f shown rounds last z_last last_size last_f
        h shows =
      ap (λ t. some (map (λ r. r.alpha) t.0, t.1)) (some_injective h)
  replay_rounds-prove_rounds stir z_ext ell (m ∷ schedule) size tr z f shown rounds last z_last
        last_size last_f h shows =
      let ((round, tr1, next), made, h1) =
        >>=-eq-some (prove_round p stir z_ext ell m size tr z f) _ h in
      let (next_size, e2, h2) = >>=-eq-some (checked_div size m) _ h1 in
      let ((rest, tr2, z2, size2, f2), e3, h3) =
        >>=-eq-some
          (prove_rounds p stir z_ext (ell + 1) schedule next_size tr1 round.ood.z_next next) _ h2 in
      let (challenged, drawn, took) =
        prove_round-transcript stir z_ext ell m size tr tr1 z f next round made in
      let (here, later) = subst (λ t. Shows shown stir ell t.0) (sym (some_injective h3)) shows in
      rw
        (
          drawn,
          here challenged,
          took,
          replay_rounds-prove_rounds stir z_ext (ell + 1) schedule next_size tr1 round.ood.z_next
              next shown rest tr2 z2 size2 f2 e3 later,
        )
        (ap (λ t. some (map (λ r. r.alpha) t.0, t.1)) (some_injective h3))

  pub length-prove_rounds :
      (stir : Bool) (z_ext : E) (ell : ℕ) (schedule : List ℕ) (size : ℕ) (tr : FsTranscript F)
      (z : E) (f : List E) (rounds : List (Round F E Digest)) (last : FsTranscript F) (z_last : E)
      (last_size : ℕ) (last_f : List E)
      → prove_rounds p stir z_ext ell schedule size tr z f
        ≡ some (rounds, last, z_last, last_size, last_f)
      → length rounds ≡ length schedule
  unfolding prove_rounds
  length-prove_rounds stir z_ext ell [] size tr z f rounds last z_last last_size last_f h =
      ap (λ t. length t.0) (sym (some_injective h))
  length-prove_rounds stir z_ext ell (m ∷ schedule) size tr z f rounds last z_last last_size last_f
        h =
      let ((round, tr1, next), made, h1) =
        >>=-eq-some (prove_round p stir z_ext ell m size tr z f) _ h in
      let (next_size, e2, h2) = >>=-eq-some (checked_div size m) _ h1 in
      let ((rest, tr2, z2, size2, f2), e3, h3) =
        >>=-eq-some
          (prove_rounds p stir z_ext (ell + 1) schedule next_size tr1 round.ood.z_next next) _ h2 in
      ap (λ t. length t.0) (sym (some_injective h3))
      ∙ ap suc (
          length-prove_rounds stir z_ext (ell + 1) schedule next_size tr1 round.ood.z_next next rest
            tr2 z2 size2 f2 e3)

  -- What the commitment of the coefficients does to the transcript.
  prove_coeff_commit-transcript :
      (stir : Bool) (z_ext : E) (ell m size : ℕ) (tr last : FsTranscript F) (z : E)
      (f next : List E) (final : CoeffCommit F E Digest)
      → prove_coeff_commit p stir z_ext ell m size tr z f ≡ some (final, last, next)
      → (absorbed : FsTranscript F) × (absorb_layer p tr stir final.round.ood.coset_evals
            final.round.ood.fz final.round.layer.root
          ≡ some absorbed)
        × (coeff_challenges p absorbed final.coeff_root
            ≡ some (final.round.alpha, final.beta_deg, last))
  unfolding prove_coeff_commit
  prove_coeff_commit-transcript stir z_ext ell m size tr last z f next final h =
      let ((made, tuples), e1, h1) =
        >>=-eq-some (layer_of p true stir z_ext ell m size z f p.tower.ring.zero) _ h in
      let (coeff_root, e2, h2) = >>=-eq-some (commit_coeffs p size m tuples) _ h1 in
      let (absorbed, took, h3) =
        >>=-eq-some (absorb_layer p tr stir made.ood.coset_evals made.ood.fz made.layer.root) _
          h2 in
      let (drawn, e4, h4) = >>=-eq-some (coeff_challenges p absorbed coeff_root) _ h3 in
      let (folded, e5, h5) = >>=-eq-some (interpolation_fold_ext p tuples drawn.0) _ h4 in
      let (took', drew) =
        subst
          (λ t.
            (absorb_layer p tr stir t.0.round.ood.coset_evals t.0.round.ood.fz t.0.round.layer.root
              ≡ some absorbed)
            × (coeff_challenges p absorbed t.0.coeff_root
                ≡ some (t.0.round.alpha, t.0.beta_deg, t.1)))
          (some_injective h5) (took, e4) in
      (absorbed, took', drew)

  pub replay_coeff_commit-prove_coeff_commit :
      (stir : Bool) (z_ext : E) (ell m size : ℕ) (tr last : FsTranscript F) (z : E)
      (f next : List E) (shown : Shown E Digest) (final : CoeffCommit F E Digest)
      → prove_coeff_commit p stir z_ext ell m size tr z f ≡ some (final, last, next)
      → Shows shown stir ell (final.round ∷ [])
      → shown.coeff_root ≡ some final.coeff_root
      → replay_coeff_commit p stir shown ell tr ≡ some (final.round.alpha, final.beta_deg, last)
  unfolding replay_coeff_commit
  replay_coeff_commit-prove_coeff_commit stir z_ext ell m size tr last z f next shown final h
        (here, _) rooted =
      let (absorbed, took, drew) =
        prove_coeff_commit-transcript stir z_ext ell m size tr last z f next final h in
      rw (here tr, took, rooted) drew
