-- ===== src/Fri/Verifier/Verify.antt =====
-- crates/deep_ali/src/fri.rs: `deep_fri_verify`, all of it.
use stark_stir_service.Common.{
  ℕ, Bool, true, ◌&&◌, not, Option, some, List, [], ◌==◌, if◌then◌else◌, length, ◌>>=◌,
}
use stark_stir_service.Hashing.{Hash}
use stark_stir_service.Fri.{Platform}
use stark_stir_service.Fri.Sizes.{layer_sizes_from_schedule}
use stark_stir_service.Fri.Data.{DeepFriProof, DeepFriParams}
use stark_stir_service.Fri.Commitments.{is_empty}
use stark_stir_service.Fri.Replay.{Challenges, replay}
use stark_stir_service.Fri.Verifier.{
  require, and_then, shown_by, stir_interps, check_ood, check_coeffs, derive,
}
use stark_stir_service.Fri.Verifier.Classic.{verify_classic}
use stark_stir_service.Fri.Verifier.Stir.{verify_stir}

module _ {F E : Type 0} (p : Platform F E) ⦃H : Hash⦄ where
  open H use {Digest}

  -- Behind the transcript: the checks out of the domain, of the coefficients and of the queries.
  unfoldable pub verify_layers :
      Bool → Bool → DeepFriParams → DeepFriProof F E Digest → List ℕ → Challenges F E → Option Bool
  unfolding stir_interps require and_then check_ood check_coeffs derive verify_stir verify_classic
  verify_layers stir use_coeff_commit params proof sizes c = do
    interps ← if stir then stir_interps p proof sizes 0 params.schedule c.z_ext else some []
    require (length proof.final_poly_coeffs == params.d_final) (
        and_then (if stir then check_ood p proof params c interps 0 params.schedule else some true)
          (and_then (check_coeffs p use_coeff_commit proof params sizes c) (do
            d ← derive p params sizes c
            if stir
                then verify_stir p params proof d
                else verify_classic p use_coeff_commit params proof d)))

  unfoldable pub deep_fri_verify : DeepFriParams → DeepFriProof F E Digest → Option Bool
  unfolding layer_sizes_from_schedule replay shown_by verify_layers
  deep_fri_verify params proof = do
    sizes ← layer_sizes_from_schedule proof.n0 params.schedule
    let use_coeff_commit = params.coeff_commit_final && not (is_empty params.schedule)
    c ← replay p params (shown_by p proof)
    verify_layers params.stir use_coeff_commit params proof sizes c
