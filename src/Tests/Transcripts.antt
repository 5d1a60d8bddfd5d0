-- ===== src/Tests/Transcripts.antt =====
-- Transcripts over the field of three elements, with hash functions of constant digests.
use stark_stir_service.Common.{◌≡◌, refl, List, [], ◌∷◌, length, replicate, text, ◌>>=◌, Returns}
use stark_stir_service.Poseidon.{PoseidonParams}
use stark_stir_service.Transcript.{
  FsHash, Hashers, backend_digest_len, fs_digest_len, with_backend, challenge_bytes,
}
use stark_stir_service.Transcript.Bounds.{IsParams, IsReady}
use stark_stir_service.Transcript.Bounds.Sequences.{
  Op, absorbs, absorbs_element, challenges, challenges_bytes, perform_all, with_backend-perform_all,
}
use stark_stir_service.Transcript.Bounds.Digests.{IsHashers, length-challenge_bytes}
use stark_stir_service.Tests.Trits.{Trit, unit, double, trit_field}

abbrev pub steady : Hashers
steady = record {
  sha3_256 = λ m. replicate 32 0;
  sha3_384 = λ m. replicate 48 0;
  sha3_512 = λ m. replicate 64 0;
  blake3 = λ m. replicate 32 0;
}

steady-IsHashers : IsHashers steady
steady-IsHashers = record {
  length-sha3_256 = λ m. refl;
  length-sha3_384 = λ m. refl;
  length-sha3_512 = λ m. refl;
  length-blake3 = λ m. refl;
}

abbrev params : PoseidonParams Trit
params = record {
  mds = replicate 17 (replicate 17 unit);
  rc_full = replicate 17 unit ∷ [];
  rc_partial = double ∷ [];
}

shaped : IsParams params
unfolding IsParams
shaped = refl

abbrev ops : List (Op Trit)
ops =
    absorbs (1 ∷ 2 ∷ [])
    ∷ absorbs_element double
    ∷ challenges (text "a")
    ∷ challenges_bytes (text "b")
    ∷ []

with_backend-perform_all_example :
    Returns
      (with_backend trit_field FsHash.poseidon (text "t") params
        >>= (λ t. perform_all trit_field steady t ops))
      (λ u. IsReady u.backend)
with_backend-perform_all_example =
    with_backend-perform_all trit_field steady FsHash.poseidon (text "t") params ops shaped

length-challenge_bytes_example :
    Returns
      (with_backend trit_field FsHash.poseidon (text "t") params
        >>= (λ t. perform_all trit_field steady t ops)
        >>= (λ t. challenge_bytes trit_field steady t (text "c")))
      (λ r.
        (length r.0 ≡ fs_digest_len FsHash.poseidon)
        × (backend_digest_len r.1.backend ≡ fs_digest_len FsHash.poseidon))
length-challenge_bytes_example =
    length-challenge_bytes trit_field steady FsHash.poseidon (text "t") params ops (text "c")
      steady-IsHashers shaped
