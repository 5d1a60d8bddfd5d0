-- ===== src/Fri/Transcripts.antt =====
-- The uses of the transcripts in FRI return: no challenge and no position panics.
use stark_stir_service.Common.{
  ℕ, zero, suc, ◌+◌, ◌/◌, ◌==◌, ◌≡◌, refl, inl, inr, arith, List, [], ◌∷◌, ◌++◌, some, length, Text,
  text, Bool-cases, Returns, Returns-bind,
}
use stark_stir_service.Hashing.{Hash}
use stark_stir_service.Tower.{TowerField}
use stark_stir_service.Transcript.{FsTranscript, new_matching_hash}
use stark_stir_service.Transcript.Bounds.{IsReady}
use stark_stir_service.Transcript.Bounds.Sequences.{
  absorb_bytes-IsReady, absorb_element-IsReady, challenge_bytes-IsReady,
}
use stark_stir_service.Fri.{
  Platform, safe_field_challenge, accumulate, challenge_components, challenge_ext, absorb_fields,
  absorb_ext, absorb_exts, tr_hash_fields_tagged, digits,
}

-- Every list of as many components as the degree is an element.
unfoldable pub ReadsComponents : {F E : Type 0} → TowerField F E → Type 0
ReadsComponents {F = F} {E = E} t =
    (cs : List F) → length cs ≡ t.degree → (x : E) × (t.from_fp_components cs ≡ some x)

module _ {F E : Type 0} (p : Platform F E) where
  pub new_matching_hash-IsReady :
      (size : ℕ) (label : List ℕ) → IsReady (new_matching_hash p.ground size label).backend
  unfolding new_matching_hash IsReady
  new_matching_hash-IsReady size label = elim (Bool-cases (size == 48)) [
    | inl a ↦ rw a tt
    | inr b ↦ rw b (elim (Bool-cases (size == 64)) [ inl c ↦ rw c tt | inr d ↦ rw d tt ])
  ]

  pub safe_field_challenge-IsReady :
      (tr : FsTranscript F) (label : List ℕ)
      → IsReady tr.backend
      → Returns (safe_field_challenge p tr label) (λ r. IsReady r.1.backend)
  unfolding safe_field_challenge
  safe_field_challenge-IsReady tr label ready =
      Returns-bind (challenge_bytes-IsReady p.ground p.hashers tr label ready)
        (λ (bytes, next) ready'.
          ((accumulate p ((length bytes + 6) / 7) p.ground.ring.zero bytes, next), refl, ready'))

  challenge_components-IsReady :
      (tr : FsTranscript F) (tag : List ℕ) (i n : ℕ)
      → IsReady tr.backend
      → Returns (challenge_components p tr tag i n) (λ r. (length r.0 ≡ n) × IsReady r.1.backend)
  unfolding challenge_components
  challenge_components-IsReady tr tag i zero ready = (([], tr), refl, (refl, ready))
  challenge_components-IsReady tr tag i (suc n) ready =
      Returns-bind (safe_field_challenge-IsReady tr (tag ++ (text "/c" ++ digits 20 i)) ready)
        (λ (c, next) ready1.
          Returns-bind (challenge_components-IsReady next tag (i + 1) n ready1)
            (λ (cs, last) (size, ready2). ((c ∷ cs, last), refl, (omega (arith, size), ready2))))

  pub challenge_ext-IsReady :
      (tr : FsTranscript F) (tag : List ℕ)
      → ReadsComponents p.tower
      → IsReady tr.backend
      → Returns (challenge_ext p tr tag) (λ r. IsReady r.1.backend)
  unfolding challenge_ext ReadsComponents
  challenge_ext-IsReady tr tag reads ready =
      Returns-bind (challenge_components-IsReady tr tag 0 p.tower.degree ready)
        (λ (cs, next) (size, ready').
          let (x, made) = reads cs size in ((x, next), rw made refl, ready'))

  pub absorb_fields-IsReady :
      (tr : FsTranscript F) (xs : List F)
      → IsReady tr.backend
      → Returns (absorb_fields p tr xs) (λ u. IsReady u.backend)
  unfolding absorb_fields
  absorb_fields-IsReady tr [] ready = (tr, refl, ready)
  absorb_fields-IsReady tr (x ∷ xs) ready =
      Returns-bind (absorb_element-IsReady p.ground p.hashers tr x ready)
        (λ next ready'. absorb_fields-IsReady next xs ready')

  pub absorb_exts-IsReady :
      (tr : FsTranscript F) (vs : List E)
      → IsReady tr.backend
      → Returns (absorb_exts p tr vs) (λ u. IsReady u.backend)
  unfolding absorb_exts absorb_ext
  absorb_exts-IsReady tr [] ready = (tr, refl, ready)
  absorb_exts-IsReady tr (v ∷ vs) ready =
      Returns-bind (absorb_fields-IsReady tr (p.tower.to_fp_components v) ready)
        (λ next ready'. absorb_exts-IsReady next vs ready')

  module _ ⦃H : Hash⦄ where
    pub tr_hash_fields_tagged-total :
        (tag : Text) (fields : List F) → (out : F) × (tr_hash_fields_tagged p tag fields ≡ some out)
    unfolding tr_hash_fields_tagged
    tr_hash_fields_tagged-total tag fields =
        let (out, made, _) : Returns (tr_hash_fields_tagged p tag fields) (λ _. Unit) =
          Returns-bind
            (absorb_bytes-IsReady p.ground p.hashers
              (new_matching_hash p.ground H.size (text "FRI/FS")) tag
              (new_matching_hash-IsReady H.size (text "FRI/FS")))
            (λ tagged ready1.
              Returns-bind (absorb_fields-IsReady tagged fields ready1) (λ filled ready2.
                Returns-bind (safe_field_challenge-IsReady filled (text "out") ready2)
                  (λ r _. (r.0, refl, tt)))) in
        (out, made)
