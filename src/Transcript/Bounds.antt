-- ===== src/Transcript/Bounds.antt =====
-- No operation of a transcript indexes out of bounds, and digests have their lengths.
pub mod Digests
pub mod Sequences
use stark_stir_service.Common.{
  ℕ, zero, suc, ◌+◌, ◌*◌, ◌≤◌, ◌<◌, ◌≡◌, refl, sym, ap, ◌∙◌, Bool, true, false, Option, none, some,
  List, [], ◌∷◌, ◌++◌, map, ◌==◌, if◌then◌else◌, length, get_elem?, set_elem, take, drop, replicate,
  length-map, get_elem?-length, length-set_elem, length-append, length-replicate, Bool-cases, inl,
  inr, arith, ◌>>=◌, Returns, Returns-bind, ◌⊎◌, min, to_le_bytes, length-to_le_bytes,
}
use stark_stir_service.Tower.{GroundField}
use stark_stir_service.Poseidon.{
  PoseidonParams, width, mds_mul_fixed, full_layer, partial_layer, run_full, run_partial, permute,
}
use stark_stir_service.Transcript.{
  FsHash, Hashers, HashBackend, PoseidonBackend, Backend, sponge, hasher, FsTranscript,
  absorb_field_internal, squeeze, absorb_words, sponge_absorb_bytes, sponge_challenge,
  squeeze_words, new_sponge, domain_tag_to_field, bytes_to_field_words, challenge_tag, absorb_tag,
  transcript_init, backend_absorb_bytes, backend_absorb_field, backend_challenge,
  backend_challenge_bytes, with_hash, with_backend, new_poseidon, absorb_bytes, absorb_element,
  field_challenge, challenge_bytes, new_sha3_256, new_sha3_384, new_sha3_512, new_blake3,
  new_hasher,
}

-- The matrix has as many rows as the state has entries.
unfoldable pub IsParams : {F : Type 0} → PoseidonParams F → Type 0
IsParams params = length params.mds ≡ 17

-- The position is within the rate, the state whole.
unfoldable pub IsSponge : {F : Type 0} → PoseidonBackend F → Type 0
IsSponge s = (length s.state ≡ 17) × (s.pos ≤ 16) × IsParams s.params

unfoldable pub IsReady : {F : Type 0} → Backend F → Type 0
IsReady (sponge s) = IsSponge s
IsReady (hasher kind m) = Unit

module _ {F : Type 0} (g : GroundField F) where
  length-run_full :
      (mds rows : List (List F)) (state : List F)
      → length mds ≡ 17
      → length state ≡ 17
      → length (run_full g mds rows state) ≡ 17
  unfolding run_full mds_mul_fixed
  length-run_full mds [] state m s = s
  length-run_full mds (cs ∷ rows) state m s =
      length-run_full mds rows (mds_mul_fixed g mds (full_layer g cs state)) m
        (length-map _ mds ∙ m)

  length-run_partial :
      (mds : List (List F)) (cs state : List F)
      → length mds ≡ 17
      → length state ≡ 17
      → length (run_partial g mds cs state) ≡ 17
  unfolding run_partial mds_mul_fixed
  length-run_partial mds [] state m s = s
  length-run_partial mds (c ∷ cs) state m s =
      length-run_partial mds cs (mds_mul_fixed g mds (partial_layer g c state)) m
        (length-map _ mds ∙ m)

  length-permute :
      (state : List F) (params : PoseidonParams F)
      → IsParams params
      → length state ≡ 17
      → length (permute g state params) ≡ 17
  unfolding permute IsParams
  length-permute state params m s = length-run_full params.mds (drop 4 params.rc_full) _ m (
      length-run_partial params.mds params.rc_partial _ m
        (length-run_full params.mds (take 4 params.rc_full) state m s))

  -- The entry that an absorbed element is added to exists, also after a permutation.
  absorb_at :
      (s : PoseidonBackend F) (state : List F) (pos : ℕ) (x : F)
      → length state ≡ 17
      → pos < 17
      → IsParams s.params
      → pos + 1 ≤ 16
      → Returns
          (do
            old ← get_elem? state pos
            some (record s { state = set_elem state pos (g.ring.add old x); pos = pos + 1 }))
          IsSponge
  unfolding IsSponge
  absorb_at s state pos x size room params next =
      let (old, found) = get_elem?-length state pos (omega arith) in
      (
        record s { state = set_elem state pos (g.ring.add old x); pos = pos + 1 },
        rw found refl,
        (length-set_elem state pos (g.ring.add old x) ∙ size, next, params),
      )

  pub absorb_field_internal-IsSponge :
      (s : PoseidonBackend F) (x : F) → IsSponge s → Returns (absorb_field_internal g s x) IsSponge
  unfolding absorb_field_internal IsSponge
  absorb_field_internal-IsSponge s x (size, room, params) = elim (Bool-cases (s.pos == 16)) [
    | inl full ↦ rw full (
        absorb_at s (permute g s.state s.params) 0 x (length-permute s.state s.params params size)
          (omega arith) params (omega arith))
    | inr left ↦ rw left (absorb_at s s.state s.pos x size (omega arith) params (ground arith))
  ]

  squeeze-IsSponge :
      (s : PoseidonBackend F) → IsSponge s → Returns (squeeze g s) (λ r. IsSponge r.1)
  unfolding squeeze IsSponge
  squeeze-IsSponge s (size, room, params) =
      let state = permute g s.state s.params in
      let whole = length-permute s.state s.params params size in
      let (first, found) = get_elem?-length state 0 (omega (arith, whole)) in
      ((first, record s { state = state; pos = 0 }), rw found refl, (whole, omega arith, params))

  absorb_words-IsSponge :
      (s : PoseidonBackend F) (ws : List F) → IsSponge s → Returns (absorb_words g s ws) IsSponge
  unfolding absorb_words
  absorb_words-IsSponge s [] ready = (s, refl, ready)
  absorb_words-IsSponge s (w ∷ ws) ready =
      Returns-bind (absorb_field_internal-IsSponge s w ready)
        (λ next ready'. absorb_words-IsSponge next ws ready')

  pub sponge_absorb_bytes-IsSponge :
      (s : PoseidonBackend F) (bytes : List ℕ)
      → IsSponge s
      → Returns (sponge_absorb_bytes g s bytes) IsSponge
  unfolding sponge_absorb_bytes
  sponge_absorb_bytes-IsSponge s bytes ready =
      absorb_words-IsSponge s (domain_tag_to_field g absorb_tag ∷ bytes_to_field_words g bytes)
        ready

  pub sponge_challenge-IsSponge :
      (s : PoseidonBackend F) (label : List ℕ)
      → IsSponge s
      → Returns (sponge_challenge g s label) (λ r. IsSponge r.1)
  unfolding sponge_challenge
  sponge_challenge-IsSponge s label ready =
      Returns-bind (absorb_field_internal-IsSponge s (domain_tag_to_field g challenge_tag) ready)
        (λ tagged ready1.
          Returns-bind (sponge_absorb_bytes-IsSponge tagged label ready1)
            (λ labelled ready2. squeeze-IsSponge labelled ready2))

  -- Eight bytes a word.
  pub squeeze_words-IsSponge :
      (s : PoseidonBackend F) (label : List ℕ) (i n : ℕ)
      → IsSponge s
      → Returns (squeeze_words g s label i n) (λ r. (length r.0 ≡ n * 8) × IsSponge r.1)
  unfolding squeeze_words
  squeeze_words-IsSponge s label i zero ready = (([], s), refl, (refl, ready))
  squeeze_words-IsSponge s label i (suc n) ready =
      Returns-bind (sponge_challenge-IsSponge s (label ++ (47 ∷ i ∷ [])) ready) (λ (f, next) ready1.
        Returns-bind (squeeze_words-IsSponge next label (i + 1) n ready1)
          (λ (rest, last) (size, ready2). (
            (to_le_bytes 8 (g.into_u64 f) ++ rest, last),
            refl,
            (
              omega (
                arith,
                length-append (to_le_bytes 8 (g.into_u64 f)) rest,
                length-to_le_bytes 8 (g.into_u64 f),
                size,
              ),
              ready2,
            ),
          )))

  new_sponge-IsSponge :
      (params : PoseidonParams F) (init_label : List ℕ)
      → IsParams params
      → Returns (new_sponge g params init_label) IsSponge
  unfolding new_sponge IsSponge
  new_sponge-IsSponge params init_label shaped =
      let whole : length (replicate 16 g.ring.zero ++ domain_tag_to_field g transcript_init ∷ [])
          ≡ 17 =
        omega (
          arith,
          length-append (replicate 16 g.ring.zero) (domain_tag_to_field g transcript_init ∷ []),
          length-replicate 16 g.ring.zero,
        ) in
      sponge_absorb_bytes-IsSponge
        (record {
          state = replicate 16 g.ring.zero ++ domain_tag_to_field g transcript_init ∷ [];
          pos = 0;
          params = params;
        })
        init_label (whole, omega arith, shaped)

  -- `with_backend` returns a transcript that is ready, for every hash.
  pub with_backend-IsReady :
      (kind : FsHash) (label : List ℕ) (params : PoseidonParams F)
      → IsParams params
      → Returns (with_backend g kind label params) (λ t. IsReady t.backend)
  unfolding with_backend with_hash new_poseidon IsReady new_sha3_256 new_sha3_384 new_sha3_512
      new_blake3 new_hasher
  with_backend-IsReady FsHash.poseidon label params shaped =
      Returns-bind (new_sponge-IsSponge params label shaped)
        (λ s ready. (record { backend = sponge s; hash = FsHash.poseidon }, refl, ready))
  with_backend-IsReady FsHash.sha3_256 label params shaped = (new_sha3_256 g label, refl, tt)
  with_backend-IsReady FsHash.sha3_384 label params shaped = (new_sha3_384 g label, refl, tt)
  with_backend-IsReady FsHash.sha3_512 label params shaped = (new_sha3_512 g label, refl, tt)
  with_backend-IsReady FsHash.blake3 label params shaped = (new_blake3 g label, refl, tt)
