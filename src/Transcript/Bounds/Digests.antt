-- ===== src/Transcript/Bounds/Digests.antt =====
-- crates/transcript/src/lib.rs: the lengths of the digests, from which the provers take their bytes.
use stark_stir_service.Common.{
  Returns, ℕ, ◌≡◌, refl, sym, ap, ◌∙◌, some, List, [], ◌∷◌, length, take, length-take, arith, ◌>>=◌,
  >>=-eq-some, some_injective,
}
use stark_stir_service.Poseidon.{PoseidonParams}
use stark_stir_service.Tower.{GroundField}
use stark_stir_service.Transcript.{
  FsHash, Hashers, HashBackend, Backend, sponge, hasher, FsTranscript, digest_of, challenge_message,
  backend_digest_len, fs_digest_len, new_sponge, new_poseidon, new_sha3_256, new_sha3_384,
  new_sha3_512, new_blake3, new_hasher, with_hash, with_backend, sponge_absorb_bytes,
  absorb_field_internal, sponge_challenge, squeeze_words, backend_absorb_bytes,
  backend_absorb_field, backend_challenge, backend_challenge_bytes, absorb_bytes, absorb_element,
  field_challenge, challenge_bytes,
}
use stark_stir_service.Transcript.Bounds.{
  IsParams, IsReady, squeeze_words-IsSponge, with_backend-IsReady,
}
use stark_stir_service.Transcript.Bounds.Sequences.{
  Op, absorbs, absorbs_element, challenges, challenges_bytes, perform, perform_all,
  perform_all-IsReady,
}

-- The digest lengths that the crates document.
pub record IsHashers (h : Hashers) : Type 0 where
  pub length-sha3_256 : (m : List ℕ) → length (h.sha3_256 m) ≡ 32
  pub length-sha3_384 : (m : List ℕ) → length (h.sha3_384 m) ≡ 48
  pub length-sha3_512 : (m : List ℕ) → length (h.sha3_512 m) ≡ 64
  pub length-blake3 : (m : List ℕ) → length (h.blake3 m) ≡ 32

module _ {F : Type 0} (g : GroundField F) (h : Hashers) where
  length-digest_of :
      (kind : HashBackend) (m bytes : List ℕ)
      → IsHashers h
      → length (digest_of h kind bytes) ≡ backend_digest_len {F = F} (hasher kind m)
  unfolding digest_of backend_digest_len
  length-digest_of HashBackend.sha3_256 m bytes laws = laws.length-sha3_256 bytes
  length-digest_of HashBackend.sha3_384 m bytes laws = laws.length-sha3_384 bytes
  length-digest_of HashBackend.sha3_512 m bytes laws = laws.length-sha3_512 bytes
  length-digest_of HashBackend.blake3 m bytes laws = laws.length-blake3 bytes

  length-backend_challenge_bytes :
      (b : Backend F) (label : List ℕ)
      → IsHashers h
      → IsReady b
      → Returns (backend_challenge_bytes g h b label) (λ r.
        (length r.0 ≡ backend_digest_len b) × (backend_digest_len r.1 ≡ backend_digest_len b))
  unfolding backend_challenge_bytes IsReady backend_digest_len
  length-backend_challenge_bytes (hasher kind m) label laws ready =
      (_, refl, (length-digest_of kind m (challenge_message g m label) laws, refl))
  length-backend_challenge_bytes (sponge s) label laws ready =
      let ((out, next), made, (size, ready')) = squeeze_words-IsSponge g s label 0 4 ready in
      ((take 32 out, sponge next), rw made refl, (omega (arith, length-take 32 out, size), refl))

  length-ready_challenge_bytes :
      (t : FsTranscript F) (label : List ℕ)
      → IsHashers h
      → IsReady t.backend
      → Returns (challenge_bytes g h t label) (λ r.
        (length r.0 ≡ backend_digest_len t.backend)
        × (backend_digest_len r.1.backend ≡ backend_digest_len t.backend))
  unfolding challenge_bytes
  length-ready_challenge_bytes t label laws ready =
      let (r, made, sizes) = length-backend_challenge_bytes t.backend label laws ready in
      ((r.0, record t { backend = r.1 }), rw made refl, sizes)

  -- The backend that a hash is made with has the digest length of the hash.
  with_backend-digest_len :
      (kind : FsHash) (init_label : List ℕ) (params : PoseidonParams F) (t : FsTranscript F)
      → with_backend g kind init_label params ≡ some t
      → backend_digest_len t.backend ≡ fs_digest_len kind
  unfolding with_backend with_hash new_poseidon new_sha3_256 new_sha3_384 new_sha3_512 new_blake3
      new_hasher backend_digest_len fs_digest_len
  with_backend-digest_len FsHash.poseidon init_label params t made =
      let (s, seeded, h1) = >>=-eq-some (new_sponge g params init_label) _ made in
      ap (λ u. backend_digest_len u.backend) (sym (some_injective h1))
  with_backend-digest_len FsHash.sha3_256 init_label params t made =
      ap (λ u. backend_digest_len u.backend) (sym (some_injective made))
  with_backend-digest_len FsHash.sha3_384 init_label params t made =
      ap (λ u. backend_digest_len u.backend) (sym (some_injective made))
  with_backend-digest_len FsHash.sha3_512 init_label params t made =
      ap (λ u. backend_digest_len u.backend) (sym (some_injective made))
  with_backend-digest_len FsHash.blake3 init_label params t made =
      ap (λ u. backend_digest_len u.backend) (sym (some_injective made))

  hasher-digest_len :
      (kind : HashBackend) (m m' : List ℕ)
      → backend_digest_len {F = F} (hasher kind m) ≡ backend_digest_len {F = F} (hasher kind m')
  unfolding backend_digest_len
  hasher-digest_len HashBackend.sha3_256 m m' = refl
  hasher-digest_len HashBackend.sha3_384 m m' = refl
  hasher-digest_len HashBackend.sha3_512 m m' = refl
  hasher-digest_len HashBackend.blake3 m m' = refl

  -- No operation changes it.
  backend_absorb_bytes-digest_len :
      (b b' : Backend F) (bytes : List ℕ)
      → backend_absorb_bytes g h b bytes ≡ some b'
      → backend_digest_len b' ≡ backend_digest_len b
  unfolding backend_absorb_bytes backend_digest_len
  backend_absorb_bytes-digest_len (hasher kind m) b' bytes made =
      ap backend_digest_len (sym (some_injective made)) ∙ hasher-digest_len kind _ m
  backend_absorb_bytes-digest_len (sponge s) b' bytes made =
      let (next, e, made') = >>=-eq-some (sponge_absorb_bytes g s bytes) _ made in
      ap backend_digest_len (sym (some_injective made'))

  backend_absorb_field-digest_len :
      (b b' : Backend F) (x : F)
      → backend_absorb_field g h b x ≡ some b'
      → backend_digest_len b' ≡ backend_digest_len b
  unfolding backend_absorb_field backend_digest_len
  backend_absorb_field-digest_len (hasher kind m) b' x made =
      ap backend_digest_len (sym (some_injective made)) ∙ hasher-digest_len kind _ m
  backend_absorb_field-digest_len (sponge s) b' x made =
      let (next, e, made') = >>=-eq-some (absorb_field_internal g s x) _ made in
      ap backend_digest_len (sym (some_injective made'))

  backend_challenge-digest_len :
      (b : Backend F) (label : List ℕ) (r : F × Backend F)
      → backend_challenge g h b label ≡ some r
      → backend_digest_len r.1 ≡ backend_digest_len b
  unfolding backend_challenge backend_digest_len
  backend_challenge-digest_len (hasher kind m) label r made =
      ap (λ q. backend_digest_len q.1) (sym (some_injective made))
  backend_challenge-digest_len (sponge s) label r made =
      let (next, e, made') = >>=-eq-some (sponge_challenge g s label) _ made in
      ap (λ q. backend_digest_len q.1) (sym (some_injective made'))

  backend_challenge_bytes-digest_len :
      (b : Backend F) (label : List ℕ) (r : List ℕ × Backend F)
      → backend_challenge_bytes g h b label ≡ some r
      → backend_digest_len r.1 ≡ backend_digest_len b
  unfolding backend_challenge_bytes backend_digest_len
  backend_challenge_bytes-digest_len (hasher kind m) label r made =
      ap (λ q. backend_digest_len q.1) (sym (some_injective made))
  backend_challenge_bytes-digest_len (sponge s) label r made =
      let (next, e, made') = >>=-eq-some (squeeze_words g s label 0 4) _ made in
      ap (λ q. backend_digest_len q.1) (sym (some_injective made'))

  perform-digest_len :
      (t u : FsTranscript F) (op : Op F)
      → perform g h t op ≡ some u
      → backend_digest_len u.backend ≡ backend_digest_len t.backend
  unfolding perform absorb_bytes absorb_element field_challenge challenge_bytes
  perform-digest_len t u (absorbs bytes) made =
      let (b, e, h1) = >>=-eq-some (backend_absorb_bytes g h t.backend bytes) _ made in
      ap (λ v. backend_digest_len v.backend) (sym (some_injective h1))
      ∙ backend_absorb_bytes-digest_len t.backend b bytes e
  perform-digest_len t u (absorbs_element x) made =
      let (b, e, h1) = >>=-eq-some (backend_absorb_field g h t.backend x) _ made in
      ap (λ v. backend_digest_len v.backend) (sym (some_injective h1))
      ∙ backend_absorb_field-digest_len t.backend b x e
  perform-digest_len t u (challenges label) made =
      let (r, e, h1) = >>=-eq-some (field_challenge g h t label) _ made in
      let (b, e', h2) = >>=-eq-some (backend_challenge g h t.backend label) _ e in
      ap (λ v. backend_digest_len v.backend) (sym (some_injective h1))
      ∙ ap (λ q. backend_digest_len q.1.backend) (sym (some_injective h2))
      ∙ backend_challenge-digest_len t.backend label b e'
  perform-digest_len t u (challenges_bytes label) made =
      let (r, e, h1) = >>=-eq-some (challenge_bytes g h t label) _ made in
      let (b, e', h2) = >>=-eq-some (backend_challenge_bytes g h t.backend label) _ e in
      ap (λ v. backend_digest_len v.backend) (sym (some_injective h1))
      ∙ ap (λ q. backend_digest_len q.1.backend) (sym (some_injective h2))
      ∙ backend_challenge_bytes-digest_len t.backend label b e'

  perform_all-digest_len :
      (t u : FsTranscript F) (ops : List (Op F))
      → perform_all g h t ops ≡ some u
      → backend_digest_len u.backend ≡ backend_digest_len t.backend
  unfolding perform_all
  perform_all-digest_len t u [] made =
      ap (λ v. backend_digest_len v.backend) (sym (some_injective made))
  perform_all-digest_len t u (op ∷ ops) made =
      let (next, e, rest) = >>=-eq-some (perform g h t op) _ made in
      perform_all-digest_len next u ops rest ∙ perform-digest_len t next op e

  -- Where the hash functions have the digest lengths that their crates document, and the Poseidon
  -- parameters 17 rows: a transcript made for a hash, after any operations, returns from
  -- `challenge_bytes` as many bytes as `FsHash::digest_len` says of that hash, and its backend still
  -- has that digest length.
  pub length-challenge_bytes :
      (kind : FsHash) (init_label : List ℕ) (params : PoseidonParams F) (ops : List (Op F))
      (label : List ℕ)
      → IsHashers h
      → IsParams params
      → Returns
          (with_backend g kind init_label params
            >>= (λ t. perform_all g h t ops)
            >>= (λ t. challenge_bytes g h t label))
          (λ r.
            (length r.0 ≡ fs_digest_len kind)
            × (backend_digest_len r.1.backend ≡ fs_digest_len kind))
  length-challenge_bytes kind init_label params ops label laws shaped =
      let (t0, made, ready0) = with_backend-IsReady g kind init_label params shaped in
      let (t, ran, ready) = perform_all-IsReady g h t0 ops ready0 in
      let (r, drawn, (size, kept)) = length-ready_challenge_bytes t label laws ready in
      let same : backend_digest_len t.backend ≡ fs_digest_len kind =
        perform_all-digest_len t0 t ops ran
        ∙ with_backend-digest_len kind init_label params t0 made in
      (r, rw (made, ran) drawn, (size ∙ same, kept ∙ same))
