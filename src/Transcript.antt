-- ===== src/Transcript.antt =====
-- crates/transcript/src/lib.rs: Fiat-Shamir transcripts over Poseidon, SHA3 and Blake3. A backend of
-- the latter kinds is the message that its hasher has been fed; the hash functions come from
-- outside.
-- `none` is a panic. The field is the ground field g.
pub mod Bounds
use stark_stir_service.Common.{
  ℕ, zero, suc, ◌+◌, ◌/◌, Bool, true, false, Option, none, some, List, [], ◌∷◌, ◌++◌, map, ◌==◌,
  if◌then◌else◌, get_elem?, set_elem, take, drop, length, replicate, to_le_bytes, from_le_bytes,
  Text, text, ◌>>=◌,
}
use stark_stir_service.Tower.{GroundField}
use stark_stir_service.Poseidon.{PoseidonParams, permute, generate_params_t17_x5}

abbrev pub transcript_init : Text
transcript_init = text "FSv1-TRANSCRIPT-INIT"

abbrev pub absorb_tag : Text
absorb_tag = text "FSv1-ABSORB-BYTES"

abbrev pub challenge_tag : Text
challenge_tag = text "FSv1-CHALLENGE"

pub data FsHash : Type 0 where
  poseidon sha3_256 sha3_384 sha3_512 blake3 : FsHash

unfoldable pub fs_digest_len : FsHash → ℕ
fs_digest_len FsHash.poseidon = 32
fs_digest_len FsHash.sha3_256 = 32
fs_digest_len FsHash.sha3_384 = 48
fs_digest_len FsHash.sha3_512 = 64
fs_digest_len FsHash.blake3 = 32

-- The crates sha3 and blake3, on whole messages.
pub record Hashers : Type 0 where
  pub sha3_256 : List ℕ → List ℕ
  pub sha3_384 : List ℕ → List ℕ
  pub sha3_512 : List ℕ → List ℕ
  pub blake3 : List ℕ → List ℕ

pub record PoseidonBackend (F : Type 0) : Type 0 where
  pub state : List F
  pub pos : ℕ
  pub params : PoseidonParams F

-- The variants of the macro `sha3_variant!` and the Blake3 backend.
pub data HashBackend : Type 0 where
  sha3_256 sha3_384 sha3_512 blake3 : HashBackend

pub data Backend (F : Type 0) : Type 0 where
  sponge : PoseidonBackend F → Backend F
  hasher : HashBackend → List ℕ → Backend F

pub record FsTranscript (F : Type 0) : Type 0 where
  pub backend : Backend F
  pub hash : FsHash

unfoldable pub backend_digest_len : {F : Type 0} → Backend F → ℕ
backend_digest_len (sponge s) = 32
backend_digest_len (hasher HashBackend.sha3_256 m) = 32
backend_digest_len (hasher HashBackend.sha3_384 m) = 48
backend_digest_len (hasher HashBackend.sha3_512 m) = 64
backend_digest_len (hasher HashBackend.blake3 m) = 32

unfoldable pub digest_of : Hashers → HashBackend → List ℕ → List ℕ
digest_of h HashBackend.sha3_256 m = h.sha3_256 m
digest_of h HashBackend.sha3_384 m = h.sha3_384 m
digest_of h HashBackend.sha3_512 m = h.sha3_512 m
digest_of h HashBackend.blake3 m = h.blake3 m

module _ {F : Type 0} (g : GroundField F) where
  -- Shorter slices are padded with zero bytes, which do not change the number.
  unfoldable pub bytes_to_field_u64 : List ℕ → F
  bytes_to_field_u64 bytes = g.from_u64 (from_le_bytes (take 8 bytes))

  unfoldable pub domain_tag_to_field : List ℕ → F
  unfolding bytes_to_field_u64
  domain_tag_to_field tag = bytes_to_field_u64 tag

  -- The slices of 8 bytes, with as many rounds as there are slices.
  unfoldable pub field_words : ℕ → List ℕ → List F
  unfolding bytes_to_field_u64
  field_words zero bytes = []
  field_words (suc n) bytes = bytes_to_field_u64 bytes ∷ field_words n (drop 8 bytes)

  unfoldable pub bytes_to_field_words : List ℕ → List F
  unfolding field_words
  bytes_to_field_words bytes = field_words ((length bytes + 7) / 8) bytes

  -- `absorb_field_internal`: at the end of the rate the state is permuted first.
  unfoldable pub absorb_field_internal : PoseidonBackend F → F → Option (PoseidonBackend F)
  unfolding permute
  absorb_field_internal s x =
      let full = s.pos == 16 in
      let state = if full then permute g s.state s.params else s.state in
      let pos = if full then 0 else s.pos in
      do
        old ← get_elem? state pos
        some (record s { state = set_elem state pos (g.ring.add old x); pos = pos + 1 })

  unfoldable pub squeeze : PoseidonBackend F → Option (F × PoseidonBackend F)
  unfolding permute
  squeeze s =
      let state = permute g s.state s.params in
      do first ← get_elem? state 0; some (first, record s { state = state; pos = 0 })

  unfoldable pub absorb_words : PoseidonBackend F → List F → Option (PoseidonBackend F)
  unfolding absorb_field_internal
  absorb_words s [] = some s
  absorb_words s (w ∷ ws) = do next ← absorb_field_internal s w; absorb_words next ws

  unfoldable pub sponge_absorb_bytes : PoseidonBackend F → List ℕ → Option (PoseidonBackend F)
  unfolding absorb_words bytes_to_field_words domain_tag_to_field
  sponge_absorb_bytes s bytes =
      absorb_words s (domain_tag_to_field absorb_tag ∷ bytes_to_field_words bytes)

  unfoldable pub sponge_challenge : PoseidonBackend F → List ℕ → Option (F × PoseidonBackend F)
  unfolding absorb_field_internal sponge_absorb_bytes squeeze domain_tag_to_field
  sponge_challenge s label = do
    tagged ← absorb_field_internal s (domain_tag_to_field challenge_tag)
    labelled ← sponge_absorb_bytes tagged label
    squeeze labelled

  -- The default of `challenge_bytes`: a squeezed word under the label, a slash and the counter.
  unfoldable pub squeeze_words :
      PoseidonBackend F → List ℕ → ℕ → ℕ → Option (List ℕ × PoseidonBackend F)
  unfolding sponge_challenge
  squeeze_words s label i zero = some ([], s)
  squeeze_words s label i (suc n) = do
    (f, next) ← sponge_challenge s (label ++ (47 ∷ i ∷ []))
    (rest, last) ← squeeze_words next label (i + 1) n
    some (to_le_bytes 8 (g.into_u64 f) ++ rest, last)

  unfoldable pub new_sponge : PoseidonParams F → List ℕ → Option (PoseidonBackend F)
  unfolding sponge_absorb_bytes domain_tag_to_field
  new_sponge params init_label =
      sponge_absorb_bytes
        (record {
          state = replicate 16 g.ring.zero ++ domain_tag_to_field transcript_init ∷ [];
          pos = 0;
          params = params;
        })
        init_label

  -- `new` of the hash backends.
  unfoldable pub new_hasher : HashBackend → List ℕ → Backend F
  new_hasher kind init_label = hasher kind (transcript_init ++ init_label)

  unfoldable pub hasher_absorb_bytes : List ℕ → List ℕ → List ℕ
  hasher_absorb_bytes m bytes = m ++ (absorb_tag ++ bytes)

  -- What a challenge hashes, in a copy of the hasher.
  unfoldable pub challenge_message : List ℕ → List ℕ → List ℕ
  challenge_message m label = m ++ (challenge_tag ++ label)

  module _ (h : Hashers) where
    unfoldable pub backend_absorb_bytes : Backend F → List ℕ → Option (Backend F)
    unfolding sponge_absorb_bytes hasher_absorb_bytes
    backend_absorb_bytes (sponge s) bytes = do
      next ← sponge_absorb_bytes s bytes
      some (sponge next)
    backend_absorb_bytes (hasher kind m) bytes = some (hasher kind (hasher_absorb_bytes m bytes))

    unfoldable pub backend_absorb_field : Backend F → F → Option (Backend F)
    unfolding absorb_field_internal hasher_absorb_bytes
    backend_absorb_field (sponge s) x = do next ← absorb_field_internal s x; some (sponge next)
    backend_absorb_field (hasher kind m) x =
        some (hasher kind (hasher_absorb_bytes m (to_le_bytes 8 (g.into_u64 x))))

    unfoldable pub backend_challenge : Backend F → List ℕ → Option (F × Backend F)
    unfolding sponge_challenge challenge_message bytes_to_field_u64 digest_of
    backend_challenge (sponge s) label = do
      (f, next) ← sponge_challenge s label
      some (f, sponge next)
    backend_challenge (hasher kind m) label =
        some (bytes_to_field_u64 (digest_of h kind (challenge_message m label)), hasher kind m)

    unfoldable pub backend_challenge_bytes : Backend F → List ℕ → Option (List ℕ × Backend F)
    unfolding squeeze_words challenge_message digest_of backend_digest_len
    backend_challenge_bytes (sponge s) label = do
      let n = backend_digest_len (sponge s)
      (out, next) ← squeeze_words s label 0 ((n + 7) / 8)
      some (take n out, sponge next)
    backend_challenge_bytes (hasher kind m) label =
        some (digest_of h kind (challenge_message m label), hasher kind m)

    unfoldable pub default_params : PoseidonParams F
    unfolding generate_params_t17_x5
    default_params = generate_params_t17_x5 g h.blake3 (text "POSEIDON-T17-X5-TRANSCRIPT")

  -- `Transcript::new`.
  unfoldable pub new_poseidon : List ℕ → PoseidonParams F → Option (FsTranscript F)
  unfolding new_sponge
  new_poseidon init_label params = do
    s ← new_sponge params init_label
    some (record { backend = sponge s; hash = FsHash.poseidon })

  unfoldable pub new_sha3_256 : List ℕ → FsTranscript F
  unfolding new_hasher
  new_sha3_256 init_label = record {
    backend = new_hasher HashBackend.sha3_256 init_label;
    hash = FsHash.sha3_256;
  }

  unfoldable pub new_sha3_384 : List ℕ → FsTranscript F
  unfolding new_hasher
  new_sha3_384 init_label = record {
    backend = new_hasher HashBackend.sha3_384 init_label;
    hash = FsHash.sha3_384;
  }

  unfoldable pub new_sha3_512 : List ℕ → FsTranscript F
  unfolding new_hasher
  new_sha3_512 init_label = record {
    backend = new_hasher HashBackend.sha3_512 init_label;
    hash = FsHash.sha3_512;
  }

  unfoldable pub new_blake3 : List ℕ → FsTranscript F
  unfolding new_hasher
  new_blake3 init_label = record {
    backend = new_hasher HashBackend.blake3 init_label;
    hash = FsHash.blake3;
  }

  -- By `HASH_BYTES`.
  unfoldable pub new_matching_hash : ℕ → List ℕ → FsTranscript F
  unfolding new_sha3_256 new_sha3_384 new_sha3_512
  new_matching_hash hash_bytes init_label =
      if hash_bytes == 48
      then new_sha3_384 init_label
      else (if hash_bytes == 64 then new_sha3_512 init_label else new_sha3_256 init_label)

  unfoldable pub with_hash : FsHash → List ℕ → Option (PoseidonParams F) → Option (FsTranscript F)
  unfolding new_poseidon new_sha3_256 new_sha3_384 new_sha3_512 new_blake3
  with_hash FsHash.poseidon init_label none = none
  with_hash FsHash.poseidon init_label (some params) = new_poseidon init_label params
  with_hash FsHash.sha3_256 init_label params = some (new_sha3_256 init_label)
  with_hash FsHash.sha3_384 init_label params = some (new_sha3_384 init_label)
  with_hash FsHash.sha3_512 init_label params = some (new_sha3_512 init_label)
  with_hash FsHash.blake3 init_label params = some (new_blake3 init_label)

  unfoldable pub with_backend : FsHash → List ℕ → PoseidonParams F → Option (FsTranscript F)
  unfolding with_hash
  with_backend kind init_label params = with_hash kind init_label (some params)

  module _ (h : Hashers) where
    unfoldable pub absorb_bytes : FsTranscript F → List ℕ → Option (FsTranscript F)
    unfolding backend_absorb_bytes
    absorb_bytes t bytes = do
      b ← backend_absorb_bytes h t.backend bytes
      some (record t { backend = b })

    unfoldable pub absorb_element : FsTranscript F → F → Option (FsTranscript F)
    unfolding backend_absorb_field
    absorb_element t x = do b ← backend_absorb_field h t.backend x; some (record t { backend = b })

    unfoldable pub field_challenge : FsTranscript F → List ℕ → Option (F × FsTranscript F)
    unfolding backend_challenge
    field_challenge t label = do
      (f, b) ← backend_challenge h t.backend label
      some (f, record t { backend = b })

    unfoldable pub challenge_bytes : FsTranscript F → List ℕ → Option (List ℕ × FsTranscript F)
    unfolding backend_challenge_bytes
    challenge_bytes t label = do
      (out, b) ← backend_challenge_bytes h t.backend label
      some (out, record t { backend = b })
