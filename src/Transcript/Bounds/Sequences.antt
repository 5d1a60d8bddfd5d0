-- ===== src/Transcript/Bounds/Sequences.antt =====
-- crates/transcript/src/lib.rs: sequences of the operations of `Transcript`.
use stark_stir_service.Common.{
  Returns, Returns-bind, ℕ, refl, Option, some, List, [], ◌∷◌, take, ◌>>=◌,
}
use stark_stir_service.Tower.{GroundField}
use stark_stir_service.Poseidon.{PoseidonParams}
use stark_stir_service.Transcript.{
  FsHash, Hashers, Backend, sponge, hasher, FsTranscript, backend_absorb_bytes,
  backend_absorb_field, backend_challenge, backend_challenge_bytes, with_backend, absorb_bytes,
  absorb_element, field_challenge, challenge_bytes,
}
use stark_stir_service.Transcript.Bounds.{
  IsParams, IsReady, sponge_absorb_bytes-IsSponge, absorb_field_internal-IsSponge,
  sponge_challenge-IsSponge, squeeze_words-IsSponge, with_backend-IsReady,
}

-- An operation of a transcript; a challenge leaves its result behind.
pub data Op (F : Type 0) : Type 0 where
  absorbs : List ℕ → Op F
  absorbs_element : F → Op F
  challenges : List ℕ → Op F
  challenges_bytes : List ℕ → Op F

module _ {F : Type 0} (g : GroundField F) (h : Hashers) where
  backend_absorb_bytes-IsReady :
      (b : Backend F) (bytes : List ℕ)
      → IsReady b
      → Returns (backend_absorb_bytes g h b bytes) IsReady
  unfolding backend_absorb_bytes IsReady
  backend_absorb_bytes-IsReady (hasher kind m) bytes ready = (_, refl, tt)
  backend_absorb_bytes-IsReady (sponge s) bytes ready =
      Returns-bind (sponge_absorb_bytes-IsSponge g s bytes ready)
        (λ next ready'. (sponge next, refl, ready'))

  backend_absorb_field-IsReady :
      (b : Backend F) (x : F) → IsReady b → Returns (backend_absorb_field g h b x) IsReady
  unfolding backend_absorb_field IsReady
  backend_absorb_field-IsReady (hasher kind m) x ready = (_, refl, tt)
  backend_absorb_field-IsReady (sponge s) x ready =
      Returns-bind (absorb_field_internal-IsSponge g s x ready)
        (λ next ready'. (sponge next, refl, ready'))

  backend_challenge-IsReady :
      (b : Backend F) (label : List ℕ)
      → IsReady b
      → Returns (backend_challenge g h b label) (λ r. IsReady r.1)
  unfolding backend_challenge IsReady
  backend_challenge-IsReady (hasher kind m) label ready = (_, refl, tt)
  backend_challenge-IsReady (sponge s) label ready =
      Returns-bind (sponge_challenge-IsSponge g s label ready)
        (λ (f, next) ready'. ((f, sponge next), refl, ready'))

  backend_challenge_bytes-IsReady :
      (b : Backend F) (label : List ℕ)
      → IsReady b
      → Returns (backend_challenge_bytes g h b label) (λ r. IsReady r.1)
  unfolding backend_challenge_bytes IsReady
  backend_challenge_bytes-IsReady (hasher kind m) label ready = (_, refl, tt)
  backend_challenge_bytes-IsReady (sponge s) label ready =
      Returns-bind (squeeze_words-IsSponge g s label 0 4 ready)
        (λ (out, next) (size, ready'). ((take 32 out, sponge next), refl, ready'))

  -- Each operation, of a transcript that is ready.
  pub absorb_bytes-IsReady :
      (t : FsTranscript F) (bytes : List ℕ)
      → IsReady t.backend
      → Returns (absorb_bytes g h t bytes) (λ u. IsReady u.backend)
  unfolding absorb_bytes
  absorb_bytes-IsReady t bytes ready =
      Returns-bind (backend_absorb_bytes-IsReady t.backend bytes ready)
        (λ b ready'. (record t { backend = b }, refl, ready'))

  pub absorb_element-IsReady :
      (t : FsTranscript F) (x : F)
      → IsReady t.backend
      → Returns (absorb_element g h t x) (λ u. IsReady u.backend)
  unfolding absorb_element
  absorb_element-IsReady t x ready =
      Returns-bind (backend_absorb_field-IsReady t.backend x ready)
        (λ b ready'. (record t { backend = b }, refl, ready'))

  pub field_challenge-IsReady :
      (t : FsTranscript F) (label : List ℕ)
      → IsReady t.backend
      → Returns (field_challenge g h t label) (λ r. IsReady r.1.backend)
  unfolding field_challenge
  field_challenge-IsReady t label ready =
      Returns-bind (backend_challenge-IsReady t.backend label ready)
        (λ (f, b) ready'. ((f, record t { backend = b }), refl, ready'))

  pub challenge_bytes-IsReady :
      (t : FsTranscript F) (label : List ℕ)
      → IsReady t.backend
      → Returns (challenge_bytes g h t label) (λ r. IsReady r.1.backend)
  unfolding challenge_bytes
  challenge_bytes-IsReady t label ready =
      Returns-bind (backend_challenge_bytes-IsReady t.backend label ready)
        (λ (out, b) ready'. ((out, record t { backend = b }), refl, ready'))

  unfoldable pub perform : FsTranscript F → Op F → Option (FsTranscript F)
  perform t (absorbs bytes) = absorb_bytes g h t bytes
  perform t (absorbs_element x) = absorb_element g h t x
  perform t (challenges label) = do (f, next) ← field_challenge g h t label; some next
  perform t (challenges_bytes label) = do (out, next) ← challenge_bytes g h t label; some next

  unfoldable pub perform_all : FsTranscript F → List (Op F) → Option (FsTranscript F)
  perform_all t [] = some t
  perform_all t (op ∷ ops) = do next ← perform t op; perform_all next ops

  perform-IsReady :
      (t : FsTranscript F) (op : Op F)
      → IsReady t.backend
      → Returns (perform t op) (λ u. IsReady u.backend)
  unfolding perform
  perform-IsReady t (absorbs bytes) ready = absorb_bytes-IsReady t bytes ready
  perform-IsReady t (absorbs_element x) ready = absorb_element-IsReady t x ready
  perform-IsReady t (challenges label) ready =
      Returns-bind (field_challenge-IsReady t label ready) (λ r ready'. (r.1, refl, ready'))
  perform-IsReady t (challenges_bytes label) ready =
      Returns-bind (challenge_bytes-IsReady t label ready) (λ r ready'. (r.1, refl, ready'))

  -- From a transcript that is ready, a sequence of operations has no panic.
  pub perform_all-IsReady :
      (t : FsTranscript F) (ops : List (Op F))
      → IsReady t.backend
      → Returns (perform_all t ops) (λ u. IsReady u.backend)
  unfolding perform_all
  perform_all-IsReady t [] ready = (t, refl, ready)
  perform_all-IsReady t (op ∷ ops) ready =
      Returns-bind (perform-IsReady t op ready) (λ next ready'. perform_all-IsReady next ops ready')

  -- With Poseidon parameters of 17 rows, a transcript of every hash is made, and then absorbs and
  -- gives
  -- challenges in every order with no index out of bounds.
  pub with_backend-perform_all :
      (kind : FsHash) (label : List ℕ) (params : PoseidonParams F) (ops : List (Op F))
      → IsParams params
      → Returns
          (with_backend g kind label params >>= (λ t. perform_all t ops))
          (λ u. IsReady u.backend)
  with_backend-perform_all kind label params ops shaped =
      Returns-bind (with_backend-IsReady g kind label params shaped)
        (λ t ready. perform_all-IsReady t ops ready)
