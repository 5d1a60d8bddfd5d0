-- ===== src/Fri.antt =====
-- crates/deep_ali/src/fri.rs: what the provers and verifiers of DEEP-FRI and STIR share. The crates
-- that the file calls from outside the repository (arkworks, rand, sha3, blake3) are the record
-- `Platform` and the instance `Hash`. `none` is a panic.
pub mod Power
pub mod Challenge
pub mod Transcripts
pub mod Sizes
pub mod Layers
pub mod Interpolate
pub mod Data
pub mod Commitments
pub mod Replay
pub mod Prover
pub mod Verifier
pub mod Rounds
use stark_stir_service.Common.{
  ℕ, zero, suc, ◌+◌, ◌-◌, ◌*◌, ◌/◌, ◌%◌, ◌^◌, Bool, Option, none, some, List, [], ◌∷◌, ◌++◌, ◌==◌,
  ltb, if◌then◌else◌, length, take, drop, to_le_bytes, from_le_bytes, Text, text, ◌>>=◌,
}
use stark_stir_service.Hashing.{Hash}
use stark_stir_service.Tower.{Ring, ◌⊕◌, ◌⊗◌, GroundField, TowerField}
use stark_stir_service.Transcript
use stark_stir_service.Transcript.{Hashers, FsTranscript, absorb_element, new_matching_hash}

-- The crates outside: fields F and E of arkworks with their comparisons, `pow`, the radix-2 domains
-- (`group_gen` and `ifft` of a size), the draws of `StdRng::from_seed`, and the hashes.
pub record Platform (F E : Type 0) : Type 0 where
  pub ground : GroundField F
  pub tower : TowerField F E
  pub eq_ground : F → F → Bool
  pub eq : E → E → Bool
  pub pow : F → ℕ → F
  pub group_gen : ℕ → Option F
  pub ifft : ℕ → List F → List F
  pub draw : List ℕ → ℕ → ℕ
  pub hashers : Hashers

-- `i.to_string().bytes()`; 20 digits are enough for a `usize`.
unfoldable pub digits : ℕ → ℕ → List ℕ
digits zero n = []
digits (suc fuel) n =
    let rest = digits fuel (n / 10) in
    if ltb n 10 then (48 + n) ∷ [] else rest ++ ((48 + n % 10) ∷ [])

-- `usize::next_power_of_two`.
unfoldable pub double_until : ℕ → ℕ → ℕ → ℕ
double_until zero p n = p
double_until (suc fuel) p n = let rest = double_until fuel (p * 2) n in if ltb p n then rest else p

unfoldable pub next_power_of_two : ℕ → ℕ
unfolding double_until
next_power_of_two n = double_until 64 1 n

-- The index vectors of powers: `acc`, `acc * x`, …
unfoldable pub pows_from : {A : Type 0} → Ring A → A → A → ℕ → List A
pows_from r acc x zero = []
pows_from r acc x (suc n) = acc ∷ pows_from r (r.mul acc x) x n

module _ {F E : Type 0} (p : Platform F E) where
  instance abbrev scalars : Ring F
  scalars = p.ground.ring

  instance abbrev elements : Ring E
  elements = p.tower.ring

  unfoldable pub field_to_le_bytes : F → List ℕ
  field_to_le_bytes f = to_le_bytes 8 (p.ground.into_u64 f)

  -- One round for each slice of 7 bytes, from the end of the digest.
  unfoldable pub accumulate : ℕ → F → List ℕ → F
  accumulate zero acc bytes = acc
  accumulate (suc n) acc bytes =
      let cut = length bytes - 7 in
      let chunk = drop cut bytes in
      let shift = 2 ^ (length chunk * 8) in
      accumulate n (acc ⊗ p.ground.from_u64 shift ⊕ p.ground.from_u64 (from_le_bytes chunk))
        (take cut bytes)

  unfoldable pub safe_field_challenge : FsTranscript F → List ℕ → Option (F × FsTranscript F)
  unfolding accumulate
  safe_field_challenge tr label = do
    (bytes, next) ← Transcript.challenge_bytes p.ground p.hashers tr label
    some (accumulate ((length bytes + 6) / 7) p.ground.ring.zero bytes, next)

  unfoldable pub ext_div : E → E → Option E
  ext_div a b = do i ← p.tower.invert b; some (a ⊗ i)

  -- The loop while `exp > 1`; 64 rounds clear a `u64`.
  unfoldable pub ext_pow_loop : ℕ → E → E → ℕ → E
  ext_pow_loop zero base result exp = result ⊗ base
  ext_pow_loop (suc fuel) base result exp =
      let next =
        ext_pow_loop fuel (p.tower.sq base) (if exp % 2 == 1 then result ⊗ base else result)
          (exp / 2) in
      if ltb 1 exp then next else result ⊗ base

  unfoldable pub ext_pow : E → ℕ → E
  unfolding ext_pow_loop
  ext_pow base exp = if exp == 0 then elements.one else ext_pow_loop 64 base elements.one exp

  unfoldable pub build_z_pows : F → ℕ → List F
  unfolding pows_from
  build_z_pows z_l m = pows_from p.ground.ring p.ground.ring.one z_l m

  unfoldable pub build_ext_pows : E → ℕ → List E
  unfolding pows_from
  build_ext_pows alpha m = pows_from p.tower.ring p.tower.ring.one alpha m

  -- `dom.group_gen` of the domain of a size, or the panic where there is none.
  unfoldable pub new_radix2 : ℕ → Option F
  new_radix2 size = p.group_gen size

  -- The components of a challenge, under the labels tag/c0, tag/c1, …
  unfoldable pub challenge_components :
      FsTranscript F → List ℕ → ℕ → ℕ → Option (List F × FsTranscript F)
  unfolding safe_field_challenge digits
  challenge_components tr tag i zero = some ([], tr)
  challenge_components tr tag i (suc n) = do
    (c, next) ← safe_field_challenge tr (tag ++ (text "/c" ++ digits 20 i))
    (cs, last) ← challenge_components next tag (i + 1) n
    some (c ∷ cs, last)

  unfoldable pub challenge_ext : FsTranscript F → List ℕ → Option (E × FsTranscript F)
  unfolding challenge_components
  challenge_ext tr tag = do
    (components, next) ← challenge_components tr tag 0 p.tower.degree
    x ← p.tower.from_fp_components components
    some (x, next)

  unfoldable pub absorb_fields : FsTranscript F → List F → Option (FsTranscript F)
  unfolding absorb_element
  absorb_fields tr [] = some tr
  absorb_fields tr (x ∷ xs) = do
    next ← absorb_element p.ground p.hashers tr x
    absorb_fields next xs

  unfoldable pub absorb_ext : FsTranscript F → E → Option (FsTranscript F)
  unfolding absorb_fields
  absorb_ext tr v = absorb_fields tr (p.tower.to_fp_components v)

  unfoldable pub absorb_exts : FsTranscript F → List E → Option (FsTranscript F)
  unfolding absorb_ext
  absorb_exts tr [] = some tr
  absorb_exts tr (v ∷ vs) = do next ← absorb_ext tr v; absorb_exts next vs

  module _ ⦃H : Hash⦄ where
    -- `HASH_BYTES` bytes of the transcript's digest, if it has as many.
    unfoldable pub transcript_challenge_hash :
        FsTranscript F → List ℕ → Option (List ℕ × FsTranscript F)
    transcript_challenge_hash tr label = do
      (v, next) ← Transcript.challenge_bytes p.ground p.hashers tr label
      if ltb (length v) H.size then none else some (take H.size v, next)

    unfoldable pub tr_hash_fields_tagged : Text → List F → Option F
    unfolding absorb_fields safe_field_challenge new_matching_hash
    tr_hash_fields_tagged tag fields = do
      let tr = new_matching_hash p.ground H.size (text "FRI/FS")
      tagged ← Transcript.absorb_bytes p.ground p.hashers tr tag
      filled ← absorb_fields tagged fields
      (out, last) ← safe_field_challenge filled (text "out")
      some out
