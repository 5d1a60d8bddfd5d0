-- ===== src/Fri/Layers/Sampling.antt =====
-- The point of a level is drawn outside the domain.
use stark_stir_service.Common.{
  ℕ, zero, suc, ◌+◌, ◌%◌, ◌^◌, ◌≡◌, ◌≢◌, refl, ◌⊎◌, ◌↔◌, inl, inr, true, false, Bool-cases, some,
  List, [], ◌∷◌, ◌++◌, replicate, text,
}
use stark_stir_service.Hashing.{Hash}
use stark_stir_service.Fri.{Platform, field_to_le_bytes, tr_hash_fields_tagged}
use stark_stir_service.Fri.Transcripts.{tr_hash_fields_tagged-total}
use stark_stir_service.Fri.Layers.{sample_loop, fri_sample_z_ell}

-- Elements of the ground field compare as equal when they are equal.
unfoldable pub ComparesEqual : {F E : Type 0} → Platform F E → Type 0
ComparesEqual {F = F} p = (a b : F) → (p.eq_ground a b ≡ true) ↔ (a ≡ b)

module _ {F E : Type 0} (p : Platform F E) where
  -- The point that is sampled, with a number of tries left, from draw k on: the first draw that is
  -- not zero and lies outside the domain, and without one the fallback, if that is outside, or 11.
  pub data Sampled (seed_bytes : List ℕ) (domain_size : ℕ) (fallback : F) : ℕ → ℕ → F → Type 0 where
    accepts :
        {tries k : ℕ}
        → p.ground.from_u64 (p.draw seed_bytes k) ≢ p.ground.ring.zero
        → p.pow (p.ground.from_u64 (p.draw seed_bytes k)) domain_size ≢ p.ground.ring.one
        → Sampled seed_bytes domain_size fallback
            (suc tries)
            k
            (p.ground.from_u64 (p.draw seed_bytes k))
    rejects :
        {tries k : ℕ} {z : F}
        → (p.ground.from_u64 (p.draw seed_bytes k) ≡ p.ground.ring.zero)
          ⊎ (p.pow (p.ground.from_u64 (p.draw seed_bytes k)) domain_size ≡ p.ground.ring.one)
        → Sampled seed_bytes domain_size fallback tries (k + 1) z
        → Sampled seed_bytes domain_size fallback (suc tries) k z
    falls_back :
        {k : ℕ}
        → p.pow fallback domain_size ≢ p.ground.ring.one
        → Sampled seed_bytes domain_size fallback zero k fallback
    gives_up :
        {k : ℕ}
        → p.pow fallback domain_size ≡ p.ground.ring.one
        → Sampled seed_bytes domain_size fallback zero k (p.ground.from_u64 11)

  module _ ⦃H : Hash⦄ where
    differs : (a b : F) → ComparesEqual p → p.eq_ground a b ≡ false → a ≢ b
    unfolding ComparesEqual
    differs a b eq different same = let alike = (eq a b).1 same in cc

    equals : (a b : F) → ComparesEqual p → p.eq_ground a b ≡ true → a ≡ b
    unfolding ComparesEqual
    equals a b eq alike = (eq a b).0 alike

    sample_loop-Sampled :
        (tries k : ℕ) (seed_bytes : List ℕ) (domain_size : ℕ) (fallback : F)
        → ComparesEqual p
        → Sampled seed_bytes domain_size fallback tries k
            (sample_loop p tries k seed_bytes domain_size fallback)
    unfolding sample_loop
    sample_loop-Sampled zero k seed_bytes domain_size fallback eq =
        elim (Bool-cases (p.eq_ground (p.pow fallback domain_size) p.ground.ring.one)) [
          | inl inside ↦ rw inside (gives_up (equals _ _ eq inside))
          | inr outside ↦ rw outside (falls_back (differs _ _ eq outside))
        ]
    sample_loop-Sampled (suc tries) k seed_bytes domain_size fallback eq =
        let cand = p.ground.from_u64 (p.draw seed_bytes k) in
        let rest = sample_loop-Sampled tries (k + 1) seed_bytes domain_size fallback eq in
        elim (Bool-cases (p.eq_ground cand p.ground.ring.zero)) [
          | inl null ↦ rw null (rejects (inl (equals _ _ eq null)) rest)
          | inr unit ↦ elim (Bool-cases (p.eq_ground (p.pow cand domain_size) p.ground.ring.one)) [
            | inl inside ↦ rw (unit, inside) (rejects (inr (equals _ _ eq inside)) rest)
            | inr outside ↦
                rw (unit, outside) (accepts (differs _ _ eq unit) (differs _ _ eq outside))
          ]
        ]

    -- Where elements compare as equal when they are equal, `fri_sample_z_ell` ends for every seed,
    -- level and size: with the first of the 1000 draws from the tagged hash of the three that is not
    -- zero and whose power of the domain's size is not one, and without one among them with the
    -- fallback, seed + level + 7 modulo 2^64, if its power of the domain's size is not one, and else
    -- with 11.
    pub fri_sample_z_ell-Sampled :
        (seed_z level domain_size : ℕ)
        → ComparesEqual p
        → (fused z : F) × (tr_hash_fields_tagged p (text "FRI/z/l") (
              p.ground.from_u64 seed_z
              ∷ p.ground.from_u64 level
              ∷ p.ground.from_u64 domain_size
              ∷ [])
            ≡ some fused)
          × (fri_sample_z_ell p seed_z level domain_size ≡ some z)
          × Sampled
              (field_to_le_bytes p fused ++ replicate 24 0)
              domain_size
              (p.ground.from_u64 ((seed_z + level + 7) % 2 ^ 64))
              1000
              0
              z
    unfolding fri_sample_z_ell
    fri_sample_z_ell-Sampled seed_z level domain_size eq =
        let (fused, made) = tr_hash_fields_tagged-total p (text "FRI/z/l") (
          p.ground.from_u64 seed_z
          ∷ p.ground.from_u64 level
          ∷ p.ground.from_u64 domain_size
          ∷ []) in
        let seed_bytes = field_to_le_bytes p fused ++ replicate 24 0 in
        let fallback = p.ground.from_u64 ((seed_z + level + 7) % 2 ^ 64) in
        (
          fused,
          sample_loop p 1000 0 seed_bytes domain_size fallback,
          made,
          rw made refl,
          sample_loop-Sampled 1000 0 seed_bytes domain_size fallback eq,
        )
