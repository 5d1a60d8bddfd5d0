-- ===== src/Tower.antt =====
-- crates/deep_ali/src/tower_field.rs: the trait of the field elements over which FRI works, and its
-- provided methods. The ground field is the Goldilocks field of arkworks, a third-party crate, and
-- so a parameter with the laws of a commutative ring.
pub mod RingLaws
pub mod Power
pub mod Batch
pub mod Horner
pub mod Cubic
pub mod Quadratic
pub mod Codec
pub mod Extensions
use stark_stir_service.Common.{
  ℕ, zero, suc, ◌+◌, ◌-◌, ◌*◌, ◌/◌, ◌%◌, ◌<◌, ◌≡◌, Bool, true, false, Option, none, some, List, [],
  ◌∷◌, ◌++◌, map, ◌==◌, ltb, if◌then◌else◌, length, take, drop, replicate, get_last?, to_le_bytes,
  from_le_bytes, ◌>>=◌,
}
use mathlib.Core.Option
use mathlib.Core.List.{reverse}

-- The arithmetic of the supertraits `Zero`, `One`, `Add`, `Sub`, `Mul`, `Neg`.
pub record Ring (A : Type 0) : Type 0 where
  pub zero : A
  pub one : A
  pub add : A → A → A
  pub sub : A → A → A
  pub mul : A → A → A
  pub neg : A → A

module _ {A : Type 0} ⦃r : Ring A⦄ where
  infixl 65 ◌⊕◌ ◌⊖◌
  infixl 70 ◌⊗◌
  abbrev pub ◌⊕◌ : A → A → A
  a ⊕ b = r.add a b

  abbrev pub ◌⊖◌ : A → A → A
  a ⊖ b = r.sub a b

  abbrev pub ◌⊗◌ : A → A → A
  a ⊗ b = r.mul a b

-- The ground field: its ring, the inverse, and its elements as canonical machine words.
pub record GroundField (F : Type 0) : Type 0 where
  pub ring : Ring F
  pub inverse : F → Option F
  pub from_u64 : ℕ → F
  pub into_u64 : F → ℕ

-- The required items of the trait `TowerField`.
pub record TowerField (F A : Type 0) : Type 0 where
  pub ring : Ring A
  pub degree : ℕ
  pub from_fp : F → A
  pub invert : A → Option A
  pub sq : A → A
  pub frobenius : A → A
  pub to_fp_components : A → List F
  pub from_fp_components : List F → Option A

-- `impl TowerField for Fp`.
unfoldable pub ground_tower : {F : Type 0} → GroundField F → TowerField F F
ground_tower g = record {
  ring = g.ring;
  degree = 1;
  from_fp = λ x. x;
  invert = g.inverse;
  sq = λ x. g.ring.mul x x;
  frobenius = λ x. x;
  to_fp_components = λ x. x ∷ [];
  from_fp_components = elim [ [] ↦ none | x ∷ rest ↦ some x ];
}

module _ {F A : Type 0} (t : TowerField F A) where
  open t use {ring, degree, from_fp, invert, sq, to_fp_components, from_fp_components}

  -- The loop of `pow_u64`; 64 rounds clear a `u64`.
  unfoldable pub pow_loop : ℕ → A → A → ℕ → A
  pow_loop zero base result exp = result
  pow_loop (suc fuel) base result exp =
      let next =
        pow_loop fuel (sq base) (if exp % 2 == 1 then ring.mul result base else result) (exp / 2) in
      if ltb 0 exp then next else result

  unfoldable pub pow_u64 : A → ℕ → A
  unfolding pow_loop
  pow_u64 x exp = if exp == 0 then ring.one else pow_loop 64 x ring.one exp

  -- `prefix[0] = vals[0]`, `prefix[i] = prefix[i - 1] * vals[i]`, the last of them first.
  unfoldable pub prefixes : List A → List A → List A
  prefixes done [] = done
  prefixes [] (v ∷ vs) = prefixes (v ∷ []) vs
  prefixes (p ∷ done) (v ∷ vs) = prefixes (ring.mul p v ∷ p ∷ done) vs

  -- The loop from the last index down to 1, over the values and the prefixes, last first; the
  -- results come first to last, and `vals[0] = inv` ends it.
  unfoldable pub unwind : A → List A → List A → List A → List A
  unwind inv (v ∷ w ∷ vs) (p ∷ q ∷ ps) out =
      unwind (ring.mul inv v) (w ∷ vs) (q ∷ ps) (ring.mul q inv ∷ out)
  unwind inv [] ps out = inv ∷ out
  unwind inv (v ∷ []) ps out = inv ∷ out
  unwind inv (v ∷ w ∷ vs) [] out = inv ∷ out
  unwind inv (v ∷ w ∷ vs) (p ∷ []) out = inv ∷ out

  -- The inversion of the last prefix, and the way back; `none` is the panic at a product that has
  -- no inverse.
  unfoldable pub invert_product : List A → List A → Option (List A)
  unfolding unwind
  invert_product vals [] = none
  invert_product vals (last ∷ rest) = do
    inv ← invert last
    some (unwind inv (reverse vals) (last ∷ rest) [])

  unfoldable pub batch_inverse : List A → Option (List A)
  unfolding prefixes invert_product
  batch_inverse [] = some []
  batch_inverse (v ∷ vs) = invert_product (v ∷ vs) (prefixes [] (v ∷ vs))

  -- The loop of `eval_base_poly` over the coefficients below the last, highest first.
  unfoldable pub horner : A → A → List F → A
  horner z acc [] = acc
  horner z acc (c ∷ cs) = horner z (ring.add (ring.mul acc z) (from_fp c)) cs

  unfoldable pub horner_top : A → List F → A
  unfolding horner
  horner_top z [] = ring.zero
  horner_top z (c ∷ cs) = horner z (from_fp c) cs

  unfoldable pub eval_base_poly : List F → A → A
  unfolding horner_top
  eval_base_poly coeffs z = horner_top z (reverse coeffs)

  module _ (g : GroundField F) where
    unfoldable pub words_bytes : List F → List ℕ
    words_bytes [] = []
    words_bytes (c ∷ cs) = to_le_bytes 8 (g.into_u64 c) ++ words_bytes cs

    -- The words stand at the front of a buffer of zeros; one past its end is a panic.
    unfoldable pub to_bytes_le : A → Option (List ℕ)
    unfolding words_bytes
    to_bytes_le x =
        let comps = to_fp_components x in
        if ltb degree (length comps)
        then none
        else some (words_bytes comps ++ replicate ((degree - length comps) * 8) 0)

    unfoldable pub read_words : ℕ → List ℕ → List F
    read_words zero bytes = []
    read_words (suc n) bytes =
        g.from_u64 (from_le_bytes (take 8 bytes)) ∷ read_words n (drop 8 bytes)

    unfoldable pub from_bytes_le : List ℕ → Option A
    unfolding read_words
    from_bytes_le bytes =
        if ltb (length bytes) (degree * 8)
        then none
        else from_fp_components (read_words degree bytes)
