-- ===== src/Poseidon.antt =====
-- crates/poseidon/src/lib.rs: the permutation of 17 elements, and its constants from blake3. The
-- arrays are lists of the lengths that the types of the source fix.
use stark_stir_service.Common.{
  ℕ, zero, suc, ◌+◌, List, [], ◌∷◌, ◌++◌, map, take, drop, to_le_bytes, from_le_bytes, Text, text,
}
use stark_stir_service.Tower.{Ring, ◌⊕◌, ◌⊗◌, GroundField}

abbrev pub width : ℕ
width = 17

abbrev pub rate : ℕ
rate = 16

abbrev full_rounds : ℕ
full_rounds = 8

abbrev partial_rounds : ℕ
partial_rounds = 64

pub record PoseidonParams (F : Type 0) : Type 0 where
  pub mds : List (List F)
  pub rc_full : List (List F)
  pub rc_partial : List F

module _ {F : Type 0} (g : GroundField F) where
  instance abbrev ground : Ring F
  ground = g.ring

  unfoldable pub sbox5 : F → F
  sbox5 x = let x2 = x ⊗ x in let x4 = x2 ⊗ x2 in x ⊗ x4

  -- The sum of the products, from 0 upwards.
  unfoldable pub dot_from : F → List F → List F → F
  dot_from acc [] ys = acc
  dot_from acc (x ∷ xs) [] = acc
  dot_from acc (x ∷ xs) (y ∷ ys) = dot_from (acc ⊕ x ⊗ y) xs ys

  unfoldable pub mds_mul_fixed : List (List F) → List F → List F
  unfolding dot_from
  mds_mul_fixed mds state = map (λ row. dot_from g.ring.zero row state) mds

  -- A constant is added to each entry, and each entry goes through the S-box.
  unfoldable pub full_layer : List F → List F → List F
  unfolding sbox5
  full_layer [] state = state
  full_layer (c ∷ cs) [] = []
  full_layer (c ∷ cs) (x ∷ xs) = sbox5 (x ⊕ c) ∷ full_layer cs xs

  -- The first entry alone.
  unfoldable pub partial_layer : F → List F → List F
  unfolding sbox5
  partial_layer c [] = []
  partial_layer c (x ∷ xs) = sbox5 (x ⊕ c) ∷ xs

  unfoldable pub run_full : List (List F) → List (List F) → List F → List F
  unfolding full_layer mds_mul_fixed
  run_full mds [] state = state
  run_full mds (cs ∷ rows) state = run_full mds rows (mds_mul_fixed mds (full_layer cs state))

  unfoldable pub run_partial : List (List F) → List F → List F → List F
  unfolding partial_layer mds_mul_fixed
  run_partial mds [] state = state
  run_partial mds (c ∷ cs) state = run_partial mds cs (mds_mul_fixed mds (partial_layer c state))

  unfoldable pub permute : List F → PoseidonParams F → List F
  unfolding run_full run_partial
  permute state params =
      let first = run_full params.mds (take 4 params.rc_full) state in
      let middle = run_partial params.mds params.rc_partial first in
      run_full params.mds (drop 4 params.rc_full) middle

  module _ (blake3 : List ℕ → List ℕ) where
    unfoldable pub poseidon_fr_from_hash : Text → List ℕ → F
    poseidon_fr_from_hash tag bytes = g.from_u64 (from_le_bytes (take 8 (blake3 (tag ++ bytes))))

    -- The entries j, j + 1, … of row i.
    unfoldable pub derive_row : Text → List ℕ → ℕ → ℕ → ℕ → List F
    unfolding poseidon_fr_from_hash
    derive_row tag seed i j zero = []
    derive_row tag seed i j (suc n) =
        poseidon_fr_from_hash tag (to_le_bytes 8 i ++ (to_le_bytes 8 j ++ seed))
        ∷ derive_row tag seed i (j + 1) n

    unfoldable pub derive_rows : Text → List ℕ → ℕ → ℕ → ℕ → List (List F)
    unfolding derive_row
    derive_rows tag seed i t zero = []
    derive_rows tag seed i t (suc n) = derive_row tag seed i 0 t ∷ derive_rows tag seed (i + 1) t n

    unfoldable pub derive_mds : List ℕ → ℕ → List (List F)
    unfolding derive_rows
    derive_mds seed t = derive_rows (text "POSEIDON-MDS") seed 0 t t

    unfoldable pub derive_rc_full : List ℕ → ℕ → ℕ → List (List F)
    unfolding derive_rows
    derive_rc_full seed rf t = derive_rows (text "POSEIDON-RC-FULL") seed 0 t rf

    unfoldable pub derive_rc_partial : List ℕ → ℕ → ℕ → List F
    unfolding poseidon_fr_from_hash
    derive_rc_partial seed r zero = []
    derive_rc_partial seed r (suc n) =
        poseidon_fr_from_hash (text "POSEIDON-RC-PART") (to_le_bytes 8 r ++ seed)
        ∷ derive_rc_partial seed (r + 1) n

    unfoldable pub generate_params_t17_x5 : List ℕ → PoseidonParams F
    unfolding derive_mds derive_rc_full derive_rc_partial
    generate_params_t17_x5 seed = record {
      mds = derive_mds seed width;
      rc_full = derive_rc_full seed full_rounds width;
      rc_partial = derive_rc_partial seed 0 partial_rounds;
    }
