-- ===== src/Hashing.antt =====
-- The hash function that crates/hash selects at compile time (`SelectedHasher`, `HASH_BYTES`).
-- It is the third-party crate `sha3`, so it is a parameter: a message, given as the list of all
-- bytes passed to `update`, is mapped to a digest, and a digest is an array of `size` bytes.
use mathlib.Core.List.{Mem, mem-cons_of_mem}
use stark_stir_service.Common.{ℕ, ◌≡◌, ◌≢◌, ◌↔◌, Bool, true, List, ◌∷◌, length}

pub record Hash : Type 1 where
  pub Digest : Type 0
  -- `HASH_BYTES`.
  pub size : ℕ
  -- `new`, an `update` for each part of the message, `finalize`.
  pub digest : List ℕ → Digest
  -- A digest as a byte array, and the comparison of two arrays.
  pub bytes : Digest → List ℕ
  pub length-bytes : (d : Digest) → length (bytes d) ≡ size
  pub bytes-injective : (c d : Digest) → bytes c ≡ bytes d → c ≡ d
  pub beq : Digest → Digest → Bool
  pub beq_iff : (c d : Digest) → (beq c d ≡ true) ↔ (c ≡ d)

-- Two messages with one digest, one from each of two lists.
pub record Collision ⦃H : Hash⦄ (lefts rights : List (List ℕ)) : Type 0 where
  pub left : List ℕ
  pub right : List ℕ
  pub left_in : Mem left lefts
  pub right_in : Mem right rights
  pub differ : left ≢ right
  pub agree : H.digest left ≡ H.digest right

-- The lists may grow.
pub Collision-cons :
    ⦃H : Hash⦄ {ls rs : List (List ℕ)} (l r : List ℕ)
    → Collision ls rs
    → Collision (l ∷ ls) (r ∷ rs)
Collision-cons l r c = record {
  left = c.left;
  right = c.right;
  left_in = mem-cons_of_mem l c.left_in;
  right_in = mem-cons_of_mem r c.right_in;
  differ = c.differ;
  agree = c.agree;
}
