-- ===== src/Tests/Commitments.antt =====
-- Openings over a checksum in place of the hash function, and a transcript that logs what it sees.
use stark_stir_service.Common.{
  ℕ, ◌+◌, ◌≡◌, refl, ◌⊎◌, ◌==◌, ==_iff, true, some, List, [], ◌∷◌, ◌++◌, arith, ◌>>=◌, to_le_bytes,
}
use stark_stir_service.Hashing.{Hash, Collision}
use stark_stir_service.Merkle.{
  MerkleChannelCfg, MerkleOpening, MerkleTreeChannel, new_tree, push_leaves_parallel, finalize,
  open_tree, verify_opening, compute_leaf_hash, climb, place, compress_node_standalone,
  node_message, to_bytes, concat, level_tag,
}
use stark_stir_service.Merkle.Opening.{commit-open-verify}
use stark_stir_service.Merkle.Binding.{verify_opening-binding, opening_messages}
use stark_stir_service.Channel
use stark_stir_service.Channel.{
  Transcript, MerkleProver, new_prover, new_verifier, commit, open_prover, prover_challenge,
  receive_root, verifier_challenge,
}
use stark_stir_service.Channel.RoundTrip.{commit-receive_root}

unfoldable pub sum : List ℕ → ℕ
sum [] = 0
sum (b ∷ bs) = b + sum bs

-- A digest of one byte array of length 1, in which collisions are easy to find.
instance abbrev pub checksum : Hash
checksum = record {
  Digest = ℕ;
  size = 1;
  digest = sum;
  bytes = λ d. d ∷ [];
  length-bytes = λ d. refl;
  bytes-injective = λ c d e. cc;
  beq = ◌==◌;
  beq_iff = ==_iff;
}

-- Five rows under the arities 2, 3.
abbrev rows : List (List ℕ)
rows = (1 ∷ 2 ∷ []) ∷ (3 ∷ []) ∷ (4 ∷ []) ∷ (5 ∷ 6 ∷ []) ∷ (7 ∷ []) ∷ []

abbrev cfg : MerkleChannelCfg
cfg = record { layer_arities = 2 ∷ 3 ∷ []; tree_label = 9 }

commit-open-verify_example :
    (root : ℕ) × (tree : MerkleTreeChannel ℕ) × (opening : MerkleOpening ℕ) × ((push_leaves_parallel
          (new_tree cfg)
          rows
        >>= finalize)
      ≡ some (root, tree))
    × (open_tree tree 4 ≡ some opening)
    × (verify_opening cfg root opening ≡ some true)
    × (compute_leaf_hash cfg 4 (7 ∷ []) ≡ some opening.leaf)
commit-open-verify_example =
    commit-open-verify 2 (3 ∷ []) 9 rows 4 (7 ∷ []) (omega arith, (omega arith, tt)) (omega arith)
      refl

-- Two openings of position 0 that differ in the order of the leaves.
abbrev left_first : MerkleOpening ℕ
left_first = record { leaf = 1; path = (2 ∷ []) ∷ []; index = 0 }

abbrev right_first : MerkleOpening ℕ
right_first = record { leaf = 2; path = (1 ∷ []) ∷ []; index = 0 }

accepts-left : verify_opening cfg 15 left_first ≡ some true
unfolding verify_opening climb place compress_node_standalone node_message to_bytes concat level_tag
    to_le_bytes sum
accepts-left = refl

accepts-right : verify_opening cfg 15 right_first ≡ some true
unfolding verify_opening climb place compress_node_standalone node_message to_bytes concat level_tag
    to_le_bytes sum
accepts-right = refl

verify_opening-binding_example :
    (left_first.leaf ≡ right_first.leaf)
    ⊎ Collision (opening_messages cfg left_first) (opening_messages cfg right_first)
verify_opening-binding_example =
    verify_opening-binding cfg 15 left_first right_first refl refl accepts-left accepts-right

abbrev log : Transcript (List ℕ)
log = record {
  absorb_bytes = λ t bs. bs ++ t;
  absorb_field = λ t f. f ∷ t;
  challenge = λ t label. (sum t, label ++ t);
}

commit-receive_root_example :
    (root : ℕ) × (prover : MerkleProver (List ℕ) ℕ) × (opening : MerkleOpening ℕ) × (commit log
        (new_prover [] cfg)
        (10 ∷ 20 ∷ 30 ∷ [])
      ≡ some (root, prover))
    × (let verifier = receive_root log (new_verifier [] cfg) root in
        ((l : List ℕ) → (prover_challenge log prover l).0 ≡ (verifier_challenge log verifier l).0)
        × (open_prover log prover 1 ≡ some opening)
        × (Channel.verify_opening log verifier opening ≡ some true))
commit-receive_root_example =
    commit-receive_root log 2 (3 ∷ []) 9 [] (10 ∷ 20 ∷ 30 ∷ []) 1 20
      (omega arith, (omega arith, tt)) (omega arith) refl
