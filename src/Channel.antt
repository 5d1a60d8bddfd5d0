-- ===== src/Channel.antt =====
-- crates/channel/src/lib.rs: the prover's and the verifier's end of a Merkle commitment, each with a
-- Fiat-Shamir transcript of its own. What a transcript does with what it absorbs is left open.
pub mod RoundTrip
use stark_stir_service.Common.{
  ℕ, Bool, true, false, Option, none, some, List, [], ◌∷◌, Text, text, ◌>>=◌,
}
use stark_stir_service.Hashing.{Hash}
use stark_stir_service.Merkle
use stark_stir_service.Merkle.{
  MerkleChannelCfg, MerkleOpening, MerkleTreeChannel, new_tree, push_leaf, finalize, open_tree,
}

-- The operations of `Transcript`; `challenge` changes the transcript too.
pub record Transcript (T : Type 0) : Type 0 where
  pub absorb_bytes : T → List ℕ → T
  pub absorb_field : T → ℕ → T
  pub challenge : T → List ℕ → ℕ × T

module _ {T : Type 0} (tr : Transcript T) where
  -- The trait `FiatShamirChannel`, the same for both channels, each of which is its transcript.
  unfoldable pub absorb_field : T → List ℕ → ℕ → T
  absorb_field chan label f = tr.absorb_field (tr.absorb_bytes chan label) f

  unfoldable pub absorb_root : T → List ℕ → List ℕ → T
  absorb_root chan label root = tr.absorb_bytes (tr.absorb_bytes chan label) root

  unfoldable pub challenge : T → List ℕ → ℕ × T
  challenge chan label = tr.challenge chan label

pub record MerkleProver (T D : Type 0) : Type 0 where
  pub chan : T
  pub tree : MerkleTreeChannel D

pub record MerkleVerifier (T D : Type 0) : Type 0 where
  pub chan : T
  pub cfg : MerkleChannelCfg
  pub root : Option D

unfoldable pub new_prover : {T D : Type 0} → T → MerkleChannelCfg → MerkleProver T D
unfolding new_tree
new_prover chan cfg = record { chan = chan; tree = new_tree cfg }

unfoldable pub new_verifier : {T D : Type 0} → T → MerkleChannelCfg → MerkleVerifier T D
new_verifier chan cfg = record { chan = chan; cfg = cfg; root = none }

module _ ⦃H : Hash⦄ {T : Type 0} (tr : Transcript T) where
  open H use {Digest, bytes}

  -- The loop of `commit`: the leaf of a value is the row of the value and two zeros.
  unfoldable pub push_values : MerkleTreeChannel Digest → List ℕ → Option (MerkleTreeChannel Digest)
  unfolding push_leaf
  push_values tree [] = some tree
  push_values tree (v ∷ vs) = do next ← push_leaf tree (v ∷ 0 ∷ 0 ∷ []); push_values next vs

  unfoldable pub commit : MerkleProver T Digest → List ℕ → Option (Digest × MerkleProver T Digest)
  unfolding push_values finalize absorb_root
  commit p values = do
    pushed ← push_values p.tree values
    (root, tree) ← finalize pushed
    some (
      root,
      record { chan = absorb_root tr p.chan (text "merkle/root") (bytes root); tree = tree },
    )

  unfoldable pub open_prover : MerkleProver T Digest → ℕ → Option (MerkleOpening Digest)
  unfolding open_tree
  open_prover p index = open_tree p.tree index

  unfoldable pub prover_challenge : MerkleProver T Digest → List ℕ → ℕ × MerkleProver T Digest
  unfolding challenge
  prover_challenge p label =
      let (f, chan) = challenge tr p.chan label in (f, record p { chan = chan })

  unfoldable pub receive_root : MerkleVerifier T Digest → Digest → MerkleVerifier T Digest
  unfolding absorb_root
  receive_root v root = record v {
    chan = absorb_root tr v.chan (text "merkle/root") (bytes root);
    root = some root;
  }

  -- `false` before a root has been received.
  unfoldable pub verify_opening : MerkleVerifier T Digest → MerkleOpening Digest → Option Bool
  unfolding Merkle.verify_opening
  verify_opening v opening = elim v.root [
    | none ↦ some false
    | some root ↦ Merkle.verify_opening v.cfg root opening
  ]

  unfoldable pub verifier_challenge : MerkleVerifier T Digest → List ℕ → ℕ × MerkleVerifier T Digest
  unfolding challenge
  verifier_challenge v label =
      let (f, chan) = challenge tr v.chan label in (f, record v { chan = chan })
