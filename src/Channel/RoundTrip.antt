-- ===== src/Channel/RoundTrip.antt =====
-- The two channels stay in step, and the verifier's accepts what the prover's opens.
use stark_stir_service.Common.{
  ℕ, zero, suc, ◌+◌, ◌≤◌, ◌<◌, ◌≡◌, refl, sym, ap, ◌∙◌, true, Option, some, List, [], ◌∷◌, ◌++◌,
  map, text, length, get_elem?, get_elem?-lt, length-append, length-map, append_assoc, append-nil,
  arith, ◌>>=◌, >>=_assoc,
}
use stark_stir_service.Hashing.{Hash}
use stark_stir_service.Merkle.{
  MerkleChannelCfg, MerkleOpening, MerkleTreeChannel, new_tree, push_leaf, push_leaves_parallel,
  finalize, hash_leaves, compress_leaf_standalone,
}
use stark_stir_service.Merkle.Opening.{commit-open-verify}
use stark_stir_service.Merkle.Levels.{AllPositive, capacity}
use stark_stir_service.Channel.{
  Transcript, absorb_root, MerkleProver, new_prover, new_verifier, push_values, commit, open_prover,
  prover_challenge, receive_root, verify_opening, verifier_challenge,
}

-- The row of a value.
abbrev row : ℕ → List ℕ
row v = v ∷ 0 ∷ 0 ∷ []

get_elem?-map :
    {A B : Type 0} (f : A → B) (xs : List A) (i : ℕ) (a : A)
    → get_elem? xs i ≡ some a
    → get_elem? (map f xs) i ≡ some (f a)
get_elem?-map f [] i a h = cc
get_elem?-map f (x ∷ xs) zero a h = cc
get_elem?-map f (x ∷ xs) (suc i) a h = get_elem?-map f xs i a h

module _ ⦃H : Hash⦄ {T : Type 0} (tr : Transcript T) where
  open H use {Digest, bytes}

  abbrev tree_of : ℕ → List ℕ → ℕ → List Digest → MerkleTreeChannel Digest
  tree_of a ars label leaves = record {
    cfg = record { layer_arities = a ∷ ars; tree_label = label };
    skip = 0;
    levels = leaves ∷ [];
  }

  -- Leaf by leaf, or all at once.
  push_values-hash_leaves :
      (a : ℕ) (ars : List ℕ) (label : ℕ) (leaves : List Digest) (vs : List ℕ)
      → push_values tr (tree_of a ars label leaves) vs
        ≡ some (tree_of a ars label (leaves ++ hash_leaves a label (length leaves) (map row vs)))
  unfolding push_values hash_leaves push_leaf
  push_values-hash_leaves a ars label leaves [] =
      ap (λ l. some (tree_of a ars label l)) (sym (append-nil leaves))
  push_values-hash_leaves a ars label leaves (v ∷ vs) =
      let leaf = compress_leaf_standalone a label (length leaves) (row v) in
      let count : length (leaves ++ leaf ∷ []) ≡ length leaves + 1 =
        omega (arith, length-append leaves (leaf ∷ [])) in
      push_values-hash_leaves a ars label (leaves ++ leaf ∷ []) vs
      ∙ ap
          (λ n.
            some
              (tree_of a ars label ((leaves ++ leaf ∷ []) ++ hash_leaves a label n (map row vs))))
          count
      ∙ ap (λ l. some (tree_of a ars label l))
          (append_assoc leaves (leaf ∷ []) (hash_leaves a label (length leaves + 1) (map row vs)))

  push_values-push_leaves_parallel :
      (a : ℕ) (ars : List ℕ) (label : ℕ) (vs : List ℕ)
      → 0 < length vs
      → push_values tr (new_tree (record { layer_arities = a ∷ ars; tree_label = label })) vs
        ≡ push_leaves_parallel
            (new_tree (record { layer_arities = a ∷ ars; tree_label = label }))
            (map row vs)
  unfolding push_leaves_parallel new_tree push_values push_leaf
  push_values-push_leaves_parallel a ars label [] pos = absurd (omega arith)
  push_values-push_leaves_parallel a ars label (v ∷ vs) pos =
      push_values-hash_leaves a ars label [] (v ∷ vs)

  -- Both channels start from one transcript. For a list of values that fits into the configured
  -- layers the prover's `commit` returns a root; when the verifier has received it, every challenge
  -- is the same on both sides, and the position of any value opens, with an opening that the
  -- verifier accepts.
  pub commit-receive_root :
      (a : ℕ) (ars : List ℕ) (label : ℕ) (chan : T) (values : List ℕ) (idx v : ℕ)
      → AllPositive (a ∷ ars)
      → length values ≤ capacity (a ∷ ars)
      → get_elem? values idx ≡ some v
      → let cfg : MerkleChannelCfg = record { layer_arities = a ∷ ars; tree_label = label } in
        (root : Digest) × (prover : MerkleProver T Digest) × (opening : MerkleOpening Digest)
        × (commit tr (new_prover chan cfg) values ≡ some (root, prover))
        × (let verifier = receive_root tr (new_verifier chan cfg) root in
            ((l : List ℕ) → (prover_challenge tr prover l).0 ≡ (verifier_challenge tr verifier l).0)
            × (open_prover tr prover idx ≡ some opening)
            × (verify_opening tr verifier opening ≡ some true))
  unfolding commit new_prover receive_root new_verifier prover_challenge verifier_challenge
      verify_opening open_prover
  commit-receive_root a ars label chan values idx v p fits at =
      let rows : length (map row values) ≡ length values = length-map row values in
      let here = get_elem?-lt values idx at in
      let (root, tree, opening, built, opened, accepted, leaf) =
        commit-open-verify a ars label (map row values) idx (row v) p (rw rows fits)
          (get_elem?-map row values idx v at) in
      let pushed = push_values-push_leaves_parallel a ars label values (omega arith) in
      let cfg : MerkleChannelCfg = record { layer_arities = a ∷ ars; tree_label = label } in
      let keep : Digest × MerkleTreeChannel Digest → Option (Digest × MerkleProver T Digest) =
        λ (r, t).
          some
            (r, record { chan = absorb_root tr chan (text "merkle/root") (bytes r); tree = t }) in
      (
        root,
        record { chan = absorb_root tr chan (text "merkle/root") (bytes root); tree = tree },
        opening,
        >>=_assoc (push_values tr (new_tree cfg) values) finalize keep
            ∙ ap (λ o. (o >>= finalize) >>= keep) pushed
            ∙ ap (λ o. o >>= keep) built,
        (λ l. refl, opened, accepted),
      )
