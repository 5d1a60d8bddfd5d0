-- ===== src/Merkle/Compact.antt =====
-- crates/merkle/src/lib.rs: the commitment that stores no level below `skip`, and its openings,
-- which
-- compute these levels again for one chunk of the leaves.
use stark_stir_service.Common.{
  ℕ, zero, suc, ◌+◌, ◌-◌, ◌*◌, ◌/◌, ◌%◌, ◌^◌, min, Option, none, some, List, [], ◌∷◌, ◌++◌, ltb,
  ◌==◌, if◌then◌else◌, length, get_elem?, get_last?, take, drop, replicate, trailing_zeros,
  is_power_of_two, ◌>>=◌,
}
use stark_stir_service.Hashing.{Hash}
use stark_stir_service.Merkle.{
  MerkleTreeChannel, MerkleOpening, compress_node_standalone, hash_leaves, finalize_loop, root_of,
  open_path,
}

abbrev compact_skip : ℕ
compact_skip = 10

-- `arities.iter().take_while(|&&a| a == 2).count()`.
unfoldable pub arity2_depth : List ℕ → ℕ
arity2_depth [] = 0
arity2_depth (a ∷ ars) = let rest = arity2_depth ars in if a == 2 then suc rest else 0

module _ {ℓ} {A : Type ℓ} where
  -- `resize` to the chunk's size with the last entry; `none` if there is none.
  unfoldable pub fill_chunk : ℕ → List A → Option (List A)
  fill_chunk chunk_size xs =
      if ltb (length xs) chunk_size
      then (do l ← get_last? xs; some (xs ++ replicate (chunk_size - length xs) l))
      else some xs

  -- The node beside `local` in its pair.
  unfoldable pub pair_siblings : ℕ → List A → Option (List A)
  pair_siblings local nodes =
      let group = (local / 2) * 2 in
      let other = if group == local then group + 1 else group in
      do x ← get_elem? nodes other; some (x ∷ [])

  -- The siblings at the rebuilt levels, from `depth` on.
  unfoldable pub bottom_path : ℕ → ℕ → ℕ → List (List A) → Option (List (List A))
  unfolding pair_siblings
  bottom_path chunk_base depth idx [] = some []
  bottom_path chunk_base depth idx (nodes ∷ []) = some []
  bottom_path chunk_base depth idx (nodes ∷ next ∷ levels) = do
    sibs ← pair_siblings (idx - chunk_base / 2 ^ depth) nodes
    path ← bottom_path chunk_base (depth + 1) (idx / 2) (next ∷ levels)
    some (sibs ∷ path)

module _ ⦃H : Hash⦄ where
  open H use {Digest}

  -- One binary level: node `position + j` from the entries 2j and 2j + 1.
  unfoldable pub hash_pairs : ℕ → ℕ → ℕ → List Digest → List Digest
  unfolding compress_node_standalone
  hash_pairs tree_label level position [] = []
  hash_pairs tree_label level position (x ∷ []) = []
  hash_pairs tree_label level position (x ∷ y ∷ rest) =
      compress_node_standalone 2 tree_label level position (x ∷ y ∷ [])
      ∷ hash_pairs tree_label level (position + 1) rest

  -- The leaves of a chunk.
  unfoldable pub chunk_leaves : ℕ → ℕ → ℕ → ℕ → List (List ℕ) → Option (List Digest)
  unfolding hash_leaves fill_chunk
  chunk_leaves base chunk_size leaf_arity tree_label all_values =
      let end = min (base + chunk_size) (length all_values) in
      fill_chunk chunk_size
        (hash_leaves leaf_arity tree_label base (take (end - base) (drop base all_values)))

  -- The levels above a level of the chunk, `count` of them, that level first.
  unfoldable pub chunk_levels : ℕ → ℕ → ℕ → ℕ → List Digest → List (List Digest)
  unfolding hash_pairs
  chunk_levels base tree_label d zero buf = buf ∷ []
  chunk_levels base tree_label d (suc count) buf =
      buf
      ∷ chunk_levels base tree_label (d + 1) count
          (hash_pairs tree_label ((d + 1) % 4294967296) (base / 2 ^ (d + 1)) buf)

  -- The two buffers of `fold_chunk`, of which only the one that is read matters.
  unfoldable pub fold_levels : ℕ → ℕ → ℕ → ℕ → List Digest → List Digest
  unfolding hash_pairs
  fold_levels base tree_label d zero buf = buf
  fold_levels base tree_label d (suc count) buf =
      fold_levels base tree_label (d + 1) count
        (hash_pairs tree_label ((d + 1) % 4294967296) (base / 2 ^ (d + 1)) buf)

  unfoldable pub fold_chunk : ℕ → ℕ → ℕ → ℕ → ℕ → List (List ℕ) → Option Digest
  unfolding chunk_leaves fold_levels
  fold_chunk base chunk_size depth leaf_arity tree_label all_values = do
    leaves ← chunk_leaves base chunk_size leaf_arity tree_label all_values
    get_elem? (fold_levels base tree_label 0 depth leaves) 0

  unfoldable pub rebuild_chunk_levels :
      ℕ → ℕ → ℕ → ℕ → ℕ → List (List ℕ) → Option (List (List Digest))
  unfolding chunk_leaves chunk_levels
  rebuild_chunk_levels index chunk_size depth leaf_arity tree_label all_values = do
    let base = index / chunk_size * chunk_size
    leaves ← chunk_leaves base chunk_size leaf_arity tree_label all_values
    some (chunk_levels base tree_label 0 depth leaves)

  -- The nodes of `count` chunks from chunk `c` on.
  unfoldable pub fold_chunks : ℕ → ℕ → ℕ → ℕ → ℕ → ℕ → List (List ℕ) → Option (List Digest)
  unfolding fold_chunk
  fold_chunks zero c chunk_size depth leaf_arity tree_label all_values = some []
  fold_chunks (suc count) c chunk_size depth leaf_arity tree_label all_values = do
    node ← fold_chunk (c * chunk_size) chunk_size depth leaf_arity tree_label all_values
    rest ← fold_chunks count (c + 1) chunk_size depth leaf_arity tree_label all_values
    some (node ∷ rest)

  -- How many levels are not stored.
  unfoldable pub skip_of : List ℕ → ℕ → ℕ
  unfolding arity2_depth trailing_zeros
  skip_of arities n = min (min (arity2_depth arities) compact_skip) (trailing_zeros n)

  unfoldable pub commit_compact :
      MerkleTreeChannel Digest → List (List ℕ) → Option (Digest × MerkleTreeChannel Digest)
  unfolding skip_of is_power_of_two fold_chunks finalize_loop root_of
  commit_compact t all_values =
      let n = length all_values in
      let arities = t.cfg.layer_arities in
      let skip = skip_of arities n in
      let made : Option (Digest × MerkleTreeChannel Digest) = (do
        leaf_arity ← get_elem? arities 0
        nodes ← fold_chunks (n / 2 ^ skip) 0 (2 ^ skip) skip leaf_arity t.cfg.tree_label all_values
        levels ← finalize_loop t.cfg.tree_label skip 0 (drop skip arities) (nodes ∷ [])
        root ← root_of levels
        some (root, record t { skip = skip; levels = levels })) in
      if is_power_of_two n then made else none

  unfoldable pub open_compact :
      MerkleTreeChannel Digest → ℕ → List (List ℕ) → Option (MerkleOpening Digest)
  unfolding rebuild_chunk_levels bottom_path open_path
  open_compact t index all_values = do
    let chunk_size = 2 ^ t.skip
    let chunk_base = index / chunk_size * chunk_size
    leaf_arity ← get_elem? t.cfg.layer_arities 0
    chunk ← rebuild_chunk_levels index chunk_size t.skip leaf_arity t.cfg.tree_label all_values
    bottom ← bottom_path chunk_base 0 index chunk
    top ← open_path (drop t.skip t.cfg.layer_arities) t.levels (index / chunk_size)
    leaves ← get_elem? chunk 0
    leaf ← get_elem? leaves (index - chunk_base)
    some (record { leaf = leaf; path = bottom ++ top; index = index })
