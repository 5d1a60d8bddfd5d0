-- ===== src/Merkle/Opening.antt =====
-- Every leaf of a finished tree opens, and the verifier accepts the opening.
use native.Mathlib.Nat.{div-lt_iff_lt-mul, le-div_iff_mul-le, mul_comm, div-add-mod}
use stark_stir_service.Common.{
  ℕ, zero, suc, ◌+◌, ◌-◌, ◌*◌, ◌/◌, ◌%◌, ◌≤◌, ◌<◌, ◌≡◌, refl, ap, ◌∙◌, some, List, [], ◌∷◌, inl,
  inr, arith, ◌==◌, length, get_elem?, get_elem?-lt, true, false, ◌>>=◌,
}
use stark_stir_service.Hashing.{Hash}
use stark_stir_service.Merkle.{
  MerkleChannelCfg, MerkleOpening, MerkleTreeChannel, pad_level, parents, finalize, root_of,
  group_siblings, place, open_path, open_tree, climb, verify_opening, new_tree,
  push_leaves_parallel, hash_leaves, compress_leaf_standalone, compress_node_standalone,
  compute_leaf_hash, level_tag,
}
use stark_stir_service.Merkle.Chunks.{
  length-pad_level-mod, length-le-pad_level, get_elem?-pad_level, get_elem?-parents,
}
use stark_stir_service.Merkle.Siblings.{group_siblings-place}
use stark_stir_service.Merkle.Levels.{
  AllPositive, capacity, group_count, build, build-total, build-nil, build-cons,
  finalize_loop-build, root_of-tail,
}

-- The group of a position lies within a level of whole groups.
group_fits : (a m idx : ℕ) → 0 < a → m % a ≡ 0 → idx < m → (idx / a) * a + a ≤ m
group_fits a m idx h e lt =
    let q : idx / a < m / a =
      (div-lt_iff_lt-mul h).1 (omega (arith, div-add-mod m a, mul_comm a (m / a))) in
    let step : (idx / a + 1) * a ≤ m = (le-div_iff_mul-le h).0 (omega arith) in omega arith

group_index : (a m idx : ℕ) → 0 < a → m % a ≡ 0 → idx < m → idx / a < (m + a - 1) / a
group_index a m idx h e lt =
    rw (group_count a m h e)
      ((div-lt_iff_lt-mul h).1 (omega (arith, div-add-mod m a, mul_comm a (m / a))))

module _ ⦃H : Hash⦄ where
  open H use {Digest, beq, beq_iff}

  -- One round of the prover's and of the verifier's loop.
  open_path-step :
      (a idx : ℕ) (ars : List ℕ) (nodes next : List Digest) (levels : List (List Digest))
      (sibs : List Digest) (path : List (List Digest))
      → (a == 0) ≡ false
      → group_siblings a idx nodes ≡ some sibs
      → open_path ars (next ∷ levels) (idx / a) ≡ some path
      → open_path (a ∷ ars) (nodes ∷ next ∷ levels) idx ≡ some (sibs ∷ path)
  unfolding open_path
  open_path-step a idx ars nodes next levels sibs path z s p = rw (z, s, p)

  climb-step :
      (t level a idx : ℕ) (ars : List ℕ) (cur root : Digest) (sibs children : List Digest)
      (path : List (List Digest))
      → (a == 0) ≡ false
      → place a 0 (idx % a) cur sibs ≡ some children
      → climb t level (a ∷ ars) cur idx (sibs ∷ path) root
        ≡ climb t
            (level + 1)
            ars
            (compress_node_standalone a t (level_tag level) (idx / a) children)
            (idx / a)
            path
            root
  unfolding climb
  climb-step t level a idx ars cur root sibs children path z p = rw (z, climb, p)

  top_opens :
      (t level : ℕ) (ars : List ℕ) (nodes : List Digest) (idx : ℕ) (cur root : Digest)
      → length nodes ≤ 1
      → get_elem? nodes idx ≡ some cur
      → root_of (nodes ∷ []) ≡ some root
      → (path : List (List Digest)) × (open_path ars (nodes ∷ []) idx ≡ some path)
        × (climb t level ars cur idx path root ≡ some true)
  unfolding open_path climb root_of
  top_opens t level ars [] idx cur root few at top = cc
  top_opens t level ars (x ∷ y ∷ ys) idx cur root few at top = absurd (omega arith)
  top_opens t level ars (x ∷ []) (suc idx) cur root few at top = cc
  top_opens t level [] (x ∷ []) zero cur root few at top =
      ([], refl, ap some ((beq_iff cur root).1 (cc (at, top))))
  top_opens t level (a ∷ ars) (x ∷ []) zero cur root few at top =
      ([], refl, ap some ((beq_iff cur root).1 (cc (at, top))))

  pub build-opens :
      (t level : ℕ) (ars : List ℕ) (nodes : List Digest) (levels : List (List Digest)) (idx : ℕ)
      (cur root : Digest)
      → AllPositive ars
      → build t level ars nodes ≡ some levels
      → root_of levels ≡ some root
      → get_elem? nodes idx ≡ some cur
      → (path : List (List Digest)) × (open_path ars levels idx ≡ some path)
        × (climb t level ars cur idx path root ≡ some true)
  build-opens t level [] nodes levels idx cur root p built top at =
      let (few, e) = build-nil t level nodes levels built in
      rw e (top_opens t level [] nodes idx cur root few at (rw e at top))
  build-opens t level (a ∷ ars) nodes levels idx cur root p built top at =
      elim (build-cons t level a ars nodes levels built) [
        | inl (few, e) ↦ rw e (top_opens t level (a ∷ ars) nodes idx cur root few at (rw e at top))
        | inr (next, rest, nz, above, e) ↦
            let padded = pad_level a nodes in
            let whole = length-pad_level-mod a nodes p.0 in
            let inside : idx < length nodes = get_elem?-lt nodes idx at in
            let lt : idx < length padded = omega (arith, length-le-pad_level a nodes p.0) in
            let (sibs, taken, placed) =
              group_siblings-place a idx padded cur p.0
                (group_fits a (length padded) idx p.0 whole lt)
                (get_elem?-pad_level a nodes idx p.0 inside ∙ at) in
            let up : get_elem? (parents a t level padded) (idx / a) ≡ some _ =
              get_elem?-parents a t level (idx / a) padded
                (group_index a (length padded) idx p.0 whole lt) in
            let (path, opened, climbed) =
              build-opens t (level + 1) ars _ (next ∷ rest) (idx / a) _ root p.1 above
                (root_of-tail padded next rest (rw e at top)) up in
            (
              sibs ∷ path,
              rw e (open_path-step a idx ars padded next rest sibs path nz taken opened),
              climb-step t level a idx ars cur root sibs _ path nz placed ∙ climbed,
            )
      ]

  hash_leaves-get :
      (a t i j : ℕ) (values : List (List ℕ)) (v : List ℕ)
      → get_elem? values j ≡ some v
      → get_elem? (hash_leaves a t i values) j ≡ some (compress_leaf_standalone a t (i + j) v)
  unfolding hash_leaves
  hash_leaves-get a t i j [] v h = cc
  hash_leaves-get a t i zero (x ∷ values) v h = let e : i + 0 ≡ i = omega arith in rw e (cc)
  hash_leaves-get a t i (suc j) (x ∷ values) v h =
      let e : i + suc j ≡ i + 1 + j = omega arith in rw e (hash_leaves-get a t (i + 1) j values v h)

  length-hash_leaves :
      (a t i : ℕ) (values : List (List ℕ)) → length (hash_leaves a t i values) ≡ length values
  unfolding hash_leaves
  length-hash_leaves a t i [] = refl
  length-hash_leaves a t i (v ∷ vs) = ap suc (length-hash_leaves a t (i + 1) vs)

  finalize-build :
      (cfg : MerkleChannelCfg) (leaves : List Digest) (levels : List (List Digest)) (root : Digest)
      → build cfg.tree_label 0 cfg.layer_arities leaves ≡ some levels
      → root_of levels ≡ some root
      → finalize (record { cfg = cfg; skip = 0; levels = leaves ∷ [] })
        ≡ some (root, record { cfg = cfg; skip = 0; levels = levels })
  unfolding finalize
  finalize-build cfg leaves levels root built top = rw (
    finalize_loop-build cfg.tree_label 0 0 0 cfg.layer_arities [] leaves refl (omega arith),
    built,
    top,
  )

  open_tree-path :
      (cfg : MerkleChannelCfg) (leaves : List Digest) (above : List (List Digest)) (idx : ℕ)
      (leaf : Digest) (path : List (List Digest))
      → open_path cfg.layer_arities (leaves ∷ above) idx ≡ some path
      → get_elem? leaves idx ≡ some leaf
      → open_tree (record { cfg = cfg; skip = 0; levels = leaves ∷ above }) idx
        ≡ some (record { leaf = leaf; path = path; index = idx })
  unfolding open_tree
  open_tree-path cfg leaves above idx leaf path opened at = rw (opened, at)

  -- The level of the leaves may have been padded, which moves no leaf.
  build-leaves :
      (t a : ℕ) (ars : List ℕ) (nodes : List Digest) (levels : List (List Digest))
      → 0 < a
      → build t 0 (a ∷ ars) nodes ≡ some levels
      → (bottom : List Digest) × (above : List (List Digest)) × (levels ≡ bottom ∷ above)
        × ((i : ℕ) → i < length nodes → get_elem? bottom i ≡ get_elem? nodes i)
  build-leaves t a ars nodes levels pos built = elim (build-cons t 0 a ars nodes levels built) [
    | inl (few, e) ↦ (nodes, [], e, λ i lt. refl)
    | inr (next, rest, nz, up, e) ↦
        (pad_level a nodes, next ∷ rest, e, λ i lt. get_elem?-pad_level a nodes i pos lt)
  ]

  -- For one root and all positions.
  pub commit-opens :
      (a : ℕ) (ars : List ℕ) (label : ℕ) (values : List (List ℕ))
      → AllPositive (a ∷ ars)
      → 0 < length values
      → length values ≤ capacity (a ∷ ars)
      → let cfg : MerkleChannelCfg = record { layer_arities = a ∷ ars; tree_label = label } in
        (root : Digest) × (tree : MerkleTreeChannel Digest) × ((push_leaves_parallel
              (new_tree cfg)
              values
            >>= finalize)
          ≡ some (root, tree))
        × ((idx : ℕ) (row : List ℕ)
            → get_elem? values idx ≡ some row
            → (opening : MerkleOpening Digest) × (open_tree tree idx ≡ some opening)
              × (verify_opening cfg root opening ≡ some true)
              × (compute_leaf_hash cfg idx row ≡ some opening.leaf))
  unfolding push_leaves_parallel new_tree verify_opening compute_leaf_hash
  commit-opens a ars label values p some_row fits =
      let cfg : MerkleChannelCfg = record { layer_arities = a ∷ ars; tree_label = label } in
      let leaves = hash_leaves a label 0 values in
      let count = length-hash_leaves a label 0 values in
      let (levels, root, built, top) =
        build-total label 0 (a ∷ ars) leaves p (rw count some_row) (rw count fits) in
      let (bottom, above, e, keeps) = build-leaves label a ars leaves levels p.0 built in
      (
        root,
        record { cfg = cfg; skip = 0; levels = levels },
        finalize-build cfg leaves levels root built top,
        λ idx row at.
            let leaf : get_elem? leaves idx ≡ some (compress_leaf_standalone a label idx row) =
              hash_leaves-get a label 0 idx values row at
              ∙ (let z : 0 + idx ≡ idx = omega arith in rw z) in
            let (path, opened, climbed) =
              build-opens label 0 (a ∷ ars) leaves levels idx _ root p built top leaf in
            (
              record { leaf = compress_leaf_standalone a label idx row; path = path; index = idx },
              rw e (
                  open_tree-path cfg bottom above idx _ path (rw e at opened)
                    (keeps idx (get_elem?-lt leaves idx leaf) ∙ leaf)),
              climbed,
              refl,
            ),
      )

  -- For rows that fit into the configured layers, hashing the rows and then `finalize` returns a
  -- root and a tree, in which the position of any row opens, with the hash of that row as the leaf,
  -- and `verify_opening` accepts the opening against that root.
  pub commit-open-verify :
      (a : ℕ) (ars : List ℕ) (label : ℕ) (values : List (List ℕ)) (idx : ℕ) (row : List ℕ)
      → AllPositive (a ∷ ars)
      → length values ≤ capacity (a ∷ ars)
      → get_elem? values idx ≡ some row
      → let cfg : MerkleChannelCfg = record { layer_arities = a ∷ ars; tree_label = label } in
        (root : Digest) × (tree : MerkleTreeChannel Digest) × (opening : MerkleOpening Digest)
        × ((push_leaves_parallel (new_tree cfg) values >>= finalize) ≡ some (root, tree))
        × (open_tree tree idx ≡ some opening)
        × (verify_opening cfg root opening ≡ some true)
        × (compute_leaf_hash cfg idx row ≡ some opening.leaf)
  commit-open-verify a ars label values idx row p fits at =
      let here = get_elem?-lt values idx at in
      let (root, tree, built, opens) = commit-opens a ars label values p (omega arith) fits in
      let (opening, opened, accepted, leaf) = opens idx row at in
      (root, tree, opening, built, opened, accepted, leaf)
