-- ===== src/Merkle.antt =====
-- crates/merkle/src/lib.rs: the Merkle tree that commits to rows of field elements.
-- The feature `poseidon-accel` is off, as it is by default. `rayon` changes no result, so the
-- parallel loops are the sequential ones. `none` stands for a panic (an index out of range, a
-- division by zero). A field element is its canonical integer below the modulus.
pub mod Chunks
pub mod Siblings
pub mod Levels
pub mod Opening
pub mod Binding
pub mod Compact
use stark_stir_service.Common.{
  ℕ, zero, suc, ◌+◌, ◌-◌, ◌*◌, ◌/◌, ◌%◌, ◌^◌, Bool, true, false, Option, none, some, List, [], ◌∷◌,
  ◌++◌, map, ltb, ◌==◌, if◌then◌else◌, length, get_elem?, get_last?, set_elem, take, drop,
  replicate, to_le_bytes, from_le_bytes, ◌>>=◌,
}
use stark_stir_service.Hashing.{Hash}

-- The order of the field, 2^64 - 2^32 + 1.
abbrev pub modulus : ℕ
modulus = 18446744069414584321

unfoldable pub field_to_bytes : ℕ → List ℕ
field_to_bytes v = to_le_bytes 8 v

unfoldable pub bytes_to_field : List ℕ → ℕ
bytes_to_field bs = from_le_bytes bs % modulus

pub record DsLabel : Type 0 where
  pub arity : ℕ
  pub level : ℕ
  pub position : ℕ
  pub tree_label : ℕ

unfoldable pub to_bytes : DsLabel → List ℕ
to_bytes d =
    to_le_bytes 8 d.arity
    ++ (to_le_bytes 8 d.level ++ (to_le_bytes 8 d.position ++ to_le_bytes 8 d.tree_label))

abbrev pub leaf_level_ds : ℕ
leaf_level_ds = 4294967295

-- `level as u32 + 1`.
unfoldable pub level_tag : ℕ → ℕ
level_tag level = (level % 4294967296 + 1) % 4294967296

pub record MerkleChannelCfg : Type 0 where
  pub layer_arities : List ℕ
  pub tree_label : ℕ

pub record MerkleOpening {ℓ} (D : Type ℓ) : Type ℓ where
  pub leaf : D
  pub path : List (List D)
  pub index : ℕ

pub record MerkleTreeChannel {ℓ} (D : Type ℓ) : Type ℓ where
  pub cfg : MerkleChannelCfg
  pub skip : ℕ
  pub levels : List (List D)

module _ {ℓ} {A : Type ℓ} where
  unfoldable pub concat : List (List A) → List A
  concat [] = []
  concat (xs ∷ xss) = xs ++ concat xss

  -- The first `n` of the slices of `a` elements that follow one another in a list.
  unfoldable pub chunks_of : ℕ → ℕ → List A → List (List A)
  chunks_of zero a xs = []
  chunks_of (suc n) a xs = take a xs ∷ chunks_of n a (drop a xs)

  -- `xs.chunks(a)`: the last slice may be shorter.
  unfoldable pub chunks : ℕ → List A → List (List A)
  unfolding chunks_of
  chunks a xs = chunks_of ((length xs + a - 1) / a) a xs

  -- `extend(repeat(last).take(arity - len % arity))`, unless `arity` divides the length.
  unfoldable pub pad_level : ℕ → List A → List A
  pad_level a xs =
      if length xs % a == 0
      then xs
      else (elim (get_last? xs) [ none ↦ xs | some l ↦ xs ++ replicate (a - length xs % a) l ])

  -- A position behind the end reads the last node.
  unfoldable pub node_at : List A → ℕ → Option A
  node_at nodes pos = elim (get_elem? nodes pos) [ none ↦ get_last? nodes | some x ↦ some x ]

  -- The nodes at `n` positions from `pos` on, without the one at `idx`.
  unfoldable pub siblings_from : ℕ → ℕ → ℕ → List A → Option (List A)
  unfolding node_at
  siblings_from zero pos idx nodes = some []
  siblings_from (suc n) pos idx nodes =
      let rest = siblings_from n (pos + 1) idx nodes in
      if pos == idx then rest else (do x ← node_at nodes pos; xs ← rest; some (x ∷ xs))

  unfoldable pub group_siblings : ℕ → ℕ → List A → Option (List A)
  unfolding siblings_from
  group_siblings arity idx nodes = siblings_from arity ((idx / arity) * arity) idx nodes

  -- One round of `open` for each stored level but the last.
  unfoldable pub open_path : List ℕ → List (List A) → ℕ → Option (List (List A))
  unfolding group_siblings
  open_path ars [] idx = none
  open_path ars (nodes ∷ []) idx = some []
  open_path [] (nodes ∷ next ∷ levels) idx = none
  open_path (a ∷ ars) (nodes ∷ next ∷ levels) idx =
      let rest = open_path ars (next ∷ levels) (idx / a) in
      if a == 0
      then none
      else (do sibs ← group_siblings a idx nodes; path ← rest; some (sibs ∷ path))

  unfoldable pub open_tree : MerkleTreeChannel A → ℕ → Option (MerkleOpening A)
  unfolding open_path
  open_tree t index = do
    path ← open_path (drop t.skip t.cfg.layer_arities) t.levels index
    leaves ← get_elem? t.levels 0
    leaf ← get_elem? leaves index
    some (record { leaf = leaf; path = path; index = index })

  -- The verifier's loop over a group: `cur` at `pos`, siblings elsewhere; `none` if they run out.
  unfoldable pub place : ℕ → ℕ → ℕ → A → List A → Option (List A)
  place zero i pos cur sibs = some []
  place (suc n) i pos cur [] = elim (i == pos) [
    | true ↦ (do cs ← place n (i + 1) pos cur []; some (cur ∷ cs))
    | false ↦ none
  ]
  place (suc n) i pos cur (s ∷ sibs) = elim (i == pos) [
    | true ↦ (do cs ← place n (i + 1) pos cur (s ∷ sibs); some (cur ∷ cs))
    | false ↦ (do cs ← place n (i + 1) pos cur sibs; some (s ∷ cs))
  ]

  -- `MerkleTreeChannel::new`.
  unfoldable pub new_tree : MerkleChannelCfg → MerkleTreeChannel A
  new_tree cfg = record { cfg = cfg; skip = 0; levels = [] }

module _ ⦃H : Hash⦄ where
  open H use {Digest, digest, bytes, beq}

  -- The message of `compress_node_standalone`.
  unfoldable pub node_message : ℕ → ℕ → ℕ → ℕ → List Digest → List ℕ
  unfolding to_bytes concat
  node_message arity tree_label level position children =
      to_bytes
        (record { arity = arity; level = level; position = position; tree_label = tree_label })
      ++ concat (map bytes children)

  unfoldable pub compress_node_standalone : ℕ → ℕ → ℕ → ℕ → List Digest → Digest
  unfolding node_message
  compress_node_standalone arity tree_label level position children =
      digest (node_message arity tree_label level position children)

  unfoldable pub compress_leaf_standalone : ℕ → ℕ → ℕ → List ℕ → Digest
  unfolding to_bytes concat field_to_bytes
  compress_leaf_standalone arity tree_label position values = digest (
      to_bytes (record {
        arity = arity;
        level = leaf_level_ds;
        position = position;
        tree_label = tree_label;
      })
      ++ concat (map field_to_bytes values))

  -- The map over `chunks(arity).enumerate()`, from position `i` on.
  unfoldable pub hash_groups : ℕ → ℕ → ℕ → ℕ → List (List Digest) → List Digest
  hash_groups arity tree_label level i [] = []
  hash_groups arity tree_label level i (g ∷ gs) =
      compress_node_standalone arity tree_label level i g
      ∷ hash_groups arity tree_label level (i + 1) gs

  unfoldable pub hash_leaves : ℕ → ℕ → ℕ → List (List ℕ) → List Digest
  hash_leaves arity tree_label i [] = []
  hash_leaves arity tree_label i (v ∷ vs) =
      compress_leaf_standalone arity tree_label i v ∷ hash_leaves arity tree_label (i + 1) vs

  unfoldable pub parents : ℕ → ℕ → ℕ → List Digest → List Digest
  unfolding hash_groups chunks
  parents arity tree_label level nodes =
      hash_groups arity tree_label (level_tag level) 0 (chunks arity nodes)

  -- The loop of `finalize`, where `skip` is 0, and of `commit_compact`, over the arities that are
  -- left. The level that is written has been read before.
  unfoldable pub finalize_loop :
      ℕ → ℕ → ℕ → List ℕ → List (List Digest) → Option (List (List Digest))
  unfolding parents pad_level
  finalize_loop tree_label skip level [] levels = do
    cur ← get_elem? levels level
    if ltb 1 (length cur) then none else some levels
  finalize_loop tree_label skip level (a ∷ ars) levels = do
    cur ← get_elem? levels level
    let padded = pad_level a cur
    let grown = set_elem levels level padded ++ parents a tree_label (skip + level) padded ∷ []
    let rest = finalize_loop tree_label skip (level + 1) ars grown
    if ltb 1 (length cur) then (if a == 0 then none else rest) else some levels

  -- `self.levels.last().unwrap()[0]`.
  unfoldable pub root_of : List (List Digest) → Option Digest
  root_of levels = do top ← get_last? levels; get_elem? top 0

  unfoldable pub finalize : MerkleTreeChannel Digest → Option (Digest × MerkleTreeChannel Digest)
  unfolding finalize_loop root_of
  finalize t = do
    levels ← finalize_loop t.cfg.tree_label 0 0 t.cfg.layer_arities t.levels
    root ← root_of levels
    some (root, record t { levels = levels })

  -- `levels[0]` of a tree that may hold no level yet.
  abbrev ensure_level : List (List Digest) → List (List Digest)
  ensure_level [] = [] ∷ []
  ensure_level (l ∷ ls) = l ∷ ls

  unfoldable pub push_leaf : MerkleTreeChannel Digest → List ℕ → Option (MerkleTreeChannel Digest)
  unfolding compress_leaf_standalone
  push_leaf t values = do
    leaves ← get_elem? (ensure_level t.levels) 0
    arity ← get_elem? t.cfg.layer_arities 0
    let leaf = compress_leaf_standalone arity t.cfg.tree_label (length leaves) values
    some (record t { levels = set_elem (ensure_level t.levels) 0 (leaves ++ leaf ∷ []) })

  unfoldable pub push_leaves_parallel :
      MerkleTreeChannel Digest → List (List ℕ) → Option (MerkleTreeChannel Digest)
  unfolding hash_leaves
  push_leaves_parallel t all_values = do
    arity ← get_elem? t.cfg.layer_arities 0
    let leaves = hash_leaves arity t.cfg.tree_label 0 all_values
    some (record t { levels = set_elem (ensure_level t.levels) 0 leaves })

  -- The loop of `verify_opening`; `some false` is its early return.
  unfoldable pub climb : ℕ → ℕ → List ℕ → Digest → ℕ → List (List Digest) → Digest → Option Bool
  unfolding compress_node_standalone place level_tag
  climb tree_label level ars cur idx [] root = some (beq cur root)
  climb tree_label level [] cur idx (sibs ∷ path) root = none
  climb tree_label level (a ∷ ars) cur idx (sibs ∷ path) root = elim (a == 0) [
    | true ↦ none
    | false ↦ elim (place a 0 (idx % a) cur sibs) [
      | none ↦ some false
      | some children ↦
          climb tree_label (level + 1) ars
            (compress_node_standalone a tree_label (level_tag level) (idx / a) children) (idx / a)
            path root
    ]
  ]

  unfoldable pub verify_opening : MerkleChannelCfg → Digest → MerkleOpening Digest → Option Bool
  unfolding climb
  verify_opening cfg root opening =
      climb cfg.tree_label 0 cfg.layer_arities opening.leaf opening.index opening.path root

  unfoldable pub compute_leaf_hash : MerkleChannelCfg → ℕ → List ℕ → Option Digest
  unfolding compress_leaf_standalone
  compute_leaf_hash cfg index values = do
    arity ← get_elem? cfg.layer_arities 0
    some (compress_leaf_standalone arity cfg.tree_label index values)
