-- ===== src/Fri/Sizes/Trees.antt =====
-- The depth that `merkle_depth` gives is enough for the leaves, so every tree of the protocol is
-- built.
use native.Mathlib.Nat.{lt-mul-div-succ, div-lt_iff_lt-mul, mul-le-mul_left, pow-succ', pow-zero}
use stark_stir_service.Common.{
  ℕ, zero, suc, ◌+◌, ◌-◌, ◌*◌, ◌/◌, ◌^◌, ◌≤◌, ◌<◌, ◌≡◌, sym, ap, ◌∙◌, false, true, Option, some,
  List, inl, inr, arith, ltb, Bool-cases, ◌∷◌, length, get_elem?, replicate, pow-one, ◌>>=◌,
}
use stark_stir_service.Hashing.{Hash}
use stark_stir_service.Merkle.{
  MerkleChannelCfg, MerkleOpening, MerkleTreeChannel, new_tree, push_leaves_parallel, finalize,
  open_tree, verify_opening, compute_leaf_hash,
}
use stark_stir_service.Merkle.Levels.{AllPositive, capacity}
use stark_stir_service.Merkle.Opening.{commit-open-verify}
use stark_stir_service.Fri.Sizes.{
  depth_loop, merkle_depth, pick_arity_for_layer, at_least_two, layer_cfg,
}

-- A level of groups covers the level below, and is smaller.
groups_cover : (cur arity : ℕ) → 0 < arity → cur ≤ arity * ((cur + arity - 1) / arity)
groups_cover cur arity h = omega (arith, lt-mul-div-succ (cur + arity - 1) h)

groups_shrink : (cur arity : ℕ) → 2 ≤ arity → arity < cur → (cur + arity - 1) / arity < cur
groups_shrink cur arity h more =
    (div-lt_iff_lt-mul (omega arith)).1 (omega (arith, mul-le-mul_left cur h))

-- The rounds that the loop has added cover the nodes.
depth_loop-covers :
    (fuel arity cur depth : ℕ)
    → 2 ≤ arity
    → cur ≤ fuel
    → (more : ℕ) × (depth_loop fuel arity cur depth ≡ depth + more) × (cur ≤ arity ^ suc more)
unfolding depth_loop
depth_loop-covers zero arity cur depth h fits = (0, omega arith, omega arith)
depth_loop-covers (suc fuel) arity cur depth h fits = elim (Bool-cases (ltb arity cur)) [
  | inl more ↦
      let next = (cur + arity - 1) / arity in
      let large : arity < cur = ground arith in
      let (k, made, covers) =
        depth_loop-covers fuel arity next (depth + 1) h
          (omega (arith, groups_shrink cur arity h large)) in
      (
        suc k,
        rw more (made ∙ omega arith),
        omega (
          arith,
          groups_cover cur arity (omega arith),
          mul-le-mul_left arity covers,
          pow-succ' arity (suc k),
        ),
      )
  | inr done ↦ (0, rw done (omega arith), ground (arith, pow-one arity))
]

-- For every number of leaves and every arity of at least 2 the loop of `merkle_depth` ends, with at
-- least one level, and as many levels as the leaves need.
pub merkle_depth-covers :
    (leaves arity : ℕ)
    → 2 ≤ arity
    → (depth : ℕ) × (merkle_depth leaves arity ≡ some depth)
      × (0 < depth)
      × (leaves ≤ arity ^ depth)
unfolding merkle_depth
merkle_depth-covers leaves arity h =
    let (more, made, covers) = depth_loop-covers leaves arity leaves 1 h (omega arith) in
    let enough : ltb arity 2 ≡ false = ground arith in
    let e : 1 + more ≡ suc more = omega arith in
    (suc more, rw enough (ap some (made ∙ e)), omega arith, covers)

capacity-replicate : (n a : ℕ) → capacity (replicate n a) ≡ a ^ n
capacity-replicate zero a = sym (pow-zero a)
capacity-replicate (suc n) a = ap (λ c. a * c) (capacity-replicate n a) ∙ sym (pow-succ' a n)

AllPositive-replicate : (n a : ℕ) → 0 < a → AllPositive (replicate n a)
AllPositive-replicate zero a h = tt
AllPositive-replicate (suc n) a h = (h, AllPositive-replicate n a h)

at_least_two-le : (a : ℕ) → 2 ≤ at_least_two a
unfolding at_least_two
at_least_two-le a = ground arith

-- The configuration of a layer: at least one level, and room for the leaves.
layer_cfg-room :
    (leaves requested_m label : ℕ)
    → (a : ℕ) × (ars : List ℕ) × (layer_cfg leaves requested_m label
        ≡ some (record { layer_arities = a ∷ ars; tree_label = label }))
      × AllPositive (a ∷ ars)
      × (leaves ≤ capacity (a ∷ ars))
unfolding layer_cfg
layer_cfg-room leaves requested_m label =
    let arity = at_least_two (pick_arity_for_layer leaves requested_m) in
    let big = at_least_two-le (pick_arity_for_layer leaves requested_m) in
    let make : ℕ → Option MerkleChannelCfg =
      λ d. some (record { layer_arities = replicate d arity; tree_label = label }) in
    let (depth, made, pos, covers) = merkle_depth-covers leaves arity big in
    let some_level : suc (depth - 1) ≡ depth = omega (arith, pos) in
    (
      arity,
      replicate (depth - 1) arity,
      ap (λ o. o >>= make) made ∙ ap make (sym some_level),
      AllPositive-replicate (suc (depth - 1)) arity (omega (arith, big)),
      omega (
        arith,
        covers,
        capacity-replicate (suc (depth - 1)) arity,
        ap (λ d. arity ^ d) some_level,
      ),
    )

module _ ⦃H : Hash⦄ where
  open H use {Digest}

  -- For every number of rows from one on, every requested arity and every label, the configuration
  -- of
  -- the layer is made, a tree of that many rows is built under it, and each row opens and verifies
  -- against its root, with the hash of the row as the leaf.
  pub layer_cfg-commit-open :
      (values : List (List ℕ)) (requested_m label idx : ℕ) (row : List ℕ)
      → get_elem? values idx ≡ some row
      → (cfg : MerkleChannelCfg) × (root : Digest) × (tree : MerkleTreeChannel Digest)
        × (opening : MerkleOpening Digest) × (layer_cfg (length values) requested_m label
            ≡ some cfg)
        × ((push_leaves_parallel (new_tree cfg) values >>= finalize) ≡ some (root, tree))
        × (open_tree tree idx ≡ some opening)
        × (verify_opening cfg root opening ≡ some true)
        × (compute_leaf_hash cfg idx row ≡ some opening.leaf)
  layer_cfg-commit-open values requested_m label idx row at =
      let (a, ars, made, positive, room) = layer_cfg-room (length values) requested_m label in
      let (root, tree, opening, built, opened, accepted, leaf) =
        commit-open-verify a ars label values idx row positive room at in
      (
        record { layer_arities = a ∷ ars; tree_label = label },
        root,
        tree,
        opening,
        made,
        built,
        opened,
        accepted,
        leaf,
      )
