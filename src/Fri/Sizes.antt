-- ===== src/Fri/Sizes.antt =====
-- crates/deep_ali/src/fri.rs: the sizes of layers and trees, and the positions that are queried.
pub mod Trees
pub mod Positions
use stark_stir_service.Common.{
  ℕ, zero, suc, ◌+◌, ◌-◌, ◌*◌, ◌/◌, ◌%◌, Bool, ◌&&◌, Option, none, some, List, [], ◌∷◌, ◌++◌, ◌==◌,
  ltb, leb, if◌then◌else◌, map, replicate, to_le_bytes, text, is_power_of_two, exact_div,
  checked_div, ◌>>=◌,
}
use stark_stir_service.Hashing.{Hash}
use stark_stir_service.Merkle.{MerkleChannelCfg, concat}
use stark_stir_service.Fri.{Platform, field_to_le_bytes, tr_hash_fields_tagged, next_power_of_two}

-- One round for each level; `leaves` of them are enough.
unfoldable pub depth_loop : ℕ → ℕ → ℕ → ℕ → ℕ
depth_loop zero arity cur depth = depth
depth_loop (suc fuel) arity cur depth =
    let next = depth_loop fuel arity ((cur + arity - 1) / arity) (depth + 1) in
    if ltb arity cur then next else depth

unfoldable pub merkle_depth : ℕ → ℕ → Option ℕ
unfolding depth_loop
merkle_depth leaves arity = if ltb arity 2 then none else some (depth_loop leaves arity leaves 1)

unfoldable pub pick_arity_for_layer : ℕ → ℕ → ℕ
pick_arity_for_layer n requested_m =
    if leb 128 requested_m && (n % 128 == 0)
    then 128
    else if leb 64 requested_m && (n % 64 == 0)
    then 64
    else if leb 32 requested_m && (n % 32 == 0)
    then 32
    else if leb 16 requested_m && (n % 16 == 0)
    then 16
    else if leb 8 requested_m && (n % 8 == 0)
    then 8
    else if leb 4 requested_m && (n % 4 == 0)
    then 4
    else if n % 2 == 0
    then 2
    else 1

-- `max(2)`.
unfoldable pub at_least_two : ℕ → ℕ
at_least_two a = if ltb a 2 then 2 else a

-- `vec![arity; depth]` for a number of leaves, as every tree of the protocol is configured.
unfoldable pub layer_cfg : ℕ → ℕ → ℕ → Option MerkleChannelCfg
unfolding merkle_depth pick_arity_for_layer at_least_two
layer_cfg leaves requested_m tree_label = do
  let arity = at_least_two (pick_arity_for_layer leaves requested_m)
  depth ← merkle_depth leaves arity
  some (record { layer_arities = replicate depth arity; tree_label = tree_label })

unfoldable pub coeff_tree_config : ℕ → Option MerkleChannelCfg
unfolding layer_cfg
coeff_tree_config n_final = layer_cfg n_final 16 254

unfoldable pub f0_tree_config : ℕ → Option MerkleChannelCfg
unfolding layer_cfg
f0_tree_config n0 = layer_cfg n0 16 255

unfoldable pub f0_packed_tree_config : ℕ → ℕ → Option MerkleChannelCfg
unfolding layer_cfg
f0_packed_tree_config n0 m0 = do n_leaves ← checked_div n0 m0; layer_cfg n_leaves 16 255

unfoldable pub layer_sizes_loop : ℕ → List ℕ → Option (List ℕ)
layer_sizes_loop n [] = some []
layer_sizes_loop n (m ∷ schedule) = do
  next ← exact_div n m
  sizes ← layer_sizes_loop next schedule
  some (next ∷ sizes)

unfoldable pub layer_sizes_from_schedule : ℕ → List ℕ → Option (List ℕ)
unfolding layer_sizes_loop
layer_sizes_from_schedule n0 schedule = do sizes ← layer_sizes_loop n0 schedule; some (n0 ∷ sizes)

module _ ⦃H : Hash⦄ where
  open H use {Digest, digest, bytes}

  unfoldable pub f0_trace_hash : ℕ → ℕ → Digest
  f0_trace_hash n0 seed_z =
      digest (text "FRI/F0_TREE_DOMAIN" ++ (to_le_bytes 8 n0 ++ to_le_bytes 8 seed_z))

  unfoldable pub f0_packed_trace_hash : ℕ → ℕ → ℕ → Digest
  f0_packed_trace_hash n0 m0 seed_z = digest (
      text "FRI/F0_PACKED_TREE" ++ (to_le_bytes 8 n0 ++ (to_le_bytes 8 m0 ++ to_le_bytes 8 seed_z)))

  unfoldable pub hash_node : List Digest → Digest
  hash_node children = digest (text "FRI/MERKLE/NODE" ++ concat (map bytes children))

module _ {F E : Type 0} (p : Platform F E) where
  -- The seed of `StdRng`: 8 bytes, and 24 zeros.
  unfoldable pub seed_bytes : F → List ℕ
  unfolding field_to_le_bytes
  seed_bytes f = field_to_le_bytes p f ++ replicate 24 0

  -- The mask of a power of two leaves the remainder.
  unfoldable pub index_from_seed : F → ℕ → Option ℕ
  unfolding seed_bytes
  index_from_seed seed_f n_pow2 =
      if is_power_of_two n_pow2 then some (p.draw (seed_bytes seed_f) 0 % n_pow2) else none

  module _ ⦃H : Hash⦄ where
    unfoldable pub index_seed : F → ℕ → ℕ → Option F
    unfolding tr_hash_fields_tagged
    index_seed roots_seed ell q =
        tr_hash_fields_tagged p (text "FRI/index")
          (roots_seed ∷ p.ground.from_u64 ell ∷ p.ground.from_u64 q ∷ [])

    -- The position of query q in the first layer, as both provers and the verifier derive it.
    unfoldable pub query_position : F → ℕ → ℕ → Option ℕ
    unfolding index_seed index_from_seed next_power_of_two
    query_position query_seed n0 q = do
      seed ← index_seed query_seed 0 q
      i ← index_from_seed seed (next_power_of_two n0)
      if n0 == 0 then none else some (i % n0)
