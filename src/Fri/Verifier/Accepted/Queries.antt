-- ===== src/Fri/Verifier/Accepted/Queries.antt =====
-- What an accepted proof owes outside STIR mode.
use stark_stir_service.Common.{
  ℕ, ◌+◌, ◌%◌, ◌≡◌, Bool, true, ◌&&◌, Option, none, some, List, [], ◌∷◌, ◌==◌, length, ltb,
  get_elem?,
}
use stark_stir_service.Hashing.{Hash}
use stark_stir_service.Merkle.{MerkleChannelCfg, verify_opening, compute_leaf_hash}
use stark_stir_service.Fri.{Platform}
use stark_stir_service.Fri.Sizes.{f0_tree_config, query_position}
use stark_stir_service.Fri.Data.{LayerOpenPayload, FriQueryPayload, DeepFriProof, DeepFriParams}
use stark_stir_service.Fri.Commitments.{row}
use stark_stir_service.Fri.Verifier.{require, check_leaf, Derived}
use stark_stir_service.Fri.Verifier.Classic.{is_base}
use stark_stir_service.Fri.Verifier.Accepted.{LayerHolds}
use stark_stir_service.Fri.Verifier.Accepted.Next.{NextHolds}

module _ {F E : Type 0} (p : Platform F E) ⦃H : Hash⦄ where
  open H use {Digest}

  -- The value of the first layer is in the base field, and opens in the tree of f0 at position i.
  pub record F0Holds (proof : DeepFriProof F E Digest) (f0_cfg : MerkleChannelCfg)
      (qp : FriQueryPayload E Digest) (i : ℕ) : Type 0 where
    pub pay : LayerOpenPayload E
    pub c0 : F
    pub cs : List F
    pub pay_at : get_elem? qp.per_layer_payloads 0 ≡ some pay
    pub components : p.tower.to_fp_components pay.f_val ≡ c0 ∷ cs
    pub base : is_base p cs ≡ true
    pub opens : verify_opening f0_cfg proof.root_f0 qp.f0_opening ≡ some true
    pub index : qp.f0_opening.index ≡ i
    pub leaf : compute_leaf_hash f0_cfg i (row p (c0 ∷ [])) ≡ some qp.f0_opening.leaf

  -- The check of the components of the first value.
  abbrev check_components : MerkleChannelCfg → FriQueryPayload E Digest → ℕ → List F → Option Bool
  check_components f0_cfg qp i [] = none
  check_components f0_cfg qp i (c0 ∷ cs) =
      require (is_base p cs)
        (check_leaf p f0_cfg qp.f0_opening (c0 ∷ []) (some (qp.f0_opening.index == i)))

  -- What query q of an accepted proof shows of layer ell: the position in the layer is the query's
  -- first one modulo the layer's size, and the final index that one modulo the last size.
  pub record QueryHolds (commits : Bool) (params : DeepFriParams) (proof : DeepFriProof F E Digest)
      (d : Derived F E) (q ell m : ℕ) : Type 0 where
    pub qp : FriQueryPayload E Digest
    pub i0 : ℕ
    pub last : ℕ
    pub f0_cfg : MerkleChannelCfg
    pub query_at : get_elem? proof.queries q ≡ some qp
    pub drawn : query_position p d.challenges.query_seed proof.n0 q ≡ some i0
    pub configured : f0_tree_config proof.n0 ≡ some f0_cfg
    pub f0 : F0Holds proof f0_cfg qp i0
    pub layer : LayerHolds p commits params proof d qp q ell m
    pub position : layer.ref.i ≡ i0 % layer.n
    pub next :
        NextHolds p params proof d qp ell m layer.ref layer.pay
          (commits && (ell + 1 == length params.schedule))
          (ltb (ell + 1) (length params.schedule))
    pub last_at : get_elem? d.sizes (length params.schedule) ≡ some last
    pub final : qp.final_index ≡ i0 % last
