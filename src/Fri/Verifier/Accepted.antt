-- ===== src/Fri/Verifier/Accepted.antt =====
-- What the check of a layer owes.
pub mod Positions
pub mod Next
pub mod Queries
use stark_stir_service.Common.{
  ℕ, zero, suc, ◌+◌, ◌-◌, ◌<◌, ◌≡◌, refl, sym, ap, ◌∙◌, ◌↔◌, ◌⊎◌, inl, inr, Bool, true, false, ◌&&◌,
  not, Option, none, some, List, [], ◌∷◌, ◌==◌, ==_iff, if◌then◌else◌, length, get_elem?, arith,
  >>=-eq-some, ◌>>=◌, Bool-cases,
}
use stark_stir_service.Hashing.{Hash}
use stark_stir_service.Merkle.{MerkleChannelCfg, MerkleOpening, verify_opening, compute_leaf_hash}
use stark_stir_service.Fri.{Platform}
use stark_stir_service.Fri.Sizes.{
  layer_sizes_from_schedule, layer_cfg, f0_tree_config, query_position,
}
use stark_stir_service.Fri.Data.{
  LayerQueryRef, LayerOpenPayload, FriQueryPayload, LayerProof, DeepFriProof, DeepFriParams,
}
use stark_stir_service.Fri.Commitments.{row, ext_leaf_fields, is_empty}
use stark_stir_service.Fri.Replay.{Challenges, replay}
use stark_stir_service.Fri.Verifier.{
  require, and_then, check_leaf, Derived, shown_by, derive, check_coeffs,
}
use stark_stir_service.Fri.Verifier.Classic.{
  check_next, check_coeff_fold, check_layer, check_layers, check_f0, check_positions, check_query,
  check_queries, verify_classic,
}
use stark_stir_service.Fri.Verifier.Verify.{deep_fri_verify}

pub require-true :
    (b : Bool) (rest : Option Bool) → require b rest ≡ some true → (b ≡ true) × (rest ≡ some true)
unfolding require
require-true true rest h = (refl, h)
require-true false rest h = cc

pub and_then-true :
    (part rest : Option Bool)
    → and_then part rest ≡ some true
    → (part ≡ some true) × (rest ≡ some true)
unfolding and_then require
and_then-true none rest h = cc
and_then-true (some true) rest h = (refl, h)
and_then-true (some false) rest h = cc

-- The comparisons of the platform are those of the elements.
unfoldable pub IsEq : {F E : Type 0} → Platform F E → Type 0
IsEq {E = E} p = (a b : E) → p.eq a b ≡ true → a ≡ b

module _ {F E : Type 0} (p : Platform F E) ⦃H : Hash⦄ where
  open H use {Digest, beq, beq_iff}

  pub check_leaf-true :
      (cfg : MerkleChannelCfg) (opening : MerkleOpening Digest) (fields : List F)
      (rest : Option Bool)
      → check_leaf p cfg opening fields rest ≡ some true
      → (compute_leaf_hash cfg opening.index (row p fields) ≡ some opening.leaf)
        × (rest ≡ some true)
  unfolding check_leaf
  check_leaf-true cfg opening fields rest h =
      let (leaf, made, h1) = >>=-eq-some (compute_leaf_hash cfg opening.index (row p fields)) _ h in
      let (same, h2) = require-true (beq leaf opening.leaf) rest h1 in
      (made ∙ ap some ((beq_iff leaf opening.leaf).0 same), h2)

  -- What is checked of layer ell in query q: its opening against the root, the leaf against the
  -- values,
  -- the quotient against the value out of the domain, and what the layer folds to.
  pub record LayerHolds (commits : Bool) (params : DeepFriParams) (proof : DeepFriProof F E Digest)
      (d : Derived F E) (qp : FriQueryPayload E Digest) (q ell m : ℕ) : Type 0 where
    pub layer : LayerProof Digest
    pub opening : MerkleOpening Digest
    pub ref : LayerQueryRef
    pub pay : LayerOpenPayload E
    pub n : ℕ
    pub cfg : MerkleChannelCfg
    pub root : Digest
    pub omega : F
    pub fz : E
    pub layer_at : get_elem? proof.layer_proofs.layers ell ≡ some layer
    pub opening_at : get_elem? layer.openings q ≡ some opening
    pub ref_at : get_elem? qp.per_layer_refs ell ≡ some ref
    pub pay_at : get_elem? qp.per_layer_payloads ell ≡ some pay
    pub size_at : get_elem? d.sizes ell ≡ some n
    pub configured : layer_cfg n m ell ≡ some cfg
    pub root_at : get_elem? proof.roots ell ≡ some root
    pub omega_at : get_elem? d.omega_per_layer ell ≡ some omega
    pub fz_at : get_elem? proof.fz_per_layer ell ≡ some fz
    pub opens : verify_opening cfg root opening ≡ some true
    pub index : opening.index ≡ ref.i
    pub leaf :
        compute_leaf_hash cfg ref.i (row p (ext_leaf_fields p pay.f_val pay.s_val pay.q_val))
        ≡ some opening.leaf
    pub quotient :
        p.tower.ring.mul pay.q_val
          (p.tower.ring.sub (p.tower.from_fp (p.pow omega ref.i)) d.challenges.z_ext)
        ≡ p.tower.ring.sub pay.f_val fz
    pub folds :
        (if commits && (ell + 1 == length params.schedule)
          then check_coeff_fold p params proof d ell qp ref pay m
          else check_next p proof d (length params.schedule) ell qp pay)
        ≡ some true

  pub check_layer-LayerHolds :
      (commits : Bool) (params : DeepFriParams) (proof : DeepFriProof F E Digest) (d : Derived F E)
      (q : ℕ) (qp : FriQueryPayload E Digest) (ell m : ℕ)
      → IsEq p
      → check_layer p commits params proof d q qp ell m ≡ some true
      → LayerHolds commits params proof d qp q ell m
  unfolding check_layer IsEq
  check_layer-LayerHolds commits params proof d q qp ell m eq h =
      let (layer, layer_at, h1) = >>=-eq-some (get_elem? proof.layer_proofs.layers ell) _ h in
      let (opening, opening_at, h2) = >>=-eq-some (get_elem? layer.openings q) _ h1 in
      let (ref, ref_at, h3) = >>=-eq-some (get_elem? qp.per_layer_refs ell) _ h2 in
      let (pay, pay_at, h4) = >>=-eq-some (get_elem? qp.per_layer_payloads ell) _ h3 in
      let (n, size_at, h5) = >>=-eq-some (get_elem? d.sizes ell) _ h4 in
      let (cfg, configured, h6) = >>=-eq-some (layer_cfg n m ell) _ h5 in
      let (root, root_at, h7) = >>=-eq-some (get_elem? proof.roots ell) _ h6 in
      let (opens, h8) = and_then-true (verify_opening cfg root opening) _ h7 in
      let (index, h9) = require-true (opening.index == ref.i) _ h8 in
      let (leaf, h10) =
        check_leaf-true cfg opening (ext_leaf_fields p pay.f_val pay.s_val pay.q_val) _ h9 in
      let (omega, omega_at, h11) = >>=-eq-some (get_elem? d.omega_per_layer ell) _ h10 in
      let (fz, fz_at, h12) = >>=-eq-some (get_elem? proof.fz_per_layer ell) _ h11 in
      let (quotient, h13) =
        require-true
          (p.eq
            (p.tower.ring.mul pay.q_val
              (p.tower.ring.sub (p.tower.from_fp (p.pow omega ref.i)) d.challenges.z_ext))
            (p.tower.ring.sub pay.f_val fz))
          _ h12 in
      let same = (==_iff opening.index ref.i).0 index in
      record {
        layer = layer;
        opening = opening;
        ref = ref;
        pay = pay;
        n = n;
        cfg = cfg;
        root = root;
        omega = omega;
        fz = fz;
        layer_at = layer_at;
        opening_at = opening_at;
        ref_at = ref_at;
        pay_at = pay_at;
        size_at = size_at;
        configured = configured;
        root_at = root_at;
        omega_at = omega_at;
        fz_at = fz_at;
        opens = opens;
        index = same;
        leaf =
            ap
              (λ i.
                compute_leaf_hash cfg i (row p (ext_leaf_fields p pay.f_val pay.s_val pay.q_val)))
              (sym same)
            ∙ leaf;
        quotient = eq _ _ quotient;
        folds = h13;
      }
