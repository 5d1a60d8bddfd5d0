-- ===== src/Merkle/Binding.antt =====
-- Two accepted openings of one position agree on the leaf, or exhibit a collision of the hash.
use native.Mathlib.Nat.{mod-lt}
use stark_stir_service.Common.{
  ℕ, zero, suc, ◌+◌, ◌/◌, ◌%◌, ◌<◌, ◌≡◌, ◌≢◌, refl, sym, ap, subst, ◌∙◌, Option, none, some, List,
  [], ◌∷◌, ◌⊎◌, inl, inr, arith, ◌==◌, Bool, Bool-cases, length, get_elem?, true, false,
  >>=-eq-some, Option-cases, map, ℕ_discrete, append_injective,
}
use mathlib.Core.List.{mem-cons_self}
use stark_stir_service.Hashing.{Hash, Collision, Collision-cons}
use stark_stir_service.Merkle.{
  MerkleChannelCfg, MerkleOpening, climb, verify_opening, place, compress_node_standalone,
  node_message, concat, level_tag,
}

module _ {ℓ} {A : Type ℓ} where
  place-inv-hit :
      (n i p : ℕ) (cur : A) (sibs cs : List A)
      → (i == p) ≡ true
      → place (suc n) i p cur sibs ≡ some cs
      → (rest : List A) × (place n (i + 1) p cur sibs ≡ some rest) × (cs ≡ cur ∷ rest)
  unfolding place
  place-inv-hit n i p cur [] cs hit h =
      let (rest, e, f) = >>=-eq-some (place n (i + 1) p cur []) _ (rw (hit, place) at h) in
      (rest, e, cc)
  place-inv-hit n i p cur (s ∷ sibs) cs hit h =
      let (rest, e, f) = >>=-eq-some (place n (i + 1) p cur (s ∷ sibs)) _ (rw (hit, place) at h) in
      (rest, e, cc)

  place-inv-miss :
      (n i p : ℕ) (cur : A) (sibs cs : List A)
      → (i == p) ≡ false
      → place (suc n) i p cur sibs ≡ some cs
      → (s : A) × (tail rest : List A) × (place n (i + 1) p cur tail ≡ some rest) × (cs ≡ s ∷ rest)
  unfolding place
  place-inv-miss n i p cur [] cs miss h = absurd (ground arith)
  place-inv-miss n i p cur (s ∷ sibs) cs miss h =
      let (rest, e, f) = >>=-eq-some (place n (i + 1) p cur sibs) _ (rw (miss, place) at h) in
      (s, sibs, rest, e, cc)

  length-place :
      (n i p : ℕ) (cur : A) (sibs cs : List A) → place n i p cur sibs ≡ some cs → length cs ≡ n
  unfolding place
  length-place zero i p cur sibs cs h = let e : cs ≡ [] = cc in omega (arith, ap length e)
  length-place (suc n) i p cur sibs cs h = elim (Bool-cases (i == p)) [
    | inl hit ↦
        let (rest, e, f) = place-inv-hit n i p cur sibs cs hit h in
        omega (arith, ap length f, length-place n (i + 1) p cur sibs rest e)
    | inr miss ↦
        let (s, tail, rest, e, f) = place-inv-miss n i p cur sibs cs miss h in
        omega (arith, ap length f, length-place n (i + 1) p cur tail rest e)
  ]

  -- The value that is authenticated stands at its place among the children.
  place-get :
      (n i p k : ℕ) (cur : A) (sibs cs : List A)
      → place n i p cur sibs ≡ some cs
      → p ≡ i + k
      → k < n
      → get_elem? cs k ≡ some cur
  place-get zero i p k cur sibs cs h e lt = absurd (omega arith)
  place-get (suc n) i p zero cur sibs cs h e lt =
      let (rest, q, f) = place-inv-hit n i p cur sibs cs (ground arith) h in rw f
  place-get (suc n) i p (suc k) cur sibs cs h e lt =
      let (s, tail, rest, q, f) = place-inv-miss n i p cur sibs cs (ground arith) h in
      rw f (place-get n (i + 1) p k cur tail rest q (omega arith) (omega arith))

List-discrete : Discrete (List ℕ)
List-discrete = hlevel ℕ_discrete

module _ ⦃H : Hash⦄ where
  open H use {Digest, beq, beq_iff, bytes, bytes-injective, length-bytes, digest}

  concat-injective :
      (cs ds : List Digest)
      → length cs ≡ length ds
      → concat (map bytes cs) ≡ concat (map bytes ds)
      → cs ≡ ds
  unfolding concat
  concat-injective [] [] e h = refl
  concat-injective [] (d ∷ ds) e h = absurd (omega arith)
  concat-injective (c ∷ cs) [] e h = absurd (omega arith)
  concat-injective (c ∷ cs) (d ∷ ds) e h =
      let (same, rest) =
        append_injective (bytes c) (bytes d) (length-bytes c ∙ sym (length-bytes d)) h in
      let tail = concat-injective cs ds (omega arith) rest in
      let head = bytes-injective c d same in cc (head, tail)

  -- Equal node hashes come from equal children, or from two messages that collide.
  node-binding :
      (a t l p : ℕ) (cs ds : List Digest)
      → length cs ≡ length ds
      → compress_node_standalone a t l p cs ≡ compress_node_standalone a t l p ds
      → (cs ≡ ds) ⊎ (node_message a t l p cs ≢ node_message a t l p ds)
  unfolding compress_node_standalone node_message
  node-binding a t l p cs ds e h =
      elim (List-discrete (node_message a t l p cs) (node_message a t l p ds)) [
        | yes same ↦ inl (concat-injective cs ds e (append_injective _ _ refl same).1)
        | no other ↦ inr other
      ]

  -- The messages that `climb` hashes on its way up.
  unfoldable pub climb_messages : ℕ → ℕ → List ℕ → Digest → ℕ → List (List Digest) → List (List ℕ)
  climb_messages t level ars cur idx [] = []
  climb_messages t level [] cur idx (sibs ∷ path) = []
  climb_messages t level (a ∷ ars) cur idx (sibs ∷ path) = elim (place a 0 (idx % a) cur sibs) [
    | none ↦ []
    | some cs ↦
        node_message a t (level_tag level) (idx / a) cs
        ∷ climb_messages t (level + 1) ars
            (compress_node_standalone a t (level_tag level) (idx / a) cs) (idx / a) path
  ]

  climb_messages-placed :
      (t level a idx : ℕ) (ars : List ℕ) (cur : Digest) (sibs cs : List Digest)
      (path : List (List Digest))
      → place a 0 (idx % a) cur sibs ≡ some cs
      → climb_messages t level (a ∷ ars) cur idx (sibs ∷ path)
        ≡ node_message a t (level_tag level) (idx / a) cs
          ∷ climb_messages t
              (level + 1)
              ars
              (compress_node_standalone a t (level_tag level) (idx / a) cs)
              (idx / a)
              path
  unfolding climb_messages
  climb_messages-placed t level a idx ars cur sibs cs path e = rw (e, climb_messages) refl

  climb-inv :
      (t level a idx : ℕ) (ars : List ℕ) (cur root : Digest) (sibs : List Digest)
      (path : List (List Digest))
      → climb t level (a ∷ ars) cur idx (sibs ∷ path) root ≡ some true
      → (0 < a)
        × (cs : List Digest) × (place a 0 (idx % a) cur sibs ≡ some cs)
        × (climb t
              (level + 1)
              ars
              (compress_node_standalone a t (level_tag level) (idx / a) cs)
              (idx / a)
              path
              root
            ≡ some true)
  unfolding climb
  climb-inv t level a idx ars cur root sibs path h = elim (Bool-cases (a == 0)) [
    | inl z ↦ absurd (none_ne_some (rw (z, climb) at h))
    | inr nz ↦ elim (Option-cases (place a 0 (idx % a) cur sibs)) [
      | inl e ↦ absurd (rejected (rw (nz, climb, e) at h))
      | inr (cs, e) ↦ (ground arith, cs, e, rw (nz, climb, e) at h)
    ]
  ]
    where
      none_ne_some : ◌≡◌ {A = Option Bool} none (some true) → ⊥
      none_ne_some e = cc

      rejected : ◌≡◌ {A = Option Bool} (some false) (some true) → ⊥
      rejected e = cc

  climb-top :
      (t level idx : ℕ) (ars : List ℕ) (cur root : Digest)
      → climb t level ars cur idx [] root ≡ some true
      → cur ≡ root
  unfolding climb
  climb-top t level idx [] cur root h = (beq_iff cur root).0 (cc (h))
  climb-top t level idx (a ∷ ars) cur root h = (beq_iff cur root).0 (cc (h))

  climb-out :
      (t level idx : ℕ) (cur root : Digest) (s : List Digest) (path : List (List Digest))
      → climb t level [] cur idx (s ∷ path) root ≡ some true
      → ⊥
  unfolding climb
  climb-out t level idx cur root s path h = cc

  pub climb-binding :
      (t level idx : ℕ) (ars : List ℕ) (cur cur' root : Digest) (path path' : List (List Digest))
      → length path ≡ length path'
      → climb t level ars cur idx path root ≡ some true
      → climb t level ars cur' idx path' root ≡ some true
      → (cur ≡ cur')
        ⊎ Collision
            (climb_messages t level ars cur idx path)
            (climb_messages t level ars cur' idx path')
  unfolding compress_node_standalone
  climb-binding t level idx ars cur cur' root [] [] e h h' =
      inl (climb-top t level idx ars cur root h ∙ sym (climb-top t level idx ars cur' root h'))
  climb-binding t level idx ars cur cur' root [] (s ∷ path') e h h' = absurd (omega arith)
  climb-binding t level idx ars cur cur' root (s ∷ path) [] e h h' = absurd (omega arith)
  climb-binding t level idx [] cur cur' root (s ∷ path) (s' ∷ path') e h h' =
      absurd (climb-out t level idx cur root s path h)
  climb-binding t level idx (a ∷ ars) cur cur' root (s ∷ path) (s' ∷ path') e h h' =
      let (pos, cs, placed, up) = climb-inv t level a idx ars cur root s path h in
      let (_, ds, placed', up') = climb-inv t level a idx ars cur' root s' path' h' in
      let lengths : length cs ≡ length ds =
        length-place a 0 (idx % a) cur s cs placed
        ∙ sym (length-place a 0 (idx % a) cur' s' ds placed') in
      let at = place-get a 0 (idx % a) (idx % a) cur s cs placed (omega arith) (mod-lt idx pos) in
      let at' =
        place-get a 0 (idx % a) (idx % a) cur' s' ds placed' (omega arith) (mod-lt idx pos) in
      let seen = climb_messages-placed t level a idx ars cur s cs path placed in
      let seen' = climb_messages-placed t level a idx ars cur' s' ds path' placed' in
      rw (seen, seen')
        elim (climb-binding t (level + 1) (idx / a) ars _ _ root path path' (omega arith) up up') [
          | inl same ↦ elim (node-binding a t (level_tag level) (idx / a) cs ds lengths same) [
            | inl children ↦ inl (cc (at, at', children))
            | inr other ↦ inr (record {
              left = node_message a t (level_tag level) (idx / a) cs;
              right = node_message a t (level_tag level) (idx / a) ds;
              left_in = mem-cons_self;
              right_in = mem-cons_self;
              differ = other;
              agree = same;
            })
          ]
          | inr c ↦ inr (Collision-cons _ _ c)
        ]

  unfoldable pub opening_messages : MerkleChannelCfg → MerkleOpening Digest → List (List ℕ)
  unfolding climb_messages
  opening_messages cfg o = climb_messages cfg.tree_label 0 cfg.layer_arities o.leaf o.index o.path

  -- Two openings of one position, with paths of one length, that `verify_opening` accepts against
  -- one root either carry the same leaf hash, or exhibit two different messages with one digest, of
  -- which the verifier has hashed one on the first path and the other on the second.
  pub verify_opening-binding :
      (cfg : MerkleChannelCfg) (root : Digest) (o o' : MerkleOpening Digest)
      → o.index ≡ o'.index
      → length o.path ≡ length o'.path
      → verify_opening cfg root o ≡ some true
      → verify_opening cfg root o' ≡ some true
      → (o.leaf ≡ o'.leaf) ⊎ Collision (opening_messages cfg o) (opening_messages cfg o')
  unfolding verify_opening opening_messages
  verify_opening-binding cfg root o o' same_index same_length h h' =
      subst
        (λ k.
          (o.leaf ≡ o'.leaf)
          ⊎ Collision (opening_messages cfg o)
              (climb_messages cfg.tree_label 0 cfg.layer_arities o'.leaf k o'.path))
        same_index
        (climb-binding cfg.tree_label 0 o.index cfg.layer_arities o.leaf o'.leaf root o.path o'.path
          same_length h (rw (← same_index) at h'))
