-- ===== src/Merkle/Levels.antt =====
-- The loop of `finalize` as a recursion on the current level, and when it returns.
use native.Mathlib.Nat.{
  div-lt_iff_lt-mul, le-div_iff_mul-le, div-add-mod, mod-eq_of_lt, mul-add-div, div-eq_of_lt,
  mul_comm,
}
use stark_stir_service.Common.{
  ℕ, ◌+◌, ◌-◌, ◌*◌, ◌/◌, ◌%◌, ◌≤◌, ◌<◌, ◌≡◌, refl, ap, ◌∙◌, Option, none, some, List, [], ◌∷◌, ◌++◌,
  ◌⊎◌, inl, inr, arith, ◌==◌, Bool-cases, length, get_elem?, ltb, if◌then◌else◌, append_assoc,
  get_elem?-length, false, length-append, dec_lt,
}
use mathlib.Core.Option
use stark_stir_service.Hashing.{Hash}
use stark_stir_service.Merkle.{pad_level, parents, finalize_loop, set_elem, root_of}
use stark_stir_service.Merkle.Chunks.{
  length-pad_level-mod, length-pad_level-lt, length-le-pad_level, length-parents,
}

abbrev pub AllPositive : List ℕ → Type 0
AllPositive [] = Unit
AllPositive (a ∷ ars) = (0 < a) × AllPositive ars

-- How many leaves the layers can take.
abbrev pub capacity : List ℕ → ℕ
capacity [] = 1
capacity (a ∷ ars) = a * capacity ars

-- A padded level splits into whole groups.
pub group_count : (a m : ℕ) → 0 < a → m % a ≡ 0 → (m + a - 1) / a ≡ m / a
group_count a m h e =
    let split : m + a - 1 ≡ a * (m / a) + (a - 1) = omega (arith, div-add-mod m a) in
    let low : (a - 1) / a ≡ 0 = div-eq_of_lt (omega arith) in
    rw (split, mul-add-div h (m / a) (a - 1), low) (omega arith)

pub groups-pos : (a m : ℕ) → 0 < a → m % a ≡ 0 → 0 < m → 0 < m / a
groups-pos a m h e pos =
    (le-div_iff_mul-le h).1
      (elim (dec_lt m a) [ yes lt ↦ absurd (omega (arith, mod-eq_of_lt lt)) | no ge ↦ omega arith ])

pub groups-le : (a m n c : ℕ) → 0 < a → m < n + a → n ≤ a * c → m / a ≤ c
groups-le a m n c h lt le =
    let bound : m / a < c + 1 = (div-lt_iff_lt-mul h).1 (omega (arith, mul_comm a c)) in omega arith

module _ {ℓ} {A : Type ℓ} where
  get_elem?-snoc : (pre : List A) (x : A) → get_elem? (pre ++ x ∷ []) (length pre) ≡ some x
  get_elem?-snoc [] x = refl
  get_elem?-snoc (y ∷ pre) x = get_elem?-snoc pre x

  set_elem-snoc : (pre : List A) (x y : A) → set_elem (pre ++ x ∷ []) (length pre) y ≡ pre ++ y ∷ []
  set_elem-snoc [] x y = refl
  set_elem-snoc (z ∷ pre) x y = ap (◌∷◌ z) (set_elem-snoc pre x y)

  map_prefix :
      (pre : List A) (x : A) (r : Option (List A))
      → Option.map (◌++◌ (pre ++ x ∷ [])) r ≡ Option.map (◌++◌ pre) (Option.map (◌∷◌ x) r)
  map_prefix pre x none = refl
  map_prefix pre x (some xs) = ap some (append_assoc pre (x ∷ []) xs)

module _ ⦃H : Hash⦄ where
  open H use {Digest}

  -- All levels over `nodes`, which stand at tree level `level`.
  unfoldable pub build : ℕ → ℕ → List ℕ → List Digest → Option (List (List Digest))
  build t level [] nodes = if ltb 1 (length nodes) then none else some (nodes ∷ [])
  build t level (a ∷ ars) nodes =
      let padded = pad_level a nodes in
      let rest = build t (level + 1) ars (parents a t level padded) in
      if ltb 1 (length nodes)
      then (if a == 0 then none else Option.map (◌∷◌ padded) rest)
      else some (nodes ∷ [])

  -- The loop leaves the levels below alone, and builds the others.
  pub finalize_loop-build :
      (t skip level tree_level : ℕ) (ars : List ℕ) (pre : List (List Digest)) (nodes : List Digest)
      → level ≡ length pre
      → tree_level ≡ skip + level
      → finalize_loop t skip level ars (pre ++ nodes ∷ [])
        ≡ Option.map (◌++◌ pre) (build t tree_level ars nodes)
  unfolding finalize_loop build
  finalize_loop-build t skip level tree_level [] pre nodes e f =
      rw (e, get_elem?-snoc pre nodes, finalize_loop)
        (elim (Bool-cases (ltb 1 (length nodes))) [ inl c ↦ rw c | inr c ↦ rw c ])
  finalize_loop-build t skip level tree_level (a ∷ ars) pre nodes e f =
      let padded = pad_level a nodes in
      let up = parents a t tree_level padded in
      let grow : finalize_loop t skip (level + 1) ars ((pre ++ padded ∷ []) ++ up ∷ [])
          ≡ Option.map (◌++◌ pre) (Option.map (◌∷◌ padded) (build t (tree_level + 1) ars up)) =
        finalize_loop-build t skip (level + 1) (tree_level + 1) ars (pre ++ padded ∷ []) up
          (omega (arith, length-append pre (padded ∷ []))) (omega arith)
        ∙ map_prefix pre padded _ in
      let here : get_elem? (pre ++ nodes ∷ []) level ≡ some nodes =
        rw e (get_elem?-snoc pre nodes) in
      let there : set_elem (pre ++ nodes ∷ []) level padded ≡ pre ++ padded ∷ [] =
        rw e (set_elem-snoc pre nodes padded) in
      rw (here, finalize_loop, there, ← f)
        (elim (Bool-cases (ltb 1 (length nodes))) [
          | inl many ↦ elim (Bool-cases (a == 0)) [
            | inl z ↦ rw (many, z)
            | inr nz ↦ rw (many, nz) grow
          ]
          | inr few ↦ rw few
        ])

  pub root_of-cons :
      (nodes : List Digest) (levels : List (List Digest)) {root : Digest}
      → root_of levels ≡ some root
      → root_of (nodes ∷ levels) ≡ some root
  unfolding root_of
  root_of-cons nodes [] h = cc
  root_of-cons nodes (l ∷ ls) h = h

  pub root_of-tail :
      (nodes l : List Digest) (ls : List (List Digest)) {root : Digest}
      → root_of (nodes ∷ l ∷ ls) ≡ some root
      → root_of (l ∷ ls) ≡ some root
  unfolding root_of
  root_of-tail nodes l ls h = h

  -- With room for all nodes the loop ends, with a root.
  pub build-total :
      (t level : ℕ) (ars : List ℕ) (nodes : List Digest)
      → AllPositive ars
      → 0 < length nodes
      → length nodes ≤ capacity ars
      → (levels : List (List Digest)) × (root : Digest) × (build t level ars nodes ≡ some levels)
        × (root_of levels ≡ some root)
  unfolding build root_of
  build-total t level [] nodes p some_node fits =
      let (root, e) = get_elem?-length nodes 0 some_node in (nodes ∷ [], root, ground arith, rw e)
  build-total t level (a ∷ ars) nodes p some_node fits = elim (Bool-cases (ltb 1 (length nodes))) [
    | inl many ↦
        let padded = pad_level a nodes in
        let whole = length-pad_level-mod a nodes p.0 in
        let count : length (parents a t level padded) ≡ length padded / a =
          length-parents a t level padded ∙ group_count a (length padded) p.0 whole in
        let (rest, root, built, top) =
          build-total t (level + 1) ars (parents a t level padded) p.1
            (rw count (
              groups-pos a (length padded) p.0 whole
                (omega (arith, length-le-pad_level a nodes p.0))))
            (rw count (
              groups-le a (length padded) (length nodes) (capacity ars) p.0
                (length-pad_level-lt a nodes p.0) fits)) in
        let positive : (a == 0) ≡ false = ground (arith, p.0) in
        (padded ∷ rest, root, rw (many, positive, built), root_of-cons padded rest top)
    | inr few ↦
        let (root, e) = get_elem?-length nodes 0 some_node in (nodes ∷ [], root, rw few, rw e)
  ]

  pub build-nil :
      (t level : ℕ) (nodes : List Digest) (levels : List (List Digest))
      → build t level [] nodes ≡ some levels
      → (length nodes ≤ 1) × (levels ≡ nodes ∷ [])
  unfolding build
  build-nil t level nodes levels h = ground arith

  build-ne-nil :
      (t level : ℕ) (ars : List ℕ) (nodes : List Digest) → build t level ars nodes ≡ some [] → ⊥
  unfolding build
  build-ne-nil t level [] nodes h = ground arith
  build-ne-nil t level (a ∷ ars) nodes h = ground arith

  -- Either the current level is the top, or the other levels stand over its parents.
  abbrev pub Over : ℕ → ℕ → ℕ → List ℕ → List Digest → List (List Digest) → Type 0
  Over t level a ars nodes levels =
      ((length nodes ≤ 1) × (levels ≡ nodes ∷ []))
      ⊎ ((next : List Digest) × (rest : List (List Digest)) × ((a == 0) ≡ false)
          × (build t (level + 1) ars (parents a t level (pad_level a nodes)) ≡ some (next ∷ rest))
          × (levels ≡ pad_level a nodes ∷ next ∷ rest))

  build-cons-rest :
      (t level a : ℕ) (ars : List ℕ) (nodes : List Digest) (levels : List (List Digest))
      (r : Option (List (List Digest)))
      → build t (level + 1) ars (parents a t level (pad_level a nodes)) ≡ r
      → (a == 0) ≡ false
      → Option.map (◌∷◌ (pad_level a nodes)) r ≡ some levels
      → Over t level a ars nodes levels
  build-cons-rest t level a ars nodes levels none e nz h = cc
  build-cons-rest t level a ars nodes levels (some []) e nz h = absurd (build-ne-nil _ _ _ _ e)
  build-cons-rest t level a ars nodes levels (some (next ∷ rest)) e nz h =
      inr (next, rest, nz, e, cc)

  pub build-cons :
      (t level a : ℕ) (ars : List ℕ) (nodes : List Digest) (levels : List (List Digest))
      → build t level (a ∷ ars) nodes ≡ some levels
      → Over t level a ars nodes levels
  unfolding build
  build-cons t level a ars nodes levels h = elim (Bool-cases (ltb 1 (length nodes))) [
    | inl many ↦ elim (Bool-cases (a == 0)) [
      | inl z ↦ absurd (ground arith)
      | inr nz ↦ build-cons-rest t level a ars nodes levels _ refl nz (rw (many, nz) at h)
    ]
    | inr few ↦ inl (ground arith, ground arith)
  ]
