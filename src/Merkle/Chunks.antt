-- ===== src/Merkle/Chunks.antt =====
-- Padding a level to whole groups, the groups as slices, and the parents they hash to.
use native.Mathlib.Nat.{mul-mod_right, div-add-mod, mod-lt}
use stark_stir_service.Common.{
  ℕ, zero, suc, ◌+◌, ◌-◌, ◌*◌, ◌/◌, ◌%◌, ◌≤◌, ◌<◌, ◌≡◌, refl, ap, ◌∙◌, none, some, List, [], ◌∷◌,
  ◌++◌, ◌⊎◌, inl, inr, arith, ==_iff, ◌==◌, Bool-cases, Option-cases, length, get_elem?, get_last?,
  take, drop, replicate, length-append, length-replicate, drop-drop, get_elem?-append, false,
}
use stark_stir_service.Hashing.{Hash}
use stark_stir_service.Merkle.{
  chunks_of, chunks, pad_level, hash_groups, compress_node_standalone, parents, level_tag,
}

add_to_multiple : (a n : ℕ) → 0 < a → (n + (a - n % a)) % a ≡ 0
add_to_multiple a n h =
    let e : n + (a - n % a) ≡ a * (n / a + 1) = omega (arith, div-add-mod n a, mod-lt n h) in
    rw e (mul-mod_right a (n / a + 1))

module _ {ℓ} {A : Type ℓ} where
  get_last?-none : (xs : List A) → get_last? xs ≡ none → xs ≡ []
  get_last?-none [] h = refl
  get_last?-none (x ∷ []) h = cc
  get_last?-none (x ∷ y ∷ ys) h = absurd (cons_ne_nil (get_last?-none (y ∷ ys) h))
    where
      cons_ne_nil : y ∷ ys ≡ [] → ⊥
      cons_ne_nil e = cc

  -- Either nothing was added, and the length is a multiple, or the last node was repeated.
  pad_level-cases :
      (a : ℕ) (xs : List A)
      → 0 < a
      → ((length xs % a ≡ 0) × (pad_level a xs ≡ xs))
        ⊎ ((l : A) × (0 < length xs % a) × (pad_level a xs ≡ xs ++ replicate (a - length xs % a) l))
  unfolding pad_level
  pad_level-cases a xs h = elim (Bool-cases (length xs % a == 0)) [
    | inl e ↦ inl ((==_iff _ _).0 e, rw e)
    | inr e ↦ elim (Option-cases (get_last? xs)) [
      | inl none_e ↦ absurd (empty_divides (get_last?-none xs none_e) e)
      | inr (l, some_e) ↦ inr (l, ground arith, rw (e, some_e) refl)
    ]
  ]
    where
      empty_divides : xs ≡ [] → (length xs % a == 0) ≡ false → ⊥
      empty_divides e f = ground (arith, ap length e)

  pub length-pad_level-mod : (a : ℕ) (xs : List A) → 0 < a → length (pad_level a xs) % a ≡ 0
  length-pad_level-mod a xs h = elim (pad_level-cases a xs h) [
    | inl (e, p) ↦ rw p e
    | inr (l, r, p) ↦
        rw
          (
            p,
            length-append xs (replicate (a - length xs % a) l),
            length-replicate (a - length xs % a) l,
          )
          (add_to_multiple a (length xs) h)
  ]

  pub length-le-pad_level : (a : ℕ) (xs : List A) → 0 < a → length xs ≤ length (pad_level a xs)
  length-le-pad_level a xs h = elim (pad_level-cases a xs h) [
    | inl (e, p) ↦ omega (arith, ap length p)
    | inr (l, r, p) ↦ omega (arith, ap length p, length-append xs (replicate (a - length xs % a) l))
  ]

  pub length-pad_level-lt : (a : ℕ) (xs : List A) → 0 < a → length (pad_level a xs) < length xs + a
  length-pad_level-lt a xs h = elim (pad_level-cases a xs h) [
    | inl (e, p) ↦ omega (arith, ap length p)
    | inr (l, r, p) ↦ omega (
      arith,
      ap length p,
      length-append xs (replicate (a - length xs % a) l),
      length-replicate (a - length xs % a) l,
    )
  ]

  pub get_elem?-pad_level :
      (a : ℕ) (xs : List A) (i : ℕ)
      → 0 < a
      → i < length xs
      → get_elem? (pad_level a xs) i ≡ get_elem? xs i
  get_elem?-pad_level a xs i h lt = elim (pad_level-cases a xs h) [
    | inl (e, p) ↦ rw p
    | inr (l, r, p) ↦ rw p (get_elem?-append xs (replicate (a - length xs % a) l) i lt)
  ]

  pub length-chunks_of : (n a : ℕ) (xs : List A) → length (chunks_of n a xs) ≡ n
  unfolding chunks_of
  length-chunks_of zero a xs = refl
  length-chunks_of (suc n) a xs = ap suc (length-chunks_of n a (drop a xs))

  pub get_elem?-chunks_of :
      (n a g : ℕ) (xs : List A)
      → g < n
      → get_elem? (chunks_of n a xs) g ≡ some (take a (drop (g * a) xs))
  unfolding chunks_of
  get_elem?-chunks_of zero a g xs h = absurd (omega arith)
  get_elem?-chunks_of (suc n) a zero xs h = let e : 0 * a ≡ 0 = omega arith in rw e
  get_elem?-chunks_of (suc n) a (suc g) xs h =
      let e : suc g * a ≡ a + g * a = omega arith in
      rw (e, ← (drop-drop a (g * a) xs)) (get_elem?-chunks_of n a g (drop a xs) (omega arith))

module _ ⦃H : Hash⦄ where
  open H use {Digest}

  pub length-hash_groups :
      (a t l i : ℕ) (gs : List (List Digest)) → length (hash_groups a t l i gs) ≡ length gs
  unfolding hash_groups
  length-hash_groups a t l i [] = refl
  length-hash_groups a t l i (g ∷ gs) = ap suc (length-hash_groups a t l (i + 1) gs)

  pub get_elem?-hash_groups :
      (a t l i g : ℕ) (gs : List (List Digest)) {c : List Digest}
      → get_elem? gs g ≡ some c
      → get_elem? (hash_groups a t l i gs) g ≡ some (compress_node_standalone a t l (i + g) c)
  unfolding hash_groups
  get_elem?-hash_groups a t l i g [] h = cc
  get_elem?-hash_groups a t l i zero (x ∷ gs) h = let e : i + 0 ≡ i = omega arith in rw e (cc)
  get_elem?-hash_groups a t l i (suc g) (x ∷ gs) h =
      let e : i + suc g ≡ i + 1 + g = omega arith in
      rw e (get_elem?-hash_groups a t l (i + 1) g gs h)

  pub length-parents :
      (a t l : ℕ) (xs : List Digest) → length (parents a t l xs) ≡ (length xs + a - 1) / a
  unfolding parents chunks
  length-parents a t l xs =
      length-hash_groups a t (level_tag l) 0 (chunks a xs)
      ∙ length-chunks_of ((length xs + a - 1) / a) a xs

  -- The parent at `g` hashes the `g`-th group.
  pub get_elem?-parents :
      (a t l g : ℕ) (xs : List Digest)
      → g < (length xs + a - 1) / a
      → get_elem? (parents a t l xs) g
        ≡ some (compress_node_standalone a t (level_tag l) g (take a (drop (g * a) xs)))
  unfolding parents chunks
  get_elem?-parents a t l g xs h =
      let e : 0 + g ≡ g = omega arith in
      get_elem?-hash_groups a t (level_tag l) 0 g _
        (get_elem?-chunks_of ((length xs + a - 1) / a) a g xs h)
      ∙ rw e
