-- ===== src/Merkle/Siblings.antt =====
-- The verifier puts back the group from which the prover took the siblings.
use native.Mathlib.Nat.{div-add-mod'}
use stark_stir_service.Common.{
  ℕ, zero, suc, ◌+◌, ◌*◌, ◌/◌, ◌%◌, ◌≤◌, ◌<◌, ◌≡◌, refl, some, List, [], ◌∷◌, inl, inr, arith,
  ==_iff, ◌==◌, Bool-cases, length, get_elem?, take, drop, get_elem?-length, true, false,
}
use stark_stir_service.Merkle.{node_at, siblings_from, group_siblings, place}

module _ {ℓ} {A : Type ℓ} where
  drop-get_elem? :
      (xs : List A) (n : ℕ) {x : A} → get_elem? xs n ≡ some x → drop n xs ≡ x ∷ drop (suc n) xs
  drop-get_elem? [] n h = cc
  drop-get_elem? (y ∷ xs) zero h = cc
  drop-get_elem? (y ∷ xs) (suc n) h = drop-get_elem? xs n h

  node_at-get_elem? :
      (xs : List A) (n : ℕ) {x : A} → get_elem? xs n ≡ some x → node_at xs n ≡ some x
  unfolding node_at
  node_at-get_elem? xs n h = rw (h, node_at)

  take-drop-get_elem? :
      (xs : List A) (k n : ℕ) {x : A}
      → get_elem? xs n ≡ some x
      → take (suc k) (drop n xs) ≡ x ∷ take k (drop (n + 1) xs)
  take-drop-get_elem? xs k n h =
      let e : n + 1 ≡ suc n = omega arith in rw (drop-get_elem? xs n h, e)

  place-hit :
      (n i p : ℕ) (x : A) (sibs : List A) {cs : List A}
      → (i == p) ≡ true
      → place n (i + 1) p x sibs ≡ some cs
      → place (suc n) i p x sibs ≡ some (x ∷ cs)
  unfolding place
  place-hit n i p x [] hit h = rw (hit, place, h)
  place-hit n i p x (s ∷ sibs) hit h = rw (hit, place, h)

  place-miss :
      (n i p : ℕ) (x s : A) (sibs : List A) {cs : List A}
      → (i == p) ≡ false
      → place n (i + 1) p x sibs ≡ some cs
      → place (suc n) i p x (s ∷ sibs) ≡ some (s ∷ cs)
  unfolding place
  place-miss n i p x s sibs miss h = rw (miss, place, h)

  -- From position `pos` of the level, which is position `i` of the group, over `n` nodes.
  siblings_from-place :
      (n pos i idx p : ℕ) (nodes : List A) (cur : A)
      → pos + n ≤ length nodes
      → pos + p ≡ idx + i
      → get_elem? nodes idx ≡ some cur
      → (sibs : List A) × (siblings_from n pos idx nodes ≡ some sibs)
        × (place n i p cur sibs ≡ some (take n (drop pos nodes)))
  unfolding siblings_from place
  siblings_from-place zero pos i idx p nodes cur h e at = ([], refl, refl)
  siblings_from-place (suc n) pos i idx p nodes cur h e at =
      let (x, here) = get_elem?-length nodes pos (omega arith) in
      let (sibs, taken, placed) =
        siblings_from-place n (pos + 1) (i + 1) idx p nodes cur (omega arith) (omega arith) at in
      elim (Bool-cases (pos == idx)) [
        | inl hit ↦
            let same : x ≡ cur = cc (here, at, (==_iff pos idx).0 hit) in
            (
              sibs,
              rw (hit, siblings_from) taken,
              rw (take-drop-get_elem? nodes n pos here, same)
                  (place-hit n i p cur sibs (ground (arith, (==_iff pos idx).0 hit)) placed),
            )
        | inr miss ↦ (
          x ∷ sibs,
          rw (miss, siblings_from, node_at-get_elem? nodes pos here, taken),
          rw (take-drop-get_elem? nodes n pos here)
              (place-miss n i p cur x sibs (ground arith) placed),
        )
      ]

  -- The siblings of `idx` exist, and with `idx` they make up its group.
  pub group_siblings-place :
      (a idx : ℕ) (nodes : List A) (cur : A)
      → 0 < a
      → (idx / a) * a + a ≤ length nodes
      → get_elem? nodes idx ≡ some cur
      → (sibs : List A) × (group_siblings a idx nodes ≡ some sibs)
        × (place a 0 (idx % a) cur sibs ≡ some (take a (drop ((idx / a) * a) nodes)))
  unfolding group_siblings
  group_siblings-place a idx nodes cur h fits at =
      siblings_from-place a ((idx / a) * a) 0 idx (idx % a) nodes cur fits
        (omega (arith, div-add-mod' idx a)) at
