-- ===== src/Mle/Value.antt =====
-- The value of the multilinear extension, as a sum over the hypercube, and the evaluation by folds.
use stark_stir_service.Common.{
  ℕ, zero, suc, ◌*◌, ◌/◌, ◌%◌, ◌^◌, ◌≡◌, refl, sym, ap, ap₂, ◌∙◌, true, false, some, List, [], ◌∷◌,
  ◌++◌, ◌==◌, if◌then◌else◌, length, get_elem?, append-nil, ◌>>=◌, arith,
}
use stark_stir_service.Tower.{Ring, ◌⊕◌, ◌⊖◌, ◌⊗◌}
use stark_stir_service.Tower.RingLaws.{IsCommRing, semiring, add-zero}
use stark_stir_service.Mle.{Mle, combine, eval_rounds, eval}
use stark_stir_service.Mle.Fold.{IsEven, no_pairs, pair, pairwise, combine_pairs-pairwise}

module _ {F : Type 0} ⦃r : Ring F⦄ where
  -- Variable i takes the bit i of the index: r_i where it is 1 and 1 - r_i where it is 0.
  pub weight : List F → ℕ → F
  weight [] index = r.one
  weight (ri ∷ rs) index =
      let rest = weight rs (index / 2) in (if index % 2 == 1 then ri else r.one ⊖ ri) ⊗ rest

  pub weighted_sum : List F → ℕ → List F → F
  weighted_sum point index [] = r.zero
  weighted_sum point index (v ∷ vs) = weight point index ⊗ v ⊕ weighted_sum point (suc index) vs

  -- A well-formed polynomial has a value at each of the 2^n corners.
  unfoldable pub IsMle : Mle F → Type 0
  IsMle mle = length mle.values ≡ 2 ^ mle.n

  module _ (l : IsCommRing r) where
    even_weight :
        (ri : F) (rs : List F) (j : ℕ) → weight (ri ∷ rs) (2 * j) ≡ (r.one ⊖ ri) ⊗ weight rs j
    unfolding weight
    even_weight ri rs j =
        let half : 2 * j / 2 ≡ j = omega arith in
        let bit : (2 * j % 2 == 1) ≡ false = ground arith in rw (half, bit) refl

    odd_weight : (ri : F) (rs : List F) (j : ℕ) → weight (ri ∷ rs) (suc (2 * j)) ≡ ri ⊗ weight rs j
    unfolding weight
    odd_weight ri rs j =
        let half : suc (2 * j) / 2 ≡ j = omega arith in
        let bit : (suc (2 * j) % 2 == 1) ≡ true = ground arith in rw (half, bit) refl

    pair_sum : (u ri a b w s : F) → (u ⊗ w) ⊗ a ⊕ ((ri ⊗ w) ⊗ b ⊕ s) ≡ w ⊗ (u ⊗ a ⊕ ri ⊗ b) ⊕ s
    pair_sum u ri a b w s = simp (semiring, l)

    -- One fold takes the first variable out of the sum.
    pub weighted_sum-pairwise :
        (ri : F) (rs : List F) (j : ℕ) {k : ℕ} (xs : List F)
        → IsEven xs k
        → weighted_sum (ri ∷ rs) (2 * j) xs ≡ weighted_sum rs j (pairwise ri xs)
    unfolding weighted_sum pairwise combine
    weighted_sum-pairwise ri rs j [] no_pairs = refl
    weighted_sum-pairwise ri rs j (a ∷ []) e = elim e [ ]
    weighted_sum-pairwise ri rs j (a ∷ b ∷ xs) (pair e) =
        let next : suc (suc (2 * j)) ≡ 2 * suc j = omega arith in
        ap₂ (λ p q. p ⊗ a ⊕ (q ⊗ b ⊕ weighted_sum (ri ∷ rs) (suc (suc (2 * j))) xs))
          (even_weight ri rs j) (odd_weight ri rs j)
        ∙ ap
            (λ i.
              ((r.one ⊖ ri) ⊗ weight rs j) ⊗ a
              ⊕ ((ri ⊗ weight rs j) ⊗ b ⊕ weighted_sum (ri ∷ rs) i xs))
            next
        ∙ pair_sum (r.one ⊖ ri) ri a b (weight rs j) (weighted_sum (ri ∷ rs) (2 * suc j) xs)
        ∙ ap (λ s. weight rs j ⊗ ((r.one ⊖ ri) ⊗ a ⊕ ri ⊗ b) ⊕ s)
            (weighted_sum-pairwise ri rs (suc j) xs e)

    pub length-IsEven : (k : ℕ) (xs : List F) → length xs ≡ 2 * k → IsEven xs k
    length-IsEven zero [] h = no_pairs
    length-IsEven zero (a ∷ xs) h = absurd (omega arith)
    length-IsEven (suc k) [] h = absurd (omega arith)
    length-IsEven (suc k) (a ∷ []) h = absurd (omega arith)
    length-IsEven (suc k) (a ∷ b ∷ xs) h = pair (length-IsEven k xs (omega arith))

    eval_rounds-weighted_sum :
        (point xs junk : List F) (size : ℕ)
        → length xs ≡ 2 ^ length point
        → size ≡ 2 ^ length point
        → eval_rounds point size (xs ++ junk) ≡ some (weighted_sum point 0 xs)
    unfolding eval_rounds weighted_sum weight
    eval_rounds-weighted_sum [] [] junk size h s = absurd (omega arith)
    eval_rounds-weighted_sum [] (v ∷ []) junk size h s =
        ap some (sym (add-zero l (r.one ⊗ v) ∙ l.one-mul v))
    eval_rounds-weighted_sum [] (v ∷ w ∷ xs) junk size h s = absurd (omega arith)
    eval_rounds-weighted_sum (ri ∷ rs) xs junk size h s =
        let k = 2 ^ length rs in
        let double : 2 ^ suc (length rs) ≡ 2 * k = omega arith in
        let half : size / 2 ≡ k = omega (arith, s, double) in
        let even : IsEven xs k = length-IsEven k xs (h ∙ double) in
        let (left, folded, size_next) = combine_pairs-pairwise ri k xs junk even in
        rw (half, eval_rounds)
          (ap (λ o. o >>= eval_rounds rs k) folded
            ∙ eval_rounds-weighted_sum rs (pairwise ri xs) left k size_next refl
            ∙ ap some (sym (weighted_sum-pairwise ri rs 0 xs even)))

    at_buffer :
        (mle : Mle F) (point : List F)
        → length mle.values ≡ 2 ^ length point
        → eval_rounds point (length mle.values) mle.values ≡ some (weighted_sum point 0 mle.values)
    at_buffer mle point whole =
        ap (eval_rounds point (length mle.values)) (sym (append-nil mle.values))
        ∙ eval_rounds-weighted_sum point mle.values [] (length mle.values) whole whole

    -- At every point with as many coordinates as the polynomial has variables `eval`
    -- returns, and what it returns is the sum over the corners of the value there times the
    -- product of r_i or 1 - r_i.
    pub eval-weighted_sum :
        (mle : Mle F) (point : List F)
        → IsMle mle
        → length point ≡ mle.n
        → eval mle point ≡ some (weighted_sum point 0 mle.values)
    unfolding eval eval_rounds IsMle
    eval-weighted_sum mle [] whole sized =
        let none_left : 0 ≡ mle.n = sized in
        let value : get_elem? mle.values 0 ≡ some (weighted_sum [] 0 mle.values) =
          at_buffer mle [] (whole ∙ ap (λ n. 2 ^ n) (sym none_left)) in
        let test : (0 == mle.n) ≡ true = ground arith in
        let empty : (mle.n == 0) ≡ true = ground arith in
        rw (test, if◌then◌else◌) (rw (empty, if◌then◌else◌) value)
    eval-weighted_sum mle (ri ∷ rs) whole sized =
        let test : (suc (length rs) == mle.n) ≡ true = ground arith in
        let some_left : (mle.n == 0) ≡ false = ground arith in
        rw (test, if◌then◌else◌)
          (rw (some_left, if◌then◌else◌)
            (at_buffer mle (ri ∷ rs) (whole ∙ ap (λ n. 2 ^ n) (sym sized))))
