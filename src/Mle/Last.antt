-- ===== src/Mle/Last.antt =====
-- `fold_last` fixes the first coordinate of the point, the one of the lowest index bit.
use stark_stir_service.Common.{
  ℕ, zero, suc, ◌+◌, ◌-◌, ◌*◌, ◌/◌, ◌^◌, ◌<◌, ◌≡◌, sym, ap, ◌∙◌, false, Option, some, List, [], ◌∷◌,
  ◌++◌, ◌==◌, if◌then◌else◌, length, take, append-nil, take-append, ◌>>=◌, arith,
}
use stark_stir_service.Tower.{Ring}
use stark_stir_service.Tower.RingLaws.{IsCommRing}
use stark_stir_service.Mle.{Mle, create, combine_pairs, eval, fold_last}
use stark_stir_service.Mle.Fold.{pairwise, combine_pairs-pairwise}
use stark_stir_service.Mle.Value.{IsMle, weighted_sum-pairwise, length-IsEven, eval-weighted_sum}

module _ {F : Type 0} ⦃r : Ring F⦄ (l : IsCommRing r) where
  -- `fold_last` in closed form.
  fold_last-pairwise :
      (values : List F) (m : ℕ) (ri : F)
      → length values ≡ 2 * 2 ^ m
      → (fold_last (create values (suc m)) ri ≡ some (create (pairwise ri values) m))
        × (length (pairwise ri values) ≡ 2 ^ m)
  unfolding fold_last
  fold_last-pairwise values m ri whole =
      let k = 2 ^ m in
      let count : (length values + 1) / 2 ≡ k = omega (arith, whole) in
      let (left, folded, sized) =
        combine_pairs-pairwise ri k values [] (length-IsEven l k values whole) in
      let buffer : combine_pairs ri k 0 values ≡ some (pairwise ri values ++ left) =
        ap (combine_pairs ri k 0) (sym (append-nil values)) ∙ folded in
      let finish : List F → Option (Mle F) = λ buf. some (create (take k buf) m) in
      let counted : combine_pairs ri ((length values + 1) / 2) 0 values
            >>= (λ buf. some (create (take ((length values + 1) / 2) buf) (suc m - 1)))
          ≡ some (create (pairwise ri values) m) =
        let pred : suc m - 1 ≡ m = omega arith in
        rw (count, pred)
          (ap (λ o. o >>= finish) buffer
            ∙ ap (λ vs. some (create vs m)) (take-append k (pairwise ri values) left sized)) in
      let test : (suc m == 0) ≡ false = ground arith in (rw (test, if◌then◌else◌) counted, sized)

  fold_last-eval_at :
      (values : List F) (n : ℕ) (ri : F)
      → length values ≡ 2 ^ n
      → 0 < n
      → (folded : Mle F) × (fold_last (create values n) ri ≡ some folded)
        × (folded.n ≡ n - 1)
        × (length folded.values ≡ 2 ^ folded.n)
        × ((rs : List F) → length rs ≡ folded.n → eval folded rs ≡ eval (create values n) (ri ∷ rs))
  unfolding IsMle
  fold_last-eval_at values zero ri whole pos = absurd (omega arith)
  fold_last-eval_at values (suc m) ri whole pos =
      let double : length values ≡ 2 * 2 ^ m = omega (arith, whole) in
      let (folded, sized) = fold_last-pairwise values m ri double in
      (
        create (pairwise ri values) m,
        folded,
        omega arith,
        sized,
        λ rs h.
            eval-weighted_sum l (create (pairwise ri values) m) rs sized h
            ∙ ap some (
                sym
                  (weighted_sum-pairwise l ri rs 0 values (length-IsEven l (2 ^ m) values double)))
            ∙ sym (eval-weighted_sum l (create values (suc m)) (ri ∷ rs) whole (ap suc h)),
      )

  -- On a well-formed polynomial with a variable, `fold_last` returns a well-formed polynomial with
  -- one variable less, and its value at a point is the value of the original at the point with the
  -- challenge put in front.
  pub fold_last-eval :
      (mle : Mle F) (ri : F) (rs : List F)
      → IsMle mle
      → 0 < mle.n
      → length rs ≡ mle.n - 1
      → (folded : Mle F) × (fold_last mle ri ≡ some folded)
        × (folded.n ≡ mle.n - 1)
        × (IsMle folded)
        × (eval folded rs ≡ eval mle (ri ∷ rs))
  unfolding IsMle
  fold_last-eval mle ri rs whole pos sized =
      let (folded, made, fewer, whole', same) = fold_last-eval_at mle.values mle.n ri whole pos in
      (folded, made, fewer, whole', same rs (sized ∙ sym fewer))
