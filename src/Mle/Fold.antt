-- ===== src/Mle/Fold.antt =====
-- The loops that fold in place compute the pairwise combinations.
use stark_stir_service.Common.{
  ℕ, zero, suc, ◌+◌, ◌*◌, ◌≡◌, refl, sym, ap, ◌∙◌, some, List, [], ◌∷◌, ◌++◌, length, get_elem?,
  set_elem, get_elem?-behind, set_elem-behind, length-append, append_assoc, arith,
}
use stark_stir_service.Tower.{Ring}
use stark_stir_service.Mle.{combine, combine_pairs}

module _ {F : Type 0} where
  -- One entry is written behind the prefix while two are read behind the gap.
  gap-shift :
      (gap : List F) (a b : F)
      → (g : F) × (gs : List F) × ((rest : List F) → gap ++ a ∷ b ∷ rest ≡ g ∷ gs ++ rest)
        × (length gs ≡ suc (length gap))
  gap-shift [] a b = (a, b ∷ [], λ rest. refl, refl)
  gap-shift (x ∷ gap) a b = (
    x,
    gap ++ a ∷ b ∷ [],
    λ rest. ap (λ l. x ∷ l) (sym (append_assoc gap (a ∷ b ∷ []) rest)),
    omega (arith, length-append gap (a ∷ b ∷ [])),
  )

  -- Every list of even length is a list of pairs.
  pub data IsEven : List F → ℕ → Type 0 where
    no_pairs : IsEven [] 0
    pair : {a b : F} {xs : List F} {k : ℕ} → IsEven xs k → IsEven (a ∷ b ∷ xs) (suc k)

  module _ ⦃r : Ring F⦄ where
    -- The combinations of the adjacent pairs, from a list that is not overwritten.
    unfoldable pub pairwise : F → List F → List F
    pairwise ri [] = []
    pairwise ri (a ∷ []) = []
    pairwise ri (a ∷ b ∷ xs) = combine ri a b ∷ pairwise ri xs

    -- `done` is written, `gap` is read and not yet overwritten, `xs` is still to be read.
    combine_pairs-loop :
        (ri : F) (count write : ℕ) (done gap xs junk : List F)
        → length done ≡ write
        → length gap ≡ write
        → IsEven xs count
        → (left : List F) × (combine_pairs ri count write (done ++ (gap ++ (xs ++ junk)))
            ≡ some (done ++ (pairwise ri xs ++ left)))
    unfolding combine_pairs pairwise
    combine_pairs-loop ri zero write done gap (a ∷ xs) junk hd hg e = elim e [ ]
    combine_pairs-loop ri (suc k) write done gap [] junk hd hg e = elim e [ ]
    combine_pairs-loop ri (suc k) write done gap (a ∷ []) junk hd hg e = elim e [ ]
    combine_pairs-loop ri zero write done gap [] junk hd hg no_pairs = (gap ++ junk, refl)
    combine_pairs-loop ri (suc k) write done gap (a ∷ b ∷ xs) junk hd hg (pair e) =
        let c = combine ri a b in
        let rest = xs ++ junk in
        let buf = done ++ (gap ++ a ∷ b ∷ rest) in
        let (g, gs, shifted, length_gs) = gap-shift gap a b in
        let r0 : get_elem? buf (2 * write) ≡ some a =
          ap (λ l. get_elem? l (2 * write)) (sym (append_assoc done gap (a ∷ b ∷ rest)))
          ∙ get_elem?-behind (done ++ gap) a (b ∷ rest) (2 * write)
              (omega (arith, length-append done gap)) in
        let r1 : get_elem? buf (2 * write + 1) ≡ some b =
          ap (λ l. get_elem? l (2 * write + 1))
            (sym (append_assoc done gap (a ∷ b ∷ rest))
              ∙ sym (append_assoc (done ++ gap) (a ∷ []) (b ∷ rest)))
          ∙ get_elem?-behind ((done ++ gap) ++ a ∷ []) b rest (2 * write + 1)
              (omega (arith, length-append done gap, length-append (done ++ gap) (a ∷ []))) in
        let written : set_elem buf write c ≡ (done ++ c ∷ []) ++ (gs ++ rest) =
          ap (λ l. set_elem (done ++ l) write c) (shifted rest)
          ∙ set_elem-behind done g c (gs ++ rest) write (sym hd)
          ∙ sym (append_assoc done (c ∷ []) (gs ++ rest)) in
        let (left, folded) =
          combine_pairs-loop ri k (suc write) (done ++ c ∷ []) gs xs junk
            (omega (arith, length-append done (c ∷ []))) (omega arith) e in
        (
          left,
          rw (r0, combine_pairs)
              (rw (r1, combine_pairs)
                (ap (combine_pairs ri k (suc write)) written
                  ∙ folded
                  ∙ ap some (append_assoc done (c ∷ []) (pairwise ri xs ++ left)))),
        )

    pairwise-IsEven : (ri : F) {xs : List F} {k : ℕ} → IsEven xs k → length (pairwise ri xs) ≡ k
    unfolding pairwise
    pairwise-IsEven ri no_pairs = refl
    pairwise-IsEven ri (pair e) = ap suc (pairwise-IsEven ri e)

    -- The loop on a whole buffer: behind the combinations lie entries that are not read again.
    pub combine_pairs-pairwise :
        (ri : F) (count : ℕ) (xs junk : List F)
        → IsEven xs count
        → (left : List F) × (combine_pairs ri count 0 (xs ++ junk) ≡ some (pairwise ri xs ++ left))
          × (length (pairwise ri xs) ≡ count)
    combine_pairs-pairwise ri count xs junk e =
        let (left, made) = combine_pairs-loop ri count 0 [] [] xs junk refl refl e in
        (left, made, pairwise-IsEven ri e)
