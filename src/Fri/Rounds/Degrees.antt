-- ===== src/Fri/Rounds/Degrees.antt =====
-- Folding by 2 takes the even and the odd part of a polynomial, folding by 3 its three parts.
use stark_stir_service.Common.{◌≡◌, sym, ap, ap₂, ◌∙◌, some, arith}
use stark_stir_service.Tower.{Ring, ◌⊕◌, ◌⊖◌, ◌⊗◌, GroundField, TowerField}
use stark_stir_service.Tower.RingLaws.{
  IsCommRing, IsTowerField, IsGroundField, add-zero, mul-one, add-mul, eq_sub, sub-add_cancel,
}
use stark_stir_service.Fri.{Platform}
use stark_stir_service.Fri.Challenge.{IsFromU64, numeral}
use stark_stir_service.Fri.Rounds.{fri_fold_degree2}

-- `from_fp` keeps one, sums and products.
pub record IsEmbedding {F E : Type 0} (g : GroundField F) (t : TowerField F E) : Type 0 where
  pub from_fp-one : t.from_fp g.ring.one ≡ t.ring.one
  pub from_fp-add : (a b : F) → t.from_fp (g.ring.add a b) ≡ t.ring.add (t.from_fp a) (t.from_fp b)
  pub from_fp-mul : (a b : F) → t.from_fp (g.ring.mul a b) ≡ t.ring.mul (t.from_fp a) (t.from_fp b)

module _ {A : Type 0} ⦃r : Ring A⦄ (l : IsCommRing r) where
  sum_even : (a b : A) → (a ⊕ b) ⊕ (a ⊖ b) ≡ a ⊕ a
  sum_even a b =
      l.add_assoc a b (a ⊖ b) ∙ ap (λ x. a ⊕ x) (l.add_comm b (a ⊖ b) ∙ sub-add_cancel l a b)

  sum_odd : (a b : A) → (a ⊕ b) ⊖ (a ⊖ b) ≡ b ⊕ b
  sum_odd a b = sym (
      eq_sub l (b ⊕ b) (a ⊖ b) (a ⊕ b) (
        l.add_assoc b b (a ⊖ b)
        ∙ ap (λ x. b ⊕ x) (l.add_comm b (a ⊖ b) ∙ sub-add_cancel l a b)
        ∙ l.add_comm b a))

  -- Twice an element, by a half.
  halve : (a h : A) → (r.one ⊕ r.one) ⊗ h ≡ r.one → (a ⊕ a) ⊗ h ≡ a
  halve a h half =
      add-mul l a a h
      ∙ sym (l.mul-add a h h)
      ∙ ap (λ x. a ⊗ x)
          (sym (ap₂ (λ x y. x ⊕ y) (l.one-mul h) (l.one-mul h))
            ∙ sym (add-mul l r.one r.one h)
            ∙ half)
      ∙ mul-one l a

  -- Twice a multiple of x, by a half and the inverse of x.
  halve_shifted :
      (b x h i : A) → (r.one ⊕ r.one) ⊗ h ≡ r.one → x ⊗ i ≡ r.one → (x ⊗ b ⊕ x ⊗ b) ⊗ (h ⊗ i) ≡ b
  halve_shifted b x h i half inverse =
      sym (l.mul_assoc (x ⊗ b ⊕ x ⊗ b) h i)
      ∙ ap (λ y. y ⊗ i) (halve (x ⊗ b) h half ∙ l.mul_comm x b)
      ∙ l.mul_assoc b x i
      ∙ ap (λ y. b ⊗ y) inverse
      ∙ mul-one l b

module _ {F E : Type 0} (p : Platform F E) (field : IsTowerField p.tower)
    (ground_laws : IsGroundField p.ground) (embeds : IsEmbedding p.ground p.tower)
    (words : IsFromU64 p.ground) where
  -- Where 2 and x have inverses, from the values even + x odd and even - x odd the fold makes
  -- even + beta odd.
  pub fri_fold_degree2-even-odd :
      (even odd beta : E) (x two_inv x_inv : F)
      → p.ground.inverse (p.ground.from_u64 2) ≡ some two_inv
      → p.ground.inverse x ≡ some x_inv
      → fri_fold_degree2 p
          (p.tower.ring.add even (p.tower.ring.mul (p.tower.from_fp x) odd))
          (p.tower.ring.sub even (p.tower.ring.mul (p.tower.from_fp x) odd))
          x
          beta
        ≡ some (p.tower.ring.add even (p.tower.ring.mul beta odd))
  unfolding fri_fold_degree2 IsFromU64 numeral
  fri_fold_degree2-even-odd even odd beta x two_inv x_inv half inverse =
      let r = p.tower.ring in
      let l = field.comm_ring in
      let X = p.tower.from_fp x in
      let Xo = r.mul X odd in
      let h = p.tower.from_fp two_inv in
      let i = p.tower.from_fp x_inv in
      let two : p.ground.from_u64 2 ≡ p.ground.ring.add p.ground.ring.one p.ground.ring.one =
        words 2 (omega arith)
        ∙ ap (p.ground.ring.add p.ground.ring.one)
            (add-zero ⦃r = p.ground.ring⦄ ground_laws.comm_ring p.ground.ring.one) in
      let halves : r.mul (r.add r.one r.one) h ≡ r.one =
        ap (λ o. r.mul o h)
          (sym (
            embeds.from_fp-add p.ground.ring.one p.ground.ring.one
            ∙ ap₂ r.add embeds.from_fp-one embeds.from_fp-one))
        ∙ sym (embeds.from_fp-mul (p.ground.ring.add p.ground.ring.one p.ground.ring.one) two_inv)
        ∙ ap (λ o. p.tower.from_fp (p.ground.ring.mul o two_inv)) (sym two)
        ∙ ap p.tower.from_fp (ground_laws.inverse-mul (p.ground.from_u64 2) two_inv half)
        ∙ embeds.from_fp-one in
      let unit : r.mul X i ≡ r.one =
        sym (embeds.from_fp-mul x x_inv)
        ∙ ap p.tower.from_fp (ground_laws.inverse-mul x x_inv inverse)
        ∙ embeds.from_fp-one in
      rw (half, inverse)
        (ap some (
          ap₂ (λ a b. r.add a (r.mul beta b))
            (ap (λ s. r.mul s h) (sum_even ⦃r = r⦄ l even Xo) ∙ halve ⦃r = r⦄ l even h halves)
            (ap₂ r.mul (sum_odd ⦃r = r⦄ l even Xo) (embeds.from_fp-mul two_inv x_inv)
              ∙ halve_shifted ⦃r = r⦄ l odd X h i halves unit)))
