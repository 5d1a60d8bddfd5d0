-- ===== src/Tower/Cubic/Norm.antt =====
-- The inverse through the norm.
use stark_stir_service.Common.{◌≡◌, sym, ap, ◌∙◌, some, >>=-eq-some}
use stark_stir_service.Tower.{Ring, ◌⊗◌, TowerField}
use stark_stir_service.Tower.RingLaws.{IsCommRing, IsTowerField, semiring, differences, sub_self}
use stark_stir_service.Tower.Cubic.{CubeExt, create, one, mul_impl, norm, scaled_adjugate, invert}
use stark_stir_service.Tower.Cubic.Mul.{CubeExt-ext}

module _ {B : Type 0} ⦃r : Ring B⦄ (l : IsCommRing r) (w : B) where
  -- The products with the adjugate, coefficient by coefficient.
  adjugate0 :
      (a0 a1 a2 n : B)
      → (mul_impl w (create a0 a1 a2) (scaled_adjugate w (create a0 a1 a2) n)).c0
        ≡ norm w (create a0 a1 a2) ⊗ n
  unfolding mul_impl scaled_adjugate norm
  adjugate0 a0 a1 a2 n = simp (differences, semiring, l)

  adjugate1 :
      (a0 a1 a2 n : B)
      → (mul_impl w (create a0 a1 a2) (scaled_adjugate w (create a0 a1 a2) n)).c1 ≡ r.zero
  unfolding mul_impl scaled_adjugate
  adjugate1 a0 a1 a2 n = simp (differences, semiring, sub_self, l)

  adjugate2 :
      (a0 a1 a2 n : B)
      → (mul_impl w (create a0 a1 a2) (scaled_adjugate w (create a0 a1 a2) n)).c2 ≡ r.zero
  unfolding mul_impl scaled_adjugate
  adjugate2 a0 a1 a2 n = simp (differences, semiring, sub_self, l)

  pub mul_impl-scaled_adjugate :
      (a : CubeExt B) (n : B) → norm w a ⊗ n ≡ r.one → mul_impl w a (scaled_adjugate w a n) ≡ one w
  unfolding one
  mul_impl-scaled_adjugate a n unit =
      CubeExt-ext (adjugate0 a.c0 a.c1 a.c2 n ∙ unit) (adjugate1 a.c0 a.c1 a.c2 n)
        (adjugate2 a.c0 a.c1 a.c2 n)

-- Over a lawful base and for every nonresidue, an element times what `invert` returns for it is one.
pub invert-mul_impl :
    {F B : Type 0} (t : TowerField F B) (tower : IsTowerField t) (w : B) (a b : CubeExt B)
    → invert t w a ≡ some b
    → mul_impl ⦃r = t.ring⦄ w a b ≡ one ⦃r = t.ring⦄ w
unfolding invert
invert-mul_impl t tower w a b found =
    let (n, inverted, rest) =
      >>=-eq-some (t.invert (norm ⦃r = t.ring⦄ w a))
        (λ m. some (scaled_adjugate ⦃r = t.ring⦄ w a m)) found in
    let adjugate : scaled_adjugate ⦃r = t.ring⦄ w a n ≡ b = cc in
    ap (mul_impl ⦃r = t.ring⦄ w a) (sym adjugate)
    ∙ mul_impl-scaled_adjugate ⦃r = t.ring⦄ tower.comm_ring w a n
        (tower.invert-mul (norm ⦃r = t.ring⦄ w a) n inverted)
