-- ===== src/Tower/Quadratic/Mul.antt =====
-- The product of Karatsuba is the product of the school book, and the ring laws follow.
use stark_stir_service.Common.{◌*◌, ◌≡◌, refl, sym, ap, ap₂, ◌∙◌}
use stark_stir_service.Tower.{Ring, ◌⊕◌, ◌⊖◌, ◌⊗◌, TowerField}
use stark_stir_service.Tower.RingLaws.{
  IsCommRing, IsTowerField, semiring, add-zero, mul-zero, zero-mul, eq_sub, sub_sub,
}
use stark_stir_service.Tower.Quadratic.{
  QuadExt, QuadExtConfig, quad, quad_zero, quad_one, quad_add, quad_sub, quad_neg, quad_mul,
  quad_sq, quad_ring,
}

pub QuadExt-ext : {B : Type 0} {a b : QuadExt B} → a.c0 ≡ b.c0 → a.c1 ≡ b.c1 → a ≡ b
QuadExt-ext p q = λ i. quad (p i) (q i)

-- What a configuration owes: its multiplication is by β, and the degree doubles.
pub record IsQuadExtConfig {F B : Type 0} (t : TowerField F B) (c : QuadExtConfig B) : Type 0 where
  pub doubles : c.total_degree ≡ 2 * t.degree
  pub mul-nonresidue : (x : B) → c.mul_by_nonresidue x ≡ t.ring.mul c.nonresidue x

module _ {B : Type 0} ⦃r : Ring B⦄ (l : IsCommRing r) (w : B) where
  unfoldable pub school_mul : QuadExt B → QuadExt B → QuadExt B
  school_mul a b = quad (a.c0 ⊗ b.c0 ⊕ w ⊗ (a.c1 ⊗ b.c1)) (a.c0 ⊗ b.c1 ⊕ a.c1 ⊗ b.c0)

  school_assoc_at :
      (a0 a1 b0 b1 c0 c1 : B)
      → school_mul (school_mul (quad a0 a1) (quad b0 b1)) (quad c0 c1)
        ≡ school_mul (quad a0 a1) (school_mul (quad b0 b1) (quad c0 c1))
  unfolding school_mul
  school_assoc_at a0 a1 b0 b1 c0 c1 = QuadExt-ext (simp (semiring, l)) (simp (semiring, l))

  school_comm_at :
      (a0 a1 b0 b1 : B)
      → school_mul (quad a0 a1) (quad b0 b1) ≡ school_mul (quad b0 b1) (quad a0 a1)
  unfolding school_mul
  school_comm_at a0 a1 b0 b1 = QuadExt-ext (simp (semiring, l)) (simp (semiring, l))

  plus : QuadExt B → QuadExt B → QuadExt B
  plus a b = quad (a.c0 ⊕ b.c0) (a.c1 ⊕ b.c1)

  school-add_at :
      (a0 a1 b0 b1 c0 c1 : B)
      → school_mul (quad a0 a1) (plus (quad b0 b1) (quad c0 c1))
        ≡ plus (school_mul (quad a0 a1) (quad b0 b1)) (school_mul (quad a0 a1) (quad c0 c1))
  unfolding school_mul plus
  school-add_at a0 a1 b0 b1 c0 c1 = QuadExt-ext (simp (semiring, l)) (simp (semiring, l))

  school-one_at : (a0 a1 : B) → school_mul (quad r.one r.zero) (quad a0 a1) ≡ quad a0 a1
  unfolding school_mul
  school-one_at a0 a1 =
      QuadExt-ext (simp (zero-mul, mul-zero, add-zero, l.one-mul, l))
        (simp (zero-mul, add-zero, l.one-mul, l))

  pub karatsuba : (a0 a1 b0 b1 : B) → (a0 ⊕ a1) ⊗ (b0 ⊕ b1) ⊖ a0 ⊗ b0 ⊖ a1 ⊗ b1 ≡ a0 ⊗ b1 ⊕ a1 ⊗ b0
  karatsuba a0 a1 b0 b1 =
      let total : (a0 ⊗ b1 ⊕ a1 ⊗ b0) ⊕ (a0 ⊗ b0 ⊕ a1 ⊗ b1) ≡ (a0 ⊕ a1) ⊗ (b0 ⊕ b1) =
        simp (semiring, l) in
      sub_sub l ((a0 ⊕ a1) ⊗ (b0 ⊕ b1)) (a0 ⊗ b0) (a1 ⊗ b1)
      ∙ sym (eq_sub l (a0 ⊗ b1 ⊕ a1 ⊗ b0) (a0 ⊗ b0 ⊕ a1 ⊗ b1) _ total)

  square_at :
      (a0 a1 : B)
      → quad (a0 ⊗ a0 ⊕ w ⊗ (a1 ⊗ a1)) (a0 ⊗ a1 ⊕ a0 ⊗ a1) ≡ school_mul (quad a0 a1) (quad a0 a1)
  unfolding school_mul
  square_at a0 a1 = QuadExt-ext refl (simp (semiring, l))

module _ {F B : Type 0} (t : TowerField F B) (c : QuadExtConfig B) (laws : IsTowerField t)
    (config : IsQuadExtConfig t c) where
  abbrev l : IsCommRing t.ring
  l = laws.comm_ring

  pub quad_mul-school_mul :
      (a b : QuadExt B) → quad_mul t c a b ≡ school_mul ⦃r = t.ring⦄ l c.nonresidue a b
  unfolding quad_mul school_mul
  quad_mul-school_mul a b =
      QuadExt-ext
        (ap (t.ring.add (t.ring.mul a.c0 b.c0)) (config.mul-nonresidue (t.ring.mul a.c1 b.c1)))
        (karatsuba ⦃r = t.ring⦄ l c.nonresidue a.c0 a.c1 b.c0 b.c1)

  pub quad_sq-mul : (a : QuadExt B) → quad_sq t c a ≡ quad_mul t c a a
  unfolding quad_sq
  quad_sq-mul a =
      QuadExt-ext
        (ap₂ t.ring.add (laws.sq-mul a.c0)
          (ap c.mul_by_nonresidue (laws.sq-mul a.c1) ∙ config.mul-nonresidue _))
        refl
      ∙ square_at ⦃r = t.ring⦄ l c.nonresidue a.c0 a.c1
      ∙ sym (quad_mul-school_mul a a)

  pub quad_ring-IsCommRing : IsCommRing (quad_ring t c)
  unfolding quad_ring quad_add quad_sub quad_neg quad_zero quad_one plus
  quad_ring-IsCommRing =
      let mul = school_mul ⦃r = t.ring⦄ l c.nonresidue in
      let school = quad_mul-school_mul in
      record {
        add_assoc = λ a b c. QuadExt-ext (l.add_assoc a.c0 b.c0 c.c0) (l.add_assoc a.c1 b.c1 c.c1);
        add_comm = λ a b. QuadExt-ext (l.add_comm a.c0 b.c0) (l.add_comm a.c1 b.c1);
        zero-add = λ a. QuadExt-ext (l.zero-add a.c0) (l.zero-add a.c1);
        mul_assoc = λ a b d.
            school (quad_mul t c a b) d
            ∙ ap (λ x. mul x d) (school a b)
            ∙ school_assoc_at ⦃r = t.ring⦄ l c.nonresidue a.c0 a.c1 b.c0 b.c1 d.c0 d.c1
            ∙ sym (school a (quad_mul t c b d) ∙ ap (mul a) (school b d));
        mul_comm = λ a b.
            school a b
            ∙ school_comm_at ⦃r = t.ring⦄ l c.nonresidue a.c0 a.c1 b.c0 b.c1
            ∙ sym (school b a);
        one-mul =
            λ a. school (quad_one t c) a ∙ school-one_at ⦃r = t.ring⦄ l c.nonresidue a.c0 a.c1;
        mul-add = λ a b d.
            school a (quad_add t c b d)
            ∙ school-add_at ⦃r = t.ring⦄ l c.nonresidue a.c0 a.c1 b.c0 b.c1 d.c0 d.c1
            ∙ sym (ap₂ (quad_add t c) (school a b) (school a d));
        add-neg = λ a. QuadExt-ext (l.add-neg a.c0) (l.add-neg a.c1);
        sub-add-neg = λ a b. QuadExt-ext (l.sub-add-neg a.c0 b.c0) (l.sub-add-neg a.c1 b.c1);
      }
