-- ===== src/Tower/Quadratic/Laws.antt =====
-- The extension keeps the laws of `TowerField`.
use stark_stir_service.Common.{
  ◌*◌, ◌≡◌, refl, sym, ap, ap₂, ◌∙◌, some, [], ltb, length, take, drop, arith, false, ltb-false,
  length-append, take-append, drop-append, append-nil, >>=-eq-some,
}
use stark_stir_service.Tower.{Ring, ◌⊕◌, ◌⊖◌, ◌⊗◌, TowerField}
use stark_stir_service.Tower.RingLaws.{IsCommRing, IsTowerField, semiring, differences, mul-neg}
use stark_stir_service.Tower.Quadratic.{
  QuadExt, QuadExtConfig, quad_norm, quad_one, quad_mul, over_norm, quad_invert, quad_components,
  quad_from_components, quad_tower,
}
use stark_stir_service.Tower.Quadratic.Mul.{
  IsQuadExtConfig, QuadExt-ext, school_mul, quad_mul-school_mul, quad_sq-mul, quad_ring-IsCommRing,
}

module _ {B : Type 0} ⦃r : Ring B⦄ (l : IsCommRing r) (w : B) where
  constant_term :
      (a0 a1 n : B) → a0 ⊗ (a0 ⊗ n) ⊕ w ⊗ (a1 ⊗ r.neg (a1 ⊗ n)) ≡ (a0 ⊗ a0 ⊖ w ⊗ (a1 ⊗ a1)) ⊗ n
  constant_term a0 a1 n =
      ap (λ x. a0 ⊗ (a0 ⊗ n) ⊕ x)
        (ap (λ x. w ⊗ x) (mul-neg l a1 (a1 ⊗ n)) ∙ mul-neg l w (a1 ⊗ (a1 ⊗ n)))
      ∙ sym (l.sub-add-neg (a0 ⊗ (a0 ⊗ n)) (w ⊗ (a1 ⊗ (a1 ⊗ n))))
      ∙ simp (differences, semiring, l)

  linear_term : (a0 a1 n : B) → a0 ⊗ r.neg (a1 ⊗ n) ⊕ a1 ⊗ (a0 ⊗ n) ≡ r.zero
  linear_term a0 a1 n =
      ap (λ x. x ⊕ a1 ⊗ (a0 ⊗ n)) (mul-neg l a0 (a1 ⊗ n))
      ∙ l.add_comm (r.neg (a0 ⊗ (a1 ⊗ n))) (a1 ⊗ (a0 ⊗ n))
      ∙ ap (λ x. x ⊕ r.neg (a0 ⊗ (a1 ⊗ n))) swap
      ∙ l.add-neg (a0 ⊗ (a1 ⊗ n))
    where
      swap : a1 ⊗ (a0 ⊗ n) ≡ a0 ⊗ (a1 ⊗ n)
      swap = simp (semiring, l)

module _ {F B : Type 0} (t : TowerField F B) (c : QuadExtConfig B) (laws : IsTowerField t)
    (config : IsQuadExtConfig t c) where
  abbrev l : IsCommRing t.ring
  l = laws.comm_ring

  norm_value :
      (a : QuadExt B)
      → quad_norm t c a
        ≡ t.ring.sub (t.ring.mul a.c0 a.c0) (t.ring.mul c.nonresidue (t.ring.mul a.c1 a.c1))
  unfolding quad_norm
  norm_value a =
      ap₂ t.ring.sub (laws.sq-mul a.c0)
        (ap c.mul_by_nonresidue (laws.sq-mul a.c1) ∙ config.mul-nonresidue _)

  quad_mul-over_norm :
      (a : QuadExt B) (n : B)
      → t.ring.mul (quad_norm t c a) n ≡ t.ring.one
      → quad_mul t c a (over_norm t c a n) ≡ quad_one t c
  unfolding over_norm quad_one school_mul
  quad_mul-over_norm a n unit =
      quad_mul-school_mul t c laws config a (over_norm t c a n)
      ∙ QuadExt-ext
          (constant_term ⦃r = t.ring⦄ l c.nonresidue a.c0 a.c1 n
            ∙ ap (λ x. t.ring.mul x n) (sym (norm_value a))
            ∙ unit)
          (linear_term ⦃r = t.ring⦄ l c.nonresidue a.c0 a.c1 n)

  -- Over a lawful base an element times what `invert` returns for it is one.
  pub quad_invert-mul :
      (a b : QuadExt B) → quad_invert t c a ≡ some b → quad_mul t c a b ≡ quad_one t c
  unfolding quad_invert
  quad_invert-mul a b found =
      let (n, inverted, rest) =
        >>=-eq-some (t.invert (quad_norm t c a)) (λ m. some (over_norm t c a m)) found in
      let quotient : over_norm t c a n ≡ b = cc in
      ap (quad_mul t c a) (sym quotient)
      ∙ quad_mul-over_norm a n (laws.invert-mul (quad_norm t c a) n inverted)

  length-quad_components : (a : QuadExt B) → length (quad_components t c a) ≡ c.total_degree
  unfolding quad_components
  length-quad_components a = omega (
    arith,
    config.doubles,
    length-append (t.to_fp_components a.c0) (t.to_fp_components a.c1),
    laws.length-components a.c0,
    laws.length-components a.c1,
  )

  second_half :
      (a : QuadExt B)
      → take t.degree (drop t.degree (quad_components t c a)) ≡ t.to_fp_components a.c1
  unfolding quad_components
  second_half a =
      ap (take t.degree) (
        drop-append t.degree (t.to_fp_components a.c0) _ (laws.length-components a.c0)
        ∙ sym (append-nil (t.to_fp_components a.c1)))
      ∙ take-append t.degree (t.to_fp_components a.c1) [] (laws.length-components a.c1)

  first_half : (a : QuadExt B) → take t.degree (quad_components t c a) ≡ t.to_fp_components a.c0
  unfolding quad_components
  first_half a = take-append t.degree (t.to_fp_components a.c0) _ (laws.length-components a.c0)

  from-to_quad_components :
      (a : QuadExt B) → quad_from_components t c (quad_components t c a) ≡ some a
  unfolding quad_from_components
  from-to_quad_components a =
      let enough : ltb (length (quad_components t c a)) (2 * t.degree) ≡ false =
        ltb-false _ _ (omega (arith, config.doubles, length-quad_components a)) in
      rw
        (
          enough,
          first_half a,
          second_half a,
          laws.from-to_components a.c0,
          laws.from-to_components a.c1,
        )
        refl

  -- Over every lawful base, and for a configuration that multiplies by its β and doubles the
  -- degree, the extension keeps the laws of `TowerField`.
  pub quad_tower-IsTowerField : IsTowerField (quad_tower t c)
  unfolding quad_tower
  quad_tower-IsTowerField = record {
    comm_ring = quad_ring-IsCommRing t c laws config;
    invert-mul = quad_invert-mul;
    sq-mul = quad_sq-mul t c laws config;
    length-components = length-quad_components;
    from-to_components = from-to_quad_components;
  }
