-- ===== src/Tower/Extensions/Lawful.antt =====
-- The fields over which FRI works keep the laws of the trait.
use stark_stir_service.Common.{◌≡◌, refl, sym, ◌∙◌}
use stark_stir_service.Tower.{Ring, ◌⊗◌, GroundField, ground_tower}
use stark_stir_service.Tower.RingLaws.{
  IsCommRing, IsTowerField, IsGroundField, ground_tower-IsTowerField, add-zero, mul-zero, zero-mul,
  mul-one,
}
use stark_stir_service.Tower.Cubic
use stark_stir_service.Tower.Cubic.{CubeExt, create, mul_impl, alpha, cube_tower, cube_ring}
use stark_stir_service.Tower.Cubic.Mul.{CubeExt-ext}
use stark_stir_service.Tower.Cubic.Codec.{cube_tower-IsTowerField}
use stark_stir_service.Tower.Quadratic.{quad, gen, quad_tower, quad_ring}
use stark_stir_service.Tower.Quadratic.Mul.{
  IsQuadExtConfig, QuadExt-ext, school_mul, quad_mul-school_mul,
}
use stark_stir_service.Tower.Quadratic.Laws.{quad_tower-IsTowerField}
use stark_stir_service.Tower.Extensions.{
  cube_nonresidue, fp3, sextic_config, fp6, quad_config, fp2, quartic_config, fp4, octic_config,
  fp8,
}

module _ {B : Type 0} ⦃r : Ring B⦄ (l : IsCommRing r) (w : B) where
  alpha_turns_at : (x0 x1 x2 : B) → create (w ⊗ x2) x0 x1 ≡ mul_impl w (alpha w) (create x0 x1 x2)
  unfolding mul_impl alpha Cubic.mul_by_nonresidue
  alpha_turns_at x0 x1 x2 =
      CubeExt-ext (simp (zero-mul, add-zero, l.zero-add, l.one-mul, l))
        (simp (zero-mul, mul-zero, add-zero, l.zero-add, l.one-mul, l))
        (simp (zero-mul, add-zero, l.zero-add, l.one-mul, l))

  gen_turns_at : (x0 x1 : B) → quad (w ⊗ x1) x0 ≡ school_mul l w (quad r.zero r.one) (quad x0 x1)
  unfolding school_mul
  gen_turns_at x0 x1 =
      QuadExt-ext (simp (zero-mul, l.zero-add, l.one-mul, l))
        (simp (zero-mul, l.zero-add, l.one-mul, l))

module _ {F : Type 0} (g : GroundField F) (laws : IsGroundField g) where
  ground : IsTowerField (ground_tower g)
  ground = ground_tower-IsTowerField g laws

  fp3-IsTowerField : IsTowerField (fp3 g)
  unfolding fp3 ground_tower
  fp3-IsTowerField = cube_tower-IsTowerField (ground_tower g) ground (cube_nonresidue g) refl

  sextic_config-IsQuadExtConfig : IsQuadExtConfig (fp3 g) (sextic_config g)
  unfolding fp3 sextic_config cube_tower cube_ring ground_tower
  sextic_config-IsQuadExtConfig = record {
    doubles = refl;
    mul-nonresidue =
        λ x. alpha_turns_at ⦃r = g.ring⦄ laws.comm_ring (cube_nonresidue g) x.c0 x.c1 x.c2;
  }

  sextic_is_lawful : IsTowerField (fp6 g)
  unfolding fp6
  sextic_is_lawful =
      quad_tower-IsTowerField (fp3 g) (sextic_config g) fp3-IsTowerField
        sextic_config-IsQuadExtConfig

  -- The square of u is α.
  sextic_gen-square :
      (fp6 g).ring.mul
        (quad (fp3 g).ring.zero (fp3 g).ring.one)
        (quad (fp3 g).ring.zero (fp3 g).ring.one)
      ≡ quad (create g.ring.zero g.ring.one g.ring.zero) (fp3 g).ring.zero
  unfolding fp6 quad_tower quad_ring sextic_config alpha
  sextic_gen-square =
      let zero = (fp3 g).ring.zero in
      let one = (fp3 g).ring.one in
      quad_mul-school_mul (fp3 g) (sextic_config g) fp3-IsTowerField sextic_config-IsQuadExtConfig
        (quad zero one) (quad zero one)
      ∙ sym (
          gen_turns_at ⦃r = (fp3 g).ring⦄ fp3-IsTowerField.comm_ring (sextic_config g).nonresidue
            zero one)
      ∙ QuadExt-ext
          (mul-one ⦃r = (fp3 g).ring⦄ fp3-IsTowerField.comm_ring (sextic_config g).nonresidue) refl

  -- The sextic extension of a lawful ground field keeps the laws of `TowerField`; its configured
  -- product by the nonresidue, which only turns the coefficients round, is the product by
  -- α = (0, 1, 0) of the cubic extension; and its generator u squares to α.
  pub fp6-IsTowerField :
      IsTowerField (fp6 g)
      × ((x : CubeExt F)
          → (sextic_config g).mul_by_nonresidue x
            ≡ (fp3 g).ring.mul (create g.ring.zero g.ring.one g.ring.zero) x)
      × ((fp6 g).ring.mul
            (quad (fp3 g).ring.zero (fp3 g).ring.one)
            (quad (fp3 g).ring.zero (fp3 g).ring.one)
          ≡ quad (create g.ring.zero g.ring.one g.ring.zero) (fp3 g).ring.zero)
  unfolding sextic_config alpha
  fp6-IsTowerField =
      (sextic_is_lawful, sextic_config-IsQuadExtConfig.mul-nonresidue, sextic_gen-square)

  quad_config-IsQuadExtConfig : IsQuadExtConfig (ground_tower g) (quad_config g)
  unfolding quad_config ground_tower
  quad_config-IsQuadExtConfig = record { doubles = refl; mul-nonresidue = λ x. refl }

  fp2-IsTowerField : IsTowerField (fp2 g)
  unfolding fp2
  fp2-IsTowerField =
      quad_tower-IsTowerField (ground_tower g) (quad_config g) ground quad_config-IsQuadExtConfig

  quartic_config-IsQuadExtConfig : IsQuadExtConfig (fp2 g) (quartic_config g)
  unfolding fp2 quartic_config quad_tower quad_ring ground_tower gen quad_config ground school_mul
  quartic_config-IsQuadExtConfig = record {
    doubles = refl;
    mul-nonresidue = λ x.
        QuadExt-ext (laws.comm_ring.mul_comm x.c1 (g.from_u64 7)) refl
        ∙ gen_turns_at ⦃r = g.ring⦄ laws.comm_ring (g.from_u64 7) x.c0 x.c1
        ∙ sym (
            quad_mul-school_mul (ground_tower g) (quad_config g) ground quad_config-IsQuadExtConfig
              (gen (ground_tower g) (quad_config g)) x);
  }

  fp4-IsTowerField : IsTowerField (fp4 g)
  unfolding fp4
  fp4-IsTowerField =
      quad_tower-IsTowerField (fp2 g) (quartic_config g) fp2-IsTowerField
        quartic_config-IsQuadExtConfig

  octic_config-IsQuadExtConfig : IsQuadExtConfig (fp4 g) (octic_config g)
  unfolding fp4 octic_config quad_tower quad_ring gen
  octic_config-IsQuadExtConfig = record {
    doubles = refl;
    mul-nonresidue = λ x.
        QuadExt-ext (quartic_config-IsQuadExtConfig.mul-nonresidue x.c1) refl
        ∙ gen_turns_at ⦃r = (fp2 g).ring⦄ fp2-IsTowerField.comm_ring (quartic_config g).nonresidue
            x.c0 x.c1
        ∙ sym (
            quad_mul-school_mul (fp2 g) (quartic_config g) fp2-IsTowerField
              quartic_config-IsQuadExtConfig (gen (fp2 g) (quartic_config g)) x);
  }

  -- The octic extension, over the quartic over the quadratic extension of a lawful ground field,
  -- keeps the laws of `TowerField`.
  pub fp8-IsTowerField : IsTowerField (fp8 g)
  unfolding fp8
  fp8-IsTowerField =
      quad_tower-IsTowerField (fp4 g) (octic_config g) fp4-IsTowerField octic_config-IsQuadExtConfig
