-- ===== src/Tower/Extensions.antt =====
-- crates/deep_ali/src/cubic_ext.rs, sextic_ext.rs, octic_ext.rs: the configurations over the ground
-- field g, and the types CubeExt, SexticExt, Fp2, Fp4 and OcticExt as fields of the tower.
pub mod Lawful
use stark_stir_service.Common.{ℕ, ◌*◌}
use stark_stir_service.Tower.{Ring, GroundField, TowerField, ground_tower}
use stark_stir_service.Tower.Cubic
use stark_stir_service.Tower.Cubic.{CubeExt, cube_tower}
use stark_stir_service.Tower.Quadratic.{QuadExt, QuadExtConfig, quad, gen, quad_tower}

module _ {F : Type 0} (g : GroundField F) where
  -- `GoldilocksCubeConfig`: α³ = 7.
  unfoldable pub cube_nonresidue : F
  cube_nonresidue = g.from_u64 7

  unfoldable pub fp3 : TowerField F (CubeExt F)
  unfolding cube_tower cube_nonresidue ground_tower
  fp3 = cube_tower (ground_tower g) cube_nonresidue

  -- `GoldilocksSexticConfig`: u² = α, and a product by α turns the coefficients round.
  unfoldable pub sextic_config : QuadExtConfig (CubeExt F)
  unfolding cube_nonresidue Cubic.alpha
  sextic_config = record {
    total_degree = 6;
    nonresidue = Cubic.alpha ⦃r = g.ring⦄ cube_nonresidue;
    mul_by_nonresidue = λ x. Cubic.create (g.ring.mul cube_nonresidue x.c2) x.c0 x.c1;
  }

  unfoldable pub fp6 : TowerField F (QuadExt (CubeExt F))
  unfolding quad_tower fp3 sextic_config
  fp6 = quad_tower fp3 sextic_config

  -- `GoldilocksQuadConfig`: i² = 7.
  unfoldable pub quad_config : QuadExtConfig F
  quad_config = record {
    total_degree = 2;
    nonresidue = g.from_u64 7;
    mul_by_nonresidue = λ x. g.ring.mul (g.from_u64 7) x;
  }

  unfoldable pub fp2 : TowerField F (QuadExt F)
  unfolding quad_tower quad_config ground_tower
  fp2 = quad_tower (ground_tower g) quad_config

  -- `GoldilocksQuarticConfig`: j² = i.
  unfoldable pub quartic_config : QuadExtConfig (QuadExt F)
  quartic_config = record {
    total_degree = 4;
    nonresidue = gen (ground_tower g) quad_config;
    mul_by_nonresidue = λ x. quad (g.ring.mul x.c1 (g.from_u64 7)) x.c0;
  }

  unfoldable pub fp4 : TowerField F (QuadExt (QuadExt F))
  unfolding quad_tower fp2 quartic_config
  fp4 = quad_tower fp2 quartic_config

  -- `GoldilocksOcticConfig`: k² = j.
  unfoldable pub octic_config : QuadExtConfig (QuadExt (QuadExt F))
  unfolding quartic_config fp2 gen
  octic_config = record {
    total_degree = 8;
    nonresidue = gen fp2 quartic_config;
    mul_by_nonresidue = λ x. quad (quartic_config.mul_by_nonresidue x.c1) x.c0;
  }

  unfoldable pub fp8 : TowerField F (QuadExt (QuadExt (QuadExt F)))
  unfolding quad_tower fp4 octic_config
  fp8 = quad_tower fp4 octic_config
