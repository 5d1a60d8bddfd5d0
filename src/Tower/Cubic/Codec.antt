-- ===== src/Tower/Cubic/Codec.antt =====
-- The base components of an element, and the extension as a field of the tower.
use stark_stir_service.Common.{
  ◌+◌, ◌*◌, ◌≡◌, refl, sym, ap, ◌∙◌, some, [], ◌++◌, ltb, length, take, drop,
}
use stark_stir_service.Common.{
  arith, false, ltb-false, length-append, take-append, drop-append, drop-drop, append-nil,
}
use stark_stir_service.Tower.{TowerField}
use stark_stir_service.Tower.RingLaws.{IsTowerField}
use stark_stir_service.Tower.Cubic.{CubeExt, to_fp_components, from_fp_components, cube_tower}
use stark_stir_service.Tower.Cubic.Mul.{cube_ring-IsCommRing, sq-mul_impl}
use stark_stir_service.Tower.Cubic.Norm.{invert-mul_impl}

module _ {F B : Type 0} (t : TowerField F B) (tower : IsTowerField t) (w : B) where
  open t use {degree}

  length-to_fp_components : (a : CubeExt B) → length (to_fp_components t w a) ≡ 3 * degree
  unfolding to_fp_components
  length-to_fp_components a =
      let x = t.to_fp_components a.c0 in
      let y = t.to_fp_components a.c1 in
      let z = t.to_fp_components a.c2 in
      omega (
        arith,
        length-append x (y ++ z),
        length-append y z,
        tower.length-components a.c0,
        tower.length-components a.c1,
        tower.length-components a.c2,
      )

  -- Reading the three parts of the list gives the three coefficients.
  part0 : (a : CubeExt B) → take degree (to_fp_components t w a) ≡ t.to_fp_components a.c0
  unfolding to_fp_components
  part0 a = take-append degree (t.to_fp_components a.c0) _ (tower.length-components a.c0)

  part1 :
      (a : CubeExt B) → take degree (drop degree (to_fp_components t w a)) ≡ t.to_fp_components a.c1
  unfolding to_fp_components
  part1 a =
      ap (take degree)
        (drop-append degree (t.to_fp_components a.c0) _ (tower.length-components a.c0))
      ∙ take-append degree (t.to_fp_components a.c1) _ (tower.length-components a.c1)

  part2 :
      (a : CubeExt B)
      → take degree (drop (2 * degree) (to_fp_components t w a)) ≡ t.to_fp_components a.c2
  unfolding to_fp_components
  part2 a =
      let x = t.to_fp_components a.c0 in
      let y = t.to_fp_components a.c1 in
      let z = t.to_fp_components a.c2 in
      let twice : 2 * degree ≡ degree + degree = omega arith in
      ap (λ n. take degree (drop n (x ++ (y ++ z)))) twice
      ∙ ap (take degree) (sym (drop-drop degree degree (x ++ (y ++ z))))
      ∙ ap (λ l. take degree (drop degree l))
          (drop-append degree x _ (tower.length-components a.c0))
      ∙ ap (take degree) (drop-append degree y z (tower.length-components a.c1))
      ∙ ap (take degree) (sym (append-nil z))
      ∙ take-append degree z [] (tower.length-components a.c2)

  pub from-to_fp_components :
      (a : CubeExt B) → from_fp_components t w (to_fp_components t w a) ≡ some a
  unfolding from_fp_components
  from-to_fp_components a =
      let enough : ltb (length (to_fp_components t w a)) (3 * degree) ≡ false =
        ltb-false _ _ (omega (arith, length-to_fp_components a)) in
      rw
        (
          enough,
          part0 a,
          part1 a,
          part2 a,
          tower.from-to_components a.c0,
          tower.from-to_components a.c1,
          tower.from-to_components a.c2,
        )
        refl

  -- The extension of a lawful base whose elements have one component keeps the laws of `TowerField`:
  -- a commutative ring, in which `invert` inverts and `sq` squares, and whose elements have as many
  -- components as the degree says, from which they are read back.
  pub cube_tower-IsTowerField : degree ≡ 1 → IsTowerField (cube_tower t w)
  unfolding cube_tower
  cube_tower-IsTowerField single = record {
    comm_ring = cube_ring-IsCommRing ⦃r = t.ring⦄ tower.comm_ring w;
    invert-mul = invert-mul_impl t tower w;
    sq-mul = sq-mul_impl ⦃r = t.ring⦄ tower.comm_ring w;
    length-components = λ a. omega (arith, length-to_fp_components a);
    from-to_components = from-to_fp_components;
  }
