-- ===== src/Tower/Cubic/Mul.antt =====
-- The extension is a commutative ring, and `sq` squares.
use stark_stir_service.Common.{◌≡◌}
use stark_stir_service.Tower.{Ring}
use stark_stir_service.Tower.RingLaws.{IsCommRing, semiring, add-zero, mul-zero, zero-mul}
use stark_stir_service.Tower.Cubic.{CubeExt, create, one, add, mul_impl, sq, cube_ring}

pub CubeExt-ext : {B : Type 0} {a b : CubeExt B} → a.c0 ≡ b.c0 → a.c1 ≡ b.c1 → a.c2 ≡ b.c2 → a ≡ b
CubeExt-ext p q r = λ i. create (p i) (q i) (r i)

module _ {B : Type 0} ⦃r : Ring B⦄ (l : IsCommRing r) (w : B) where
  -- Over the coefficients, where `simp` can sort.
  mul_assoc_at :
      (a0 a1 a2 b0 b1 b2 c0 c1 c2 : B)
      → mul_impl w (mul_impl w (create a0 a1 a2) (create b0 b1 b2)) (create c0 c1 c2)
        ≡ mul_impl w (create a0 a1 a2) (mul_impl w (create b0 b1 b2) (create c0 c1 c2))
  unfolding mul_impl
  mul_assoc_at a0 a1 a2 b0 b1 b2 c0 c1 c2 =
      CubeExt-ext (simp (semiring, l)) (simp (semiring, l)) (simp (semiring, l))

  mul_comm_at :
      (a0 a1 a2 b0 b1 b2 : B)
      → mul_impl w (create a0 a1 a2) (create b0 b1 b2)
        ≡ mul_impl w (create b0 b1 b2) (create a0 a1 a2)
  unfolding mul_impl
  mul_comm_at a0 a1 a2 b0 b1 b2 =
      CubeExt-ext (simp (semiring, l)) (simp (semiring, l)) (simp (semiring, l))

  mul-add_at :
      (a0 a1 a2 b0 b1 b2 c0 c1 c2 : B)
      → mul_impl w (create a0 a1 a2) (add w (create b0 b1 b2) (create c0 c1 c2))
        ≡ add w
            (mul_impl w (create a0 a1 a2) (create b0 b1 b2))
            (mul_impl w (create a0 a1 a2) (create c0 c1 c2))
  unfolding mul_impl add
  mul-add_at a0 a1 a2 b0 b1 b2 c0 c1 c2 =
      CubeExt-ext (simp (semiring, l)) (simp (semiring, l)) (simp (semiring, l))

  sq_at : (a0 a1 a2 : B) → sq w (create a0 a1 a2) ≡ mul_impl w (create a0 a1 a2) (create a0 a1 a2)
  unfolding sq mul_impl
  sq_at a0 a1 a2 = CubeExt-ext (simp (semiring, l)) (simp (semiring, l)) (simp (semiring, l))

  add_assoc_at : (a b c : CubeExt B) → add w (add w a b) c ≡ add w a (add w b c)
  unfolding add
  add_assoc_at a b c =
      CubeExt-ext (l.add_assoc a.c0 b.c0 c.c0) (l.add_assoc a.c1 b.c1 c.c1)
        (l.add_assoc a.c2 b.c2 c.c2)

  one-mul_at : (a0 a1 a2 : B) → mul_impl w (one w) (create a0 a1 a2) ≡ create a0 a1 a2
  unfolding mul_impl one
  one-mul_at a0 a1 a2 =
      CubeExt-ext (simp (zero-mul, mul-zero, add-zero, l.zero-add, l.one-mul, l))
        (simp (zero-mul, mul-zero, add-zero, l.zero-add, l.one-mul, l))
        (simp (zero-mul, mul-zero, add-zero, l.zero-add, l.one-mul, l))

  -- Over every commutative ring `sq` is the product of the element with itself.
  pub sq-mul_impl : (a : CubeExt B) → sq w a ≡ mul_impl w a a
  sq-mul_impl a = sq_at a.c0 a.c1 a.c2

  -- Over every commutative ring the operators of `CubeExt` make up a commutative ring again.
  pub cube_ring-IsCommRing : IsCommRing (cube_ring w)
  unfolding cube_ring
  cube_ring-IsCommRing = record {
    add_assoc = add_assoc_at;
    add_comm =
        λ a b. CubeExt-ext (l.add_comm a.c0 b.c0) (l.add_comm a.c1 b.c1) (l.add_comm a.c2 b.c2);
    zero-add = λ a. CubeExt-ext (l.zero-add a.c0) (l.zero-add a.c1) (l.zero-add a.c2);
    mul_assoc = λ a b c. mul_assoc_at a.c0 a.c1 a.c2 b.c0 b.c1 b.c2 c.c0 c.c1 c.c2;
    mul_comm = λ a b. mul_comm_at a.c0 a.c1 a.c2 b.c0 b.c1 b.c2;
    one-mul = λ a. one-mul_at a.c0 a.c1 a.c2;
    mul-add = λ a b c. mul-add_at a.c0 a.c1 a.c2 b.c0 b.c1 b.c2 c.c0 c.c1 c.c2;
    add-neg = λ a. CubeExt-ext (l.add-neg a.c0) (l.add-neg a.c1) (l.add-neg a.c2);
    sub-add-neg = λ a b.
        CubeExt-ext (l.sub-add-neg a.c0 b.c0) (l.sub-add-neg a.c1 b.c1) (l.sub-add-neg a.c2 b.c2);
  }
