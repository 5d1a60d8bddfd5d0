-- ===== src/Tower/Cubic.antt =====
-- crates/deep_ali/src/cubic_ext.rs: the extension by a root of X³ - W over any field of the tower.
-- `W` is the configuration's `nonresidue()`; `mul_by_nonresidue` is the default, W times x.
pub mod Mul
pub mod Norm
pub mod Codec
use stark_stir_service.Common.{
  ℕ, ◌+◌, ◌*◌, Bool, true, false, ◌&&◌, Option, none, some, List, [], ◌∷◌, ◌++◌, ltb, if◌then◌else◌,
  length, take, drop, ◌>>=◌,
}
use stark_stir_service.Tower.{Ring, ◌⊕◌, ◌⊖◌, ◌⊗◌, TowerField, pow_u64}

pub record CubeExt (B : Type 0) : Type 0 where
  pub c0 : B
  pub c1 : B
  pub c2 : B

abbrev pub create : {B : Type 0} → B → B → B → CubeExt B
create a b c = record { c0 = a; c1 = b; c2 = c }

module _ {B : Type 0} ⦃r : Ring B⦄ (w : B) where
  unfoldable pub mul_by_nonresidue : B → B
  mul_by_nonresidue x = w ⊗ x

  unfoldable pub zero : CubeExt B
  zero = create r.zero r.zero r.zero

  unfoldable pub one : CubeExt B
  one = create r.one r.zero r.zero

  unfoldable pub from_base : B → CubeExt B
  from_base x = create x r.zero r.zero

  -- The root α of X³ - W.
  unfoldable pub alpha : CubeExt B
  alpha = create r.zero r.one r.zero

  unfoldable pub add : CubeExt B → CubeExt B → CubeExt B
  add a b = create (a.c0 ⊕ b.c0) (a.c1 ⊕ b.c1) (a.c2 ⊕ b.c2)

  unfoldable pub sub : CubeExt B → CubeExt B → CubeExt B
  sub a b = create (a.c0 ⊖ b.c0) (a.c1 ⊖ b.c1) (a.c2 ⊖ b.c2)

  unfoldable pub neg : CubeExt B → CubeExt B
  neg a = create (r.neg a.c0) (r.neg a.c1) (r.neg a.c2)

  unfoldable pub mul_impl : CubeExt B → CubeExt B → CubeExt B
  unfolding mul_by_nonresidue
  mul_impl a b =
      create (a.c0 ⊗ b.c0 ⊕ mul_by_nonresidue (a.c1 ⊗ b.c2 ⊕ a.c2 ⊗ b.c1))
        (a.c0 ⊗ b.c1 ⊕ a.c1 ⊗ b.c0 ⊕ mul_by_nonresidue (a.c2 ⊗ b.c2))
        (a.c0 ⊗ b.c2 ⊕ a.c1 ⊗ b.c1 ⊕ a.c2 ⊗ b.c0)

  unfoldable pub norm : CubeExt B → B
  unfolding mul_by_nonresidue
  norm a =
      let w2 = w ⊗ w in
      let three_w = (w ⊕ w) ⊕ w in
      a.c0 ⊗ a.c0 ⊗ a.c0
      ⊕ mul_by_nonresidue (a.c1 ⊗ a.c1 ⊗ a.c1)
      ⊕ w2 ⊗ (a.c2 ⊗ a.c2 ⊗ a.c2)
      ⊖ three_w ⊗ a.c0 ⊗ a.c1 ⊗ a.c2

  -- The inverse, from the inverse of the norm.
  unfoldable pub scaled_adjugate : CubeExt B → B → CubeExt B
  unfolding mul_by_nonresidue
  scaled_adjugate a n_inv =
      create ((a.c0 ⊗ a.c0 ⊖ mul_by_nonresidue (a.c1 ⊗ a.c2)) ⊗ n_inv)
        ((mul_by_nonresidue (a.c2 ⊗ a.c2) ⊖ a.c0 ⊗ a.c1) ⊗ n_inv)
        ((a.c1 ⊗ a.c1 ⊖ a.c0 ⊗ a.c2) ⊗ n_inv)

  unfoldable pub sq : CubeExt B → CubeExt B
  unfolding mul_by_nonresidue
  sq a =
      let two_a0 = a.c0 ⊕ a.c0 in
      create (a.c0 ⊗ a.c0 ⊕ mul_by_nonresidue (a.c1 ⊗ a.c2 ⊕ a.c1 ⊗ a.c2))
        (two_a0 ⊗ a.c1 ⊕ mul_by_nonresidue (a.c2 ⊗ a.c2)) (two_a0 ⊗ a.c2 ⊕ a.c1 ⊗ a.c1)

  -- The operators as a ring, and `impl TowerField for CubeExt`, whose `DEGREE` is the constant 3.
  unfoldable pub cube_ring : Ring (CubeExt B)
  unfolding add sub neg mul_impl zero one
  cube_ring = record { zero = zero; one = one; add = add; sub = sub; mul = mul_impl; neg = neg }

module _ {F B : Type 0} (t : TowerField F B) (w : B) where
  instance abbrev base : Ring B
  base = t.ring

  unfoldable pub invert : CubeExt B → Option (CubeExt B)
  unfolding norm scaled_adjugate
  invert a = do n_inv ← t.invert (norm w a); some (scaled_adjugate w a n_inv)

  unfoldable pub frobenius : CubeExt B → CubeExt B
  unfolding pow_u64
  frobenius a =
      let omega = pow_u64 t w 6148914689804861440 in
      let omega2 = omega ⊗ omega in
      create (t.frobenius a.c0) (t.frobenius a.c1 ⊗ omega) (t.frobenius a.c2 ⊗ omega2)

  unfoldable pub to_fp_components : CubeExt B → List F
  to_fp_components a =
      t.to_fp_components a.c0 ++ (t.to_fp_components a.c1 ++ t.to_fp_components a.c2)

  unfoldable pub from_fp_components : List F → Option (CubeExt B)
  from_fp_components c =
      let d = t.degree in
      let whole : Option (CubeExt B) = (do
        c0 ← t.from_fp_components (take d c)
        c1 ← t.from_fp_components (take d (drop d c))
        c2 ← t.from_fp_components (take d (drop (2 * d) c))
        some (create c0 c1 c2)) in
      if ltb (length c) (3 * d) then none else whole

  unfoldable pub from_fp : F → CubeExt B
  from_fp x = create (t.from_fp x) t.ring.zero t.ring.zero

  -- `impl Mul<Fp>`.
  unfoldable pub mul_fp : CubeExt B → F → CubeExt B
  mul_fp a x = let s = t.from_fp x in create (a.c0 ⊗ s) (a.c1 ⊗ s) (a.c2 ⊗ s)

  -- `impl Div`; `none` is the panic at a divisor without an inverse.
  unfoldable pub div : CubeExt B → CubeExt B → Option (CubeExt B)
  unfolding invert mul_impl
  div a b = do i ← invert b; some (mul_impl w a i)

  unfoldable pub cube_tower : TowerField F (CubeExt B)
  unfolding cube_ring from_fp invert sq frobenius to_fp_components from_fp_components
  cube_tower = record {
    ring = cube_ring w;
    degree = 3;
    from_fp = from_fp;
    invert = invert;
    sq = sq w;
    frobenius = frobenius;
    to_fp_components = to_fp_components;
    from_fp_components = from_fp_components;
  }
