-- ===== src/Tower/Quadratic.antt =====
-- crates/deep_ali/src/sextic_ext.rs: the extension by a root u of X² - β over any field of the
-- tower.
-- A configuration names β and its own multiplication by β.
pub mod Mul
pub mod Laws
use stark_stir_service.Common.{
  ℕ, ◌+◌, ◌*◌, Option, none, some, List, ◌++◌, ltb, if◌then◌else◌, length, take, drop, ◌>>=◌,
}
use stark_stir_service.Tower.{Ring, ◌⊕◌, ◌⊖◌, ◌⊗◌, TowerField, pow_u64}

pub record QuadExt (B : Type 0) : Type 0 where
  pub c0 : B
  pub c1 : B

-- `QuadExtConfig`, with `TOTAL_DEGREE`.
pub record QuadExtConfig (B : Type 0) : Type 0 where
  pub total_degree : ℕ
  pub nonresidue : B
  pub mul_by_nonresidue : B → B

abbrev pub quad : {B : Type 0} → B → B → QuadExt B
quad a b = record { c0 = a; c1 = b }

abbrev pub half_p_minus_1 : ℕ
half_p_minus_1 = 9223372034707292160

module _ {F B : Type 0} (t : TowerField F B) (c : QuadExtConfig B) where
  instance abbrev base : Ring B
  base = t.ring

  unfoldable pub quad_zero : QuadExt B
  quad_zero = quad t.ring.zero t.ring.zero

  unfoldable pub quad_one : QuadExt B
  quad_one = quad t.ring.one t.ring.zero

  unfoldable pub gen : QuadExt B
  gen = quad t.ring.zero t.ring.one

  unfoldable pub quad_from_base : B → QuadExt B
  quad_from_base x = quad x t.ring.zero

  unfoldable pub conjugate : QuadExt B → QuadExt B
  conjugate a = quad a.c0 (t.ring.neg a.c1)

  unfoldable pub quad_norm : QuadExt B → B
  quad_norm a = t.sq a.c0 ⊖ c.mul_by_nonresidue (t.sq a.c1)

  unfoldable pub quad_add : QuadExt B → QuadExt B → QuadExt B
  quad_add a b = quad (a.c0 ⊕ b.c0) (a.c1 ⊕ b.c1)

  unfoldable pub quad_sub : QuadExt B → QuadExt B → QuadExt B
  quad_sub a b = quad (a.c0 ⊖ b.c0) (a.c1 ⊖ b.c1)

  unfoldable pub quad_neg : QuadExt B → QuadExt B
  quad_neg a = quad (t.ring.neg a.c0) (t.ring.neg a.c1)

  -- Karatsuba: three products in the base.
  unfoldable pub quad_mul : QuadExt B → QuadExt B → QuadExt B
  quad_mul a b =
      let v0 = a.c0 ⊗ b.c0 in
      let v1 = a.c1 ⊗ b.c1 in
      quad (v0 ⊕ c.mul_by_nonresidue v1) ((a.c0 ⊕ a.c1) ⊗ (b.c0 ⊕ b.c1) ⊖ v0 ⊖ v1)

  -- The conjugate over the norm, from the norm's inverse.
  unfoldable pub over_norm : QuadExt B → B → QuadExt B
  over_norm a n_inv = quad (a.c0 ⊗ n_inv) (t.ring.neg (a.c1 ⊗ n_inv))

  unfoldable pub quad_invert : QuadExt B → Option (QuadExt B)
  unfolding quad_norm over_norm
  quad_invert a = do n_inv ← t.invert (quad_norm a); some (over_norm a n_inv)

  unfoldable pub quad_sq : QuadExt B → QuadExt B
  quad_sq a = let ab = a.c0 ⊗ a.c1 in quad (t.sq a.c0 ⊕ c.mul_by_nonresidue (t.sq a.c1)) (ab ⊕ ab)

  unfoldable pub quad_frobenius : QuadExt B → QuadExt B
  unfolding pow_u64
  quad_frobenius a =
      let gamma = pow_u64 t c.nonresidue half_p_minus_1 in
      quad (t.frobenius a.c0) (t.frobenius a.c1 ⊗ gamma)

  unfoldable pub quad_components : QuadExt B → List F
  quad_components a = t.to_fp_components a.c0 ++ t.to_fp_components a.c1

  unfoldable pub quad_from_components : List F → Option (QuadExt B)
  quad_from_components comps =
      let d = t.degree in
      let whole : Option (QuadExt B) = (do
        c0 ← t.from_fp_components (take d comps)
        c1 ← t.from_fp_components (take d (drop d comps))
        some (quad c0 c1)) in
      if ltb (length comps) (2 * d) then none else whole

  unfoldable pub quad_from_fp : F → QuadExt B
  quad_from_fp x = quad (t.from_fp x) t.ring.zero

  -- `impl Mul<Fp>`.
  unfoldable pub quad_mul_fp : QuadExt B → F → QuadExt B
  quad_mul_fp a x = let s = t.from_fp x in quad (a.c0 ⊗ s) (a.c1 ⊗ s)

  -- `none` is the panic at a divisor without an inverse.
  unfoldable pub quad_div : QuadExt B → QuadExt B → Option (QuadExt B)
  unfolding quad_invert quad_mul
  quad_div a b = do i ← quad_invert b; some (quad_mul a i)

  unfoldable pub quad_ring : Ring (QuadExt B)
  unfolding quad_add quad_sub quad_neg quad_mul quad_zero quad_one
  quad_ring = record {
    zero = quad_zero;
    one = quad_one;
    add = quad_add;
    sub = quad_sub;
    mul = quad_mul;
    neg = quad_neg;
  }

  unfoldable pub quad_tower : TowerField F (QuadExt B)
  unfolding quad_ring quad_from_fp quad_invert quad_sq quad_frobenius quad_components
      quad_from_components
  quad_tower = record {
    ring = quad_ring;
    degree = c.total_degree;
    from_fp = quad_from_fp;
    invert = quad_invert;
    sq = quad_sq;
    frobenius = quad_frobenius;
    to_fp_components = quad_components;
    from_fp_components = quad_from_components;
  }
