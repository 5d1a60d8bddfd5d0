-- ===== src/Tower/RingLaws.antt =====
-- The laws of a commutative ring, the normal form to which `simp` brings a polynomial in its
-- elements, and what a lawful implementation of `TowerField` owes.
use stark_stir_service.Common.{◌≡◌, refl, sym, ap, ◌∙◌, some, length, ◌<◌, ◌^◌}
use stark_stir_service.Tower.{Ring, ◌⊕◌, ◌⊖◌, ◌⊗◌, GroundField, TowerField, ground_tower}

pub record IsCommRing {A : Type 0} (r : Ring A) : Type 0 where
  pub add_assoc : (a b c : A) → r.add (r.add a b) c ≡ r.add a (r.add b c)
  pub add_comm : (a b : A) → r.add a b ≡ r.add b a
  pub zero-add : (a : A) → r.add r.zero a ≡ a
  pub mul_assoc : (a b c : A) → r.mul (r.mul a b) c ≡ r.mul a (r.mul b c)
  pub mul_comm : (a b : A) → r.mul a b ≡ r.mul b a
  pub one-mul : (a : A) → r.mul r.one a ≡ a
  pub mul-add : (a b c : A) → r.mul a (r.add b c) ≡ r.add (r.mul a b) (r.mul a c)
  pub add-neg : (a : A) → r.add a (r.neg a) ≡ r.zero
  pub sub-add-neg : (a b : A) → r.sub a b ≡ r.add a (r.neg b)

-- The trait's laws: `invert` inverts, `sq` squares, the components determine the element.
pub record IsTowerField {F A : Type 0} (t : TowerField F A) : Type 0 where
  pub comm_ring : IsCommRing t.ring
  pub invert-mul : (a b : A) → t.invert a ≡ some b → t.ring.mul a b ≡ t.ring.one
  pub sq-mul : (a : A) → t.sq a ≡ t.ring.mul a a
  pub length-components : (a : A) → length (t.to_fp_components a) ≡ t.degree
  pub from-to_components : (a : A) → t.from_fp_components (t.to_fp_components a) ≡ some a

-- What arkworks documents of the ground field.
pub record IsGroundField {F : Type 0} (g : GroundField F) : Type 0 where
  pub comm_ring : IsCommRing g.ring
  pub inverse-mul : (a b : F) → g.inverse a ≡ some b → g.ring.mul a b ≡ g.ring.one
  pub from-into_u64 : (a : F) → g.from_u64 (g.into_u64 a) ≡ a
  pub into_u64-lt : (a : F) → g.into_u64 a < 2 ^ 64

module _ {A : Type 0} ⦃r : Ring A⦄ (l : IsCommRing r) where
  open l use {
    add_assoc, add_comm, zero-add, mul_assoc, mul_comm, one-mul, mul-add, add-neg, sub-add-neg,
  }

  pub add-zero : (a : A) → a ⊕ r.zero ≡ a
  add-zero a = add_comm a r.zero ∙ zero-add a

  pub mul-one : (a : A) → a ⊗ r.one ≡ a
  mul-one a = mul_comm a r.one ∙ one-mul a

  pub add-mul : (a b c : A) → (a ⊕ b) ⊗ c ≡ a ⊗ c ⊕ b ⊗ c
  add-mul a b c = simp (mul_comm, mul-add) (refl)

  pub add_left_comm : (a b c : A) → a ⊕ (b ⊕ c) ≡ b ⊕ (a ⊕ c)
  add_left_comm a b c = sym (add_assoc a b c) ∙ ap (λ x. x ⊕ c) (add_comm a b) ∙ add_assoc b a c

  pub mul_left_comm : (a b c : A) → a ⊗ (b ⊗ c) ≡ b ⊗ (a ⊗ c)
  mul_left_comm a b c = sym (mul_assoc a b c) ∙ ap (λ x. x ⊗ c) (mul_comm a b) ∙ mul_assoc b a c

  pub add_right_cancel : (a b c : A) → a ⊕ c ≡ b ⊕ c → a ≡ b
  add_right_cancel a b c e =
      sym (add-zero a)
      ∙ ap (λ x. a ⊕ x) (sym (add-neg c))
      ∙ sym (add_assoc a c (r.neg c))
      ∙ ap (λ x. x ⊕ r.neg c) e
      ∙ add_assoc b c (r.neg c)
      ∙ ap (λ x. b ⊕ x) (add-neg c)
      ∙ add-zero b

  pub mul-zero : (a : A) → a ⊗ r.zero ≡ r.zero
  mul-zero a = add_right_cancel (a ⊗ r.zero) r.zero (a ⊗ r.zero) (
      sym (mul-add a r.zero r.zero)
      ∙ ap (λ x. a ⊗ x) (zero-add r.zero)
      ∙ sym (zero-add (a ⊗ r.zero)))

  pub zero-mul : (a : A) → r.zero ⊗ a ≡ r.zero
  zero-mul a = mul_comm r.zero a ∙ mul-zero a

  -- A difference is the solution of a sum.
  pub sub-add_cancel : (a b : A) → (a ⊖ b) ⊕ b ≡ a
  sub-add_cancel a b =
      ap (λ x. x ⊕ b) (sub-add-neg a b)
      ∙ add_assoc a (r.neg b) b
      ∙ ap (λ x. a ⊕ x) (add_comm (r.neg b) b ∙ add-neg b)
      ∙ add-zero a

  pub eq_sub : (a b c : A) → a ⊕ b ≡ c → a ≡ c ⊖ b
  eq_sub a b c e = add_right_cancel a (c ⊖ b) b (e ∙ sym (sub-add_cancel c b))

  pub sub_self : (a : A) → a ⊖ a ≡ r.zero
  sub_self a = sub-add-neg a a ∙ add-neg a

  -- Differences move outwards.
  pub mul-sub : (a b c : A) → a ⊗ (b ⊖ c) ≡ a ⊗ b ⊖ a ⊗ c
  mul-sub a b c =
      eq_sub (a ⊗ (b ⊖ c)) (a ⊗ c) (a ⊗ b)
        (sym (mul-add a (b ⊖ c) c) ∙ ap (λ x. a ⊗ x) (sub-add_cancel b c))

  pub sub-mul : (a b c : A) → (a ⊖ b) ⊗ c ≡ a ⊗ c ⊖ b ⊗ c
  sub-mul a b c =
      mul_comm (a ⊖ b) c
      ∙ mul-sub c a b
      ∙ ap (λ x. x ⊖ c ⊗ b) (mul_comm c a)
      ∙ ap (λ x. a ⊗ c ⊖ x) (mul_comm c b)

  pub add-sub : (a b c : A) → a ⊕ (b ⊖ c) ≡ (a ⊕ b) ⊖ c
  add-sub a b c =
      eq_sub (a ⊕ (b ⊖ c)) c (a ⊕ b) (add_assoc a (b ⊖ c) c ∙ ap (λ x. a ⊕ x) (sub-add_cancel b c))

  pub sub-add : (a b c : A) → (a ⊖ b) ⊕ c ≡ (a ⊕ c) ⊖ b
  sub-add a b c = add_comm (a ⊖ b) c ∙ add-sub c a b ∙ ap (λ x. x ⊖ b) (add_comm c a)

  pub sub_sub : (a b c : A) → (a ⊖ b) ⊖ c ≡ a ⊖ (b ⊕ c)
  sub_sub a b c = eq_sub ((a ⊖ b) ⊖ c) (b ⊕ c) a (
      ap (λ x. ((a ⊖ b) ⊖ c) ⊕ x) (add_comm b c)
      ∙ sym (add_assoc ((a ⊖ b) ⊖ c) c b)
      ∙ ap (λ x. x ⊕ b) (sub-add_cancel (a ⊖ b) c)
      ∙ sub-add_cancel a b)

  pub mul-neg : (a b : A) → a ⊗ r.neg b ≡ r.neg (a ⊗ b)
  mul-neg a b = add_right_cancel (a ⊗ r.neg b) (r.neg (a ⊗ b)) (a ⊗ b) (
      sym (mul-add a (r.neg b) b)
      ∙ ap (λ x. a ⊗ x) (add_comm (r.neg b) b ∙ add-neg b)
      ∙ mul-zero a
      ∙ sym (add_comm (r.neg (a ⊗ b)) (a ⊗ b) ∙ add-neg (a ⊗ b)))

  -- The fields once more, under names that a rule set can list.
  pub plus_comm : (a b : A) → a ⊕ b ≡ b ⊕ a
  plus_comm = add_comm

  pub plus_assoc : (a b c : A) → (a ⊕ b) ⊕ c ≡ a ⊕ (b ⊕ c)
  plus_assoc = add_assoc

  pub times_comm : (a b : A) → a ⊗ b ≡ b ⊗ a
  times_comm = mul_comm

  pub times_assoc : (a b c : A) → (a ⊗ b) ⊗ c ≡ a ⊗ (b ⊗ c)
  times_assoc = mul_assoc

  pub distrib : (a b c : A) → a ⊗ (b ⊕ c) ≡ a ⊗ b ⊕ a ⊗ c
  distrib = mul-add

-- Brings a sum of products, built with `⊕` and `⊗` alone, to its normal form.
pub ruleset semiring =
    (distrib, add-mul, times_assoc, mul_left_comm, times_comm, plus_assoc, add_left_comm, plus_comm)

-- Moves the differences outwards.
pub ruleset differences = (mul-sub, sub-mul, add-sub, sub-add, sub_sub)

-- The implementation of the trait for the ground field itself.
pub ground_tower-IsTowerField :
    {F : Type 0} (g : GroundField F) → IsGroundField g → IsTowerField (ground_tower g)
unfolding ground_tower
ground_tower-IsTowerField g laws = record {
  comm_ring = laws.comm_ring;
  invert-mul = laws.inverse-mul;
  sq-mul = λ a. refl;
  length-components = λ a. refl;
  from-to_components = λ a. refl;
}
