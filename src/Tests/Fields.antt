-- ===== src/Tests/Fields.antt =====
-- The field of two elements as the ground field.
use stark_stir_service.Common.{
  ℕ, ◌>>=◌, ◌≡◌, refl, Bool, true, false, ◌&&◌, not, Option, none, some, List, [], ◌∷◌, ◌==◌, arith,
}
use stark_stir_service.Tower.{
  Ring, GroundField, TowerField, ground_tower, batch_inverse, pow_u64, eval_base_poly,
}
use stark_stir_service.Tower.RingLaws.{IsCommRing, IsTowerField}
use stark_stir_service.Tower.Batch.{AreInverses, product, batch_inverse-AreInverses}
use stark_stir_service.Tower.Power.{power, pow_u64-power}
use stark_stir_service.Tower.Horner.{value, eval_base_poly-value}
use stark_stir_service.Tower.Cubic.{
  CubeExt, create, invert, mul_impl, one, sq, cube_ring, cube_tower, norm, scaled_adjugate,
}
use stark_stir_service.Tower.Cubic.Mul.{sq-mul_impl, cube_ring-IsCommRing}
use stark_stir_service.Tower.Cubic.Norm.{invert-mul_impl}
use stark_stir_service.Tower.Cubic.Codec.{cube_tower-IsTowerField}
use stark_stir_service.Tower.{to_bytes_le, from_bytes_le}
use stark_stir_service.Tower.Extensions.{fp3, fp6, fp8, sextic_config}
use stark_stir_service.Tower.Quadratic.{quad}
use stark_stir_service.Tower.Extensions.Lawful.{fp6-IsTowerField, fp8-IsTowerField}
use stark_stir_service.Tower.Codec.{from_bytes_le-to_bytes_le}
use stark_stir_service.Tests.Trits.{
  Trit, nil, unit, double, trits, trit_field, trit_field-IsGroundField, trit_tower,
  trit_tower-IsTowerField,
}
use stark_stir_service.Mle
use stark_stir_service.Mle.{Mle, eval, fold_last}
use stark_stir_service.Mle.Value.{IsMle, weighted_sum, eval-weighted_sum}
use stark_stir_service.Mle.Last.{fold_last-eval}

xor : Bool → Bool → Bool
xor false b = b
xor true b = not b

instance abbrev bits : Ring Bool
bits = record { zero = false; one = true; add = xor; sub = xor; mul = ◌&&◌; neg = λ a. a }

xor_assoc : (a b c : Bool) → xor (xor a b) c ≡ xor a (xor b c)
unfolding xor
xor_assoc false b c = refl
xor_assoc true false c = refl
xor_assoc true true false = refl
xor_assoc true true true = refl

xor_comm : (a b : Bool) → xor a b ≡ xor b a
unfolding xor
xor_comm false false = refl
xor_comm false true = refl
xor_comm true false = refl
xor_comm true true = refl

and_assoc : (a b c : Bool) → ((a && b) && c) ≡ (a && (b && c))
and_assoc false b c = refl
and_assoc true b c = refl

and_comm : (a b : Bool) → (a && b) ≡ (b && a)
and_comm false false = refl
and_comm false true = refl
and_comm true false = refl
and_comm true true = refl

and-xor : (a b c : Bool) → (a && xor b c) ≡ xor (a && b) (a && c)
unfolding xor
and-xor false b c = refl
and-xor true b c = refl

xor_self : (a : Bool) → xor a a ≡ false
unfolding xor
xor_self false = refl
xor_self true = refl

bits-IsCommRing : IsCommRing bits
unfolding xor
bits-IsCommRing = record {
  add_assoc = xor_assoc;
  add_comm = xor_comm;
  zero-add = λ a. refl;
  mul_assoc = and_assoc;
  mul_comm = and_comm;
  one-mul = λ a. refl;
  mul-add = and-xor;
  add-neg = xor_self;
  sub-add-neg = λ a b. refl;
}

bit_inverse : Bool → Option Bool
bit_inverse false = none
bit_inverse true = some true

bit_word : Bool → ℕ
bit_word false = 0
bit_word true = 1

abbrev bit_field : GroundField Bool
bit_field = record {
  ring = bits;
  inverse = bit_inverse;
  from_u64 = λ n. n == 1;
  into_u64 = bit_word;
}

abbrev tower : TowerField Bool Bool
tower = ground_tower bit_field

bit_inverse-mul : (a b : Bool) → bit_inverse a ≡ some b → (a && b) ≡ true
unfolding bit_inverse
bit_inverse-mul false b e = cc
bit_inverse-mul true b e = cc

tower-IsTowerField : IsTowerField tower
unfolding ground_tower
tower-IsTowerField = record {
  comm_ring = bits-IsCommRing;
  invert-mul = bit_inverse-mul;
  sq-mul = λ a. refl;
  length-components = λ a. refl;
  from-to_components = λ a. refl;
}

inverted : tower.invert (product tower.ring (true ∷ true ∷ true ∷ [])) ≡ some true
unfolding ground_tower product bit_inverse
inverted = refl

batch_inverse-AreInverses_example :
    (ys : List Bool) × (batch_inverse tower (true ∷ true ∷ true ∷ []) ≡ some ys)
    × (AreInverses tower.ring (true ∷ true ∷ true ∷ []) ys)
batch_inverse-AreInverses_example =
    batch_inverse-AreInverses tower tower-IsTowerField (true ∷ true ∷ true ∷ []) true inverted

pow_u64-power_example : pow_u64 tower true 13 ≡ power tower.ring true 13
pow_u64-power_example = pow_u64-power tower tower-IsTowerField true 13 (omega arith)

eval_base_poly-value_example :
    eval_base_poly tower (true ∷ false ∷ true ∷ []) true
    ≡ value tower (true ∷ false ∷ true ∷ []) true
eval_base_poly-value_example =
    eval_base_poly-value tower tower-IsTowerField (true ∷ false ∷ true ∷ []) true

-- The root α of X³ - 1, whose inverse is its square.
abbrev element : CubeExt Bool
element = create false true false

finds : invert tower true element ≡ some (create false false true)
unfolding invert norm scaled_adjugate ground_tower bit_inverse xor
finds = refl

invert-mul_impl_example : mul_impl true element (create false false true) ≡ one true
unfolding ground_tower
invert-mul_impl_example =
    invert-mul_impl tower tower-IsTowerField true element (create false false true) finds

cube_ring-IsCommRing_example : IsCommRing (cube_ring true)
cube_ring-IsCommRing_example = cube_ring-IsCommRing bits-IsCommRing true

sq-mul_impl_example : sq true element ≡ mul_impl true element element
sq-mul_impl_example = sq-mul_impl bits-IsCommRing true element

single : tower.degree ≡ 1
unfolding ground_tower
single = refl

cube_tower-IsTowerField_example : IsTowerField (cube_tower tower true)
cube_tower-IsTowerField_example = cube_tower-IsTowerField tower tower-IsTowerField true single

-- A polynomial in two variables.
abbrev corners : Mle Bool
corners = Mle.create (true ∷ false ∷ true ∷ true ∷ []) 2

whole : IsMle corners
unfolding IsMle
whole = refl

eval-weighted_sum_example :
    eval corners (true ∷ false ∷ []) ≡ some (weighted_sum (true ∷ false ∷ []) 0 corners.values)
eval-weighted_sum_example = eval-weighted_sum bits-IsCommRing corners (true ∷ false ∷ []) whole refl

fold_last-eval_example :
    (folded : Mle Bool) × (fold_last corners true ≡ some folded)
    × (folded.n ≡ 1)
    × (IsMle folded)
    × (eval folded (false ∷ []) ≡ eval corners (true ∷ false ∷ []))
fold_last-eval_example =
    fold_last-eval bits-IsCommRing corners true (false ∷ []) whole (omega arith) refl

fp6-IsTowerField_example :
    IsTowerField (fp6 trit_field)
    × ((x : CubeExt Trit)
        → (sextic_config trit_field).mul_by_nonresidue x
          ≡ (fp3 trit_field).ring.mul (create nil unit nil) x)
    × ((fp6 trit_field).ring.mul
          (quad (fp3 trit_field).ring.zero (fp3 trit_field).ring.one)
          (quad (fp3 trit_field).ring.zero (fp3 trit_field).ring.one)
        ≡ quad (create nil unit nil) (fp3 trit_field).ring.zero)
unfolding trits
fp6-IsTowerField_example = fp6-IsTowerField trit_field trit_field-IsGroundField

fp8-IsTowerField_example : IsTowerField (fp8 trit_field)
fp8-IsTowerField_example = fp8-IsTowerField trit_field trit_field-IsGroundField

from_bytes_le-to_bytes_le_example :
    (to_bytes_le trit_tower trit_field double >>= from_bytes_le trit_tower trit_field) ≡ some double
from_bytes_le-to_bytes_le_example =
    from_bytes_le-to_bytes_le trit_tower trit_field trit_field-IsGroundField double
      trit_tower-IsTowerField
