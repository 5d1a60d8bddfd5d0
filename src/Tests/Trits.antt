-- ===== src/Tests/Trits.antt =====
-- The field of three elements as the ground field.
use stark_stir_service.Common.{ℕ, ◌^◌, ◌<◌, ◌≡◌, refl, Option, none, some, arith}
use stark_stir_service.Tower.{Ring, GroundField, TowerField, ground_tower}
use stark_stir_service.Tower.RingLaws.{
  IsCommRing, IsGroundField, IsTowerField, ground_tower-IsTowerField,
}
use stark_stir_service.Fri.Challenge.{numeral, IsFromU64}
use stark_stir_service.Fri.Rounds.Degrees.{IsEmbedding}

pub data Trit : Type 0 where
  nil unit double : Trit

unfoldable pub plus : Trit → Trit → Trit
plus nil b = b
plus unit nil = unit
plus unit unit = double
plus unit double = nil
plus double nil = double
plus double unit = nil
plus double double = unit

unfoldable times : Trit → Trit → Trit
times nil b = nil
times unit b = b
times double nil = nil
times double unit = double
times double double = unit

unfoldable minus : Trit → Trit
minus nil = nil
minus unit = double
minus double = unit

unfoldable pub trits : Ring Trit
unfolding plus times minus
trits = record {
  zero = nil;
  one = unit;
  add = plus;
  sub = λ a b. plus a (minus b);
  mul = times;
  neg = minus;
}

plus_assoc : (a b c : Trit) → plus (plus a b) c ≡ plus a (plus b c)
unfolding plus
plus_assoc nil nil nil = refl
plus_assoc nil nil unit = refl
plus_assoc nil nil double = refl
plus_assoc nil unit nil = refl
plus_assoc nil unit unit = refl
plus_assoc nil unit double = refl
plus_assoc nil double nil = refl
plus_assoc nil double unit = refl
plus_assoc nil double double = refl
plus_assoc unit nil nil = refl
plus_assoc unit nil unit = refl
plus_assoc unit nil double = refl
plus_assoc unit unit nil = refl
plus_assoc unit unit unit = refl
plus_assoc unit unit double = refl
plus_assoc unit double nil = refl
plus_assoc unit double unit = refl
plus_assoc unit double double = refl
plus_assoc double nil nil = refl
plus_assoc double nil unit = refl
plus_assoc double nil double = refl
plus_assoc double unit nil = refl
plus_assoc double unit unit = refl
plus_assoc double unit double = refl
plus_assoc double double nil = refl
plus_assoc double double unit = refl
plus_assoc double double double = refl

plus_comm : (a b : Trit) → plus a b ≡ plus b a
unfolding plus
plus_comm nil nil = refl
plus_comm nil unit = refl
plus_comm nil double = refl
plus_comm unit nil = refl
plus_comm unit unit = refl
plus_comm unit double = refl
plus_comm double nil = refl
plus_comm double unit = refl
plus_comm double double = refl

times_assoc : (a b c : Trit) → times (times a b) c ≡ times a (times b c)
unfolding times
times_assoc nil nil nil = refl
times_assoc nil nil unit = refl
times_assoc nil nil double = refl
times_assoc nil unit nil = refl
times_assoc nil unit unit = refl
times_assoc nil unit double = refl
times_assoc nil double nil = refl
times_assoc nil double unit = refl
times_assoc nil double double = refl
times_assoc unit nil nil = refl
times_assoc unit nil unit = refl
times_assoc unit nil double = refl
times_assoc unit unit nil = refl
times_assoc unit unit unit = refl
times_assoc unit unit double = refl
times_assoc unit double nil = refl
times_assoc unit double unit = refl
times_assoc unit double double = refl
times_assoc double nil nil = refl
times_assoc double nil unit = refl
times_assoc double nil double = refl
times_assoc double unit nil = refl
times_assoc double unit unit = refl
times_assoc double unit double = refl
times_assoc double double nil = refl
times_assoc double double unit = refl
times_assoc double double double = refl

times_comm : (a b : Trit) → times a b ≡ times b a
unfolding times
times_comm nil nil = refl
times_comm nil unit = refl
times_comm nil double = refl
times_comm unit nil = refl
times_comm unit unit = refl
times_comm unit double = refl
times_comm double nil = refl
times_comm double unit = refl
times_comm double double = refl

times-plus : (a b c : Trit) → times a (plus b c) ≡ plus (times a b) (times a c)
unfolding times plus
times-plus nil nil nil = refl
times-plus nil nil unit = refl
times-plus nil nil double = refl
times-plus nil unit nil = refl
times-plus nil unit unit = refl
times-plus nil unit double = refl
times-plus nil double nil = refl
times-plus nil double unit = refl
times-plus nil double double = refl
times-plus unit nil nil = refl
times-plus unit nil unit = refl
times-plus unit nil double = refl
times-plus unit unit nil = refl
times-plus unit unit unit = refl
times-plus unit unit double = refl
times-plus unit double nil = refl
times-plus unit double unit = refl
times-plus unit double double = refl
times-plus double nil nil = refl
times-plus double nil unit = refl
times-plus double nil double = refl
times-plus double unit nil = refl
times-plus double unit unit = refl
times-plus double unit double = refl
times-plus double double nil = refl
times-plus double double unit = refl
times-plus double double double = refl

plus-minus : (a : Trit) → plus a (minus a) ≡ nil
unfolding plus minus
plus-minus nil = refl
plus-minus unit = refl
plus-minus double = refl

pub trits-IsCommRing : IsCommRing trits
unfolding trits plus times
trits-IsCommRing = record {
  add_assoc = plus_assoc;
  add_comm = plus_comm;
  zero-add = λ a. refl;
  mul_assoc = times_assoc;
  mul_comm = times_comm;
  one-mul = λ a. refl;
  mul-add = times-plus;
  add-neg = plus-minus;
  sub-add-neg = λ a b. refl;
}

unfoldable pub trit_inverse : Trit → Option Trit
trit_inverse nil = none
trit_inverse unit = some unit
trit_inverse double = some double

unfoldable pub trit_word : Trit → ℕ
trit_word nil = 0
trit_word unit = 1
trit_word double = 2

abbrev pub trit_field : GroundField Trit
trit_field = record {
  ring = trits;
  inverse = trit_inverse;
  from_u64 = numeral trits;
  into_u64 = trit_word;
}

trit_inverse-times : (a b : Trit) → trit_inverse a ≡ some b → times a b ≡ unit
unfolding trit_inverse times
trit_inverse-times nil b h = cc
trit_inverse-times unit b h = cc
trit_inverse-times double nil h = cc
trit_inverse-times double unit h = cc
trit_inverse-times double double h = refl

numeral-trit_word : (a : Trit) → numeral trits (trit_word a) ≡ a
unfolding numeral trits plus trit_word
numeral-trit_word nil = refl
numeral-trit_word unit = refl
numeral-trit_word double = refl

trit_word-lt : (a : Trit) → trit_word a < 2 ^ 64
unfolding trit_word
trit_word-lt nil = omega arith
trit_word-lt unit = omega arith
trit_word-lt double = omega arith

pub trit_field-IsGroundField : IsGroundField trit_field
unfolding trits
trit_field-IsGroundField = record {
  comm_ring = trits-IsCommRing;
  inverse-mul = trit_inverse-times;
  from-into_u64 = numeral-trit_word;
  into_u64-lt = trit_word-lt;
}

pub trit_field-IsFromU64 : IsFromU64 trit_field
unfolding IsFromU64
trit_field-IsFromU64 = λ n h. refl

abbrev pub trit_tower : TowerField Trit Trit
trit_tower = ground_tower trit_field

pub trit_tower-IsTowerField : IsTowerField trit_tower
trit_tower-IsTowerField = ground_tower-IsTowerField trit_field trit_field-IsGroundField

pub trit_tower-IsEmbedding : IsEmbedding trit_field trit_tower
unfolding ground_tower
trit_tower-IsEmbedding = record {
  from_fp-one = refl;
  from_fp-add = λ a b. refl;
  from_fp-mul = λ a b. refl;
}
