-- ===== src/Fri/Sizes/Positions.antt =====
-- The positions that are queried lie in their layers, and the arity of a layer divides it.
use native.Mathlib.Nat.{mod-lt, pow-suc, pow-le-pow_right}
use stark_stir_service.Common.{
  ℕ, zero, suc, ◌*◌, ◌%◌, ◌≤◌, ◌<◌, ◌≡◌, refl, sym, ap, ◌∙◌, ◌⊎◌, inl, inr, true, false, some,
  arith, ◌==◌, ◌&&◌, leb, ltb, Bool-cases, if◌then◌else◌, is_power_of_two, is_power_of_two-pow,
  dec_lt, text, [], ◌∷◌, ◌^◌,
}
use stark_stir_service.Hashing.{Hash}
use stark_stir_service.Fri.{Platform, double_until, next_power_of_two}
use stark_stir_service.Fri.Transcripts.{tr_hash_fields_tagged-total}
use stark_stir_service.Fri.Sizes.{pick_arity_for_layer, query_position, seed_bytes}

-- What the cascade of tests keeps.
abbrev Divides : ℕ → ℕ → ℕ → Type 0
Divides n requested_m a = (n % a ≡ 0) × ((a ≤ requested_m) ⊎ (a ≤ 2))

pick_step :
    (n requested_m a rest : ℕ)
    → Divides n requested_m rest
    → Divides n requested_m (if leb a requested_m && (n % a == 0) then a else rest)
pick_step n requested_m a rest h = elim (Bool-cases (leb a requested_m)) [
  | inl small ↦ elim (Bool-cases (n % a == 0)) [
    | inl whole ↦ rw (small, whole) (ground arith, inl (ground arith))
    | inr part ↦ rw (small, part) h
  ]
  | inr large ↦ rw large h
]

-- The arity that is picked divides the number of leaves, and is at most the requested one or 2.
pub pick_arity_for_layer-Divides :
    (n requested_m : ℕ) → Divides n requested_m (pick_arity_for_layer n requested_m)
unfolding pick_arity_for_layer
pick_arity_for_layer-Divides n requested_m = pick_step n requested_m 128 _ (
    pick_step n requested_m 64 _ (
      pick_step n requested_m 32 _ (
        pick_step n requested_m 16 _ (
          pick_step n requested_m 8 _ (
            pick_step n requested_m 4 _ (elim (Bool-cases (n % 2 == 0)) [
              | inl even ↦ rw even (ground arith, inr (omega arith))
              | inr odd ↦ rw odd (omega arith, inr (omega arith))
            ]))))))

-- Doubling from a power of two ends at one, within 64 bits.
double_until-pow :
    (fuel j n : ℕ)
    → j < 64
    → n ≤ 2 ^ 63
    → (k : ℕ) × (double_until fuel (2 ^ j) n ≡ 2 ^ k) × (k < 64)
unfolding double_until
double_until-pow zero j n low fits = (j, refl, low)
double_until-pow (suc fuel) j n low fits = elim (Bool-cases (ltb (2 ^ j) n)) [
  | inl more ↦
      let e : 2 ^ j * 2 ≡ 2 ^ suc j = sym (pow-suc 2 j) in
      let below : j < 63 = elim (dec_lt j 63) [
        | yes lt ↦ lt
        | no ge ↦
            let large : 63 ≤ j = omega arith in
            let high : 2 ^ 63 ≤ 2 ^ j = pow-le-pow_right (omega arith) large in
            absurd (ground arith)
      ] in
      let (k, made, bound) = double_until-pow fuel (suc j) n (omega arith) fits in
      (k, rw (more, e) made, bound)
  | inr done ↦ (j, rw done refl, low)
]

module _ {F E : Type 0} (p : Platform F E) where
  module _ ⦃H : Hash⦄ where
    -- In a first layer of 1 to 2^63 positions every query has a position, and it lies in the layer.
    pub query_position-lt :
        (query_seed : F) (n0 q : ℕ)
        → 0 < n0
        → n0 ≤ 2 ^ 63
        → (i : ℕ) × (query_position p query_seed n0 q ≡ some i) × (i < n0)
    unfolding query_position
    query_position-lt query_seed n0 q pos fits =
        let (seed, made) =
          tr_hash_fields_tagged-total p (text "FRI/index")
            (query_seed ∷ p.ground.from_u64 0 ∷ p.ground.from_u64 q ∷ []) in
        let (k, power, bound) = double_until-pow 64 0 n0 (omega arith) fits in
        let valid : is_power_of_two (next_power_of_two n0) ≡ true =
          ap is_power_of_two power ∙ is_power_of_two-pow k bound in
        let nonzero : (n0 == 0) ≡ false = ground arith in
        (
          p.draw (seed_bytes p seed) 0 % next_power_of_two n0 % n0,
          rw (made, valid, nonzero) refl,
          mod-lt _ pos,
        )
