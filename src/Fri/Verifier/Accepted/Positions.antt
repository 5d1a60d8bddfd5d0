-- ===== src/Fri/Verifier/Accepted/Positions.antt =====
-- What the check of the positions owes: in each layer the first position modulo the layer's size.
use Prim.Native.Nat.{◌∣◌}
use native.Mathlib.Nat.{div-add-mod', dvd-mul_right, mod-mod, mod-mod_of_dvd}
use stark_stir_service.Common.{
  ℕ, zero, suc, ◌+◌, ◌*◌, ◌/◌, ◌%◌, ◌≡◌, refl, sym, ap, ◌∙◌, subst, Bool, true, false, Option, none,
  some, List, [], ◌∷◌, ◌==◌, ==_iff, if◌then◌else◌, length, get_elem?, checked_div, exact_div,
  arith, >>=-eq-some, some_injective,
}
use stark_stir_service.Hashing.{Hash}
use stark_stir_service.Fri.{Platform, next_power_of_two}
use stark_stir_service.Fri.Sizes.{layer_sizes_loop, index_seed, index_from_seed, query_position}
use stark_stir_service.Fri.Data.{LayerQueryRef}
use stark_stir_service.Fri.Verifier.Classic.{check_positions}
use stark_stir_service.Fri.Verifier.Accepted.{require-true}

quotient-divides : (n m : ℕ) → n % m ≡ 0 → n / m ∣ n
quotient-divides n m whole =
    let e : n / m * m ≡ n = omega (arith, whole, div-add-mod' n m) in
    subst (λ w. n / m ∣ w) e (dvd-mul_right (n / m) m)

-- An exact quotient is the quotient, and divides.
exact_div-checked_div : (n m q : ℕ) → exact_div n m ≡ some q → (checked_div n m ≡ some q) × (q ∣ n)
unfolding exact_div checked_div
exact_div-checked_div n m q h = tested (m == 0) (n % m == 0) refl h
  where
    tested :
        (a b : Bool)
        → (n % m == 0) ≡ b
        → (if a then none else (if b then some (n / m) else none)) ≡ some q
        → ((if a then none else some (n / m)) ≡ some q) × (q ∣ n)
    tested true b e h = cc
    tested false false e h = cc
    tested false true e h =
        (h, subst (λ w. w ∣ n) (some_injective h) (quotient-divides n m ((==_iff _ _).0 e)))

nonzero :
    (b : Bool) (rest : Option Bool) → (if b then none else rest) ≡ some true → rest ≡ some true
nonzero true rest h = cc
nonzero false rest h = h

-- One layer of the check.
check_positions-step :
    (refs : List LayerQueryRef) (sizes : List ℕ) (final_index ell m i n : ℕ)
    (schedule rest : List ℕ)
    → check_positions refs sizes final_index ell (m ∷ schedule) i ≡ some true
    → get_elem? sizes ell ≡ some n
    → layer_sizes_loop n (m ∷ schedule) ≡ some rest
    → (ref : LayerQueryRef) × (next : ℕ) × (later : List ℕ) × (get_elem? refs ell ≡ some ref)
      × (ref.i ≡ i)
      × (rest ≡ next ∷ later)
      × (layer_sizes_loop next schedule ≡ some later)
      × (next ∣ n)
      × (check_positions refs sizes final_index (ell + 1) schedule (i % next) ≡ some true)
unfolding check_positions layer_sizes_loop
check_positions-step refs sizes final_index ell m i n schedule rest h size loop =
    let (ref, ref_at, h1) = >>=-eq-some (get_elem? refs ell) _ h in
    let (same, h2) = require-true (ref.i == i) _ h1 in
    let (n', size', h3) = >>=-eq-some (get_elem? sizes ell) _ h2 in
    let (q, divided, h4) = >>=-eq-some (checked_div n' m) _ h3 in
    let h5 = nonzero (q == 0) _ h4 in
    let (next, exact, loop1) = >>=-eq-some (exact_div n m) _ loop in
    let (later, looped, loop2) = >>=-eq-some (layer_sizes_loop next schedule) _ loop1 in
    let (checked, divides) = exact_div-checked_div n m next exact in
    let sizes_agree : n' ≡ n = some_injective (sym size' ∙ size) in
    let q_next : q ≡ next =
      some_injective (sym divided ∙ ap (λ w. checked_div w m) sizes_agree ∙ checked) in
    (
      ref,
      next,
      later,
      ref_at,
      (==_iff ref.i i).0 same,
      sym (some_injective loop2),
      looped,
      divides,
      subst (λ w. check_positions refs sizes final_index (ell + 1) schedule (i % w) ≡ some true)
          q_next h5,
    )

-- The position in layer ell.
pub record PositionHolds (refs : List LayerQueryRef) (sizes : List ℕ) (i0 ell : ℕ) : Type 0 where
  pub ref : LayerQueryRef
  pub n : ℕ
  pub ref_at : get_elem? refs ell ≡ some ref
  pub size_at : get_elem? sizes ell ≡ some n
  pub position : ref.i ≡ i0 % n

-- The sizes from the next layer on.
shifted_sizes :
    (sizes : List ℕ) (ell n next : ℕ) (rest later : List ℕ)
    → ((j : ℕ) → get_elem? sizes (ell + j) ≡ get_elem? (n ∷ rest) j)
    → rest ≡ next ∷ later
    → (j : ℕ) → get_elem? sizes (ell + 1 + j) ≡ get_elem? (next ∷ later) j
shifted_sizes sizes ell n next rest later at shape j =
    let shift : ell + 1 + j ≡ ell + suc j = omega arith in
    ap (get_elem? sizes) shift ∙ at (suc j) ∙ ap (λ l. get_elem? l j) shape

-- From layer ell on, where the sizes are those of the rest of the schedule.
pub check_positions-PositionHolds :
    (refs : List LayerQueryRef) (sizes : List ℕ) (final_index i0 ell i n : ℕ)
    (schedule rest : List ℕ) (k m : ℕ)
    → check_positions refs sizes final_index ell schedule i ≡ some true
    → ((j : ℕ) → get_elem? sizes (ell + j) ≡ get_elem? (n ∷ rest) j)
    → layer_sizes_loop n schedule ≡ some rest
    → i ≡ i0 % n
    → get_elem? schedule k ≡ some m
    → PositionHolds refs sizes i0 (ell + k)
check_positions-PositionHolds refs sizes final_index i0 ell i n [] rest k m h at loop start here =
    cc
check_positions-PositionHolds refs sizes final_index i0 ell i n (m' ∷ schedule) rest zero m h at
      loop start here =
    let e : ell ≡ ell + 0 = omega arith in
    let size = ap (get_elem? sizes) e ∙ at 0 in
    let (ref, next, later, ref_at, same, shape, looped, divides, h') =
      check_positions-step refs sizes final_index ell m' i n schedule rest h size loop in
    record {
      ref = ref;
      n = n;
      ref_at = ap (get_elem? refs) (sym e) ∙ ref_at;
      size_at = at 0;
      position = same ∙ start;
    }
check_positions-PositionHolds refs sizes final_index i0 ell i n (m' ∷ schedule) rest (suc k) m h at
      loop start here =
    let e : ell ≡ ell + 0 = omega arith in
    let (ref, next, later, ref_at, same, shape, looped, divides, h') =
      check_positions-step refs sizes final_index ell m' i n schedule rest h
        (ap (get_elem? sizes) e ∙ at 0) loop in
    let shift : ell + 1 + k ≡ ell + suc k = omega arith in
    subst (PositionHolds refs sizes i0) shift (
      check_positions-PositionHolds refs sizes final_index i0 (ell + 1) (i % next) next schedule
        later k m h' (shifted_sizes sizes ell n next rest later at shape) looped
        (ap (λ w. w % next) start ∙ mod-mod_of_dvd next i0 divides) here)

-- Behind the last layer.
pub check_positions-final_index :
    (refs : List LayerQueryRef) (sizes : List ℕ) (final_index i0 ell i n : ℕ)
    (schedule rest : List ℕ)
    → check_positions refs sizes final_index ell schedule i ≡ some true
    → ((j : ℕ) → get_elem? sizes (ell + j) ≡ get_elem? (n ∷ rest) j)
    → layer_sizes_loop n schedule ≡ some rest
    → i ≡ i0 % n
    → (last : ℕ) × (get_elem? sizes (ell + length schedule) ≡ some last) × (final_index ≡ i0 % last)
unfolding check_positions
check_positions-final_index refs sizes final_index i0 ell i n [] rest h at loop start =
    (n, at 0, (==_iff final_index i).0 (some_injective h) ∙ start)
check_positions-final_index refs sizes final_index i0 ell i n (m ∷ schedule) rest h at loop start =
    let e : ell ≡ ell + 0 = omega arith in
    let (ref, next, later, ref_at, same, shape, looped, divides, h') =
      check_positions-step refs sizes final_index ell m i n schedule rest h
        (ap (get_elem? sizes) e ∙ at 0) loop in
    let (last, last_at, ends) =
      check_positions-final_index refs sizes final_index i0 (ell + 1) (i % next) next schedule later
        h' (shifted_sizes sizes ell n next rest later at shape) looped
        (ap (λ w. w % next) start ∙ mod-mod_of_dvd next i0 divides) in
    let shift : ell + 1 + length schedule ≡ ell + suc (length schedule) = omega arith in
    (last, ap (get_elem? sizes) (sym shift) ∙ last_at, ends)

module _ {F E : Type 0} (p : Platform F E) ⦃H : Hash⦄ where
  -- A queried position is reduced.
  pub query_position-mod :
      (query_seed : F) (n0 q i0 : ℕ) → query_position p query_seed n0 q ≡ some i0 → i0 ≡ i0 % n0
  unfolding query_position
  query_position-mod query_seed n0 q i0 h =
      let (seed, seeded, h1) = >>=-eq-some (index_seed p query_seed 0 q) _ h in
      let (i, drawn, h2) = >>=-eq-some (index_from_seed p seed (next_power_of_two n0)) _ h1 in
      let e : i % n0 ≡ i0 = reduced (n0 == 0) (i % n0) h2 in
      sym e ∙ sym (mod-mod i n0) ∙ ap (λ w. w % n0) e
    where
      reduced : (b : Bool) (x : ℕ) → (if b then none else some x) ≡ some i0 → x ≡ i0
      reduced true x h = cc
      reduced false x h = some_injective h
