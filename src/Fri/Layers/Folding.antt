-- ===== src/Fri/Layers/Folding.antt =====
-- The s values of a layer are the values of the next layer.
use native.Mathlib.Nat.{
  mod-lt, mod-add-div', div-lt_iff_lt-mul, mul-div_right, mod-eq_of_lt, add-mul-mod_self_right,
  mul-le-mul_right,
}
use stark_stir_service.Common.{
  some_injective, ℕ, zero, suc, ◌+◌, ◌*◌, ◌/◌, ◌%◌, ◌≤◌, ◌<◌, ◌≡◌, ◌≢◌, refl, sym, ap, ◌∙◌, subst,
  inl, inr, Bool-cases, false, none, some, List, [], ◌∷◌, ◌==◌, ltb, length, get_elem?, set_elem,
  replicate, dec_lt, ℕ_discrete, checked_div, arith, >>=-eq-some,
}
use stark_stir_service.Tower.{Ring}
use stark_stir_service.Fri.{Platform}
use stark_stir_service.Fri.Layers.{spread_one, spread_from, spread}
use stark_stir_service.Fri.Interpolate.{interpolation_fold_ext, compute_s_layer_from_coeffs}

none-some : {A : Type 0} {a : A} → none ≡ some a → ⊥
none-some h = cc

-- Two columns of one row.
columns_differ : (b stride i k : ℕ) → 0 < stride → i < k → b + k * stride ≢ b + i * stride
columns_differ b stride i k pos h e =
    let apart : suc i * stride ≤ k * stride = mul-le-mul_right stride h in omega (arith, apart)

-- A position of row b has the remainder b.
rows_differ : (b stride k i : ℕ) → b < stride → b ≢ i % stride → b + k * stride ≢ i
rows_differ b stride k i h out e =
    out (sym (ap (λ x. x % stride) (sym e) ∙ add-mul-mod_self_right b k stride ∙ mod-eq_of_lt h))

module _ {A : Type 0} where
  get_elem?-set_elem-same :
      (xs : List A) (i : ℕ) (v : A) → i < length xs → get_elem? (set_elem xs i v) i ≡ some v
  get_elem?-set_elem-same [] i v h = absurd (omega arith)
  get_elem?-set_elem-same (x ∷ xs) zero v h = refl
  get_elem?-set_elem-same (x ∷ xs) (suc i) v h = get_elem?-set_elem-same xs i v (omega arith)

  get_elem?-set_elem-other :
      (xs : List A) (i k : ℕ) (v : A) → i ≢ k → get_elem? (set_elem xs i v) k ≡ get_elem? xs k
  get_elem?-set_elem-other [] i k v h = refl
  get_elem?-set_elem-other (x ∷ xs) zero zero v h = absurd (h refl)
  get_elem?-set_elem-other (x ∷ xs) zero (suc k) v h = refl
  get_elem?-set_elem-other (x ∷ xs) (suc i) zero v h = refl
  get_elem?-set_elem-other (x ∷ xs) (suc i) (suc k) v h =
      get_elem?-set_elem-other xs i k v (λ e. h (ap suc e))

module _ {A : Type 0} (r : Ring A) where
  -- The other entries stay.
  spread_one-other :
      (b stride : ℕ) (v : A) (j n : ℕ) (s t : List A) (k : ℕ)
      → spread_one r b stride v j n s ≡ some t
      → ((i : ℕ) → j ≤ i → i < j + n → b + i * stride ≢ k)
      → get_elem? t k ≡ get_elem? s k
  unfolding spread_one
  spread_one-other b stride v j zero s t k h out = ap (λ l. get_elem? l k) (some_injective (sym h))
  spread_one-other b stride v j (suc n) s t k h out =
      elim (Bool-cases (ltb (b + j * stride) (length s))) [
        | inl room ↦
            spread_one-other b stride v (j + 1) n (set_elem s (b + j * stride) v) t k (rw room at h)
              (λ i low high. out i (omega arith) (omega arith))
            ∙ get_elem?-set_elem-other s (b + j * stride) k v (out j (omega arith) (omega arith))
        | inr full ↦ absurd (none-some (rw full at h))
      ]

  -- The entries at b, b + stride, … are v.
  spread_one-here :
      (b stride : ℕ) (v : A) (j n : ℕ) (s t : List A) (i : ℕ)
      → 0 < stride
      → spread_one r b stride v j n s ≡ some t
      → j ≤ i
      → i < j + n
      → get_elem? t (b + i * stride) ≡ some v
  unfolding spread_one
  spread_one-here b stride v j zero s t i pos h low high = absurd (omega arith)
  spread_one-here b stride v j (suc n) s t i pos h low high =
      elim (Bool-cases (ltb (b + j * stride) (length s))) [
        | inl room ↦ elim (ℕ_discrete j i) [
          | yes same ↦
              let here : b + j * stride ≡ b + i * stride = ap (λ k. b + k * stride) same in
              spread_one-other b stride v (j + 1) n (set_elem s (b + j * stride) v) t
                (b + i * stride) (rw room at h)
                (λ k above below. columns_differ b stride i k pos (omega arith))
              ∙ ap (λ k. get_elem? (set_elem s (b + j * stride) v) k) (sym here)
              ∙ get_elem?-set_elem-same s (b + j * stride) v (ground arith)
          | no differ ↦
              spread_one-here b stride v (j + 1) n (set_elem s (b + j * stride) v) t i pos
                (rw room at h) (omega arith) (omega arith)
        ]
        | inr full ↦ absurd (none-some (rw full at h))
      ]

  -- The rows below b stay.
  spread_from-below :
      (stride m : ℕ) (folded : List A) (b n : ℕ) (s t : List A) (i : ℕ)
      → b + n ≤ stride
      → spread_from r stride m folded b n s ≡ some t
      → i % stride < b
      → get_elem? t i ≡ get_elem? s i
  unfolding spread_from
  spread_from-below stride m folded b zero s t i room h low =
      ap (λ l. get_elem? l i) (some_injective (sym h))
  spread_from-below stride m folded b (suc n) s t i room h low =
      let (v, at, h1) = >>=-eq-some (get_elem? folded b) _ h in
      let (next, made, h2) = >>=-eq-some (spread_one r b stride v 0 m s) _ h1 in
      spread_from-below stride m folded (b + 1) n next t i (omega arith) h2 (omega arith)
      ∙ spread_one-other b stride v 0 m s next i made
          (λ k _ _. rows_differ b stride k i (omega arith) (λ e. absurd (omega arith)))

  -- The rows from b on hold their folded values.
  spread_from-here :
      (stride m : ℕ) (folded : List A) (b n : ℕ) (s t : List A) (i : ℕ)
      → 0 < stride
      → b + n ≤ stride
      → i < m * stride
      → spread_from r stride m folded b n s ≡ some t
      → b ≤ i % stride
      → i % stride < b + n
      → get_elem? t i ≡ get_elem? folded (i % stride)
  unfolding spread_from
  spread_from-here stride m folded b zero s t i pos room below h low high = absurd (omega arith)
  spread_from-here stride m folded b (suc n) s t i pos room below h low high =
      let (v, at, h1) = >>=-eq-some (get_elem? folded b) _ h in
      let (next, made, h2) = >>=-eq-some (spread_one r b stride v 0 m s) _ h1 in
      elim (ℕ_discrete b (i % stride)) [
        | yes same ↦
            let place : i ≡ b + i / stride * stride =
              sym (ap (λ k. k + i / stride * stride) same ∙ mod-add-div' i stride) in
            let column : i / stride < m = (div-lt_iff_lt-mul pos).1 below in
            spread_from-below stride m folded (b + 1) n next t i (omega arith) h2 (omega arith)
            ∙ ap (get_elem? next) place
            ∙ spread_one-here b stride v 0 m s next (i / stride) pos made (omega arith)
                (omega (arith, column))
            ∙ sym at
            ∙ ap (get_elem? folded) same
        | no differ ↦
            spread_from-here stride m folded (b + 1) n next t i pos (omega arith) below h2
              (omega arith) (omega arith)
      ]

module _ {F E : Type 0} (p : Platform F E) where
  -- For a layer of n_next cosets of m positions: the s value at a position, which the prover commits
  -- to, is the value of the next layer at the position's remainder modulo n_next, where the next
  -- round opens it.
  pub compute_s_layer_from_coeffs-next :
      (coeff_tuples : List (List E)) (alpha : E) (n_next m i : ℕ) (s next_f : List E)
      → 0 < m
      → interpolation_fold_ext p coeff_tuples alpha ≡ some next_f
      → compute_s_layer_from_coeffs p coeff_tuples alpha (m * n_next) m ≡ some s
      → i < m * n_next
      → get_elem? s i ≡ get_elem? next_f (i % n_next)
  unfolding compute_s_layer_from_coeffs spread checked_div
  compute_s_layer_from_coeffs-next coeff_tuples alpha n_next m i s next_f pos folded made below =
      let divides : (m == 0) ≡ false = ground arith in
      let some_cosets : 0 < n_next = elim (dec_lt 0 n_next) [
        | yes more ↦ more
        | no none_left ↦
            let none : n_next ≡ 0 = omega arith in
            let empty : i < m * 0 = subst (λ k. i < m * k) none below in absurd (omega arith)
      ] in
      let quotient : checked_div (m * n_next) m ≡ some n_next =
        rw divides (ap some (mul-div_right n_next pos)) in
      let (n', cut, h1) = >>=-eq-some (checked_div (m * n_next) m) _ made in
      let same : n_next ≡ n' = some_injective (sym quotient ∙ cut) in
      let (folded', again, h2) = >>=-eq-some (interpolation_fold_ext p coeff_tuples alpha) _ h1 in
      let same_f : folded' ≡ next_f = some_injective (sym again ∙ folded) in
      let filled : spread p.tower.ring next_f (m * n_next) n_next m ≡ some s =
        subst (λ f. spread p.tower.ring f (m * n_next) n_next m ≡ some s) same_f
          (subst (λ k. spread p.tower.ring folded' (m * n_next) k m ≡ some s) (sym same) h2) in
      spread_from-here p.tower.ring n_next m next_f 0 n_next
        (replicate (m * n_next) p.tower.ring.zero) s i some_cosets (omega arith) below filled
        (omega arith) (omega (arith, mod-lt i some_cosets))
