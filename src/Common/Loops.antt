-- ===== src/Common/Loops.antt =====
-- The loops of the program over ranges and slices, where a round may panic.
use Prim.Native.Nat.{ℕ, zero, suc, ◌+◌, ◌<◌, ◌/◌, ◌%◌}
use mathlib.Core.Path.{◌≡◌, refl, sym, ap, ◌∙◌}
use mathlib.Core.List.{List, [], ◌∷◌}
use mathlib.Core.Option.{Option, none, some}
use native.Mathlib.Omega.{arith}
use stark_stir_service.Common.Lists.{length, get_elem?}
use stark_stir_service.Common.Monads.{◌>>=◌, >>=-eq-some}
use stark_stir_service.Common.Tests.{◌==◌, if◌then◌else◌}

module _ {A : Type 0} where
  -- `(i..i + n).map(f).collect()`.
  unfoldable pub collect : (ℕ → Option A) → ℕ → ℕ → Option (List A)
  collect f i zero = some []
  collect f i (suc n) = do x ← f i; xs ← collect f (i + 1) n; some (x ∷ xs)

  collect-suc :
      (f : ℕ → Option A) (i n : ℕ) (xs : List A)
      → collect f i (suc n) ≡ some xs
      → (y : A) × (ys : List A) × (f i ≡ some y) × (collect f (i + 1) n ≡ some ys) × (y ∷ ys ≡ xs)
  unfolding collect
  collect-suc f i n xs h =
      let (y, first, h1) = >>=-eq-some (f i) _ h in
      let (ys, rest, h2) = >>=-eq-some (collect f (i + 1) n) _ h1 in
      let e : some (y ∷ ys) ≡ some xs = h2 in (y, ys, first, rest, cc (e))

  pub length-collect :
      (f : ℕ → Option A) (i n : ℕ) (xs : List A) → collect f i n ≡ some xs → length xs ≡ n
  unfolding collect
  length-collect f i zero [] h = refl
  length-collect f i zero (x ∷ xs) h = cc
  length-collect f i (suc n) xs h =
      let (y, ys, first, rest, same) = collect-suc f i n xs h in
      ap length (sym same) ∙ ap suc (length-collect f (i + 1) n ys rest)

  -- An entry is what its round returned.
  pub get_elem?-collect :
      (f : ℕ → Option A) (i n : ℕ) (xs : List A) (k : ℕ)
      → collect f i n ≡ some xs
      → k < n
      → get_elem? xs k ≡ f (i + k)
  get_elem?-collect f i zero xs k h below = absurd (omega arith)
  get_elem?-collect f i (suc n) xs zero h below =
      let (y, ys, first, rest, same) = collect-suc f i n xs h in
      let start : i + 0 ≡ i = omega arith in
      ap (λ l. get_elem? l 0) (sym same) ∙ sym first ∙ ap f (sym start)
  get_elem?-collect f i (suc n) xs (suc k) h below =
      let (y, ys, first, rest, same) = collect-suc f i n xs h in
      let shift : i + 1 + k ≡ i + suc k = omega arith in
      ap (λ l. get_elem? l (suc k)) (sym same)
      ∙ get_elem?-collect f (i + 1) n ys k rest (omega arith)
      ∙ ap f shift

  -- If every round returns, so does the loop.
  pub collect-total :
      (f : ℕ → Option A) (i n : ℕ)
      → ((k : ℕ) → k < n → (x : A) × (f (i + k) ≡ some x))
      → (xs : List A) × (collect f i n ≡ some xs)
  unfolding collect
  collect-total f i zero rounds = ([], refl)
  collect-total f i (suc n) rounds =
      let (x, first) = rounds 0 (omega arith) in
      let start : i + 0 ≡ i = omega arith in
      let (xs, rest) = collect-total f (i + 1) n (λ k h.
        let (y, made) = rounds (suc k) (omega arith) in
        let shift : i + suc k ≡ i + 1 + k = omega arith in (y, ap f (sym shift) ∙ made)) in
      let here : f i ≡ some x = ap f (sym start) ∙ first in (x ∷ xs, rw (here, rest) refl)

module _ {A B : Type 0} where
  -- `iter().map(f).collect()`.
  unfoldable pub map_all : (A → Option B) → List A → Option (List B)
  map_all f [] = some []
  map_all f (x ∷ xs) = do y ← f x; ys ← map_all f xs; some (y ∷ ys)

-- `n / m`, which panics at 0.
unfoldable pub checked_div : ℕ → ℕ → Option ℕ
checked_div n m = if m == 0 then none else some (n / m)

-- `assert!(n % m == 0)`, and the quotient.
unfoldable pub exact_div : ℕ → ℕ → Option ℕ
exact_div n m = if m == 0 then none else (if n % m == 0 then some (n / m) else none)
