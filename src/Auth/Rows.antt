-- ===== src/Auth/Rows.antt =====
-- What the statements do to a table: which rows are found after an update or a deletion.
use stark_stir_service.Common.{
  ℕ, ◌<◌, ◌≤◌, ◌≡◌, refl, Bool, true, false, none, some, List, [], ◌∷◌, arith, if◌then◌else◌, Text,
  text_eq,
}
use mathlib.Core.Option
use stark_stir_service.Auth.{find_row, any_row, update_rows, delete_rows}

module _ {ℓ} {A : Type ℓ} where
  -- The ids fall along the table and stay under the next id.
  abbrev pub Descending : (A → ℕ) → ℕ → List A → Type 0
  Descending id n [] = Unit
  Descending id n (r ∷ rs) = (id r < n) × Descending id (id r) rs

  -- No two rows share a key that is UNIQUE.
  abbrev pub Distinct : (A → Text) → List A → Type 0
  Distinct key [] = Unit
  Distinct key (r ∷ rs) = (any_row (λ s. text_eq (key s) (key r)) rs ≡ false) × Distinct key rs

  pub Descending-mono :
      (id : A → ℕ) (m n : ℕ) (rs : List A) → m ≤ n → Descending id m rs → Descending id n rs
  Descending-mono id m n [] h w = tt
  Descending-mono id m n (r ∷ rs) h w = (omega arith, w.1)

  pub update-Descending :
      (id : A → ℕ) (p : A → Bool) (f : A → A)
      → ((r : A) → id (f r) ≡ id r)
      → (n : ℕ) (rs : List A) → Descending id n rs
      → Descending id n (update_rows p f rs)
  unfolding update_rows
  update-Descending id p f k n [] w = tt
  update-Descending id p f k n (r ∷ rs) w =
      ground (arith, k r, update-Descending id p f k (id r) rs w.1)

  pub delete-Descending :
      (id : A → ℕ) (p : A → Bool) (n : ℕ) (rs : List A)
      → Descending id n rs
      → Descending id n (delete_rows p rs)
  unfolding delete_rows
  delete-Descending id p n [] w = tt
  delete-Descending id p n (r ∷ rs) w =
      let rest = delete-Descending id p (id r) rs w.1 in
      ground (arith, rest, Descending-mono id (id r) n (delete_rows p rs) (omega arith) rest)

  pub any_row-update :
      (q p : A → Bool) (f : A → A)
      → ((r : A) → q (f r) ≡ q r)
      → (rs : List A) → any_row q (update_rows p f rs) ≡ any_row q rs
  unfolding any_row update_rows
  any_row-update q p f k [] = refl
  any_row-update q p f k (r ∷ rs) = ground (arith, k r, any_row-update q p f k rs)

  pub any_row-delete :
      (q p : A → Bool) (rs : List A) → any_row q rs ≡ false → any_row q (delete_rows p rs) ≡ false
  unfolding any_row delete_rows
  any_row-delete q p [] h = refl
  any_row-delete q p (r ∷ rs) h = ground (arith, any_row-delete q p rs)

  pub update-Distinct :
      (key : A → Text) (p : A → Bool) (f : A → A)
      → ((r : A) → key (f r) ≡ key r)
      → (rs : List A) → Distinct key rs
      → Distinct key (update_rows p f rs)
  unfolding update_rows
  update-Distinct key p f k [] w = tt
  update-Distinct key p f k (r ∷ rs) w =
      let same = any_row-update (λ s. text_eq (key s) (key r)) p f (λ s. rw (k s)) rs in
      ground (arith, k r, same, update-Distinct key p f k rs w.1)

  pub delete-Distinct :
      (key : A → Text) (p : A → Bool) (rs : List A)
      → Distinct key rs
      → Distinct key (delete_rows p rs)
  unfolding delete_rows
  delete-Distinct key p [] w = tt
  delete-Distinct key p (r ∷ rs) w =
      ground (
        arith,
        delete-Distinct key p rs w.1,
        any_row-delete (λ s. text_eq (key s) (key r)) p rs w.0,
      )

  pub any_row-find :
      (q : A → Bool) (rs : List A) (r : A) → find_row q rs ≡ some r → any_row q rs ≡ true
  unfolding any_row find_row
  any_row-find q [] r h = cc
  any_row-find q (x ∷ rs) r h = ground (arith, any_row-find q rs r)

  pub find_row-holds : (q : A → Bool) (rs : List A) (r : A) → find_row q rs ≡ some r → q r ≡ true
  unfolding find_row
  find_row-holds q [] r h = cc
  find_row-holds q (x ∷ rs) r h = ground (arith, find_row-holds q rs r)

  -- An update that keeps the test finds the updated row.
  pub find_row-update :
      (q p : A → Bool) (f : A → A)
      → ((r : A) → q (f r) ≡ q r)
      → (rs : List A)
      → find_row q (update_rows p f rs) ≡ Option.map (λ r. if p r then f r else r) (find_row q rs)
  unfolding find_row update_rows
  find_row-update q p f k [] = refl
  find_row-update q p f k (r ∷ rs) = ground (arith, k r, find_row-update q p f k rs)

  pub find_row-delete_self : (q : A → Bool) (rs : List A) → find_row q (delete_rows q rs) ≡ none
  unfolding find_row delete_rows
  find_row-delete_self q [] = refl
  find_row-delete_self q (r ∷ rs) = ground (arith, find_row-delete_self q rs)
