-- ===== src/Mle.antt =====
-- crates/mle/src/lib.rs: multilinear polynomials by their values on the hypercube, folded in place.
-- The field is a parameter; a buffer access out of range is a panic, and so `none`.
pub mod Fold
pub mod Value
pub mod Last
use stark_stir_service.Common.{
  ℕ, zero, suc, ◌+◌, ◌-◌, ◌*◌, ◌/◌, ◌%◌, ◌^◌, Bool, true, false, ◌&&◌, not, Option, none, some,
  List, [], ◌∷◌, ◌==◌, ltb, if◌then◌else◌, length, get_elem?, set_elem, is_power_of_two,
  trailing_zeros, take, replicate, ◌>>=◌,
}
use stark_stir_service.Tower.{Ring, ◌⊕◌, ◌⊖◌, ◌⊗◌}

pub record Mle (F : Type 0) : Type 0 where
  pub values : List F
  pub n : ℕ

abbrev pub create : {F : Type 0} → List F → ℕ → Mle F
create values n = record { values = values; n = n }

module _ {F : Type 0} where
  unfoldable pub from_values : List F → Option (Mle F)
  unfolding is_power_of_two trailing_zeros
  from_values values =
      if not (length values == 0) && is_power_of_two (length values)
      then some (create values (trailing_zeros (length values)))
      else none

  -- The inner loop of `fix`: `count` entries move from `read` to `write`.
  unfoldable pub copy_run : ℕ → ℕ → ℕ → List F → Option (List F)
  copy_run zero read write buf = some buf
  copy_run (suc count) read write buf = do
    v ← get_elem? buf read
    copy_run count (suc read) (suc write) (set_elem buf write v)

  -- The outer loop of `fix`, over the periods.
  unfoldable pub copy_periods : ℕ → ℕ → ℕ → ℕ → ℕ → List F → Option (List F)
  unfolding copy_run
  copy_periods zero stride offset base write buf = some buf
  copy_periods (suc periods) stride offset base write buf = do
    next ← copy_run stride (base + offset) write buf
    copy_periods periods stride offset (base + 2 * stride) (write + stride) next

  unfoldable pub fix : Mle F → ℕ → Bool → Option (Mle F)
  unfolding copy_periods
  fix mle var_idx bit =
      let stride = 2 ^ var_idx in
      let offset = if bit then stride else 0 in
      let periods = (length mle.values + (2 * stride - 1)) / (2 * stride) in
      let made : Option (Mle F) = (do
        buf ← copy_periods periods stride offset 0 0 mle.values
        some (create (take (periods * stride) buf) (mle.n - 1))) in
      if ltb var_idx mle.n then made else none

  module _ ⦃r : Ring F⦄ where
    unfoldable pub zero_mle : ℕ → Mle F
    zero_mle n = create (replicate (2 ^ n) r.zero) n

    -- `(1 - r_i) * v0 + r_i * v1`.
    unfoldable pub combine : F → F → F → F
    combine ri v0 v1 = (r.one ⊖ ri) ⊗ v0 ⊕ ri ⊗ v1

    -- The loop over adjacent pairs of `eval` and of `fold_last`, which reads at `2 * write`.
    unfoldable pub combine_pairs : F → ℕ → ℕ → List F → Option (List F)
    unfolding combine
    combine_pairs ri zero write buf = some buf
    combine_pairs ri (suc count) write buf = do
      v0 ← get_elem? buf (2 * write)
      v1 ← get_elem? buf (2 * write + 1)
      combine_pairs ri count (suc write) (set_elem buf write (combine ri v0 v1))

    -- The rounds of `eval`; the buffer keeps its length, `size` is the part in use.
    unfoldable pub eval_rounds : List F → ℕ → List F → Option F
    unfolding combine_pairs
    eval_rounds [] size buf = get_elem? buf 0
    eval_rounds (ri ∷ rs) size buf = do
      next ← combine_pairs ri (size / 2) 0 buf
      eval_rounds rs (size / 2) next

    unfoldable pub eval : Mle F → List F → Option F
    unfolding eval_rounds
    eval mle point =
        if length point == mle.n
        then (if mle.n == 0
            then get_elem? mle.values 0
            else eval_rounds point (length mle.values) mle.values)
        else none

    -- `read` steps by 2 over the buffer, so that there are half as many rounds, rounded up.
    unfoldable pub fold_last : Mle F → F → Option (Mle F)
    unfolding combine_pairs
    fold_last mle ri =
        let count = (length mle.values + 1) / 2 in
        let made : Option (Mle F) = (do
          buf ← combine_pairs ri count 0 mle.values
          some (create (take count buf) (mle.n - 1))) in
        if mle.n == 0 then some mle else made

    -- The inner loop of `fold`.
    unfoldable pub combine_run : F → ℕ → ℕ → ℕ → ℕ → List F → Option (List F)
    unfolding combine
    combine_run ri stride zero read write buf = some buf
    combine_run ri stride (suc count) read write buf = do
      v0 ← get_elem? buf read
      v1 ← get_elem? buf (read + stride)
      combine_run ri stride count (suc read) (suc write) (set_elem buf write (combine ri v0 v1))

    -- The outer loop of `fold`.
    unfoldable pub combine_periods : F → ℕ → ℕ → ℕ → ℕ → List F → Option (List F)
    unfolding combine_run
    combine_periods ri stride zero base write buf = some buf
    combine_periods ri stride (suc periods) base write buf = do
      next ← combine_run ri stride stride base write buf
      combine_periods ri stride periods (base + 2 * stride) (write + stride) next

    unfoldable pub fold : Mle F → ℕ → F → Option (Mle F)
    unfolding fold_last combine_periods
    fold mle var_idx ri =
        let stride = 2 ^ var_idx in
        let periods = (length mle.values + (2 * stride - 1)) / (2 * stride) in
        let made : Option (Mle F) = (do
          buf ← combine_periods ri stride periods 0 0 mle.values
          some (create (take (periods * stride) buf) (mle.n - 1))) in
        if ltb var_idx mle.n
        then (if var_idx == mle.n - 1 then fold_last mle ri else made)
        else none
