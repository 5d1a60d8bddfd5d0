-- ===== src/Fri/Verifier/Accepted/Next.antt =====
-- What the check of a layer's fold owes.
use stark_stir_service.Common.{
  ℕ, ◌+◌, ◌-◌, ◌≡◌, refl, sym, ap, ◌∙◌, Bool, true, false, ◌&&◌, some, List, ◌==◌, ltb,
  if◌then◌else◌, length, get_elem?, ◌>>=◌, >>=-eq-some, some_injective,
}
use stark_stir_service.Hashing.{Hash}
use stark_stir_service.Fri.{Platform, build_ext_pows}
use stark_stir_service.Fri.Layers.{eval_final_poly_ext}
use stark_stir_service.Fri.Interpolate.{dot_first, tuple_at}
use stark_stir_service.Fri.Data.{
  LayerQueryRef, LayerOpenPayload, FriQueryPayload, DeepFriProof, DeepFriParams,
}
use stark_stir_service.Fri.Verifier.{Derived}
use stark_stir_service.Fri.Verifier.Classic.{check_next, check_coeff_fold}
use stark_stir_service.Fri.Verifier.Accepted.{require-true, IsEq, LayerHolds}

module _ {F E : Type 0} (p : Platform F E) ⦃H : Hash⦄ where
  open H use {Digest}

  -- The value of the final polynomial at the point of the query's last position.
  abbrev pub final_value : DeepFriProof F E Digest → Derived F E → FriQueryPayload E Digest → E
  final_value proof d qp =
      eval_final_poly_ext p proof.final_poly_coeffs
        (p.tower.from_fp (p.pow d.omega_final qp.final_index))

  -- What a layer folds to, by whether its coefficients are committed and whether a layer follows:
  -- its
  -- s value is the next layer's value or that of the final polynomial; with committed coefficients,
  -- its value is that of the coset's polynomial, whose fold at alpha is the value of the final one.
  pub data NextHolds (params : DeepFriParams) (proof : DeepFriProof F E Digest) (d : Derived F E)
      (qp : FriQueryPayload E Digest) (ell m : ℕ) (ref : LayerQueryRef) (pay : LayerOpenPayload E)
      : Bool → Bool → Type 0 where
    to_layer :
        {next : LayerOpenPayload E}
        → get_elem? qp.per_layer_payloads (ell + 1) ≡ some next
        → pay.s_val ≡ next.f_val
        → NextHolds params proof d qp ell m ref pay false true
    to_final :
        pay.s_val ≡ final_value proof d qp → NextHolds params proof d qp ell m ref pay false false
    committed :
        {follows : Bool} {coeff_tuples : List (List E)} {coeff_tuple : List E} {omega : F}
        {alpha_final : E}
        → proof.coeff_tuples ≡ some coeff_tuples
        → get_elem? coeff_tuples qp.final_index ≡ some coeff_tuple
        → get_elem? d.omega_per_layer ell ≡ some omega
        → get_elem? d.challenges.alpha_layers (length params.schedule - 1) ≡ some alpha_final
        → tuple_at p coeff_tuple (p.pow omega ref.i) m ≡ some pay.f_val
        → dot_first p coeff_tuple (build_ext_pows p alpha_final m) m ≡ some (final_value proof d qp)
        → NextHolds params proof d qp ell m ref pay true follows

  check_next-NextHolds :
      (params : DeepFriParams) (proof : DeepFriProof F E Digest) (d : Derived F E) (ell m : ℕ)
      (qp : FriQueryPayload E Digest) (ref : LayerQueryRef) (pay : LayerOpenPayload E)
      (follows : Bool)
      → IsEq p
      → ltb (ell + 1) (length params.schedule) ≡ follows
      → check_next p proof d (length params.schedule) ell qp pay ≡ some true
      → NextHolds params proof d qp ell m ref pay false follows
  unfolding check_next IsEq
  check_next-NextHolds params proof d ell m qp ref pay true eq follows h =
      let (next_val, found, h1) =
        >>=-eq-some
          (if ltb (ell + 1) (length params.schedule)
            then get_elem? qp.per_layer_payloads (ell + 1) >>= (λ n. some n.f_val)
            else some (final_value proof d qp))
          _ h in
      let found' : (get_elem? qp.per_layer_payloads (ell + 1) >>= (λ n. some n.f_val))
          ≡ some next_val =
        rw follows at found in
      let (next, next_at, value) =
        >>=-eq-some (get_elem? qp.per_layer_payloads (ell + 1)) _ found' in
      to_layer next_at (eq _ _ (some_injective h1) ∙ sym (some_injective value))
  check_next-NextHolds params proof d ell m qp ref pay false eq follows h =
      let (next_val, found, h1) =
        >>=-eq-some
          (if ltb (ell + 1) (length params.schedule)
            then get_elem? qp.per_layer_payloads (ell + 1) >>= (λ n. some n.f_val)
            else some (final_value proof d qp))
          _ h in
      let found' : some (final_value proof d qp) ≡ some next_val = rw follows at found in
      to_final (eq _ _ (some_injective h1) ∙ sym (some_injective found'))

  check_coeff_fold-NextHolds :
      (params : DeepFriParams) (proof : DeepFriProof F E Digest) (d : Derived F E) (ell m : ℕ)
      (qp : FriQueryPayload E Digest) (ref : LayerQueryRef) (pay : LayerOpenPayload E)
      (follows : Bool)
      → IsEq p
      → check_coeff_fold p params proof d ell qp ref pay m ≡ some true
      → NextHolds params proof d qp ell m ref pay true follows
  unfolding check_coeff_fold IsEq
  check_coeff_fold-NextHolds params proof d ell m qp ref pay follows eq h =
      let (coeff_tuples, shown, h1) = >>=-eq-some proof.coeff_tuples _ h in
      let (coeff_tuple, tuple_at', h2) = >>=-eq-some (get_elem? coeff_tuples qp.final_index) _ h1 in
      let (omega, omega_at, h3) = >>=-eq-some (get_elem? d.omega_per_layer ell) _ h2 in
      let (h_star, valued, h4) = >>=-eq-some (tuple_at p coeff_tuple (p.pow omega ref.i) m) _ h3 in
      let (same, h5) = require-true (p.eq pay.f_val h_star) _ h4 in
      let (alpha_final, alpha_at, h6) =
        >>=-eq-some (get_elem? d.challenges.alpha_layers (length params.schedule - 1)) _ h5 in
      let (fold_val, folded, h7) =
        >>=-eq-some (dot_first p coeff_tuple (build_ext_pows p alpha_final m) m) _ h6 in
      committed shown tuple_at' omega_at alpha_at (valued ∙ ap some (sym (eq _ _ same)))
        (folded ∙ ap some (eq _ _ (some_injective h7)))

  pub LayerHolds-NextHolds :
      (commits : Bool) (params : DeepFriParams) (proof : DeepFriProof F E Digest) (d : Derived F E)
      (q : ℕ) (qp : FriQueryPayload E Digest) (ell m : ℕ)
      → IsEq p
      → (layer : LayerHolds p commits params proof d qp q ell m)
      → NextHolds params proof d qp ell m layer.ref layer.pay
          (commits && (ell + 1 == length params.schedule))
          (ltb (ell + 1) (length params.schedule))
  LayerHolds-NextHolds commits params proof d q qp ell m eq layer =
      chosen (commits && (ell + 1 == length params.schedule)) layer.folds
    where
      chosen :
          (final : Bool)
          → (if final
              then check_coeff_fold p params proof d ell qp layer.ref layer.pay m
              else check_next p proof d (length params.schedule) ell qp layer.pay)
            ≡ some true
          → NextHolds params proof d qp ell m layer.ref layer.pay final
              (ltb (ell + 1) (length params.schedule))
      chosen true h = check_coeff_fold-NextHolds params proof d ell m qp layer.ref layer.pay _ eq h
      chosen false h = check_next-NextHolds params proof d ell m qp layer.ref layer.pay _ eq refl h
