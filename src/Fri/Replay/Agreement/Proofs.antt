-- ===== src/Fri/Replay/Agreement/Proofs.antt =====
-- The state in which the prover ends agrees with the replay of what it shows.
use mathlib.Core.List.{map-append}
use stark_stir_service.Common.{
  some_injective, ℕ, zero, suc, ◌+◌, ◌-◌, ◌≡◌, refl, sym, ap, ◌∙◌, subst, Bool, true, false, Option,
  none, some, List, [], ◌∷◌, ◌++◌, map, if◌then◌else◌, length, get_elem?, take, length-append,
  length-take, append_assoc, append-nil, arith, >>=-eq-some, ◌>>=◌,
}
use stark_stir_service.Hashing.{Hash}
use stark_stir_service.Transcript.{FsTranscript}
use stark_stir_service.Fri.{Platform}
use stark_stir_service.Fri.Commitments.{absorb_layer}
use stark_stir_service.Fri.Data.{FriProverParams, FriProverState}
use stark_stir_service.Fri.Replay.{
  Shown, absorb_shown, replay_rounds, replay_coeff_commit, replay_layers,
}
use stark_stir_service.Fri.Replay.Agreement.{
  Shows, length-prove_rounds, replay_rounds-prove_rounds, replay_coeff_commit-prove_coeff_commit,
}
use stark_stir_service.Fri.Prover.{
  Round, CoeffCommit, prove_rounds, prove_coeff_commit, prove_final, assemble,
}
use stark_stir_service.Fri.Prover.Queries.{shown_of}

get_elem?-map-behind :
    {A B : Type 0} (g : A → B) (pre : List A) (x : A) (post : List A) (i : ℕ)
    → i ≡ length pre
    → get_elem? (map g (pre ++ x ∷ post)) i ≡ some (g x)
get_elem?-map-behind g [] x post zero h = refl
get_elem?-map-behind g [] x post (suc i) h = absurd (omega arith)
get_elem?-map-behind g (y ∷ pre) x post zero h = absurd (omega arith)
get_elem?-map-behind g (y ∷ pre) x post (suc i) h =
    get_elem?-map-behind g pre x post i (omega arith)

module _ {F E : Type 0} (p : Platform F E) ⦃H : Hash⦄ where
  open H use {Digest, bytes}

  -- The vectors of the rounds, as a proof shows them.
  abbrev Vectors : Shown E Digest → Bool → List (Round F E Digest) → Type 0
  Vectors shown stir all =
      (shown.fz_per_layer ≡ map (λ r. r.ood.fz) all)
      × (shown.roots ≡ map (λ r. r.layer.root) all)
      × (shown.stir_coset_evals ≡ (if stir then some (map (λ r. r.ood.coset_evals) all) else none))

  absorb_shown-layer :
      (shown : Shown E Digest) (stir : Bool) (pre post : List (Round F E Digest))
      (r : Round F E Digest) (ell : ℕ) (tr : FsTranscript F)
      → Vectors shown stir (pre ++ r ∷ post)
      → ell ≡ length pre
      → absorb_shown p tr stir shown ell
        ≡ absorb_layer p tr stir r.ood.coset_evals r.ood.fz r.layer.root
  unfolding absorb_shown
  absorb_shown-layer shown true pre post r ell tr (fzs, roots, cosets) at =
      rw
        (
          cosets,
          roots,
          get_elem?-map-behind (λ r. r.ood.coset_evals) pre r post ell at,
          get_elem?-map-behind (λ r. r.layer.root) pre r post ell at,
        )
        refl
  absorb_shown-layer shown false pre post r ell tr (fzs, roots, cosets) at =
      rw
        (
          fzs,
          roots,
          get_elem?-map-behind (λ r. r.ood.fz) pre r post ell at,
          get_elem?-map-behind (λ r. r.layer.root) pre r post ell at,
        )
        refl

  Shows-behind :
      (shown : Shown E Digest) (stir : Bool) (pre rounds post : List (Round F E Digest)) (ell : ℕ)
      → Vectors shown stir (pre ++ (rounds ++ post))
      → ell ≡ length pre
      → Shows p shown stir ell rounds
  Shows-behind shown stir pre [] post ell vectors at = tt
  Shows-behind shown stir pre (r ∷ rounds) post ell vectors at = (
    (λ tr. absorb_shown-layer shown stir pre (rounds ++ post) r ell tr vectors at),
    Shows-behind shown stir (pre ++ r ∷ []) rounds post (ell + 1)
        (subst (λ l. Vectors shown stir l) (sym (append_assoc pre (r ∷ []) (rounds ++ post)))
          vectors)
        (omega (arith, length-append pre (r ∷ []))),
  )

  map_root :
      (all : List (Round F E Digest))
      → map (λ l. l.root) (map (λ r. r.layer) all) ≡ map (λ r. r.layer.root) all
  map_root [] = refl
  map_root (r ∷ all) = ap (λ l. r.layer.root ∷ l) (map_root all)

  assemble-Vectors :
      (f0 : List F) (params : FriProverParams) (root_f0 : Digest) (z_ext : E) (trace_hash : List ℕ)
      (rounds : List (Round F E Digest)) (final_f : List E)
      (final : Option (CoeffCommit F E Digest)) (size : ℕ) (coeffs : List E)
      → Vectors
          (shown_of p
            (assemble p f0 params root_f0 z_ext trace_hash rounds final_f final)
            size
            coeffs)
          params.stir
          rounds
  unfolding shown_of assemble
  assemble-Vectors f0 params root_f0 z_ext trace_hash rounds final_f final size coeffs =
      (refl, map_root rounds, refl)

  -- The state of the prover agrees with the replay of what it shows.
  abbrev pub Agrees :
      FriProverState F E Digest
      → FriProverParams
      → Digest
      → E
      → List ℕ
      → Bool
      → ℕ
      → List E
      → FsTranscript F
      → FsTranscript F
      → Type 0
  Agrees st params root_f0 z_ext trace_hash commits size coeffs tr last =
      (st.root_f0 ≡ root_f0)
      × (st.z_ext ≡ z_ext)
      × (st.trace_hash ≡ trace_hash)
      × (replay_layers p commits params.stir (length params.schedule) (shown_of p st size coeffs) tr
          ≡ some (st.alpha_layers, st.beta_deg, last))

  -- With the rounds alone.
  rounds-agree :
      (f0 : List F) (params : FriProverParams) (root_f0 : Digest) (z_ext : E) (trace_hash : List ℕ)
      (rounds : List (Round F E Digest)) (size0 cur_size : ℕ) (tr mid : FsTranscript F)
      (z_current : E) (f cur_f : List E) (size : ℕ) (coeffs : List E)
      → prove_rounds p params.stir z_ext 0
          (take (length params.schedule) params.schedule)
          size0
          tr
          z_ext
          f
        ≡ some (rounds, mid, z_current, cur_size, cur_f)
      → Agrees
          (assemble p f0 params root_f0 z_ext trace_hash rounds cur_f none)
          params
          root_f0
          z_ext
          trace_hash
          false
          size
          coeffs
          tr
          mid
  unfolding assemble replay_layers
  rounds-agree f0 params root_f0 z_ext trace_hash rounds size0 cur_size tr mid z_current f cur_f
        size coeffs proved =
      let l = length params.schedule in
      let made = assemble p f0 params root_f0 z_ext trace_hash rounds cur_f none in
      let shown = shown_of p made size coeffs in
      let all : length (take l params.schedule) ≡ l =
        omega (arith, length-take l params.schedule) in
      let vectors =
        assemble-Vectors f0 params root_f0 z_ext trace_hash rounds cur_f none size coeffs in
      let shows =
        Shows-behind shown params.stir [] rounds [] 0
          (subst (λ r. Vectors shown params.stir r) (sym (append-nil rounds)) vectors) refl in
      let replayed =
        replay_rounds-prove_rounds p params.stir z_ext 0 (take l params.schedule) size0 tr z_ext f
          shown rounds mid z_current cur_size cur_f proved shows in
      (
        refl,
        refl,
        refl,
        ap (λ o. o >>= (λ (alphas, last). some (alphas, none, last)))
            (ap (λ n. replay_rounds p params.stir shown 0 n tr) (sym all) ∙ replayed),
      )

  -- With the coefficients of the final layer.
  commits-agree :
      (f0 : List F) (params : FriProverParams) (root_f0 : Digest) (z_ext : E) (trace_hash : List ℕ)
      (rounds : List (Round F E Digest)) (size0 cur_size m : ℕ) (tr mid last : FsTranscript F)
      (z_current : E) (f cur_f final_f : List E) (size : ℕ) (coeffs : List E)
      (final : CoeffCommit F E Digest)
      → prove_rounds p params.stir z_ext 0
          (take (length params.schedule - 1) params.schedule)
          size0
          tr
          z_ext
          f
        ≡ some (rounds, mid, z_current, cur_size, cur_f)
      → prove_coeff_commit p params.stir z_ext
          (length params.schedule - 1)
          m
          cur_size
          mid
          z_current
          cur_f
        ≡ some (final, last, final_f)
      → Agrees
          (assemble p f0 params root_f0 z_ext trace_hash
            (rounds ++ final.round ∷ [])
            final_f
            (some final))
          params
          root_f0
          z_ext
          trace_hash
          true
          size
          coeffs
          tr
          last
  unfolding assemble replay_layers shown_of
  commits-agree f0 params root_f0 z_ext trace_hash rounds size0 cur_size m tr mid last z_current f
        cur_f final_f size coeffs final proved committed =
      let l = length params.schedule in
      let all = rounds ++ final.round ∷ [] in
      let made = assemble p f0 params root_f0 z_ext trace_hash all final_f (some final) in
      let shown = shown_of p made size coeffs in
      let some_of : length (take (l - 1) params.schedule) ≡ l - 1 =
        omega (arith, length-take (l - 1) params.schedule) in
      let count : l - 1 ≡ length rounds = sym (
        length-prove_rounds p params.stir z_ext 0 (take (l - 1) params.schedule) size0 tr z_ext f
          rounds mid z_current cur_size cur_f proved
        ∙ some_of) in
      let vectors =
        assemble-Vectors f0 params root_f0 z_ext trace_hash all final_f (some final) size coeffs in
      let shows = Shows-behind shown params.stir [] rounds (final.round ∷ []) 0 vectors refl in
      let shows_last =
        Shows-behind shown params.stir rounds (final.round ∷ []) [] (l - 1) vectors count in
      let replayed =
        replay_rounds-prove_rounds p params.stir z_ext 0 (take (l - 1) params.schedule) size0 tr
          z_ext f shown rounds mid z_current cur_size cur_f proved shows in
      let ended =
        replay_coeff_commit-prove_coeff_commit p params.stir z_ext (l - 1) m cur_size mid last
          z_current cur_f final_f shown final committed shows_last refl in
      let behind : List E → E × E × FsTranscript F → Option (List E × Option E × FsTranscript F) =
        λ alphas (alpha, beta_deg, tr2). some (alphas ++ alpha ∷ [], some beta_deg, tr2) in
      (
        refl,
        refl,
        refl,
        ap
              (λ o. o >>= (λ (alphas, tr1).
                replay_coeff_commit p params.stir shown (l - 1) tr1 >>= behind alphas))
              (ap (λ n. replay_rounds p params.stir shown 0 n tr) (sym some_of) ∙ replayed)
            ∙ ap (λ o. o >>= behind (map (λ r. r.alpha) rounds)) ended
            ∙ ap (λ alphas. some (alphas, some final.beta_deg, last))
                (sym (map-append (λ r. r.alpha) rounds (final.round ∷ []))),
      )

  pub prove_final-Agrees :
      (commits : Bool) (f0 : List F) (params : FriProverParams) (root_f0 : Digest) (z_ext : E)
      (trace_hash : List ℕ) (rounds : List (Round F E Digest)) (size0 cur_size : ℕ)
      (tr mid last : FsTranscript F) (z_current : E) (f cur_f : List E)
      (st : FriProverState F E Digest) (size : ℕ) (coeffs : List E)
      → prove_rounds p params.stir z_ext 0
          (take
            (if commits then length params.schedule - 1 else length params.schedule)
            params.schedule)
          size0
          tr
          z_ext
          f
        ≡ some (rounds, mid, z_current, cur_size, cur_f)
      → prove_final p commits f0 params root_f0 z_ext trace_hash rounds cur_size mid z_current cur_f
        ≡ some (st, last)
      → Agrees st params root_f0 z_ext trace_hash commits size coeffs tr last
  unfolding prove_final replay_layers
  prove_final-Agrees false f0 params root_f0 z_ext trace_hash rounds size0 cur_size tr mid last
        z_current f cur_f st size coeffs proved h =
      subst (λ t. Agrees t.0 params root_f0 z_ext trace_hash false size coeffs tr t.1)
        (some_injective h)
        (rounds-agree f0 params root_f0 z_ext trace_hash rounds size0 cur_size tr mid z_current f
          cur_f size coeffs proved)
  prove_final-Agrees true f0 params root_f0 z_ext trace_hash rounds size0 cur_size tr mid last
        z_current f cur_f st size coeffs proved h =
      let ell = length params.schedule - 1 in
      let (m, at, h1) = >>=-eq-some (get_elem? params.schedule ell) _ h in
      let ((final, tr2, final_f), made, h2) =
        >>=-eq-some (prove_coeff_commit p params.stir z_ext ell m cur_size mid z_current cur_f) _
          h1 in
      subst (λ t. Agrees t.0 params root_f0 z_ext trace_hash true size coeffs tr t.1)
        (some_injective h2)
        (commits-agree f0 params root_f0 z_ext trace_hash rounds size0 cur_size m tr mid tr2
          z_current f cur_f final_f size coeffs final proved made)
