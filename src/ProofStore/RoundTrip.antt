-- ===== src/ProofStore/RoundTrip.antt =====
-- What is saved is loaded again, from the cache and from the files.
use stark_stir_service.Common.{
  ◌≡◌, refl, sym, ap, ◌∙◌, true, false, Option, none, some, List, [], ◌∷◌, ◌++◌, ◌==◌, Text,
  text_eq, text_eq_refl, Option-cases, inl, inr, arith,
}
use stark_stir_service.ProofStore.{JsonProofBundle, ok, err, json}
use stark_stir_service.ProofStore.Disk.{
  Json, RoundTrips, System, ProofStore, lookup, new_store, path_for, remember, put_file, write_json,
  remember_after, save, get_contents, get, read_json,
}

pub lookup-head :
    {A : Type 0} (key : Text) (a : A) (rest : List (Text × A))
    → lookup key ((key, a) ∷ rest) ≡ some a
unfolding lookup
lookup-head key a rest = rw (text_eq_refl key) refl

pub lookup-other :
    {A : Type 0} (key k : Text) (a : A) (rest : List (Text × A))
    → text_eq key k ≡ false
    → lookup key ((k, a) ∷ rest) ≡ lookup key rest
unfolding lookup
lookup-other key k a rest h = rw h refl

-- Different endings make different paths.
pub text_eq-append : (stem s t : Text) → text_eq (stem ++ s) (stem ++ t) ≡ text_eq s t
unfolding text_eq
text_eq-append [] s t = refl
text_eq-append (c ∷ stem) s t =
    let same : (c == c) ≡ true = ground arith in rw same (text_eq-append stem s t)

module _ {V : Type 0} (sys : System V) where
  pub write_json-ok :
      {A : Type 0} (j : Json A) (s : ProofStore V) (a : A) (path contents : Text)
      → j.to_string_pretty a ≡ some contents
      → sys.writable path ≡ true
      → write_json sys j s a path ≡ (put_file s path contents, ok path)
  unfolding write_json
  write_json-ok j s a path contents made allowed = rw (made, write_json) (rw allowed refl)

  pub read_json-head :
      {A : Type 0} (j : Json A) (s : ProofStore V) (a : A) (path contents : Text)
      → j.from_str contents ≡ some a
      → lookup path s.files ≡ some contents
      → read_json j s path ≡ ok a
  unfolding read_json
  read_json-head j s a path contents parsed found = rw (found, read_json) (rw parsed refl)

  get_cached :
      (s : ProofStore V) (id : Text) (b : JsonProofBundle V)
      → lookup id s.cache ≡ some b
      → get sys s id ≡ (s, ok b)
  unfolding get
  get_cached s id b h = rw (h, get) refl

  get_missing :
      (s : ProofStore V) (id : Text)
      → lookup id s.cache ≡ none
      → get sys s id ≡ get_contents sys s id (lookup (path_for s id) s.files)
  unfolding get
  get_missing s id h = rw (h, get) refl

  get_contents-parsed :
      (s : ProofStore V) (id contents : Text) (b : JsonProofBundle V)
      → sys.bundle_json.from_str contents ≡ some b
      → (get_contents sys s id (some contents)).1 ≡ ok b
  unfolding get_contents
  get_contents-parsed s id contents b h = rw (h, get_contents) refl

  -- A store that did not have the id in its cache, after the file was looked up.
  get_contents-again :
      (s : ProofStore V) (id : Text) (o : Option Text)
      → lookup id s.cache ≡ none
      → lookup (path_for s id) s.files ≡ o
      → ((get_contents sys s id o).0.files ≡ s.files)
        × ((get sys (get_contents sys s id o).0 id).1 ≡ (get_contents sys s id o).1)
  unfolding get_contents remember
  get_contents-again s id none miss found =
      (refl, ap (λ r. r.1) (get_missing s id miss ∙ ap (get_contents sys s id) found))
  get_contents-again s id (some contents) miss found =
      elim (Option-cases (sys.bundle_json.from_str contents)) [
        | inl bad ↦
            let failed : get_contents sys s id (some contents) ≡ (s, err json) =
              rw (bad, get_contents) refl in
            (
              ap (λ r. r.0.files) failed,
              ap (λ r. (get sys r.0 id).1) failed
                  ∙ ap (λ r. r.1) (get_missing s id miss ∙ ap (get_contents sys s id) found),
            )
        | inr (b, good) ↦
            let read : get_contents sys s id (some contents) ≡ (remember s id b, ok b) =
              rw (good, get_contents) refl in
            (
              ap (λ r. r.0.files) read,
              ap (λ r. (get sys r.0 id).1) read
                  ∙ ap (λ r. r.1) (get_cached (remember s id b) id b (lookup-head id b s.cache))
                  ∙ sym (ap (λ r. r.1) read),
            )
      ]

  -- When the bundle is serialised to a text that is read back, and the file is written, `save`
  -- returns the id; then `get` finds the bundle under that id in the cache, and also in a store that
  -- is opened anew on the same directory.
  pub save-get :
      (s : ProofStore V) (b : JsonProofBundle V) (contents : Text)
      → RoundTrips sys.bundle_json b contents
      → sys.writable (path_for s b.proof_id) ≡ true
      → (after : ProofStore V) × (save sys s b ≡ (after, ok b.proof_id))
        × (get sys after b.proof_id ≡ (after, ok b))
        × ((get sys (new_store after.store_dir after.files) b.proof_id).1 ≡ ok b)
  unfolding save remember_after remember put_file get new_store get_contents path_for RoundTrips
  save-get s b contents (made, parsed) allowed =
      let path = path_for s b.proof_id in
      let after = remember (put_file s path contents) b.proof_id b in
      (
        after,
        ap (remember_after b b.proof_id)
            (write_json-ok sys.bundle_json s b path contents made allowed),
        get_cached after b.proof_id b (lookup-head b.proof_id b s.cache),
        ap (λ o. (get_contents sys (new_store after.store_dir after.files) b.proof_id o).1)
              (lookup-head path contents s.files)
            ∙ get_contents-parsed (new_store after.store_dir after.files) b.proof_id contents b
                parsed,
      )

  -- `get` leaves the files alone, and a second `get` answers as the first.
  pub get-get :
      (s : ProofStore V) (id : Text)
      → ((get sys s id).0.files ≡ s.files) × ((get sys (get sys s id).0 id).1 ≡ (get sys s id).1)
  get-get s id = elim (Option-cases (lookup id s.cache)) [
    | inr (b, hit) ↦
        let cached = get_cached s id b hit in
        (ap (λ r. r.0.files) cached, ap (λ r. (get sys r.0 id).1) cached)
    | inl miss ↦
        let missing = get_missing s id miss in
        let (kept, again) = get_contents-again s id (lookup (path_for s id) s.files) miss refl in
        (
          ap (λ r. r.0.files) missing ∙ kept,
          ap (λ r. (get sys r.0 id).1) missing ∙ again ∙ sym (ap (λ r. r.1) missing),
        )
  ]
