-- ===== src/ProofStore/Disk.antt =====
-- crates/proof-store/src/lib.rs: the store, a cache before a directory of files. The file system is
-- the list of the writes that succeeded, the newest first; which writes fail, and what serde_json
-- does, is given from outside. A write that fails is taken to leave the file as it was.
use mathlib.Core.List.{reverse}
use stark_stir_service.Common.{
  ℕ, zero, suc, ◌≡◌, Bool, true, Option, none, some, List, [], ◌∷◌, ◌++◌, ◌==◌, if◌then◌else◌, Text,
  text, text_eq, length,
}
use stark_stir_service.ProofStore.{
  SplitParamsFile, SplitPublicInputFile, SplitProofFile, JsonProofBundle, not_found, io, json,
  StoreResult, ok, err, split_params, split_public_input, split_proof, from_split,
}

-- `serde_json::to_string_pretty` and `serde_json::from_str` at one type.
pub record Json (A : Type 0) : Type 0 where
  pub to_string_pretty : A → Option Text
  pub from_str : Text → Option A

-- The value is written as the text, and the text is read back as the value.
unfoldable pub RoundTrips : {A : Type 0} → Json A → A → Text → Type 0
RoundTrips j a s = (j.to_string_pretty a ≡ some s) × (j.from_str s ≡ some a)

pub record System (V : Type 0) : Type 0 where
  pub bundle_json : Json (JsonProofBundle V)
  pub params_json : Json SplitParamsFile
  pub input_json : Json (SplitPublicInputFile V)
  pub proof_json : Json SplitProofFile
  -- Whether `fs::write` to the path succeeds, and `create_dir_all` of its parent.
  pub writable : Text → Bool
  pub makes_parent : Text → Bool

pub record ProofStore (V : Type 0) : Type 0 where
  pub store_dir : Text
  pub cache : List (Text × JsonProofBundle V)
  pub files : List (Text × Text)

pub record SplitPaths : Type 0 where
  pub params : Text
  pub public_input : Text
  pub proof : Text

-- `HashMap::get`, and the contents of a file.
unfoldable pub lookup {ℓ} : {A : Type ℓ} → Text → List (Text × A) → Option A
unfolding text_eq
lookup key [] = none
lookup key ((k, a) ∷ rest) = if text_eq key k then some a else lookup key rest

-- `Path::join`: an absolute path stands for itself.
unfoldable pub ends_open : Text → Bool
ends_open [] = true
ends_open (c ∷ []) = c == 47
ends_open (c ∷ d ∷ rest) = ends_open (d ∷ rest)

unfoldable pub join : Text → Text → Text
unfolding ends_open
join dir [] = if ends_open dir then dir else dir ++ text "/"
join dir (c ∷ name) =
    if c == 47
    then c ∷ name
    else (if ends_open dir then dir ++ c ∷ name else dir ++ (47 ∷ c ∷ name))

-- One occurrence of a prefix is taken off, if it is there.
unfoldable pub strip_prefix : Text → Text → Option Text
strip_prefix [] s = some s
strip_prefix (p ∷ ps) [] = none
strip_prefix (p ∷ ps) (c ∷ s) = if p == c then strip_prefix ps s else none

-- `trim_start_matches`, with as many rounds as the string is long.
unfoldable pub trim_loop : Text → ℕ → Text → Text
unfolding strip_prefix
trim_loop pat zero s = s
trim_loop pat (suc fuel) s = elim (strip_prefix pat s) [
  | none ↦ s
  | some rest ↦ trim_loop pat fuel rest
]

unfoldable pub trim_start_matches : Text → Text → Text
unfolding trim_loop
trim_start_matches pat s = trim_loop pat (length s) s

unfoldable pub trim_end_matches : Text → Text → Text
unfolding trim_start_matches
trim_end_matches pat s = reverse (trim_start_matches (reverse pat) (reverse s))

unfoldable pub split_paths : Text → SplitPaths
unfolding trim_end_matches
split_paths stem_path =
    let stem = trim_end_matches (text ".json") stem_path in
    record {
      params = stem ++ text ".params.json";
      public_input = stem ++ text ".public_input.json";
      proof = stem ++ text ".proof.json";
    }

module _ {V : Type 0} where
  -- `ProofStore::new`, where the directory can be made.
  unfoldable pub new_store : Text → List (Text × Text) → ProofStore V
  new_store dir files = record { store_dir = dir; cache = []; files = files }

  unfoldable pub path_for : ProofStore V → Text → Text
  unfolding join
  path_for s id = join s.store_dir (id ++ text ".json")

  -- `cache.insert`.
  unfoldable pub remember : ProofStore V → Text → JsonProofBundle V → ProofStore V
  remember s id b = record s { cache = (id, b) ∷ s.cache }

  unfoldable pub put_file : ProofStore V → Text → Text → ProofStore V
  put_file s path contents = record s { files = (path, contents) ∷ s.files }

  -- Serialisation, then `fs::write`.
  unfoldable pub write_json :
      {A : Type 0} → System V → Json A → ProofStore V → A → Text → ProofStore V × StoreResult Text
  unfolding put_file
  write_json sys j s a path = elim (j.to_string_pretty a) [
    | none ↦ (s, err json)
    | some contents ↦ if sys.writable path then (put_file s path contents, ok path) else (s, err io)
  ]

  -- After a write: the cache, and the call's result.
  unfoldable pub remember_after :
      {A : Type 0}
      → JsonProofBundle V
      → A
      → ProofStore V × StoreResult Text
      → ProofStore V × StoreResult A
  unfolding remember
  remember_after b result (s, ok path) = (remember s b.proof_id b, ok result)
  remember_after b result (s, err e) = (s, err e)

  unfoldable pub save :
      System V → ProofStore V → JsonProofBundle V → ProofStore V × StoreResult Text
  unfolding write_json remember_after path_for
  save sys s b =
      remember_after b b.proof_id (write_json sys sys.bundle_json s b (path_for s b.proof_id))

  unfoldable pub save_to_path :
      System V → ProofStore V → JsonProofBundle V → Text → ProofStore V × StoreResult Text
  unfolding write_json remember_after
  save_to_path sys s b path =
      if sys.makes_parent path
      then remember_after b path (write_json sys sys.bundle_json s b path)
      else (s, err io)

  -- The next write, unless one has failed.
  unfoldable pub write_next :
      {A : Type 0}
      → System V
      → Json A
      → A
      → Text
      → ProofStore V × StoreResult Text
      → ProofStore V × StoreResult Text
  unfolding write_json
  write_next sys j a path (s, ok done) = write_json sys j s a path
  write_next sys j a path (s, err e) = (s, err e)

  unfoldable pub save_split :
      System V → ProofStore V → JsonProofBundle V → Text → ProofStore V × StoreResult SplitPaths
  unfolding split_paths write_json write_next remember_after split_params split_public_input
      split_proof
  save_split sys s b stem_path =
      let paths = split_paths stem_path in
      let first = write_json sys sys.params_json s (split_params b) paths.params in
      let second = write_next sys sys.input_json (split_public_input b) paths.public_input first in
      let third = write_next sys sys.proof_json (split_proof b) paths.proof second in
      if sys.makes_parent stem_path then remember_after b paths third else (s, err io)

  -- The contents of the file for the id, as `get` takes them.
  unfoldable pub get_contents :
      System V → ProofStore V → Text → Option Text → ProofStore V × StoreResult (JsonProofBundle V)
  unfolding remember
  get_contents sys s id none = (s, err (not_found id))
  get_contents sys s id (some contents) = elim (sys.bundle_json.from_str contents) [
    | none ↦ (s, err json)
    | some b ↦ (remember s id b, ok b)
  ]

  unfoldable pub get :
      System V → ProofStore V → Text → ProofStore V × StoreResult (JsonProofBundle V)
  unfolding lookup get_contents path_for
  get sys s id = elim (lookup id s.cache) [
    | some b ↦ (s, ok b)
    | none ↦ get_contents sys s id (lookup (path_for s id) s.files)
  ]

  -- A file, read and parsed.
  unfoldable pub read_json : {A : Type 0} → Json A → ProofStore V → Text → StoreResult A
  unfolding lookup
  read_json j s path = elim (lookup path s.files) [
    | none ↦ err io
    | some contents ↦ elim (j.from_str contents) [ none ↦ err json | some a ↦ ok a ]
  ]

  unfoldable pub load_from_file : System V → ProofStore V → Text → StoreResult (JsonProofBundle V)
  unfolding read_json
  load_from_file sys s path = read_json sys.bundle_json s path

  -- The first of the three results that failed, or the bundle.
  unfoldable pub from_results :
      StoreResult SplitParamsFile
      → StoreResult (SplitPublicInputFile V)
      → StoreResult SplitProofFile
      → StoreResult (JsonProofBundle V)
  unfolding from_split
  from_results (err e) q r = err e
  from_results (ok p) (err e) r = err e
  from_results (ok p) (ok q) (err e) = err e
  from_results (ok p) (ok q) (ok r) = from_split p q r

  unfoldable pub load_from_split :
      System V → ProofStore V → Text → Text → Text → StoreResult (JsonProofBundle V)
  unfolding read_json from_results
  load_from_split sys s params_path input_path proof_path =
      from_results (read_json sys.params_json s params_path) (read_json sys.input_json s input_path)
        (read_json sys.proof_json s proof_path)

  -- `HashMap::len`: a key that was overwritten counts once.
  unfoldable pub cache_size : List (Text × JsonProofBundle V) → ℕ
  unfolding lookup
  cache_size [] = 0
  cache_size ((k, b) ∷ rest) =
      let below = cache_size rest in elim (lookup k rest) [ none ↦ suc below | some old ↦ below ]
