-- ===== src/Tests/Protocols.antt =====
-- FRI over the field of three elements: a layer of two positions, whose one fold is the constant
-- that
-- the final polynomial is.
use stark_stir_service.Common.{
  ℕ, zero, suc, ◌*◌, ◌%◌, ◌<◌, ◌≡◌, refl, Bool, true, false, Option, some, List, [], ◌∷◌, ◌==◌,
  ◌++◌, subst, if◌then◌else◌, get_elem?, map, replicate, map_all, checked_div, from_le_bytes, text,
  arith, ◌>>=◌,
}
use stark_stir_service.Merkle.{
  MerkleChannelCfg, MerkleOpening, MerkleTreeChannel, new_tree, push_leaves_parallel, finalize,
  open_tree, verify_opening, compute_leaf_hash,
}
use stark_stir_service.Tower.{ground_tower}
use stark_stir_service.Tower.Power.{power}
use stark_stir_service.Transcript
use stark_stir_service.Transcript.{FsHash, HashBackend, hasher, FsTranscript}
use stark_stir_service.Fri.{
  Platform, ext_pow, safe_field_challenge, field_to_le_bytes, tr_hash_fields_tagged,
}
use stark_stir_service.Fri.Power.{ext_pow-power}
use stark_stir_service.Fri.Challenge.{numeral, IsBytes, safe_field_challenge-numeral}
use stark_stir_service.Fri.Sizes.{layer_cfg, query_position}
use stark_stir_service.Fri.Sizes.Trees.{layer_cfg-commit-open}
use stark_stir_service.Fri.Sizes.Positions.{query_position-lt}
use stark_stir_service.Fri.Layers.{fri_sample_z_ell, eval_final_poly_ext}
use stark_stir_service.Fri.Layers.Folding.{compute_s_layer_from_coeffs-next}
use stark_stir_service.Fri.Layers.Sampling.{ComparesEqual, Sampled, fri_sample_z_ell-Sampled}
use stark_stir_service.Fri.Interpolate.{interpolation_fold_ext, compute_s_layer_from_coeffs}
use stark_stir_service.Fri.Interpolate.Values.{interpolation_fold_ext-values}
use stark_stir_service.Fri.Rounds.{fri_fold_degree2}
use stark_stir_service.Fri.Rounds.Degrees.{fri_fold_degree2-even-odd}
use stark_stir_service.Tests.Commitments.{checksum}
use stark_stir_service.Tests.Transcripts.{steady}
use stark_stir_service.Tests.Trits.{
  Trit, nil, unit, double, trits, trit_inverse, trit_field, trit_field-IsGroundField,
  trit_field-IsFromU64, trit_tower, trit_tower-IsTowerField, trit_tower-IsEmbedding,
}

unfoldable pub trit_eq : Trit → Trit → Bool
trit_eq nil nil = true
trit_eq nil unit = false
trit_eq nil double = false
trit_eq unit nil = false
trit_eq unit unit = true
trit_eq unit double = false
trit_eq double nil = false
trit_eq double unit = false
trit_eq double double = true

unfoldable pub trit_pow : Trit → ℕ → Trit
unfolding power trits
trit_pow x n = power trits x n

-- The transform of one or two values.
unfoldable pub transform : ℕ → List Trit → List Trit
unfolding trits
transform n [] = []
transform n (a ∷ []) = a ∷ []
transform n (a ∷ b ∷ rest) =
    trits.mul double (trits.add a b) ∷ trits.mul double (trits.sub a b) ∷ []

abbrev pub generator : ℕ → Option Trit
generator n = some (if n == 2 then double else unit)

abbrev toy : Platform Trit Trit
toy = record {
  ground = trit_field;
  tower = trit_tower;
  eq_ground = trit_eq;
  eq = trit_eq;
  pow = trit_pow;
  group_gen = generator;
  ifft = transform;
  draw = λ seed k. 5;
  hashers = steady;
}

ext_pow-power_example : ext_pow toy double 13 ≡ power trit_tower.ring double 13
ext_pow-power_example = ext_pow-power toy trit_tower-IsTowerField double 13 (omega arith)

abbrev log : FsTranscript Trit
log = record { backend = hasher HashBackend.sha3_256 (text "log"); hash = FsHash.sha3_256 }

abbrev digest : List ℕ
digest = replicate 32 0

answers : Transcript.challenge_bytes trit_field steady log (text "c") ≡ some (digest, log)
unfolding Transcript.challenge_bytes
answers = refl

IsBytes-replicate : (n b : ℕ) → b < 256 → IsBytes (replicate n b)
IsBytes-replicate zero b h = tt
IsBytes-replicate (suc n) b h = (h, IsBytes-replicate n b h)

safe_field_challenge-numeral_example :
    safe_field_challenge toy log (text "c")
    ≡ some (numeral trit_field.ring (from_le_bytes digest), log)
safe_field_challenge-numeral_example =
    safe_field_challenge-numeral toy trit_field-IsGroundField.comm_ring trit_field-IsFromU64 log log
      (text "c") digest answers (IsBytes-replicate 32 0 (omega arith))

abbrev rows : List (List ℕ)
rows = (1 ∷ 2 ∷ []) ∷ (3 ∷ []) ∷ (4 ∷ []) ∷ (5 ∷ 6 ∷ []) ∷ (7 ∷ []) ∷ []

layer_cfg-commit-open_example :
    (cfg : MerkleChannelCfg) × (root : ℕ) × (tree : MerkleTreeChannel ℕ) × (opening : MerkleOpening
      ℕ)
    × (layer_cfg 5 16 3 ≡ some cfg)
    × ((push_leaves_parallel (new_tree cfg) rows >>= finalize) ≡ some (root, tree))
    × (open_tree tree 4 ≡ some opening)
    × (verify_opening cfg root opening ≡ some true)
    × (compute_leaf_hash cfg 4 (7 ∷ []) ≡ some opening.leaf)
layer_cfg-commit-open_example = layer_cfg-commit-open rows 16 3 4 (7 ∷ []) refl

query_position-lt_example : (i : ℕ) × (query_position toy unit 12 1 ≡ some i) × (i < 12)
query_position-lt_example = query_position-lt toy unit 12 1 (omega arith) (omega arith)

half : trit_inverse (numeral trits 2) ≡ some double
unfolding trit_inverse numeral trits
half = refl

own : trit_inverse double ≡ some double
unfolding trit_inverse
own = refl

fri_fold_degree2-even-odd_example :
    fri_fold_degree2 toy
      (trit_tower.ring.add unit (trit_tower.ring.mul (trit_tower.from_fp double) double))
      (trit_tower.ring.sub unit (trit_tower.ring.mul (trit_tower.from_fp double) double))
      double
      double
    ≡ some (trit_tower.ring.add unit (trit_tower.ring.mul double double))
fri_fold_degree2-even-odd_example =
    fri_fold_degree2-even-odd toy trit_tower-IsTowerField trit_field-IsGroundField
      trit_tower-IsEmbedding trit_field-IsFromU64 unit double double double double double half own

-- Three cosets of two positions.
abbrev tuples : List (List Trit)
tuples = (unit ∷ double ∷ []) ∷ (unit ∷ unit ∷ []) ∷ (double ∷ nil ∷ []) ∷ []

folded : interpolation_fold_ext toy tuples double ≡ some (double ∷ nil ∷ double ∷ [])
unfolding interpolation_fold_ext ground_tower trits map_all
folded = refl

spread_out :
    compute_s_layer_from_coeffs toy tuples double (2 * 3) 2
    ≡ some (double ∷ nil ∷ double ∷ double ∷ nil ∷ double ∷ [])
unfolding compute_s_layer_from_coeffs ground_tower trits map_all checked_div
spread_out = refl

compute_s_layer_from_coeffs-next_example :
    get_elem? (double ∷ nil ∷ double ∷ double ∷ nil ∷ double ∷ []) 4
    ≡ get_elem? (double ∷ nil ∷ double ∷ []) (4 % 3)
compute_s_layer_from_coeffs-next_example =
    compute_s_layer_from_coeffs-next toy tuples double 3 2 4
      (double ∷ nil ∷ double ∷ double ∷ nil ∷ double ∷ []) (double ∷ nil ∷ double ∷ [])
      (omega arith) folded spread_out (omega arith)

trit_eq_refl : (a : Trit) → trit_eq a a ≡ true
unfolding trit_eq
trit_eq_refl nil = refl
trit_eq_refl unit = refl
trit_eq_refl double = refl

pub trit_eq_sound : (a b : Trit) → trit_eq a b ≡ true → a ≡ b
unfolding trit_eq
trit_eq_sound nil nil h = refl
trit_eq_sound nil unit h = cc
trit_eq_sound nil double h = cc
trit_eq_sound unit nil h = cc
trit_eq_sound unit unit h = refl
trit_eq_sound unit double h = cc
trit_eq_sound double nil h = cc
trit_eq_sound double unit h = cc
trit_eq_sound double double h = refl

toy-ComparesEqual : ComparesEqual toy
unfolding ComparesEqual
toy-ComparesEqual =
    λ a b. (trit_eq_sound a b, λ e. subst (λ c. trit_eq a c ≡ true) e (trit_eq_refl a))

fri_sample_z_ell-Sampled_example :
    (fused z : Trit) × (tr_hash_fields_tagged toy
        (text "FRI/z/l")
        (numeral trits 1 ∷ numeral trits 2 ∷ numeral trits 1 ∷ [])
      ≡ some fused)
    × (fri_sample_z_ell toy 1 2 1 ≡ some z)
    × Sampled toy (field_to_le_bytes toy fused ++ replicate 24 0) 1 (numeral trits 10) 1000 0 z
fri_sample_z_ell-Sampled_example = fri_sample_z_ell-Sampled toy 1 2 1 toy-ComparesEqual

interpolation_fold_ext-values_example :
    interpolation_fold_ext toy tuples unit
    ≡ some (map (λ coeffs. eval_final_poly_ext toy coeffs unit) tuples)
interpolation_fold_ext-values_example =
    interpolation_fold_ext-values toy trit_tower-IsTowerField (unit ∷ double ∷ [])
      ((unit ∷ unit ∷ []) ∷ (double ∷ nil ∷ []) ∷ []) unit (refl, (refl, tt))
