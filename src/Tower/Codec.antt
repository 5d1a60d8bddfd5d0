-- ===== src/Tower/Codec.antt =====
-- Elements as bytes: `to_bytes_le` and `from_bytes_le`.
use mathlib.Core.List.{append-nil}
use stark_stir_service.Common.{
  ℕ, zero, suc, ◌*◌, ◌-◌, ◌++◌, replicate, ◌>>=◌, ◌≡◌, refl, ap, ap₂, ◌∙◌, some, List, [], ◌∷◌, ltb,
  false, length, length-append, take-append, drop-append, to_le_bytes, from_le_bytes,
  length-to_le_bytes, from-to_le_bytes, ltb-false, arith,
}
use stark_stir_service.Tower.{
  GroundField, TowerField, words_bytes, to_bytes_le, read_words, from_bytes_le,
}
use stark_stir_service.Tower.RingLaws.{IsGroundField, IsTowerField}

module _ {F A : Type 0} (t : TowerField F A) (g : GroundField F) (laws : IsGroundField g) where
  length-words_bytes : (cs : List F) → length (words_bytes t g cs) ≡ length cs * 8
  unfolding words_bytes
  length-words_bytes [] = refl
  length-words_bytes (c ∷ cs) = omega (
    arith,
    length-words_bytes cs,
    length-to_le_bytes 8 (g.into_u64 c),
    length-append (to_le_bytes 8 (g.into_u64 c)) (words_bytes t g cs),
  )

  -- A word holds the canonical integer of an element.
  read-word : (c : F) → g.from_u64 (from_le_bytes (to_le_bytes 8 (g.into_u64 c))) ≡ c
  read-word c =
      ap g.from_u64 (from-to_le_bytes 8 (g.into_u64 c) (omega (arith, laws.into_u64-lt c)))
      ∙ laws.from-into_u64 c

  read_words-words_bytes :
      (n : ℕ) (cs : List F) → length cs ≡ n → read_words t g n (words_bytes t g cs) ≡ cs
  unfolding read_words words_bytes
  read_words-words_bytes zero [] h = refl
  read_words-words_bytes zero (c ∷ cs) h = absurd (omega arith)
  read_words-words_bytes (suc n) [] h = absurd (omega arith)
  read_words-words_bytes (suc n) (c ∷ cs) h =
      let word = to_le_bytes 8 (g.into_u64 c) in
      let size = length-to_le_bytes 8 (g.into_u64 c) in
      ap₂ (λ w rest. g.from_u64 (from_le_bytes w) ∷ read_words t g n rest)
        (take-append 8 word (words_bytes t g cs) size)
        (drop-append 8 word (words_bytes t g cs) size)
      ∙ ap₂ (λ x xs. x ∷ xs) (read-word c) (read_words-words_bytes n cs (omega arith))

  -- Over a lawful ground field, in every lawful field of the tower, an element has bytes, and is
  -- read
  -- back from them.
  pub from_bytes_le-to_bytes_le :
      (x : A) → IsTowerField t → (to_bytes_le t g x >>= from_bytes_le t g) ≡ some x
  unfolding from_bytes_le to_bytes_le
  from_bytes_le-to_bytes_le x tower =
      let cs = t.to_fp_components x in
      let size = tower.length-components x in
      let fits : ltb t.degree (length cs) ≡ false = ltb-false _ _ (omega (arith, size)) in
      let full : (t.degree - length cs) * 8 ≡ 0 = omega (arith, size) in
      let whole : words_bytes t g cs ++ replicate ((t.degree - length cs) * 8) 0
          ≡ words_bytes t g cs =
        ap (λ n. words_bytes t g cs ++ replicate n 0) full ∙ append-nil (words_bytes t g cs) in
      let enough : ltb (length (words_bytes t g cs)) (t.degree * 8) ≡ false =
        ltb-false _ _ (omega (arith, length-words_bytes cs, size)) in
      rw (fits, whole, enough, read_words-words_bytes t.degree cs size) (tower.from-to_components x)
