-- ===== src/Fri/Challenge.antt =====
-- `safe_field_challenge` uses the whole digest: it is the digest as a number, in the field.
use native.Mathlib.Nat.{pow-suc, pow-le-pow_right}
use stark_stir_service.Common.{
  ℕ, zero, suc, ◌+◌, ◌-◌, ◌*◌, ◌/◌, ◌^◌, ◌≤◌, ◌<◌, ◌≡◌, refl, sym, ap, ap₂, ◌∙◌, some, List, [],
  ◌∷◌, ◌++◌, arith, pow-add, length, take, drop, take-append-drop, length-append, length-drop,
  length-take, from_le_bytes,
}
use stark_stir_service.Tower.{Ring, GroundField}
use stark_stir_service.Tower.RingLaws.{IsCommRing, mul-zero}
use stark_stir_service.Transcript
use stark_stir_service.Transcript.{FsTranscript}
use stark_stir_service.Fri.{Platform, accumulate, safe_field_challenge}

-- The image of a number in a ring.
unfoldable pub numeral : {F : Type 0} → Ring F → ℕ → F
numeral r zero = r.zero
numeral r (suc n) = r.add r.one (numeral r n)

abbrev pub IsBytes : List ℕ → Type 0
IsBytes [] = Unit
IsBytes (b ∷ bs) = (b < 256) × IsBytes bs

-- `F::from` of a machine word.
unfoldable pub IsFromU64 : {F : Type 0} → GroundField F → Type 0
IsFromU64 g = (n : ℕ) → n < 2 ^ 64 → g.from_u64 n ≡ numeral g.ring n

module _ {F : Type 0} (r : Ring F) (l : IsCommRing r) where
  numeral-add : (a b : ℕ) → numeral r (a + b) ≡ r.add (numeral r a) (numeral r b)
  unfolding numeral
  numeral-add zero b = let e : 0 + b ≡ b = omega arith in rw e (sym (l.zero-add (numeral r b)))
  numeral-add (suc a) b =
      let e : suc a + b ≡ suc (a + b) = omega arith in
      ap (numeral r) e
      ∙ ap (r.add r.one) (numeral-add a b)
      ∙ sym (l.add_assoc r.one (numeral r a) (numeral r b))

  numeral-mul : (a b : ℕ) → numeral r (a * b) ≡ r.mul (numeral r a) (numeral r b)
  unfolding numeral
  numeral-mul zero b =
      let e : 0 * b ≡ 0 = omega arith in
      rw e (sym (l.mul_comm r.zero (numeral r b) ∙ mul-zero ⦃r = r⦄ l (numeral r b)))
  numeral-mul (suc a) b =
      let e : suc a * b ≡ b + a * b = omega arith in
      ap (numeral r) e
      ∙ numeral-add b (a * b)
      ∙ ap (r.add (numeral r b)) (numeral-mul a b)
      ∙ sym (
          l.mul_comm (r.add r.one (numeral r a)) (numeral r b)
          ∙ l.mul-add (numeral r b) r.one (numeral r a)
          ∙ ap₂ r.add (l.mul_comm (numeral r b) r.one ∙ l.one-mul (numeral r b))
              (l.mul_comm (numeral r b) (numeral r a)))

from_le_bytes-append :
    (xs ys : List ℕ)
    → from_le_bytes (xs ++ ys) ≡ from_le_bytes xs + 256 ^ length xs * from_le_bytes ys
unfolding from_le_bytes
from_le_bytes-append [] ys = omega arith
from_le_bytes-append (x ∷ xs) ys =
    let power : 256 ^ length (x ∷ xs) * from_le_bytes ys
        ≡ 256 ^ length xs * 256 * from_le_bytes ys =
      ap (λ w. w * from_le_bytes ys) (pow-suc 256 (length xs)) in
    omega (arith, from_le_bytes-append xs ys, power)

from_le_bytes-lt : (bs : List ℕ) → IsBytes bs → from_le_bytes bs < 256 ^ length bs
unfolding from_le_bytes
from_le_bytes-lt [] h = omega arith
from_le_bytes-lt (b ∷ bs) (h, hs) =
    omega (arith, h, from_le_bytes-lt bs hs, pow-suc 256 (length bs))

IsBytes-take : (n : ℕ) (bs : List ℕ) → IsBytes bs → IsBytes (take n bs)
IsBytes-take zero bs h = tt
IsBytes-take (suc n) [] h = tt
IsBytes-take (suc n) (b ∷ bs) (h, hs) = (h, IsBytes-take n bs hs)

IsBytes-drop : (n : ℕ) (bs : List ℕ) → IsBytes bs → IsBytes (drop n bs)
IsBytes-drop zero bs h = h
IsBytes-drop (suc n) [] h = tt
IsBytes-drop (suc n) (b ∷ bs) (h, hs) = IsBytes-drop n bs hs

-- The number of a message whose last slice has been read.
joined :
    (v : ℕ) (front chunk : List ℕ)
    → (v * 256 ^ length chunk + from_le_bytes chunk) * 256 ^ length front + from_le_bytes front
      ≡ v * 256 ^ length (front ++ chunk) + from_le_bytes (front ++ chunk)
joined v front chunk =
    let size : 256 ^ length (front ++ chunk) ≡ 256 ^ length front * 256 ^ length chunk =
      ap (λ k. 256 ^ k) (length-append front chunk) ∙ pow-add 256 (length front) (length chunk) in
    let scaled : v * 256 ^ length (front ++ chunk) ≡ v * (256 ^ length front * 256 ^ length chunk) =
      ap (λ w. v * w) size in
    omega (arith, scaled, from_le_bytes-append front chunk)

-- A word of 8 bits per byte.
bits-bytes : (n : ℕ) → 2 ^ (n * 8) ≡ 256 ^ n
bits-bytes zero = refl
bits-bytes (suc n) =
    let e : suc n * 8 ≡ n * 8 + 8 = omega arith in
    ap (λ k. 2 ^ k) e ∙ omega (arith, pow-add 2 (n * 8) 8, bits-bytes n, pow-suc 256 n)

module _ {F E : Type 0} (p : Platform F E) (l : IsCommRing p.ground.ring)
    (words : IsFromU64 p.ground) where
  -- A round shifts the accumulator by the slice that it adds.
  round :
      (v : ℕ) (chunk : List ℕ)
      → IsBytes chunk
      → length chunk ≤ 7
      → p.ground.ring.add
          (p.ground.ring.mul (numeral p.ground.ring v) (p.ground.from_u64 (2 ^ (length chunk * 8))))
          (p.ground.from_u64 (from_le_bytes chunk))
        ≡ numeral p.ground.ring (v * 256 ^ length chunk + from_le_bytes chunk)
  unfolding IsFromU64
  round v chunk whole short =
      let value = from_le_bytes chunk in
      let range : 256 ^ length chunk ≤ 256 ^ 7 = pow-le-pow_right (omega arith) short in
      let shift : p.ground.from_u64 (2 ^ (length chunk * 8))
          ≡ numeral p.ground.ring (256 ^ length chunk) =
        words (2 ^ (length chunk * 8)) (omega (arith, bits-bytes (length chunk), range))
        ∙ ap (numeral p.ground.ring) (bits-bytes (length chunk)) in
      let low : p.ground.from_u64 value ≡ numeral p.ground.ring value =
        words value (omega (arith, from_le_bytes-lt chunk whole, range)) in
      ap₂ p.ground.ring.add
        (ap (p.ground.ring.mul (numeral p.ground.ring v)) shift
          ∙ sym (numeral-mul p.ground.ring l v (256 ^ length chunk)))
        low
      ∙ sym (numeral-add p.ground.ring l (v * 256 ^ length chunk) value)

  -- The rounds, from the last slice to the first.
  accumulate-numeral :
      (n v : ℕ) (bytes : List ℕ)
      → IsBytes bytes
      → length bytes ≤ n * 7
      → accumulate p n (numeral p.ground.ring v) bytes
        ≡ numeral p.ground.ring (v * 256 ^ length bytes + from_le_bytes bytes)
  unfolding accumulate from_le_bytes
  accumulate-numeral zero v [] whole fits = ap (numeral p.ground.ring) (omega arith)
  accumulate-numeral zero v (b ∷ bs) whole fits = absurd (omega arith)
  accumulate-numeral (suc n) v bytes whole fits =
      let cut = length bytes - 7 in
      let front = take cut bytes in
      let chunk = drop cut bytes in
      let whole_chunk = IsBytes-drop cut bytes whole in
      let whole_front = IsBytes-take cut bytes whole in
      let split : front ++ chunk ≡ bytes = take-append-drop cut bytes in
      let short : length chunk ≤ 7 = omega (arith, length-drop cut bytes) in
      let size : length front ≡ cut = omega (arith, length-take cut bytes) in
      ap (λ acc. accumulate p n acc front) (round v chunk whole_chunk short)
      ∙ accumulate-numeral n (v * 256 ^ length chunk + from_le_bytes chunk) front whole_front
          (omega arith)
      ∙ ap (numeral p.ground.ring) (joined v front chunk)
      ∙ ap (λ bs. numeral p.ground.ring (v * 256 ^ length bs + from_le_bytes bs)) split

  -- Where `F::from` is the map from the numbers and the digest is made of bytes, the challenge is
  -- the whole digest as a little-endian number in the field, and the transcript is as after
  -- `challenge_bytes`.
  pub safe_field_challenge-numeral :
      (tr next : FsTranscript F) (label bytes : List ℕ)
      → Transcript.challenge_bytes p.ground p.hashers tr label ≡ some (bytes, next)
      → IsBytes bytes
      → safe_field_challenge p tr label ≡ some (numeral p.ground.ring (from_le_bytes bytes), next)
  unfolding safe_field_challenge numeral
  safe_field_challenge-numeral tr next label bytes made whole = rw made (
      ap (λ f. some (f, next))
        (accumulate-numeral ((length bytes + 6) / 7) 0 bytes whole (omega arith)
          ∙ ap (numeral p.ground.ring) (omega arith)))
