-- ===== src/Tower/Batch.antt =====
-- Montgomery's trick: `batch_inverse` inverts every entry with one inversion.
use mathlib.Core.List.{reverse, reverse-cons, reverse-reverse}
use stark_stir_service.Common.{
  ◌≡◌, refl, sym, ap, ◌∙◌, subst, some, List, [], ◌∷◌, ◌++◌, append-nil, append_assoc, ◌>>=◌,
}
use stark_stir_service.Tower.{Ring, TowerField, prefixes, unwind, invert_product, batch_inverse}
use stark_stir_service.Tower.RingLaws.{IsCommRing, IsTowerField, mul-one}

-- The second list holds the inverses of the first, place by place, and no more.
pub data AreInverses {A : Type 0} (r : Ring A) : List A → List A → Type 0 where
  none_left : AreInverses r [] []
  and_next :
      {x y : A} {xs ys : List A}
      → r.mul x y ≡ r.one
      → AreInverses r xs ys
      → AreInverses r (x ∷ xs) (y ∷ ys)

-- Values and their prefix products, both last first.
data ArePrefixes {A : Type 0} (r : Ring A) : List A → List A → Type 0 where
  first : {v : A} → ArePrefixes r (v ∷ []) (v ∷ [])
  next :
      {v w q : A} {vs qs : List A}
      → ArePrefixes r (w ∷ vs) (q ∷ qs)
      → ArePrefixes r (v ∷ w ∷ vs) (r.mul q v ∷ q ∷ qs)

unfoldable pub product : {A : Type 0} → Ring A → List A → A
product r [] = r.one
product r (x ∷ xs) = r.mul x (product r xs)

module _ {F A : Type 0} (t : TowerField F A) (laws : IsCommRing t.ring) where
  open t use {ring}

  prefixes-ArePrefixes :
      (v q : A) (seen done vs : List A)
      → ArePrefixes ring (v ∷ seen) (q ∷ done)
      → (last : A) × (rest : List A) × (prefixes t (q ∷ done) vs ≡ last ∷ rest)
        × (ArePrefixes ring (reverse vs ++ v ∷ seen) (last ∷ rest))
        × (last ≡ ring.mul q (product ring vs))
  unfolding prefixes product
  prefixes-ArePrefixes v q seen done [] h = (q, done, refl, h, sym (mul-one ⦃r = ring⦄ laws q))
  prefixes-ArePrefixes v q seen done (w ∷ vs) h =
      let (last, rest, made, are, whole) =
        prefixes-ArePrefixes w (ring.mul q w) (v ∷ seen) (q ∷ done) vs (next h) in
      let order : reverse vs ++ w ∷ v ∷ seen ≡ reverse (w ∷ vs) ++ v ∷ seen =
        sym (append_assoc (reverse vs) (w ∷ []) (v ∷ seen))
        ∙ ap (λ l. l ++ v ∷ seen) (sym (reverse-cons w vs)) in
      (
        last,
        rest,
        made,
        subst (λ l. ArePrefixes ring l (last ∷ rest)) order are,
        whole ∙ laws.mul_assoc q w (product ring vs),
      )

  -- Walking back, `inv` stays the inverse of the prefix that is reached.
  unwind-AreInverses :
      (inv p : A) (vs ps done out : List A)
      → ArePrefixes ring vs (p ∷ ps)
      → ring.mul p inv ≡ ring.one
      → AreInverses ring done out
      → AreInverses ring (reverse vs ++ done) (unwind t inv vs (p ∷ ps) out)
  unfolding unwind
  unwind-AreInverses inv p [] ps done out h unit are = elim h [ ]
  unwind-AreInverses inv p (v ∷ []) (q ∷ qs) done out h unit are = elim h [ ]
  unwind-AreInverses inv p (v ∷ w ∷ vs) [] done out h unit are = elim h [ ]
  unwind-AreInverses inv p (v ∷ []) [] done out first unit are = and_next unit are
  unwind-AreInverses inv p (v ∷ w ∷ vs) (q ∷ qs) done out (next h) unit are =
      let here : ring.mul v (ring.mul q inv) ≡ ring.one =
        sym (laws.mul_assoc v q inv) ∙ ap (λ x. ring.mul x inv) (laws.mul_comm v q) ∙ unit in
      let below : ring.mul q (ring.mul inv v) ≡ ring.one =
        ap (ring.mul q) (laws.mul_comm inv v) ∙ sym (laws.mul_assoc q v inv) ∙ unit in
      let order : reverse (w ∷ vs) ++ v ∷ done ≡ reverse (v ∷ w ∷ vs) ++ done =
        sym (append_assoc (reverse (w ∷ vs)) (v ∷ []) done)
        ∙ ap (λ l. l ++ done) (sym (reverse-cons v (w ∷ vs))) in
      subst
        (λ l.
          AreInverses ring l (unwind t (ring.mul inv v) (w ∷ vs) (q ∷ qs) (ring.mul q inv ∷ out)))
        order
        (unwind-AreInverses (ring.mul inv v) q (w ∷ vs) qs (v ∷ done) (ring.mul q inv ∷ out) h below
          (and_next here are))

module _ {F A : Type 0} (t : TowerField F A) (tower : IsTowerField t) where
  -- When the product of the entries has an inverse, `batch_inverse` returns, with the inverse
  -- of every entry in its place.
  pub batch_inverse-AreInverses :
      (xs : List A) (n : A)
      → t.invert (product t.ring xs) ≡ some n
      → (ys : List A) × (batch_inverse t xs ≡ some ys) × (AreInverses t.ring xs ys)
  unfolding batch_inverse prefixes product invert_product
  batch_inverse-AreInverses [] n found = ([], refl, none_left)
  batch_inverse-AreInverses (v ∷ vs) n found =
      let (last, rest, made, are, whole) =
        prefixes-ArePrefixes t tower.comm_ring v v [] [] vs first in
      let rev : reverse (v ∷ vs) ≡ reverse vs ++ v ∷ [] = reverse-cons v vs in
      let inverted : t.invert last ≡ some n = ap t.invert whole ∙ found in
      let unit : t.ring.mul last n ≡ t.ring.one = tower.invert-mul last n inverted in
      let back : reverse (reverse vs ++ v ∷ []) ++ [] ≡ v ∷ vs =
        append-nil _ ∙ ap reverse (sym rev) ∙ reverse-reverse (v ∷ vs) in
      let are_all : AreInverses t.ring (v ∷ vs)
          (unwind t n (reverse vs ++ v ∷ []) (last ∷ rest) []) =
        subst (λ l. AreInverses t.ring l (unwind t n (reverse vs ++ v ∷ []) (last ∷ rest) [])) back
          (unwind-AreInverses t tower.comm_ring n last (reverse vs ++ v ∷ []) rest [] [] are unit
            none_left) in
      (
        unwind t n (reverse (v ∷ vs)) (last ∷ rest) [],
        ap (invert_product t (v ∷ vs)) made
            ∙ ap (λ o. o >>= (λ inv. some (unwind t inv (reverse (v ∷ vs)) (last ∷ rest) [])))
                inverted,
        subst (λ l. AreInverses t.ring (v ∷ vs) (unwind t n l (last ∷ rest) [])) (sym rev) are_all,
      )
