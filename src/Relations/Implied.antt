-- ===== src/Relations/Implied.antt =====
-- addImplied, invert and get: what they add, and what they lose.
use llvmdg.Common.{
  ℕ, ◌≡◌, ◌↔◌, refl, ap, ◌∙◌, fun_ext, any, true, false, ◌||◌, ◌&&◌, arith, none, some, List, [],
  ◌∷◌, ◌==◌, if◌then◌else◌,
}
use llvmdg.Relations.{
  RelationType, eq, ne, sle, slt, ule, ult, sge, sgt, uge, ugt, index, Relations, has, set,
  no_relations, all, inverted, invert, invert_from, add_implied, get, any_set,
}
use llvmdg.Relations.Meaning.{key, AllHold, imply_sound}

-- addImplied keeps the relations that are there, and a second call adds nothing.
pub add_implied_closure :
    (r : Relations) (t : RelationType)
    → (has r t ≡ true → has (add_implied r) t ≡ true)
      × (has (add_implied (add_implied r)) t ≡ has (add_implied r) t)
unfolding add_implied
add_implied_closure r eq = (λ h. ground arith, ground arith)
add_implied_closure r t = (λ h. ground arith, ground arith)

module _ (b : ℕ) (Points : ℕ → ℕ → Type 0) where
  -- What addImplied adds holds of all values of which the given relations hold.
  pub add_implied_sound :
      (r : Relations) (x y : ℕ) → AllHold b Points r x y → AllHold b Points (add_implied r) x y
  unfolding add_implied
  add_implied_sound r x y h =
      let at_eq =
        imply_sound b Points x y eq (sle ∷ ule ∷ sge ∷ uge ∷ []) r
          (λ e. omega (arith, ap (key b) e)) h in
      let at_slt =
        imply_sound b Points x y slt (sle ∷ ne ∷ []) _
          (λ l. (omega arith, (λ e. omega (arith, ap (key b) e), tt))) at_eq in
      let at_ult = imply_sound b Points x y ult (ule ∷ ne ∷ []) _ (λ l. omega arith) at_slt in
      let at_sgt =
        imply_sound b Points x y sgt (sge ∷ ne ∷ []) _
          (λ l. (omega arith, (λ e. omega (arith, ap (key b) e), tt))) at_ult in
      imply_sound b Points x y ugt (uge ∷ ne ∷ []) _ (λ l. omega arith) at_sgt

invert_from-has :
    (r : Relations) (ts : List RelationType) (bits : Relations) (u : RelationType)
    → has (invert_from r ts bits) u
      ≡ (bits u || any (λ t. index (inverted t) == index u && has r t) ts)
invert_from-has r [] bits u = ground arith
invert_from-has r (t ∷ ts) bits u =
    ground (arith, invert_from-has r ts (if has r t then set (inverted t) true bits else bits) u)

-- invert keeps exactly the inverses of the relations of the set.
pub invert-has : (r : Relations) (t : RelationType) → has (invert r) t ≡ has r (inverted t)
unfolding invert
invert-has r eq = invert_from-has r all no_relations eq ∙ ground arith
invert-has r t = invert_from-has r all no_relations t ∙ ground arith

inverted-inverted : (t : RelationType) → inverted (inverted t) ≡ t
unfolding inverted
inverted-inverted eq = refl
inverted-inverted t = refl

-- Inverting twice changes nothing.
pub invert-invert : (r : Relations) → invert (invert r) ≡ r
invert-invert r =
    fun_ext λ t. invert-has (invert r) t ∙ (invert-has r (inverted t) ∙ ap r (inverted-inverted t))

-- get returns a relation of the set, and aborts on the empty set only.
pub get-has :
    (r : Relations)
    → ((t : RelationType) → get r ≡ some t → has r t ≡ true)
      × ((get r ≡ none) ↔ (any_set r ≡ false))
unfolding get
get-has r = (λ t h. ground arith, (λ h. ground arith, λ h. ground arith))
