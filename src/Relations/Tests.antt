-- ===== src/Relations/Tests.antt =====
-- The relations at concrete sets and values of four bits.
use llvmdg.Common.{ℕ, ◌≡◌, ◌↔◌, refl, Bool, true, false, arith, Option, none, some, List, [], ◌∷◌}
use llvmdg.Relations.{
  eq, ne, sle, slt, ule, ult, sge, pt, Relations, has, of_list, inverted, conflicting,
  conflicts_with, add_implied, get, get_strict, is_signed,
}
use llvmdg.Relations.Meaning.{key, Holds, AllHold, inverted-Holds, conflicting_sound}
use llvmdg.Relations.Implied.{add_implied_sound}
use llvmdg.Relations.Compose.{compose, compose_rows}
use llvmdg.Relations.Compose.Sound.{compose_sound}

-- 12 is the pattern of -4.
minus_four-lt : Holds 3 (λ x y. ⊥) slt 12 3
unfolding key
minus_four-lt = omega arith

conflicts_eq : conflicts_with (of_list (sle ∷ ult ∷ [])) eq ≡ true
unfolding conflicts_with
conflicts_eq = refl

get_strongest : get (of_list (ne ∷ sle ∷ slt ∷ [])) ≡ some slt
unfolding get
get_strongest = refl

get_nothing : get (of_list []) ≡ none
unfolding get
get_nothing = refl

is_signed_abort : is_signed pt ≡ none
unfolding is_signed
is_signed_abort = refl

compose_bits : Option (List Bool)
compose_bits = elim (compose (of_list (sle ∷ ne ∷ [])) (of_list (slt ∷ []))) [
  | none ↦ none
  | some r ↦ some (has r sle ∷ has r slt ∷ has r ne ∷ has r ule ∷ has r eq ∷ [])
]

compose_strict : compose_bits ≡ some (true ∷ true ∷ true ∷ false ∷ false ∷ [])
unfolding compose_bits compose compose_rows add_implied get_strict
compose_strict = refl

abbrev holding : Relations
holding = of_list (ne ∷ slt ∷ [])

holding-AllHold : AllHold 3 (λ x y. ⊥) holding 12 3
unfolding key
holding-AllHold eq h = cc
holding-AllHold ne h = omega arith
holding-AllHold slt h = omega arith
holding-AllHold t h = cc

inverted-Holds_example : Holds 3 (λ x y. ⊥) slt 12 3 ↔ Holds 3 (λ x y. ⊥) (inverted slt) 3 12
inverted-Holds_example = inverted-Holds 3 (λ x y. ⊥) slt 12 3

conflicting_sound_example : ¬ Holds 3 (λ x y. ⊥) sge 12 3
unfolding conflicting
conflicting_sound_example = conflicting_sound 3 (λ x y. ⊥) slt sge 12 3 refl minus_four-lt

add_implied_sound_example : AllHold 3 (λ x y. ⊥) (add_implied holding) 12 3
add_implied_sound_example = add_implied_sound 3 (λ x y. ⊥) holding 12 3 holding-AllHold

compose_sound_example :
    (r : Relations) × (compose holding (of_list (sle ∷ [])) ≡ some r)
    × ((x y z : ℕ)
        → AllHold 3 (λ x y. ⊥) holding x y
        → AllHold 3 (λ x y. ⊥) (of_list (sle ∷ [])) y z
        → AllHold 3 (λ x y. ⊥) r x z)
compose_sound_example = compose_sound 3 (λ x y. ⊥) holding (of_list (sle ∷ []))
