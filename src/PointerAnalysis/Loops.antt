-- ===== src/PointerAnalysis/Loops.antt =====
-- Rules for the loops of the pointer analysis over the pointers of a set, and for its reads.
use llvmdg.Common.{
  ℕ, ◌≡◌, refl, sym, ap, subst, Bool, true, Bool-cases, inl, inr, List, [], ◌∷◌, Option, some, All,
  arith, get_elem?,
}
use llvmdg.Offset.{Offset}
use llvmdg.PointsTo.{Node, Pointer, pointer, pointer_eq}
use llvmdg.PointsTo.Ordered.{member}
use llvmdg.PointsTo.Sets.{PointsToSets}
use llvmdg.PointerAnalysis.{Setting}
use llvmdg.PointerAnalysis.Machine.{State, M, or_each, ◌>>=◌, continue}
use llvmdg.PointerAnalysis.Memory.{operand}
use llvmdg.PointerAnalysis.Invariant.{is_target, Grows, IsSoundSet, IsSound, IsStable, Ran}
use llvmdg.PointerAnalysis.Rules.{Ran-weaken, or_each-Ran}

pointer_eq-eq : (p q : Pointer) → pointer_eq p q ≡ true → p ≡ q
pointer_eq-eq p q h = ground arith

All-of_member :
    (G : Pointer → Type 0) (xs : List Pointer)
    → ((p : Pointer) → member xs p ≡ true → G p)
    → All G xs
unfolding member
All-of_member G [] f = tt
All-of_member G (x ∷ xs) f =
    (f x (ground arith), All-of_member G xs (λ p h. f p (ground (arith, h))))

All-member :
    (G : Pointer → Type 0) (xs : List Pointer) (p : Pointer) → All G xs → member xs p ≡ true → G p
unfolding member
All-member G [] p a h = cc h
All-member G (x ∷ xs) p a h = elim (Bool-cases (pointer_eq x p)) [
  | inl same ↦ subst G (pointer_eq-eq x p same) a.0
  | inr other ↦ All-member G xs p a.1 (ground arith)
]

pub All-Unit : {A : Type 0} (xs : List A) → All (λ x. Unit {0}) xs
All-Unit [] = tt
All-Unit (x ∷ xs) = (tt, All-Unit xs)

pub All-map :
    {A : Type 0} {P Q : A → Type 0} (xs : List A) → ((x : A) → P x → Q x) → All P xs → All Q xs
All-map [] f a = tt
All-map (x ∷ xs) f a = (f x a.0, All-map xs f a.1)

module _ (I : PointsToSets) (c : Setting) where
  -- A loop over the pointers of a sound set
  pub pointers-Ran :
      (s : State I) (f : Pointer → M I Bool) (x : I.Set) (Q : Pointer → State I → Type 0)
      → ((p : Pointer) → IsStable I (Q p))
      → ((p : Pointer) (t : State I)
          → is_target I c p.target ≡ true
          → IsSound I c t
          → Grows I s t
          → Ran I c t (Q p) (f p t))
      → IsSound I c s
      → IsSoundSet I c x
      → Ran I c s
          (λ t. (u : Node) (q : Offset) → I.points_to x u q ≡ true → Q (pointer u q) t)
          (or_each f (I.elements x) s)
  pointers-Ran s f x Q stable step v w =
      Ran-weaken I c
        (or_each-Ran I c s f (I.elements x) Q (λ p. is_target I c p.target ≡ true) stable step v
          (All-of_member (λ p. is_target I c p.target ≡ true) (I.elements x)
            (λ p h.
              w.targets p.target p.offset (cc (I.elements_law x p.target p.offset w.valid, h)))))
        (λ t vt g a u q h.
          All-member (λ p. Q p t) (I.elements x) (pointer u q) a
            (cc (I.elements_law x u q w.valid, h)))

  -- A command that begins with a read
  pub read-Ran :
      {A : Type 0} (s : State I) (f : A → M I Bool) (Q : State I → Type 0)
      {o : Option (A × State I)} {a : A}
      → o ≡ some (a, s)
      → Ran I c s Q (f a s)
      → Ran I c s Q (continue f o)
  read-Ran s f Q e r = subst (Ran I c s Q) (sym (ap (continue f) e)) r

  -- and with the read of an operand
  pub operand-Ran :
      (s : State I) (n : Node) (i : ℕ) (f : Node → M I Bool) (Q : State I → Type 0) {op : Node}
      → get_elem? (c.nodes n).operands i ≡ some op
      → Ran I c s Q (f op s)
      → Ran I c s Q ((operand I c n i >>= f) s)
  operand-Ran s n i f Q e r = read-Ran s f Q (rw (e, operand) refl) r
