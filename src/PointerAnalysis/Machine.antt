-- ===== src/PointerAnalysis/Machine.antt =====
-- The state of the pointer analysis (lib/PointerAnalysis/PointerAnalysis.cpp), and the commands on it:
-- a command returns its result and the new state, or none where an assertion of the source fails.
use llvmdg.Common.{
  ◌≡◌, ap, ℕ, Bool, false, ◌||◌, ◌==◌, if◌then◌else◌, List, [], ◌∷◌, Option, none, some,
}
use llvmdg.Offset.{Offset}
use llvmdg.PointsTo.{Node}
use llvmdg.PointsTo.Sets.{PointsToSets}

-- MemoryObject: the pointers stored at each offset, as an ordered map
abbrev pub MemoryObject : PointsToSets → Type 0
MemoryObject I = List (Offset × I.Set)

-- What the analysis changes: each node's points-to set, memory object (its analysis data, which is
-- null at first), the flag zeroInitialized and the subgraph that it belongs to.
pub record State (I : PointsToSets) : Type 0 where
  pub points_to : Node → I.Set
  pub memory : Node → Option (MemoryObject I)
  pub zero_initialized : Node → Bool
  pub parent : Node → ℕ

-- An assignment to a node's field
abbrev pub update {ℓ} : {A : Type ℓ} → (Node → A) → Node → A → Node → A
update f n x m = if n == m then x else f m

module _ (I : PointsToSets) where
  abbrev pub M : Type 0 → Type 0
  M A = State I → Option (A × State I)

module _ {I : PointsToSets} where
  abbrev pub return : {A : Type 0} → A → M I A
  return x s = some (x, s)

  abbrev pub continue : {A B : Type 0} → (A → M I B) → Option (A × State I) → Option (B × State I)
  continue f none = none
  continue f (some (a, s)) = f a s

  infixl 5 ◌>>=◌
  abbrev pub ◌>>=◌ : {A B : Type 0} → M I A → (A → M I B) → M I B
  ◌>>=◌ m f s = continue f (m s)

  -- A failed assertion, and abort()
  abbrev pub fail : {A : Type 0} → M I A
  fail s = none

  abbrev pub when : {A : Type 0} → Bool → M I A → M I A
  when b m = if b then m else fail

  -- changed |= a; changed |= b
  abbrev pub or_else : M I Bool → M I Bool → M I Bool
  or_else a b = a >>= λ x. b >>= λ y. return (x || y)

  -- for (auto& x : xs) changed |= f(x)
  abbrev pub or_each : {A : Type 0} → (A → M I Bool) → List A → M I Bool
  or_each f [] = return false
  or_each f (x ∷ xs) = or_else (f x) (or_each f xs)

  -- A command that follows one that returns
  pub after :
      {A B : Type 0} (f : A → M I B) {o : Option (A × State I)} {r : A × State I}
      → o ≡ some r
      → continue f o ≡ f r.0 r.1
  after f e = ap (continue f) e
