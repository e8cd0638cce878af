-- ===== src/PointsTo/Sets.antt =====
-- The operations of a points-to set that the pointer analysis calls, as an interface: those of the
-- contract in Spec, the union, and the iteration.
pub mod Instances
pub mod Added
use llvmdg.Common.{◌≡◌, subst, Bool, true, false, not, ◌||◌, List, some}
use llvmdg.Offset.{Offset}
use llvmdg.PointsTo.{Node, Pointer, pointer}
use llvmdg.PointsTo.Spec.{Pointers, IsAdded, with_pointer, may}
use llvmdg.PointsTo.Ordered.{member}

-- What add makes of a set, where it cannot fail.
pub record IsAddedTo {S : Type 0} (Valid : S → Type 0) (points_to : S → Pointers) (p : Pointer)
    (s : S) (r : Bool × S) : Type 0 where
  pub valid : Valid r.1
  pub pointers :
      (u : Node) (q : Offset) → points_to r.1 u q ≡ with_pointer p.target p.offset (points_to s) u q
  pub reports : r.0 ≡ not (may (points_to s) p.target p.offset)

pub some-IsAddedTo :
    {S : Type 0} {Valid : S → Type 0} {points_to : S → Pointers} (p : Pointer) (s : S)
    (r : Bool × S)
    → IsAdded Valid points_to p.target p.offset s (some r)
    → IsAddedTo Valid points_to p s r
some-IsAddedTo {Valid = V} {points_to = P} p s r a =
    subst (λ x. IsAddedTo V P p s x) (cc a.returns)
      (record { valid = a.valid; pointers = a.pointers; reports = a.reports })

-- What the union makes of a set.
pub record IsUnited {S : Type 0} (Valid : S → Type 0) (points_to : S → Pointers) (rhs s : S)
    (r : Bool × S) : Type 0 where
  pub valid : Valid r.1
  pub pointers :
      (u : Node) (q : Offset) → points_to r.1 u q ≡ (points_to s u q || points_to rhs u q)
  pub unchanged : r.0 ≡ false → (u : Node) (q : Offset) → points_to r.1 u q ≡ points_to s u q

pub record PointsToSets : Type 1 where
  pub Set : Type 0
  pub Valid : Set → Type 0
  pub points_to : Set → Pointers
  pub nothing : Set
  pub add : Pointer → Set → Bool × Set
  pub add_set : Set → Set → Bool × Set
  pub elements : Set → List Pointer
  pub empty : Set → Bool
  pub nothing-Valid : Valid nothing
  pub nothing-points_to : (u : Node) (q : Offset) → points_to nothing u q ≡ false
  pub add_law : (p : Pointer) (s : Set) → Valid s → IsAddedTo Valid points_to p s (add p s)
  pub add_set_law :
      (rhs s : Set) → Valid rhs → Valid s → IsUnited Valid points_to rhs s (add_set rhs s)
  pub elements_law :
      (s : Set) (u : Node) (q : Offset)
      → Valid s
      → member (elements s) (pointer u q) ≡ points_to s u q
  pub empty_law : (s : Set) (u : Node) (q : Offset) → empty s ≡ true → points_to s u q ≡ false
