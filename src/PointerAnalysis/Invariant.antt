-- ===== src/PointerAnalysis/Invariant.antt =====
-- What the pointer analysis keeps: the invariant of its state, the order in which states grow, and
-- what a command makes of a state.
use llvmdg.Common.{◌≡◌, refl, Bool, true, false, ◌||◌, ◌==◌, Option, none, some, All}
use llvmdg.Offset.{Offset}
use llvmdg.PointsTo.{Node}
use llvmdg.PointsTo.Spec.{Pointers, may}
use llvmdg.PointsTo.Sets.{PointsToSets}
use llvmdg.PointerAnalysis.{Setting, has_type, alloc, constant, function}
use llvmdg.PointerAnalysis.Machine.{State, MemoryObject}
use llvmdg.PointerAnalysis.Memory.{stored}
use llvmdg.PointerAnalysis.Process.{points_to_self, points_to_one}

module _ (I : PointsToSets) where
  -- The pointers that a node points to
  abbrev pub points : State I → Node → Pointers
  points s n = I.points_to (s.points_to n)

  -- The set at an offset of a node's memory object, and the pointers in it
  abbrev pub held : Option (MemoryObject I) → Offset → I.Set
  held none o = I.nothing
  held (some mo) o = stored I o mo

  abbrev pub content : State I → Node → Offset → Pointers
  content s n o = I.points_to (held (s.memory n) o)

  abbrev pub is_some : Option (MemoryObject I) → Bool
  is_some none = false
  is_some (some mo) = true

  abbrev pub has_object : State I → Node → Bool
  has_object s n = is_some (s.memory n)

  -- A later state of the analysis: nothing that may be pointed to is lost.
  pub record Grows (s s' : State I) : Type 0 where
    pub nodes :
        (n u : Node) (q : Offset) → may (points s n) u q ≡ true → may (points s' n) u q ≡ true
    pub objects :
        (n : Node) (o : Offset) (u : Node) (q : Offset)
        → may (content s n o) u q ≡ true
        → may (content s' n o) u q ≡ true
    pub created : (n : Node) → has_object s n ≡ true → has_object s' n ≡ true
    pub zeroed : (n : Node) → s.zero_initialized n ≡ true → s'.zero_initialized n ≡ true

  -- The same pointers everywhere
  pub record IsSame (s s' : State I) : Type 0 where
    pub nodes : (n u : Node) (q : Offset) → points s' n u q ≡ points s n u q
    pub objects :
        (n : Node) (o : Offset) (u : Node) (q : Offset) → content s' n o u q ≡ content s n o u q

  pub Grows-refl : (s : State I) → Grows s s
  Grows-refl s = record {
    nodes = λ n u q h. h;
    objects = λ n o u q h. h;
    created = λ n h. h;
    zeroed = λ n h. h;
  }

  pub Grows-trans : {r s t : State I} → Grows r s → Grows s t → Grows r t
  Grows-trans f g = record {
    nodes = λ n u q h. g.nodes n u q (f.nodes n u q h);
    objects = λ n o u q h. g.objects n o u q (f.objects n o u q h);
    created = λ n h. g.created n (f.created n h);
    zeroed = λ n h. g.zeroed n (f.zeroed n h);
  }

  pub IsSame-refl : (s : State I) → IsSame s s
  IsSame-refl s = record { nodes = λ n u q. refl; objects = λ n o u q. refl }

  pub IsSame-trans : {r s t : State I} → IsSame r s → IsSame s t → IsSame r t
  IsSame-trans f g = record {
    nodes = λ n u q. cc (f.nodes n u q, g.nodes n u q);
    objects = λ n o u q. cc (f.objects n o u q, g.objects n o u q);
  }

  -- What holds of a state holds of the later ones.
  abbrev pub IsStable : (State I → Type 0) → Type 0
  IsStable Q = (s s' : State I) → Grows s s' → Q s → Q s'

module _ (I : PointsToSets) (c : Setting) where
  -- The nodes that a pointer's target can be: the special nodes, allocations and functions
  abbrev pub is_target : Node → Bool
  is_target u =
      (u == c.special.null || (u == c.special.unknown_memory || u == c.special.invalidated))
      || (has_type c alloc u || has_type c function u)

  -- The nodes whose points-to set never changes
  abbrev pub is_fixed : Node → Bool
  is_fixed n = has_type c constant n || (has_type c alloc n || has_type c function n)

  pub record IsSoundSet (x : I.Set) : Type 0 where
    pub valid : I.Valid x
    pub targets : (u : Node) (q : Offset) → I.points_to x u q ≡ true → is_target u ≡ true

  pub record IsSound (s : State I) : Type 0 where
    pub sets : (n : Node) → IsSoundSet (s.points_to n)
    pub objects :
        (n : Node) (mo : MemoryObject I) → s.memory n ≡ some mo → All (λ e. IsSoundSet e.1) mo
    pub one : (n : Node) → is_fixed n ≡ true → points_to_one I c n s ≡ true
    pub self :
        (n : Node)
        → (has_type c alloc n || has_type c function n) ≡ true
        → points_to_self I c n s ≡ true

  -- What a command makes of a state: it returns, keeps the invariant, loses no pointer, reports a
  -- change if there is one, and reaches a state where Q holds.
  pub record Ran (s : State I) (Q : State I → Type 0) (r : Option (Bool × State I)) : Type 0 where
    pub result : Bool × State I
    pub returns : r ≡ some result
    pub sound : IsSound result.1
    pub grows : Grows I s result.1
    pub unchanged : result.0 ≡ false → IsSame I s result.1
    pub post : Q result.1
