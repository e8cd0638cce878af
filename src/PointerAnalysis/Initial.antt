-- ===== src/PointerAnalysis/Initial.antt =====
-- include/dg/PointerAnalysis/PSNode.h and PointerGraph.h: the points-to sets that the constructors of the
-- nodes and initStaticNodes make.
use llvmdg.Common.{
  ℕ, ◌≡◌, refl, ap, Bool, true, ◌||◌, ◌==◌, if◌then◌else◌, Option, none, some, arith, length,
  get_elem?, Bool-cases, inl, inr, ==_refl,
}
use llvmdg.Offset.{Offset, unknown}
use llvmdg.PointsTo.{Node, Pointer, pointer}
use llvmdg.PointsTo.Sets.{PointsToSets}
use llvmdg.PointerAnalysis.{
  Setting, has_type, alloc, constant, function, null_pointer, unknown_pointer,
}
use llvmdg.PointerAnalysis.Machine.{State}
use llvmdg.PointerAnalysis.Invariant.{is_target, is_fixed, IsSoundSet, IsSound}
use llvmdg.PointerAnalysis.Primitives.{add-IsSoundSet, nothing-IsSoundSet}

module _ (I : PointsToSets) (c : Setting) where
  abbrev pub only : Pointer → I.Set
  only p = (I.add p I.nothing).1

  abbrev pub constant_set : Option Node → Offset → I.Set
  constant_set none o = I.nothing
  constant_set (some op) o = only (pointer op o)

  -- The points-to set of a new node: the constructors of PSNode and PSNodeConstant, and initStaticNodes
  unfoldable pub initial_set : Node → I.Set
  initial_set n =
      if has_type c alloc n || has_type c function n
      then only (pointer n 0)
      else if has_type c constant n
      then constant_set (get_elem? (c.nodes n).operands 0) (c.nodes n).offset
      else if n == c.special.null
      then only (null_pointer c)
      else if n == c.special.unknown_memory
      then only (unknown_pointer c)
      else I.nothing

  -- The state before the analysis, with the flags and the parents that the graph's builder has set
  unfoldable pub initial : (Node → Bool) → (Node → ℕ) → State I
  initial zero_initialized parent = record {
    points_to = initial_set;
    memory = λ n. none;
    zero_initialized = zero_initialized;
    parent = parent;
  }

  only-IsSoundSet : (p : Pointer) → is_target I c p.target ≡ true → IsSoundSet I c (only p)
  only-IsSoundSet p t = add-IsSoundSet I c p I.nothing t (nothing-IsSoundSet I c)

  only_at : (n : Node) → I.points_to (only (pointer n 0)) n 0 ≡ true
  only_at n = ground (
    arith,
    (I.add_law (pointer n 0) I.nothing I.nothing-Valid).pointers n 0,
    I.nothing-points_to n unknown,
    ==_refl n,
  )

  initial_set_self :
      (n : Node)
      → (has_type c alloc n || has_type c function n) ≡ true
      → I.points_to (initial_set n) n 0 ≡ true
  unfolding initial_set
  initial_set_self n h = rw h (only_at n)

  constant_set-IsSoundSet :
      (op : Node) (x : Option Node) (o : Offset)
      → x ≡ some op
      → is_target I c op ≡ true
      → IsSoundSet I c (constant_set x o)
  constant_set-IsSoundSet op none o e t = absurd (cc e)
  constant_set-IsSoundSet op (some m) o e t =
      let same : op ≡ m = cc e in only-IsSoundSet (pointer m o) (cc (ap (is_target I c) same, t))

  module _
      (constants : (n : Node)
        → has_type c constant n ≡ true
        → (op : Node) × (get_elem? (c.nodes n).operands 0 ≡ some op)
          × (is_target I c op ≡ true)) where
    initial_set-IsSoundSet : (n : Node) → IsSoundSet I c (initial_set n)
    unfolding initial_set
    initial_set-IsSoundSet n = elim (Bool-cases (has_type c alloc n || has_type c function n)) [
      | inl self ↦ rw self (only-IsSoundSet (pointer n 0) (ground arith))
      | inr other ↦ elim (Bool-cases (has_type c constant n)) [
        | inl fixed ↦
            let (op, at, t) = constants n fixed in
            rw (other, fixed)
              (constant_set-IsSoundSet op (get_elem? (c.nodes n).operands 0) (c.nodes n).offset at
                t)
        | inr changing ↦ elim (Bool-cases (n == c.special.null)) [
          | inl null ↦
              rw (other, changing, null)
                (only-IsSoundSet (null_pointer c) (ground (arith, ==_refl c.special.null)))
          | inr somewhere ↦ elim (Bool-cases (n == c.special.unknown_memory)) [
            | inl lost ↦
                rw (other, changing, somewhere, lost)
                  (only-IsSoundSet (unknown_pointer c)
                    (ground (arith, ==_refl c.special.unknown_memory)))
            | inr rest ↦ rw (other, changing, somewhere, rest) (nothing-IsSoundSet I c)
          ]
        ]
      ]
    ]

    constant_set-one :
        ((p : Pointer) → length (I.elements (only p)) ≡ 1)
        → (op : Node) (x : Option Node) (o : Offset) → x ≡ some op
        → (length (I.elements (constant_set x o)) == 1) ≡ true
    constant_set-one single op none o e = absurd (cc e)
    constant_set-one single op (some m) o e = rw (single (pointer m o)) refl

    initial_set-one :
        ((p : Pointer) → length (I.elements (only p)) ≡ 1)
        → (n : Node) → is_fixed I c n ≡ true
        → (length (I.elements (initial_set n)) == 1) ≡ true
    unfolding initial_set
    initial_set-one single n h = elim (Bool-cases (has_type c alloc n || has_type c function n)) [
      | inl self ↦ rw (self, single (pointer n 0)) refl
      | inr other ↦
          let fixed : has_type c constant n ≡ true = ground arith in
          let (op, at, t) = constants n fixed in
          rw (other, fixed)
            (constant_set-one single op (get_elem? (c.nodes n).operands 0) (c.nodes n).offset at)
    ]

    -- The state before the analysis is sound, if every constant points to an allocation, a function or
    -- a special node, and a set with one pointer has one element.
    pub initial-IsSound :
        (zero_initialized : Node → Bool) (parent : Node → ℕ)
        → ((p : Pointer) → length (I.elements (only p)) ≡ 1)
        → IsSound I c (initial zero_initialized parent)
    unfolding initial
    initial-IsSound zero_initialized parent single = record {
      sets = initial_set-IsSoundSet;
      objects = λ n mo h. absurd (cc h);
      one = initial_set-one single;
      self = initial_set_self;
    }
