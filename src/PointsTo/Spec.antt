-- ===== src/PointsTo/Spec.antt =====
-- The contract of a points-to set, on the pointers that it holds.
use llvmdg.Common.{
  ◌>>=◌, ◌≡◌, refl, ap, Option, some, Bool, false, not, ◌&&◌, ◌||◌, ◌==◌, if◌then◌else◌, List, [],
  ◌∷◌, arith, Bool-cases, inl, inr,
}
use llvmdg.Offset.{Offset, unknown, is_unknown}
use llvmdg.PointsTo.{Node, Pointer}

-- An abstract points-to set: the pointers that it holds.
abbrev pub Pointers : Type 0
Pointers = Node → Offset → Bool

-- Adding a pointer: one with the unknown offset replaces the others of its target, and none is added
-- beside it.
abbrev pub with_pointer : Node → Offset → Pointers → Pointers
with_pointer t o P u q =
    if t == u && not (P t unknown)
    then if is_unknown o then q == unknown else o == q || P u q
    else P u q

abbrev pub without_pointer : Node → Offset → Pointers → Pointers
without_pointer t o P u q = if t == u && o == q then false else P u q

abbrev pub without_target : Node → Pointers → Pointers
without_target t P u q = if t == u then false else P u q

-- mayPointTo
abbrev pub may : Pointers → Node → Offset → Bool
may P u q = P u q || P u unknown

-- What add makes of a set; `none` is a result that the code does not define.
pub record IsAdded {S : Type 0} (Valid : S → Type 0) (points_to : S → Pointers) (t : Node)
    (o : Offset) (s : S) (r : Option (Bool × S)) : Type 0 where
  pub result : Bool × S
  pub returns : r ≡ some result
  pub valid : Valid result.1
  pub pointers :
      (u : Node) (q : Offset) → points_to result.1 u q ≡ with_pointer t o (points_to s) u q
  pub reports : result.0 ≡ not (may (points_to s) t o)

-- A type of points-to sets with the operation that grows them, and its law.
pub record PointsToSet : Type 1 where
  pub Set : Type 0
  pub Valid : Set → Type 0
  pub points_to : Set → Pointers
  pub add : Node → Offset → Set → Option (Bool × Set)
  pub add-IsAdded :
      (t : Node) (o : Offset) (s : Set) → Valid s → IsAdded Valid points_to t o s (add t o s)

module _ (I : PointsToSet) where
  -- add over a list of pointers
  abbrev pub add_each : List Pointer → I.Set → Option (Bool × I.Set)
  add_each [] s = some (false, s)
  add_each (p ∷ ps) s = do
    first ← I.add p.target p.offset s
    rest ← add_each ps first.1
    some (first.0 || rest.0, rest.1)

  -- Some pointer of a list has the target and the offset, or the target and the unknown offset.
  abbrev pub listed : List Pointer → Node → Offset → Bool
  listed [] u q = false
  listed (p ∷ ps) u q = (p.target == u && (p.offset == q || is_unknown p.offset)) || listed ps u q

  pub added_may :
      (t : Node) (o : Offset) (s : I.Set) (u : Node) (q : Offset)
      → (a : IsAdded I.Valid I.points_to t o s (I.add t o s))
      → may (I.points_to a.result.1) u q
        ≡ (may (I.points_to s) u q || (t == u && (o == q || is_unknown o)))
  added_may t o s u q a = elim (Bool-cases (t == u)) [
    | inl same ↦
        let e : t ≡ u = ground arith in
        ground (arith, a.pointers u q, a.pointers u unknown, ap (λ n. I.points_to s n unknown) e)
    | inr other ↦ ground (arith, a.pointers u q, a.pointers u unknown)
  ]

  -- What add over a list makes of a set.
  pub record IsAddedEach (ps : List Pointer) (s : I.Set) (r : Option (Bool × I.Set)) : Type 0 where
    pub result : Bool × I.Set
    pub returns : r ≡ some result
    pub valid : I.Valid result.1
    pub may_point :
        (u : Node) (q : Offset)
        → may (I.points_to result.1) u q ≡ (may (I.points_to s) u q || listed ps u q)

  -- In every implementation of the contract, adding a list of pointers returns a sound set, which may
  -- point where it did before and where a pointer of the list points, and nowhere else.
  pub add_each-IsAddedEach :
      (ps : List Pointer) (s : I.Set) → I.Valid s → IsAddedEach ps s (add_each ps s)
  add_each-IsAddedEach [] s v = record {
    result = (false, s);
    returns = refl;
    valid = v;
    may_point = λ u q. ground arith;
  }
  add_each-IsAddedEach (p ∷ ps) s v =
      let first = I.add-IsAdded p.target p.offset s v in
      let rest = add_each-IsAddedEach ps first.result.1 first.valid in
      record {
        result = (first.result.0 || rest.result.0, rest.result.1);
        returns = rw (first.returns, rest.returns) refl;
        valid = rest.valid;
        may_point =
            λ u q. ground (arith, rest.may_point u q, added_may p.target p.offset s u q first);
      }
