-- ===== src/MemorySsa/DefinitionsMap/Meaning.antt =====
-- include/dg/MemorySSA/DefinitionsMap.h: add and update, on which node defines which byte.
use llvmdg.Common.{
  ◌≡◌, ◌≢◌, refl, sym, ap, subst, ◌∙◌, Bool, true, false, ◌==◌, if◌then◌else◌, [], some, arith,
  Bool-cases, inl, inr, ==_iff,
}
use llvmdg.Std.OrderedMap.{find, assign, find-assign}
use llvmdg.Offset.{Offset}
use llvmdg.IntervalMap
use llvmdg.IntervalMap.{Interval, Mapping, Result, add_or_update}
use llvmdg.IntervalMap.Order.{IsProper, Ordered, has}
use llvmdg.IntervalMap.Store.{after_add}
use llvmdg.IntervalMap.Add.{IsAdded, add_or_update-IsAdded}
use llvmdg.MemorySsa.{RwNode, DefSite, get_interval}
use llvmdg.MemorySsa.DefinitionsMap.{DefinitionsMap, offsets, add, update}

-- The node w defines the byte x of the memory t.
abbrev pub defines : DefinitionsMap → RwNode → Offset → RwNode → Bool
defines d t x w = has (offsets t d) x w

-- What the map keeps: the intervals of each memory are in order, and they are never none.
pub record IsDefinitions (d : DefinitionsMap) : Type 0 where
  pub ordered : (t : RwNode) → Ordered 0 (offsets t d)
  pub inhabited : (t : RwNode) (m : Mapping) → find t d ≡ some m → m ≢ []

pub empty-IsDefinitions : IsDefinitions []
unfolding find
empty-IsDefinitions = record { ordered = λ t. tt; inhabited = λ t m h. absurd (cc h) }

pub offsets-assign :
    (k t : RwNode) (m : Mapping) (d : DefinitionsMap)
    → offsets t (assign k m d) ≡ (if k == t then m else offsets t d)
offsets-assign k t m d = elim (Bool-cases (k == t)) [
  | inl here ↦ rw (find-assign k t m d, here) refl
  | inr there ↦ rw (find-assign k t m d, there) refl
]

-- The intervals of one memory are replaced.
pub assign-IsDefinitions :
    (k : RwNode) (m : Mapping) (d : DefinitionsMap)
    → IsDefinitions d
    → Ordered 0 m
    → m ≢ []
    → IsDefinitions (assign k m d)
assign-IsDefinitions k m d v o n = record {
  ordered = λ t. elim (Bool-cases (k == t)) [
    | inl here ↦ subst (Ordered 0) (sym (offsets-assign k t m d)) (rw here o)
    | inr there ↦ subst (Ordered 0) (sym (offsets-assign k t m d)) (rw there (v.ordered t))
  ];
  inhabited = λ t m' h. elim (Bool-cases (k == t)) [
    | inl here ↦ let e : m ≡ m' = ground (arith, find-assign k t m d) in λ q. n (e ∙ q)
    | inr there ↦ v.inhabited t m' (ground (arith, find-assign k t m d))
  ];
}

-- What adding or updating makes of the map: the node defines the bytes of the site, beside the nodes
-- that defined them or, for an update, in their place; all else is as it was.
pub record IsDefined (up : Bool) (ds : DefSite) (node : RwNode) (d : DefinitionsMap)
    (r : Bool × DefinitionsMap) : Type 0 where
  pub valid : IsDefinitions r.1
  pub meaning :
      (t : RwNode) (x : Offset) (w : RwNode)
      → defines r.1 t x w ≡ (
          if ds.target == t
          then after_add up (get_interval ds) node x w (defines d t x w)
          else defines d t x w)
  pub unchanged :
      r.0 ≡ false → (t : RwNode) (x : Offset) (w : RwNode) → defines r.1 t x w ≡ defines d t x w

assign-IsDefined :
    (up : Bool) (ds : DefSite) (node : RwNode) (d : DefinitionsMap) (r : Result)
    → IsProper (get_interval ds)
    → IsDefinitions d
    → IsAdded up (get_interval ds) node (offsets ds.target d) r
    → IsDefined up ds node d (r.0, assign ds.target r.1 d)
assign-IsDefined up ds node d r p v a = record {
  valid = assign-IsDefinitions ds.target r.1 d v a.ordered stored_somewhere;
  meaning = λ t x w. elim (Bool-cases (ds.target == t)) [
    | inl here ↦
        ap (λ m. has m x w) (offsets-assign ds.target t r.1 d)
        ∙ rw here (
            a.stored x w
            ∙ ap (λ k. after_add up (get_interval ds) node x w (defines d k x w))
                ((==_iff ds.target t).0 here))
    | inr there ↦ ap (λ m. has m x w) (offsets-assign ds.target t r.1 d) ∙ rw there refl
  ];
  unchanged = λ h t x w. elim (Bool-cases (ds.target == t)) [
    | inl here ↦
        ap (λ m. has m x w) (offsets-assign ds.target t r.1 d)
        ∙ rw here (
            ap (λ m. has m x w) (a.unchanged h)
            ∙ ap (λ k. defines d k x w) ((==_iff ds.target t).0 here))
    | inr there ↦ ap (λ m. has m x w) (offsets-assign ds.target t r.1 d) ∙ rw there refl
  ];
}
  where
    stored_somewhere : r.1 ≢ []
    stored_somewhere e =
        let none_here : has r.1 (get_interval ds).start node ≡ false =
          ap (λ m. has m (get_interval ds).start node) e in
        let one_here : has r.1 (get_interval ds).start node ≡ true =
          a.stored (get_interval ds).start node ∙ ground (arith, p.ordered) in
        cc (none_here, one_here)

pub add-IsDefined :
    (ds : DefSite) (node : RwNode) (d : DefinitionsMap)
    → IsProper (get_interval ds)
    → IsDefinitions d
    → IsDefined false ds node d (add ds node d)
unfolding add IntervalMap.add
add-IsDefined ds node d p v =
    assign-IsDefined false ds node d
      (add_or_update false (get_interval ds) node (offsets ds.target d)) p v
      (add_or_update-IsAdded false (get_interval ds) node (offsets ds.target d) p
        (v.ordered ds.target))

pub update-IsDefined :
    (ds : DefSite) (node : RwNode) (d : DefinitionsMap)
    → IsProper (get_interval ds)
    → IsDefinitions d
    → IsDefined true ds node d (update ds node d)
unfolding update IntervalMap.update
update-IsDefined ds node d p v =
    assign-IsDefined true ds node d
      (add_or_update true (get_interval ds) node (offsets ds.target d)) p v
      (add_or_update-IsAdded true (get_interval ds) node (offsets ds.target d) p
        (v.ordered ds.target))
