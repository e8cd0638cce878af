-- ===== src/PointerAnalysis/Run/Rounds.antt =====
-- include/dg/PointerAnalysis/PointerAnalysis.h and lib/PointerAnalysis/PointerAnalysis.cpp: the loop of
-- run ends.
use llvmdg.Common.{
  ℕ, ◌≡◌, ◌<◌, refl, ap, ◌∙◌, true, false, not, ◌&&◌, leb, List, [], ◌∷◌, Option, some, All, arith,
  is_empty, length,
}
use llvmdg.NodesWalk.Pigeons.{mem, IsDistinct, length-distinct}
use llvmdg.NodesWalk.Reachable.{Reach, here, step}
use llvmdg.NodesWalk.Total.{run-IsComplete}
use llvmdg.PointsTo.{Node}
use llvmdg.PointsTo.Sets.{PointsToSets}
use llvmdg.PointerAnalysis.{Setting}
use llvmdg.PointerAnalysis.Machine.{State, M, return, continue, when}
use llvmdg.PointerAnalysis.Graph.{edges, get_nodes}
use llvmdg.PointerAnalysis.Run.{queue_changed, walked}
use llvmdg.PointerAnalysis.Process.Transferred.{IsWellFormed}

module _ (c : Setting) (universe : List Node) where
  -- A finite part of the graph that its edges do not leave, of well-formed nodes
  pub record IsGraph : Type 0 where
    pub closed :
        (n m : Node) → mem universe n ≡ true → mem (edges c true n) m ≡ true → mem universe m ≡ true
    pub formed : (n : Node) → mem universe n ≡ true → IsWellFormed c n

  -- A queue of the analysis: different nodes of the graph
  pub record IsQueue (ns : List Node) : Type 0 where
    pub distinct : IsDistinct ns
    pub nodes : (m : Node) → mem ns m ≡ true → mem universe m ≡ true

  module _ (graph : IsGraph) where
    pub reached-universe :
        (start : List Node)
        → ((m : Node) → mem start m ≡ true → mem universe m ≡ true)
        → (m : Node) → Reach (edges c true) start m
        → mem universe m ≡ true
    reached-universe start f m (here h) = f m h
    reached-universe start f m (step {n} r h) = graph.closed n m (reached-universe start f n r) h

    pub All-formed :
        (ns : List Node)
        → ((m : Node) → mem ns m ≡ true → mem universe m ≡ true)
        → All (λ n. IsWellFormed c n) ns
    All-formed [] f = tt
    All-formed (n ∷ ns) f =
        (graph.formed n (f n (ground arith)), All-formed ns (λ m h. f m (ground (arith, h))))

module _ (I : PointsToSets) (c : Setting) (universe : List Node) (graph : IsGraph c universe) where
  -- What queue_changed makes of the changed nodes: the next queue, which holds them and is empty
  -- exactly if they are none.
  pub record IsRefilled (changed : List Node) (s : State I) (r : Option (List Node × State I))
      : Type 0 where
    pub next : List Node
    pub returns : r ≡ some (next, s)
    pub queue : IsQueue c universe next
    pub empty : is_empty next ≡ is_empty changed

  filled :
      (xs ys : List Node)
      → IsDistinct xs
      → ((m : Node) → mem xs m ≡ true → mem ys m ≡ true)
      → is_empty xs ≡ false
      → (not (is_empty ys) && leb (length xs) (length ys)) ≡ true
  filled [] ys d f h = cc h
  filled (x ∷ xs) [] d f h = absurd (cc (f x (ground arith)))
  filled (x ∷ xs) (y ∷ ys) d f h =
      let l = length-distinct (x ∷ xs) (y ∷ ys) d f in ground (arith, l)

  pub queue_changed-IsRefilled :
      (fuel : ℕ) (changed : List Node) (s : State I)
      → length universe < fuel
      → IsQueue c universe changed
      → IsRefilled changed s (queue_changed I c fuel changed s)
  unfolding queue_changed get_nodes
  queue_changed-IsRefilled fuel [] s h q = record {
    next = [];
    returns = refl;
    queue = q;
    empty = refl;
  }
  queue_changed-IsRefilled fuel (x ∷ xs) s h q =
      let walk =
        run-IsComplete (edges c true) (x ∷ xs) universe
          (reached-universe c universe graph (x ∷ xs) q.nodes) fuel q.distinct h in
      let full = filled (x ∷ xs) walk.result q.distinct (λ m k. walk.complete m (here k)) refl in
      record {
        next = walk.result;
        returns =
            ap (λ r. continue (continued (x ∷ xs)) (walked I c r s)) walk.returns ∙ rw full refl;
        queue = record {
          distinct = walk.distinct;
          nodes = λ m k. reached-universe c universe graph (x ∷ xs) q.nodes m (walk.reached m k);
        };
        empty = ground (arith, full);
      }
    where
      continued : List Node → List Node → M I (List Node)
      continued changed to_process =
          when (not (is_empty to_process) && leb (length changed) (length to_process))
            (return to_process)
