-- ===== src/NodesWalk.antt =====
-- include/dg/NodesWalk.h, include/dg/BFS.h and include/dg/ADT/Queue.h: the walk over the nodes of a
-- graph by a queue, on nodes written as numbers.
pub mod Pigeons
pub mod Reachable
pub mod Total
pub mod Tests
use llvmdg.Common.{
  ℕ, zero, suc, Bool, true, false, ◌||◌, ◌==◌, if◌then◌else◌, List, [], ◌∷◌, ◌++◌, Option, none,
  some,
}

abbrev pub Node : Type 0
Node = ℕ

-- QueueFIFO and SetVisitTracker: the nodes that wait, in order, and the test for the visited ones
pub record Walk : Type 0 where
  pub queue : List Node
  pub visited : Node → Bool

-- QueueFIFO::push
abbrev pub push : Node → List Node → List Node
push n q = q ++ n ∷ []

-- SetVisitTracker::visit
abbrev pub visit : Node → (Node → Bool) → Node → Bool
visit n v m = n == m || v m

-- _enqueue
unfoldable pub enqueue : Node → Walk → Walk
enqueue n w = record { queue = push n w.queue; visited = visit n w.visited }

-- The loop of _run over the successors of a node
unfoldable pub enqueue_new : List Node → Walk → Walk
enqueue_new [] w = w
enqueue_new (n ∷ ns) w = enqueue_new ns (if w.visited n then w else enqueue n w)

unfoldable pub enqueue_all : List Node → Walk → Walk
enqueue_all [] w = w
enqueue_all (n ∷ ns) w = enqueue_all ns (enqueue n w)

module _ (edges : Node → List Node) where
  -- _run: the nodes that F is called on, in order, after those of `out`. Each round takes one node from
  -- the queue; none means that the fuel ran out.
  unfoldable pub walk : ℕ → Walk → List Node → Option (List Node)
  walk zero w out = none
  walk (suc fuel) w out = elim w.queue [
    | [] ↦ some out
    | n ∷ rest ↦ walk fuel (enqueue_new (edges n) (record w { queue = rest })) (out ++ n ∷ [])
  ]

  -- run(start, F) on a container of nodes
  unfoldable pub run : ℕ → List Node → Option (List Node)
  run fuel start = walk fuel (enqueue_all start (record { queue = []; visited = λ n. false })) []
