-- ===== src/NodesWalk/Tests.antt =====
-- A walk over a graph with a cycle and a node that is not reachable.
use llvmdg.Common.{◌≡◌, refl, true, ◌==◌, if◌then◌else◌, List, [], ◌∷◌, some, arith}
use llvmdg.NodesWalk.{Node, enqueue_new, enqueue_all, enqueue, walk, run}
use llvmdg.NodesWalk.Pigeons.{mem}
use llvmdg.NodesWalk.Reachable.{Reach, here, step}
use llvmdg.NodesWalk.Total.{IsComplete, run-IsComplete}

-- 0 → 1, 0 → 2, 1 → 2, 2 → 0, 3 → 0
abbrev cycle : Node → List Node
cycle n =
    if n == 0 then 1 ∷ 2 ∷ [] else if n == 1 then 2 ∷ [] else if n == 2 then 0 ∷ [] else 0 ∷ []

walk_order : run cycle 4 (0 ∷ []) ≡ some (0 ∷ 1 ∷ 2 ∷ [])
unfolding run walk enqueue_all enqueue_new enqueue
walk_order = refl

reached_nodes : (m : Node) → Reach cycle (0 ∷ []) m → mem (0 ∷ 1 ∷ 2 ∷ []) m ≡ true
reached_nodes m (here h) = ground arith
reached_nodes m (step {n} r h) = ground (arith, reached_nodes n r)

run-IsComplete_example : IsComplete cycle (0 ∷ []) (run cycle 4 (0 ∷ []))
run-IsComplete_example =
    run-IsComplete cycle (0 ∷ []) (0 ∷ 1 ∷ 2 ∷ []) reached_nodes 4 (refl, tt) (omega arith)
