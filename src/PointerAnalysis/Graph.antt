-- ===== src/PointerAnalysis/Graph.antt =====
-- include/dg/PointerAnalysis/PointerGraph.h: the walk of getNodes over a pointer graph.
use llvmdg.Common.{ℕ, Bool, ◌||◌, if◌then◌else◌, List, Option, is_empty}
use llvmdg.NodesWalk
use llvmdg.PointsTo.{Node}
use llvmdg.PointerAnalysis.{Setting, has_type, call, call_funcptr, return}

module _ (c : Setting) where
  -- PSNodeCall::get(n) != nullptr
  abbrev pub is_call : Node → Bool
  is_call n = has_type c call n || has_type c call_funcptr n

  -- The nodes that EdgeChooser dispatches: the callees of a call or the return sites of a return, if it
  -- has some and the walk is interprocedural, and otherwise the successors
  unfoldable pub edges : Bool → Node → List Node
  edges interproc n =
      if interproc
      then if is_call n
        then if is_empty (c.nodes n).callees then (c.nodes n).successors else (c.nodes n).callees
        else if has_type c return n
        then if is_empty (c.nodes n).return_sites
          then (c.nodes n).successors
          else (c.nodes n).return_sites
        else (c.nodes n).successors
      else (c.nodes n).successors

  -- getNodes, with fuel for the walk
  unfoldable pub get_nodes : ℕ → List Node → Bool → Option (List Node)
  get_nodes fuel start interproc = NodesWalk.run (edges interproc) fuel start
