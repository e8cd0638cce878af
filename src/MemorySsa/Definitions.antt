-- ===== src/MemorySsa/Definitions.antt =====
-- include/dg/MemorySSA/Definitions.h and lib/MemorySSA/Definitions.cpp: the definitions of a block.
pub mod Meaning
pub mod Update
use llvmdg.Common.{
  Bool, true, false, not, ◌&&◌, ◌||◌, ◌==◌, List, [], ◌∷◌, ◌++◌, Option, none, some, if◌then◌else◌,
  is_empty,
}
use llvmdg.Std.OrderedSet.{insert_all}
use llvmdg.Offset.{is_unknown}
use llvmdg.IntervalMap.{Interval}
use llvmdg.MemorySsa.{RwNode, DefSite}
use llvmdg.MemorySsa.DefinitionsMap
use llvmdg.MemorySsa.DefinitionsMap.{DefinitionsMap}

-- What the update reads of an RWNode
pub record Annotations : Type 0 where
  pub defs : List DefSite
  pub overwrites : List DefSite

-- Definitions
pub record Definitions : Type 0 where
  pub processed : Bool
  pub definitions : DefinitionsMap
  pub kills : DefinitionsMap
  pub unknown_writes : List RwNode

-- A new Definitions
abbrev pub no_definitions : Definitions
no_definitions = record { processed = false; definitions = []; kills = []; unknown_writes = [] }

-- addUnknownWrite
unfoldable pub add_unknown_write : RwNode → Definitions → Definitions
add_unknown_write n s = record {
  processed = s.processed;
  definitions = s.definitions;
  kills = s.kills;
  unknown_writes = s.unknown_writes ++ n ∷ [];
}

abbrev pub with_definitions : DefinitionsMap → Definitions → Definitions
with_definitions d s = record {
  processed = s.processed;
  definitions = d;
  kills = s.kills;
  unknown_writes = s.unknown_writes;
}

-- setProcessed
unfoldable pub set_processed : Definitions → Definitions
set_processed s = record {
  processed = true;
  definitions = s.definitions;
  kills = s.kills;
  unknown_writes = s.unknown_writes;
}

unfoldable pub or_unknown : List RwNode → List RwNode → List RwNode
or_unknown writes found = if is_empty found then insert_all writes found else found

-- get
unfoldable pub get : DefSite → Definitions → Option (List RwNode)
unfolding or_unknown
get ds s = elim (DefinitionsMap.get ds s.definitions) [
  | none ↦ none
  | some found ↦ some (or_unknown s.unknown_writes found)
]

-- uncovered
unfoldable pub uncovered : DefSite → Definitions → List Interval
uncovered ds s = DefinitionsMap.undefined_intervals ds s.kills

-- The unknown memory and the phi nodes of the graph
module _ (unknown_memory : RwNode) (is_phi : RwNode → Bool) where
  -- The loops of update; none is a failed assertion.
  unfoldable pub define_possible : RwNode → List DefSite → Definitions → Definitions
  define_possible defnode [] s = s
  define_possible defnode (ds ∷ sites) s = define_possible defnode sites (
      if ds.target == unknown_memory
      then add_unknown_write defnode
          (with_definitions (DefinitionsMap.add_all defnode s.definitions).1 s)
      else with_definitions (DefinitionsMap.add ds defnode s.definitions).1 s)

  unfoldable pub overwrite : RwNode → DefSite → Definitions → Definitions
  overwrite defnode ds s = record {
    processed = s.processed;
    definitions = (DefinitionsMap.update ds defnode s.definitions).1;
    kills = (DefinitionsMap.add ds defnode s.kills).1;
    unknown_writes = s.unknown_writes;
  }

  unfoldable pub define_definitive : RwNode → List DefSite → Definitions → Option Definitions
  define_definitive defnode [] s = some s
  define_definitive defnode (ds ∷ sites) s =
      let rest = define_definitive defnode sites (overwrite defnode ds s) in
      if (is_phi defnode || not (is_unknown ds.offset)) && not (ds.target == unknown_memory)
      then rest
      else none

  -- update; the node's own number stands in for a missing defnode.
  abbrev pub defining : RwNode → Option RwNode → RwNode
  defining node none = node
  defining node (some defnode) = defnode

  unfoldable pub update : RwNode → Annotations → Option RwNode → Definitions → Option Definitions
  update node a defnode s =
      define_definitive (defining node defnode) a.overwrites
        (define_possible (defining node defnode) a.defs s)
