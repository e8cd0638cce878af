-- ===== src/Lib.antt =====
-- Models of the core of dg, a library of program analyses (pointer analysis, data and control
-- dependence, value relations) for LLVM bitcode, and theorems on its data structures.
--
-- The analyses rest on a few containers. An offset into memory may be unknown (include/dg/Offset.h). A
-- map from disjoint intervals of offsets to sets of definitions
-- (include/dg/ADT/DisjunctiveIntervalMap.h) is what the memory SSA stores the definitions of a block in
-- (include/dg/MemorySSA/Definitions.h). A sparse bit vector (include/dg/ADT/Bitvector.h) carries the
-- number sets (include/dg/ADT/NumberSet.h) and most of the points-to sets
-- (include/dg/PointerAnalysis/PointsToSets) of the pointer analysis; these share one contract. The sets
-- of relations between two values (lib/ValueRelations/Relations.cpp) are what the value relation
-- analysis computes with.
--
-- The pointer analysis (lib/PointerAnalysis/PointerAnalysis.cpp) works on a graph of nodes. Each node
-- has a points-to set, and an allocation has a memory object that maps its offsets to points-to sets. A
-- round processes the nodes of a queue in order and keeps those that changed something; the next queue
-- is what a breadth-first walk (include/dg/NodesWalk.h) reaches from these. The model is a command on a
-- state: the fields of the nodes that the analysis changes are the state (PointerAnalysis/Machine),
-- those that it only reads are a parameter (PointerAnalysis), and the points-to sets are an interface
-- (PointsTo/Sets), which the plain set and the set of offsets per node implement
-- (PointsTo/Sets/Instances).
--
-- Files:
--   Common                shared helpers
--   Std                   std::set and std::map as sorted lists, machine words read bit by bit
--   Offset                include/dg/Offset.h, lib/Offset.cpp
--   IntervalMap           include/dg/ADT/DisjunctiveIntervalMap.h: add, update, addAll
--   IntervalMap/Asserts   the assertions of _add and splitExtBorders
--   IntervalMap/Query     the queries of the same class
--   Bitvector             include/dg/ADT/Bitvector.h
--   Bitvector/Iterator    const_iterator of the same file
--   NumberSet             include/dg/ADT/Bits.h, include/dg/ADT/NumberSet.h
--   PointsTo              include/dg/PointerAnalysis/Pointer.h
--   PointsTo/Spec         the contract of a points-to set, as an interface, and what holds of all of
--                         its implementations
--   PointsTo/Ordered      std::set<Pointer>
--   PointsTo/LookupTable  include/dg/PointerAnalysis/PointsToSets/LookupTable.h
--   PointsTo/PointerIdSet include/dg/PointerAnalysis/PointsToSets/PointerIdPointsToSet.h
--   PointsTo/OffsetsSet   include/dg/PointerAnalysis/PointsToSets/OffsetsSetPointsToSet.h
--   PointsTo/SimpleSet    include/dg/PointerAnalysis/PointsToSets/SimplePointsToSet.h
--   PointsTo/SmallOffsets AlignedSmallOffsetsPointsToSet.h and SmallOffsetsPointsToSet.h in
--                         include/dg/PointerAnalysis/PointsToSets
--   PointsTo/Sets         the operations of a points-to set that the pointer analysis calls, as an
--                         interface, and two implementations
--   NodesWalk             include/dg/NodesWalk.h, include/dg/BFS.h, include/dg/ADT/Queue.h
--   PointerAnalysis       include/dg/PointerAnalysis/PSNode.h, include/dg/SubgraphNode.h, the options
--   PointerAnalysis/Machine, PointerAnalysis/Memory
--                         the state, include/dg/PointerAnalysis/MemoryObject.h, getMemoryObjects of
--                         include/dg/PointerAnalysis/PointerAnalysisFI.h
--   PointerAnalysis/Transfer, PointerAnalysis/Copy, PointerAnalysis/Process
--                         processNode and what it calls, in lib/PointerAnalysis/PointerAnalysis.cpp
--   PointerAnalysis/Graph getNodes of include/dg/PointerAnalysis/PointerGraph.h
--   PointerAnalysis/Run   include/dg/PointerAnalysis/PointerAnalysis.h and run
--   PointerAnalysis/Initial
--                         the sets that the constructors of the nodes make
--   PointerAnalysis/Invariant, PointerAnalysis/Demands, PointerAnalysis/Rules, PointerAnalysis/Loops,
--   PointerAnalysis/Primitives, PointerAnalysis/Objects
--                         what the proofs share: the invariant of the state, what each branch is to do,
--                         and rules for sequences and loops of commands
--   MemorySsa             include/dg/ReadWriteGraph/DefSite.h: a definition site
--   MemorySsa/IntervalsList, MemorySsa/DefSiteSet
--                         include/dg/ADT/IntervalsList.h, and the sets of sites of DefSite.h
--   MemorySsa/DefinitionsMap
--                         include/dg/MemorySSA/DefinitionsMap.h
--   MemorySsa/Definitions include/dg/MemorySSA/Definitions.h, lib/MemorySSA/Definitions.cpp
--   Relations             include/dg/ValueRelations/Relations.h, lib/ValueRelations/Relations.cpp
--   Relations/Compose     compose and getAugmented
--
-- Names are those of the source in lower case with underscores. A method that changes its object returns
-- the new value, with the Boolean result of the method where it has one. A static table that also a
-- query may extend (the numbers of pointers and of nodes) is part of the state of a set. A uint64_t is a
-- natural number; what wraps or saturates is written out. A node of the pointer graph is its address.
-- Where the source aborts, fails an assertion, or does what C++ leaves undefined, the result is `none`,
-- with two exceptions that are read as in a build without assertions. The interval map has its
-- assertions as tests of their own (IntervalMap/Asserts), which hold on proper intervals. The interval
-- list keeps the assertion of the constructor of intervals only, since its check of the whole list does
-- not end in a build with assertions.
--
-- The loops of the containers run over lists, or over the 64 bits of a word, and need no fuel. Three
-- loops take fuel. The walk over a graph needs a round for each node and one more (NodesWalk/Total). The
-- loop of run needs two rounds more than the option maxIterations (PointerAnalysis/Run/Bounded). The
-- loop of unwrapConstants needs one round for a pointer to an allocation, which is all that it is called
-- on (PointerAnalysis/Copy/Objects). Running out of fuel is the result `none`, as a failed assertion is.
--
-- A loop of the pointer analysis over a set or a memory object visits what it held when the loop began;
-- the source iterates over the object itself, which differs if the body adds to it (a node that is its
-- own operand, a copy of memory onto itself), and there the next round sees what was added. The hooks
-- for calls through pointers, forks and joins are those of the base class, which change nothing; those
-- of the LLVM front end extend the graph.
--
-- Not modelled: DisjunctiveIntervalMap::intersection and what calls it (the join of definitions), debug
-- output, hash maps (they are read as ordered ones), the points-to sets SeparateOffsetsPointsToSet and
-- AlignedPointerIdPointsToSet, preprocessGEPs, the flow-sensitive pointer analyses, the building of
-- graphs, the value numbering and the phi nodes of the memory SSA, and the control dependence, value
-- relation and slicing parts.
pub mod Common
pub mod Std
pub mod Offset
pub mod IntervalMap
pub mod Relations
pub mod Bitvector
pub mod NumberSet
pub mod PointsTo
pub mod MemorySsa
pub mod NodesWalk
pub mod PointerAnalysis
