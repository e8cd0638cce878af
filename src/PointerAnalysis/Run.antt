-- ===== src/PointerAnalysis/Run.antt =====
-- include/dg/PointerAnalysis/PointerAnalysis.h and lib/PointerAnalysis/PointerAnalysis.cpp: the rounds
-- of the analysis.
pub mod Steady
pub mod Iteration
pub mod Rounds
pub mod Bounded
use llvmdg.Common.{
  ℕ, zero, suc, ◌+◌, Bool, true, false, not, ◌&&◌, ◌||◌, ◌==◌, ltb, leb, if◌then◌else◌, List, [],
  ◌∷◌, Option, none, some, is_empty, length,
}
use llvmdg.Offset.{unknown}
use llvmdg.PointsTo.{Node}
use llvmdg.PointsTo.Sets.{PointsToSets}
use llvmdg.PointerAnalysis.{Setting, has_type, alloc, constant}
use llvmdg.PointerAnalysis.Machine.{State, update, M, return, ◌>>=◌, fail, when}
use llvmdg.PointerAnalysis.Process.{process_node, points_to_one, points_to_self}
use llvmdg.PointerAnalysis.Graph.{get_nodes}

module _ (I : PointsToSets) (c : Setting) where
  -- The hooks beforeProcessed and afterProcessed, as the base class has them
  abbrev pub before_processed : Node → M I Bool
  before_processed n = return false

  abbrev pub after_processed : Node → M I Bool
  after_processed n = return false

  -- enqueue
  abbrev pub enqueue : Bool → Node → List Node → List Node
  enqueue enq n changed = if enq then n ∷ changed else changed

  -- iteration: the nodes of the queue that change something, in order
  unfoldable pub iteration : List Node → M I (List Node)
  iteration [] = return []
  iteration (n ∷ to_process) = before_processed n >>= λ before. process_node I c n >>= λ processed.
      after_processed n >>= λ behind. iteration to_process >>= λ changed.
      return (enqueue (before || (processed || behind)) n changed)

  -- The nodes of a walk; running out of fuel is a failure.
  abbrev pub walked : Option (List Node) → M I (List Node)
  walked none s = none
  walked (some ns) s = some (ns, s)

  -- queue_changed, with fuel for the walk
  unfoldable pub queue_changed : ℕ → List Node → M I (List Node)
  queue_changed fuel changed =
      if is_empty changed
      then return []
      else (walked (get_nodes c fuel changed true) >>= λ to_process.
          when (not (is_empty to_process) && leb (length changed) (length to_process))
            (return to_process))

  -- setToEmpty
  unfoldable pub set_to_empty : List Node → State I → State I
  set_to_empty [] s = s
  set_to_empty (n ∷ ns) s = set_to_empty ns (
      if has_type c alloc n || has_type c constant n
      then s
      else record s { points_to = update s.points_to n I.nothing })

  -- The test for options.maxIterations before a round
  abbrev pub is_exceeded : ℕ → Bool
  is_exceeded n = ltb 0 c.options.max_iterations && ltb c.options.max_iterations n

  -- The loop of run after n rounds, with fuel for its rounds and for the walks; it returns the number
  -- of rounds.
  unfoldable pub rounds : ℕ → ℕ → ℕ → List Node → M I ℕ
  rounds walk_fuel zero n to_process = fail
  rounds walk_fuel (suc fuel) n to_process =
      let round = iteration to_process >>= λ changed. queue_changed walk_fuel changed >>= λ next.
      let rest = rounds walk_fuel fuel (n + 1) next in
      if is_empty next then return (n + 1) else rest in
      if is_exceeded n then (λ s. some (n, set_to_empty to_process s)) else round

  -- preprocess, as the base class has it
  abbrev pub preprocess : M I Bool
  preprocess = return false

  -- The assertions of sanityCheck on one node
  abbrev pub is_sane : State I → Node → Bool
  is_sane s n = if has_type c alloc n then points_to_one I c n s && points_to_self I c n s else true

  abbrev pub all_sane : State I → List Node → Bool
  all_sane s [] = true
  all_sane s (n ∷ ns) = is_sane s n && all_sane s ns

  -- sanityCheck; nodes are told apart by their address, so that their IDs are not compared.
  unfoldable pub sanity_check : ℕ → Node → M I Bool
  sanity_check walk_fuel root s =
      let null = s.points_to c.special.null in
      let lost = s.points_to c.special.unknown_memory in
      (when (length (I.elements null) == 1 && I.points_to null c.special.null 0) (
          when (length (I.elements lost) == 1 && I.points_to lost c.special.unknown_memory unknown)
            (when (I.empty (s.points_to c.special.invalidated)) (
              walked (get_nodes c walk_fuel (root ∷ []) true) >>= λ nodes.
              when (all_sane s nodes) (return false)))))
        s

  -- run, with the assertion that the global nodes need one round. The result is whether the analysis
  -- ended within the bound on its rounds.
  unfoldable pub run : ℕ → ℕ → List Node → Node → M I Bool
  run walk_fuel fuel globals root = preprocess >>= λ p. sanity_check walk_fuel root >>= λ q.
      iteration globals >>= λ changed. iteration globals >>= λ again. when (is_empty again) (
        walked (get_nodes c walk_fuel (root ∷ []) true) >>= λ to_process.
        rounds walk_fuel fuel 0 to_process >>= λ n. sanity_check walk_fuel root >>= λ r.
        return (if ltb 0 c.options.max_iterations then leb n c.options.max_iterations else true))
