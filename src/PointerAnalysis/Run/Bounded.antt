-- ===== src/PointerAnalysis/Run/Bounded.antt =====
-- lib/PointerAnalysis/PointerAnalysis.cpp: with options.maxIterations the loop of run ends.
use llvmdg.Common.{
  ℕ, suc, ◌+◌, ◌-◌, ◌≡◌, ◌≤◌, ◌<◌, false, if◌then◌else◌, List, [], Option, some, All, is_empty,
  length,
}
use llvmdg.PointsTo.{Node}
use llvmdg.PointsTo.Sets.{PointsToSets}
use llvmdg.PointerAnalysis.{Setting}
use llvmdg.PointerAnalysis.Machine.{State, M, ◌>>=◌, return}
use llvmdg.PointerAnalysis.Run.{iteration, queue_changed, rounds}
use llvmdg.PointerAnalysis.Invariant.{IsSound, Grows}
use llvmdg.PointerAnalysis.Process.Transferred.{Transferred}
use llvmdg.PointerAnalysis.Run.Rounds.{IsGraph}

module _ (I : PointsToSets) (c : Setting) (universe : List Node) (graph : IsGraph c universe)
    (walk_fuel : ℕ) (enough : length universe < walk_fuel)
    (limited : 0 < c.options.max_iterations) where
  -- The rounds of the loop, each of which leaves a queue for the next one: their number, and the state
  -- and the queue before the first and after the last of them
  pub data Follows : ℕ → State I → List Node → State I → List Node → Type 0 where
    stop : {s : State I} {queue : List Node} → Follows 0 s queue s queue
    again :
        {k : ℕ} {s t u : State I} {queue changed next last : List Node}
        → iteration I c queue s ≡ some (changed, t)
        → queue_changed I c walk_fuel changed t ≡ some (next, t)
        → is_empty next ≡ false
        → Follows k t next u last
        → Follows (suc k) s queue u last

  -- How the loop ends within the options: after the rounds that lead to the last queue, a round over
  -- this queue changes nothing and ends in the final state. The final state is sound, no pointer was
  -- lost, and the demands of the last queue are met.
  pub record IsSettled (queue : List Node) (s : State I) (k : ℕ) (final : State I) : Type 0 where
    pub last : List Node
    pub before : State I
    pub rounds_before : ℕ
    pub counted : k ≡ suc rounds_before
    pub path : Follows rounds_before s queue before last
    pub round : iteration I c last before ≡ some ([], final)
    pub lasting : is_empty last ≡ false
    pub sound : IsSound I c final
    pub grows : Grows I s final
    pub met : All (λ n. Transferred I c n final final) last

  -- How the loop ends after n rounds: after at most one round more than the options allow.
  pub record IsEnded (n : ℕ) (queue : List Node) (s : State I) (r : Option (ℕ × State I))
      : Type 0 where
    pub count : ℕ
    pub final : State I
    pub returns : r ≡ some (count, final)
    pub bound : count ≤ c.options.max_iterations + 1
    pub later : n ≤ count
    pub settled : count ≤ c.options.max_iterations → IsSettled queue s (count - n) final

  -- The rest of a round
  refill : ℕ → ℕ → List Node → M I ℕ
  refill fuel n next =
      let rest = rounds I c walk_fuel fuel (n + 1) next in
      if is_empty next then return (n + 1) else rest

  abbrev refilled : ℕ → ℕ → List Node → M I ℕ
  refilled fuel n changed = queue_changed I c walk_fuel changed >>= refill fuel n
