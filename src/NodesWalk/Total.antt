-- ===== src/NodesWalk/Total.antt =====
-- include/dg/NodesWalk.h: with fuel for every node the walk ends, and it has then called its function on
-- each reachable node once.
use llvmdg.Common.{
  ℕ, zero, suc, ◌≡◌, ◌<◌, ◌+◌, refl, sym, ap, subst, ◌∙◌, Bool, true, false, ◌||◌, List, [], ◌∷◌,
  ◌++◌, Option, some, arith, length, length-append,
}
use mathlib.Core.List.{append_assoc, append-nil}
use llvmdg.NodesWalk.{Node, Walk, enqueue, enqueue_new, enqueue_all, walk, run}
use llvmdg.NodesWalk.Pigeons.{mem, IsDistinct, length-distinct}
use llvmdg.NodesWalk.Reachable.{Reach, here, step, IsWalk, step-IsWalk}

-- enqueue_all fills the queue with the starting nodes.
enqueue_all-queue : (ns : List Node) (w : Walk) → (enqueue_all ns w).queue ≡ w.queue ++ ns
unfolding enqueue_all enqueue
enqueue_all-queue [] w = sym (append-nil w.queue)
enqueue_all-queue (n ∷ ns) w = enqueue_all-queue ns (enqueue n w) ∙ append_assoc w.queue (n ∷ []) ns

enqueue_all-visited :
    (ns : List Node) (w : Walk) (m : Node)
    → (enqueue_all ns w).visited m ≡ (mem ns m || w.visited m)
unfolding enqueue_all enqueue
enqueue_all-visited [] w m = refl
enqueue_all-visited (n ∷ ns) w m = ground (arith, enqueue_all-visited ns (enqueue n w) m)

module _ (edges : Node → List Node) (start : List Node) where
  -- What a walk that ends has visited
  pub record IsComplete (r : Option (List Node)) : Type 0 where
    pub result : List Node
    pub returns : r ≡ some result
    pub distinct : IsDistinct result
    pub reached : (m : Node) → mem result m ≡ true → Reach edges start m
    pub complete : (m : Node) → Reach edges start m → mem result m ≡ true

  -- A list that holds the starting nodes and the successors of its nodes holds the reachable nodes.
  closed-Reach :
      (xs : List Node)
      → ((m : Node) → mem start m ≡ true → mem xs m ≡ true)
      → ((m k : Node) → mem xs m ≡ true → mem (edges m) k ≡ true → mem xs k ≡ true)
      → (m : Node) → Reach edges start m
      → mem xs m ≡ true
  closed-Reach xs f g m (here h) = f m h
  closed-Reach xs f g m (step {n} r h) = g n m (closed-Reach xs f g n r) h

  module _ (universe : List Node)
      (bounded : (m : Node) → Reach edges start m → mem universe m ≡ true) where
    walk-IsComplete :
        (fuel : ℕ) (queue : List Node) (visited : Node → Bool) (out : List Node)
        → IsWalk edges start (record { queue = queue; visited = visited }) out
        → length universe < fuel + length out
        → IsComplete (walk edges fuel (record { queue = queue; visited = visited }) out)
    unfolding walk
    walk-IsComplete zero queue visited out i h = absurd (
        omega (
          arith,
          length-distinct (out ++ queue) universe i.knows.distinct
              (λ m k. bounded m (i.reached m k)),
          length-append out queue,
        ))
    walk-IsComplete (suc fuel) [] visited out i h =
        let e : out ++ [] ≡ out = append-nil out in
        record {
          result = out;
          returns = refl;
          distinct = subst IsDistinct e i.knows.distinct;
          reached = λ m k. i.reached m (cc (k, ap (λ xs. mem xs m) e));
          complete =
              closed-Reach out (λ m k. ap (λ xs. mem xs m) (sym e) ∙ i.starts m k)
                (λ m k a b. ap (λ xs. mem xs k) (sym e) ∙ i.closed m k a b);
        }
    walk-IsComplete (suc fuel) (n ∷ rest) visited out i h =
        walk-IsComplete fuel (next.queue) (next.visited) (out ++ n ∷ [])
          (step-IsWalk edges start n rest out visited i)
          (omega (arith, length-append {0} out (n ∷ []), h))
      where
        next : Walk
        next = enqueue_new (edges n) (record { queue = rest; visited = visited })

    -- On a graph with finitely many reachable nodes a walk from different starting nodes ends, with one
    -- round of fuel for each node and one more. It has then visited the reachable nodes, each once.
    pub run-IsComplete :
        (fuel : ℕ) → IsDistinct start → length universe < fuel → IsComplete (run edges fuel start)
    unfolding run
    run-IsComplete fuel d h =
        walk-IsComplete fuel w.queue w.visited []
          (record {
            knows = record {
              distinct = subst IsDistinct (sym e) d;
              marks = λ m. ground (arith, marked m, ap (λ xs. mem xs m) e);
            };
            starts = λ m k. ap (λ xs. mem xs m) e ∙ k;
            reached = λ m k. here (ap (λ xs. mem xs m) (sym e) ∙ k);
            closed = λ m k a b. absurd (cc a);
          })
          (omega (arith, h))
      where
        w : Walk
        w = enqueue_all start (record { queue = []; visited = λ n. false })

        e : w.queue ≡ start
        e = enqueue_all-queue start (record { queue = []; visited = λ n. false })

        marked : (m : Node) → w.visited m ≡ (mem start m || false)
        marked m = enqueue_all-visited start (record { queue = []; visited = λ n. false }) m
