-- ===== src/NodesWalk/Reachable.antt =====
-- include/dg/NodesWalk.h: a walk visits exactly the reachable nodes, each of them once.
use llvmdg.Common.{
  ◌≡◌, refl, sym, ap, subst, ◌∙◌, Bool, true, false, ◌||◌, ◌==◌, List, [], ◌∷◌, ◌++◌, arith,
  Bool-cases, inl, inr, any-append, ==_refl, ==_iff,
}
use mathlib.Core.List.{append_assoc}
use llvmdg.NodesWalk.{Node, Walk, enqueue, enqueue_new}
use llvmdg.NodesWalk.Pigeons.{mem, IsDistinct}

-- The nodes that edges lead to from the starting ones
pub data Reach (edges : Node → List Node) (start : List Node) : Node → Type 0 where
  here : {n : Node} → mem start n ≡ true → Reach edges start n
  step : {n m : Node} → Reach edges start n → mem (edges n) m ≡ true → Reach edges start m

IsDistinct-push :
    (n : Node) (xs : List Node) → mem xs n ≡ false → IsDistinct xs → IsDistinct (xs ++ n ∷ [])
IsDistinct-push n [] h d = (refl, tt)
IsDistinct-push n (x ∷ xs) h d =
    (ground (arith, any-append (λ y. y == x) xs (n ∷ [])), IsDistinct-push n xs (ground arith) d.1)

mem-push : (n : Node) (xs : List Node) (m : Node) → mem (xs ++ n ∷ []) m ≡ (mem xs m || n == m)
mem-push n xs m = ground (arith, any-append (λ y. y == m) xs (n ∷ []))

-- What the visits of a walk know: the nodes of a list, each once.
pub record Knows (w : Walk) (xs : List Node) : Type 0 where
  pub distinct : IsDistinct xs
  pub marks : (m : Node) → w.visited m ≡ mem xs m

-- The successors of a node join the queue, those that are new and each once.
record IsEnqueued (ns out : List Node) (w w' : Walk) : Type 0 where
  pub knows : Knows w' (out ++ w'.queue)
  pub members : (m : Node) → mem (out ++ w'.queue) m ≡ (mem (out ++ w.queue) m || mem ns m)

enqueue-Knows :
    (n : Node) (out : List Node) (w : Walk)
    → w.visited n ≡ false
    → Knows w (out ++ w.queue)
    → Knows (enqueue n w) (out ++ (enqueue n w).queue)
unfolding enqueue
enqueue-Knows n out w new k =
    subst (Knows (enqueue n w)) (append_assoc out w.queue (n ∷ [])) (record {
      distinct = IsDistinct-push n (out ++ w.queue) (cc (new, k.marks n)) k.distinct;
      marks = λ m. ground (arith, k.marks m, mem-push n (out ++ w.queue) m);
    })

enqueue-members :
    (n : Node) (out : List Node) (w : Walk) (m : Node)
    → mem (out ++ (enqueue n w).queue) m ≡ (mem (out ++ w.queue) m || n == m)
unfolding enqueue
enqueue-members n out w m =
    ap (λ xs. mem xs m) (sym (append_assoc out w.queue (n ∷ []))) ∙ mem-push n (out ++ w.queue) m

enqueue_new-IsEnqueued :
    (ns out : List Node) (w : Walk)
    → Knows w (out ++ w.queue)
    → IsEnqueued ns out w (enqueue_new ns w)
unfolding enqueue_new
enqueue_new-IsEnqueued [] out w k = record { knows = k; members = λ m. ground arith }
enqueue_new-IsEnqueued (n ∷ ns) out w k = elim (Bool-cases (w.visited n)) [
  | inl old ↦
      let rest = enqueue_new-IsEnqueued ns out w k in
      rw old (record {
        knows = rest.knows;
        members = λ m. ground (arith, rest.members m, known m (n == m) refl);
      })
  | inr new ↦
      let rest = enqueue_new-IsEnqueued ns out (enqueue n w) (enqueue-Knows n out w new k) in
      rw new (record {
        knows = rest.knows;
        members = λ m. ground (arith, rest.members m, enqueue-members n out w m);
      })
]
  where
    known :
        (m : Node) (b : Bool)
        → (n == m) ≡ b
        → b ≡ true
        → w.visited n ≡ true
        → mem (out ++ w.queue) m ≡ true
    known m b e t old = cc (k.marks n, ap (mem (out ++ w.queue)) ((==_iff n m).0 (e ∙ t)))

module _ (edges : Node → List Node) (start : List Node) where
  -- The invariant of the walk's loop
  pub record IsWalk (w : Walk) (out : List Node) : Type 0 where
    pub knows : Knows w (out ++ w.queue)
    pub starts : (m : Node) → mem start m ≡ true → mem (out ++ w.queue) m ≡ true
    pub reached : (m : Node) → mem (out ++ w.queue) m ≡ true → Reach edges start m
    pub closed :
        (m k : Node) → mem out m ≡ true → mem (edges m) k ≡ true → mem (out ++ w.queue) k ≡ true

  pub step-IsWalk :
      (n : Node) (rest out : List Node) (visited : Node → Bool)
      → IsWalk (record { queue = n ∷ rest; visited = visited }) out
      → IsWalk (enqueue_new (edges n) (record { queue = rest; visited = visited })) (out ++ n ∷ [])
  step-IsWalk n rest out visited i =
      let e : (out ++ n ∷ []) ++ rest ≡ out ++ n ∷ rest = append_assoc out (n ∷ []) rest in
      let w : Walk = record { queue = rest; visited = visited } in
      let k : Knows w ((out ++ n ∷ []) ++ rest) = record {
        distinct = subst IsDistinct (sym e) i.knows.distinct;
        marks = λ m. i.knows.marks m ∙ ap (λ xs. mem xs m) (sym e);
      } in
      let new = enqueue_new-IsEnqueued (edges n) (out ++ n ∷ []) w k in
      record {
        knows = new.knows;
        starts = λ m h. ground (arith, new.members m, ap (λ xs. mem xs m) e, i.starts m h);
        reached = λ m h. elim (Bool-cases (mem (out ++ n ∷ rest) m)) [
          | inl old ↦ i.reached m old
          | inr fresh ↦
              step (i.reached n (in_front n out rest))
                (ground (arith, new.members m, ap (λ xs. mem xs m) e))
        ];
        closed = λ m k h f. elim (Bool-cases (mem out m)) [
          | inl old ↦ ground (arith, new.members k, ap (λ xs. mem xs k) e, i.closed m k old f)
          | inr fresh ↦
              let same : n ≡ m = ground (arith, mem-push n out m) in
              ground (arith, new.members k, ap (λ x. mem (edges x) k) same)
        ];
      }
    where
      in_front : (n : Node) (out rest : List Node) → mem (out ++ n ∷ rest) n ≡ true
      in_front n out rest = ground (arith, any-append (λ y. y == n) out (n ∷ rest), ==_refl n)
