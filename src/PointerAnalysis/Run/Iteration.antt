-- ===== src/PointerAnalysis/Run/Iteration.antt =====
-- include/dg/PointerAnalysis/PointerAnalysis.h: what a round makes of the state, and
-- what holds after one that returns no nodes.
use llvmdg.Common.{
  ◌≡◌, refl, ◌∙◌, Bool, true, false, ◌||◌, ◌==◌, List, [], ◌∷◌, Option, some, All, arith,
  Bool-cases, inl, inr,
}
use llvmdg.NodesWalk.Pigeons.{mem, IsDistinct}
use llvmdg.PointsTo.{Node}
use llvmdg.PointsTo.Sets.{PointsToSets}
use llvmdg.PointerAnalysis.{Setting}
use llvmdg.PointerAnalysis.Machine.{State, ◌>>=◌, after, return}
use llvmdg.PointerAnalysis.Run.{iteration, enqueue, after_processed}
use llvmdg.PointerAnalysis.Invariant.{
  Grows, Grows-refl, Grows-trans, IsSame, IsSame-refl, IsSame-trans, IsSound,
}
use llvmdg.PointerAnalysis.Process.Transferred.{IsWellFormed, Transferred}
use llvmdg.PointerAnalysis.Process.Kinds.{process_node-Ran}
use llvmdg.PointerAnalysis.Run.Steady.{Transferred-steady}

module _ (I : PointsToSets) (c : Setting) where
  -- What a round over a queue makes of a state. It returns nodes of the queue, each once; if it
  -- returns none, the demands of all nodes of the queue are met at the end.
  pub record IsIterated (s : State I) (ns : List Node) (r : Option (List Node × State I))
      : Type 0 where
    pub result : List Node × State I
    pub returns : r ≡ some result
    pub sound : IsSound I c result.1
    pub grows : Grows I s result.1
    pub changed : (m : Node) → mem result.0 m ≡ true → mem ns m ≡ true
    pub distinct : IsDistinct ns → IsDistinct result.0
    pub unchanged : result.0 ≡ [] → IsSame I s result.1
    pub met : result.0 ≡ [] → All (λ n. Transferred I c n result.1 result.1) ns

  enqueue-mem :
      (b : Bool) (n : Node) (ch ns : List Node) (m : Node)
      → ((m : Node) → mem ch m ≡ true → mem ns m ≡ true)
      → mem (enqueue I c b n ch) m ≡ true
      → mem (n ∷ ns) m ≡ true
  enqueue-mem true n ch ns m f h = elim (Bool-cases (n == m)) [
    | inl here ↦ ground arith
    | inr there ↦ ground (arith, f m (ground arith))
  ]
  enqueue-mem false n ch ns m f h = ground (arith, f m h)

  enqueue-IsDistinct :
      (b : Bool) (n : Node) (ch ns : List Node)
      → ((m : Node) → mem ch m ≡ true → mem ns m ≡ true)
      → (IsDistinct ns → IsDistinct ch)
      → IsDistinct (n ∷ ns)
      → IsDistinct (enqueue I c b n ch)
  enqueue-IsDistinct true n ch ns f g (new, d) = (
    elim (Bool-cases (mem ch n)) [ inl old ↦ absurd (cc (f n old, new)) | inr fresh ↦ fresh ],
    g d,
  )
  enqueue-IsDistinct false n ch ns f g (new, d) = g d

  enqueue-empty :
      (b : Bool) (n : Node) (ch : List Node) → enqueue I c b n ch ≡ [] → (b ≡ false) × (ch ≡ [])
  enqueue-empty true n ch h = absurd (cc h)
  enqueue-empty false n ch h = (refl, h)

  -- A round over well-formed nodes in a sound state returns: the state stays sound, no pointer is lost,
  -- and the nodes that it returns are nodes of the queue, each once if the queue has each once. If it
  -- returns none, no pointer has changed, and every node of the queue has in the final state the
  -- pointers that its kind demands, apart from the null pointers of zero-initialized memory, which a
  -- later round may still add.
  pub iteration-IsIterated :
      (ns : List Node) (s : State I)
      → All (λ n. IsWellFormed c n) ns
      → IsSound I c s
      → IsIterated s ns (iteration I c ns s)
  unfolding iteration
  iteration-IsIterated [] s w v = record {
    result = ([], s);
    returns = refl;
    sound = v;
    grows = Grows-refl I s;
    changed = λ m h. h;
    distinct = λ d. d;
    unchanged = λ h. IsSame-refl I s;
    met = λ h. tt;
  }
  iteration-IsIterated (n ∷ ns) s w v =
      let this = process_node-Ran I c n s w.0 v in
      let rest = iteration-IsIterated ns this.result.1 w.1 this.sound in
      let b = this.result.0 in
      record {
        result = (enqueue I c (false || (b || false)) n rest.result.0, rest.result.1);
        returns =
            after
              (λ processed. after_processed I c n >>= λ behind. iteration I c ns >>= λ changed.
                return (enqueue I c (false || (processed || behind)) n changed))
              this.returns
            ∙ after (λ changed. return (enqueue I c (false || (b || false)) n changed))
                rest.returns;
        sound = rest.sound;
        grows = Grows-trans I this.grows rest.grows;
        changed = λ m. enqueue-mem (false || (b || false)) n rest.result.0 ns m rest.changed;
        distinct =
            enqueue-IsDistinct (false || (b || false)) n rest.result.0 ns rest.changed
              rest.distinct;
        unchanged = λ h.
            let (quiet, empty) = enqueue-empty (false || (b || false)) n rest.result.0 h in
            IsSame-trans I (this.unchanged (ground arith)) (rest.unchanged empty);
        met = λ h.
            let (quiet, empty) = enqueue-empty (false || (b || false)) n rest.result.0 h in
            (
              Transferred-steady I c n
                  (IsSame-trans I (this.unchanged (ground arith)) (rest.unchanged empty)) rest.grows
                  this.post,
              rest.met empty,
            );
      }
