-- ===== src/PointerAnalysis/Process/Kinds.antt =====
-- lib/PointerAnalysis/PointerAnalysis.cpp: processNode on every kind of node.
use llvmdg.Common.{
  ◌≡◌, refl, subst, Bool, true, false, ◌||◌, ◌==◌, List, [], ◌∷◌, Option, none, some, arith,
  get_elem?, length, if◌then◌else◌,
}
use llvmdg.Offset.{Offset}
use llvmdg.PointsTo.{Node, pointer}
use llvmdg.PointsTo.Sets.{PointsToSets}
use llvmdg.PointerAnalysis.{
  Setting, PsNodeType, alloc, load, store, gep, phi, cast, function, call, call_funcptr,
  call_return, entry, return, fork, join, invalidate_locals, free, invalidate_object, constant,
  noop, memcpy, null_addr, unknown_mem, invalidated, value,
}
use llvmdg.PointerAnalysis.Machine.{State, update}
use llvmdg.PointerAnalysis.Process.{
  process_as, process_node, process_invalidate_locals, single_successor,
}
use llvmdg.PointerAnalysis.Demands.{
  Receives, Shifted, StoredTo, Loaded, Called, Forked, CopyReaches,
}
use llvmdg.PointerAnalysis.Invariant.{points, is_fixed, IsSound, Ran}
use llvmdg.PointerAnalysis.Rules.{Ran-weaken, return-Ran}
use llvmdg.PointerAnalysis.Loops.{operand-Ran, read-Ran}
use llvmdg.PointerAnalysis.Transfer.Pointers.{process_cast-Ran, process_phi-Ran, process_gep-Ran}
use llvmdg.PointerAnalysis.Transfer.Stores.{process_store-Ran}
use llvmdg.PointerAnalysis.Transfer.LoadLoop.{process_load-Ran}
use llvmdg.PointerAnalysis.Transfer.Calls.{
  process_call_funcptr-Ran, process_fork-Ran, process_call_return-Ran,
}
use llvmdg.PointerAnalysis.Copy.Loops.{process_memcpy-Ran}
use llvmdg.PointerAnalysis.Process.Transferred.{
  WellFormedAs, IsWellFormed, TransferredAs, Transferred,
}

same_operand : {a b : Node} {o : Option Node} → o ≡ some a → o ≡ some b → a ≡ b
same_operand e f = cc

module _ (I : PointsToSets) (c : Setting) (n : Node) where
  set_parent-Ran :
      (s : State I) (p : Node)
      → IsSound I c s
      → Ran I c s
          (λ t. Unit {0})
          (some (false, record s { parent = update s.parent n (s.parent p) }))
  set_parent-Ran s p v = record {
    result = (false, record s { parent = update s.parent n (s.parent p) });
    returns = refl;
    sound = record { sets = v.sets; objects = v.objects; one = v.one; self = v.self };
    grows = record {
      nodes = λ m u q h. h;
      objects = λ m o u q h. h;
      created = λ m h. h;
      zeroed = λ m h. h;
    };
    unchanged = λ h. record { nodes = λ m u q. refl; objects = λ m o u q. refl };
    post = tt;
  }

  single_successor-one :
      (ns : List Node) (s : State I)
      → length ns ≡ 1
      → (m : Node) × (single_successor I c ns s ≡ some (m, s))
  single_successor-one [] s h = absurd (omega (arith, h))
  single_successor-one (m ∷ []) s h = (m, refl)
  single_successor-one (m ∷ k ∷ ns) s h = absurd (omega (arith, h))

  process_invalidate_locals-Ran :
      (s : State I) {op : Node}
      → get_elem? (c.nodes n).operands 0 ≡ some op
      → length (c.nodes op).successors ≡ 1
      → IsSound I c s
      → Ran I c s (λ t. Unit {0}) (process_invalidate_locals I c n s)
  unfolding process_invalidate_locals
  process_invalidate_locals-Ran s {op} e h v =
      let (m, found) = single_successor-one (c.nodes op).successors s h in
      operand-Ran I c s n 0 _ (λ t. Unit {0}) e
        (read-Ran I c s _ (λ t. Unit {0}) found (set_parent-Ran s m v))

  checked-Ran :
      (s : State I) (b : Bool)
      → b ≡ true
      → IsSound I c s
      → Ran I c s (λ t. Unit {0}) (if b then some (false, s) else none)
  checked-Ran s true e v = return-Ran I c s false v tt
  checked-Ran s false e v = absurd (cc e)

  not_fixed :
      {k : PsNodeType}
      → (c.nodes n).type ≡ k
      → (value k == 18 || (value k == 1 || value k == 7)) ≡ false
      → is_fixed I c n ≡ false
  not_fixed e h = cc h

  -- A demand on an operand that is given by its position
  with_operand :
      (P : Node → Type 0) {o : Option Node} {op : Node}
      → o ≡ some op
      → P op
      → (other : Node) → o ≡ some other
      → P other
  with_operand P e h other f = subst P (same_operand e f) h

  -- processNode, by the type of the node
  process_as-Ran :
      (k : PsNodeType) (s : State I)
      → (c.nodes n).type ≡ k
      → WellFormedAs c k n
      → IsSound I c s
      → Ran I c s (TransferredAs I c k n s) (process_as I c k n s)
  unfolding process_as
  process_as-Ran load s e (op, f) v =
      Ran-weaken I c (process_load-Ran I c n (not_fixed e refl) s f v) (λ t w g h.
        with_operand
          (λ op.
            (u : Node) (q : Offset) → points I s op u q ≡ true → Loaded I c n s (pointer u q) t)
          f h)
  process_as-Ran store s e ((from, f), (to, h)) v =
      Ran-weaken I c (process_store-Ran I c n s f h v) (λ t w g m a b i j.
        with_operand
          (λ a.
            (u : Node) (q : Offset) → points I s b u q ≡ true → StoredTo I c n a s (pointer u q) t)
          f
          (with_operand
            (λ b.
              (u : Node) (q : Offset)
              → points I s b u q ≡ true
              → StoredTo I c n from s (pointer u q) t)
            h m b j)
          a i)
  process_as-Ran gep s e (op, f) v =
      Ran-weaken I c (process_gep-Ran I c n (not_fixed e refl) s f v)
        (λ t w g. with_operand (λ op. Shifted I c n op s t) f)
  process_as-Ran cast s e (op, f) v =
      Ran-weaken I c (process_cast-Ran I c n (not_fixed e refl) s f v)
        (λ t w g. with_operand (λ op. Receives I n (points I s op) t) f)
  process_as-Ran phi s e h v = process_phi-Ran I c n (not_fixed e refl) s v
  process_as-Ran return s e h v = process_phi-Ran I c n (not_fixed e refl) s v
  process_as-Ran call_return s e h v = process_call_return-Ran I c n (not_fixed e refl) s v
  process_as-Ran call_funcptr s e (op, f) v =
      Ran-weaken I c (process_call_funcptr-Ran I c n (not_fixed e refl) s f v) (λ t w g.
        with_operand
          (λ op. (u : Node) (q : Offset) → points I s op u q ≡ true → Called I c n (pointer u q) t)
          f)
  process_as-Ran fork s e (op, f) v =
      Ran-weaken I c (process_fork-Ran I c n (not_fixed e refl) s f v) (λ t w g.
        with_operand
          (λ op. (u : Node) (q : Offset) → points I s op u q ≡ true → Forked I c n (pointer u q) t)
          f)
  process_as-Ran memcpy s e ((source, f), (dest, h), long, nodes) v =
      Ran-weaken I c (process_memcpy-Ran I c n long nodes s f h v) (λ t w g m a b i j.
        with_operand
          (λ a.
            (u : Node) (q : Offset)
            → points I s a u q ≡ true
            → CopyReaches I c n b s (pointer u q) t)
          f
          (with_operand
            (λ b.
              (u : Node) (q : Offset)
              → points I s source u q ≡ true
              → CopyReaches I c n b s (pointer u q) t)
            h m b j)
          a i)
  process_as-Ran invalidate_locals s e (op, f, h) v = process_invalidate_locals-Ran s f h v
  process_as-Ran constant s e h v = checked-Ran s _ (v.one n (cc)) v
  process_as-Ran alloc s e h v = checked-Ran s _ (ground (arith, v.one n (cc), v.self n (cc))) v
  process_as-Ran function s e h v = checked-Ran s _ (ground (arith, v.one n (cc), v.self n (cc))) v
  process_as-Ran call s e h v = return-Ran I c s false v tt
  process_as-Ran entry s e h v = return-Ran I c s false v tt
  process_as-Ran join s e h v = return-Ran I c s false v tt
  process_as-Ran free s e h v = return-Ran I c s false v tt
  process_as-Ran invalidate_object s e h v = return-Ran I c s false v tt
  process_as-Ran noop s e h v = return-Ran I c s false v tt
  process_as-Ran null_addr s e h v = absurd h
  process_as-Ran unknown_mem s e h v = absurd h
  process_as-Ran invalidated s e h v = absurd h

  -- On a sound state every well-formed node is processed without a failed assertion. The state stays
  -- sound, no pointer is lost, and the pointers that the kind of node demands have been transferred,
  -- apart from the null pointers of zero-initialized memory. If no change is reported, all points-to
  -- sets and memory objects hold the pointers that they held; other fields of the nodes may differ.
  pub process_node-Ran :
      (s : State I)
      → IsWellFormed c n
      → IsSound I c s
      → Ran I c s (Transferred I c n s) (process_node I c n s)
  unfolding process_node
  process_node-Ran s h v = process_as-Ran (c.nodes n).type s refl h v
