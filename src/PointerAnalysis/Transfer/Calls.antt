-- ===== src/PointerAnalysis/Transfer/Calls.antt =====
-- lib/PointerAnalysis/PointerAnalysis.cpp: which functions a call through a pointer and a fork give to
-- their node, and what a return gives to its node.
use llvmdg.Common.{
  ◌≡◌, refl, ap, ◌∙◌, Bool, true, false, not, ◌&&◌, ◌||◌, Bool-cases, inl, inr, List, [], ◌∷◌, some,
  All, arith, get_elem?, any, is_empty, ==_refl, if◌then◌else◌,
}
use llvmdg.Offset.{Offset, unknown}
use llvmdg.PointsTo.{Node, Pointer, pointer, is_valid, is_invalidated}
use llvmdg.PointsTo.Spec.{may}
use llvmdg.PointsTo.Sets.{PointsToSets}
use llvmdg.PointerAnalysis.{
  Setting, has_type, first_is, call, function, can_be_dereferenced, fun_has_address_taken,
}
use llvmdg.PointerAnalysis.Machine.{State, M, or_each, return, ◌>>=◌, continue, after}
use llvmdg.PointerAnalysis.Memory.{pointers_of}
use llvmdg.PointerAnalysis.Transfer.{
  add_called, error, function_pointer_call, handle_fork, call_pointer, fork_pointer,
  process_call_funcptr, process_fork, process_phi, process_call_return, invalidate_returned,
}
use llvmdg.PointerAnalysis.Transfer.Pointers.{process_phi-Ran}
use llvmdg.PointerAnalysis.Demands.{Called, Forked, Invalidated, Receives}
use llvmdg.PointerAnalysis.Invariant.{points, is_target, is_fixed, Grows, IsSound, Ran}
use llvmdg.PointerAnalysis.Rules.{Ran-weaken, or_each-Ran, or_else-Ran, return-Ran}
use llvmdg.PointerAnalysis.Primitives.{add_points_to-Ran}
use llvmdg.PointerAnalysis.Objects.Created.{dereferenced-alloc}
use llvmdg.PointerAnalysis.Loops.{pointers-Ran, operand-Ran, All-Unit, All-map}

any-of :
    {A : Type 0} (p : A → Bool) (xs : List A)
    → ((x : A) → p x ≡ true)
    → any p xs ≡ not (is_empty xs)
any-of p [] all = refl
any-of p (x ∷ xs) all = ground (arith, all x)

-- A function counts as one whose address is taken exactly if it has a user, whatever the user is: the
-- test for users that only call the function has no effect.
pub fun_has_address_taken-users :
    (c : Setting) (n : Node)
    → fun_has_address_taken c n ≡ (has_type c function n && not (is_empty (c.nodes n).users))
unfolding fun_has_address_taken
fun_has_address_taken-users c n = elim (Bool-cases (has_type c function n)) [
  | inr other ↦ ground arith
  | inl here ↦
      rw (here, fun_has_address_taken)
        (any-of (λ user. not (has_type c call n) || not (first_is user (c.nodes n).operands))
          (c.nodes n).users (λ user. ground arith))
]

module _ (I : PointsToSets) (c : Setting) (n : Node) (free : is_fixed I c n ≡ false) where
  -- The hook that a call runs returns and changes nothing.
  add_called-Ran :
      (s : State I) (p : Pointer) (call_hook : Node → Node → M I Bool)
      → ((t : State I) → call_hook n p.target t ≡ some (false, t))
      → is_target I c p.target ≡ true
      → IsSound I c s
      → Ran I c s
          (λ t. may (points I t n) p.target p.offset ≡ true)
          (add_called I c call_hook n p s)
  add_called-Ran s p call_hook quiet k v =
      let a = add_points_to-Ran I c s n p free k v in
      record {
        result = a.result;
        returns = after hooked a.returns ∙ hooked_lem a.result.0 a.result.1;
        sound = a.sound;
        grows = a.grows;
        unchanged = a.unchanged;
        post = a.post;
      }
    where
      hooked : Bool → M I Bool
      hooked new =
          if new
          then ((if is_valid c.special p && not (is_invalidated c.special p)
                then call_hook n p.target
                else error I c n)
              >>= λ ignored. return true)
          else return false

      hooked_lem : (new : Bool) (t : State I) → hooked new t ≡ some (new, t)
      hooked_lem false t = refl
      hooked_lem true t =
          elim (Bool-cases (is_valid c.special p && not (is_invalidated c.special p))) [
            | inl good ↦ rw good (ap (continue (λ ignored. return true)) (quiet t))
            | inr bad ↦ rw bad refl
          ]

  call_pointer-Ran :
      (s : State I) (p : Pointer)
      → is_target I c p.target ≡ true
      → IsSound I c s
      → Ran I c s (Called I c n p) (call_pointer I c n p s)
  unfolding call_pointer
  call_pointer-Ran s p k v =
      elim (Bool-cases (not c.options.invalidate_nodes && not (has_type c function p.target))) [
        | inl other ↦
            rw (other, call_pointer) (return-Ran I c s false v (λ f h. absurd (ground arith)))
        | inr candidate ↦ elim (Bool-cases (fun_has_address_taken c p.target)) [
          | inr not_taken ↦
              rw (candidate, not_taken, call_pointer)
                (return-Ran I c s false v (λ f h. absurd (cc (h, not_taken))))
          | inl taken ↦
              rw (candidate, taken, call_pointer)
                (Ran-weaken I c (add_called-Ran s p (function_pointer_call I c) (λ t. refl) k v)
                  (λ t w g m f h. m))
        ]
      ]

  fork_pointer-Ran :
      (s : State I) (p : Pointer)
      → is_target I c p.target ≡ true
      → IsSound I c s
      → Ran I c s (Forked I c n p) (fork_pointer I c n p s)
  unfolding fork_pointer
  fork_pointer-Ran s p k v =
      elim (Bool-cases (not c.options.invalidate_nodes && not (has_type c function p.target))) [
        | inl other ↦
            rw (other, fork_pointer) (return-Ran I c s false v (λ f. absurd (ground arith)))
        | inr candidate ↦
            rw (candidate, fork_pointer)
              (Ran-weaken I c (add_called-Ran s p (handle_fork I c) (λ t. refl) k v)
                (λ t w g m f. m))
      ]

  pub process_call_funcptr-Ran :
      (s : State I) {op : Node}
      → get_elem? (c.nodes n).operands 0 ≡ some op
      → IsSound I c s
      → Ran I c s
          (λ t. (u : Node) (q : Offset) → points I s op u q ≡ true → Called I c n (pointer u q) t)
          (process_call_funcptr I c n s)
  unfolding process_call_funcptr
  process_call_funcptr-Ran s {op} e v =
      operand-Ran I c s n 0 (λ op t. or_each (call_pointer I c n) (I.elements (t.points_to op)) t)
        (λ t. (u : Node) (q : Offset) → points I s op u q ≡ true → Called I c n (pointer u q) t) e
        (pointers-Ran I c s (call_pointer I c n) (s.points_to op) (Called I c n)
          (λ p t t' g h f k. g.nodes n p.target p.offset (h f k))
          (λ p t k w g. call_pointer-Ran t p k w) v (v.sets op))

  pub process_fork-Ran :
      (s : State I) {op : Node}
      → get_elem? (c.nodes n).operands 0 ≡ some op
      → IsSound I c s
      → Ran I c s
          (λ t. (u : Node) (q : Offset) → points I s op u q ≡ true → Forked I c n (pointer u q) t)
          (process_fork I c n s)
  unfolding process_fork
  process_fork-Ran s {op} e v =
      operand-Ran I c s n 0 (λ op t. or_each (fork_pointer I c n) (I.elements (t.points_to op)) t)
        (λ t. (u : Node) (q : Offset) → points I s op u q ≡ true → Forked I c n (pointer u q) t) e
        (pointers-Ran I c s (fork_pointer I c n) (s.points_to op) (Forked I c n)
          (λ p t t' g h f. g.nodes n p.target p.offset (h f))
          (λ p t k w g. fork_pointer-Ran t p k w) v (v.sets op))

  invalidate_returned-Ran :
      (s : State I) (p : Pointer)
      → is_target I c p.target ≡ true
      → IsSound I c s
      → Ran I c s (Invalidated I c n p) (invalidate_returned I c n p s)
  unfolding invalidate_returned
  invalidate_returned-Ran s p k v = elim (Bool-cases (can_be_dereferenced c p)) [
    | inr skipped ↦
        rw (skipped, invalidate_returned) (return-Ran I c s false v (λ d. absurd (cc (d, skipped))))
    | inl taken ↦
        elim (Bool-cases (not (c.nodes p.target).is_heap && not (c.nodes p.target).is_global)) [
          | inl local ↦
              rw (taken, dereferenced-alloc I c p k taken, local, invalidate_returned)
                (Ran-weaken I c
                  (add_points_to-Ran I c s n (pointer c.special.invalidated 0) free
                    (ground (arith, ==_refl c.special.invalidated)) v)
                  (λ t w g m d x y. m))
          | inr elsewhere ↦
              rw (taken, dereferenced-alloc I c p k taken, elsewhere, invalidate_returned)
                (return-Ran I c s false v (λ d x y. absurd (ground arith)))
        ]
  ]

  -- Whether a pointer can be dereferenced does not depend on its offset.
  Invalidated-may :
      (s : State I) (op : Node) (t : State I)
      → ((u : Node) (q : Offset) → points I s op u q ≡ true → Invalidated I c n (pointer u q) t)
      → (u : Node) (q : Offset) → may (points I s op) u q ≡ true
      → Invalidated I c n (pointer u q) t
  unfolding can_be_dereferenced
  Invalidated-may s op t f u q m = elim (Bool-cases (points I s op u q)) [
    | inl here ↦ f u q here
    | inr elsewhere ↦ f u unknown (ground arith)
  ]

  pub process_call_return-Ran :
      (s : State I)
      → IsSound I c s
      → Ran I c s
          (λ t.
            (c.options.invalidate_nodes ≡ true
              → All
                  (λ op.
                    (u : Node) (q : Offset)
                    → may (points I s op) u q ≡ true
                    → Invalidated I c n (pointer u q) t)
                  (c.nodes n).operands)
            × All (λ op. Receives I n (points I s op) t) (c.nodes n).operands)
          (process_call_return I c n s)
  unfolding process_call_return
  process_call_return-Ran s v =
      Ran-weaken I c
        (or_else-Ran I c s (invalidate_all c.options.invalidate_nodes) (process_phi I c n)
          (Invalidated_all_stable c.options.invalidate_nodes) (first c.options.invalidate_nodes)
          (λ t w g.
            Ran-weaken I c (process_phi-Ran I c n free t w)
              (λ r x h a. All-map (c.nodes n).operands (λ op f u q m. f u q (g.nodes op u q m)) a)))
        (λ t w g h. (h.0, h.1))
    where
      Each : State I → Node → Type 0
      Each t op =
          (u : Node) (q : Offset)
          → may (points I s op) u q ≡ true
          → Invalidated I c n (pointer u q) t

      invalidate_all : Bool → M I Bool
      invalidate_all b =
          if b
          then or_each
              (λ op. pointers_of I op >>= λ ps. or_each (invalidate_returned I c n) (I.elements ps))
              (c.nodes n).operands
          else return false

      Invalidated_all_stable :
          (b : Bool) (t t' : State I)
          → Grows I t t'
          → (b ≡ true → All (Each t) (c.nodes n).operands)
          → b ≡ true
          → All (Each t') (c.nodes n).operands
      Invalidated_all_stable b t t' g h e =
          All-map (c.nodes n).operands
            (λ op f u q m d x y. g.nodes n c.special.invalidated 0 (f u q m d x y)) (h e)

      first :
          (b : Bool)
          → Ran I c s (λ t. b ≡ true → All (Each t) (c.nodes n).operands) (invalidate_all b s)
      first false = return-Ran I c s false v (λ e. absurd (cc e))
      first true =
          Ran-weaken I c
            (or_each-Ran I c s
              (λ op t. or_each (invalidate_returned I c n) (I.elements (t.points_to op)) t)
              (c.nodes n).operands (λ op t. Each t op) (λ op. Unit {0})
              (λ op t t' g f u q m d x y. g.nodes n c.special.invalidated 0 (f u q m d x y))
              (λ op t k w g.
                Ran-weaken I c
                  (pointers-Ran I c t (invalidate_returned I c n) (t.points_to op)
                    (Invalidated I c n)
                    (λ p r r' h f d x y. h.nodes n c.special.invalidated 0 (f d x y))
                    (λ p r k x h. invalidate_returned-Ran r p k x) w (w.sets op))
                  (λ r x h f u q m. Invalidated-may t op r f u q (g.nodes op u q m)))
              v (All-Unit (c.nodes n).operands))
            (λ t w g a e. a)
