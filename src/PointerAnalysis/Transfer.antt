-- ===== src/PointerAnalysis/Transfer.antt =====
-- lib/PointerAnalysis/PointerAnalysis.cpp: processLoad, processGep and the branches of processNode for
-- stores, casts, joins of pointers, calls and returns.
pub mod Pointers
pub mod Stores
pub mod Loads
pub mod LoadLoop
pub mod Calls
pub mod Bounds
use llvmdg.Common.{
  ℕ, ◌+◌, ◌%◌, ◌^◌, Bool, true, false, not, ◌&&◌, ◌||◌, ◌==◌, ltb, if◌then◌else◌, List, [], ◌∷◌,
  Option, none, some, length, is_empty,
}
use llvmdg.Offset.{Offset, unknown, is_unknown}
use llvmdg.Std.OrderedMap.{find}
use llvmdg.PointsTo.{
  Node, Pointer, pointer, SpecialNodes, is_valid, is_invalidated, is_unknown_memory,
}
use llvmdg.PointsTo.Sets.{PointsToSets}
use llvmdg.PointerAnalysis.{
  Setting, has_type, alloc, function, unknown_pointer, null_pointer, can_be_dereferenced,
  fun_has_address_taken,
}
use llvmdg.PointerAnalysis.Machine.{
  MemoryObject, State, M, return, ◌>>=◌, fail, when, or_else, or_each,
}
use llvmdg.PointerAnalysis.Memory.{
  pointers_of, add_points_to, add_all_points_to, object_of, store_pointers, operand,
  get_memory_objects,
}

module _ (I : PointsToSets) (c : Setting) where
  -- The hooks, as the base class has them
  abbrev pub error : Node → M I Bool
  error at = return false

  abbrev pub error_empty_points_to : Node → Node → M I Bool
  error_empty_points_to from to = return false

  abbrev pub function_pointer_call : Node → Node → M I Bool
  function_pointer_call where_called what = return false

  abbrev pub handle_fork : Node → Node → M I Bool
  handle_fork fork_node called = return false

  abbrev pub handle_join : Node → M I Bool
  handle_join n = return false

  abbrev pub is_zero_initialized : Node → M I Bool
  is_zero_initialized n s = some (s.zero_initialized n, s)

  abbrev pub null_or_error : Node → Node → M I Bool
  null_or_error n target = is_zero_initialized target >>= λ z.
      if z then add_points_to I n (null_pointer c) else error_empty_points_to n target

  abbrev pub add_found : Node → Option I.Set → M I Bool
  add_found n none = return false
  add_found n (some ps) = add_all_points_to I n ps

  -- The memory object of a load from a known offset
  unfoldable pub load_at : Node → Node → Offset → MemoryObject I → M I Bool
  load_at n target off mo =
      or_else
        (elim (find off mo) [
          | none ↦ is_zero_initialized target >>= λ z.
              if z then add_points_to I n (null_pointer c) else elim (find unknown mo) [
                | none ↦ error_empty_points_to n target
                | some ps ↦ return false
              ]
          | some ps ↦ add_all_points_to I n ps
        ])
        (add_found n (find unknown mo))

  -- and from an unknown offset
  unfoldable pub load_any : Node → Node → Bool → MemoryObject I → M I Bool
  load_any n target only mo =
      or_else
        (if is_empty mo
          then (is_zero_initialized target >>= λ z.
              if z
              then add_points_to I n (null_pointer c)
              else if only
              then error_empty_points_to n target
              else return false)
          else return false)
        (or_each (λ e. add_all_points_to I n e.1) mo)

  -- The loop over the memory objects
  unfoldable pub load_object : Node → Pointer → Bool → Node → M I Bool
  load_object n p only o = object_of I o >>= λ mo.
      if is_unknown p.offset then load_any n p.target only mo else load_at n p.target p.offset mo

  -- The loop of processLoad over the pointers
  unfoldable pub load_pointer : Node → Pointer → M I Bool
  load_pointer n p =
      if is_unknown_memory c.special p
      then add_points_to I n (unknown_pointer c)
      else if not (can_be_dereferenced c p)
      then return false
      else (get_memory_objects I c p >>= λ objects. when (has_type c alloc p.target) (
          if is_empty objects
          then null_or_error n p.target
          else or_each (load_object n p (length objects == 1)) objects))

  -- processLoad
  unfoldable pub process_load : Node → M I Bool
  process_load n = operand I c n 0 >>= λ op. pointers_of I op >>= λ ps.
      if I.empty ps then error op else or_each (load_pointer n) (I.elements ps)

  -- The loop of a store over the pointers
  unfoldable pub store_to : Node → Pointer → M I Bool
  store_to n p =
      if not (can_be_dereferenced c p)
      then return false
      else (get_memory_objects I c p >>= λ objects.
          or_each
            (λ o.
              operand I c n 0 >>= λ op. pointers_of I op >>= λ ps. store_pointers I o p.offset ps)
            objects)

  unfoldable pub process_store : Node → M I Bool
  process_store n =
      operand I c n 1 >>= λ op. pointers_of I op >>= λ ps. or_each (store_to n) (I.elements ps)

  -- The offset that a GEP computes: the sum is that of Offset::type and wraps around.
  unfoldable pub gep_offset : Node → Pointer → Offset
  gep_offset n p =
      if is_unknown p.offset || is_unknown (c.nodes n).offset
      then unknown
      else (p.offset + (c.nodes n).offset) % 2 ^ 64

  unfoldable pub gep_pointer : Node → Pointer → Pointer
  gep_pointer n p =
      let new_offset = gep_offset n p in
      if (new_offset == 0 || ltb new_offset (c.nodes p.target).size)
        && ltb new_offset c.options.field_sensitivity
      then pointer p.target new_offset
      else pointer p.target unknown

  -- processGep
  unfoldable pub process_gep : Node → M I Bool
  process_gep n = operand I c n 0 >>= λ op.
      pointers_of I op >>= λ ps. or_each (λ p. add_points_to I n (gep_pointer n p)) (I.elements ps)

  unfoldable pub process_cast : Node → M I Bool
  process_cast n = operand I c n 0 >>= λ op. pointers_of I op >>= λ ps. add_all_points_to I n ps

  -- The loop over the operands of PHI, RETURN and CALL_RETURN
  unfoldable pub process_phi : Node → M I Bool
  process_phi n =
      or_each (λ op. pointers_of I op >>= λ ps. add_all_points_to I n ps) (c.nodes n).operands

  -- CALL_RETURN with options.invalidateNodes: a pointer to a local allocation may be invalidated.
  unfoldable pub invalidate_returned : Node → Pointer → M I Bool
  invalidate_returned n p =
      if not (can_be_dereferenced c p)
      then return false
      else when (has_type c alloc p.target) (
          if not (c.nodes p.target).is_heap && not (c.nodes p.target).is_global
          then add_points_to I n (pointer c.special.invalidated 0)
          else return false)

  unfoldable pub process_call_return : Node → M I Bool
  process_call_return n =
      or_else
        (if c.options.invalidate_nodes
          then or_each
              (λ op. pointers_of I op >>= λ ps. or_each (invalidate_returned n) (I.elements ps))
              (c.nodes n).operands
          else return false)
        (process_phi n)

  -- A pointer that is called: the result of the hook is ignored.
  abbrev pub add_called : (Node → Node → M I Bool) → Node → Pointer → M I Bool
  add_called call_hook n p = add_points_to I n p >>= λ new.
      if new
      then ((if is_valid c.special p && not (is_invalidated c.special p)
            then call_hook n p.target
            else error n)
          >>= λ ignored. return true)
      else return false

  unfoldable pub call_pointer : Node → Pointer → M I Bool
  call_pointer n p =
      if not c.options.invalidate_nodes && not (has_type c function p.target)
      then return false
      else if not (fun_has_address_taken c p.target)
      then return false
      else add_called function_pointer_call n p

  unfoldable pub fork_pointer : Node → Pointer → M I Bool
  fork_pointer n p =
      if not c.options.invalidate_nodes && not (has_type c function p.target)
      then return false
      else add_called handle_fork n p

  -- CALL_FUNCPTR and FORK
  unfoldable pub process_call_funcptr : Node → M I Bool
  process_call_funcptr n =
      operand I c n 0 >>= λ op. pointers_of I op >>= λ ps. or_each (call_pointer n) (I.elements ps)

  unfoldable pub process_fork : Node → M I Bool
  process_fork n =
      operand I c n 0 >>= λ op. pointers_of I op >>= λ ps. or_each (fork_pointer n) (I.elements ps)
