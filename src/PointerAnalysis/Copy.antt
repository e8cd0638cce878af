-- ===== src/PointerAnalysis/Copy.antt =====
-- lib/PointerAnalysis/PointerAnalysis.cpp: unwrapConstants and the two functions processMemcpy.
pub mod Entries
pub mod Objects
pub mod Loops
pub mod Zero
use llvmdg.Common.{
  ℕ, zero, suc, ◌+◌, ◌-◌, Bool, true, false, not, ◌&&◌, ◌||◌, ◌==◌, ltb, leb, if◌then◌else◌, List,
  [], ◌∷◌, some, is_empty,
}
use llvmdg.Offset.{Offset, unknown, is_unknown, is_zero, plus}
use llvmdg.PointsTo.{Node, Pointer, pointer}
use llvmdg.PointsTo.Sets.{PointsToSets}
use llvmdg.PointerAnalysis.{Setting, has_type, alloc, constant, null_pointer, can_be_dereferenced}
use llvmdg.PointerAnalysis.Machine.{State, update, M, return, ◌>>=◌, fail, when, or_else, or_each}
use llvmdg.PointerAnalysis.Memory.{
  pointers_of, object_of, store_pointer, store_pointers, operand, get_memory_objects,
}
use llvmdg.PointerAnalysis.Transfer.{is_zero_initialized}

module _ (c : Setting) where
  -- A pointer stored at this offset is in the copied range, or may be.
  unfoldable pub is_copied : Offset → Offset → Offset → Bool
  is_copied off src_offset len =
      is_unknown off
      || (is_unknown src_offset
          || (leb src_offset off && (is_unknown len || ltb (off - src_offset) len)))

  -- The offset in the destination object d where such a pointer is stored
  unfoldable pub copied_offset : Node → Offset → Offset → Offset → Offset
  copied_offset d off src_offset dest_offset =
      if not (is_unknown off) && (not (is_unknown src_offset) && not (is_unknown dest_offset))
      then if leb (unknown - dest_offset) (off - src_offset)
        then unknown
        else (let new_off = off - src_offset + dest_offset in
            if leb (c.nodes d).size new_off || leb c.options.field_sensitivity new_off
            then unknown
            else new_off)
      else unknown

module _ (I : PointsToSets) (c : Setting) where
  -- The loop of unwrapConstants; no chain of constants is longer than the number of nodes.
  unfoldable pub unwrap_constants : ℕ → Pointer → M I Pointer
  unwrap_constants zero p = fail
  unwrap_constants (suc fuel) p = elim (has_type c constant p.target) [
    | true ↦ operand I c p.target 0 >>= λ t.
        unwrap_constants fuel (pointer t (plus p.offset (c.nodes p.target).offset))
    | false ↦ return p
  ]

  abbrev pub set_zero_initialized : Node → M I Bool
  set_zero_initialized n s =
      some (false, record s { zero_initialized = update s.zero_initialized n true })

  -- contains_null_somewhere, and the copied flag of a source that is zero-initialized
  unfoldable pub copy_zero : Node → Node → Pointer → Offset → M I Bool
  copy_zero source dest sptr len = is_zero_initialized I c source >>= λ z.
      if z
      then if not (is_unknown (c.nodes source).size)
          && ((c.nodes source).size == (c.nodes dest).size
              && (len == (c.nodes source).size && is_zero sptr.offset))
        then set_zero_initialized dest
        else return true
      else return false

  -- The innermost loop: the pointers of a source object
  unfoldable pub copy_entry : Node → Offset → Offset → Offset → Offset × I.Set → M I Bool
  copy_entry d src_offset dest_offset len e =
      if is_copied c e.0 src_offset len
      then store_pointers I d (copied_offset c d e.0 src_offset dest_offset) e.1
      else return false

  -- The loop over the destination's objects
  unfoldable pub copy_to : Bool → List Node → Offset → Offset → Offset → Node → M I Bool
  copy_to contains_null sources src_offset dest_offset len d =
      or_else (if contains_null then store_pointer I d unknown (null_pointer c) else return false) (
        or_each
          (λ so. object_of I so >>= λ mo. or_each (copy_entry d src_offset dest_offset len) mo)
          sources)

  -- processMemcpy(srcObjects, destObjects, sptr, dptr, len)
  unfoldable pub copy_objects : List Node → List Node → Pointer → Pointer → Offset → M I Bool
  copy_objects sources dests sptr dptr len = when (ltb 0 len) (
      unwrap_constants c.node_count sptr >>= λ source. when (has_type c alloc source.target) (
        unwrap_constants c.node_count dptr >>= λ dest. when (has_type c alloc dest.target) (
          copy_zero source.target dest.target sptr len >>= λ contains_null.
          or_each (copy_to contains_null sources source.offset dest.offset len) dests)))

  -- The loops of processMemcpy(node) over the pointers to the destination and to the source
  unfoldable pub copy_into : Node → Pointer → List Node → Pointer → M I Bool
  copy_into n p sources q =
      if not (can_be_dereferenced c q)
      then return false
      else (get_memory_objects I c q >>= λ dests.
          when (not (is_empty dests)) (copy_objects sources dests p q (c.nodes n).length))

  unfoldable pub copy_from : Node → Node → Pointer → M I Bool
  copy_from n dest p =
      if not (can_be_dereferenced c p)
      then return false
      else (get_memory_objects I c p >>= λ sources.
          when (not (is_empty sources))
            (pointers_of I dest >>= λ ps. or_each (copy_into n p sources) (I.elements ps)))

  -- processMemcpy(node)
  unfoldable pub process_memcpy : Node → M I Bool
  process_memcpy n = operand I c n 0 >>= λ source. operand I c n 1 >>= λ dest.
      pointers_of I source >>= λ ps. or_each (copy_from n dest) (I.elements ps)
