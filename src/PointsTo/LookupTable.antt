-- ===== src/PointsTo/LookupTable.antt =====
-- include/dg/PointerAnalysis/PointsToSets/LookupTable.h: the table that numbers pointers from 1 on.
pub mod Laws
use llvmdg.Common.{
  ℕ, zero, suc, Option, none, some, List, [], ◌∷◌, ◌++◌, ◌==◌, if◌then◌else◌, length, get_elem?,
}
use llvmdg.Offset.{Offset}
use llvmdg.Std.OrderedMap.{find, assign, emplace, value_or}
use llvmdg.PointsTo.{Node, Pointer}

-- _ptrToID, and _idToPtr, which starts from 0
pub record Table : Type 0 where
  pub ptr_to_id : List (Node × List (Offset × ℕ))
  pub id_to_ptr : List Pointer

abbrev pub empty_table : Table
empty_table = record { ptr_to_id = []; id_to_ptr = [] }

-- get(ptr): 0 is the invalid ID
unfoldable pub get_id : Table → Pointer → ℕ
get_id t p = elim (find p.target t.ptr_to_id) [
  | none ↦ 0
  | some ids ↦ elim (find p.offset ids) [ none ↦ 0 | some id ↦ id ]
]

-- getOrCreate
unfoldable pub get_or_create : Table → Pointer → ℕ × Table
unfolding get_id emplace
get_or_create t p =
    let res = get_id t p in
    let pushed = t.id_to_ptr ++ (p ∷ []) in
    let ids = value_or [] (find p.target t.ptr_to_id) in
    if res == 0
    then (
      length pushed,
      record {
        ptr_to_id = assign p.target (emplace p.offset (length pushed) ids) t.ptr_to_id;
        id_to_ptr = pushed;
      },
    )
    else (res, t)

-- get(id); the assertion on the ID is the result none.
abbrev pub get_pointer : Table → ℕ → Option Pointer
get_pointer t zero = none
get_pointer t (suc i) = get_elem? t.id_to_ptr i
