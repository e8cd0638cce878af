-- ===== src/MemorySsa/DefinitionsMap/Everywhere.antt =====
-- include/dg/MemorySSA/DefinitionsMap.h: addAll, on which node defines which byte.
use llvmdg.Common.{
  ℕ, ◌≡◌, ◌≢◌, refl, sym, ap, ◌∙◌, true, ◌&&◌, ◌||◌, ◌==◌, [], ◌∷◌, Option, none, some, arith,
  Bool-cases, inl, inr,
}
use llvmdg.Std.OrderedMap.{find, value_or}
use llvmdg.Offset.{Offset}
use llvmdg.IntervalMap
use llvmdg.IntervalMap.{Mapping}
use llvmdg.IntervalMap.Container.{add_all-IsAddedAll}
use llvmdg.IntervalMap.Order.{has, covered}
use llvmdg.MemorySsa.{RwNode}
use llvmdg.MemorySsa.DefinitionsMap.{DefinitionsMap, offsets, add_all}
use llvmdg.MemorySsa.DefinitionsMap.Meaning.{IsDefinitions, defines}

abbrev added : ℕ → Option Mapping → Option Mapping
added v none = none
added v (some m) = some (IntervalMap.add_all v m).1

find-add_all : (v t : ℕ) (d : DefinitionsMap) → find t (add_all v d).1 ≡ added v (find t d)
unfolding find add_all
find-add_all v t [] = refl
find-add_all v t ((k, m) ∷ d) = elim (Bool-cases (k == t)) [
  | inl here ↦ rw (here) refl
  | inr there ↦ rw (there) (find-add_all v t d)
]

value_or-added :
    (v : ℕ) (o : Option Mapping)
    → value_or [] (added v o) ≡ (IntervalMap.add_all v (value_or [] o)).1
unfolding IntervalMap.add_all
value_or-added v none = refl
value_or-added v (some m) = refl

offsets-add_all :
    (v t : ℕ) (d : DefinitionsMap)
    → offsets t (add_all v d).1 ≡ (IntervalMap.add_all v (offsets t d)).1
offsets-add_all v t d = ap (value_or []) (find-add_all v t d) ∙ value_or-added v (find t d)

pub add_all-IsDefinitions :
    (v : RwNode) (d : DefinitionsMap) → IsDefinitions d → IsDefinitions (add_all v d).1
unfolding IntervalMap.add_all
add_all-IsDefinitions v d i = record {
  ordered = λ t.
      rw (offsets-add_all v t d) ((add_all-IsAddedAll v 0 (offsets t d) (i.ordered t)).ordered);
  inhabited = λ t m h. kept t (find t d) refl m (sym (find-add_all v t d) ∙ h);
}
  where
    kept :
        (t : RwNode) (o : Option Mapping)
        → find t d ≡ o
        → (m : Mapping) → added v o ≡ some m
        → m ≢ []
    kept t none e m h q = cc
    kept t (some []) e m h q = i.inhabited t [] e refl
    kept t (some (a ∷ b)) e m h q = cc

-- addAll adds the node to every entry: it defines the bytes that have an entry.
pub add_all-defines :
    (v : RwNode) (d : DefinitionsMap)
    → IsDefinitions d
    → (t : RwNode) (x : Offset) (w : RwNode)
    → defines (add_all v d).1 t x w ≡ (defines d t x w || covered (offsets t d) x && v == w)
add_all-defines v d i t x w =
    ap (λ m. has m x w) (offsets-add_all v t d)
    ∙ (add_all-IsAddedAll v 0 (offsets t d) (i.ordered t)).stored x w

pub has-covered : (m : Mapping) (x w : ℕ) → has m x w ≡ true → covered m x ≡ true
has-covered [] x w h = cc
has-covered (e ∷ m) x w h = ground (arith, has-covered m x w)
