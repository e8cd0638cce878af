-- ===== src/MemorySsa/DefinitionsMap.antt =====
-- include/dg/MemorySSA/DefinitionsMap.h: which nodes define which bytes of which memory. The hash map
-- of the class is read as an ordered one.
pub mod Everywhere
pub mod Lookup
pub mod Meaning
use llvmdg.Common.{
  ℕ, Bool, true, false, ◌||◌, if◌then◌else◌, List, [], ◌∷◌, Option, none, some, is_empty, length,
}
use llvmdg.Std.OrderedMap.{find, assign, value_or, emplace}
use llvmdg.Std.OrderedSet.{insert_all}
use llvmdg.Offset.{plus, minus}
use llvmdg.IntervalMap
use llvmdg.IntervalMap.{Interval, Mapping, interval, add_values}
use llvmdg.IntervalMap.Query.{gather, uncovered}
use llvmdg.MemorySsa.{RwNode, DefSite, get_interval}

abbrev pub DefinitionsMap : Type 0
DefinitionsMap = List (RwNode × Mapping)

-- _definitions[target]
abbrev pub offsets : RwNode → DefinitionsMap → Mapping
offsets t d = value_or [] (find t d)

-- add(ds, node)
unfoldable pub add : DefSite → RwNode → DefinitionsMap → Bool × DefinitionsMap
add ds node d =
    let r = IntervalMap.add (get_interval ds) node (offsets ds.target d) in
    (r.0, assign ds.target r.1 d)

-- update(ds, node)
unfoldable pub update : DefSite → RwNode → DefinitionsMap → Bool × DefinitionsMap
update ds node d =
    let r = IntervalMap.update (get_interval ds) node (offsets ds.target d) in
    (r.0, assign ds.target r.1 d)

-- addAll
unfoldable pub add_all : RwNode → DefinitionsMap → Bool × DefinitionsMap
add_all node [] = (false, [])
add_all node ((t, m) ∷ d) =
    let r = IntervalMap.add_all node m in
    let rest = add_all node d in (r.0 || rest.0, (t, r.1) ∷ rest.1)

-- add(ds, nodes) and update(ds, nodes)
unfoldable pub add_nodes : DefSite → List RwNode → DefinitionsMap → Bool × DefinitionsMap
add_nodes ds [] d = (false, d)
add_nodes ds (n ∷ ns) d =
    let first = add ds n d in let rest = add_nodes ds ns first.1 in (first.0 || rest.0, rest.1)

unfoldable pub update_nodes : DefSite → List RwNode → DefinitionsMap → Bool × DefinitionsMap
update_nodes ds [] d = (false, d)
update_nodes ds (n ∷ ns) d =
    let first = update ds n d in
    let rest = update_nodes ds ns first.1 in (first.0 || rest.0, rest.1)

-- add(defsites, n)
unfoldable pub add_sites : List DefSite → RwNode → DefinitionsMap → Bool × DefinitionsMap
add_sites [] n d = (false, d)
add_sites (ds ∷ sites) n d =
    let first = add ds n d in let rest = add_sites sites n first.1 in (first.0 || rest.0, rest.1)

-- add(target, elems)
unfoldable pub add_target : RwNode → Mapping → DefinitionsMap → Bool × DefinitionsMap
add_target t [] d = (false, d)
add_target t (e ∷ elems) d =
    let first = add_values false e.key e.values (offsets t d) in
    let rest = add_target t elems (assign t first.1 d) in (first.0 || rest.0, rest.1)

-- add(rhs)
unfoldable pub add_map : DefinitionsMap → DefinitionsMap → Bool × DefinitionsMap
add_map [] d = (false, d)
add_map ((t, m) ∷ rhs) d =
    let first = add_target t m d in let rest = add_map rhs first.1 in (first.0 || rest.0, rest.1)

-- get; none is the step before the begin of an empty map.
unfoldable pub get : DefSite → DefinitionsMap → Option (List RwNode)
get ds d = elim (find ds.target d) [ none ↦ some [] | some m ↦ gather (get_interval ds) m ]

-- undefinedIntervals
unfoldable pub undefined_intervals : DefSite → DefinitionsMap → List Interval
undefined_intervals ds d = elim (find ds.target d) [
  | none ↦ interval ds.offset (plus ds.offset (minus ds.len 1)) ∷ []
  | some m ↦ uncovered (get_interval ds) m
]

-- definesTarget
unfoldable pub defines_target : RwNode → DefinitionsMap → Bool
defines_target t d = elim (find t d) [ none ↦ false | some m ↦ true ]

-- filter
unfoldable pub filter_map : (RwNode → Bool) → DefinitionsMap → DefinitionsMap → DefinitionsMap
filter_map keep [] tmp = tmp
filter_map keep ((t, m) ∷ d) tmp = filter_map keep d (if keep t then emplace t m tmp else tmp)

-- values
abbrev pub mapping_values : Mapping → List RwNode → List RwNode
mapping_values [] ret = ret
mapping_values (e ∷ m) ret = mapping_values m (insert_all e.values ret)

unfoldable pub values : DefinitionsMap → List RwNode → List RwNode
values [] ret = ret
values ((t, m) ∷ d) ret = values d (mapping_values m ret)
