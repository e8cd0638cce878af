-- ===== src/MemorySsa/DefinitionsMap/Lookup.antt =====
-- include/dg/MemorySSA/DefinitionsMap.h: get, on which nodes define a byte of the site.
use llvmdg.Common.{◌≤◌, ◌≡◌, ◌≢◌, ◌↔◌, refl, true, List, [], Option, none, some}
use llvmdg.Std.OrderedMap.{find, value_or}
use llvmdg.Std.OrderedSet.{mem}
use llvmdg.Offset.{Offset}
use llvmdg.IntervalMap.{Interval, Mapping}
use llvmdg.IntervalMap.Order.{IsProper, Ordered, within}
use llvmdg.IntervalMap.Query.{gather}
use llvmdg.IntervalMap.Query.Gather.{StoredOn, gather-mem}
use llvmdg.MemorySsa.{RwNode, DefSite, get_interval}
use llvmdg.MemorySsa.DefinitionsMap.{DefinitionsMap, get}
use llvmdg.MemorySsa.DefinitionsMap.Meaning.{IsDefinitions, defines}

-- The node defines some byte of the site.
abbrev pub DefinesOn : DefinitionsMap → DefSite → RwNode → Type 0
DefinesOn d ds w =
    (x : Offset) × (within (get_interval ds) x ≡ true) × (defines d ds.target x w ≡ true)

abbrev Found : Option Mapping → Interval → Option (List RwNode) → Type 0
Found o i r =
    (vs : List RwNode) × (r ≡ some vs)
    × ((w : RwNode) → (mem vs w ≡ true) ↔ StoredOn i (value_or [] o) w)

found :
    (o : Option Mapping) (i : Interval)
    → i.start ≤ i.end
    → Ordered 0 (value_or [] o)
    → ((m : Mapping) → o ≡ some m → m ≢ [])
    → Found o i (elim o [ none ↦ some [] | some m ↦ gather i m ])
unfolding mem
found none i p s n = ([], refl, λ w. ((λ h. cc), λ h. cc (h.2)))
found (some m) i p s n = gather-mem i m p s (n m refl)

-- On what add, update and addAll keep of the map, get returns, and what it returns are exactly the
-- nodes that define some byte of the site.
pub get-mem :
    (ds : DefSite) (d : DefinitionsMap)
    → IsProper (get_interval ds)
    → IsDefinitions d
    → (vs : List RwNode) × (get ds d ≡ some vs)
      × ((w : RwNode) → (mem vs w ≡ true) ↔ DefinesOn d ds w)
unfolding get
get-mem ds d p v =
    found (find ds.target d) (get_interval ds) p.ordered (v.ordered ds.target)
      (v.inhabited ds.target)
