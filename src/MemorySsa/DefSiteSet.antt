-- ===== src/MemorySsa/DefSiteSet.antt =====
-- include/dg/ReadWriteGraph/DefSite.h: sets of definition sites, in the order of operator<.
use llvmdg.Common.{◌≡◌, refl, ◌&&◌, List, [], ◌∷◌, Option, none, some, if◌then◌else◌, is_empty}
use llvmdg.Std.OrderedMap.{find, assign, value_or}
use llvmdg.MemorySsa.{RwNode, DefSite, site_lt, site_eq, get_interval}
use llvmdg.MemorySsa.IntervalsList
use llvmdg.MemorySsa.IntervalsList.{IntervalsList, interval_length, intersect_with}
use llvmdg.MemorySsa.IntervalsList.Add.{add_nil}

abbrev pub DefSiteSet : Type 0
DefSiteSet = List DefSite

-- insert and emplace of std::set
unfoldable pub insert_site : DefSite → DefSiteSet → DefSiteSet
unfolding site_lt site_eq
insert_site ds [] = ds ∷ []
insert_site ds (e ∷ s) =
    let rest = insert_site ds s in
    if site_lt ds e then ds ∷ e ∷ s else if site_eq ds e then e ∷ s else e ∷ rest

-- add
unfoldable pub add : List DefSite → DefSiteSet → DefSiteSet
add [] s = s
add (e ∷ c) s = add c (insert_site e s)

abbrev pub SitesMap : Type 0
SitesMap = List (RwNode × IntervalsList)

-- The loops of intersect over its two sets
unfoldable pub sites_map : DefSiteSet → SitesMap → Option SitesMap
sites_map [] m = some m
sites_map (ds ∷ s) m = elim (IntervalsList.add (get_interval ds) (value_or [] (find ds.target m))) [
  | none ↦ none
  | some l ↦ sites_map s (assign ds.target l m)
]

-- The loop over the intervals that are left of a target
unfoldable pub emplace_all : RwNode → IntervalsList → DefSiteSet → DefSiteSet
emplace_all t [] ret = ret
emplace_all t (i ∷ l) ret =
    emplace_all t l
      (insert_site (record { target = t; offset = i.start; len = interval_length i }) ret)

unfoldable pub common_sites : SitesMap → SitesMap → DefSiteSet → DefSiteSet
common_sites [] rhs ret = ret
common_sites ((t, l) ∷ lhs) rhs ret =
    common_sites lhs rhs
      (elim (find t rhs) [ none ↦ ret | some r ↦ emplace_all t (intersect_with l r) ret ])

-- intersect
unfoldable pub intersect : DefSiteSet → DefSiteSet → Option DefSiteSet
intersect a b = elim (sites_map a []) [
  | none ↦ none
  | some lhs ↦ elim (sites_map b []) [ none ↦ none | some rhs ↦ some (common_sites lhs rhs []) ]
]

sites_map_first : (ds : DefSite) (s : DefSiteSet) → sites_map (ds ∷ s) [] ≡ none
unfolding sites_map find
sites_map_first ds s = rw (add_nil (get_interval ds), sites_map) refl

-- intersect returns on two empty sets only, since the first interval of a target is added to an empty
-- list of intervals.
pub intersect_returns :
    (a b : DefSiteSet) → intersect a b ≡ (if is_empty a && is_empty b then some [] else none)
unfolding intersect sites_map common_sites
intersect_returns [] [] = refl
intersect_returns [] (ds ∷ b) = rw (sites_map_first ds b, intersect) refl
intersect_returns (ds ∷ a) b = rw (sites_map_first ds a, intersect) refl
