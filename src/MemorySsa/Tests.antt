-- ===== src/MemorySsa/Tests.antt =====
-- Runs of the definitions of a block on concrete sites.
use llvmdg.Common.{◌≡◌, ◌≢◌, any, ◌↔◌, refl, Bool, true, false, List, [], ◌∷◌, none, some, arith}
use llvmdg.Std.OrderedMap.{find}
use llvmdg.Std.OrderedSet.{mem}
use llvmdg.Offset.{Offset, unknown, plus, minus}
use llvmdg.IntervalMap.{interval}
use llvmdg.MemorySsa.{
  RwNode, DefSite, get_interval, get_interval-IsProper, Lies, intervals_disjunctive,
  intervals_disjunctive_exact,
}
use llvmdg.MemorySsa.DefinitionsMap
use llvmdg.MemorySsa.DefinitionsMap.Meaning.{IsDefinitions, empty-IsDefinitions, add-IsDefined}
use llvmdg.MemorySsa.IntervalsList
use llvmdg.MemorySsa.IntervalsList.{IntervalsList, meets}
use llvmdg.MemorySsa.IntervalsList.Add.{InOrder, add-InOrder}
use llvmdg.MemorySsa.DefSiteSet.{intersect, intersect_returns}
use llvmdg.MemorySsa.Definitions.{Annotations, Definitions, update, get}
use llvmdg.MemorySsa.Definitions.Meaning.{IsProperSite}
use llvmdg.MemorySsa.Definitions.Update.{IsUpdated, update-IsUpdated, get-update}

abbrev site : RwNode → Offset → Offset → DefSite
site t o l = record { target = t; offset = o; len = l }

abbrev head : DefSite
head = site 3 0 4

abbrev whole : DefSite
whole = site 3 0 10

abbrev elsewhere : DefSite
elsewhere = site 4 2 2

-- A write of unknown memory, which is the node 1
abbrev anywhere : DefSite
anywhere = site 1 0 8

-- The node overwrites the head of one memory; it may write another one and unknown memory.
abbrev writer : Annotations
writer = record { defs = anywhere ∷ elsewhere ∷ []; overwrites = head ∷ [] }

-- The node 5 defines the whole of the memory 3.
abbrev before : Definitions
before = record {
  processed = false;
  definitions = (DefinitionsMap.add whole 5 []).1;
  kills = [];
  unknown_writes = [];
}

abbrev no_phi : RwNode → Bool
no_phi n = false

head-IsProper : IsProperSite head
head-IsProper =
    get_interval-IsProper head (omega arith) (omega arith) (omega arith) (λ q. omega arith)

whole-IsProper : IsProperSite whole
whole-IsProper =
    get_interval-IsProper whole (omega arith) (omega arith) (omega arith) (λ q. omega arith)

anywhere-IsProper : IsProperSite anywhere
anywhere-IsProper =
    get_interval-IsProper anywhere (omega arith) (omega arith) (omega arith) (λ q. omega arith)

elsewhere-IsProper : IsProperSite elsewhere
elsewhere-IsProper =
    get_interval-IsProper elsewhere (omega arith) (omega arith) (omega arith) (λ q. omega arith)

before-IsDefinitions : IsDefinitions before.definitions
before-IsDefinitions = (add-IsDefined whole 5 [] whole-IsProper empty-IsDefinitions).valid

update-IsUpdated_example :
    (r : Definitions) × (update 1 no_phi 7 writer none before ≡ some r)
    × IsUpdated 1 no_phi 7 writer before r
update-IsUpdated_example =
    update-IsUpdated 1 no_phi 7 writer none before (anywhere-IsProper, (elsewhere-IsProper, tt))
      (head-IsProper, tt) ((refl, refl), tt) before-IsDefinitions empty-IsDefinitions

get-update_example :
    (r : Definitions) × (vs : List RwNode) × (update 1 no_phi 7 writer none before ≡ some r)
    × (get head r ≡ some vs)
    × ((w : RwNode) → (mem vs w ≡ true) ↔ (w ≡ 7))
get-update_example =
    get-update 1 no_phi 7 writer none before head (anywhere-IsProper, (elsewhere-IsProper, tt))
      (head-IsProper, tt) ((refl, refl), tt) before-IsDefinitions empty-IsDefinitions head-IsProper
      (λ x h. ground arith)

intervals_disjunctive_exact_example :
    (r : Bool) × (intervals_disjunctive 0 4 2 unknown ≡ some r)
    × ((r ≡ true) ↔ ((x : Offset) → Lies 0 4 x → Lies 2 unknown x → ⊥))
intervals_disjunctive_exact_example =
    intervals_disjunctive_exact 0 4 2 unknown (omega arith) (omega arith) (omega arith)
      (omega arith)

-- On a memory that is not there, the undefined interval of a site at the unknown offset is not the
-- one of getInterval.
undefined_missing :
    DefinitionsMap.undefined_intervals (site 3 unknown 4) [] ≡ interval unknown unknown ∷ []
unfolding DefinitionsMap.undefined_intervals find plus minus
undefined_missing = refl

interval_missing : get_interval (site 3 unknown 4) ≡ interval 0 unknown
unfolding get_interval
interval_missing = refl

abbrev two : IntervalsList
two = interval 0 4 ∷ interval 8 9 ∷ []

add-InOrder_example :
    InOrder 0 (IntervalsList.add (interval 6 6) two)
    ↔ (two ≢ []) × (any (meets (interval 6 6)) two ≡ false)
add-InOrder_example =
    add-InOrder (interval 6 6) two (omega arith)
      (omega arith, omega arith, (omega arith, omega arith, tt))

intersect_returns_example : intersect (head ∷ elsewhere ∷ []) (whole ∷ []) ≡ none
intersect_returns_example = intersect_returns (head ∷ elsewhere ∷ []) (whole ∷ [])

add_between :
    IntervalsList.add (interval 6 6) two ≡ some (interval 0 4 ∷ interval 6 6 ∷ interval 8 9 ∷ [])
unfolding IntervalsList.add IntervalsList.add_from meets
add_between = refl

-- The interval that the first one overlaps stays.
add_overlapping : IntervalsList.add (interval 3 8) two ≡ some (interval 0 4 ∷ interval 3 9 ∷ [])
unfolding IntervalsList.add IntervalsList.add_from IntervalsList.replace_overlapping
    IntervalsList.run_to meets
add_overlapping = refl

-- The first interval is trimmed to the one, and then it is below the other.
intersect_loses :
    IntervalsList.intersect_with (interval 0 10 ∷ []) (interval 0 2 ∷ interval 5 20 ∷ []) ≡ []
unfolding IntervalsList.intersect_with IntervalsList.erase_below IntervalsList.trim meets
intersect_loses = refl

-- What lies behind the last interval stays.
intersect_keeps : IntervalsList.intersect_with two (interval 0 4 ∷ []) ≡ two
unfolding IntervalsList.intersect_with IntervalsList.erase_below IntervalsList.trim meets
intersect_keeps = refl
