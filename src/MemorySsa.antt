-- ===== src/MemorySsa.antt =====
-- include/dg/ReadWriteGraph/DefSite.h: which bytes of which memory a definition is about.
pub mod DefSiteSet
pub mod Definitions
pub mod DefinitionsMap
pub mod IntervalsList
pub mod Tests
use llvmdg.Common.{
  ℕ, ◌+◌, ◌-◌, ◌≤◌, ◌<◌, ◌≡◌, ◌≢◌, ◌↔◌, Bool, true, false, ◌&&◌, ◌||◌, ◌==◌, ltb, leb,
  if◌then◌else◌, Option, none, some, arith, refl,
}
use llvmdg.Offset.{Offset, unknown, is_unknown, plus, minus}
use llvmdg.IntervalMap.{Interval, interval}
use llvmdg.IntervalMap.Order.{IsProper}

-- An RWNode by its address
abbrev pub RwNode : Type 0
RwNode = ℕ

-- GenericDefSite
pub record DefSite : Type 0 where
  pub target : RwNode
  pub offset : Offset
  pub len : Offset

-- operator<
unfoldable pub site_lt : DefSite → DefSite → Bool
site_lt a b =
    if a.target == b.target
    then if a.offset == b.offset then ltb a.len b.len else ltb a.offset b.offset
    else ltb a.target b.target

-- operator==
unfoldable pub site_eq : DefSite → DefSite → Bool
site_eq a b = a.target == b.target && (a.offset == b.offset && a.len == b.len)

-- end
unfoldable pub site_end : DefSite → Offset
site_end ds = if is_unknown ds.offset then unknown else plus ds.offset (minus ds.len 1)

-- getInterval, also of DefinitionsMap
unfoldable pub get_interval : DefSite → Interval
get_interval ds =
    if is_unknown ds.offset
    then interval 0 unknown
    else interval ds.offset (plus ds.offset (minus ds.len 1))

-- intervalsDisjunctive on the starts and lengths of two intervals; none is a failed assertion.
unfoldable pub intervals_disjunctive : Offset → Offset → Offset → Offset → Option Bool
intervals_disjunctive a a_len b b_len =
    if is_unknown a || (is_unknown b || (a_len == 0 || b_len == 0))
    then none
    else if is_unknown a_len
    then if is_unknown b_len
      then some false
      else some (if leb a b then false else leb b_len (a - b))
    else if is_unknown b_len
    then some (if leb a b then leb a_len (b - a) else false)
    else some (if leb a b then leb a_len (b - a) else leb b_len (a - b))

-- An offset lies in the interval of a start and a length; an unknown length reaches without end.
abbrev pub Lies : Offset → Offset → ℕ → Type 0
Lies start len x = (start ≤ x) × (len ≢ unknown → x < start + len)

disjunctive-apart :
    (a a_len b b_len : Offset)
    → intervals_disjunctive a a_len b b_len ≡ some true
    → (x : ℕ) → Lies a a_len x
    → Lies b b_len x
    → ⊥
unfolding intervals_disjunctive
disjunctive-apart a a_len b b_len h x k l =
    ground (arith, h, k.0, l.0, within a_len k.1, within b_len l.1)
  where
    within : (len : Offset) {P : Type 0} → (len ≢ unknown → P) → is_unknown len ≡ false → P
    within len f e = f (λ q. ground arith)

abbrev later : Offset → Offset → Offset
later a b = if leb a b then b else a

disjunctive-meet :
    (a a_len b b_len : Offset)
    → intervals_disjunctive a a_len b b_len ≡ some false
    → Lies a a_len (later a b) × Lies b b_len (later a b)
unfolding intervals_disjunctive
disjunctive-meet a a_len b b_len h =
    ((ground arith, λ k. ground arith), (ground arith, λ k. ground arith))

abbrev answer_of : Option Bool → Bool
answer_of none = false
answer_of (some r) = r

disjunctive-returns :
    (a a_len b b_len : Offset)
    → a < unknown
    → b < unknown
    → 0 < a_len
    → 0 < b_len
    → intervals_disjunctive a a_len b b_len
      ≡ some (answer_of (intervals_disjunctive a a_len b b_len))
unfolding intervals_disjunctive
disjunctive-returns a a_len b b_len ha hb la lb = ground arith

-- intervalsDisjunctive of two intervals that start at known offsets and are not empty returns. It
-- answers yes exactly if no offset lies in both.
pub intervals_disjunctive_exact :
    (a a_len b b_len : Offset)
    → a < unknown
    → b < unknown
    → 0 < a_len
    → 0 < b_len
    → (r : Bool) × (intervals_disjunctive a a_len b b_len ≡ some r)
      × ((r ≡ true) ↔ ((x : ℕ) → Lies a a_len x → Lies b b_len x → ⊥))
intervals_disjunctive_exact a a_len b b_len ha hb la lb =
    decided (answer_of (intervals_disjunctive a a_len b b_len))
      (disjunctive-returns a a_len b b_len ha hb la lb)
  where
    decided :
        (r : Bool)
        → intervals_disjunctive a a_len b b_len ≡ some r
        → (r : Bool) × (intervals_disjunctive a a_len b b_len ≡ some r)
          × ((r ≡ true) ↔ ((x : ℕ) → Lies a a_len x → Lies b b_len x → ⊥))
    decided true e = (true, e, ((λ q. disjunctive-apart a a_len b b_len e), λ f. refl))
    decided false e =
        let (k, l) = disjunctive-meet a a_len b b_len e in
        (false, e, ((λ q. cc q), λ f. absurd (f (later a b) k l)))

-- The interval of a site is proper, unless its last byte is the one before the unknown offset.
pub get_interval-IsProper :
    (ds : DefSite)
    → ds.offset ≤ unknown
    → 0 < ds.len
    → ds.len ≤ unknown
    → ds.offset + ds.len ≢ unknown
    → IsProper (get_interval ds)
unfolding get_interval plus minus
get_interval-IsProper ds h l k n = ground arith
