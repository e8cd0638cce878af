-- ===== src/MemorySsa/Definitions/Update.antt =====
-- lib/MemorySSA/Definitions.cpp: update and get, on which node defines which byte.
use llvmdg.Common.{
  ◌≡◌, ◌≢◌, ◌↔◌, refl, sym, ap, subst, ◌∙◌, Bool, true, false, ◌&&◌, ◌||◌, ◌==◌, List, [], ◌∷◌,
  Option, some, arith, any, All, ==_iff,
}
use llvmdg.Std.OrderedSet.{mem}
use llvmdg.Offset.{Offset}
use llvmdg.IntervalMap.Order.{within}
use llvmdg.MemorySsa.{RwNode, DefSite, get_interval}
use llvmdg.MemorySsa.DefinitionsMap.Meaning.{IsDefinitions, defines}
use llvmdg.MemorySsa.DefinitionsMap.Lookup.{get-mem}
use llvmdg.MemorySsa.Definitions.{
  Annotations, Definitions, define_possible, defining, update, get, or_unknown,
}
use llvmdg.MemorySsa.Definitions.Meaning.{
  site_has, IsProperSite, is_unknown_site, known_site_has, IsAsserted, define_possible-IsPossible,
  define_possible-kills, define_definitive-IsDefinitive,
}

module _ (unknown_memory : RwNode) (is_phi : RwNode → Bool) where
  -- What update makes of the definitions of a block.
  pub record IsUpdated (node : RwNode) (a : Annotations) (s r : Definitions) : Type 0 where
    pub valid : IsDefinitions r.definitions
    pub valid_kills : IsDefinitions r.kills
    pub overwritten :
        (t : RwNode) (x : Offset) (w : RwNode)
        → any (site_has t x) a.overwrites ≡ true
        → defines r.definitions t x w ≡ (node == w)
    pub others :
        (t : RwNode) (x : Offset) (w : RwNode)
        → any (site_has t x) a.overwrites ≡ false
        → w ≢ node
        → defines r.definitions t x w ≡ defines s.definitions t x w
    pub possible :
        (t : RwNode) (x : Offset)
        → any (site_has t x) a.overwrites ≡ false
        → (any (known_site_has unknown_memory is_phi t x) a.defs || defines s.definitions t x node)
          ≡ true
        → defines r.definitions t x node ≡ true
    pub own :
        any (is_unknown_site unknown_memory is_phi) a.defs ≡ false
        → (t : RwNode) (x : Offset) → any (site_has t x) a.overwrites ≡ false
        → defines r.definitions t x node ≡ (
            any (known_site_has unknown_memory is_phi t x) a.defs || defines s.definitions t x node)
    pub everywhere :
        any (is_unknown_site unknown_memory is_phi) a.defs ≡ true
        → (t : RwNode) (x : Offset) (w : RwNode) → defines s.definitions t x w ≡ true
        → defines r.definitions t x node ≡ true
    pub kills :
        (t : RwNode) (x : Offset) (w : RwNode)
        → defines r.kills t x w
          ≡ ((any (site_has t x) a.overwrites && node == w) || defines s.kills t x w)

  -- On definitions and kills that are in order, update of a node whose sites are proper and whose
  -- overwrites pass its assertions returns, and keeps the order. A byte that the node overwrites is
  -- defined by this node alone. At any other byte the other nodes stay, and the node defines it if it
  -- did before or if one of its possible definitions of known memory holds it; if none of them is of
  -- unknown memory, it defines no more bytes, and otherwise it defines each byte that any node
  -- defined. The kills gain the node at the bytes that it overwrites.
  pub update-IsUpdated :
      (node : RwNode) (a : Annotations) (defnode : Option RwNode) (s : Definitions)
      → All IsProperSite a.defs
      → All IsProperSite a.overwrites
      → All
          (IsAsserted unknown_memory is_phi (defining unknown_memory is_phi node defnode))
          a.overwrites
      → IsDefinitions s.definitions
      → IsDefinitions s.kills
      → (r : Definitions) × (update unknown_memory is_phi node a defnode s ≡ some r)
        × IsUpdated (defining unknown_memory is_phi node defnode) a s r
  unfolding update
  update-IsUpdated node a defnode s pd po ok v k =
      let by = defining unknown_memory is_phi node defnode in
      let p = define_possible-IsPossible unknown_memory is_phi by a.defs s pd v in
      let same = define_possible-kills unknown_memory is_phi by a.defs s in
      let (r, e, d) =
        define_definitive-IsDefinitive unknown_memory is_phi by a.overwrites
          (define_possible unknown_memory is_phi by a.defs s) po ok p.valid
          (subst IsDefinitions (sym same) k) in
      (
        r,
        e,
        record {
          valid = d.valid;
          valid_kills = d.valid_kills;
          overwritten = λ t x w h. ground (arith, d.definitions t x w);
          others = λ t x w h n. ground (arith, d.definitions t x w, p.others t x w n);
          possible = λ t x q h. ground (arith, d.definitions t x by, p.own t x h);
          own = λ h t x q. ground (arith, d.definitions t x by, p.exact h t x);
          everywhere = λ h t x w q. ground (arith, d.definitions t x by, p.everywhere h t x w q);
          kills = λ t x w.
              d.kills t x w
              ∙ ap (λ m. any (site_has t x) a.overwrites && by == w || defines m t x w) same;
        },
      )

  found_any :
      (writes found : List RwNode) (n : RwNode)
      → mem found n ≡ true
      → or_unknown writes found ≡ found
  unfolding or_unknown mem
  found_any writes [] n h = cc
  found_any writes (f ∷ found) n h = refl

  -- Let the definitions and the kills be in order, the sites of a node be proper and its overwrites
  -- pass the assertions. Once the node has updated the definitions, get of a proper site whose bytes
  -- the node all overwrites returns exactly this node.
  pub get-update :
      (node : RwNode) (a : Annotations) (defnode : Option RwNode) (s : Definitions) (ds : DefSite)
      → All IsProperSite a.defs
      → All IsProperSite a.overwrites
      → All
          (IsAsserted unknown_memory is_phi (defining unknown_memory is_phi node defnode))
          a.overwrites
      → IsDefinitions s.definitions
      → IsDefinitions s.kills
      → IsProperSite ds
      → ((x : Offset)
          → within (get_interval ds) x ≡ true
          → any (site_has ds.target x) a.overwrites ≡ true)
      → (r : Definitions) × (vs : List RwNode) × (update unknown_memory is_phi node a defnode s
          ≡ some r)
        × (get ds r ≡ some vs)
        × ((w : RwNode) → (mem vs w ≡ true) ↔ (w ≡ defining unknown_memory is_phi node defnode))
  unfolding get
  get-update node a defnode s ds pd po ok v k p inside =
      let by = defining unknown_memory is_phi node defnode in
      let (r, e, u) = update-IsUpdated node a defnode s pd po ok v k in
      let (vs, f, all) = get-mem ds r.definitions p u.valid in
      let start = (get_interval ds).start in
      let first : within (get_interval ds) start ≡ true = ground (arith, p.ordered) in
      let here : mem vs by ≡ true = (all by).1 (
        start,
        first,
        u.overwritten ds.target start by (inside start first) ∙ (==_iff by by).1 refl,
      ) in
      (
        r,
        vs,
        e,
        rw (f, get) (ap some (found_any r.unknown_writes vs by here)),
        λ w. (
          λ h.
              let (x, q, d) = (all w).0 h in
              sym ((==_iff by w).0 (sym (u.overwritten ds.target x w (inside x q)) ∙ d)),
          λ h. subst (λ n. mem vs n ≡ true) (sym h) here,
        ),
      )
