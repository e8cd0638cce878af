-- ===== src/MemorySsa/Definitions/Meaning.antt =====
-- lib/MemorySSA/Definitions.cpp: update, on which node defines which byte.
use llvmdg.Common.{
  ◌≡◌, ◌≢◌, refl, ◌∙◌, Bool, true, false, not, ◌&&◌, ◌||◌, ◌==◌, List, [], ◌∷◌, some, arith,
  if◌then◌else◌, Bool-cases, inl, inr, any, All,
}
use llvmdg.Offset.{Offset, is_unknown}
use llvmdg.IntervalMap.Order.{IsProper, within}
use llvmdg.MemorySsa.{RwNode, DefSite, get_interval}
use llvmdg.MemorySsa.DefinitionsMap
use llvmdg.MemorySsa.DefinitionsMap.{DefinitionsMap, offsets}
use llvmdg.MemorySsa.DefinitionsMap.Meaning.{
  IsDefinitions, defines, IsDefined, add-IsDefined, update-IsDefined,
}
use llvmdg.MemorySsa.DefinitionsMap.Everywhere.{add_all-IsDefinitions, add_all-defines, has-covered}
use llvmdg.MemorySsa.Definitions.{
  Definitions, add_unknown_write, define_possible, overwrite, define_definitive,
}

-- The site holds the byte x of the memory t.
abbrev pub site_has : RwNode → Offset → DefSite → Bool
site_has t x ds = ds.target == t && within (get_interval ds) x

abbrev pub IsProperSite : DefSite → Type 0
IsProperSite ds = IsProper (get_interval ds)

module _ (unknown_memory : RwNode) (is_phi : RwNode → Bool) where
  abbrev pub is_unknown_site : DefSite → Bool
  is_unknown_site ds = ds.target == unknown_memory

  abbrev pub known_site_has : RwNode → Offset → DefSite → Bool
  known_site_has t x ds = not (is_unknown_site ds) && site_has t x ds

  -- The assertions of update on a site that is overwritten.
  abbrev pub IsAsserted : RwNode → DefSite → Type 0
  IsAsserted defnode ds =
      ((is_phi defnode || not (is_unknown ds.offset)) ≡ true) × (is_unknown_site ds ≡ false)

  -- What the loop over the possible definitions makes of the map.
  pub record IsPossible (node : RwNode) (sites : List DefSite) (d r : DefinitionsMap) : Type 0 where
    pub valid : IsDefinitions r
    pub others :
        (t : RwNode) (x : Offset) (w : RwNode) → w ≢ node → defines r t x w ≡ defines d t x w
    pub own :
        (t : RwNode) (x : Offset)
        → (any (known_site_has t x) sites || defines d t x node) ≡ true
        → defines r t x node ≡ true
    pub exact :
        any is_unknown_site sites ≡ false
        → (t : RwNode) (x : Offset)
        → defines r t x node ≡ (any (known_site_has t x) sites || defines d t x node)
    pub everywhere :
        any is_unknown_site sites ≡ true
        → (t : RwNode) (x : Offset) (w : RwNode) → defines d t x w ≡ true
        → defines r t x node ≡ true

  IsPossible-known :
      (node : RwNode) (ds : DefSite) (sites : List DefSite) (d r : DefinitionsMap)
      → is_unknown_site ds ≡ false
      → IsDefined false ds node d (DefinitionsMap.add ds node d)
      → IsPossible node sites (DefinitionsMap.add ds node d).1 r
      → IsPossible node (ds ∷ sites) d r
  IsPossible-known node ds sites d r k a p = record {
    valid = p.valid;
    others = λ t x w n. p.others t x w n ∙ ground (arith, a.meaning t x w);
    own = λ t x h. p.own t x (ground (arith, a.meaning t x node));
    exact = λ h t x. p.exact (ground arith) t x ∙ ground (arith, a.meaning t x node);
    everywhere = λ h t x w q. p.everywhere (ground arith) t x w (ground (arith, a.meaning t x w));
  }

  IsPossible-unknown :
      (node : RwNode) (ds : DefSite) (sites : List DefSite) (d r : DefinitionsMap)
      → is_unknown_site ds ≡ true
      → IsDefinitions d
      → IsPossible node sites (DefinitionsMap.add_all node d).1 r
      → IsPossible node (ds ∷ sites) d r
  IsPossible-unknown node ds sites d r k v p = record {
    valid = p.valid;
    others = λ t x w n. p.others t x w n ∙ ground (arith, add_all-defines node d v t x w);
    own = λ t x h. p.own t x (ground (arith, add_all-defines node d v t x node));
    exact = λ h t x. ground arith;
    everywhere = λ h t x w q.
        p.own t x
          (ground (arith, add_all-defines node d v t x node, has-covered (offsets t d) x w q));
  }

  pub define_possible-IsPossible :
      (node : RwNode) (sites : List DefSite) (s : Definitions)
      → All IsProperSite sites
      → IsDefinitions s.definitions
      → IsPossible node sites s.definitions
          (define_possible unknown_memory is_phi node sites s).definitions
  unfolding define_possible add_unknown_write
  define_possible-IsPossible node [] s p v = record {
    valid = v;
    others = λ t x w n. refl;
    own = λ t x h. ground arith;
    exact = λ h t x. ground arith;
    everywhere = λ h t x w q. ground arith;
  }
  define_possible-IsPossible node (ds ∷ sites) s p v = elim (Bool-cases (is_unknown_site ds)) [
    | inl all ↦
        rw (all, define_possible)
          (IsPossible-unknown node ds sites s.definitions _ all v (
            define_possible-IsPossible node sites _ p.1
              (add_all-IsDefinitions node s.definitions v)))
    | inr known ↦
        let a = add-IsDefined ds node s.definitions p.0 v in
        rw (known, define_possible)
          (IsPossible-known node ds sites s.definitions _ known a
            (define_possible-IsPossible node sites _ p.1 a.valid))
  ]

  pub define_possible-kills :
      (node : RwNode) (sites : List DefSite) (s : Definitions)
      → (define_possible unknown_memory is_phi node sites s).kills ≡ s.kills
  unfolding define_possible add_unknown_write
  define_possible-kills node [] s = refl
  define_possible-kills node (ds ∷ sites) s = elim (Bool-cases (is_unknown_site ds)) [
    | inl all ↦ rw (all, define_possible) (define_possible-kills node sites _)
    | inr known ↦ rw (known, define_possible) (define_possible-kills node sites _)
  ]

  -- What the loop over the definitive definitions makes of the definitions and the kills.
  pub record IsDefinitive (node : RwNode) (sites : List DefSite) (s r : Definitions) : Type 0 where
    pub valid : IsDefinitions r.definitions
    pub valid_kills : IsDefinitions r.kills
    pub definitions :
        (t : RwNode) (x : Offset) (w : RwNode)
        → defines r.definitions t x w
          ≡ (if any (site_has t x) sites then node == w else defines s.definitions t x w)
    pub kills :
        (t : RwNode) (x : Offset) (w : RwNode)
        → defines r.kills t x w ≡ ((any (site_has t x) sites && node == w) || defines s.kills t x w)

  pub define_definitive-IsDefinitive :
      (node : RwNode) (sites : List DefSite) (s : Definitions)
      → All IsProperSite sites
      → All (IsAsserted node) sites
      → IsDefinitions s.definitions
      → IsDefinitions s.kills
      → (r : Definitions) × (define_definitive unknown_memory is_phi node sites s ≡ some r)
        × IsDefinitive node sites s r
  unfolding define_definitive overwrite
  define_definitive-IsDefinitive node [] s p a v k = (
    s,
    refl,
    record { valid = v; valid_kills = k; definitions = λ t x w. refl; kills = λ t x w. refl },
  )
  define_definitive-IsDefinitive node (ds ∷ sites) s p a v k =
      let d = update-IsDefined ds node s.definitions p.0 v in
      let l = add-IsDefined ds node s.kills p.0 k in
      let (r, e, i) =
        define_definitive-IsDefinitive node sites (overwrite unknown_memory is_phi node ds s) p.1
          a.1 d.valid l.valid in
      (
        r,
        rw (a.0.0, a.0.1) e,
        record {
          valid = i.valid;
          valid_kills = i.valid_kills;
          definitions = λ t x w. i.definitions t x w ∙ ground (arith, d.meaning t x w);
          kills = λ t x w. i.kills t x w ∙ ground (arith, l.meaning t x w);
        },
      )
