-- ===== src/PointerAnalysis/Memory/Merge.antt =====
-- include/dg/PointerAnalysis/MemoryObject.h: merging a memory object into another.
use llvmdg.Common.{
  suc, ◌≡◌, refl, ap, ◌∙◌, Bool, false, ◌&&◌, ◌||◌, ◌==◌, if◌then◌else◌, [], ◌∷◌, Option, none,
  some, arith, All, Bool-cases, inl, inr, ==_iff,
}
use llvmdg.Offset.{Offset}
use llvmdg.Std.OrderedMap.{find, assign, Sorted, find_below, value_or, All-assign, All-find}
use llvmdg.PointsTo.{Node}
use llvmdg.PointsTo.Sets.{PointsToSets}
use llvmdg.PointerAnalysis.Machine.{MemoryObject}
use llvmdg.PointerAnalysis.Memory.{stored, merge}
use llvmdg.PointerAnalysis.Objects.{stored-assign}

module _ (I : PointsToSets) where
  abbrev pub AllValid : MemoryObject I → Type 0
  AllValid mo = All (λ e. I.Valid e.1) mo

  stored-Valid : (off : Offset) (mo : MemoryObject I) → AllValid mo → I.Valid (stored I off mo)
  stored-Valid off mo a = found (find off mo) refl
    where
      found : (x : Option I.Set) → find off mo ≡ x → I.Valid (value_or I.nothing x)
      found none e = I.nothing-Valid
      found (some x) e = All-find I.Valid off x mo a e

  -- One entry is merged.
  merge_entry : Offset → I.Set → MemoryObject I → Bool × MemoryObject I
  merge_entry off ps mo =
      let r = I.add_set ps (stored I off mo) in
      if◌then◌else◌ {A = Bool × MemoryObject I} (I.empty ps) (false, mo) (r.0, assign off r.1 mo)

  -- What merging makes of an object, on the pointers that it holds at each offset
  pub record IsMerged (more : Offset → Node → Offset → Bool) (mo : MemoryObject I)
      (r : Bool × MemoryObject I) : Type 0 where
    pub valid : AllValid r.1
    pub pointers :
        (o : Offset) (u : Node) (q : Offset)
        → I.points_to (stored I o r.1) u q ≡ (I.points_to (stored I o mo) u q || more o u q)
    pub unchanged :
        r.0 ≡ false
        → (o : Offset) (u : Node) (q : Offset)
        → I.points_to (stored I o r.1) u q ≡ I.points_to (stored I o mo) u q

  merge_entry-IsMerged :
      (off : Offset) (ps : I.Set) (mo : MemoryObject I)
      → I.Valid ps
      → AllValid mo
      → IsMerged (λ o u q. off == o && I.points_to ps u q) mo (merge_entry off ps mo)
  unfolding merge_entry
  merge_entry-IsMerged off ps mo w a = elim (Bool-cases (I.empty ps)) [
    | inl none_there ↦ rw none_there (record {
      valid = a;
      pointers = λ o u q. ground (arith, I.empty_law ps u q none_there);
      unchanged = λ h o u q. refl;
    })
    | inr some_there ↦
        let v = I.add_set_law ps (stored I off mo) w (stored-Valid off mo a) in
        rw some_there (record {
          valid = All-assign (λ e. I.Valid e.1) off (I.add_set ps (stored I off mo)).1 mo v.valid a;
          pointers = λ o u q. elim (Bool-cases (off == o)) [
            | inl here ↦
                let e : off ≡ o = (==_iff off o).0 here in
                rw (stored-assign I off o (I.add_set ps (stored I off mo)).1 mo, here)
                  (v.pointers u q
                    ∙ ap (λ k. I.points_to (stored I k mo) u q || I.points_to ps u q) e)
            | inr there ↦
                rw (stored-assign I off o (I.add_set ps (stored I off mo)).1 mo, there)
                  (ground arith)
          ];
          unchanged = λ h o u q. elim (Bool-cases (off == o)) [
            | inl here ↦
                let e : off ≡ o = (==_iff off o).0 here in
                rw (stored-assign I off o (I.add_set ps (stored I off mo)).1 mo, here)
                  (v.unchanged h u q ∙ ap (λ k. I.points_to (stored I k mo) u q) e)
            | inr there ↦
                rw (stored-assign I off o (I.add_set ps (stored I off mo)).1 mo, there) refl
          ];
        })
  ]

  stored-cons :
      (off : Offset) (ps : I.Set) (rhs : MemoryObject I) (o : Offset) (u : Node) (q : Offset)
      → Sorted (suc off) rhs
      → I.points_to (stored I o ((off, ps) ∷ rhs)) u q
        ≡ ((off == o && I.points_to ps u q) || I.points_to (stored I o rhs) u q)
  unfolding find
  stored-cons off ps rhs o u q s = elim (Bool-cases (off == o)) [
    | inl here ↦
        let e : find o rhs ≡ none = find_below (suc off) o rhs s (ground arith) in
        rw (here, e) (ground (arith, I.nothing-points_to u q))
    | inr there ↦ rw there (ground arith)
  ]

  merge-bounded :
      (lo : Offset) (rhs mo : MemoryObject I)
      → Sorted lo rhs
      → AllValid rhs
      → AllValid mo
      → IsMerged (λ o. I.points_to (stored I o rhs)) mo (merge I rhs mo)
  unfolding merge merge_entry find
  merge-bounded lo [] mo s w a = record {
    valid = a;
    pointers = λ o u q. ground (arith, I.nothing-points_to u q);
    unchanged = λ h o u q. refl;
  }
  merge-bounded lo ((off, ps) ∷ rhs) mo s w a =
      let this = merge_entry-IsMerged off ps mo w.0 a in
      let rest = merge-bounded (suc off) rhs (merge_entry off ps mo).1 s.1 w.1 this.valid in
      record {
        valid = rest.valid;
        pointers = λ o u q.
            ground
              (arith, rest.pointers o u q, this.pointers o u q, stored-cons off ps rhs o u q s.1);
        unchanged = λ h o u q.
            rest.unchanged (ground (arith, h)) o u q ∙ this.unchanged (ground (arith, h)) o u q;
      }

  -- Merging an object into another adds to each offset the pointers that the first holds there, and
  -- nothing else. If it reports no change, no offset holds other pointers than before.
  pub merge-IsMerged :
      (rhs mo : MemoryObject I)
      → Sorted 0 rhs
      → AllValid rhs
      → AllValid mo
      → IsMerged (λ o. I.points_to (stored I o rhs)) mo (merge I rhs mo)
  merge-IsMerged rhs mo s w a = merge-bounded 0 rhs mo s w a
