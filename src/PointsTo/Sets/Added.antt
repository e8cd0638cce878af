-- ===== src/PointsTo/Sets/Added.antt =====
-- What an addition to a points-to set means for the pointers that it may hold.
use llvmdg.Common.{
  ◌≡◌, refl, ap, Bool, true, false, ◌==◌, Bool-cases, inl, inr, ◌⊎◌, arith, ==_iff, ==_refl,
}
use llvmdg.Offset.{Offset, unknown, is_unknown}
use llvmdg.PointsTo.{Node, Pointer}
use llvmdg.PointsTo.Spec.{Pointers, may}
use llvmdg.PointsTo.Sets.{IsAddedTo, IsUnited}

module _ {S : Type 0} {V : S → Type 0} {P : S → Pointers} {p : Pointer} {s : S} {r : Bool × S}
    (a : IsAddedTo V P p s r) where
  pub added_more : (u : Node) (q : Offset) → may (P s) u q ≡ true → may (P r.1) u q ≡ true
  added_more u q h = elim (Bool-cases (p.target == u)) [
    | inl same ↦
        let e : p.target ≡ u = ground arith in
        ground (arith, a.pointers u q, a.pointers u unknown, ap (λ n. P s n unknown) e)
    | inr other ↦ ground (arith, a.pointers u q, a.pointers u unknown)
  ]

  pub added_here : may (P r.1) p.target p.offset ≡ true
  added_here = ground (
    arith,
    a.pointers p.target p.offset,
    a.pointers p.target unknown,
    ==_refl p.target,
    ==_refl p.offset,
    known (is_unknown p.offset) refl,
  )
    where
      known : (b : Bool) → is_unknown p.offset ≡ b → b ≡ true → p.offset ≡ unknown
      known b e h = ground arith

  pub added_from : (u : Node) (q : Offset) → P r.1 u q ≡ true → (p.target ≡ u) ⊎ (P s u q ≡ true)
  added_from u q h = elim (Bool-cases (p.target == u)) [
    | inl same ↦ inl ((==_iff p.target u).0 same)
    | inr other ↦ inr (ground (arith, a.pointers u q))
  ]

  pub added_same : r.0 ≡ false → (u : Node) (q : Offset) → P r.1 u q ≡ P s u q
  added_same h u q = elim (Bool-cases (p.target == u)) [
    | inl same ↦ elim (Bool-cases (p.offset == q)) [
      | inl equal ↦
          let e : p.target ≡ u = ground arith in
          let f : p.offset ≡ q = ground arith in
          ground (
            arith,
            a.pointers u q,
            a.reports,
            ap (λ n. P s n unknown) e,
            ap (λ n. P s n p.offset) e,
            ap (P s u) f,
          )
      | inr different ↦
          let e : p.target ≡ u = ground arith in
          let f : is_unknown p.offset ≡ true → p.offset ≡ unknown =
            λ k. (==_iff p.offset unknown).0 k in
          elim (Bool-cases (is_unknown p.offset)) [
            | inl all ↦ ground (arith, a.pointers u q, a.reports, ap (P s p.target) (f all))
            | inr one ↦ ground (arith, a.pointers u q, a.reports)
          ]
    ]
    | inr other ↦ ground (arith, a.pointers u q)
  ]

module _ {S : Type 0} {V : S → Type 0} {P : S → Pointers} {rhs s : S} {r : Bool × S}
    (a : IsUnited V P rhs s r) where
  pub united_more : (u : Node) (q : Offset) → may (P s) u q ≡ true → may (P r.1) u q ≡ true
  united_more u q h = ground (arith, a.pointers u q, a.pointers u unknown)

  pub united_here : (u : Node) (q : Offset) → may (P rhs) u q ≡ true → may (P r.1) u q ≡ true
  united_here u q h = ground (arith, a.pointers u q, a.pointers u unknown)

  pub united_from :
      (u : Node) (q : Offset) → P r.1 u q ≡ true → (P s u q ≡ true) ⊎ (P rhs u q ≡ true)
  united_from u q h = elim (Bool-cases (P s u q)) [
    | inl old ↦ inl old
    | inr new ↦ inr (ground (arith, a.pointers u q))
  ]
