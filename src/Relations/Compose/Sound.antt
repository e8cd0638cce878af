-- ===== src/Relations/Compose/Sound.antt =====
-- compose never aborts, and what it returns holds along any middle value.
use llvmdg.Common.{
  ℕ, ◌≡◌, inl, inr, refl, sym, subst, true, ◌&&◌, arith, some, List, [], ◌∷◌, Bool-cases,
}
use llvmdg.Relations.{
  RelationType, eq, sle, slt, ule, ult, sge, sgt, uge, ugt, Relations, has, set, no_relations, all,
  get_strict, add_implied,
}
use llvmdg.Relations.Meaning.{Holds, AllHold, set_sound}
use llvmdg.Relations.Implied.{add_implied_sound}
use llvmdg.Relations.Compose.{
  transitive_over, composed, compose_pair, compose_row, compose_rows, compose,
}

module _ (b : ℕ) (Points : ℕ → ℕ → Type 0) where
  abbrev Along : RelationType → RelationType → RelationType → Type 0
  Along p q t = (x y z : ℕ) → Holds b Points p x y → Holds b Points q y z → Holds b Points t x z

  composed-Along :
      (p q : RelationType)
      → transitive_over p q ≡ true
      → (t : RelationType) × (composed p q ≡ some t) × Along p q t
  unfolding transitive_over composed get_strict
  composed-Along sle sle h = (sle, refl, λ x y z k l. omega arith)
  composed-Along sle slt h = (slt, refl, λ x y z k l. omega arith)
  composed-Along slt sle h = (slt, refl, λ x y z k l. omega arith)
  composed-Along slt slt h = (slt, refl, λ x y z k l. omega arith)
  composed-Along ule ule h = (ule, refl, λ x y z k l. omega arith)
  composed-Along ule ult h = (ult, refl, λ x y z k l. omega arith)
  composed-Along ult ule h = (ult, refl, λ x y z k l. omega arith)
  composed-Along ult ult h = (ult, refl, λ x y z k l. omega arith)
  composed-Along sge sge h = (sge, refl, λ x y z k l. omega arith)
  composed-Along sge sgt h = (sgt, refl, λ x y z k l. omega arith)
  composed-Along sgt sge h = (sgt, refl, λ x y z k l. omega arith)
  composed-Along sgt sgt h = (sgt, refl, λ x y z k l. omega arith)
  composed-Along uge uge h = (uge, refl, λ x y z k l. omega arith)
  composed-Along uge ugt h = (ugt, refl, λ x y z k l. omega arith)
  composed-Along ugt uge h = (ugt, refl, λ x y z k l. omega arith)
  composed-Along ugt ugt h = (ugt, refl, λ x y z k l. omega arith)
  composed-Along p q h = cc

  -- A set of relations that a step of the loops makes of another one, for values related so far.
  abbrev Keeps : Relations → RelationType → Relations → Relations → Type 0
  Keeps rt p result r =
      (x y z : ℕ)
      → Holds b Points p x y
      → AllHold b Points rt y z
      → AllHold b Points result x z
      → AllHold b Points r x z

  compose_pair_sound :
      (rt : Relations) (p q : RelationType) (result : Relations)
      → (r : Relations) × (compose_pair rt p q result ≡ some r) × Keeps rt p result r
  unfolding compose_pair
  compose_pair_sound rt p q result = elim (Bool-cases (has rt q && transitive_over p q)) [
    | inr skip ↦ (result, rw skip, λ x y z hp hrt h. h)
    | inl go ↦
        let (t, e, along) = composed-Along p q (ground arith) in
        (
          set t true result,
          rw (go, e),
          λ x y z hp hrt h.
              set_sound b Points x z t result (along x y z hp (hrt q (ground arith))) h,
        )
  ]

  compose_row_sound :
      (rt : Relations) (p : RelationType) (qs : List RelationType) (result : Relations)
      → (r : Relations) × (compose_row rt p qs result ≡ some r) × Keeps rt p result r
  unfolding compose_row
  compose_row_sound rt p [] result = (result, refl, λ x y z hp hrt h. h)
  compose_row_sound rt p (q ∷ qs) result =
      let (r, e, keep) = compose_pair_sound rt p q result in
      let (r', e', keep') = compose_row_sound rt p qs r in
      (r', rw (e, compose_row) e', λ x y z hp hrt h. keep' x y z hp hrt (keep x y z hp hrt h))

  compose_rows_sound :
      (lt rt : Relations) (ps : List RelationType) (result : Relations)
      → (r : Relations) × (compose_rows lt rt ps result ≡ some r)
        × ((x y z : ℕ)
            → AllHold b Points lt x y
            → AllHold b Points rt y z
            → AllHold b Points result x z
            → AllHold b Points r x z)
  unfolding compose_rows
  compose_rows_sound lt rt [] result = (result, refl, λ x y z hlt hrt h. h)
  compose_rows_sound lt rt (p ∷ ps) result = elim (Bool-cases (has lt p)) [
    | inr skip ↦
        let (r, e, keep) = compose_rows_sound lt rt ps result in
        (r, rw (skip, compose_rows) e, keep)
    | inl go ↦
        let (r, e, keep) = compose_row_sound rt p all result in
        let (r', e', keep') = compose_rows_sound lt rt ps r in
        (
          r',
          rw (go, e, compose_rows) e',
          λ x y z hlt hrt h. keep' x y z hlt hrt (keep x y z (hlt p go) hrt h),
        )
  ]

  -- compose never aborts. Where the left relations hold of `x` and `y`, and the right ones of `y` and
  -- `z`, all the relations that it returns hold of `x` and `z`, in every width of the values.
  pub compose_sound :
      (lt rt : Relations)
      → (r : Relations) × (compose lt rt ≡ some r)
        × ((x y z : ℕ) → AllHold b Points lt x y → AllHold b Points rt y z → AllHold b Points r x z)
  unfolding compose
  compose_sound lt rt = elim (Bool-cases (has lt eq)) [
    | inl left ↦
        (rt, rw left, λ x y z hlt hrt. subst (λ u. AllHold b Points rt u z) (sym (hlt eq left)) hrt)
    | inr no_left ↦ elim (Bool-cases (has rt eq)) [
      | inl right ↦ (
        lt,
        rw (no_left, right),
        λ x y z hlt hrt. subst (λ u. AllHold b Points lt x u) (hrt eq right) hlt,
      )
      | inr no_right ↦
          let (r, e, keep) = compose_rows_sound lt rt all no_relations in
          (
            add_implied r,
            rw (no_left, no_right, e),
            λ x y z hlt hrt. add_implied_sound b Points r x z (keep x y z hlt hrt (λ t q. cc)),
          )
    ]
  ]
