-- ===== src/PointerAnalysis/Rules.antt =====
-- Rules for the commands of the pointer analysis: sequences and loops.
use llvmdg.Common.{refl, ◌∙◌, Bool, false, ◌||◌, List, [], ◌∷◌, Option, some, All, arith}
use llvmdg.PointsTo.Sets.{PointsToSets}
use llvmdg.PointerAnalysis.{Setting}
use llvmdg.PointerAnalysis.Machine.{State, M, or_else, or_each, ◌>>=◌, return, after}
use llvmdg.PointerAnalysis.Invariant.{
  Grows, Grows-refl, Grows-trans, IsSame, IsSame-refl, IsSame-trans, IsStable, IsSound, Ran,
}

module _ (I : PointsToSets) (c : Setting) where
  pub return-Ran :
      (s : State I) (b : Bool) {Q : State I → Type 0}
      → IsSound I c s
      → Q s
      → Ran I c s Q (some (b, s))
  return-Ran s b v q = record {
    result = (b, s);
    returns = refl;
    sound = v;
    grows = Grows-refl I s;
    unchanged = λ h. IsSame-refl I s;
    post = q;
  }

  -- A weaker conclusion
  pub Ran-weaken :
      {s : State I} {Q R : State I → Type 0} {r : Option (Bool × State I)}
      → Ran I c s Q r
      → ((s' : State I) → IsSound I c s' → Grows I s s' → Q s' → R s')
      → Ran I c s R r
  Ran-weaken a f = record {
    result = a.result;
    returns = a.returns;
    sound = a.sound;
    grows = a.grows;
    unchanged = a.unchanged;
    post = f a.result.1 a.sound a.grows a.post;
  }

  -- A command run at a later state that holds the same pointers
  pub Ran-after :
      {s t : State I} {Q : State I → Type 0} {r : Option (Bool × State I)}
      → Grows I s t
      → IsSame I s t
      → Ran I c t Q r
      → Ran I c s Q r
  Ran-after g e a = record {
    result = a.result;
    returns = a.returns;
    sound = a.sound;
    grows = Grows-trans I g a.grows;
    unchanged = λ h. IsSame-trans I e (a.unchanged h);
    post = a.post;
  }

  pub or_else-Ran :
      (s : State I) (a b : M I Bool) {Q R : State I → Type 0}
      → IsStable I Q
      → Ran I c s Q (a s)
      → ((s' : State I) → IsSound I c s' → Grows I s s' → Ran I c s' R (b s'))
      → Ran I c s (λ t. Q t × R t) (or_else a b s)
  or_else-Ran s a b stable x f =
      let first = x in
      let y = f first.result.1 first.sound first.grows in
      record {
        result = (first.result.0 || y.result.0, y.result.1);
        returns =
            after (λ p. b >>= λ q. return (p || q)) first.returns
            ∙ after (λ q. return (first.result.0 || q)) y.returns;
        sound = y.sound;
        grows = Grows-trans I first.grows y.grows;
        unchanged =
            λ h. IsSame-trans I (first.unchanged (ground arith)) (y.unchanged (ground arith));
        post = (stable first.result.1 y.result.1 y.grows first.post, y.post);
      }

  pub or_each-Ran :
      {A : Type 0} (s : State I) (f : A → M I Bool) (xs : List A) (Q : A → State I → Type 0)
      (G : A → Type 0)
      → ((x : A) → IsStable I (Q x))
      → ((x : A) (s' : State I) → G x → IsSound I c s' → Grows I s s' → Ran I c s' (Q x) (f x s'))
      → IsSound I c s
      → All G xs
      → Ran I c s (λ t. All (λ x. Q x t) xs) (or_each f xs s)
  or_each-Ran s f [] Q G stable step v g = return-Ran s false v tt
  or_each-Ran s f (x ∷ xs) Q G stable step v g =
      or_else-Ran s (f x) (or_each f xs) (stable x) (step x s g.0 v (Grows-refl I s)) λ s' w h.
        or_each-Ran s' f xs Q G stable (λ y t gy wy hy. step y t gy wy (Grows-trans I h hy)) w g.1
