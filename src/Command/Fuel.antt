-- ===== src/Command/Fuel.antt =====
-- `checkParentage` of cmd/commit.go under different bounds on its questions.
use dorothy.Base.{
  ℕ, zero, suc, String, ◌≡◌, refl, ap, ◌∙◌, ◌++◌, Bool, true, false, List, [], ◌∷◌, Option, none,
  some, if◌then◌else◌,
}
use dorothy.Outcome.{Outcome, done, conflicted, failed}
use dorothy.Effects.{pure, lift}
use dorothy.Manifest.{Manifest}
use dorothy.Command.{Terminal, Partial, after, total}
use dorothy.Command.Parentage.{
  is_yes, is_no, picked, pick_parents, confirm, confirmed, check_unknown, picks, unknown_of,
  check_parentage,
}

module _ {W : Type 0} (t : Terminal W) where
  open t use {scan}

  confirm_more :
      (n : ℕ) (w : W) {x : Bool × W} → confirm t n w ≡ some x → confirm t (suc n) w ≡ some x
  unfolding confirm
  confirm_more zero w e = cc
  confirm_more (suc n) w {x} e =
      go (is_yes t (scan w).0) (is_no t (scan w).0) (confirm_more n (scan w).1) e
    where
      go :
          (y z : Bool)
          → (confirm t n (scan w).1 ≡ some x → confirm t (suc n) (scan w).1 ≡ some x)
          → (elim y [
            | true ↦ some (true, (scan w).1)
            | false ↦ elim z [ true ↦ some (false, (scan w).1) | false ↦ confirm t n (scan w).1 ]
          ])
            ≡ some x
          → (elim y [
            | true ↦ some (true, (scan w).1)
            | false ↦ elim z [
              | true ↦ some (false, (scan w).1)
              | false ↦ confirm t (suc n) (scan w).1
            ]
          ])
            ≡ some x
      go true z ih k = k
      go false true ih k = k
      go false false ih k = ih k

  picked_more :
      (f g : Partial W (List String)) (o : Option (Outcome (List String) × W))
      {x : Outcome (List String) × W}
      → ((v : W) → f v ≡ some x → g v ≡ some x)
      → picked t f o ≡ some x
      → picked t g o ≡ some x
  picked_more f g none more e = cc
  picked_more f g (some (conflicted cs y, v)) more e = e
  picked_more f g (some (failed y, v)) more e = e
  picked_more f g (some (done (p ∷ ps), v)) more e = e
  picked_more f g (some (done [], v)) {x} more e = go (is_yes t (scan v).0) e
    where
      go :
          (b : Bool)
          → (elim b [ true ↦ some (done [], (scan v).1) | false ↦ f (scan v).1 ]) ≡ some x
          → (elim b [ true ↦ some (done [], (scan v).1) | false ↦ g (scan v).1 ]) ≡ some x
      go true k = k
      go false k = more (scan v).1 k

  pick_parents_more :
      (n : ℕ) (m : Option Manifest) (w : W) {x : Outcome (List String) × W}
      → pick_parents t n m w ≡ some x
      → pick_parents t (suc n) m w ≡ some x
  unfolding pick_parents
  pick_parents_more zero m w e = cc
  pick_parents_more (suc n) m w e =
      picked_more (pick_parents t n m) (pick_parents t (suc n) m) _ (λ v. pick_parents_more n m v) e

  check_unknown_more :
      (n : ℕ) (parents unknown : List String) (w : W) {x : Outcome (Option (List String)) × W}
      → check_unknown t n parents unknown w ≡ some x
      → check_unknown t (suc n) parents unknown w ≡ some x
  unfolding check_unknown
  check_unknown_more n parents [] w e = e
  check_unknown_more n parents (u ∷ us) w {x} e = go (confirm t n w) (λ r. confirm_more n w) e
    where
      go :
          (o : Option (Bool × W))
          → ((r : Bool × W) → o ≡ some r → confirm t (suc n) w ≡ some r)
          → confirmed t parents o ≡ some x
          → confirmed t parents (confirm t (suc n) w) ≡ some x
      go none more k = cc
      go (some r) more k = ap (confirmed t parents) (more r refl) ∙ k

  after_more :
      {A B : Type 0} (o p : Option (Outcome A × W)) (f g : A → Partial W B) {x : Outcome B × W}
      → ((y : Outcome A × W) → o ≡ some y → p ≡ some y)
      → ((a : A) (v : W) → f a v ≡ some x → g a v ≡ some x)
      → after o f ≡ some x
      → after p g ≡ some x
  after_more none p f g mo mf e = cc
  after_more (some (done a, v)) p f g mo mf e = ap (λ q. after q g) (mo (done a, v) refl) ∙ mf a v e
  after_more (some (conflicted cs y, v)) p f g mo mf e =
      ap (λ q. after q g) (mo (conflicted cs y, v) refl) ∙ e
  after_more (some (failed y, v)) p f g mo mf e = ap (λ q. after q g) (mo (failed y, v) refl) ∙ e

  -- What `checkParentage` returns does not depend on the bound on its questions: where it ends within
  -- `n` of them in each loop, it ends in the same way with one more.
  pub check_parentage_more :
      (n : ℕ) (m : Option Manifest) (parents : List String) (pick : Bool) (w : W)
      (x : Outcome (Option (List String)) × W)
      → check_parentage t n m parents pick w ≡ some x
      → check_parentage t (suc n) m parents pick w ≡ some x
  unfolding check_parentage
  check_parentage_more n m parents pick w x e =
      after_more _ _ _ _ (picking (picks t m parents pick))
        (λ chosen v.
          after_more (total (lift (unknown_of m (parents ++ chosen))) v)
            (total (lift (unknown_of m (parents ++ chosen))) v) _ _ (λ y q. q)
            λ unknown u. check_unknown_more n (parents ++ chosen) unknown u)
        e
    where
      picking :
          (b : Bool) (y : Outcome (List String) × W)
          → (if b then pick_parents t n m else total (pure [])) w ≡ some y
          → (if b then pick_parents t (suc n) m else total (pure [])) w ≡ some y
      picking true y q = pick_parents_more n m w q
      picking false y q = q
