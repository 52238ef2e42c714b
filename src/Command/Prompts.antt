-- ===== src/Command/Prompts.antt =====
-- When the question of cmd/commit.go whether to continue ends.
use dorothy.Base.{
  ℕ, zero, suc, ◌<◌, String, ◌≡◌, refl, sym, ap, ap₂, ◌∙◌, ◌↔◌, Bool, true, false, ◌||◌, some,
  arith,
}
use dorothy.Command.{Terminal}
use dorothy.Command.Parentage.{is_yes, is_no, confirm}

module _ {W : Type 0} (t : Terminal W) where
  open t use {scan, sort_strings, list_widget, messages}

  -- The answer to the question `k`, counted from 0.
  abbrev pub answer : ℕ → W → String
  answer zero w = (scan w).0
  answer (suc k) w = answer k (scan w).1

  abbrev pub settles : String → Bool
  settles a = is_yes t a || is_no t a

  ends-later :
      (n : ℕ) (w : W)
      → settles (answer 0 w) ≡ false
      → ((k : ℕ) × (k < n) × (settles (answer k (scan w).1) ≡ true))
        ↔ ((k : ℕ) × (k < suc n) × (settles (answer k w) ≡ true))
  ends-later n w e = (λ (k, l, s). (suc k, omega arith, s), back)
    where
      back :
          ((k : ℕ) × (k < suc n) × (settles (answer k w) ≡ true))
          → (k : ℕ) × (k < n) × (settles (answer k (scan w).1) ≡ true)
      back (zero, l, s) = let q = sym e ∙ s in cc
      back (suc k, l, s) = (k, omega arith, s)

  -- The question whether to continue ends within `n` answers exactly if one of the first `n` answers is
  -- a yes or a no; so it never ends if none ever is, as at the end of the input.
  pub confirm_ends_iff :
      (n : ℕ) (w : W)
      → ((r : Bool × W) × (confirm t n w ≡ some r))
        ↔ ((k : ℕ) × (k < n) × (settles (answer k w) ≡ true))
  unfolding confirm
  confirm_ends_iff zero w = (λ (r, e). cc, λ (k, l, e). absurd (omega arith))
  confirm_ends_iff (suc n) w =
      go (is_yes t (scan w).0) (is_no t (scan w).0) refl refl (confirm_ends_iff n (scan w).1)
    where
      next : W
      next = (scan w).1

      go :
          (y z : Bool)
          → is_yes t (scan w).0 ≡ y
          → is_no t (scan w).0 ≡ z
          → (((r : Bool × W) × (confirm t n next ≡ some r))
              ↔ ((k : ℕ) × (k < n) × (settles (answer k next) ≡ true)))
          → ((r : Bool × W) × ((elim y [
            | true ↦ some (true, next)
            | false ↦ elim z [ true ↦ some (false, next) | false ↦ confirm t n next ]
          ])
                ≡ some r))
            ↔ ((k : ℕ) × (k < suc n) × (settles (answer k w) ≡ true))
      go true z ey ez ih =
          (λ _. (0, omega arith, ap (λ b. b || is_no t (scan w).0) ey), λ _. ((true, next), refl))
      go false true ey ez ih =
          (λ _. (0, omega arith, ap₂ (λ a b. a || b) ey ez), λ _. ((false, next), refl))
      go false false ey ez ih =
          let later = ends-later n w (ap₂ (λ a b. a || b) ey ez) in
          (λ r. later.0 (ih.0 r), λ k. ih.1 (later.1 k))

  -- The first answer that settles the question is the yes `k`, one of the first `n`.
  pub record SaysYes (n k : ℕ) (w : W) : Type 0 where
    pub in_time : k < n
    pub yes : is_yes t (answer k w) ≡ true
    pub first : (j : ℕ) → j < k → settles (answer j w) ≡ false

  SaysYes-later :
      (n k : ℕ) (w : W)
      → settles (answer 0 w) ≡ false
      → SaysYes n k (scan w).1
      → SaysYes (suc n) (suc k) w
  SaysYes-later n k w open_yet s = record {
    in_time = let l = s.in_time in omega arith;
    yes = s.yes;
    first = earlier;
  }
    where
      earlier : (j : ℕ) → j < suc k → settles (answer j w) ≡ false
      earlier zero l = open_yet
      earlier (suc j) l = s.first j (omega arith)

  pub confirm-SaysYes :
      (n : ℕ) (w w' : W) → confirm t n w ≡ some (true, w') → (k : ℕ) × SaysYes n k w
  unfolding confirm
  confirm-SaysYes zero w w' e = cc
  confirm-SaysYes (suc n) w w' e =
      go (is_yes t (scan w).0) (is_no t (scan w).0) (confirm-SaysYes n (scan w).1 w') refl refl e
    where
      go :
          (y z : Bool)
          → (confirm t n (scan w).1 ≡ some (true, w') → (k : ℕ) × SaysYes n k (scan w).1)
          → is_yes t (scan w).0 ≡ y
          → is_no t (scan w).0 ≡ z
          → (elim y [
            | true ↦ some (true, (scan w).1)
            | false ↦ elim z [ true ↦ some (false, (scan w).1) | false ↦ confirm t n (scan w).1 ]
          ])
            ≡ some (true, w')
          → (k : ℕ) × SaysYes (suc n) k w
      go true z ih ey ez k =
          (0, record { in_time = omega arith; yes = ey; first = λ j l. absurd (omega arith) })
      go false true ih ey ez k = cc
      go false false ih ey ez k =
          let (j, said) = ih k in (suc j, SaysYes-later n j w (ap₂ (λ a b. a || b) ey ez) said)
