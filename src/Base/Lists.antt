-- ===== src/Base/Lists.antt =====
-- Loops over slices that the source writes with a flag and `break`, or with a guarded `append`.
use Prim.Native.Nat.{ℕ, suc}
use mathlib.Core.Path.{◌≡◌, refl, subst}
use mathlib.Core.Logic.Or
use mathlib.Core.Logic.{◌↔◌, inl, inr, ∥∥₁_map, ∥∥₁_prop}
use mathlib.Core.HLevel.{×_prop}
use mathlib.Core.Bool.{Bool, true, false}
use mathlib.Core.List.{
  mem-append, mem-append_left, mem-append_right, ◌++◌, List, [], ◌∷◌, Mem, Mem-prop, not-mem-nil,
  mem-cons, mem-cons_self, mem-cons_of_mem,
}
use native.Mathlib.Omega.{arith}
use dorothy.Base.Tests.{if◌then◌else◌, Bool-cases}

-- `len(xs) == 0`
abbrev pub is_nil {ℓ} : {A : Type ℓ} → List A → Bool
is_nil [] = true
is_nil (_ ∷ _) = false

pub is_nil_iff {ℓ} : {A : Type ℓ} (xs : List A) → (is_nil xs ≡ true) ↔ ((x : A) → ¬ Mem x xs)
is_nil_iff [] = (λ _ x. not-mem-nil, λ _. refl)
is_nil_iff (x ∷ xs) = (λ e. cc, λ h. absurd (h x mem-cons_self))

pub eq-nil_of_not-mem {ℓ} : {A : Type ℓ} (xs : List A) → ((x : A) → ¬ Mem x xs) → xs ≡ []
eq-nil_of_not-mem [] h = refl
eq-nil_of_not-mem (x ∷ xs) h = absurd (h x mem-cons_self)

module _ {ℓ} {A : Type ℓ} where
  abbrev pub length : List A → ℕ
  length [] = 0
  length (x ∷ xs) = suc (length xs)

  -- `found := false; for ... { if p { found = true; break } }`
  unfoldable pub any : (A → Bool) → List A → Bool
  any p [] = false
  any p (x ∷ xs) = let rest = any p xs in if p x then true else rest

  -- `for ... { if p { out = append(out, x) } }`
  unfoldable pub select : (A → Bool) → List A → List A
  select p [] = []
  select p (x ∷ xs) = if p x then x ∷ select p xs else select p xs

  pub any-of_mem : (p : A → Bool) (xs : List A) {x : A} → Mem x xs → p x ≡ true → any p xs ≡ true
  unfolding any
  any-of_mem p [] m h = absurd (not-mem-nil m)
  any-of_mem p (y ∷ ys) {x} m h =
      Or.elim (hlevel) (mem-cons.0 m) (λ e. rw (← e) (rw h))
        (λ later. let ih = any-of_mem p ys later h in ground arith)

  pub exists_of-any :
      (p : A → Bool) (xs : List A) → any p xs ≡ true → ∥ ((x : A) × Mem x xs × (p x ≡ true)) ∥₁
  unfolding any
  exists_of-any p [] h = cc
  exists_of-any p (y ∷ ys) h = elim (Bool-cases (p y)) [
    | inl e ↦ ∣ (y, mem-cons_self, e) ∣₁
    | inr e ↦ ∥∥₁_map (exists_of-any p ys (ground arith)) λ (x, m, px). (x, mem-cons_of_mem y m, px)
  ]

  pub not-any-of_mem :
      (p : A → Bool) (xs : List A) {x : A} → any p xs ≡ false → Mem x xs → p x ≡ false
  not-any-of_mem p xs {x} h m = elim (Bool-cases (p x)) [
    | inl e ↦ let t = any-of_mem p xs m e in cc
    | inr e ↦ e
  ]

  pub mem-of-select :
      (p : A → Bool) (xs : List A) {x : A} → Mem x (select p xs) → Mem x xs × (p x ≡ true)
  unfolding select
  mem-of-select p [] m = absurd (not-mem-nil m)
  mem-of-select p (y ∷ ys) {x} m = elim (Bool-cases (p y)) [
    | inl e ↦
        Or.elim (×_prop Mem-prop (hlevel)) (mem-cons.0 (rw e at m)) (λ q. rw q (mem-cons_self, e))
          (λ later. let (a, b) = mem-of-select p ys later in (mem-cons_of_mem y a, b))
    | inr e ↦ let (a, b) = mem-of-select p ys (rw e at m) in (mem-cons_of_mem y a, b)
  ]

  pub mem-select :
      (p : A → Bool) (xs : List A) {x : A} → Mem x xs → p x ≡ true → Mem x (select p xs)
  unfolding select
  mem-select p [] m h = m
  mem-select p (y ∷ ys) {x} m h = elim (Bool-cases (p y)) [
    | inl e ↦ rw e (
        Or.elim Mem-prop (mem-cons.0 m) (λ q. rw q mem-cons_self)
          (λ later. mem-cons_of_mem y (mem-select p ys later h)))
    | inr e ↦ rw e (
        Or.elim Mem-prop (mem-cons.0 m) (λ q. let t = rw q at h in cc)
          (λ later. mem-select p ys later h))
  ]

module _ {ℓ κ} {A : Type ℓ} {B : Type κ} where
  -- `for ... { out = append(out, f(x)...) }`
  unfoldable pub collect : (A → List B) → List A → List B
  collect f [] = []
  collect f (x ∷ xs) = f x ++ collect f xs

  pub mem-collect :
      (f : A → List B) (xs : List A) {x : A} {y : B} → Mem x xs → Mem y (f x) → Mem y (collect f xs)
  unfolding collect
  mem-collect f [] m h = absurd (not-mem-nil m)
  mem-collect f (z ∷ zs) {x} {y} m h =
      Or.elim Mem-prop (mem-cons.0 m)
        (λ q. mem-append_left (collect f zs) (subst (λ (t : A). Mem y (f t)) q h))
        (λ later. mem-append_right (f z) (mem-collect f zs later h))

  pub exists_of_mem-collect :
      (f : A → List B) (xs : List A) {y : B}
      → Mem y (collect f xs)
      → ∥ ((x : A) × Mem x xs × Mem y (f x)) ∥₁
  unfolding collect
  exists_of_mem-collect f [] m = absurd (not-mem-nil m)
  exists_of_mem-collect f (z ∷ zs) {y} m =
      Or.elim ∥∥₁_prop (mem-append.0 m) (λ here. ∣ (z, mem-cons_self, here) ∣₁)
        (λ later.
          ∥∥₁_map (exists_of_mem-collect f zs later) λ (x, a, b). (x, mem-cons_of_mem z a, b))

-- `if test { out = append(out, x) }`
abbrev pub guarded {ℓ} : {A : Type ℓ} → Bool → A → List A
guarded b x = if b then x ∷ [] else []

pub mem-guarded {ℓ} : {A : Type ℓ} {b : Bool} {x : A} → b ≡ true → Mem x (guarded b x)
mem-guarded h = rw h mem-cons_self

pub of_mem-guarded {ℓ} :
    {A : Type ℓ} (b : Bool) {x y : A} → Mem y (guarded b x) → (b ≡ true) × Mem y (x ∷ [])
of_mem-guarded true m = (refl, m)
of_mem-guarded false m = absurd (not-mem-nil m)
