-- ===== src/Manifest/Delta.antt =====
-- `Diff` of core/manifest.go, whose loop `Merge` repeats: the new versions with no equal old one.
use mathlib.Core.HLevel.{⊥_prop}
use mathlib.Core.Logic.Or
use dorothy.Base.{
  ◌∨₁◌, ◌≡◌, ◌↔◌, ∥∥₁_elim, true, false, not, List, Mem, arith, any, exists_of-any, not-any-of_mem,
  select, mem-select, mem-of-select, Bool-cases, inl, inr,
}
use dorothy.Version.{Version, equal}
use dorothy.Outcome.{done}
use dorothy.Manifest.{Manifest, conflicts, found, diff}

-- No equal version is among `olds`.
abbrev pub IsNew : List Version → Version → Type 0
IsNew olds v = (o : Version) → Mem o olds → equal v o ≡ false

-- The new versions to which no old one is equal, in order and each as often as it stands there. What
-- the loop of `Merge` and `Diff` does is compared with it.
abbrev pub delta : Manifest → Manifest → List Version
delta old new = select (λ v. not (any (λ o. equal v o) old.versions)) new.versions

not-any_iff :
    (olds : List Version) (v : Version) → (not (any (λ o. equal v o) olds) ≡ true) ↔ IsNew olds v
not-any_iff olds v = (
  λ h o m. not-any-of_mem (λ o. equal v o) olds (ground arith) m,
  λ new. elim (Bool-cases (any (λ o. equal v o) olds)) [
    | inl e ↦
        absurd (
          ∥∥₁_elim (exists_of-any (λ o. equal v o) olds e) ⊥_prop
            λ (o, m, t). let n = new o m in cc)
    | inr e ↦ rw e
  ],
)

pub mem-delta :
    (old new : Manifest) (v : Version)
    → Mem v (delta old new) ↔ (Mem v new.versions × IsNew old.versions v)
mem-delta old new v = (
  λ m. let (a, t) = mem-of-select _ new.versions m in (a, (not-any_iff _ v).0 t),
  λ (m, n). mem-select _ new.versions m ((not-any_iff _ v).1 n),
)

-- `Diff` is refused exactly where `Conflicts` finds a conflict, and returns the new versions to
-- which no old version is equal.
pub diff_compatible :
    (old new : Manifest) → (conflicts old new).1 ≡ true → diff old new ≡ done (delta old new)
unfolding diff found
diff_compatible old new h = rw h

-- A new version is in the delta, or an old version is equal to it.
pub delta_covers :
    (old new : Manifest) {v : Version}
    → Mem v new.versions
    → ∥ ((o : Version) × Mem o old.versions × (equal v o ≡ true)) ∥₁ ∨₁ Mem v (delta old new)
delta_covers old new {v} m = elim (Bool-cases (any (λ o. equal v o) old.versions)) [
  | inl e ↦ Or.inl (exists_of-any (λ o. equal v o) old.versions e)
  | inr e ↦ Or.inr (mem-select _ new.versions m (rw e))
]
