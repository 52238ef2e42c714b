-- ===== src/Repo/Checkout.antt =====
-- How `Checkout` of core/dorothy.go finds the version that a hash or a prefix of one names.
use mathlib.Core.List.{mem-cons_self, mem-cons, not-mem-nil}
use mathlib.Core.Logic.Or
use text.Mathlib.Text.{starts_with}
use dorothy.Base.{
  String, ◌≡◌, refl, sym, subst, ◌⊎◌, inl, inr, true, List, [], ◌∷◌, Mem, any, select, any-of_mem,
  exists_of-any, mem-select, mem-of-select, ∥∥₁_map, ◌==◌, eq_iff, Bool-cases,
}
use dorothy.Version.{Version, Version-set}
use dorothy.Outcome.{Outcome, done}
use dorothy.Repo.{only, resolve}

only-eq-done :
    (vs : List Version) {t : String}
    → only vs ≡ done t
    → (v : Version) × (vs ≡ v ∷ []) × (v.hash ≡ t)
only-eq-done [] e = cc
only-eq-done (v ∷ []) e = (v, refl, cc)
only-eq-done (v ∷ w ∷ vs) e = cc

-- The hash of a version of the manifest names that version, also where it is a prefix of others.
pub resolve_exact : (vs : List Version) (v : Version) → Mem v vs → resolve vs v.hash ≡ done v.hash
unfolding resolve
resolve_exact vs v m =
    rw (any-of_mem (λ u. u.hash == v.hash) vs m ((eq_iff v.hash v.hash).1 refl)) refl

-- A hash that is resolved is resolved to the hash of a version of the manifest: to itself, or to the
-- hash of the only version of which it is a prefix.
pub resolve_sound :
    (vs : List Version) (hash target : String)
    → resolve vs hash ≡ done target
    → ∥ (
        (v : Version) × Mem v vs
        × (v.hash ≡ target)
        × ((target ≡ hash)
            ⊎ ((starts_with v.hash hash ≡ true)
                × ((w : Version) → Mem w vs → starts_with w.hash hash ≡ true → w ≡ v)))) ∥₁
unfolding resolve
resolve_sound vs hash target e = elim (Bool-cases (any (λ (v : Version). v.hash == hash) vs)) [
  | inl q ↦
      let t : Path (Outcome String) (done hash) (done target) = rw q at e in
      ∥∥₁_map (exists_of-any _ vs q)
        λ (v, m, p). let same = (eq_iff v.hash hash).0 p in (v, m, cc, inl cc)
  | inr q ↦
      let (v, single, p) =
        only-eq-done (select (λ (v : Version). starts_with v.hash hash) vs) (rw q at e) in
      let (m, starts) = mem-of-select _ vs (subst (λ us. Mem v us) (sym single) mem-cons_self) in
      ∣ (
        v,
        m,
        p,
        inr (
          starts,
          λ w mw sw.
              Or.elim (Version-set w v)
                (mem-cons.0 (
                  subst (λ us. Mem w us) single
                    (mem-select (λ (u : Version). starts_with u.hash hash) vs mw sw)))
                (λ same. same) (λ none_left. absurd (not-mem-nil none_left)),
        ),
      ) ∣₁
]
