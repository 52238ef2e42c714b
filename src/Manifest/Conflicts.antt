-- ===== src/Manifest/Conflicts.antt =====
-- `Conflicts` of core/manifest.go: two versions of one hash that are not equal.
use mathlib.Core.HLevel.{×₃_prop}
use mathlib.Core.List.{Mem-prop, mem-singleton}
use dorothy.Base.{
  String-set, is_nil_iff, ap, ◌≡◌, sym, ◌∙◌, ◌↔◌, true, false, not, ◌&&◌, List, Mem, arith,
  ∥∥₁_elim, mem-collect, exists_of_mem-collect, mem-guarded, of_mem-guarded, eq_iff,
}
use dorothy.Version.{Version, Version-set, same_hash, equal}
use dorothy.Version.Equality.{equal_comm}
use dorothy.Outcome.{Conflict, Conflict-set}
use dorothy.Manifest.{Manifest, conflicts_of, conflicts}

-- Two versions clash: one hash, and they are not equal.
pub record Clash (o v : Version) : Type 0 where
  pub hash : o.hash ≡ v.hash
  pub differ : equal v o ≡ false

Clash-symm : {o v : Version} → Clash o v → Clash v o
Clash-symm {o} {v} c = record { hash = sym c.hash; differ = equal_comm o v ∙ c.differ }

Clash-test : (o v : Version) → Clash o v → (same_hash v o && not (equal v o)) ≡ true
unfolding same_hash
Clash-test o v c = ground (arith, eq_iff v.hash o.hash)

Clash-of_test : (o v : Version) → (same_hash v o && not (equal v o)) ≡ true → Clash o v
unfolding same_hash
Clash-of_test o v h = ground (arith, eq_iff v.hash o.hash)

Clash-prop : (o v : Version) → IsProp (Clash o v)
Clash-prop o v = hlevel String-set

module _ (olds : List Version) where
  of_mem-conflicts_of :
      (v : Version) (c : Conflict)
      → Mem c (conflicts_of olds v)
      → (c.right ≡ v) × Mem c.left olds × Clash c.left c.right
  unfolding conflicts_of
  of_mem-conflicts_of v c m =
      ∥∥₁_elim (exists_of_mem-collect _ olds m)
        (×₃_prop (Version-set _ _) Mem-prop (Clash-prop _ _))
        λ (o, mo, mc).
          let (t, single) = of_mem-guarded (same_hash v o && not (equal v o)) mc in
          let e = (mem-singleton Conflict-set).0 single in
          let l = ap (λ (d : Conflict). d.left) e in
          let r = ap (λ (d : Conflict). d.right) e in (r, rw l mo, rw (l, r) (Clash-of_test o v t))

  mem-conflicts_of :
      {o v : Version}
      → Mem o olds
      → Clash o v
      → Mem (record { left = o; right = v }) (conflicts_of olds v)
  unfolding conflicts_of
  mem-conflicts_of {o} {v} m c = mem-collect _ olds m (mem-guarded (Clash-test o v c))

-- The conflicts that are reported are the pairs of an old and a new version that clash.
pub mem-conflicts_iff :
    (old new : Manifest) (c : Conflict)
    → Mem c (conflicts old new).0
      ↔ (Mem c.left old.versions × Mem c.right new.versions × Clash c.left c.right)
unfolding conflicts
mem-conflicts_iff old new c = (
  λ m.
      ∥∥₁_elim (exists_of_mem-collect (conflicts_of old.versions) new.versions m)
        (×₃_prop Mem-prop Mem-prop (Clash-prop _ _))
        λ (v, mv, mc).
          let (r, ml, clash) = of_mem-conflicts_of old.versions v c mc in (ml, rw r mv, clash),
  λ (ml, mr, clash). mem-collect _ new.versions mr (mem-conflicts_of old.versions ml clash),
)

-- No old and new version clash.
abbrev pub IsCompatible : Manifest → Manifest → Type 0
IsCompatible old new = (o v : Version) → Mem o old.versions → Mem v new.versions → ¬ Clash o v

pub IsCompatible-iff : (old new : Manifest) → ((conflicts old new).1 ≡ true) ↔ IsCompatible old new
unfolding conflicts
IsCompatible-iff old new = (
  λ none_found o v mo mv clash.
      (is_nil_iff _).0 none_found (record { left = o; right = v })
        ((mem-conflicts_iff old new _).1 (mo, mv, clash)),
  λ h. (is_nil_iff _).1 λ c m.
      let (ml, mr, clash) = (mem-conflicts_iff old new c).0 m in h c.left c.right ml mr clash,
)

-- Which of two manifests counts as the old one does not change whether they are compatible.
pub compatible_symm :
    (old new : Manifest) → (conflicts old new).1 ≡ true → (conflicts new old).1 ≡ true
compatible_symm old new h =
    (IsCompatible-iff new old).1
      λ v o mv mo clash. (IsCompatible-iff old new).0 h o v mo mv (Clash-symm clash)
