-- ===== src/Manifest/Merge.antt =====
-- `Merge` of core/manifest.go, over any sorter with the documented laws.
use dorothy.Base.{◌≡◌, refl, subst, ◌↔◌, true, false, List, ◌++◌, Mem, Perm, Bool-cases, inl, inr}
use dorothy.Version.{Version}
use dorothy.Outcome.{Error, done, conflicted, failed, merge_conflict, cycles_detected, Conflict}
use dorothy.Sorter.{Sorter, IsSorter}
use dorothy.Manifest.{Manifest, Slot, conflicts, found, merge, toposort}
use dorothy.Manifest.Conflicts.{Clash, IsCompatible, IsCompatible-iff, mem-conflicts_iff}
use dorothy.Manifest.Delta.{delta}
use dorothy.Manifest.Order.{IsOrdered, toposort_cases, toposort_sound, toposort_fails_iff}

-- The slice `updated` of `Merge`.
abbrev pub updated : Manifest → Manifest → List Version
updated old new = old.versions ++ delta old new

module _ (sort : Sorter Slot) (old new : Manifest) where
  -- The three ways in which `Merge` returns.
  pub data Merging : Type 0 where
    clashing :
        (conflicts old new).1 ≡ false
        → merge sort old new ≡ conflicted (conflicts old new).0 merge_conflict
        → Merging
    sorted :
        (ws : List Version)
        → (conflicts old new).1 ≡ true
        → toposort sort (updated old new) ≡ done ws
        → merge sort old new ≡ done (record { versions = ws; hash = "" })
        → Merging
    cyclic :
        (conflicts old new).1 ≡ true
        → toposort sort (updated old new) ≡ failed cycles_detected
        → merge sort old new ≡ failed cycles_detected
        → Merging

  pub merging : Merging
  unfolding merge found
  merging = elim (Bool-cases (conflicts old new).1) [
    | inl compatible ↦ elim (toposort_cases sort (updated old new)) [
      | inl (ws, e) ↦ sorted ws compatible e (rw (compatible, e))
      | inr e ↦ cyclic compatible e (rw (compatible, e))
    ]
    | inr clash ↦ clashing clash (rw clash)
  ]

-- The list has the pairs of an old and a new version that clash.
abbrev pub AreClashes : Manifest → Manifest → List Conflict → Type 0
AreClashes old new cs =
    (c : Conflict)
    → Mem c cs ↔ (Mem c.left old.versions × Mem c.right new.versions × Clash c.left c.right)

module _ (sort : Sorter Slot) (laws : IsSorter sort) (old new : Manifest) where
  -- What a successful merge returns: the two manifests do not clash, and the versions are the old
  -- ones and the new ones to which no old version is equal, each as often as it stood there,
  -- in order, under an empty hash.
  pub merge_sound :
      (m : Manifest)
      → merge sort old new ≡ done m
      → IsCompatible old new
        × Perm m.versions (old.versions ++ delta old new)
        × IsOrdered m.versions
        × (m.hash ≡ "")
  merge_sound m h = elim (merging sort old new) [
    | clashing _ e ↦ absurd (cc)
    | sorted ws compatible t e ↦
        let same : Path Manifest (record { versions = ws; hash = "" }) m = cc in
        let (p, o) = toposort_sound sort laws (updated old new) ws t in
        subst
          (λ (k : Manifest).
            IsCompatible old new
            × Perm k.versions (old.versions ++ delta old new)
            × IsOrdered k.versions
            × (k.hash ≡ ""))
          same ((IsCompatible-iff old new).0 compatible, p, o, refl)
    | cyclic _ _ e ↦ absurd (cc)
  ]

  -- A merge is refused with conflicts exactly if two versions clash; the conflicts are then all pairs of
  -- an old and a new version that clash, in the order of `Conflicts`, and no others.
  pub merge_conflicted_iff :
      (cs : List Conflict) (e : Error)
      → (merge sort old new ≡ conflicted cs e) ↔ (
          (¬ IsCompatible old new)
          × (cs ≡ (conflicts old new).0)
          × AreClashes old new cs
          × (e ≡ merge_conflict))
  merge_conflicted_iff cs e = elim (merging sort old new) [
    | clashing clash m ↦ (
      λ h. (
        λ c. let t = (IsCompatible-iff old new).1 c in cc,
        cc,
        subst (AreClashes old new) (cc) (mem-conflicts_iff old new),
        cc,
      ),
      λ (_, p, _, q). rw (m, p, q),
    )
    | sorted ws compatible t m ↦
        (λ h. absurd (cc), λ (n, _, _, _). absurd (n ((IsCompatible-iff old new).0 compatible)))
    | cyclic compatible t m ↦
        (λ h. absurd (cc), λ (n, _, _, _). absurd (n ((IsCompatible-iff old new).0 compatible)))
  ]

  -- A merge without conflicts fails exactly if its versions cannot be arranged in order.
  pub merge_failed_iff : (merge sort old new ≡ failed cycles_detected) ↔ (
      IsCompatible old new
      × ((ws : List Version) → Perm ws (old.versions ++ delta old new) → ¬ IsOrdered ws))
  merge_failed_iff =
      let fails = toposort_fails_iff sort laws (updated old new) in
      elim (merging sort old new) [
        | clashing clash m ↦
            (λ h. absurd (cc), λ (c, _). let t = (IsCompatible-iff old new).1 c in absurd (cc))
        | sorted ws compatible t m ↦
            (λ h. absurd (cc), λ (_, n). let bad = fails.1 n in absurd (cc))
        | cyclic compatible t m ↦
            (λ _. ((IsCompatible-iff old new).0 compatible, fails.0 t), λ _. m)
      ]
