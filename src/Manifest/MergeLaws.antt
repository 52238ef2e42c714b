-- ===== src/Manifest/MergeLaws.antt =====
-- Laws of `Merge` of core/manifest.go: what it keeps of the two manifests, and merges that change nothing.
use mathlib.Core.HLevel.{⊥_prop, ¬_prop}
use mathlib.Core.Logic.Or
use mathlib.Core.List.Perm
use mathlib.Core.List.{
  not-mem-nil, mem-cons, mem-append, mem-singleton, append-nil, Pairwise-cons, Pairwise-append,
}
use dorothy.Base.{
  ◌≡◌, ◌≢◌, refl, false, length, String, sym, ap, ◌∙◌, subst, ◌↔◌, ◌∨₁◌, ∥∥₁_elim, ∥∥₁_prop,
  ∥∥₁_map, ∨₁_prop, eq-nil_of_not-mem, Bool, true, List, [], ◌∷◌, ◌++◌, Mem, Perm, Pairwise,
  Bool-cases, inl, inr, select, mem-of-select,
}
use dorothy.Version.{Version, Version-set, equal}
use dorothy.Version.Equality.{equal_refl, equal_iff}
use dorothy.Outcome.{done}
use dorothy.Sorter.{Sorter, IsSorter}
use dorothy.Manifest.{Manifest, Slot, merge}
use dorothy.Manifest.Conflicts.{IsCompatible, IsCompatible-iff}
use dorothy.Manifest.Delta.{IsNew, delta, mem-delta, delta_covers}
use dorothy.Manifest.Order.{IsOrdered, toposort_sound, toposort_fails_iff}
use dorothy.Manifest.Merge.{clashing, sorted, cyclic, merging, merge_sound}

-- No two versions of the list have the same hash.
abbrev pub HashesDistinct : List Version → Type 0
HashesDistinct = Pairwise (λ u v. u.hash ≢ v.hash)

Pairwise-select :
    {R : Version → Version → Type 0} (p : Version → Bool) (vs : List Version)
    → Pairwise R vs
    → Pairwise R (select p vs)
unfolding select
Pairwise-select p [] h = h
Pairwise-select p (v ∷ vs) h = elim (Bool-cases (p v)) [
  | inl e ↦ rw e (
      Pairwise-cons.1 (
        λ u m. (Pairwise-cons.0 h).0 u (mem-of-select p vs m).0,
        Pairwise-select p vs (Pairwise-cons.0 h).1,
      ))
  | inr e ↦ rw e (Pairwise-select p vs (Pairwise-cons.0 h).1)
]

eq_of_hash :
    (vs : List Version) {u v : Version}
    → HashesDistinct vs
    → Mem u vs
    → Mem v vs
    → u.hash ≡ v.hash
    → u ≡ v
eq_of_hash [] d mu mv e = absurd (not-mem-nil mu)
eq_of_hash (w ∷ ws) {u} {v} d mu mv e =
    let (first, rest) = Pairwise-cons.0 d in
    Or.elim (Version-set u v) (mem-cons.0 mu)
      (λ p.
        Or.elim (Version-set u v) (mem-cons.0 mv) (λ q. p ∙ sym q)
          (λ later. absurd (first v later (ap (λ (x : Version). x.hash) (sym p) ∙ e))))
      (λ mu'.
        Or.elim (Version-set u v) (mem-cons.0 mv)
          (λ q. absurd (first u mu' (ap (λ (x : Version). x.hash) (sym q) ∙ sym e)))
          (λ mv'. eq_of_hash ws rest mu' mv' e))

-- A manifest that clashes with no version of the old one and brings none that is new changes nothing.
merge_unchanged :
    (sort : Sorter Slot) (laws : IsSorter sort) (old new : Manifest)
    → IsCompatible old new
    → ((v : Version) → ¬ Mem v (delta old new))
    → IsOrdered old.versions
    → (m : Manifest) × (merge sort old new ≡ done m) × Perm m.versions old.versions
merge_unchanged sort laws old new agree nothing_new ordered =
    let compatible = (IsCompatible-iff old new).1 agree in
    let unchanged : (old.versions ++ delta old new) ≡ old.versions =
      rw (eq-nil_of_not-mem (delta old new) nothing_new) (append-nil old.versions) in
    elim (merging sort old new) [
      | clashing clash _ ↦ absurd (cc)
      | sorted ws _ t e ↦ (_, e, subst (Perm ws) unchanged (toposort_sound sort laws _ ws t).0)
      | cyclic _ t e ↦
          absurd
            ((toposort_fails_iff sort laws _).0 t old.versions (rw unchanged (Perm.refl _)) ordered)
    ]

-- A version of the old manifest that comes back with other parents, as many as it had, is no conflict: the
-- merge succeeds, and drops it.
pub merge_other_parents :
    (sort : Sorter Slot) (laws : IsSorter sort) (old : Manifest) (v : Version)
    (parents : List String)
    → HashesDistinct old.versions
    → IsOrdered old.versions
    → Mem v old.versions
    → length v.parents ≡ length parents
    → (m : Manifest) × (merge sort old
          (record { versions = record v { parents = parents } ∷ []; hash = "" })
        ≡ done m)
      × Perm m.versions old.versions
merge_other_parents sort laws old v parents distinct ordered held as_many =
    merge_unchanged sort laws old new agree nothing_new ordered
  where
    other : Version
    other = record v { parents = parents }

    new : Manifest
    new = record { versions = other ∷ []; hash = "" }

    alike : equal other v ≡ true
    alike = (equal_iff other v).1 (record {
      hash = refl;
      author = refl;
      instant = refl;
      message = refl;
      path_type = refl;
      parents = sym as_many;
    })

    agree : IsCompatible old new
    agree o x mo mx c =
        let same = (mem-singleton Version-set).0 mx in
        let e =
          eq_of_hash old.versions distinct mo held (c.hash ∙ ap (λ (y : Version). y.hash) same) in
        let d : equal other v ≡ false =
          subst (λ y. equal other y ≡ false) e (subst (λ y. equal y o ≡ false) same c.differ) in
        let a = alike in cc

    nothing_new : (u : Version) → ¬ Mem u (delta old new)
    nothing_new u m =
        let (mn, fresh) = (mem-delta old new u).0 m in
        let d = subst (λ y. equal y v ≡ false) ((mem-singleton Version-set).0 mn) (fresh v held) in
        let a = alike in cc

module _ (sort : Sorter Slot) (laws : IsSorter sort) (old new m : Manifest)
    (merged : merge sort old new ≡ done m) where
  merge-perm : Perm m.versions (old.versions ++ delta old new)
  merge-perm = (merge_sound sort laws old new m merged).1

  -- The versions of the result are the old ones and the new ones to which no old one is equal.
  pub mem-merge_iff :
      (v : Version)
      → Mem v m.versions ↔ (Mem v old.versions ∨₁ (Mem v new.versions × IsNew old.versions v))
  mem-merge_iff v = (
    λ h.
        Or.elim ∨₁_prop (mem-append.0 (Perm.subset merge-perm v h)) Or.inl
          (λ d. Or.inr ((mem-delta old new v).0 d)),
    λ h.
        Perm.subset (Perm.symm merge-perm) v
          (mem-append.1 (Or.elim ∨₁_prop h Or.inl (λ d. Or.inr ((mem-delta old new v).1 d)))),
  )

  -- Every version of either manifest has an equal one in the result.
  pub merge_covers :
      (v : Version)
      → Mem v old.versions ∨₁ Mem v new.versions
      → ∥ ((u : Version) × Mem u m.versions × (equal v u ≡ true)) ∥₁
  merge_covers v h =
      Or.elim ∥∥₁_prop h (λ o. ∣ (v, (mem-merge_iff v).1 (Or.inl o), equal_refl v) ∣₁)
        (λ n.
          Or.elim ∥∥₁_prop (delta_covers old new n)
            (λ t. ∥∥₁_map t λ (o, mo, e). (o, (mem-merge_iff o).1 (Or.inl mo), e))
            (λ d. ∣ (v, (mem-merge_iff v).1 (Or.inr ((mem-delta old new v).0 d)), equal_refl v) ∣₁))

  -- If the hashes of each of the two manifests are distinct, so are those of the result.
  pub merge-HashesDistinct :
      HashesDistinct old.versions → HashesDistinct new.versions → HashesDistinct m.versions
  merge-HashesDistinct dold dnew =
      Perm.pairwise (λ _ _. ¬_prop) (λ x y ne e. ne (sym e)) (Perm.symm merge-perm)
        ((Pairwise-append (λ _ _. ¬_prop)).1 (
          dold,
          Pairwise-select _ new.versions dnew,
          λ a ma b mb e.
              let (mn, fresh) = (mem-delta old new b).0 mb in
              (merge_sound sort laws old new m merged).0 a b ma mn
                (record { hash = e; differ = fresh a ma }),
        ))

  IsCompatible-again : HashesDistinct new.versions → IsCompatible m new
  IsCompatible-again dnew o v mo mv c =
      Or.elim ⊥_prop ((mem-merge_iff o).0 mo)
        (λ h. (merge_sound sort laws old new m merged).0 o v h mv c)
        (λ (h, _).
          let same = eq_of_hash new.versions dnew h mv c.hash in
          let e = subst (λ x. equal v x ≡ true) (sym same) (equal_refl v) in let d = c.differ in cc)

  delta_again : (v : Version) → ¬ Mem v (delta m new)
  delta_again v d =
      let (mn, fresh) = (mem-delta m new v).0 d in
      ∥∥₁_elim (merge_covers v (Or.inr mn)) ⊥_prop λ (u, mu, e). let f = fresh u mu in cc

  -- If the hashes of `new` are distinct, merging it into the result again succeeds and returns the
  -- same versions, each as often.
  pub merge_again :
      HashesDistinct new.versions
      → (m' : Manifest) × (merge sort m new ≡ done m') × Perm m'.versions m.versions
  merge_again dnew =
      merge_unchanged sort laws m new (IsCompatible-again dnew) delta_again
        (merge_sound sort laws old new m merged).2
