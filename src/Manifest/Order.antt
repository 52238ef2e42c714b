-- ===== src/Manifest/Order.antt =====
-- `toposort` of core/manifest.go, over any sorter with the documented laws.
use mathlib.Core.Logic.Or
use mathlib.Core.HLevel.{¬_prop, ⊥_prop}
use native.Mathlib.Bridge.{le_prop}
use mathlib.Core.List.Perm
use mathlib.Core.List.Pairwise
use mathlib.Core.List.{
  Mem-prop, not-mem-nil, mem-cons, mem-cons_self, mem-map, mem-reverse, Nodup-nil, mem-map_of_mem,
  Nodup-cons, perm_ext_iff_of_Nodup, reverse_perm, Pairwise-reverse, Pairwise-map,
}
use dorothy.Base.{
  ℕ, suc, ◌≤◌, ◌≡◌, ◌≢◌, refl, sym, ap, ◌∙◌, subst, ◌↔◌, ◌⊎◌, inl, inr, ∥∥₁_elim, List, [], ◌∷◌,
  map, reverse, Mem, Perm, Pairwise, Nodup, arith,
}
use dorothy.Version.{Version}
use dorothy.Outcome.{done, failed, cycles_detected}
use dorothy.Sorter.{Call, Sorter, Walk, IsAcyclic, IsSorter}
use dorothy.Sorter.Trail.{Trail, not-Trail}
use dorothy.Manifest.{Slot, slots, calls, unload, toposort}
use dorothy.Manifest.Calls.{Precedes, edge_mem, of_edge_mem, mem-of_named, node_mem}

-- No version stands before one of its parents or before an older version, and none is its own
-- parent.
pub record IsOrdered (vs : List Version) : Type 0 where
  pub sorted : Pairwise (λ u v. ¬ Precedes v u) vs
  pub irreflexive : (v : Version) → Mem v vs → ¬ Precedes v v

-- The slots of a slice

map-slots : (n : ℕ) (vs : List Version) → map (λ (s : Slot). s.version) (slots n vs) ≡ vs
unfolding slots
map-slots n [] = refl
map-slots n (v ∷ vs) = ap (λ l. v ∷ l) (map-slots (suc n) vs)

slots-le : (n : ℕ) (vs : List Version) (s : Slot) → Mem s (slots n vs) → n ≤ s.address
unfolding slots
slots-le n [] s m = absurd (not-mem-nil m)
slots-le n (v ∷ vs) s m =
    Or.elim le_prop (mem-cons.0 m) (λ e. let q = ap (λ (t : Slot). t.address) e in omega arith)
      (λ later. let h = slots-le (suc n) vs s later in omega arith)

slots-Nodup : (n : ℕ) (vs : List Version) → Nodup (slots n vs)
unfolding slots
slots-Nodup n [] = Nodup-nil
slots-Nodup n (v ∷ vs) =
    Nodup-cons.1 (λ m. let h = slots-le (suc n) vs _ m in omega arith, slots-Nodup (suc n) vs)

mem-version : (vs : List Version) {s : Slot} → Mem s (slots 0 vs) → Mem s.version vs
mem-version vs m = subst (Mem _) (map-slots 0 vs) (mem-map_of_mem (λ (s : Slot). s.version) m)

module _ (sort : Sorter Slot) (laws : IsSorter sort) (vs : List Version) where
  abbrev these : List Slot
  these = slots 0 vs

  abbrev cs : List (Call Slot)
  cs = calls these

  sort-perm : Perm (sort cs).0 these
  sort-perm = (perm_ext_iff_of_Nodup (laws.nodup cs) (slots-Nodup 0 vs)).1 λ a. (
    λ m. ∥∥₁_elim (laws.named_sorted cs a m) Mem-prop λ (c, mc, n). mem-of_named these c a mc n,
    λ m. laws.sorted_named cs _ a (node_mem these a m) mem-cons_self,
  )

  versions-perm : Perm (map (λ s. s.version) (reverse (sort cs).0)) vs
  versions-perm =
      subst (Perm _) (map-slots 0 vs)
        (Perm.map (λ (s : Slot). s.version) (Perm.trans (reverse_perm _) sort-perm))

  versions-IsOrdered : (sort cs).1 ≡ [] → IsOrdered (map (λ s. s.version) (reverse (sort cs).0))
  versions-IsOrdered clean = record {
    sorted = (Pairwise-map (λ _ _. ¬_prop) (λ (s : Slot). s.version)).1 (
        (Pairwise-reverse (λ _ _. ¬_prop)).1 (
          Pairwise.imp_of_mem
            (λ a b ma mb edge_free p.
              edge_free
                (edge_mem these (Perm.subset sort-perm a ma) (Perm.subset sort-perm b mb) p))
            (laws.ordered cs clean)));
    irreflexive = λ v m p. ∥∥₁_elim (mem-map.0 m) ⊥_prop λ (s, ms, e).
        let placed = Perm.subset sort-perm s (mem-reverse.0 ms) in
        (laws.clean cs).0 clean s
          (Walk.one (edge_mem these placed placed (subst (λ u. Precedes u u) (sym e) p)));
  }

  Walk-Trail :
      (ws : List Version) {a b : Slot}
      → Perm ws vs
      → Walk cs a b
      → Trail Precedes ws a.version b.version
  Walk-Trail ws p (Walk.one {b = b} e) =
      let (_, mb, h) = of_edge_mem these _ b e in
      Trail.one (Perm.subset (Perm.symm p) _ (mem-version vs mb)) h
  Walk-Trail ws p (Walk.more {b = b} {c = c} w e) =
      let (_, mc, h) = of_edge_mem these b c e in
      Trail.more (Walk-Trail ws p w) (Perm.subset (Perm.symm p) _ (mem-version vs mc)) h

  IsAcyclic-of_order : (ws : List Version) → Perm ws vs → IsOrdered ws → IsAcyclic cs
  IsAcyclic-of_order ws p o a w = not-Trail ws o.sorted o.irreflexive (Walk-Trail ws p w)

-- What `toposort` returns, by how its sorter ends.
unload_cases :
    (r : List Slot × List (List Slot))
    → (r.1 ≡ []) × (unload r ≡ done (map (λ s. s.version) (reverse r.0)))
      ⊎ (r.1 ≢ []) × (unload r ≡ failed cycles_detected)
unfolding unload
unload_cases (sorted, []) = inl (refl, refl)
unload_cases (sorted, c ∷ cs) = inr (λ e. cc, refl)

module _ (sort : Sorter Slot) (vs : List Version) where
  pub toposort_cases :
      ((ws : List Version) × (toposort sort vs ≡ done ws))
      ⊎ (toposort sort vs ≡ failed cycles_detected)
  unfolding toposort
  toposort_cases = elim (unload_cases (sort (calls (slots 0 vs)))) [
    | inl (_, e) ↦ inl (_, e)
    | inr (_, e) ↦ inr e
  ]

module _ (sort : Sorter Slot) (laws : IsSorter sort) (vs : List Version) where
  -- A sort that succeeds returns the given versions, each as often as it was given, and puts
  -- every version behind its parents and behind all older versions.
  pub toposort_sound : (ws : List Version) → toposort sort vs ≡ done ws → Perm ws vs × IsOrdered ws
  unfolding toposort
  toposort_sound ws h = elim (unload_cases (sort (calls (slots 0 vs)))) [
    | inl (clean, e) ↦
        let same : done _ ≡ done ws = sym e ∙ h in
        subst (λ l. Perm l vs × IsOrdered l) (cc)
          (versions-perm sort laws vs, versions-IsOrdered sort laws vs clean)
    | inr (_, e) ↦ absurd (cc)
  ]

  -- A sort fails, and then for its cycles, exactly if no arrangement of the versions is ordered.
  pub toposort_fails_iff :
      (toposort sort vs ≡ failed cycles_detected)
      ↔ ((ws : List Version) → Perm ws vs → ¬ IsOrdered ws)
  unfolding toposort
  toposort_fails_iff = elim (unload_cases (sort (calls (slots 0 vs)))) [
    | inl (clean, e) ↦ (
      λ h. absurd (cc),
      λ none_ordered.
          absurd
            (none_ordered _ (versions-perm sort laws vs) (versions-IsOrdered sort laws vs clean)),
    )
    | inr (cyclic, e) ↦
        (λ _ ws p o. cyclic ((laws.clean _).1 (IsAcyclic-of_order sort laws vs ws p o)), λ _. e)
  ]
