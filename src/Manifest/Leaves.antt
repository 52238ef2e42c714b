-- ===== src/Manifest/Leaves.antt =====
-- `LeafVersions` and `UnknownCommits` of core/manifest.go.
use mathlib.Core.HLevel.{⊥_prop}
use mathlib.Core.Logic.Or
use mathlib.Core.List.{not-mem-nil, mem-cons, mem-cons_self, mem-cons_of_mem, Pairwise-cons}
use dorothy.Base.{
  String, ◌≡◌, ◌≢◌, refl, subst, ◌↔◌, ∥∥₁_elim, ∥∥₁_map, Bool, true, false, not, List, [], ◌∷◌, Mem,
  Pairwise, arith, any, exists_of-any, not-any-of_mem, mem-select, mem-of-select, collect,
  mem-collect, exists_of_mem-collect, ◌==◌, eq_iff, Bool-cases, inl, inr,
}
use dorothy.Version.{Version}
use dorothy.Outcome.{done}
use dorothy.Sorter.{Sorter, IsSorter}
use dorothy.Manifest.{Manifest, Slot, is_parent, leaf_versions, unknown_commits, merge}
use dorothy.Manifest.Calls.{Precedes}
use dorothy.Manifest.Order.{IsOrdered}
use dorothy.Manifest.Merge.{merge_sound}

not-any_iff {ℓ} :
    {A : Type ℓ} (p : A → Bool) (xs : List A)
    → (not (any p xs) ≡ true) ↔ ((x : A) → Mem x xs → p x ≡ false)
not-any_iff p xs = (
  λ h x m. not-any-of_mem p xs (ground arith) m,
  λ none. elim (Bool-cases (any p xs)) [
    | inl e ↦ absurd (∥∥₁_elim (exists_of-any p xs e) ⊥_prop λ (x, m, t). let n = none x m in cc)
    | inr e ↦ rw e
  ],
)

-- No version of the list has `v` as a parent.
abbrev pub IsLeaf : List Version → Version → Type 0
IsLeaf vs v = (u : Version) → Mem u vs → ¬ Mem v.hash u.parents

not_key_iff :
    (vs : List Version) (v : Version)
    → (not (any (λ key. key == v.hash) (is_parent vs)) ≡ true) ↔ IsLeaf vs v
unfolding is_parent
not_key_iff vs v =
    let keys = not-any_iff (λ key. key == v.hash) (collect (λ u. u.parents) vs) in
    (
      λ h u mu mp.
          let e = keys.0 h v.hash (mem-collect (λ (u : Version). u.parents) vs mu mp) in
          let t = (eq_iff v.hash v.hash).1 refl in cc,
      λ leaf. keys.1 λ key m. elim (Bool-cases (key == v.hash)) [
        | inl e ↦ absurd (
            ∥∥₁_elim (exists_of_mem-collect (λ (u : Version). u.parents) vs m) ⊥_prop
              λ (u, mu, mp). leaf u mu (subst (λ h. Mem h u.parents) ((eq_iff key v.hash).0 e) mp))
        | inr e ↦ e
      ],
    )

-- The leaves are the versions that no version of the manifest has as a parent.
pub mem-leaf_versions_iff :
    (m : Manifest) (v : Version)
    → Mem v (leaf_versions m) ↔ (Mem v m.versions × IsLeaf m.versions v)
unfolding leaf_versions
mem-leaf_versions_iff m v = (
  λ h. let (a, t) = mem-of-select _ m.versions h in (a, (not_key_iff m.versions v).0 t),
  λ (a, l). mem-select _ m.versions a ((not_key_iff m.versions v).1 l),
)

exists_last :
    (v : Version) (vs : List Version)
    → Pairwise (λ a b. ¬ Precedes b a) (v ∷ vs)
    → ((u : Version) → Mem u (v ∷ vs) → ¬ Precedes u u)
    → ∥ ((w : Version) × Mem w (v ∷ vs) × ((u : Version) → Mem u (v ∷ vs) → ¬ Precedes w u)) ∥₁
exists_last v [] p irr = ∣ (
  v,
  mem-cons_self,
  λ u m h.
      Or.elim ⊥_prop (mem-cons.0 m) (λ e. irr v mem-cons_self (subst (Precedes v) e h)) not-mem-nil,
) ∣₁
exists_last v (w ∷ ws) p irr =
    let (first, rest) = Pairwise-cons.0 p in
    ∥∥₁_map (exists_last w ws rest (λ u m. irr u (mem-cons_of_mem v m))) λ (l, ml, last). (
      l,
      mem-cons_of_mem v ml,
      λ u m h.
          Or.elim ⊥_prop (mem-cons.0 m) (λ e. first l ml (subst (Precedes l) e h))
            (λ later. last u later h),
    )

IsLeaf-exists :
    (vs : List Version) → vs ≢ [] → IsOrdered vs → ∥ ((v : Version) × Mem v vs × IsLeaf vs v) ∥₁
IsLeaf-exists [] ne o = absurd (ne refl)
IsLeaf-exists (v ∷ vs) ne o =
    ∥∥₁_map (exists_last v vs o.sorted o.irreflexive)
      λ (w, mw, last). (w, mw, λ u mu h. last u mu (Or.inl h))

-- A merged manifest that is not empty has a leaf.
pub leaf_versions-merge :
    (sort : Sorter Slot)
    → IsSorter sort
    → (old new m : Manifest) → merge sort old new ≡ done m
    → m.versions ≢ []
    → ∥ ((v : Version) × Mem v (leaf_versions m)) ∥₁
leaf_versions-merge sort laws old new m h ne =
    ∥∥₁_map (IsLeaf-exists m.versions ne (merge_sound sort laws old new m h).2)
      λ (v, mv, l). (v, (mem-leaf_versions_iff m v).1 (mv, l))

-- The unknown commits are those of the given ones that are the hash of no version.
pub mem-unknown_commits_iff :
    (m : Manifest) (commits : List String) (c : String)
    → Mem c (unknown_commits m commits)
      ↔ (Mem c commits × ((v : Version) → Mem v m.versions → v.hash ≢ c))
unfolding unknown_commits
mem-unknown_commits_iff m commits c = (
  λ h.
      let (a, t) = mem-of-select _ commits h in
      (
        a,
        λ v mv e.
            let f = (not-any_iff (λ (v : Version). v.hash == c) m.versions).0 t v mv in
            let g = (eq_iff v.hash c).1 e in cc,
      ),
  λ (a, fresh). mem-select _ commits a (
      (not-any_iff (λ (v : Version). v.hash == c) m.versions).1 λ v mv.
        elim (Bool-cases (v.hash == c)) [
          | inl e ↦ absurd (fresh v mv ((eq_iff v.hash c).0 e))
          | inr e ↦ e
        ]),
)
