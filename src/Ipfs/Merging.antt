-- ===== src/Ipfs/Merging.antt =====
-- `MergeAndCommit` of core/ipfs.go.
use mathlib.Core.Logic.Or
use mathlib.Core.List.{not-mem-nil, mem-cons}
use dorothy.Base.{String, ◌≡◌, true, refl, sym, ap, subst, List, [], ◌∷◌, Mem, ∥∥₁_map, ∥∥₁_prop}
use dorothy.Version.{Version}
use dorothy.Outcome.{Error, Outcome, done, conflicted, failed, ok, err, Reply}
use dorothy.Sorter.{Sorter, IsSorter}
use dorothy.Manifest.{Manifest, Slot, merge, diff}
use dorothy.Manifest.Conflicts.{IsCompatible-iff}
use dorothy.Manifest.Delta.{delta, diff_compatible}
use dorothy.Manifest.Merge.{merge_sound}
use dorothy.Effects.{call, of_reply, continue, ◌>>=◌, >>=-lift-eq-done}
use dorothy.Host.{Host, HostLaws, ipfs_path}
use dorothy.Ipfs.{
  get_manifest, commit_version, commit_all, collect_error, join_errors, merge_and_commit,
}
use dorothy.Ipfs.Manifests.{save_manifest-Saved, get_manifest-save_manifest}

module _ (h : Host) where
  collect_none :
      (o : Outcome String) (errs : List Error)
      → collect_error h o errs ≡ []
      → (hash : String) × (o ≡ done hash) × (errs ≡ [])
  collect_none (done hash) errs e = (hash, refl, e)
  collect_none (conflicted _ e') errs e = cc
  collect_none (failed e') errs e = cc

  join_none : (errs : List Error) {u : Unit {0}} → join_errors h errs ≡ done u → errs ≡ []
  join_none [] e = refl
  join_none (x ∷ errs) e = cc

module _ (h : Host) (laws : HostLaws h) where
  open h use {World, CidPath, new_path, pin_add}

  -- The data of the version is pinned.
  pub record PinnedVersion (w : World) (v : Version) : Type 0 where
    pub at : CidPath
    pub parsed : new_path (ipfs_path v.hash) ≡ ok at
    pub pinned : laws.IsPinned w at

  -- What one call of `CommitVersion` does to the pins.
  record Committed (v : Version) (w : World) (r : Outcome String × World) : Type 0 where
    keeps : (q : CidPath) → laws.IsPinned w q → laws.IsPinned r.1 q
    pins : (hash : String) → r.0 ≡ done hash → PinnedVersion r.1 v

  Committed-reply :
      (v : Version) (w : World) (p : CidPath) (parsed : new_path (ipfs_path v.hash) ≡ ok p)
      (r : Reply (Unit {0}) × World)
      → pin_add p w ≡ r
      → Committed v w ((call (λ _. r) >>= λ _ u. (done v.hash, u)) w)
  Committed-reply v w p parsed (ok _, u) e = record {
    keeps = λ q k. subst (λ s. laws.IsPinned s q) (ap (λ s. s.1) e) (laws.pin_keeps p q w k);
    pins = λ hash _. record { at = p; parsed = parsed; pinned = laws.pin_pins p w u e };
  }
  Committed-reply v w p parsed (err x, u) e = record {
    keeps = λ q k. subst (λ s. laws.IsPinned s q) (ap (λ s. s.1) e) (laws.pin_keeps p q w k);
    pins = λ hash d. cc;
  }

  commit_version-Committed : (v : Version) (w : World) → Committed v w (commit_version h v w)
  unfolding commit_version
  commit_version-Committed v w = go (new_path (ipfs_path v.hash)) refl
    where
      go :
          (r : Reply CidPath)
          → new_path (ipfs_path v.hash) ≡ r
          → Committed v w
              (continue (of_reply r) (λ p. call (pin_add p) >>= λ _ u. (done v.hash, u)) w)
      go (ok p) e = Committed-reply v w p e (pin_add p w) refl
      go (err x) e = record { keeps = λ q k. k; pins = λ hash d. cc }

  -- The errors that are collected are none exactly if every version was pinned.
  commit_all-pins :
      (vs : List Version) (w : World)
      → ((q : CidPath) → laws.IsPinned w q → laws.IsPinned (commit_all h vs w).1 q)
        × ((commit_all h vs w).0 ≡ []
            → (v : Version) → Mem v vs
            → ∥ PinnedVersion (commit_all h vs w).1 v ∥₁)
  unfolding commit_all
  commit_all-pins [] w = (λ q k. k, λ _ v m. absurd (not-mem-nil m))
  commit_all-pins (v ∷ vs) w =
      let first = commit_version-Committed v w in
      let u = (commit_version h v w).1 in
      let (keep, pin) = commit_all-pins vs u in
      (
        λ q k. keep q (first.keeps q k),
        λ none_failed x m.
            let (hash, ok_first, ok_rest) =
              collect_none h (commit_version h v w).0 (commit_all h vs u).0 none_failed in
            Or.elim ∥∥₁_prop (mem-cons.0 m)
              (λ e.
                let p = first.pins hash ok_first in
                ∣ subst (PinnedVersion _) (sym e)
                  (record { at = p.at; parsed = p.parsed; pinned = keep p.at p.pinned }) ∣₁)
              (λ later. pin ok_rest x later),
      )

  module _ (sort : Sorter Slot) (order : IsSorter sort) where
    -- What a successful `MergeAndCommit` has done: the manifest holds the merge of the two, it can
    -- be fetched under its hash, and the data of every version that was new is pinned.
    pub record MergeCommitted (old new m : Manifest) (w' : World) : Type 0 where
      pub merged : Manifest
      pub is_merge : merge sort old new ≡ done merged
      pub versions : m.versions ≡ merged.versions
      pub later : World
      pub fetched : get_manifest h m.hash w' ≡ (done m, later)
      pub pinned : (v : Version) → Mem v (delta old new) → ∥ PinnedVersion w' v ∥₁

    -- A `MergeAndCommit` that succeeds returns a manifest with the versions of the merge of the two. It
    -- can be fetched under its hash, and the data of every new version is pinned.
    pub merge_and_commit_sound :
        (old new m : Manifest) (w w' : World)
        → merge_and_commit h sort old new w ≡ (done m, w')
        → MergeCommitted old new m w'
    unfolding merge_and_commit
    merge_and_commit_sound old new m w w' e =
        let (merged, is_merge, e1) = >>=-lift-eq-done (merge sort old new) _ w e in
        let compatible =
          (IsCompatible-iff old new).1 (merge_sound sort order old new merged is_merge).0 in
        let (ds, is_delta, e2) = >>=-lift-eq-done (diff old new) _ w e1 in
        let same : Path (List Version) ds (delta old new) =
          let d = diff_compatible old new compatible in cc in
        let (_, joined, e3) =
          >>=-lift-eq-done (join_errors h (commit_all h ds w).0) _ (commit_all h ds w).1 e2 in
        let none_failed = join_none h (commit_all h ds w).0 joined in
        let u = (commit_all h ds w).1 in
        let saved = save_manifest-Saved h laws merged m u w' e3 in
        let (vs, later, fetched) = get_manifest-save_manifest h laws merged m u w' e3 in
        record {
          merged = merged;
          is_merge = is_merge;
          versions = vs;
          later = later;
          fetched = fetched;
          pinned = λ v mv. ∥∥₁_map ((commit_all-pins ds w).1 none_failed v (rw same mv)) λ p.
              record {
                at = p.at;
                parsed = p.parsed;
                pinned =
                    subst (λ s. laws.IsPinned s p.at) (ap (λ r. r.1) saved.added)
                      (laws.add_keeps _ true u p.at p.pinned);
              };
        }
