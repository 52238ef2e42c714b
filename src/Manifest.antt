-- ===== src/Manifest.antt =====
-- core/manifest.go: `Manifest` and its operations.
pub mod Conflicts
pub mod Calls
pub mod Delta
pub mod Order
pub mod Merge
pub mod MergeLaws
pub mod Leaves
pub mod Report
pub mod Samples
mod Tests
use dorothy.Base.{
  ℕ, suc, String, Option, none, some, Bool, true, not, ◌&&◌, List, [], ◌∷◌, ◌++◌, map, reverse,
  ◌==◌, ltb, any, is_nil, select, collect, guarded, if◌then◌else◌,
}
use dorothy.Version.{Version, same_hash, equal}
use dorothy.Outcome.{
  Conflict, Outcome, ◌>>=◌, done, conflicted, failed, merge_conflict, cycles_detected,
}
use dorothy.Sorter.{Call, add_node, add_edge, Sorter}

pub record Manifest : Type 0 where
  pub versions : List Version
  pub hash : String

-- `IsEmpty`; `none` is the nil receiver
unfoldable pub is_empty : Option Manifest → Bool
is_empty none = true
is_empty (some m) = is_nil m.versions

-- The inner loop of `Conflicts`, for one new version.
unfoldable pub conflicts_of : List Version → Version → List Conflict
conflicts_of olds v =
    collect (λ o. guarded (same_hash v o && not (equal v o)) (record { left = o; right = v })) olds

unfoldable pub conflicts : Manifest → Manifest → List Conflict × Bool
unfolding conflicts_of
conflicts old new =
    let found = collect (conflicts_of old.versions) new.versions in (found, is_nil found)

-- The loop that `Diff` and `Merge` share: is there an equal old version?
unfoldable pub found : List Version → Version → Bool
found olds v = any (λ o. equal v o) olds

unfoldable pub diff : Manifest → Manifest → Outcome (List Version)
unfolding found
diff old new =
    if not (conflicts old new).1
    then failed merge_conflict
    else done (select (λ v. not (found old.versions v)) new.versions)

-- A slot of the slice `versions` in `toposort`: its address, by which the sorter tells nodes
-- apart, and the version that it points to.
pub record Slot : Type 0 where
  pub address : ℕ
  pub version : Version

unfoldable pub slots : ℕ → List Version → List Slot
slots n [] = []
slots n (v ∷ vs) = record { address = n; version = v } ∷ slots (suc n) vs

unfoldable pub parent_calls : List Slot → List (Call Slot)
parent_calls s =
    collect
      (λ i.
        collect
          (λ j. collect (λ hash. guarded (j.version.hash == hash) (add_edge j i)) i.version.parents)
          s)
      s

unfoldable pub date_calls : List Slot → List (Call Slot)
date_calls s =
    collect
      (λ i.
        collect (λ j. guarded (ltb j.version.date.instant i.version.date.instant) (add_edge j i)) s)
      s

unfoldable pub calls : List Slot → List (Call Slot)
unfolding parent_calls date_calls
calls s = map add_node s ++ (parent_calls s ++ date_calls s)

-- The end of `toposort`: the cycles are an error, and the sorted slots are read backwards.
unfoldable pub unload : List Slot × List (List Slot) → Outcome (List Version)
unload (sorted, []) = done (map (λ s. s.version) (reverse sorted))
unload (sorted, _ ∷ _) = failed cycles_detected

module _ (sort : Sorter Slot) where
  unfoldable pub toposort : List Version → Outcome (List Version)
  unfolding slots calls unload
  toposort versions = unload (sort (calls (slots 0 versions)))

  -- `Merge`; the hash of the new manifest is empty until it is saved
  unfoldable pub merge : Manifest → Manifest → Outcome Manifest
  unfolding found toposort
  merge old new =
      if not (conflicts old new).1 then conflicted (conflicts old new).0 merge_conflict else (do
        sorted ← toposort (old.versions ++ select (λ v. not (found old.versions v)) new.versions)
        done (record { versions = sorted; hash = "" }))

-- `UnknownCommits`
unfoldable pub unknown_commits : Manifest → List String → List String
unknown_commits m commits = select (λ parent. not (any (λ v. v.hash == parent) m.versions)) commits

-- The keys of the map `isParent` of `LeafVersions`.
unfoldable pub is_parent : List Version → List String
is_parent versions = collect (λ v. v.parents) versions

unfoldable pub leaf_versions : Manifest → List Version
unfolding is_parent
leaf_versions m = select (λ v. not (any (λ key. key == v.hash) (is_parent m.versions))) m.versions

unfoldable pub reverse_versions : Manifest → List Version
reverse_versions m = reverse m.versions
