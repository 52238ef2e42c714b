-- ===== src/Manifest/Tests.antt =====
-- Runs of the operations of core/manifest.go, and instances of the theorems about them.
use mathlib.Core.List.{Pairwise-cons, Pairwise, not-mem-nil, mem-cons_self}
use dorothy.Base.{collect, any, select, decide, ◌≡◌, ◌↔◌, refl, List, [], ◌∷◌, ◌++◌, Perm, true}
use dorothy.Version.{Version, same_hash, same_parents, same_elements, equal}
use dorothy.Outcome.{done, conflicted, failed, merge_conflict, cycles_detected}
use dorothy.Sorter.{IsSorter}
use dorothy.Sorter.Reference.{reference, reference-IsSorter}
use dorothy.Manifest.{Manifest, toposort, merge, diff, conflicts, conflicts_of, found}
use dorothy.Manifest.Calls.{Slot-discrete}
use dorothy.Manifest.Conflicts.{IsCompatible}
use dorothy.Manifest.Delta.{delta}
use dorothy.Manifest.Order.{IsOrdered, toposort_sound, toposort_fails_iff}
use dorothy.Manifest.Merge.{AreClashes, merge_sound, merge_conflicted_iff}
use dorothy.Manifest.MergeLaws.{HashesDistinct, merge_again, merge_other_parents}
use dorothy.Manifest.Samples.{sample_sort, manifest, first, second, third, forged}

program : Unit {0}
unfolding toposort merge diff conflicts conflicts_of found reference Slot-discrete collect any
    select decide same_hash same_parents same_elements equal
program = tt

order : IsSorter sample_sort
order = reference-IsSorter Slot-discrete

toposort_by_parentage :
    toposort sample_sort (third ∷ first ∷ second ∷ []) ≡ done (first ∷ second ∷ third ∷ [])
unfolding program
toposort_by_parentage = refl

abbrev local : Manifest
local = manifest (first ∷ [])

abbrev remote : Manifest
remote = manifest (second ∷ first ∷ [])

abbrev both : Manifest
both = manifest (first ∷ second ∷ [])

merge_of_both : merge sample_sort local remote ≡ done both
unfolding program
merge_of_both = refl

merge_refused :
    merge sample_sort local (manifest (forged ∷ []))
    ≡ conflicted (record { left = first; right = forged } ∷ []) merge_conflict
unfolding program
merge_refused = refl

-- A version that names another parent is taken for the one that is held, and dropped.
merge_of_adopted :
    merge sample_sort
      (manifest (second ∷ []))
      (manifest (record second { parents = "hash9" ∷ [] } ∷ []))
    ≡ done (manifest (second ∷ []))
unfolding program
merge_of_adopted = refl

compatible_here : (conflicts local remote).1 ≡ true
unfolding program
compatible_here = refl

distinct_one : (v : Version) → HashesDistinct (v ∷ [])
distinct_one v = Pairwise-cons.1 (λ u m. absurd (not-mem-nil m), Pairwise.nil)

toposort_sound_example :
    Perm (first ∷ second ∷ third ∷ []) (third ∷ first ∷ second ∷ [])
    × IsOrdered (first ∷ second ∷ third ∷ [])
toposort_sound_example =
    toposort_sound sample_sort order (third ∷ first ∷ second ∷ []) (first ∷ second ∷ third ∷ [])
      toposort_by_parentage

toposort_fails_iff_example :
    (toposort sample_sort (second ∷ first ∷ []) ≡ failed cycles_detected)
    ↔ ((ws : List Version) → Perm ws (second ∷ first ∷ []) → ¬ IsOrdered ws)
toposort_fails_iff_example = toposort_fails_iff sample_sort order (second ∷ first ∷ [])

merge_sound_example :
    IsCompatible local remote
    × Perm both.versions (local.versions ++ delta local remote)
    × IsOrdered both.versions
    × (both.hash ≡ "")
merge_sound_example = merge_sound sample_sort order local remote both merge_of_both

merge_conflicted_iff_example :
    (merge sample_sort local (manifest (forged ∷ []))
      ≡ conflicted (record { left = first; right = forged } ∷ []) merge_conflict)
    ↔ ((¬ IsCompatible local (manifest (forged ∷ [])))
        × ((record { left = first; right = forged } ∷ [])
            ≡ (conflicts local (manifest (forged ∷ []))).0)
        × AreClashes local (manifest (forged ∷ [])) (record { left = first; right = forged } ∷ [])
        × (merge_conflict ≡ merge_conflict))
merge_conflicted_iff_example =
    merge_conflicted_iff sample_sort order local (manifest (forged ∷ []))
      (record { left = first; right = forged } ∷ []) merge_conflict

abbrev only_second : Manifest
only_second = manifest (second ∷ [])

merge_of_second : merge sample_sort local only_second ≡ done both
unfolding program
merge_of_second = refl

merge_again_example :
    (m' : Manifest) × (merge sample_sort both only_second ≡ done m')
    × Perm m'.versions both.versions
merge_again_example =
    merge_again sample_sort order local only_second both merge_of_second (distinct_one second)

alone : toposort sample_sort (second ∷ []) ≡ done (second ∷ [])
unfolding program
alone = refl

merge_other_parents_example :
    (m : Manifest) × (merge sample_sort only_second
        (manifest (record second { parents = "hash9" ∷ [] } ∷ []))
      ≡ done m)
    × Perm m.versions (second ∷ [])
merge_other_parents_example =
    merge_other_parents sample_sort order only_second second ("hash9" ∷ []) (distinct_one second)
      (toposort_sound sample_sort order (second ∷ []) (second ∷ []) alone).1 mem-cons_self refl
