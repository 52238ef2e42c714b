-- ===== src/Repo/Tests.antt =====
-- Runs of the operations of core/dorothy.go and core/ipfs.go, and instances of the theorems about them.
use mathlib.Core.List.{mem-cons_self}
use dorothy.Base.{collect, any, select, decide, ◌≡◌, refl, true, [], ◌∷◌}
use dorothy.Version.{Version, same_hash, same_parents, same_elements, equal}
use dorothy.Outcome.{done}
use dorothy.Sorter.{IsSorter}
use dorothy.Sorter.Reference.{reference, reference-IsSorter}
use dorothy.Manifest.{Manifest, toposort, merge, diff, conflicts, conflicts_of, found}
use dorothy.Manifest.Calls.{Slot-discrete}
use dorothy.Manifest.Samples.{sample_sort, manifest, first, second}
use dorothy.Host.Memory.{Memory, memory, memory-HostLaws, start}
use dorothy.Ipfs.{
  save_manifest, get_manifest, file_text, merge_and_commit, commit_all, commit_version,
  connect_to_peer_by_id, add, add_many, entries,
}
use dorothy.Ipfs.Manifests.{get_manifest-save_manifest}
use dorothy.Ipfs.Merging.{MergeCommitted, merge_and_commit_sound}
use dorothy.Sdk.{
  login_guard, keep_cookies, write_cookies, get_asset, post_asset, send_request, read_payload,
  new_client_with_cookies, after_credentials,
}
use dorothy.Config.{user_string}
use dorothy.Repo.{
  Repo, loaded, configured, add_paths, new_version, commit, commit_paths, merge_into,
  write_manifest_file, manifest_path, manifest_hash, resolve, recieve,
}
use dorothy.Repo.Exchange.{
  fetch, push, push_request, exchange, send_with, payload_of, sdk_client, fetch_request,
}
use dorothy.Repo.Commit.{CommitDone, commit_sound}
use dorothy.Repo.Sync.{Synced, fetch_sound}
use dorothy.Repo.History.{Holds}
use dorothy.Repo.Reach.{Reach, here, after, fetches, pushes, outside, Reach-Holds}
use dorothy.Repo.Samples.{sample_http, world, local, repo}

program : Unit {0}
unfolding toposort merge diff conflicts conflicts_of found reference Slot-discrete collect any
    select decide same_hash same_parents same_elements equal save_manifest get_manifest file_text
    merge_and_commit commit_all commit_version connect_to_peer_by_id add add_many entries
    login_guard keep_cookies write_cookies get_asset post_asset send_request read_payload
    new_client_with_cookies after_credentials loaded configured user_string add_paths new_version
    commit commit_paths merge_into write_manifest_file manifest_path manifest_hash resolve recieve
    fetch push push_request exchange send_with payload_of sdk_client fetch_request
program = tt

order : IsSorter sample_sort
order = reference-IsSorter Slot-discrete

abbrev sent : Manifest
sent = manifest (first ∷ second ∷ [])

saving :
    save_manifest memory sent world
    ≡ (done (record sent { hash = "QQm" }), (save_manifest memory sent world).1)
unfolding program
saving = refl

get_manifest-save_manifest_example :
    (sent.versions ≡ sent.versions)
    × (v : Memory) × (get_manifest memory "QQm" (save_manifest memory sent world).1
        ≡ (done (record sent { hash = "QQm" }), v))
get_manifest-save_manifest_example =
    get_manifest-save_manifest memory memory-HostLaws sent (record sent { hash = "QQm" }) world
      (save_manifest memory sent world).1 saving

abbrev merged : Memory
merged = (merge_and_commit memory sample_sort local sent world).1

merging :
    merge_and_commit memory sample_sort local sent world
    ≡ (done (record sent { hash = "QQm" }), merged)
unfolding program
merging = refl

merge_and_commit_sound_example :
    MergeCommitted memory memory-HostLaws sample_sort order local sent
      (record sent { hash = "QQm" })
      merged
merge_and_commit_sound_example =
    merge_and_commit_sound memory memory-HostLaws sample_sort order local sent
      (record sent { hash = "QQm" }) world merged merging

abbrev into : Repo Memory
into = (merge_into memory sample_sort sent repo).1

merging_into : merge_into memory sample_sort sent repo ≡ (done tt, into)
unfolding program
merging_into = refl

abbrev committed : Repo Memory
committed = (commit memory sample_sort ("data.csv" ∷ []) "more data" true ("hash1" ∷ []) repo).1

committing :
    commit memory sample_sort ("data.csv" ∷ []) "more data" true ("hash1" ∷ []) repo
    ≡ (done tt, committed)
unfolding program
committing = refl

commit_sound_example :
    CommitDone memory memory-HostLaws sample_sort order "more data" ("hash1" ∷ []) repo committed
commit_sound_example =
    commit_sound memory memory-HostLaws sample_sort order "data.csv" [] "more data" true
      ("hash1" ∷ []) repo committed committing

abbrev received : Repo Memory
received = (recieve memory sample_sort local "Qx" repo).1

receiving :
    recieve memory sample_sort local "Qx" repo ≡ (done (record sent { hash = "QQm" }), received)
unfolding program
receiving = refl

abbrev fetched : Repo Memory
fetched = (fetch memory sample_sort sample_http repo).1

fetching : fetch memory sample_sort sample_http repo ≡ (done tt, fetched)
unfolding program
fetching = refl

fetch_sound_example :
    Synced memory sample_sort sample_http memory-HostLaws order
      (fetch_request memory sample_sort sample_http)
      repo
      fetched
fetch_sound_example =
    fetch_sound memory sample_sort sample_http memory-HostLaws order repo fetched fetching

abbrev other : Version
other = record first { hash = "other" }

by_prefix : resolve (first ∷ other ∷ []) "oth" ≡ done "other"
unfolding program
by_prefix = refl

abbrev pushed : Repo Memory
pushed = (push memory sample_sort sample_http repo).1

pushing : push memory sample_sort sample_http repo ≡ (done tt, pushed)
unfolding program
pushing = refl

-- A fetch, a loss of the world's files, and a push that then fails or not.
run :
    Reach memory memory-HostLaws sample_sort order sample_http repo
      (push memory sample_sort sample_http (record fetched { world = start })).1
run =
    after (after (after (here repo) (fetches repo)) (outside start fetched))
      (pushes (record fetched { world = start }))

Reach-Holds_example :
    Holds memory first (push memory sample_sort sample_http (record fetched { world = start })).1
Reach-Holds_example =
    Reach-Holds memory memory-HostLaws sample_sort order sample_http first run
      (record { manifest = local; held = refl; mem = mem-cons_self })
