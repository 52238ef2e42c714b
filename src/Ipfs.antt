-- ===== src/Ipfs.antt =====
-- core/ipfs.go: the operations of a connected `Ipfs` on manifests and files.
pub mod Manifests
pub mod Merging
use dorothy.Base.{String, Option, none, some, Bool, true, List, [], ◌∷◌}
use dorothy.Version.{Version}
use dorothy.Outcome.{Error, Outcome, done, conflicted, failed, joined, not_a_file, no_files}
use dorothy.Sorter.{Sorter}
use dorothy.Manifest.{Manifest, Slot, merge, diff}
use dorothy.Effects.{Action, pure, fail, lift, of_reply, call, ◌>>=◌, ◌>>◌}
use dorothy.Host.{Host, ipfs_path}

module _ (h : Host) where
  open h use {
    World, Bytes, FileNode, encode, decode, new_path, reader_file, to_file, add_node, get_node,
    pin_add, find_peer, swarm_connect, write_to, serial_file, slice_directory, base,
  }

  unfoldable pub save_manifest : Manifest → Action World Manifest
  save_manifest m = do
    text ← lift (of_reply (encode m.versions))
    cid ← call (add_node (reader_file text) true)
    pure (record m { hash = cid })

  unfoldable pub create_empty_manifest : Action World Manifest
  unfolding save_manifest
  create_empty_manifest = save_manifest (record { versions = []; hash = "" })

  -- The text of a fetched node; `files.ToFile` answers nil for a directory.
  unfoldable pub file_text : Option Bytes → Outcome Bytes
  file_text none = failed not_a_file
  file_text (some text) = done text

  unfoldable pub get_manifest : String → Action World Manifest
  unfolding file_text
  get_manifest hash = do
    path ← lift (of_reply (new_path (ipfs_path hash)))
    node ← call (get_node path)
    text ← lift (file_text (to_file node))
    versions ← lift (of_reply (decode text))
    pure (record { versions = versions; hash = hash })

  -- `Ipfs.Get`
  unfoldable pub get : String → String → Action World (Unit {0})
  get hash dest = do
    path ← lift (of_reply (new_path (ipfs_path hash)))
    node ← call (get_node path)
    call (write_to node dest)

  -- `Ipfs.Add`; the node's file is opened by `getUnixFileNode`
  unfoldable pub add : String → Bool → Action World String
  add filename pin = do node ← call (serial_file filename); call (add_node node pin)

  -- The loop of `AddMany`.
  unfoldable pub entries : List String → Action World (List (String × FileNode))
  entries [] = pure []
  entries (name ∷ names) = do
    node ← call (serial_file name)
    rest ← entries names
    pure ((base name, node) ∷ rest)

  unfoldable pub add_many : List String → Bool → Action World String
  unfolding entries
  add_many [] pin = fail no_files
  add_many (name ∷ names) pin = do
    nodes ← entries (name ∷ names)
    call (add_node (slice_directory nodes) pin)

  unfoldable pub connect_to_peer_by_id : String → Action World (Unit {0})
  connect_to_peer_by_id id = do address ← call (find_peer id); call (swarm_connect address)

  unfoldable pub commit_version : Version → Action World String
  commit_version v = do
    path ← lift (of_reply (new_path (ipfs_path v.hash)))
    call (pin_add path)
    pure v.hash

  -- One round of the loop of `MergeAndCommit`: an error is collected, and the loop goes on.
  abbrev pub collect_error : Outcome String → List Error → List Error
  collect_error (done _) errs = errs
  collect_error (conflicted _ e) errs = e ∷ errs
  collect_error (failed e) errs = e ∷ errs

  unfoldable pub commit_all : List Version → World → List Error × World
  unfolding commit_version
  commit_all [] w = ([], w)
  commit_all (v ∷ vs) w =
      let (o, w') = commit_version v w in
      let (errs, w'') = commit_all vs w' in (collect_error o errs, w'')

  -- `errors.Join`
  abbrev pub join_from : Error → List Error → Error
  join_from e [] = e
  join_from e (e' ∷ es) = joined e (join_from e' es)

  abbrev pub join_errors : List Error → Outcome (Unit {0})
  join_errors [] = done tt
  join_errors (e ∷ es) = failed (join_from e es)

  module _ (sort : Sorter Slot) where
    unfoldable pub merge_and_commit : Manifest → Manifest → Action World Manifest
    unfolding commit_all save_manifest
    merge_and_commit old new = do
      merged ← lift (merge sort old new)
      delta ← lift (diff old new)
      errs ← λ w. let (errs, w') = commit_all delta w in (done errs, w')
      lift (join_errors errs)
      save_manifest merged

    -- `Ipfs.Commit`
    unfoldable pub commit : Manifest → Action World Manifest
    unfolding merge_and_commit
    commit m = merge_and_commit (record { versions = []; hash = "" }) m
