-- ===== src/Repo.antt =====
-- core/dorothy.go: the operations of `Dorothy` on its loaded manifest and on its files.
pub mod Checkout
pub mod Commit
pub mod Exchange
pub mod Answers
pub mod Sync
pub mod History
pub mod Reach
pub mod Samples
pub mod Steps
mod Tests
use text.Mathlib.Text.{starts_with}
use dorothy.Base.{
  String, Option, none, some, Bool, not, List, [], ◌∷◌, any, select, ◌==◌, if◌then◌else◌,
}
use dorothy.Config.{Config, UserConfig, user_string, IpfsConfig}
use dorothy.Version.{Version, PathType, path_type_directory, path_type_file}
use dorothy.Outcome.{
  Error, Outcome, done, conflicted, failed, external, wrapped, not_connected, user_not_configured,
  empty_message, no_manifest, hash_not_found, ambiguous_hash, nil_dereference,
}
use dorothy.Sorter.{Sorter}
use dorothy.Manifest.{Manifest, Slot}
use dorothy.Effects.{Action, pure, lift, call, guard, ◌>>=◌, ◌>>◌}
use dorothy.Host.{Host}
use dorothy.Ipfs
use dorothy.Sdk.{Client}

-- `Ipfs` of core/ipfs.go: `connected` is `IsConnected()`, and a global node is one that runs elsewhere.
pub record Node : Type 0 where
  pub config : IpfsConfig
  pub connected : Bool
  pub identity : String

-- `Dorothy`; a nil pointer is `none`.
pub record Dorothy : Type 0 where
  pub directory : String
  pub loaded_configs : List String
  pub config : Config
  pub ipfs : Node
  pub manifest : Option Manifest

-- The program, its `sdkClient`, and the world around it.
pub record Repo (W : Type 0) : Type 0 where
  pub dorothy : Dorothy
  pub client : Option (Client W)
  pub world : W

-- Which version a hash or a prefix of one names: the two loops of `Checkout`.
abbrev pub only : List Version → Outcome String
only [] = failed hash_not_found
only (v ∷ []) = done v.hash
only (v ∷ w ∷ vs) = failed ambiguous_hash

unfoldable pub resolve : List Version → String → Outcome String
resolve versions hash =
    if any (λ v. v.hash == hash) versions
    then done hash
    else only (select (λ v. starts_with v.hash hash) versions)

-- The user of a commit, if name and email are configured.
unfoldable pub configured : Option UserConfig → Outcome UserConfig
configured none = failed user_not_configured
configured (some u) =
    if u.name == ""
    then failed user_not_configured
    else (if u.email == "" then failed user_not_configured else done u)

-- A dereference of the loaded manifest.
unfoldable pub loaded : Option Manifest → Outcome Manifest
loaded none = failed nil_dereference
loaded (some m) = done m

module _ (h : Host) where
  open h use {World, is_dir, write_file, read_file, join, now}

  module _ {A : Type 0} where
    -- A step that leaves `Dorothy` alone.
    abbrev pub on_world : Action World A → Action (Repo World) A
    on_world m r = let (o, w') = m r.world in (o, record r { world = w' })

    abbrev pub gets : (Dorothy → A) → Action (Repo World) A
    gets f r = (done (f r.dorothy), r)

    abbrev pub wrap_outcome : (Error → Error) → Outcome A → Outcome A
    wrap_outcome f (done a) = done a
    wrap_outcome f (conflicted cs e) = conflicted cs e
    wrap_outcome f (failed e) = failed (f e)

    -- `fmt.Errorf("...: %v", err)`
    abbrev pub wrap : String → Action (Repo World) A → Action (Repo World) A
    wrap text m r = let (o, r') = m r in (wrap_outcome (wrapped text) o, r')

    -- `fmt.Errorf("...")`, whatever the error was
    abbrev pub instead : String → Action (Repo World) A → Action (Repo World) A
    instead text m r = let (o, r') = m r in (wrap_outcome (λ e. external text) o, r')

  -- `d.Manifest = m`
  abbrev pub set_manifest : Manifest → Action (Repo World) (Unit {0})
  set_manifest m r = (done tt, record r { dorothy = record (r.dorothy) { manifest = some m } })

  unfoldable pub manifest_path : Dorothy → String
  manifest_path d = join d.directory "manifest"

  unfoldable pub manifest_hash : Option Manifest → Outcome String
  manifest_hash none = failed no_manifest
  manifest_hash (some m) = done m.hash

  unfoldable pub write_manifest_file : Action (Repo World) (Unit {0})
  unfolding manifest_path manifest_hash
  write_manifest_file = do
    d ← gets (λ d. d)
    hash ← lift (manifest_hash d.manifest)
    on_world (call (write_file (manifest_path d) hash))

  -- `d.Manifest, err = ...`: an error leaves a nil manifest.
  unfoldable pub assign_manifest : Action World Manifest → Action (Repo World) (Unit {0})
  assign_manifest m r =
      let (o, w') = m r.world in
      elim o [
        | done m ↦
            (done tt, record r { dorothy = record (r.dorothy) { manifest = some m }; world = w' })
        | conflicted cs e ↦ (
          conflicted cs e,
          record r { dorothy = record (r.dorothy) { manifest = none }; world = w' },
        )
        | failed e ↦
            (failed e, record r { dorothy = record (r.dorothy) { manifest = none }; world = w' })
      ]

  unfoldable pub load_manifest : Action (Repo World) (Unit {0})
  unfolding manifest_path assign_manifest
  load_manifest = do
    d ← gets (λ d. d)
    guard d.ipfs.connected not_connected
    hash ← on_world (call (read_file (manifest_path d)))
    assign_manifest (Ipfs.get_manifest h hash)

  unfoldable pub checkout : String → String → Action (Repo World) (Unit {0})
  unfolding resolve
  checkout hash dest = do
    d ← gets (λ d. d)
    guard d.ipfs.connected not_connected
    m ← lift (elim d.manifest [ none ↦ failed no_manifest | some m ↦ done m ])
    target ← lift (resolve m.versions hash)
    on_world (Ipfs.get h target dest)

  -- The files of a commit are added to the node.
  unfoldable pub add_paths : List String → Bool → Action (Repo World) (PathType × String)
  add_paths (path ∷ []) nopin = do
    directory ← wrap "cannot access dataset" (on_world (call (is_dir path)))
    hash ← wrap "failed to add dataset" (on_world (Ipfs.add h path (not nopin)))
    pure (if directory then path_type_directory else path_type_file, hash)
  add_paths paths nopin = do
    hash ← wrap "failed to add dataset" (on_world (Ipfs.add_many h paths (not nopin)))
    pure (path_type_directory, hash)

  module _ (sort : Sorter Slot) where
    -- The end of `Commit`, `Fetch` and `Push`: merge, commit, and write the manifest file.
    unfoldable pub merge_into : Manifest → Action (Repo World) (Unit {0})
    unfolding loaded write_manifest_file
    merge_into new = do
      d ← gets (λ d. d)
      old ← lift (loaded d.manifest)
      merged ← on_world (Ipfs.merge_and_commit h sort old new)
      set_manifest merged
      write_manifest_file

    unfoldable pub new_version :
        UserConfig → String → List String → PathType × String → Action (Repo World) Manifest
    unfolding user_string
    new_version u message parents (path_type, hash) r = (
      done (record {
        versions =
            record {
              author = user_string u;
              date = now r.world;
              message = message;
              hash = hash;
              path_type = path_type;
              parents = parents;
            }
            ∷ [];
        hash = "";
      }),
      r,
    )

    unfoldable pub commit_paths :
        List String → String → Bool → List String → Action (Repo World) (Unit {0})
    unfolding configured add_paths new_version merge_into
    commit_paths paths message nopin parents = do
      d ← gets (λ d. d)
      guard d.ipfs.connected not_connected
      u ← lift (configured d.config.user)
      guard (not (message == "")) empty_message
      added ← add_paths paths nopin
      new ← new_version u message parents added
      merge_into new

    unfoldable pub commit :
        List String → String → Bool → List String → Action (Repo World) (Unit {0})
    unfolding commit_paths
    commit [] message nopin parents = pure tt
    commit (p ∷ ps) message nopin parents = commit_paths (p ∷ ps) message nopin parents

    -- `Recieve`, which the server calls
    unfoldable pub recieve : Manifest → String → Action (Repo World) Manifest
    recieve old hash = do
      d ← gets (λ d. d)
      guard d.ipfs.connected not_connected
      new ← on_world (Ipfs.get_manifest h hash)
      on_world (Ipfs.merge_and_commit h sort old new)
