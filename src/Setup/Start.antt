-- ===== src/Setup/Start.antt =====
-- core/dorothy.go: `NewDorothy`, `IsInitialized`, `Setup`, `Initialize` and `Clone`.
use dorothy.Base.{
  String, Option, none, some, Bool, true, false, not, ◌&&◌, List, [], ◌∷◌, ◌==◌, if◌then◌else◌,
}
use dorothy.Outcome.{
  Reply, ok, err, Outcome, done, conflicted, failed, external, nil_dereference, not_repository,
  already_initialized, cannot_create, cannot_write_config, unexpected_dataset,
}
use dorothy.Sorter.{Sorter}
use dorothy.Manifest.{Manifest, Slot}
use dorothy.Effects.{Action, lift, call, of_reply, guard, ◌>>=◌, ◌>>◌}
use dorothy.Host.{Host}
use dorothy.Ipfs
use dorothy.Sdk.{Http}
use dorothy.Config.{pos, Config, no_config, IpfsConfig, Remote, new_remote}
use dorothy.Repo.{
  Dorothy, Repo, gets, wrap, manifest_path, load_manifest, assign_manifest, write_manifest_file,
}
use dorothy.Repo.Exchange.{fetch}
use dorothy.Setup.{System, Kubo, FileError, missing, present, broken}
use dorothy.Setup.Connection.{
  NodeOption, new_ipfs, connect_ipfs, initialize_and_connect, reload_ipfs,
}
use dorothy.Setup.Configs.{local_config_path, load_default_config, set_config, write_config}

module _ (h : Host) (system : System h.World) where
  open h use {World, join}
  open system use {urls, current_dir, change_dir, stat, make_dirs}

  -- One of the paths that a repository has: a directory or a file, as expected.
  abbrev pub is_as_expected : Option Bool → Bool → Bool
  is_as_expected none is_dir = false
  is_as_expected (some found) is_dir = if is_dir then found else not found

  unfoldable pub is_initialized : Dorothy → World → Bool
  unfolding manifest_path local_config_path
  is_initialized d w =
      is_as_expected (stat d.directory w) true
      && is_as_expected (stat (local_config_path h system d) w) false
      && is_as_expected (stat (manifest_path h d) w) false

  module _ (kubo : Kubo h.World) where
    unfoldable pub setup : List NodeOption → Action (Repo World) (Unit {0})
    unfolding is_initialized
    setup options = do
      ready ← λ r. (done (is_initialized r.dorothy r.world), r)
      guard ready not_repository
      connect_ipfs h kubo options
      load_manifest h

    abbrev pub made_repository : Option FileError → Outcome (Unit {0})
    made_repository none = done tt
    made_repository (some present) = failed already_initialized
    made_repository (some missing) = failed cannot_create
    made_repository (some (broken e)) = failed cannot_create

    abbrev pub globally : Option IpfsConfig → IpfsConfig
    globally none = record { global = true; address = ""; port = pos 0 }
    globally (some c) = record c { global = true }

    -- `if global`: the node of the program is made anew, not connected.
    unfoldable pub use_global : Bool → Action (Repo World) (Unit {0})
    unfolding new_ipfs
    use_global false r = (done tt, r)
    use_global true r =
        let c : Config = record (r.dorothy.config) {
          ipfs = some (globally r.dorothy.config.ipfs);
        } in
        (done tt, record r { dorothy = record (r.dorothy) { config = c; ipfs = new_ipfs c.ipfs } })

    -- The configuration that a new repository gets.
    abbrev pub first_config : Bool → Config
    first_config false = no_config
    first_config true = record no_config { ipfs = some (globally none) }

    abbrev pub wrote_config : Option FileError → Outcome (Unit {0})
    wrote_config none = done tt
    wrote_config (some e) = failed cannot_write_config

    -- The manifest of a new repository: an empty one, or the one that is held.
    unfoldable pub first_manifest : Option Manifest → Action World Manifest
    first_manifest none = Ipfs.create_empty_manifest h
    first_manifest (some m) = Ipfs.save_manifest h m

    -- `os.MkdirAll(d.Directory, ...)`
    unfoldable pub make_repository : Action (Repo World) (Unit {0})
    make_repository r =
        let (e, w) = make_dirs r.dorothy.directory r.world in
        (made_repository e, record r { world = w })

    unfoldable pub write_first_config : Bool → Action (Repo World) (Unit {0})
    unfolding local_config_path
    write_first_config global r =
        let (e, w) =
          write_config h system (local_config_path h system r.dorothy) (first_config global)
            r.world in
        (wrote_config e, record r { world = w })

    unfoldable pub save_first : Action (Repo World) (Unit {0})
    unfolding first_manifest
    save_first = do
      m ← gets h (λ d. d.manifest)
      assign_manifest h (first_manifest m)
      wrap h "failed to write manifest file" (write_manifest_file h)

    unfoldable pub initialize_new : Bool → List NodeOption → Action (Repo World) (Unit {0})
    unfolding make_repository use_global write_first_config save_first
    initialize_new global options = do
      make_repository
      use_global global
      write_first_config global
      initialize_and_connect h kubo options
      save_first

    unfoldable pub initialize : Bool → List NodeOption → Action (Repo World) (Unit {0})
    unfolding is_initialized initialize_new
    initialize global options r =
        if is_initialized r.dorothy r.world
        then initialize_and_connect h kubo options r
        else initialize_new global options r

    -- The program before anything is loaded, in the current directory.
    abbrev pub blank : String → World → Repo World
    blank cwd w = record {
      dorothy = record {
        directory = join cwd ".dorothy";
        loaded_configs = [];
        config = no_config;
        ipfs = new_ipfs none;
        manifest = none;
      };
      client = none;
      world = w;
    }

    -- `NewDorothy` before it loads the configuration.
    abbrev pub program_at : Reply String → World → Outcome (Repo World)
    program_at (ok cwd) w = done (blank cwd w)
    program_at (err e) w = failed (external e)

    unfoldable pub load_dorothy : Action (Repo World) (Unit {0})
    load_dorothy = do load_default_config h system kubo; reload_ipfs h kubo

    module _ (sort : Sorter Slot) (http : Http World) where
      abbrev pub clone_fetched : Outcome (Unit {0}) × Repo World → Outcome (Unit {0}) × Repo World
      clone_fetched (done _, r) = (done tt, r)
      clone_fetched (conflicted cs e, r) = (failed unexpected_dataset, r)
      clone_fetched (failed e, r) = (failed e, r)

      -- What `Clone` does with the program of the new directory.
      unfoldable pub clone_into : String → Bool → Action (Repo World) (Unit {0})
      unfolding load_dorothy is_initialized initialize
      clone_into remote global = do
        load_dorothy
        there ← λ r. (done (is_initialized r.dorothy r.world), r)
        guard (not there) already_initialized
        initialize global []
        set_config h system kubo ("remote" ∷ []) remote false
        λ r. clone_fetched (fetch h sort http r)

      -- A name of a directory, which is that of the dataset unless one is given.
      abbrev pub dataset_of : Option Remote → Outcome String
      dataset_of none = failed nil_dereference
      dataset_of (some r) = done r.dataset

      unfoldable pub clone_target : String → String → Outcome String
      clone_target remote dest =
          if dest == ""
          then elim (new_remote urls remote) [
            | done o ↦ dataset_of o
            | conflicted cs e ↦ conflicted cs e
            | failed e ↦ failed e
          ]
          else done dest

      abbrev pub left_dir : String → Outcome (Unit {0}) × World → Outcome (Unit {0}) × World
      left_dir cwd (o, w) = let (_, w') = change_dir cwd w in (o, w')

      abbrev pub cloned : String → Bool → Outcome (Repo World) → World → Outcome (Unit {0}) × World
      cloned remote global (done r) w = let (o, r') = clone_into remote global r in (o, r'.world)
      cloned remote global (conflicted cs e) w = (conflicted cs e, w)
      cloned remote global (failed e) w = (failed e, w)

      abbrev pub made_clone : Option FileError → Outcome (Unit {0})
      made_clone none = done tt
      made_clone (some e) = failed cannot_create

      -- `Clone`; the directory that it went to is left at the end.
      unfoldable pub clone : String → String → Bool → Action World (Unit {0})
      unfolding clone_target clone_into
      clone remote dest global = do
        name ← lift (clone_target remote dest)
        cwd ← λ w. (of_reply (current_dir w), w)
        let target = join cwd name
        made ← λ w. let (e, w') = make_dirs target w in (done e, w')
        lift (made_clone made)
        call (change_dir target)
        λ w. left_dir cwd (cloned remote global (program_at (current_dir w) w) w)
