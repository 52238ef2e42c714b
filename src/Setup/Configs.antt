-- ===== src/Setup/Configs.antt =====
-- core/dorothy.go: the loading of configuration files, and `SetConfig`, `GetConfig` and `DelConfig`.
use dorothy.Base.{String, Option, none, some, Bool, true, false, List, [], ◌∷◌, ◌++◌, if◌then◌else◌}
use dorothy.Outcome.{
  Reply, ok, err, Outcome, done, conflicted, failed, external, no_loaded_config, property_not_found,
}
use dorothy.Effects.{Action, pure, lift, of_reply, ◌>>=◌, ◌>>◌}
use dorothy.Host.{Host}
use dorothy.Config.{Config, no_config, Remote, new_remote}
use dorothy.Config.Tree.{Value, scalar, Table, end, set_path, get_path, del_path}
use dorothy.Repo.{Dorothy, Repo, gets, on_world}
use dorothy.Setup.{System, Kubo, FileError, missing, present, broken, file_error}
use dorothy.Setup.Connection.{reload_ipfs}

-- `d.LoadedConfigs[len(d.LoadedConfigs)-1]`, which panics if nothing is loaded
abbrev pub last_loaded : List String → Outcome String
last_loaded [] = failed no_loaded_config
last_loaded (f ∷ []) = done f
last_loaded (f ∷ g ∷ fs) = last_loaded (g ∷ fs)

module _ (h : Host) (system : System h.World) where
  open h use {World, join}
  open system use {
    urls, config_home, make_dirs, create_file, parent_dir, decode_config, truncate_file,
    encode_config, Scalar, decode_map, to_config, to_map, parse_bool, parse_int, parse_float, plain,
  }

  unfoldable pub global_config_path : String
  global_config_path = join (join config_home "dorothy") "config.toml"

  unfoldable pub local_config_path : Dorothy → String
  local_config_path d = join d.directory "config.toml"

  -- The end of `Config.ReadFile`: the remote is read again.
  abbrev pub with_remote : Config → Outcome (Option Remote) → Config × Option FileError
  with_remote c (done o) = (record c { remote = o }, none)
  with_remote c (conflicted cs e) = (record c { remote = none }, some (broken "ill-formed remote"))
  with_remote c (failed e) = (record c { remote = none }, some (broken "ill-formed remote"))

  abbrev pub decoded : Config × Option FileError → Config × Option FileError
  decoded (c, some e) = (c, some e)
  decoded (c, none) = with_remote c (new_remote urls c.remote_string)

  -- `Config.ReadFile`: a configuration is read over the one that is there.
  unfoldable pub read_config : String → Config → World → Config × Option FileError
  read_config filename c w = decoded (decode_config filename c w)

  -- `ReadConfigFile`: a configuration of its own.
  abbrev pub whole : Config × Option FileError → Outcome Config
  whole (c, none) = done c
  whole (c, some e) = failed (file_error e)

  unfoldable pub read_config_file : String → World → Outcome Config
  unfolding read_config
  read_config_file filename w = whole (read_config filename no_config w)

  -- `Config.WriteFile` and `Config.Encode`: a configuration that cannot be encoded leaves an empty file.
  abbrev pub encoded_config : String → Config → Option FileError × World → Option FileError × World
  encoded_config filename c (some e, w) = (some e, w)
  encoded_config filename c (none, w) = encode_config filename c w

  unfoldable pub write_config : String → Config → World → Option FileError × World
  write_config filename c w = encoded_config filename c (truncate_file filename w)

  -- Files that do not exist are no error, and count as loaded.
  abbrev pub accept_read : Option FileError → Outcome (Unit {0})
  accept_read none = done tt
  accept_read (some missing) = done tt
  accept_read (some present) = failed (file_error present)
  accept_read (some (broken e)) = failed (file_error (broken e))

  abbrev pub set_config_of : Config → Action (Repo World) (Unit {0})
  set_config_of c r = (done tt, record r { dorothy = record (r.dorothy) { config = c } })

  abbrev pub set_loaded : List String → Action (Repo World) (Unit {0})
  set_loaded fs r = (done tt, record r { dorothy = record (r.dorothy) { loaded_configs = fs } })

  module _ (kubo : Kubo h.World) where
    unfoldable pub load_config_file : String → Action (Repo World) (Unit {0})
    unfolding read_config
    load_config_file filename = do
      result ← λ r. (done (read_config filename r.dorothy.config r.world), r)
      set_config_of result.0
      lift (accept_read result.1)
      fs ← gets h (λ d. d.loaded_configs)
      set_loaded (fs ++ (filename ∷ []))
      reload_ipfs h kubo

    unfoldable pub load_global_config : Action (Repo World) (Unit {0})
    unfolding load_config_file global_config_path
    load_global_config = load_config_file global_config_path

    unfoldable pub load_local_config : Action (Repo World) (Unit {0})
    unfolding load_config_file local_config_path
    load_local_config = do d ← gets h (λ d. d); load_config_file (local_config_path d)

    -- `Dorothy.WriteConfig`
    unfoldable pub write_local_config : Dorothy → World → Option FileError × World
    unfolding local_config_path
    write_local_config d w = write_config (local_config_path d) d.config w

    -- The loops of `LoadDefaultConfig` and `ReloadConfig`, which stop at an error.
    unfoldable pub load_config_files : List String → Action (Repo World) (Unit {0})
    unfolding load_config_file
    load_config_files [] = pure tt
    load_config_files (f ∷ fs) = do load_config_file f; load_config_files fs

    unfoldable pub load_default_config : Action (Repo World) (Unit {0})
    unfolding load_config_files global_config_path local_config_path
    load_default_config = do
      d ← gets h (λ d. d)
      load_config_files (global_config_path ∷ local_config_path d ∷ [])

    -- `LoadConfigFile` appends to `LoadedConfigs` while the loop runs over what it was before.
    unfoldable pub reload_config : Action (Repo World) (Unit {0})
    unfolding load_config_files
    reload_config = do
      set_config_of no_config
      fs ← gets h (λ d. d.loaded_configs)
      load_config_files fs
      reload_ipfs h kubo

    unfoldable pub reset_config : Action (Repo World) (Unit {0})
    unfolding reload_config
    reset_config = do set_loaded []; reload_config

    abbrev pub or_else : Option Scalar → Scalar → Scalar
    or_else none y = y
    or_else (some x) y = x

    unfoldable pub promote : String → Scalar
    promote x = or_else (parse_bool x) (or_else (parse_int x) (or_else (parse_float x) (plain x)))

    unfoldable pub config_path : Bool → Dorothy → Outcome String
    unfolding global_config_path
    config_path global d = if global then done global_config_path else last_loaded d.loaded_configs

    -- A map of a file; a file that does not exist is an empty one.
    abbrev pub map_or_empty : Reply (Option (Table Scalar)) → Outcome (Table Scalar)
    map_or_empty (ok (some t)) = done t
    map_or_empty (ok none) = done end
    map_or_empty (err e) = failed (external e)

    -- The first write failed; where a global file was missing, its directory and the file are made, and
    -- it is written once more. The error of that write is lost.
    abbrev pub made_file : Option FileError × World → String → Config → Outcome (Unit {0}) × World
    made_file (some e, w) path c = (failed (file_error e), w)
    made_file (none, w) path c = let (e, w') = write_config path c w in (done tt, w')

    abbrev pub made_dirs : Option FileError × World → String → Config → Outcome (Unit {0}) × World
    made_dirs (some e, w) path c = (failed (file_error e), w)
    made_dirs (none, w) path c = made_file (create_file path w) path c

    abbrev pub written :
        Bool → String → Config → Option FileError × World → Outcome (Unit {0}) × World
    written global path c (none, w) = (done tt, w)
    written true path c (some missing, w) = made_dirs (make_dirs (parent_dir path) w) path c
    written false path c (some missing, w) = (failed (file_error missing), w)
    written global path c (some present, w) = (failed (file_error present), w)
    written global path c (some (broken e), w) = (failed (file_error (broken e)), w)

    unfoldable pub write_or_make : Bool → String → Config → Action World (Unit {0})
    write_or_make global path c w = written global path c (write_config path c w)

    -- A changed map is written back as a configuration, and everything is loaded again.
    unfoldable pub store : Bool → String → Table Scalar → Action (Repo World) String
    unfolding write_or_make reload_config
    store global path t = do
      c ← lift (of_reply (to_config t))
      on_world h (write_or_make global path c)
      reload_config
      pure path

    -- What `SetConfig` and `DelConfig` share: the file's map is changed and stored.
    unfoldable pub edit_config :
        (Table Scalar → Outcome (Table Scalar)) → Bool → Action (Repo World) String
    unfolding config_path store
    edit_config change global = do
      d ← gets h (λ d. d)
      path ← lift (config_path global d)
      t ← λ r. (map_or_empty (decode_map path r.world), r)
      t' ← lift (change t)
      store global path t'

    unfoldable pub set_config : List String → String → Bool → Action (Repo World) String
    unfolding edit_config promote
    set_config props value = edit_config (set_path props (scalar (promote value)))

    unfoldable pub del_config : List String → Bool → Action (Repo World) String
    unfolding edit_config
    del_config props = edit_config (del_path props)

    abbrev pub found_property : Option (Value Scalar) → Outcome (Value Scalar)
    found_property none = failed property_not_found
    found_property (some v) = done v

    abbrev pub property_of : List String → Outcome (Table Scalar) → Outcome (Value Scalar)
    property_of props (done t) = found_property (get_path props t)
    property_of props (conflicted cs e) = conflicted cs e
    property_of props (failed e) = failed e

    unfoldable pub get_config : List String → Dorothy → Outcome (Value Scalar)
    get_config props d = property_of props (of_reply (to_map d.config))
