-- ===== src/Setup/Tests.antt =====
-- Runs of the set-up of a repository in memory, and instances of the theorems about it.
use dorothy.Base.{◌≡◌, refl, some, true, false, [], ◌∷◌}
use dorothy.Outcome.{done}
use dorothy.Host.Memory.{Memory, memory, memory-HostLaws}
use dorothy.Ipfs.{save_manifest, create_empty_manifest, get_manifest, file_text}
use dorothy.Config.{new_remote, remote_of}
use dorothy.Config.Tree.{scalar, set_path, get_path, del_path, lookup, insert, remove}
use dorothy.Repo.{
  Repo, manifest_path, manifest_hash, write_manifest_file, load_manifest, assign_manifest,
}
use dorothy.Setup.Connection.{
  new_ipfs, build_cfg, setup_plugins, initialize_local, initialize_ipfs, create_node, instantiate,
  connect_local, global_api, peer_identity, connect_global, connect_ipfs, initialize_and_connect,
  reload_ipfs,
}
use dorothy.Setup.Configs.{
  read_config, local_config_path, load_config_file, load_config_files, reload_config, config_path,
  write_or_make, write_config, store, promote, edit_config, set_config, del_config,
}
use dorothy.Setup.Start.{
  is_initialized, setup, make_repository, use_global, write_first_config, first_manifest,
  save_first, initialize_new, initialize,
}
use dorothy.Setup.Ready.{SetUp, setup_sound}
use dorothy.Setup.Initial.{Initialized, initialize_sound}
use dorothy.Setup.Editing.{Edited, set_config_sound}
use dorothy.Setup.Samples.{sample_kubo, sample_system, ready, unmade}

program : Unit {0}
unfolding save_manifest create_empty_manifest get_manifest file_text new_remote remote_of set_path
    get_path del_path lookup insert remove manifest_path manifest_hash write_manifest_file
    load_manifest assign_manifest new_ipfs build_cfg setup_plugins initialize_local initialize_ipfs
    create_node instantiate connect_local global_api peer_identity connect_global connect_ipfs
    initialize_and_connect reload_ipfs read_config local_config_path load_config_file
    load_config_files reload_config config_path write_or_make write_config store promote edit_config
    set_config del_config is_initialized setup make_repository use_global write_first_config
    first_manifest save_first initialize_new initialize
program = tt

abbrev set_up : Repo Memory
set_up = (setup memory sample_system sample_kubo [] ready).1

setting_up : setup memory sample_system sample_kubo [] ready ≡ (done tt, set_up)
unfolding program
setting_up = refl

setup_sound_example : SetUp memory sample_system sample_kubo ready set_up
setup_sound_example = setup_sound memory sample_system sample_kubo [] ready set_up setting_up

abbrev initialized : Repo Memory
initialized = (initialize memory sample_system sample_kubo true [] unmade).1

not_yet : is_initialized memory sample_system unmade.dorothy unmade.world ≡ false
unfolding program
not_yet = refl

initializing : initialize memory sample_system sample_kubo true [] unmade ≡ (done tt, initialized)
unfolding program
initializing = refl

initialize_sound_example :
    Initialized memory sample_system sample_kubo memory-HostLaws unmade initialized
initialize_sound_example =
    initialize_sound memory sample_system sample_kubo memory-HostLaws true [] unmade initialized
      not_yet initializing

abbrev reloaded : Repo Memory
reloaded = (reload_config memory sample_system sample_kubo ready).1

reloading : reload_config memory sample_system sample_kubo ready ≡ (done tt, reloaded)
unfolding program
reloading = refl

abbrev edited : Repo Memory
edited =
    (set_config memory sample_system sample_kubo ("user" ∷ "email" ∷ []) "doug@example.com" false
      ready).1

editing :
    set_config memory sample_system sample_kubo
      ("user" ∷ "email" ∷ [])
      "doug@example.com"
      false
      ready
    ≡ (done ".dorothy/config.toml", edited)
unfolding program
editing = refl

set_config_sound_example :
    (w : Edited memory sample_system sample_kubo
      (set_path
        ("user" ∷ "email" ∷ [])
        (scalar (promote memory sample_system sample_kubo "doug@example.com")))
      ".dorothy/config.toml"
      ready)
    × (get_path ("user" ∷ "email" ∷ []) w.after
        ≡ some (scalar (promote memory sample_system sample_kubo "doug@example.com")))
set_config_sound_example =
    set_config_sound memory sample_system sample_kubo "user" ("email" ∷ []) "doug@example.com"
      ".dorothy/config.toml" ready edited editing

abbrev pruned : Repo Memory
pruned = (del_config memory sample_system sample_kubo ("user" ∷ "name" ∷ []) false ready).1

pruning :
    del_config memory sample_system sample_kubo ("user" ∷ "name" ∷ []) false ready
    ≡ (done ".dorothy/config.toml", pruned)
unfolding program
pruning = refl
