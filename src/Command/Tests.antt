-- ===== src/Command/Tests.antt =====
-- Runs of the commands in memory, and instances of the theorems about them.
use mathlib.Core.List.Perm
use dorothy.Base.{
  ◌≡◌, ◌↔◌, ◌⊎◌, ◌<◌, ◌&&◌, refl, ℕ, Bool, true, false, [], ◌∷◌, select, any, ◌==◌, collect, Option,
  none, some,
}
use dorothy.Outcome.{ok, Outcome, done}
use dorothy.Sorter.Reference.{reference-IsSorter, reference}
use dorothy.Manifest.{unknown_commits, is_empty}
use dorothy.Manifest.Calls.{Slot-discrete}
use dorothy.Manifest.Samples.{sample_sort, first, second}
use dorothy.Host.Memory.{Memory, memory, memory-HostLaws, start}
use dorothy.View.{key}
use dorothy.View.Samples.{sample_list}
use dorothy.Repo.Samples.{local, sample_http, world as served}
use dorothy.Setup.Cloning.{CloneRun, clone_sound}
use dorothy.Setup.Samples.{sample_system, sample_kubo}
use dorothy.Setup.{System}
use dorothy.Sorter.{IsSorter}
use dorothy.Command.Programs.{Flags, open_program, with_program}
use dorothy.Command.Commit.{
  commit_command, check_parents, commit_checked, commit_program, edited_text, editor_of,
  message_for, read_from_editor,
}
use dorothy.Command.{Terminal}
use dorothy.Command.Parentage.{is_yes, is_no, confirm, check_parentage, check_unknown, picks}
use dorothy.Command.Prompts.{answer, settles, confirm_ends_iff}
use dorothy.Command.Parents.{Checked, check_parentage_sound}
use dorothy.Command.Committing.{CommitRun, Declined, commit_command_sound}
use dorothy.Base.{decide}
use dorothy.Version.{equal, same_elements, same_hash, same_parents}
use dorothy.Manifest.{conflicts, conflicts_of, diff, found, merge, toposort}
use dorothy.Ipfs.{
  add, add_many, commit_all, commit_version, connect_to_peer_by_id, create_empty_manifest, entries,
  file_text, get_manifest, merge_and_commit, save_manifest,
}
use dorothy.Sdk.{
  after_credentials, get_asset, keep_cookies, login_guard, new_client_with_cookies, post_asset,
  read_payload, send_request, write_cookies,
}
use dorothy.Config.{new_remote, remote_of, user_string}
use dorothy.Repo.{
  add_paths, assign_manifest, commit, commit_paths, configured, load_manifest, loaded,
  manifest_hash, manifest_path, merge_into, new_version, recieve, resolve, write_manifest_file,
}
use dorothy.Repo.Exchange.{
  exchange, fetch, fetch_request, payload_of, push, push_request, sdk_client, send_with,
}
use dorothy.Config.Tree.{del_path, get_path, insert, lookup, remove, set_path}
use dorothy.Setup.Connection.{
  build_cfg, connect_global, connect_ipfs, connect_local, create_node, global_api,
  initialize_and_connect, initialize_ipfs, initialize_local, instantiate, new_ipfs, peer_identity,
  reload_ipfs, setup_plugins,
}
use dorothy.Setup.Configs.{
  config_path, del_config, edit_config, global_config_path, load_config_file, load_config_files,
  load_default_config, local_config_path, promote, read_config, reload_config, set_config, store,
  write_or_make, write_config,
}
use dorothy.Setup.Start.{
  first_manifest, initialize, initialize_new, is_initialized, load_dorothy, make_repository,
  save_first, setup, use_global, write_first_config, clone, clone_target, clone_into,
}

program : Unit {0}
unfolding toposort merge diff conflicts conflicts_of found reference Slot-discrete collect any
    select decide same_hash same_parents same_elements equal save_manifest get_manifest file_text
    merge_and_commit commit_all commit_version connect_to_peer_by_id add add_many entries
    login_guard keep_cookies write_cookies get_asset post_asset send_request read_payload
    new_client_with_cookies after_credentials loaded configured user_string add_paths new_version
    commit commit_paths merge_into write_manifest_file manifest_path manifest_hash resolve recieve
    fetch push push_request exchange send_with payload_of sdk_client fetch_request
    create_empty_manifest new_remote remote_of set_path get_path del_path lookup insert remove
    load_manifest assign_manifest new_ipfs build_cfg setup_plugins initialize_local initialize_ipfs
    create_node instantiate connect_local global_api peer_identity connect_global connect_ipfs
    initialize_and_connect reload_ipfs read_config local_config_path load_config_file
    load_config_files reload_config config_path write_or_make write_config store promote edit_config
    set_config del_config is_initialized setup make_repository use_global write_first_config
    first_manifest save_first initialize_new initialize open_program with_program edited_text
    read_from_editor editor_of message_for check_parents commit_checked commit_program
    commit_command check_parentage check_unknown confirm is_yes is_no picks is_empty unknown_commits
    load_dorothy load_default_config global_config_path clone clone_target clone_into
program = tt

order : IsSorter sample_sort
order = reference-IsSorter Slot-discrete

-- A terminal at which the user answers every question with "y" and chooses nothing.
abbrev sample_terminal : Terminal Memory
sample_terminal = record {
  scan = λ w. ("y", w);
  matches = λ pattern text. (pattern == "(?i)^y(es)?$") && (text == "y");
  sort_strings = λ xs. xs;
  split = λ text by. text ∷ [];
  trim_right = λ text cutset. text;
  list_widget = sample_list;
  messages = λ w. (ok (key "enter" ∷ []), w);
  editor = λ w. some "vi";
  create = λ path w. (ok tt, w);
  edit = λ editor path w. (ok tt, w);
  contents = λ path w. "a message";
  remove_all = λ path w. w;
}

confirm_ends_iff_example :
    ((r : Bool × Memory) × (confirm sample_terminal 1 start ≡ some r))
    ↔ ((k : ℕ) × (k < 1) × (settles sample_terminal (answer sample_terminal k start) ≡ true))
confirm_ends_iff_example = confirm_ends_iff sample_terminal 1 start

checking :
    check_parentage sample_terminal 1 (some local) ("hash9" ∷ []) false start
    ≡ some (done (some ("hash9" ∷ [])), start)
unfolding check_parentage check_unknown confirm is_yes is_no picks is_empty unknown_commits select
    any
checking = refl

check_parentage_sound_example :
    Checked sample_terminal 1 local ("hash9" ∷ []) ("hash9" ∷ []) false start
check_parentage_sound_example =
    check_parentage_sound sample_terminal (λ xs. Perm.refl xs) 1 local ("hash9" ∷ []) ("hash9" ∷ [])
      false start start checking

abbrev system : System Memory
system = record sample_system {
  decode_config = λ f c w.
      (record c { user = some (record { name = "Doug"; email = "doug@example.com" }) }, none);
}

abbrev world : Memory
world = record {
  blocks = ("/ipfs/Qx", first ∷ second ∷ []) ∷ [];
  pins = [];
  files =
      ("/home/survey/.dorothy", "directory")
      ∷ ("/home/survey/.dorothy/config.toml", "configuration")
      ∷ ("/home/survey/.dorothy/manifest", "Qx")
      ∷ [];
}

abbrev flags : Flags
flags = record { config = ""; noinherit = false }

abbrev leftover : Option (Outcome (Unit {0}) × Memory) → Memory
leftover none = start
leftover (some (o, w)) = w

abbrev committed : Memory
committed = leftover (
    commit_command memory system sample_kubo sample_terminal 1 sample_sort flags ("data.csv" ∷ [])
      "" true ("hash2" ∷ []) false world)

committing :
    commit_command memory system sample_kubo sample_terminal 1 sample_sort flags
      ("data.csv" ∷ [])
      ""
      true
      ("hash2" ∷ [])
      false
      world
    ≡ some (done tt, committed)
unfolding program
committing = refl

commit_command_sound_example :
    CommitRun memory system sample_kubo sample_terminal memory-HostLaws sample_sort order 1 flags
      ("hash2" ∷ [])
      false
      ""
      world
      committed
    ⊎ Declined memory system sample_kubo sample_terminal memory-HostLaws sample_sort order 1 flags
        ("hash2" ∷ [])
        false
        world
        committed
commit_command_sound_example =
    commit_command_sound memory system sample_kubo sample_terminal memory-HostLaws sample_sort order
      (λ xs. Perm.refl xs) 1 flags "data.csv" [] "" true ("hash2" ∷ []) false world committed
      committing

-- Every configuration file names the remote.
abbrev with_remote : System Memory
with_remote = record sample_system {
  decode_config = λ f c w. (record c { remote_string = "http://localhost/lab/survey" }, none);
}

abbrev cloned_world : Memory
cloned_world =
    (clone memory with_remote sample_kubo sample_sort sample_http "http://localhost/lab/survey" ""
      false served).1

cloning :
    clone memory with_remote sample_kubo sample_sort sample_http "http://localhost/lab/survey" ""
      false served
    ≡ (done tt, cloned_world)
unfolding program
cloning = refl

clone_sound_example :
    CloneRun memory with_remote sample_kubo sample_sort sample_http memory-HostLaws order
      "http://localhost/lab/survey" "" served cloned_world
clone_sound_example =
    clone_sound memory with_remote sample_kubo sample_sort sample_http memory-HostLaws order
      "http://localhost/lab/survey" "" false served cloned_world cloning
