-- ===== src/Command/Serve/Tests.antt =====
-- A server in memory whose port is taken.
use dorothy.Base.{◌≡◌, ◌↔◌, refl, Option, some, true, false, [], ◌∷◌}
use dorothy.Outcome.{Reply, done, ok, err}
use dorothy.Host.Memory.{Memory, memory}
use dorothy.Config.{new_remote, remote_of}
use dorothy.Setup.{System}
use dorothy.Setup.Samples.{sample_kubo, sample_system}
use dorothy.Repo.Samples.{world}
use dorothy.Setup.Connection.{
  build_cfg, connect_ipfs, connect_local, create_node, instantiate, new_ipfs, reload_ipfs,
  setup_plugins,
}
use dorothy.Setup.Configs.{
  global_config_path, load_config_file, load_config_files, load_default_config, local_config_path,
  read_config,
}
use dorothy.Setup.Start.{load_dorothy}
use dorothy.Server.Session.{Store, new_database_session, initialize_session}
use dorothy.Server.Tokens.{Auth, Jwt, new_auth}
use dorothy.Server.Startup.{new_server, new_server_from_dorothy, open_sessions}
use dorothy.Command.Programs.{Flags}
use dorothy.Command.Serve.{
  Listener, waiting, ended, Serving, interrupted, received, returned, returns, interrupts, receives,
  begun, Run, begin, stepped, interrupted_in, returned_in, make_server, started_server,
  ServeCommand-waits_iff,
}

abbrev store : Store Memory
store = record {
  open_database = λ path w. (ok tt, w);
  auto_migrate = λ w. w;
  save_roles = λ rows w. (ok tt, w);
  save_privileges = λ rows w. (ok tt, w);
}

abbrev jwt : Jwt (Unit {0}) Memory
jwt = record {
  Token = Unit {0};
  getenv = λ name w. "secret";
  random_bytes = λ n w. (ok [], w);
  base64 = λ key. "";
  unix_now = λ w. 0;
  encode = λ auth m w. ok "token";
  cookie = λ q. some "token";
  convert_request = λ q. ok tt;
  verify_request = λ auth q w. (some tt, Option.none);
  as_map = λ t. ok [];
  validate = λ auth t w. true;
}

-- `Listen` changes nothing and returns the error of the port.
abbrev listener : Listener Memory
listener = record {
  Handles = λ port w w'. w ≡ w';
  Returns = λ port r w w'. Path (Reply (Unit {0})) (err "address in use") r × (w ≡ w');
  shutdown = λ w. w;
}

abbrev with_database : System Memory
with_database = record sample_system {
  decode_config =
      λ f c w. (record c { database = some (record { path = "dorothy.db" }) }, Option.none);
}

abbrev no_flags : Flags
no_flags = record { config = ""; noinherit = false }

abbrev key : Auth
key = record { secret = "secret" }

abbrev later : Memory
later = (started_server memory with_database sample_kubo store jwt listener no_flags false world).1

runs : Unit {0}
unfolding started_server make_server new_server new_server_from_dorothy open_sessions load_dorothy
    load_default_config load_config_files load_config_file read_config global_config_path
    local_config_path new_remote remote_of new_ipfs reload_ipfs connect_ipfs connect_local
    setup_plugins instantiate create_node build_cfg new_auth new_database_session initialize_session
runs = tt

starting :
    started_server memory with_database sample_kubo store jwt listener no_flags false world
    ≡ (done key, later)
unfolding runs
starting = refl

-- The error waits in the channel.
abbrev unheard : Serving Memory
unheard = record (begun listener 4248 later) {
  listening = false;
  channel = some (err "address in use");
}

-- After an interrupt it is what the command ends with.
abbrev over : Serving Memory
over = record unheard { phase = ended (err "address in use"); channel = Option.none }

failing : Run listener 4248 later (returned (err "address in use") ∷ []) unheard
failing =
    stepped (returned (err "address in use")) begin
      (returns (err "address in use") later refl refl refl (refl, refl) refl)

ending :
    Run listener 4248 later (received ∷ interrupted ∷ returned (err "address in use") ∷ []) over
ending =
    stepped received (stepped interrupted failing (interrupts refl refl refl))
      (receives (err "address in use") refl refl refl refl)

ServeCommand-waits_iff_example :
    ((unheard.phase ≡ waiting)
      ↔ (interrupted_in listener 4248 (returned (err "address in use") ∷ []) ≡ false))
    × ((r : Reply (Unit {0}))
        → unheard.phase ≡ ended r
        → returned_in listener 4248 (returned (err "address in use") ∷ []) ≡ some r)
ServeCommand-waits_iff_example =
    ServeCommand-waits_iff memory with_database sample_kubo store jwt listener no_flags false 4248
      world (returned (err "address in use") ∷ []) unheard
      (record { auth = key; start = later; made = starting; run = failing })
