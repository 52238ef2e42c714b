-- ===== src/Server/Startup/Tests.antt =====
-- A server that starts on the host in memory.
use dorothy.Base.{◌≡◌, refl, Option, some, true, []}
use dorothy.Outcome.{done, ok}
use dorothy.Host.Memory.{Memory, memory}
use dorothy.Repo.{Repo}
use dorothy.Repo.Samples.{repo}
use dorothy.Setup.Samples.{sample_kubo, sample_system}
use dorothy.Setup.Connection.{
  new_ipfs, connect_ipfs, connect_global, global_api, peer_identity, reload_ipfs,
}
use dorothy.Server.Session.{Store, new_database_session, initialize_session}
use dorothy.Server.Tokens.{Auth, Jwt, new_auth}
use dorothy.Server.Startup.{new_server_from_dorothy, use_global_node}
use dorothy.Server.Startup.Ready.{Started, new_server_from_dorothy_sound}

abbrev store : Store Memory
store = record {
  open_database = λ path w. (ok tt, w);
  auto_migrate = λ w. w;
  save_roles = λ rows w. (ok tt, w);
  save_privileges = λ rows w. (ok tt, w);
}

abbrev jwt : Jwt (Unit {0}) Memory
jwt = record {
  Token = Unit {0};
  getenv = λ name w. "secret";
  random_bytes = λ n w. (ok [], w);
  base64 = λ key. "";
  unix_now = λ w. 0;
  encode = λ auth m w. ok "token";
  cookie = λ q. some "token";
  convert_request = λ q. ok tt;
  verify_request = λ auth q w. (some tt, Option.none);
  as_map = λ t. ok [];
  validate = λ auth t w. true;
}

abbrev configured : Repo Memory
configured = record repo {
  dorothy = record (repo.dorothy) {
    config = record (repo.dorothy.config) { database = some (record { path = "dorothy.db" }) };
  };
}

abbrev key : Auth
key = record { secret = "secret" }

abbrev serving : Repo Memory
serving = (new_server_from_dorothy memory sample_system sample_kubo store jwt true configured).1

starting :
    new_server_from_dorothy memory sample_system sample_kubo store jwt true configured
    ≡ (done key, serving)
unfolding new_server_from_dorothy use_global_node reload_ipfs new_ipfs connect_ipfs connect_global
    global_api peer_identity new_auth new_database_session initialize_session
starting = refl

new_server_from_dorothy_sound_example :
    Started memory sample_system sample_kubo store jwt true key configured serving
new_server_from_dorothy_sound_example =
    new_server_from_dorothy_sound memory sample_system sample_kubo store jwt true key configured
      serving starting
