-- ===== src/Repo/Samples.antt =====
-- A repository in memory, with a remote that answers the hash of a manifest.
use dorothy.Base.{false, none, some, true, [], ◌∷◌}
use dorothy.Outcome.{ok}
use dorothy.Manifest.{Manifest}
use dorothy.Manifest.Samples.{first, second}
use dorothy.Host.Memory.{Memory}
use dorothy.Sdk.{Http}
use dorothy.Config.{pos, no_config}
use dorothy.Repo.{Repo}

abbrev pub sample_http : Http Memory
sample_http = record {
  Request = Unit {0};
  encode_payload = λ p. ok p.hash;
  encode_login = λ c. ok c.email;
  join_path = λ scheme address path. "http://localhost";
  new_request = λ method url body. ok tt;
  send = λ req w. (some (record { status_code = 200; body = "Qx" }), none, w);
  decode_payload = λ body. (record { hash = body; peer_identity = "peer" }, none);
  decode_response = λ body. (record { message = body; error = "" }, none);
  status_text = λ code. "status";
  new_jar = λ scheme address w. (ok tt, w);
  read_cookie_file = λ filename w. (none, w);
  default_credentials = λ w. (ok (record { email = "m@example.com"; password = "secret" }), w);
  cookies = λ w. [];
  write_cookie_file = λ filename cookies w. w;
}

abbrev pub world : Memory
world = record { blocks = ("/ipfs/Qx", first ∷ second ∷ []) ∷ []; pins = []; files = [] }

abbrev pub local : Manifest
local = record { versions = first ∷ []; hash = "Ql" }

abbrev pub repo : Repo Memory
repo = record {
  dorothy = record {
    directory = ".dorothy";
    loaded_configs = ".dorothy/config.toml" ∷ [];
    config = record no_config {
      user = some (record { name = "Doug"; email = "doug@example.com" });
      remote_string = "http://localhost/lab/survey";
      remote = some (record {
        scheme = "http";
        address = "localhost";
        organization = "lab";
        dataset = "survey";
      });
    };
    ipfs = record {
      config = record { global = false; address = ""; port = pos 0 };
      connected = true;
      identity = "peer";
    };
    manifest = some local;
  };
  client = none;
  world = world;
}
