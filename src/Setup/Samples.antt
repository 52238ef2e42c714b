-- ===== src/Setup/Samples.antt =====
-- kubo, an operating system and a TOML library over the host in memory.
use dorothy.Base.{String, Option, none, some, Bool, [], ◌∷◌, ◌==◌}
use dorothy.Outcome.{Reply, ok, err}
use dorothy.Host.Memory.{Memory, memory}
use dorothy.Config.{no_config}
use dorothy.Config.Tree.{table, scalar, end, entry}
use dorothy.Repo.{Repo}
use dorothy.Repo.Samples.{repo, world}
use dorothy.Setup.{System, Kubo}

abbrev pub sample_kubo : Kubo Memory
sample_kubo = record {
  NodeConfig = Unit {0};
  FsRepo = String;
  KuboNode = String;
  Api = String;
  load_plugins = λ w. w;
  generate_config = λ w. (ok tt, w);
  fsrepo_init = λ d c w. (ok tt, w);
  fsrepo_open = λ d w. (ok d, w);
  new_node = λ c d w. (ok d, w);
  core_api = λ n w. (ok tt, w);
  identity = λ n. n;
  local_api = λ w. (ok (some "api"), w);
  url_api = λ c w. (ok (some "api"), w);
  request_id = λ api w. (ok "id", w);
}

-- A file whose text is "directory" is one.
abbrev stat_of : Reply String → Option Bool
stat_of (ok text) = some (text == "directory")
stat_of (err e) = none

abbrev pub sample_system : System Memory
sample_system = record {
  urls = record {
    parse = λ s. ok ("http", "localhost", "/lab/survey");
    split = λ s. ("/lab", "survey");
    clean = λ s. s;
  };
  config_home = "/home/.config";
  current_dir = λ w. ok "/home/survey";
  change_dir = λ d w. (ok tt, w);
  stat = λ p w. stat_of (memory.read_file p w).0;
  make_dirs = λ p w. (none, record w { files = (p, "directory") ∷ w.files });
  create_file = λ p w. (none, w);
  parent_dir = λ p. p;
  decode_config = λ f c w. (c, none);
  truncate_file = λ f w. (none, w);
  encode_config = λ f c w. (none, record w { files = (f, "configuration") ∷ w.files });
  Scalar = String;
  decode_map = λ f w. ok (some (entry "user" (table (entry "name" (scalar "Doug") end)) end));
  to_config = λ t. ok no_config;
  to_map = λ c. ok end;
  parse_bool = λ s. none;
  parse_int = λ s. none;
  parse_float = λ s. none;
  plain = λ s. s;
}

-- A repository that is set up, and a program before any is.
abbrev pub ready : Repo Memory
ready = record repo {
  world = record world {
    files =
        (".dorothy", "directory")
        ∷ (".dorothy/config.toml", "configuration")
        ∷ (".dorothy/manifest", "Qx")
        ∷ [];
  };
}

abbrev pub unmade : Repo Memory
unmade = record repo { dorothy = record (repo.dorothy) { manifest = none } }
