-- ===== src/Config.antt =====
-- core/config.go: the configuration, and the remote that its string names.
pub mod Tree
pub mod Paths
pub mod Addresses
pub mod Remotes
mod Tests
use Prim.Native.String.{◌++◌}
use text.Mathlib.Text.{starts_with}
use dorothy.Base.{ℕ, String, Option, none, some, Bool, false, eqb, not, ◌&&◌, ◌==◌, if◌then◌else◌}
use dorothy.Outcome.{Reply, ok, err, Outcome, done, failed, external, not_http}

pub record UserConfig : Type 0 where
  pub name : String
  pub email : String

-- `UserConfig.String`
unfoldable pub user_string : UserConfig → String
user_string u =
    let s = if not (u.name == "") then u.name ++ " " else u.name in
    if not (u.email == "") then s ++ ("<" ++ (u.email ++ ">")) else s

-- A Go `int`: `pos n` is n, and `negsuc n` is -(n + 1).
pub data ℤ : Type 0 where
  pos negsuc : ℕ → ℤ

abbrev pub is_zero : ℤ → Bool
is_zero (pos n) = eqb n 0
is_zero (negsuc n) = false

-- A port that is not 0 is taken as it stands.
pub record IpfsConfig : Type 0 where
  pub global : Bool
  pub address : String
  pub port : ℤ

pub record DatabaseConfig : Type 0 where
  pub path : String

pub record Remote : Type 0 where
  pub scheme : String
  pub address : String
  pub organization : String
  pub dataset : String

pub record Config : Type 0 where
  pub user : Option UserConfig
  pub editor : String
  pub remote_string : String
  pub ipfs : Option IpfsConfig
  pub database : Option DatabaseConfig
  pub remote : Option Remote

-- `Config{}`
abbrev pub no_config : Config
no_config = record {
  user = none;
  editor = "";
  remote_string = "";
  ipfs = none;
  database = none;
  remote = none;
}

-- net/url, path and path/filepath: `parse` answers scheme, host and path.
pub record Urls : Type 0 where
  pub parse : String → Reply (String × String × String)
  pub split : String → String × String
  pub clean : String → String

module _ (urls : Urls) where
  open urls use {parse, split, clean}

  -- The remote of a parsed address: the last element of its path, and the one before.
  unfoldable pub remote_of : String × String × String → Remote
  remote_of (scheme, address, path) =
      let (before, dataset) = split path in
      record {
        scheme = scheme;
        address = address;
        organization = (split (clean before)).1;
        dataset = dataset;
      }

  abbrev pub parsed_remote : Reply (String × String × String) → Outcome (Option Remote)
  parsed_remote (ok u) = done (some (remote_of u))
  parsed_remote (err e) = failed (external e)

  unfoldable pub new_remote : String → Outcome (Option Remote)
  new_remote remote =
      if remote == ""
      then done none
      else (if not (starts_with remote "https://") && not (starts_with remote "http://")
          then failed not_http
          else parsed_remote (parse remote))
