-- ===== src/Setup.antt =====
-- How a repository is set up: core/dorothy.go and core/ipfs.go around a node and its configuration.
-- This module has what they call of the operating system, of kubo and of the TOML library.
pub mod Connection
pub mod Configs
pub mod Start
pub mod Samples
pub mod Nodes
pub mod Reloading
pub mod Editing
pub mod Ready
pub mod Initial
pub mod Cloning
mod Tests
use dorothy.Base.{String, Option, Bool}
use dorothy.Outcome.{Reply, Error, external}
use dorothy.Config.{Config, Urls}
use dorothy.Config.Tree.{Table}

-- Errors of files that the code tells apart: `os.ErrNotExist`, `os.IsExist`, and the others.
pub data FileError : Type 0 where
  missing present : FileError
  broken : String → FileError

abbrev pub file_error : FileError → Error
file_error missing = external "file does not exist"
file_error present = external "file exists"
file_error (broken e) = external e

-- The options of `kubo.BuildCfg` that the program sets.
pub record BuildCfg : Type 0 where
  pub online : Bool

-- kubo over the state `W`. `load_plugins` answers nothing: `setupPlugins` loses its errors, since the
-- `err` inside its closure is another than the one that it returns.
pub record Kubo (W : Type 0) : Type 1 where
  pub NodeConfig : Type 0
  pub FsRepo : Type 0
  pub KuboNode : Type 0
  pub Api : Type 0
  pub load_plugins : W → W
  pub generate_config : W → Reply NodeConfig × W
  pub fsrepo_init : String → NodeConfig → W → Reply (Unit {0}) × W
  pub fsrepo_open : String → W → Reply FsRepo × W
  pub new_node : BuildCfg → FsRepo → W → Reply KuboNode × W
  pub core_api : KuboNode → W → Reply (Unit {0}) × W
  pub identity : KuboNode → String
  -- `rpc.NewLocalApi`, `rpc.NewURLApiWithClient`, and the request "id"
  pub local_api : W → Reply (Option Api) × W
  pub url_api : String → W → Reply (Option Api) × W
  pub request_id : Api → W → Reply String × W

-- The operating system and the TOML library.
pub record System (W : Type 0) : Type 1 where
  pub urls : Urls
  pub config_home : String
  pub current_dir : W → Reply String
  pub change_dir : String → W → Reply (Unit {0}) × W
  -- `os.Stat(path).IsDir()`, `none` for an error
  pub stat : String → W → Option Bool
  pub make_dirs : String → W → Option FileError × W
  pub create_file : String → W → Option FileError × W
  pub parent_dir : String → String
  -- `toml.DecodeFile(filename, config)`: what it has set stays set where it fails
  pub decode_config : String → Config → W → Config × Option FileError
  -- `os.OpenFile`, which makes the file or empties it, and `toml.Encoder.Encode` to the open file
  pub truncate_file : String → W → Option FileError × W
  pub encode_config : String → Config → W → Option FileError × W
  -- the values of TOML that are no tables, a map that a file holds, and a map as a configuration and back
  pub Scalar : Type 0
  pub decode_map : String → W → Reply (Option (Table Scalar))
  pub to_config : Table Scalar → Reply Config
  pub to_map : Config → Reply (Table Scalar)
  -- `strconv.ParseBool`, `ParseInt`, `ParseFloat`, and a string as it stands
  pub parse_bool : String → Option Scalar
  pub parse_int : String → Option Scalar
  pub parse_float : String → Option Scalar
  pub plain : String → Scalar
