-- ===== src/Server/Startup.antt =====
-- server/server.go: how a server is made from a program and its configuration.
pub mod Ready
mod Tests
use dorothy.Base.{String, Option, none, some, Bool, true, false, [], if◌then◌else◌}
use dorothy.Outcome.{done}
use dorothy.Effects.{Action, pure, call, ◌>>=◌, ◌>>◌}
use dorothy.Host.{Host}
use dorothy.Config.{pos, IpfsConfig}
use dorothy.Repo.{Repo, gets, on_world}
use dorothy.Setup.{System, Kubo}
use dorothy.Setup.Connection.{connect_ipfs, reload_ipfs}
use dorothy.Setup.Configs.{reset_config, load_config_file}
use dorothy.Setup.Start.{load_dorothy}
use dorothy.Server.Session.{Store, new_database_session, initialize_session}
use dorothy.Server.Tokens.{Auth, Jwt, new_auth}

module _ (h : Host) (system : System h.World) (kubo : Kubo h.World) (store : Store h.World)
    {R : Type 0} (jwt : Jwt R h.World) where
  open h use {World}

  -- A call whose error is not looked at.
  abbrev pub ignored : Action (Repo World) (Unit {0}) → Action (Repo World) (Unit {0})
  ignored m r = (done tt, (m r).1)

  abbrev pub made_global : Option IpfsConfig → IpfsConfig
  made_global none = record { global = true; address = ""; port = pos 0 }
  made_global (some c) = record c { global = true }

  abbrev pub set_global : Action (Repo World) (Unit {0})
  set_global r = (
    done tt,
    record r {
      dorothy = record (r.dorothy) {
        config = record (r.dorothy.config) { ipfs = some (made_global r.dorothy.config.ipfs) };
      };
    },
  )

  -- `if global`
  unfoldable pub use_global_node : Bool → Action (Repo World) (Unit {0})
  use_global_node false = pure tt
  use_global_node true = set_global >> ignored (reload_ipfs h kubo)

  -- The secret and the database of a server whose node is connected.
  unfoldable pub open_sessions : Action (Repo World) Auth
  open_sessions = do
    auth ← on_world h (call (new_auth jwt))
    d ← gets h (λ d. d)
    on_world h (new_database_session store d.config.database)
    ignored (on_world h (initialize_session store))
    pure auth

  -- `NewServerFromDorothy`, without the application of fiber that it makes; `Dispatch` has its routes.
  unfoldable pub new_server_from_dorothy : Bool → Action (Repo World) Auth
  unfolding use_global_node open_sessions
  new_server_from_dorothy global = do use_global_node global; connect_ipfs h kubo []; open_sessions

  -- `NewServer` and `NewServerFromConfigFile`, on a program before anything is loaded
  unfoldable pub new_server : Bool → Action (Repo World) Auth
  unfolding new_server_from_dorothy
  new_server global = do load_dorothy h system kubo; new_server_from_dorothy global

  unfoldable pub new_server_from_config_file : String → Bool → Bool → Action (Repo World) Auth
  unfolding new_server_from_dorothy
  new_server_from_config_file filename noinherit global = do
    load_dorothy h system kubo
    if noinherit then reset_config h system kubo else pure tt
    load_config_file h system kubo filename
    new_server_from_dorothy global
