-- ===== src/Server/Session.antt =====
-- server/db.go: opening the database of the server, its roles and its privileges.
use Prim.Native.String.{◌++◌}
use dorothy.Base.{String, Option, none, some, List, [], ◌∷◌}
use dorothy.Outcome.{Reply, done, external}
use dorothy.Effects.{Action, fail, call, ◌>>◌}
use dorothy.Config.{DatabaseConfig}

-- A row of `Role` and of `Privilege`
pub record Coded : Type 0 where
  pub key : String
  pub description : String

-- gorm and its sqlite driver over the state `W`. `auto_migrate` answers an error that the code does not
-- look at.
pub record Store (W : Type 0) : Type 0 where
  pub open_database : String → W → Reply (Unit {0}) × W
  pub auto_migrate : W → W
  pub save_roles : List Coded → W → Reply (Unit {0}) × W
  pub save_privileges : List Coded → W → Reply (Unit {0}) × W

unfoldable pub database_path : DatabaseConfig → String
database_path c = c.path ++ "?_foreign_keys=on&cache=shared"

abbrev pub roles : List Coded
roles =
    record { key = "admin"; description = "The all-powerful entity" }
    ∷ record { key = "user"; description = "A standard user" }
    ∷ []

abbrev pub privileges : List Coded
privileges =
    record { key = "read"; description = "Read access" }
    ∷ record { key = "write"; description = "Write access" }
    ∷ record { key = "admin"; description = "Administrative access" }
    ∷ []

module _ {W : Type 0} (store : Store W) where
  open store use {open_database, auto_migrate, save_roles, save_privileges}

  unfoldable pub new_database_session : Option DatabaseConfig → Action W (Unit {0})
  unfolding database_path
  new_database_session none = fail (external "no server database configuration provided")
  new_database_session (some c) = call (open_database (database_path c))

  unfoldable pub migrate : Action W (Unit {0})
  migrate w = (done tt, auto_migrate w)

  -- `DatabaseSession.Initialize`
  unfoldable pub initialize_session : Action W (Unit {0})
  unfolding migrate
  initialize_session = do migrate; call (save_roles roles); call (save_privileges privileges)
