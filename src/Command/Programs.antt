-- ===== src/Command/Programs.antt =====
-- cmd: the commands, on the program that each of them starts. What they print is left out.
use dorothy.Base.{
  String, Bool, false, not, ◌&&◌, List, [], ◌∷◌, reverse, Option, none, some, ◌==◌, if◌then◌else◌,
}
use dorothy.Version.{Version}
use dorothy.Outcome.{Outcome, done, conflicted, failed, wrapped, not_repository}
use dorothy.Sorter.{Sorter}
use dorothy.Manifest.{Slot}
use dorothy.Effects.{Action, pure, lift, guard, ◌>>=◌, ◌>>◌}
use dorothy.Host.{Host}
use dorothy.Sdk.{Http}
use dorothy.Config.Tree.{Value}
use dorothy.Repo.{Repo, gets, checkout}
use dorothy.Repo.Exchange.{fetch, push}
use dorothy.Setup.{System, Kubo}
use dorothy.Setup.Connection.{offline}
use dorothy.Setup.Configs.{reset_config, load_config_file, set_config, get_config, del_config}
use dorothy.Setup.Start.{is_initialized, setup, initialize, program_at, load_dorothy, clone}
use dorothy.Command.{Terminal}

-- `--config` and `--noinherit`, which all commands have
pub record Flags : Type 0 where
  pub config : String
  pub noinherit : Bool

module _ (h : Host) (system : System h.World) (kubo : Kubo h.World) where
  open h use {World}
  open system use {current_dir, Scalar}

  -- How every command begins: `NewDorothy`, `ResetConfig` and `LoadConfigFile`.
  unfoldable pub open_program : Flags → Action (Repo World) (Unit {0})
  unfolding load_dorothy reset_config load_config_file
  open_program flags = do
    load_dorothy h system kubo
    if flags.noinherit then reset_config h system kubo else pure tt
    if not (flags.config == "") then load_config_file h system kubo flags.config else pure tt

  -- A command runs on a new program; what it leaves is the world.
  abbrev pub on_program :
      {A : Type 0} → Outcome (Repo World) → Action (Repo World) A → Action World A
  on_program (done r) m w = let (o, r') = m r in (o, r'.world)
  on_program (conflicted cs e) m w = (conflicted cs e, w)
  on_program (failed e) m w = (failed e, w)

  unfoldable pub with_program : {A : Type 0} → Flags → Action (Repo World) A → Action World A
  unfolding open_program
  with_program flags m w =
      on_program (program_at h system kubo (current_dir w) w) (open_program flags >>= λ _. m) w

  unfoldable pub checkout_command : Flags → String → String → Action World (Unit {0})
  unfolding with_program setup checkout
  checkout_command flags hash dest =
      with_program flags (setup h system kubo [] >>= λ _. checkout h hash dest)

  -- Conflicts and errors of a fetch or a push are both reported as errors.
  abbrev pub reported : {A : Type 0} → String → Outcome A × Repo World → Outcome A × Repo World
  reported text (done a, r) = (done a, r)
  reported text (conflicted cs e, r) = (failed (wrapped text e), r)
  reported text (failed e, r) = (failed (wrapped text e), r)

  module _ (sort : Sorter Slot) (http : Http World) where
    unfoldable pub fetch_command : Flags → Action World (Unit {0})
    unfolding with_program setup fetch
    fetch_command flags =
        with_program flags
          (setup h system kubo [] >>= λ _ r. reported "fetch failed" (fetch h sort http r))

    unfoldable pub push_command : Flags → Action World (Unit {0})
    unfolding with_program setup push
    push_command flags =
        with_program flags
          (setup h system kubo [] >>= λ _ r. reported "push failed" (push h sort http r))

    -- `clone remote [dest]`
    unfoldable pub clone_command : String → Option String → Bool → Action World (Unit {0})
    unfolding clone
    clone_command remote none global = clone h system kubo sort http remote "" global
    clone_command remote (some dest) global = clone h system kubo sort http remote dest global

  -- Whether the repository was there before: it is initialized or re-initialized.
  unfoldable pub init_command : Flags → Bool → Action World Bool
  unfolding with_program is_initialized initialize
  init_command flags global = with_program flags do
    there ← λ r. (done (is_initialized h system r.dorothy r.world), r)
    initialize h system kubo global []
    pure there

  -- The versions that `log` prints, from the newest, and whether it prints their parents: they have
  -- some, and the first of them is not the version before.
  unfoldable pub shows_parents : Version → List Version → Bool
  shows_parents v [] = false
  shows_parents v (before ∷ rest) = elim v.parents [ [] ↦ false | p ∷ ps ↦ not (p == before.hash) ]

  unfoldable pub log_of : List Version → List (Version × Bool)
  unfolding shows_parents
  log_of [] = []
  log_of (v ∷ before) = (v, shows_parents v before) ∷ log_of before

  unfoldable pub log_command : Flags → Action World (List (Version × Bool))
  unfolding with_program setup log_of
  log_command flags = with_program flags do
    setup h system kubo (offline ∷ [])
    m ← gets h (λ d. d.manifest)
    pure (elim m [ none ↦ [] | some m ↦ log_of (reverse m.versions) ])

  module _ (t : Terminal World) where
    open t use {split}

    unfoldable pub config_get_command : Flags → String → Action World (Value Scalar)
    unfolding with_program is_initialized get_config
    config_get_command flags prop = with_program flags do
      there ← λ r. (done (is_initialized h system r.dorothy r.world), r)
      guard there not_repository
      d ← gets h (λ d. d)
      lift (get_config h system kubo (split prop ".") d)

    -- A property is set in a repository, in the global file or in a given one.
    unfoldable pub config_set_command : Flags → String → String → Bool → Action World String
    unfolding with_program is_initialized set_config
    config_set_command flags prop value global = with_program flags do
      there ← λ r. (done (is_initialized h system r.dorothy r.world), r)
      guard (not (not global && (flags.config == "") && not there)) not_repository
      set_config h system kubo (split prop ".") value global

    unfoldable pub config_del_command : Flags → String → Bool → Action World String
    unfolding with_program is_initialized del_config
    config_del_command flags prop global = with_program flags do
      there ← λ r. (done (is_initialized h system r.dorothy r.world), r)
      guard there not_repository
      del_config h system kubo (split prop ".") global
