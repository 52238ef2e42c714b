-- ===== src/Command/Runs.antt =====
-- Setting a property without a loaded file, with the command of cmd/config-set.go.
use dorothy.Base.{String, ◌≡◌, ◌≢◌, refl, sym, ap, ◌∙◌, Bool, true, false, not, ◌&&◌, List, [], ◌∷◌}
use dorothy.Outcome.{Outcome, done, conflicted, failed, not_repository}
use dorothy.Effects.{Action, pure, guard, ◌>>=◌, >>=-eq-done, guard-eq-done}
use dorothy.Host.{Host}
use dorothy.Config.Tree.{scalar, set_path}
use dorothy.Repo.{Repo}
use dorothy.Setup.{System, Kubo}
use dorothy.Setup.Configs.{reset_config, set_config, edit_config, promote, last_loaded}
use dorothy.Setup.Reloading.{reload_config_doubles}
use dorothy.Setup.Editing.{edit_config-Edited}
use dorothy.Setup.Start.{is_initialized, load_dorothy, program_at}
use dorothy.Command.Programs.{Flags, open_program, on_program, with_program, config_set_command}
use dorothy.Command.{Terminal}

module _ (h : Host) (system : System h.World) (kubo : Kubo h.World) (t : Terminal h.World) where
  open h use {World}
  open t use {split}

  on_program-eq-done :
      {A : Type 0} (o : Outcome (Repo World)) (m : Action (Repo World) A) (w w' : World) {a : A}
      → on_program h system kubo o m w ≡ (done a, w')
      → (r : Repo World) × (r' : Repo World) × (o ≡ done r) × (m r ≡ (done a, r'))
  on_program-eq-done {A} (done r) m w w' {a} e =
      (r, (m r).1, refl, ap (λ (y : Outcome A × World). (y.0, (m r).1)) e)
  on_program-eq-done (conflicted cs x) m w w' e = cc
  on_program-eq-done (failed x) m w w' e = cc

  -- A program that does not inherit and gets no file has no loaded file.
  open_program-loaded :
      (r r' : Repo World)
      → open_program h system kubo (record { config = ""; noinherit = true }) r ≡ (done tt, r')
      → r'.dorothy.loaded_configs ≡ []
  unfolding open_program reset_config
  open_program-loaded r r' e =
      let (_, v, _, e1) =
        >>=-eq-done (load_dorothy h system kubo) (λ _. reset_config h system kubo >>= λ _. pure tt)
          r e in
      let (_, u, e2, e3) = >>=-eq-done (reset_config h system kubo) (λ _. pure tt) v e1 in
      sym (ap (λ (y : Outcome (Unit {0}) × Repo World). y.1.dorothy.loaded_configs) e3)
      ∙ reload_config_doubles h system kubo
          (record v { dorothy = record (v.dorothy) { loaded_configs = [] } }) u e2

  nothing_loaded : (fs : List String) {f : String} → fs ≡ [] → ¬ (last_loaded fs ≡ done f)
  nothing_loaded [] e k = cc
  nothing_loaded (f ∷ fs) e k = cc

  -- A property of a repository cannot be set with `--noinherit` and without `--config`: no file is
  -- loaded then, and the command panics or fails before it has set anything.
  pub config_set_noinherit_fails :
      (prop value path : String) (w w' : World)
      → config_set_command h system kubo t
          (record { config = ""; noinherit = true })
          prop
          value
          false
          w
        ≢ (done path, w')
  unfolding config_set_command with_program set_config
  config_set_noinherit_fails prop value path w w' e =
      let flags : Flags = record { config = ""; noinherit = true } in
      let change = set_path (split prop ".") (scalar (promote h system kubo value)) in
      let there : Action (Repo World) Bool =
        λ r. (done (is_initialized h system r.dorothy r.world), r) in
      let set : Action (Repo World) String = edit_config h system kubo change false in
      let (r, r', _, ran) =
        on_program-eq-done (program_at h system kubo (system.current_dir w) w)
          (open_program h system kubo flags >>= λ _.
            there >>= λ b. guard (not (true && not b)) not_repository >>= λ _. set)
          w w' e in
      let (_, v, opened, e1) =
        >>=-eq-done (open_program h system kubo flags)
          (λ _. there >>= λ b. guard (not (true && not b)) not_repository >>= λ _. set) r ran in
      let (_, e2) =
        guard-eq-done (not (true && not (is_initialized h system v.dorothy v.world))) not_repository
          (λ _. set) v e1 in
      let edited = edit_config-Edited h system kubo change path v r' e2 in
      nothing_loaded v.dorothy.loaded_configs (open_program-loaded r v opened) edited.last
