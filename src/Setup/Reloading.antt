-- ===== src/Setup/Reloading.antt =====
-- What loading and reloading the configuration, core/dorothy.go, does to the list of loaded files.
use mathlib.Core.List.{append-nil, append_assoc}
use dorothy.Base.{String, ◌≡◌, sym, ap, ◌∙◌, List, [], ◌∷◌, ◌++◌}
use dorothy.Outcome.{Outcome, done}
use dorothy.Effects.{◌>>=◌, ◌>>◌, >>=-eq-done, >>=-lift-eq-done}
use dorothy.Host.{Host}
use dorothy.Config.{no_config}
use dorothy.Repo.{Dorothy, Repo, gets}
use dorothy.Setup.{System, Kubo}
use dorothy.Setup.Nodes.{reload_ipfs-apart}
use dorothy.Setup.Connection.{reload_ipfs}
use dorothy.Setup.Configs.{
  read_config, accept_read, set_loaded, load_config_file, load_config_files, reload_config,
}

module _ (h : Host) (system : System h.World) (kubo : Kubo h.World) where
  open h use {World}

  -- A file that was loaded stands at the end of the list.
  load_config_file_loaded :
      (f : String) (r r' : Repo World)
      → load_config_file h system kubo f r ≡ (done tt, r')
      → r'.dorothy.loaded_configs ≡ r.dorothy.loaded_configs ++ (f ∷ [])
  unfolding load_config_file
  load_config_file_loaded f r r' e =
      let (c, failure) = read_config h system f r.dorothy.config r.world in
      let fs = r.dorothy.loaded_configs ++ (f ∷ []) in
      let (_, _, e1) =
        >>=-lift-eq-done (accept_read h system failure)
          (λ _. gets h (λ d. d.loaded_configs) >>= λ fs.
            set_loaded h system (fs ++ (f ∷ [])) >> reload_ipfs h kubo)
          (record r { dorothy = record (r.dorothy) { config = c } }) e in
      ap (λ (d : Dorothy). d.loaded_configs)
        (reload_ipfs-apart h kubo
          (record r { dorothy = record (r.dorothy) { config = c; loaded_configs = fs } }) r' e1)

  pub load_config_files_loaded :
      (fs : List String) (r r' : Repo World)
      → load_config_files h system kubo fs r ≡ (done tt, r')
      → r'.dorothy.loaded_configs ≡ r.dorothy.loaded_configs ++ fs
  unfolding load_config_files
  load_config_files_loaded [] r r' e =
      sym (ap (λ (y : Outcome (Unit {0}) × Repo World). y.1.dorothy.loaded_configs) e)
      ∙ sym (append-nil r.dorothy.loaded_configs)
  load_config_files_loaded (f ∷ fs) r r' e =
      let (_, v, e1, e2) =
        >>=-eq-done (load_config_file h system kubo f) (λ _. load_config_files h system kubo fs) r
          e in
      load_config_files_loaded fs v r' e2
      ∙ ap (λ gs. gs ++ fs) (load_config_file_loaded f r v e1)
      ∙ append_assoc r.dorothy.loaded_configs (f ∷ []) fs

  -- A reload of the configuration that succeeds doubles the list of loaded files: every file is
  -- appended to the list that the reload began with.
  pub reload_config_doubles :
      (r r' : Repo World)
      → reload_config h system kubo r ≡ (done tt, r')
      → r'.dorothy.loaded_configs ≡ r.dorothy.loaded_configs ++ r.dorothy.loaded_configs
  unfolding reload_config
  reload_config_doubles r r' e =
      let fs = r.dorothy.loaded_configs in
      let start : Repo World = record r { dorothy = record (r.dorothy) { config = no_config } } in
      let (_, v, e1, e2) =
        >>=-eq-done (load_config_files h system kubo fs) (λ _. reload_ipfs h kubo) start e in
      ap (λ (d : Dorothy). d.loaded_configs) (reload_ipfs-apart h kubo v r' e2)
      ∙ load_config_files_loaded fs start v e1
