-- ===== src/Setup/Editing.antt =====
-- What `SetConfig` and `DelConfig`, core/dorothy.go, write to a configuration file of a repository.
use dorothy.Base.{String, ◌≡◌, ap, Option, none, some, false, List, ◌∷◌}
use dorothy.Outcome.{ok, Outcome, done}
use dorothy.Effects.{lift, of_reply, reply_ok, pure, ◌>>=◌, >>=-eq-done, >>=-lift-eq-done}
use dorothy.Host.{Host}
use dorothy.Config.{Config}
use dorothy.Config.Tree.{Value, scalar, Table, set_path, get_path, del_path}
use dorothy.Config.Paths.{get_path-set_path, get_path-del_path}
use dorothy.Repo.{Repo, on_world}
use dorothy.Repo.Steps.{on_world-eq-done}
use dorothy.Setup.{System, Kubo, FileError, missing, present, broken}
use dorothy.Setup.Configs.{
  last_loaded, config_path, map_or_empty, write_or_make, written, store, reload_config, edit_config,
  set_config, del_config, promote, write_config,
}

module _ (h : Host) (system : System h.World) (kubo : Kubo h.World) where
  open h use {World}
  open system use {Scalar, decode_map, to_config}

  -- A write to a file of a repository that succeeds is the first that was tried.
  written-eq-done :
      (path : String) (c : Config) (w w' : World)
      → write_or_make h system kubo false path c w ≡ (done tt, w')
      → write_config h system path c w ≡ (none, w')
  unfolding write_or_make
  written-eq-done path c w w' e = go (write_config h system path c w) e
    where
      go :
          (x : Option FileError × World)
          → written h system kubo false path c x ≡ (done tt, w')
          → x ≡ (none, w')
      go (none, v) k = ap (λ (y : Outcome (Unit {0}) × World). (none, y.1)) k
      go (some missing, v) k = cc
      go (some present, v) k = cc
      go (some (broken x), v) k = cc

  -- What an edit has done: the last file that was loaded held the map `before`, and was written with
  -- the configuration that the changed map gives.
  pub record Edited (change : Table Scalar → Outcome (Table Scalar)) (path : String)
      (r : Repo World) : Type 0 where
    pub file : String
    pub answer : path ≡ file
    pub last : last_loaded r.dorothy.loaded_configs ≡ done file
    pub before : Table Scalar
    pub held : map_or_empty h system kubo (decode_map file r.world) ≡ done before
    pub after : Table Scalar
    pub changed : change before ≡ done after
    pub config : Config
    pub converted : to_config after ≡ ok config
    pub wrote : (write_config h system file config r.world).0 ≡ none

  pub edit_config-Edited :
      (change : Table Scalar → Outcome (Table Scalar)) (path : String) (r r' : Repo World)
      → edit_config h system kubo change false r ≡ (done path, r')
      → Edited change path r
  unfolding edit_config store config_path
  edit_config-Edited change path r r' e =
      let (p, last, e1) =
        >>=-lift-eq-done (last_loaded r.dorothy.loaded_configs)
          (λ p s.
            ((λ (u : Repo World). (map_or_empty h system kubo (decode_map p u.world), u)) >>= λ t.
            lift (change t) >>= store h system kubo false p)
              s)
          r e in
      let (t, held, e2) =
        >>=-lift-eq-done (map_or_empty h system kubo (decode_map p r.world))
          (λ t. lift (change t) >>= store h system kubo false p) r e1 in
      let (t', changed, e3) = >>=-lift-eq-done (change t) (store h system kubo false p) r e2 in
      let (c, converted, e4) =
        >>=-lift-eq-done (of_reply (to_config t'))
          (λ c. on_world h (write_or_make h system kubo false p c) >>= λ _.
            reload_config h system kubo >>= λ _. pure p)
          r e3 in
      let (_, v, e5, e6) =
        >>=-eq-done (on_world h (write_or_make h system kubo false p c))
          (λ _. reload_config h system kubo >>= λ _. pure p) r e4 in
      let (_, u, e7, e8) = >>=-eq-done (reload_config h system kubo) (λ _. pure p) v e6 in
      let (ran, _) = on_world-eq-done h (write_or_make h system kubo false p c) r v e5 in
      record {
        file = p;
        answer =
            let q : done p ≡ done path = ap (λ (y : Outcome String × Repo World). y.0) e8 in cc;
        last = last;
        before = t;
        held = held;
        after = t';
        changed = changed;
        config = c;
        converted = reply_ok (to_config t') converted;
        wrote =
            ap (λ (y : Option FileError × World). y.0) (written-eq-done p c r.world v.world ran);
      }

  -- A property of a repository's configuration that `SetConfig` has set was written to the last file
  -- that was loaded, without an error: the configuration comes from that file's map, changed so that
  -- the property reads as the given value, as a Boolean or a number where it is spelled like one.
  pub set_config_sound :
      (prop : String) (props : List String) (value path : String) (r r' : Repo World)
      → set_config h system kubo (prop ∷ props) value false r ≡ (done path, r')
      → (w : Edited (set_path (prop ∷ props) (scalar (promote h system kubo value))) path r)
        × (get_path (prop ∷ props) w.after ≡ some (scalar (promote h system kubo value)))
  unfolding set_config
  set_config_sound prop props value path r r' e =
      let v = scalar (promote h system kubo value) in
      let w = edit_config-Edited (set_path (prop ∷ props) v) path r r' e in
      (w, get_path-set_path prop props v w.before w.after w.changed)

  -- A property that `DelConfig` has deleted from a repository's configuration was in the map of the
  -- file that was loaded last, and is not in the changed map. That file was written, without an
  -- error, with the configuration that the changed map gives.
  pub del_config_sound :
      (prop : String) (props : List String) (path : String) (r r' : Repo World)
      → del_config h system kubo (prop ∷ props) false r ≡ (done path, r')
      → (w : Edited (del_path (prop ∷ props)) path r) × ((v : Value Scalar) × (get_path
              (prop ∷ props)
              w.before
            ≡ some v))
        × (get_path (prop ∷ props) w.after ≡ none)
  unfolding del_config
  del_config_sound prop props path r r' e =
      let w = edit_config-Edited (del_path (prop ∷ props)) path r r' e in
      let (was, gone) = get_path-del_path prop props w.before w.after w.changed in (w, was, gone)
