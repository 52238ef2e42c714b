-- ===== src/Setup/Cloning.antt =====
-- What `Clone` of core/dorothy.go leaves: the parts of a clone are those of its steps.
use dorothy.Base.{String, ◌≡◌, refl, sym, ap, Option, none, some, Bool, true, false, not, [], ◌∷◌}
use dorothy.Outcome.{ok, Outcome, done, conflicted, failed, already_initialized}
use dorothy.Sorter.{Sorter, IsSorter}
use dorothy.Manifest.{Slot}
use dorothy.Effects.{
  Action, lift, call, of_reply, reply_ok, ◌>>=◌, >>=-eq-done, >>=-lift-eq-done, >>=-call-eq-done,
  guard-eq-done,
}
use dorothy.Host.{Host, HostLaws}
use dorothy.Sdk.{Http}
use dorothy.Config.Tree.{scalar, set_path, get_path}
use dorothy.Repo.{Repo}
use dorothy.Repo.Exchange.{fetch, fetch_request}
use dorothy.Repo.Sync.{Synced, fetch_sound}
use dorothy.Setup.{System, Kubo, FileError}
use dorothy.Setup.Configs.{set_config, promote}
use dorothy.Setup.Start.{
  is_initialized, initialize, load_dorothy, program_at, clone_target, clone_fetched, clone_into,
  cloned, left_dir, made_clone, clone,
}
use dorothy.Setup.Initial.{Initialized, initialize_sound}
use dorothy.Setup.Editing.{Edited, set_config_sound}

module _ (h : Host) (system : System h.World) (kubo : Kubo h.World) (sort : Sorter Slot)
    (http : Http h.World) where
  open h use {World}

  clone_fetched-eq-done :
      (x : Outcome (Unit {0}) × Repo World) (r' : Repo World)
      → clone_fetched h system kubo sort http x ≡ (done tt, r')
      → x ≡ (done tt, r')
  clone_fetched-eq-done (done _, r) r' e = e
  clone_fetched-eq-done (conflicted cs x, r) r' e = cc
  clone_fetched-eq-done (failed x, r) r' e = cc

  not_there : (b : Bool) → not b ≡ true → b ≡ false
  not_there true e = cc
  not_there false e = refl

  module _ (laws : HostLaws h) (order : IsSorter sort) where
    -- What the program of a new directory has become: a repository where none was, with the remote in
    -- its configuration file, and with the fetched manifest merged into the empty one.
    pub record Cloned (remote : String) (r r' : Repo World) : Type 0 where
      pub loaded : Repo World
      pub loading : load_dorothy h system kubo r ≡ (done tt, loaded)
      pub fresh : is_initialized h system loaded.dorothy loaded.world ≡ false
      pub made : Repo World
      pub initialized : Initialized h system kubo laws loaded made
      pub path : String
      pub edited :
          Edited h system kubo
            (set_path ("remote" ∷ []) (scalar (promote h system kubo remote)))
            path
            made
      pub names :
          get_path ("remote" ∷ []) edited.after ≡ some (scalar (promote h system kubo remote))
      pub set : Repo World
      pub setting : set_config h system kubo ("remote" ∷ []) remote false made ≡ (done path, set)
      pub synced : Synced h sort http laws order (fetch_request h sort http) set r'

    clone_into-Cloned :
        (remote : String) (global : Bool) (r r' : Repo World)
        → clone_into h system kubo sort http remote global r ≡ (done tt, r')
        → Cloned remote r r'
    unfolding clone_into
    clone_into-Cloned remote global r r' e =
        let (_, v, e1, e2) = >>=-eq-done (load_dorothy h system kubo) _ r e in
        let there = is_initialized h system v.dorothy v.world in
        let (absent, e3) = guard-eq-done (not there) already_initialized _ v e2 in
        let (_, u, e4, e5) = >>=-eq-done (initialize h system kubo global []) _ v e3 in
        let (path, t, e6, e7) =
          >>=-eq-done (set_config h system kubo ("remote" ∷ []) remote false) _ u e5 in
        let fresh = not_there there absent in
        let (edited, names) = set_config_sound h system kubo "remote" [] remote path u t e6 in
        record {
          loaded = v;
          loading = e1;
          fresh = fresh;
          made = u;
          initialized = initialize_sound h system kubo laws global [] v u fresh e4;
          path = path;
          edited = edited;
          names = names;
          set = t;
          setting = e6;
          synced =
              fetch_sound h sort http laws order t r'
                (clone_fetched-eq-done (fetch h sort http t) r' e7);
        }

    -- What a clone has done.
    pub record CloneRun (remote dest : String) (w w' : World) : Type 0 where
      pub name : String
      pub named : clone_target h system kubo sort http remote dest ≡ done name
      pub cwd : String
      pub here : system.current_dir w ≡ ok cwd
      pub made_at : World
      pub made : system.make_dirs (h.join cwd name) w ≡ (none, made_at)
      pub entered : World
      pub entering : system.change_dir (h.join cwd name) made_at ≡ (ok tt, entered)
      pub program : Repo World
      pub started : program_at h system kubo (system.current_dir entered) entered ≡ done program
      pub finished : Repo World
      pub clone : Cloned remote program finished
      pub left : w' ≡ (system.change_dir cwd finished.world).1

    cloned-eq-done :
        (remote cwd : String) (global : Bool) (o : Outcome (Repo World)) (w w' : World)
        → left_dir h system kubo sort http cwd (cloned h system kubo sort http remote global o w)
          ≡ (done tt, w')
        → (r : Repo World) × (r' : Repo World) × (o ≡ done r)
          × Cloned remote r r'
          × (w' ≡ (system.change_dir cwd r'.world).1)
    cloned-eq-done remote cwd global (done r) w w' e =
        go (clone_into h system kubo sort http remote global r) refl e
      where
        go :
            (x : Outcome (Unit {0}) × Repo World)
            → clone_into h system kubo sort http remote global r ≡ x
            → left_dir h system kubo sort http cwd (x.0, x.1.world) ≡ (done tt, w')
            → (s : Repo World) × (r' : Repo World) × (done r ≡ done s)
              × Cloned remote s r'
              × (w' ≡ (system.change_dir cwd r'.world).1)
        go (done _, r') p k = (
          r,
          r',
          refl,
          clone_into-Cloned remote global r r' p,
          sym (ap (λ (y : Outcome (Unit {0}) × World). y.1) k),
        )
        go (conflicted cs x, r') p k = cc
        go (failed x, r') p k = cc
    cloned-eq-done remote cwd global (conflicted cs x) w w' e = cc
    cloned-eq-done remote cwd global (failed x) w w' e = cc

    made_clone-eq-done :
        (o : Option FileError) → made_clone h system kubo sort http o ≡ done tt → o ≡ none
    made_clone-eq-done none e = refl
    made_clone-eq-done (some x) e = cc

    made_at-eq :
        (cwd name : String) (w v : World) (made : Option FileError)
        → Path
            (Outcome (Option FileError) × World)
            (
              done (system.make_dirs (h.join cwd name) w).0,
              (system.make_dirs (h.join cwd name) w).1,
            )
            (done made, v)
        → made ≡ none
        → system.make_dirs (h.join cwd name) w ≡ (none, v)
    made_at-eq cwd name w v made e none_made = cc

    -- A clone that succeeds went to a directory with the given name, or that of the dataset, made a
    -- repository there where none was, set its remote, merged the manifest that it fetched into the
    -- empty one, and left the directory for the one it came from.
    pub clone_sound :
        (remote dest : String) (global : Bool) (w w' : World)
        → clone h system kubo sort http remote dest global w ≡ (done tt, w')
        → CloneRun remote dest w w'
    unfolding clone
    clone_sound remote dest global w w' e =
        let (name, named, e1) =
          >>=-lift-eq-done (clone_target h system kubo sort http remote dest) _ w e in
        let go_into : String → Action World (Unit {0}) = λ cwd u.
          left_dir h system kubo sort http cwd (
            cloned h system kubo sort http remote global
              (program_at h system kubo (system.current_dir u) u) u) in
        let enter : String → Action World (Unit {0}) =
          λ cwd. call (system.change_dir (h.join cwd name)) >>= λ _. go_into cwd in
        let check : String → Option FileError → Action World (Unit {0}) =
          λ cwd made. lift (made_clone h system kubo sort http made) >>= λ _. enter cwd in
        let make : String → Action World (Option FileError) = λ cwd w. (
          done (system.make_dirs (h.join cwd name) w).0,
          (system.make_dirs (h.join cwd name) w).1,
        ) in
        let (cwd, here, e2) =
          >>=-lift-eq-done (of_reply (system.current_dir w)) (λ cwd. make cwd >>= check cwd) w e1 in
        let (made, v, e3, e4) = >>=-eq-done (make cwd) (check cwd) w e2 in
        let (_, e5, e6) =
          >>=-lift-eq-done (made_clone h system kubo sort http made) (λ _. enter cwd) v e4 in
        let (_, u, entering, e7) =
          >>=-call-eq-done (system.change_dir (h.join cwd name)) (λ _. go_into cwd) v e6 in
        let (r, r', started, done_it, left) =
          cloned-eq-done remote cwd global (program_at h system kubo (system.current_dir u) u) u w'
            e7 in
        record {
          name = name;
          named = named;
          cwd = cwd;
          here = reply_ok (system.current_dir w) here;
          made_at = v;
          made = made_at-eq cwd name w v made e3 (made_clone-eq-done made e5);
          entered = u;
          entering = entering;
          program = r;
          started = started;
          finished = r';
          clone = done_it;
          left = left;
        }
