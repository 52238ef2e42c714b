-- ===== src/Command/Committing.antt =====
-- What the command `commit` of cmd/commit.go does as a whole.
use dorothy.Base.{
  ℕ, String, ◌≡◌, refl, sym, ap, ◌∙◌, subst, ◌⊎◌, inl, inr, Bool, List, [], ◌∷◌, Perm, Option, none,
  some, some-injective,
}
use dorothy.Outcome.{Outcome, done, conflicted, failed}
use dorothy.Sorter.{Sorter, IsSorter}
use dorothy.Manifest.{Slot}
use dorothy.Effects.{Action, ◌>>=◌, >>=-eq-done}
use dorothy.Host.{Host, HostLaws}
use dorothy.Repo.{Dorothy, Repo, commit}
use dorothy.Repo.Commit.{CommitDone, commit_sound}
use dorothy.Setup.{System, Kubo}
use dorothy.Setup.Connection.{offline}
use dorothy.Setup.Start.{setup, program_at}
use dorothy.Setup.Ready.{SetUp, setup_sound}
use dorothy.Command.Programs.{Flags, open_program}
use dorothy.Command.Commit.{
  message_for, with_world, without_program, aborting, on_partial, check_parents, commit_checked,
  commit_program, commit_command,
}
use dorothy.Command.{Terminal, Partial, after, total}
use dorothy.Command.Parentage.{check_parentage}
use dorothy.Command.Parents.{Checked, check_parentage_sound}
use dorothy.Command.Editor.{message_for-Keeps}

module _ (h : Host) (system : System h.World) (kubo : Kubo h.World) (t : Terminal h.World) where
  open h use {World}
  open t use {sort_strings}

  -- The end of a commit that went on.
  commit_checked-eq-done :
      (sort : Sorter Slot) (paths parents : List String) (message : String) (nopin : Bool)
      (r r' : Repo World)
      → commit_checked h system kubo t sort paths message nopin (some parents) r ≡ (done tt, r')
      → (text : String) × (before : Repo World) × (message_for h system kubo t message r
          ≡ (done text, before))
        × (before.dorothy ≡ r.dorothy)
        × (commit h sort paths text nopin parents before ≡ (done tt, r'))
  unfolding commit_checked
  commit_checked-eq-done sort paths parents message nopin r r' e =
      let (text, v, e1, e2) =
        >>=-eq-done (message_for h system kubo t message)
          (λ text. commit h sort paths text nopin parents) r e in
      (
        text,
        v,
        e1,
        sym (ap (λ (y : Outcome String × Repo World). y.1.dorothy) e1)
            ∙ message_for-Keeps h system kubo t message r,
        e2,
      )

  module _ (laws : HostLaws h) (sort : Sorter Slot) (order : IsSorter sort) where
    -- A commit command that has been set up: its program was made in the directory that it is run in,
    -- the configuration of its flags was loaded, and `Setup` has succeeded.
    pub record Begun (flags : Flags) (w : World) : Type 0 where
      pub program : Repo World
      pub made : program_at h system kubo (system.current_dir w) w ≡ done program
      pub opened : Repo World
      pub opening : open_program h system kubo flags program ≡ (done tt, opened)
      pub ready : Repo World
      pub set_up : SetUp h system kubo opened ready

    -- What a commit command that has committed did: it was set up, found the parents, got its message, from
    -- the editor if none was given, and made a version with them.
    pub record CommitRun (n : ℕ) (flags : Flags) (given : List String) (pick : Bool)
        (message : String) (w w' : World) : Type 0 where
      pub begun : Begun flags w
      pub parents : List String
      pub checked : Checked t n begun.set_up.manifest given parents pick begun.ready.world
      pub asked : Repo World
      pub asking :
          check_parents h system kubo t n given pick begun.ready ≡ some (done (some parents), asked)
      pub text : String
      pub before : Repo World
      pub worded : message_for h system kubo t message asked ≡ (done text, before)
      pub same : before.dorothy ≡ begun.ready.dorothy
      pub last : Repo World
      pub committed : CommitDone h laws sort order text parents before last
      pub world : last.world ≡ w'

    -- The user did not go on, and nothing was committed.
    pub record Declined (n : ℕ) (flags : Flags) (given : List String) (pick : Bool) (w w' : World)
        : Type 0 where
      pub begun : Begun flags w
      pub left : Repo World
      pub declined : check_parents h system kubo t n given pick begun.ready ≡ some (done none, left)
      pub world : left.world ≡ w'

    after-eq-done :
        {A B W : Type 0} (o : Option (Outcome A × W)) (f : A → Partial W B) {b : B} {w' : W}
        → after o f ≡ some (done b, w')
        → (a : A) × (v : W) × (o ≡ some (done a, v)) × (f a v ≡ some (done b, w'))
    after-eq-done none f e = cc
    after-eq-done (some (done a, v)) f e = (a, v, refl, e)
    after-eq-done (some (conflicted cs x, v)) f e = cc
    after-eq-done (some (failed x, v)) f e = cc

    aborting-eq-done :
        {A : Type 0} (o : Option (Outcome A × Repo World)) {a : A} {v : Repo World}
        → aborting h system kubo t o ≡ some (done a, v)
        → o ≡ some (done a, v)
    aborting-eq-done none e = cc
    aborting-eq-done (some (done b, u)) e = e
    aborting-eq-done (some (conflicted cs x, u)) e = cc
    aborting-eq-done (some (failed x, u)) e = cc

    with_world-eq-done :
        {A : Type 0} (s v : Repo World) (o : Option (Outcome A × World)) {a : A}
        → with_world h system kubo t s o ≡ some (done a, v)
        → (o ≡ some (done a, v.world)) × (v.dorothy ≡ s.dorothy)
    with_world-eq-done s v none e = cc
    with_world-eq-done {A} s v (some (o, w)) {a} e =
        let q = some-injective (o, record s { world = w }) (done a, v) e in
        (
          ap (λ (y : Outcome A × Repo World). some (y.0, y.1.world)) q,
          sym (ap (λ (y : Outcome A × Repo World). y.1.dorothy) q),
        )

    -- A commit that goes on after its parents were checked.
    checked-CommitRun :
        ((xs : List String) → Perm (sort_strings xs) xs)
        → (n : ℕ) (flags : Flags) (path : String) (paths : List String) (message : String)
          (nopin : Bool) (given parents : List String) (pick : Bool) (w : World) (b : Begun flags w)
          (v r' : Repo World)
        → check_parents h system kubo t n given pick b.ready ≡ some (done (some parents), v)
        → commit_checked h system kubo t sort (path ∷ paths) message nopin (some parents) v
          ≡ (done tt, r')
        → CommitRun n flags given pick message w r'.world
    unfolding check_parents
    checked-CommitRun sorts n flags path paths message nopin given parents pick w b v r' asking e =
        let s = b.ready in
        let up = b.set_up in
        let (ran, same) =
          with_world-eq-done s v (check_parentage t n s.dorothy.manifest given pick s.world)
            asking in
        let man : s.dorothy.manifest ≡ some up.manifest =
          ap (λ (d : Dorothy). d.manifest) up.holds in
        let (text, before, worded, kept, committed) =
          commit_checked-eq-done sort (path ∷ paths) parents message nopin v r' e in
        record {
          begun = b;
          parents = parents;
          checked = check_parentage_sound t sorts n up.manifest given parents pick s.world v.world (
              subst
                (λ o.
                  check_parentage t n o given pick s.world ≡ some (done (some parents), v.world))
                man ran);
          asked = v;
          asking = asking;
          text = text;
          before = before;
          worded = worded;
          same = kept ∙ same;
          last = r';
          committed =
              commit_sound h laws sort order path paths text nopin parents before r' committed;
          world = refl;
        }

    module _ (sorts : (xs : List String) → Perm (sort_strings xs) xs) (n : ℕ) (flags : Flags)
        (path : String) (paths : List String) (message : String) (nopin : Bool)
        (given : List String) (pick : Bool) (w : World) where
      abbrev Ending : World → Type 0
      Ending w' = CommitRun n flags given pick message w w' ⊎ Declined n flags given pick w w'

      ended :
          (b : Begun flags w) (v r' : Repo World) (checked : Option (List String))
          → check_parents h system kubo t n given pick b.ready ≡ some (done checked, v)
          → commit_checked h system kubo t sort (path ∷ paths) message nopin checked v
            ≡ (done tt, r')
          → Ending r'.world
      unfolding commit_checked
      ended b v r' none asked e = inr (record {
        begun = b;
        left = v;
        declined = asked;
        world = ap (λ (y : Outcome (Unit {0}) × Repo World). y.1.world) e;
      })
      ended b v r' (some parents) asked e = inl (
          checked-CommitRun sorts n flags path paths message nopin given parents pick w b v r' asked
            e)

      commit_program-Ending :
          (r r' : Repo World)
          → program_at h system kubo (system.current_dir w) w ≡ done r
          → commit_program h system kubo t n sort flags (path ∷ paths) message nopin given pick r
            ≡ some (done tt, r')
          → Ending r'.world
      unfolding commit_program
      commit_program-Ending r r' made e =
          let set = setup h system kubo (offline ∷ []) in
          let start : Action (Repo World) (Unit {0}) =
            open_program h system kubo flags >>= λ _. set in
          let finish : Option (List String) → Partial (Repo World) (Unit {0}) =
            λ c. total (commit_checked h system kubo t sort (path ∷ paths) message nopin c) in
          let (_, s, started, e1) =
            after-eq-done (some (start r))
              (λ _ s.
                after (aborting h system kubo t (check_parents h system kubo t n given pick s))
                  finish)
              e in
          let (_, opened, opening, ready) =
            >>=-eq-done (open_program h system kubo flags) (λ _. set) r
              (some-injective (start r) (done tt, s) started) in
          let (checked, v, asked, e2) =
            after-eq-done (aborting h system kubo t (check_parents h system kubo t n given pick s))
              finish e1 in
          let begun : Begun flags w = record {
            program = r;
            made = made;
            opened = opened;
            opening = opening;
            ready = s;
            set_up = setup_sound h system kubo (offline ∷ []) opened s ready;
          } in
          ended begun v r' checked
            (aborting-eq-done (check_parents h system kubo t n given pick s) asked)
            (some-injective
              (commit_checked h system kubo t sort (path ∷ paths) message nopin checked v)
              (done tt, r') e2)

      abbrev run : Partial (Repo World) (Unit {0})
      run = commit_program h system kubo t n sort flags (path ∷ paths) message nopin given pick

      ran :
          (w' : World) (o : Option (Outcome (Unit {0}) × Repo World))
          → ((r' : Repo World) → o ≡ some (done tt, r') → Ending r'.world)
          → without_program h system kubo t o ≡ some (done tt, w')
          → Ending w'
      ran w' none sound k = cc
      ran w' (some (done u, r')) sound k =
          let q = some-injective (done u, r'.world) (done tt, w') k in
          subst Ending (ap (λ (y : Outcome (Unit {0}) × World). y.1) q) (sound r' refl)
      ran w' (some (conflicted cs x, r')) sound k = cc
      ran w' (some (failed x, r')) sound k = cc

      began :
          (w' : World) (o : Outcome (Repo World))
          → program_at h system kubo (system.current_dir w) w ≡ o
          → on_partial h system kubo t o run w ≡ some (done tt, w')
          → Ending w'
      began w' (done r) made k = ran w' (run r) (λ r' x. commit_program-Ending r r' made x) k
      began w' (conflicted cs x) made k = cc
      began w' (failed x) made k = cc

    -- A commit command on at least one file that succeeds has been set up in the directory that it is run
    -- in, with the configuration of its flags. It has either found the parents among the given and the
    -- chosen ones, and made and merged a version with them and with the message, given or edited; or its
    -- user has declined to go on with unknown parents, and the commit was not begun.
    pub commit_command_sound :
        ((xs : List String) → Perm (sort_strings xs) xs)
        → (n : ℕ) (flags : Flags) (path : String) (paths : List String) (message : String)
          (nopin : Bool) (given : List String) (pick : Bool) (w w' : World)
        → commit_command h system kubo t n sort flags (path ∷ paths) message nopin given pick w
          ≡ some (done tt, w')
        → CommitRun n flags given pick message w w' ⊎ Declined n flags given pick w w'
    unfolding commit_command
    commit_command_sound sorts n flags path paths message nopin given pick w w' e =
        began sorts n flags path paths message nopin given pick w w'
          (program_at h system kubo (system.current_dir w) w) refl e
