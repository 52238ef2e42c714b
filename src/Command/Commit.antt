-- ===== src/Command/Commit.antt =====
-- cmd/commit.go: the command `commit`, with `ReadFromEditor` of core/dorothy.go.
use Prim.Native.String.{◌++◌}
use dorothy.Base.{ℕ, String, Bool, List, [], ◌∷◌, Option, none, some, ◌==◌, if◌then◌else◌}
use dorothy.Outcome.{Outcome, done, conflicted, failed, external, wrapped}
use dorothy.Sorter.{Sorter}
use dorothy.Manifest.{Slot}
use dorothy.Effects.{Action, pure, call, ◌>>=◌, ◌>>◌}
use dorothy.Host.{Host}
use dorothy.Repo.{Dorothy, Repo, gets, on_world, commit}
use dorothy.Setup.{System, Kubo}
use dorothy.Setup.Connection.{offline}
use dorothy.Setup.Start.{setup, program_at}
use dorothy.Command.{Terminal, Partial, after, total}
use dorothy.Command.Parentage.{check_parentage}
use dorothy.Command.Programs.{Flags, open_program, reported}

module _ (h : Host) (system : System h.World) (kubo : Kubo h.World) where
  open h use {World, join}
  open system use {current_dir}

  module _ (t : Terminal World) where
    open t use {trim_right, editor, create, edit, contents, remove_all}

    -- `ReadFromEditor`; the file that is made for the editor is removed in the end.
    unfoldable pub editor_of : Dorothy → World → Outcome String
    editor_of d w =
        if d.config.editor == ""
        then elim (editor w) [
          | none ↦ failed (external "cannot find a suitable text editor")
          | some e ↦ done e
        ]
        else done d.config.editor

    abbrev pub removing : {A : Type 0} → String → Action World A → Action World A
    removing path m w = let (o, w') = m w in (o, remove_all path w')

    abbrev pub crashed : Outcome (Unit {0}) × World → Outcome (Unit {0}) × World
    crashed (failed e, w) = (failed (external "editor crashed"), w)
    crashed (done u, w) = (done u, w)
    crashed (conflicted cs e, w) = (conflicted cs e, w)

    abbrev pub message_of : String → String → Outcome String
    message_of path body =
        if body == ""
        then failed (external ("no content found in " ++ path))
        else done (trim_right body "\n\r")

    -- The file is made, edited and read.
    unfoldable pub edited_text : String → String → Action World String
    edited_text path editor = do
      call (create path)
      λ w. crashed (call (edit editor path) w)
      λ w. (message_of path (contents path w), w)

    unfoldable pub read_from_editor : String → Action (Repo World) String
    unfolding editor_of edited_text
    read_from_editor filename = do
      d ← gets h (λ d. d)
      editor ← λ r. (editor_of d r.world, r)
      let path = join d.directory filename
      on_world h (removing path (edited_text path editor))

    -- The message of a commit, from the editor unless it was given.
    unfoldable pub message_for : String → Action (Repo World) String
    unfolding read_from_editor
    message_for message =
        if message == ""
        then (λ r. reported h system kubo "aborting commit" (read_from_editor "commit-msg" r))
        else pure message

    -- Code on the world that may run for ever, as code on the program.
    abbrev pub with_world :
        {A : Type 0} → Repo World → Option (Outcome A × World) → Option (Outcome A × Repo World)
    with_world r none = none
    with_world r (some (o, w)) = some (o, record r { world = w })

    abbrev pub without_program :
        {A : Type 0} → Option (Outcome A × Repo World) → Option (Outcome A × World)
    without_program none = none
    without_program (some (o, r)) = some (o, r.world)

    abbrev pub aborting :
        {A : Type 0} → Option (Outcome A × Repo World) → Option (Outcome A × Repo World)
    aborting none = none
    aborting (some (done a, r)) = some (done a, r)
    aborting (some (conflicted cs e, r)) = some (failed (wrapped "aborting commit" e), r)
    aborting (some (failed e, r)) = some (failed (wrapped "aborting commit" e), r)

    abbrev pub on_partial :
        {A : Type 0} → Outcome (Repo World) → Partial (Repo World) A → Partial World A
    on_partial (done r) m w = without_program (m r)
    on_partial (conflicted cs e) m w = some (conflicted cs e, w)
    on_partial (failed e) m w = some (failed e, w)

    -- `checkParentage` on the loaded manifest; `n` bounds the questions that are asked.
    unfoldable pub check_parents :
        ℕ → List String → Bool → Partial (Repo World) (Option (List String))
    unfolding check_parentage
    check_parents n parents pick r =
        with_world r (check_parentage t n r.dorothy.manifest parents pick r.world)

    -- The rest of a commit: nothing, if the user did not go on.
    unfoldable pub commit_checked :
        Sorter Slot
        → List String
        → String
        → Bool
        → Option (List String)
        → Action (Repo World) (Unit {0})
    unfolding message_for commit
    commit_checked sort paths message nopin none = pure tt
    commit_checked sort paths message nopin (some parents) = do
      text ← message_for message
      commit h sort paths text nopin parents

    unfoldable pub commit_program :
        ℕ
        → Sorter Slot
        → Flags
        → List String
        → String
        → Bool
        → List String
        → Bool
        → Partial (Repo World) (Unit {0})
    unfolding open_program setup check_parents commit_checked
    commit_program n sort flags paths message nopin parents pick r =
        after
          (some ((open_program h system kubo flags >>= λ _. setup h system kubo (offline ∷ [])) r))
          λ _ s.
            after (aborting (check_parents n parents pick s))
              λ checked. total (commit_checked sort paths message nopin checked)

    unfoldable pub commit_command :
        ℕ
        → Sorter Slot
        → Flags
        → List String
        → String
        → Bool
        → List String
        → Bool
        → Partial World (Unit {0})
    unfolding commit_program
    commit_command n sort flags paths message nopin parents pick w =
        on_partial (program_at h system kubo (current_dir w) w)
          (commit_program n sort flags paths message nopin parents pick) w
