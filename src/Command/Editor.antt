-- ===== src/Command/Editor.antt =====
-- What the editor of cmd/commit.go and core/dorothy.go does to the program.
use dorothy.Base.{String, ◌≡◌, refl, ap, ◌∙◌, Bool, true, false, ◌==◌, if◌then◌else◌}
use dorothy.Outcome.{Outcome, done, conflicted, failed}
use dorothy.Effects.{Action, pure, continue}
use dorothy.Host.{Host}
use dorothy.Repo.{Repo, on_world}
use dorothy.Repo.Steps.{Keeps}
use dorothy.Repo.Sync.{program}
use dorothy.Setup.{System, Kubo}
use dorothy.Command.Programs.{reported}
use dorothy.Command.Commit.{editor_of, removing, edited_text, read_from_editor, message_for}
use dorothy.Command.{Terminal}

module _ (h : Host) (system : System h.World) (kubo : Kubo h.World) (t : Terminal h.World) where
  open h use {World}
  open t use {sort_strings}

  -- The editor leaves the program alone.
  read_from_editor-Keeps :
      (filename : String) → Keeps (program h) (read_from_editor h system kubo t filename)
  unfolding read_from_editor
  read_from_editor-Keeps filename r = go (editor_of h system kubo t r.dorothy r.world)
    where
      go :
          (o : Outcome String)
          → (continue o
              (λ editor. on_world h (
                removing h system kubo t
                  (h.join r.dorothy.directory filename)
                  (edited_text h system kubo t (h.join r.dorothy.directory filename) editor)))
              r).1.dorothy
            ≡ r.dorothy
      go (done editor) = refl
      go (conflicted cs e) = refl
      go (failed e) = refl

  pub message_for-Keeps :
      (message : String) → Keeps (program h) (message_for h system kubo t message)
  unfolding message_for
  message_for-Keeps message r = go (message == "")
    where
      kept :
          (x : Outcome String × Repo World) → (reported h system kubo "aborting commit" x).1 ≡ x.1
      kept (done a, v) = refl
      kept (conflicted cs e, v) = refl
      kept (failed e, v) = refl

      go :
          (b : Bool)
          → (if◌then◌else◌ {A = Action (Repo World) String} b
              (λ s.
                reported h system kubo "aborting commit"
                  (read_from_editor h system kubo t "commit-msg" s))
              (pure message)
              r).1.dorothy
            ≡ r.dorothy
      go true =
          ap (λ (v : Repo World). v.dorothy)
            (kept (read_from_editor h system kubo t "commit-msg" r))
          ∙ read_from_editor-Keeps "commit-msg" r
      go false = refl
