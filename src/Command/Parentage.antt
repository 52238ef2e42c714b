-- ===== src/Command/Parentage.antt =====
-- cmd/commit.go: `checkParentage`, which asks for the parents of a commit. Its loops get fuel: a number
-- of questions.
use dorothy.Base.{
  ℕ, zero, suc, String, Bool, true, false, not, ◌&&◌, ◌||◌, List, [], ◌∷◌, ◌++◌, is_nil, length,
  ltb, Option, none, some, if◌then◌else◌,
}
use dorothy.Version.{Version}
use dorothy.Outcome.{Reply, ok, err, Outcome, done, conflicted, failed, external, nil_dereference}
use dorothy.Effects.{pure, lift}
use dorothy.Manifest.{Manifest, is_empty, unknown_commits, leaf_versions}
use dorothy.View.{Msg, Run, quitted, waiting, panicked}
use dorothy.View.Versions.{chosen_hashes, ViewModel, new_model, run_view}
use dorothy.Command.{Terminal, Partial, ◌>>=◌, total}

-- `d.UnknownCommits`; a nil manifest panics once it is asked for a commit.
abbrev pub unknown_of : Option Manifest → List String → Outcome (List String)
unknown_of (some m) parents = done (unknown_commits m parents)
unknown_of none [] = done []
unknown_of none (p ∷ ps) = failed nil_dereference

module _ {W : Type 0} (t : Terminal W) where
  open t use {scan, matches, sort_strings, list_widget, messages}

  unfoldable pub is_yes : String → Bool
  is_yes answer = matches "(?i)^y(es)?$" answer

  unfoldable pub is_no : String → Bool
  is_no answer = matches "(?i)^n(o)?$" answer

  -- `ChooseVersionsWithSelected`
  abbrev pub choice_of : Run (ViewModel list_widget) → W → Option (Outcome (List String) × W)
  choice_of (quitted m) w = some (done (chosen_hashes m.choices), w)
  choice_of (waiting m) w = none
  choice_of panicked w = some (failed nil_dereference, w)

  abbrev pub viewed :
      ViewModel list_widget → Reply (List Msg) × W → Option (Outcome (List String) × W)
  viewed m (ok msgs, w) = choice_of (run_view list_widget msgs m) w
  viewed m (err e, w) = some (failed (external e), w)

  unfoldable pub choose_versions_with_selected :
      String → Bool → List Version → Option Manifest → Partial W (List String)
  choose_versions_with_selected title required selected none w = some (failed nil_dereference, w)
  choose_versions_with_selected title required selected (some m) w =
      viewed (new_model list_widget title m required selected) (messages w)

  -- The leaves are selected at first, if there is just one.
  unfoldable pub selected_leaves : Option Manifest → List Version
  selected_leaves none = []
  selected_leaves (some m) =
      let selected = leaf_versions m in if ltb 1 (length selected) then [] else selected

  -- What became of one choice: without parents, the user is asked whether to continue.
  abbrev pub picked :
      Partial W (List String)
      → Option (Outcome (List String) × W)
      → Option (Outcome (List String) × W)
  picked again none = none
  picked again (some (conflicted cs e, w)) = some (conflicted cs e, w)
  picked again (some (failed e, w)) = some (failed e, w)
  picked again (some (done (p ∷ ps), w)) = some (done (p ∷ ps), w)
  picked again (some (done [], w)) =
      let (answer, w') = scan w in
      elim (is_yes answer) [ true ↦ some (done [], w') | false ↦ again w' ]

  unfoldable pub pick_parents : ℕ → Option Manifest → Partial W (List String)
  unfolding choose_versions_with_selected selected_leaves
  pick_parents zero manifest w = none
  pick_parents (suc n) manifest w = picked (pick_parents n manifest) (
      choose_versions_with_selected "Which versions are parents of this version?" false
        (selected_leaves manifest) manifest w)

  -- The question whether to continue, until it is answered.
  unfoldable pub confirm : ℕ → W → Option (Bool × W)
  confirm zero w = none
  confirm (suc n) w =
      let (answer, w') = scan w in
      elim (is_yes answer) [
        | true ↦ some (true, w')
        | false ↦ elim (is_no answer) [ true ↦ some (false, w') | false ↦ confirm n w' ]
      ]

  -- The parents go on: sorted if they are all known, as they stand if the user confirms the unknown
  -- ones, and not at all (`none`) if not.
  abbrev pub confirmed :
      List String → Option (Bool × W) → Option (Outcome (Option (List String)) × W)
  confirmed parents none = none
  confirmed parents (some (true, w)) = some (done (some parents), w)
  confirmed parents (some (false, w)) = some (done none, w)

  unfoldable pub check_unknown : ℕ → List String → List String → Partial W (Option (List String))
  unfolding confirm
  check_unknown n parents [] w = some (done (some (sort_strings parents)), w)
  check_unknown n parents (u ∷ us) w = confirmed parents (confirm n w)

  unfoldable pub picks : Option Manifest → List String → Bool → Bool
  picks manifest parents pick = not (is_empty manifest) && (pick || is_nil parents)

  unfoldable pub check_parentage :
      ℕ → Option Manifest → List String → Bool → Partial W (Option (List String))
  unfolding pick_parents check_unknown picks
  check_parentage n manifest parents pick =
      (if picks manifest parents pick then pick_parents n manifest else total (pure []))
      >>= λ chosen. total (lift (unknown_of manifest (parents ++ chosen))) >>= λ unknown.
          check_unknown n (parents ++ chosen) unknown
