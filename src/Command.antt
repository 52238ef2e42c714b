-- ===== src/Command.antt =====
-- cmd: the commands of the program. This module has what they share, and what they call of the
-- terminal and of the libraries.
pub mod Parentage
pub mod Prompts
pub mod Parents
pub mod Fuel
pub mod Programs
pub mod Commit
pub mod Runs
pub mod Editor
pub mod Committing
pub mod Serve
mod Tests
use dorothy.Base.{String, Bool, List, Option, none, some}
use dorothy.Outcome.{Reply, Outcome, done, conflicted, failed}
use dorothy.Effects.{Action}
use dorothy.View.{Msg, ListWidget}

-- `fmt.Scanln`, `regexp.MatchString`, `sort.Strings`, `strings.Split`, `bytes.TrimRight`, and a program
-- of bubbletea, which hands messages to its model until that quits.
pub record Terminal (W : Type 0) : Type 1 where
  pub scan : W → String × W
  pub matches : String → String → Bool
  pub sort_strings : List String → List String
  pub split : String → String → List String
  pub trim_right : String → String → String
  pub list_widget : ListWidget
  pub messages : W → Reply (List Msg) × W
  -- `os.LookupEnv("EDITOR")`, `os.Create`, a run of the editor, `os.ReadFile`, which may answer a text
  -- beside its error, and `os.RemoveAll`
  pub editor : W → Option String
  pub create : String → W → Reply (Unit {0}) × W
  pub edit : String → String → W → Reply (Unit {0}) × W
  pub contents : String → W → String
  pub remove_all : String → W → W

-- Code that may run for ever: `none` where it has not ended with the fuel that it got.
abbrev pub Partial : Type 0 → Type 0 → Type 0
Partial W A = W → Option (Outcome A × W)

module _ {W A B : Type 0} where
  abbrev pub after : Option (Outcome A × W) → (A → Partial W B) → Option (Outcome B × W)
  after none f = none
  after (some (done a, w)) f = f a w
  after (some (conflicted cs e, w)) f = some (conflicted cs e, w)
  after (some (failed e, w)) f = some (failed e, w)

  infixl 10 ◌>>=◌
  abbrev pub ◌>>=◌ : Partial W A → (A → Partial W B) → Partial W B
  ◌>>=◌ m f w = after (m w) f

abbrev pub total : {W A : Type 0} → Action W A → Partial W A
total m w = some (m w)
