-- ===== src/View.antt =====
-- The terminal views of core/versionlist.go and sdk/credentials.go: what they call of bubbletea and its
-- widgets. A program of bubbletea reads messages, and each changes its model until it quits.
pub mod Versions
pub mod Updates
pub mod Choice
pub mod Form
pub mod Focus
pub mod Lost
pub mod Submit
pub mod Samples
mod Tests
use dorothy.Base.{ℕ, String, Bool, true, false, List, Option}

-- `tea.Msg`, as far as the code tells messages apart.
pub data Msg : Type 0 where
  window_size : ℕ → ℕ → Msg
  key : String → Msg
  other : Msg

-- `tea.Cmd`: `tea.Quit`, a message in the list's status line, and what a widget asks for.
pub data Cmd : Type 0 where
  no_cmd quit widget_cmd : Cmd
  status_message : String → Cmd

-- A difference of two Go ints, which may be negative.
pub record Difference : Type 0 where
  pub from : ℕ
  pub less : ℕ

-- The widget `list.Model` over the items of a list, by its state.
pub record ListWidget : Type 1 where
  pub State : Type 0
  -- `list.New` for so many items, with a title and without keys that quit
  pub new_list : String → ℕ → State
  pub filtering : State → Bool
  pub set_size : Difference → Difference → State → State
  pub show_pagination : State → Bool
  pub set_show_pagination : Bool → State → State
  pub show_help : State → Bool
  pub set_show_help : Bool → State → State
  -- the index of the item that `SelectedItem` returns, if it does not return nil
  pub selected : State → Option ℕ
  -- `Update`, and the states in which it calls the `Update` of the delegate with the message
  pub update : Msg → State → State × List State
  -- `appStyle.GetFrameSize`
  pub frame_size : ℕ × ℕ

-- The widget `textinput.Model`, by its state.
pub record TextInput : Type 1 where
  pub State : Type 0
  -- `textinput.New`, with a static cursor
  pub new_input : State
  pub focus : State → State
  pub blur : State → State
  pub focused : State → Bool
  pub update : Msg → State → State
  pub value : State → String

-- How a run of a program stands once it has read some messages: it has quit, it waits for more, or it
-- has panicked.
pub data Run (M : Type 0) : Type 0 where
  quitted waiting : M → Run M
  panicked : Run M

abbrev pub is_quit : Cmd → Bool
is_quit quit = true
is_quit no_cmd = false
is_quit widget_cmd = false
is_quit (status_message s) = false
