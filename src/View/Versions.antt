-- ===== src/View/Versions.antt =====
-- core/versionlist.go: the list in which a user chooses versions.
use dorothy.Base.{
  ℕ, zero, suc, String, Bool, not, ◌&&◌, List, [], ◌∷◌, Option, none, some, any, reverse, map,
  length, ◌==◌, if◌then◌else◌,
}
use dorothy.Version.{Version, equal}
use dorothy.Manifest.{Manifest}
use dorothy.View.{
  Msg, window_size, key, other, Cmd, no_cmd, quit, widget_cmd, status_message, ListWidget, Run,
  quitted, waiting, panicked,
}
use Prim.Native.String.{◌++◌}

-- `version`, an item of the list.
pub record Item : Type 0 where
  pub version : Version
  pub chosen : Bool

-- `newDelegateKeyMap` and `newListKeyMap`
abbrev pub choose_key : String
choose_key = " "

abbrev pub toggle_pagination_key : String
toggle_pagination_key = "P"

abbrev pub toggle_help_key : String
toggle_help_key = "H"

abbrev pub finish_key : String
finish_key = "enter"

unfoldable pub title : Item → String
title v = (if v.chosen then "[x] " else "[ ] ") ++ v.version.message

unfoldable pub toggle : Item → Item
toggle v = record v { chosen = not v.chosen }

-- The toggle of the selected item; without one, the type assertion on a nil interface panics.
unfoldable pub toggle_at : ℕ → List Item → Option (List Item)
unfolding toggle
toggle_at n [] = none
toggle_at zero (v ∷ vs) = some (toggle v ∷ vs)
toggle_at (suc n) (v ∷ vs) = elim (toggle_at n vs) [ none ↦ none | some ws ↦ some (v ∷ ws) ]

abbrev pub toggle_selected : Option ℕ → List Item → Option (List Item)
toggle_selected none vs = none
toggle_selected (some n) vs = toggle_at n vs

-- `HasChosen`
unfoldable pub has_chosen : List Item → Bool
has_chosen vs = any (λ v. v.chosen) vs

-- The loop at the end of `ChooseVersionsWithSelected`.
unfoldable pub chosen_hashes : List Item → List String
chosen_hashes [] = []
chosen_hashes (v ∷ vs) =
    let rest = chosen_hashes vs in if v.chosen then v.version.hash ∷ rest else rest

-- The items of a manifest: the versions from the newest, chosen if they are equal to a selected one.
unfoldable pub item_of : List Version → Version → Item
item_of selected v = record { version = v; chosen = any (λ s. equal v s) selected }

unfoldable pub items_of : List Version → List Version → List Item
unfolding item_of
items_of selected versions = map (item_of selected) (reverse versions)

module _ (widget : ListWidget) where
  open widget use {
    State, new_list, filtering, set_size, show_pagination, set_show_pagination, show_help,
    set_show_help, selected, update, frame_size,
  }

  -- `viewModel`; its list and its choices share the items.
  pub record ViewModel : Type 0 where
    pub list : State
    pub choices : List Item
    pub required : Bool

  unfoldable pub new_model : String → Manifest → Bool → List Version → ViewModel
  unfolding items_of
  new_model text manifest required selected = record {
    list = new_list text (length manifest.versions);
    choices = items_of selected manifest.versions;
    required = required;
  }

  -- The delegate's `UpdateFunc`, for every call that the list makes of it.
  unfoldable pub delegate_update : Msg → State → List Item → Option (List Item)
  unfolding toggle_at
  delegate_update (key k) list vs =
      if k == choose_key then toggle_selected (selected list) vs else some vs
  delegate_update (window_size w h) list vs = some vs
  delegate_update other list vs = some vs

  unfoldable pub delegate_calls : Msg → List State → List Item → Option (List Item)
  unfolding delegate_update
  delegate_calls msg [] vs = some vs
  delegate_calls msg (l ∷ ls) vs = elim (delegate_update msg l vs) [
    | none ↦ none
    | some ws ↦ delegate_calls msg ls ws
  ]

  -- The end of `Update`: the list takes the message.
  abbrev pub with_choices : Option (List Item) → State → ViewModel → Option (ViewModel × Cmd)
  with_choices none list m = none
  with_choices (some vs) list m = some (record m { list = list; choices = vs }, widget_cmd)

  unfoldable pub update_list : Msg → ViewModel → Option (ViewModel × Cmd)
  unfolding delegate_calls
  update_list msg m =
      let (list, calls) = update msg m.list in
      with_choices (delegate_calls msg calls m.choices) list m

  -- The keys that `Update` takes itself, unless a filter is being typed.
  unfoldable pub update_key : String → ViewModel → Option (ViewModel × Cmd)
  unfolding update_list has_chosen
  update_key k m =
      if k == toggle_pagination_key
      then some
          (record m { list = set_show_pagination (not (show_pagination m.list)) m.list }, no_cmd)
      else (if k == toggle_help_key
          then some (record m { list = set_show_help (not (show_help m.list)) m.list }, no_cmd)
          else (if k == finish_key
              then some (
                m,
                if m.required && not (has_chosen m.choices)
                    then status_message "You must select at least one version!"
                    else quit,
              )
              else update_list (key k) m))

  -- `Update`; a panic is `none`.
  unfoldable pub update_model : Msg → ViewModel → Option (ViewModel × Cmd)
  unfolding update_list update_key
  update_model (window_size width height) m =
      let (h, v) = frame_size in
      update_list (window_size width height) (record m {
        list =
            set_size (record { from = width; less = h }) (record { from = height; less = v })
              m.list;
      })
  update_model (key k) m = if filtering m.list then update_list (key k) m else update_key k m
  update_model other m = update_list other m

  -- The program reads messages until the model quits.
  unfoldable pub run_view : List Msg → ViewModel → Run ViewModel
  unfolding update_model
  run_view [] m = waiting m
  run_view (msg ∷ msgs) m = elim (update_model msg m) [
    | none ↦ panicked
    | some (m', quit) ↦ quitted m'
    | some (m', no_cmd) ↦ run_view msgs m'
    | some (m', widget_cmd) ↦ run_view msgs m'
    | some (m', status_message s) ↦ run_view msgs m'
  ]
