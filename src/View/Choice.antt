-- ===== src/View/Choice.antt =====
-- What a user can choose in the list of core/versionlist.go.
use mathlib.Core.Logic.Or
use mathlib.Core.List.{mem-cons_self, mem-cons_of_mem, mem-cons, not-mem-nil, mem-reverse}
use dorothy.Base.{
  String, ◌≡◌, ◌≢◌, refl, sym, ap, ◌∙◌, subst, Bool, true, false, List, [], ◌∷◌, Mem, ∥∥₁_map,
  ∥∥₁_prop, any, select, reverse, map, if◌then◌else◌,
}
use dorothy.Version.{Version, equal}
use dorothy.Manifest.{Manifest}
use dorothy.View.{Msg, ListWidget, quitted}
use dorothy.View.Versions.{
  Item, has_chosen, chosen_hashes, item_of, items_of, ViewModel, new_model, run_view,
}
use dorothy.View.Updates.{versions_of, run_view-Updated}

mem-chosen_hashes :
    (vs : List Item) (hash : String)
    → Mem hash (chosen_hashes vs)
    → ∥ ((v : Version) × Mem v (versions_of vs) × (v.hash ≡ hash)) ∥₁
unfolding chosen_hashes
mem-chosen_hashes [] hash m = absurd (not-mem-nil m)
mem-chosen_hashes (v ∷ vs) hash m = go v.chosen (mem-chosen_hashes vs hash) m
  where
    later :
        ∥ ((u : Version) × Mem u (versions_of vs) × (u.hash ≡ hash)) ∥₁
        → ∥ ((u : Version) × Mem u (versions_of (v ∷ vs)) × (u.hash ≡ hash)) ∥₁
    later t = ∥∥₁_map t λ (u, mu, e). (u, mem-cons_of_mem v.version mu, e)

    go :
        (b : Bool)
        → (Mem hash (chosen_hashes vs)
            → ∥ ((u : Version) × Mem u (versions_of vs) × (u.hash ≡ hash)) ∥₁)
        → Mem hash (if b then v.version.hash ∷ chosen_hashes vs else chosen_hashes vs)
        → ∥ ((u : Version) × Mem u (versions_of (v ∷ vs)) × (u.hash ≡ hash)) ∥₁
    go true ih k =
        Or.elim ∥∥₁_prop (mem-cons.0 k) (λ e. ∣ (v.version, mem-cons_self, sym e) ∣₁)
          λ k. later (ih k)
    go false ih k = later (ih k)

has_chosen-chosen_hashes : (vs : List Item) → has_chosen vs ≡ true → chosen_hashes vs ≢ []
unfolding chosen_hashes has_chosen any
has_chosen-chosen_hashes [] h e = cc
has_chosen-chosen_hashes (v ∷ vs) h e = go v.chosen (has_chosen-chosen_hashes vs) h e
  where
    go :
        (b : Bool)
        → (has_chosen vs ≡ true → chosen_hashes vs ≢ [])
        → (if b then true else has_chosen vs) ≡ true
        → (if b then v.version.hash ∷ chosen_hashes vs else chosen_hashes vs) ≢ []
    go true ih h e = cc
    go false ih h e = ih h e

versions-items_of :
    (selected versions : List Version) → versions_of (items_of selected versions) ≡ reverse versions
unfolding items_of item_of
versions-items_of selected versions = go (reverse versions)
  where
    go : (vs : List Version) → versions_of (map (item_of selected) vs) ≡ vs
    go [] = refl
    go (v ∷ vs) = ap (λ us. v ∷ us) (go vs)

chosen_hashes-items_of :
    (selected vs : List Version)
    → chosen_hashes (map (item_of selected) vs)
      ≡ map (λ (v : Version). v.hash) (select (λ v. any (λ s. equal v s) selected) vs)
unfolding chosen_hashes item_of select
chosen_hashes-items_of selected [] = refl
chosen_hashes-items_of selected (v ∷ vs) =
    go (any (λ s. equal v s) selected) (chosen_hashes-items_of selected vs)
  where
    go :
        (b : Bool)
        → chosen_hashes (map (item_of selected) vs)
          ≡ map (λ (u : Version). u.hash) (select (λ u. any (λ s. equal u s) selected) vs)
        → (if b
            then v.hash ∷ chosen_hashes (map (item_of selected) vs)
            else chosen_hashes (map (item_of selected) vs))
          ≡ map
              (λ (u : Version). u.hash)
              (if b
                then v ∷ select (λ u. any (λ s. equal u s) selected) vs
                else select (λ u. any (λ s. equal u s) selected) vs)
    go true e = ap (λ hs. v.hash ∷ hs) e
    go false e = e

module _ (widget : ListWidget) where
  -- Whatever a user does, a view that quits answers with hashes of versions of the manifest only, and
  -- with at least one if a choice is required.
  pub run_view_sound :
      (text : String) (manifest : Manifest) (required : Bool) (selected : List Version)
      (msgs : List Msg) (m : ViewModel widget)
      → run_view widget msgs (new_model widget text manifest required selected) ≡ quitted m
      → ((hash : String)
          → Mem hash (chosen_hashes m.choices)
          → ∥ ((v : Version) × Mem v manifest.versions × (v.hash ≡ hash)) ∥₁)
        × (required ≡ true → chosen_hashes m.choices ≢ [])
  unfolding new_model
  run_view_sound text manifest required selected msgs m e =
      let u = run_view-Updated widget msgs (new_model widget text manifest required selected) m e in
      let vs = u.versions ∙ versions-items_of selected manifest.versions in
      (
        λ hash mh.
            ∥∥₁_map (mem-chosen_hashes m.choices hash mh)
              λ (v, mv, e). (v, mem-reverse.0 (subst (λ us. Mem v us) vs mv), e),
        λ r. has_chosen-chosen_hashes m.choices (u.chosen refl (u.required ∙ r)),
      )

  -- What is chosen when the view starts: the hashes of the versions that equal a selected one, from the
  -- newest to the oldest.
  pub chosen_hashes-new_model :
      (text : String) (manifest : Manifest) (required : Bool) (selected : List Version)
      → chosen_hashes (new_model widget text manifest required selected).choices
        ≡ map
            (λ (v : Version). v.hash)
            (select (λ v. any (λ s. equal v s) selected) (reverse manifest.versions))
  unfolding new_model items_of
  chosen_hashes-new_model text manifest required selected =
      chosen_hashes-items_of selected (reverse manifest.versions)
