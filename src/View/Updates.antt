-- ===== src/View/Updates.antt =====
-- What a run of the view of core/versionlist.go leaves of its list.
use dorothy.Base.{
  ℕ, zero, suc, String, ◌≡◌, refl, sym, ap, ◌∙◌, subst, Bool, true, false, not, ◌&&◌, List, [], ◌∷◌,
  Option, none, some, some-injective, map, ◌==◌, if◌then◌else◌,
}
use dorothy.Version.{Version}
use dorothy.View.{
  Msg, window_size, key, other, Cmd, no_cmd, quit, widget_cmd, status_message, ListWidget, quitted,
  panicked,
}
use dorothy.View.Versions.{
  Item, toggle, toggle_at, toggle_selected, has_chosen, ViewModel, delegate_update, delegate_calls,
  with_choices, update_list, update_key, update_model, run_view,
}

abbrev pub versions_of : List Item → List Version
versions_of vs = map (λ (v : Item). v.version) vs

-- A choice changes no version, nor their order.
toggle_at_versions :
    (n : ℕ) (vs ws : List Item) → toggle_at n vs ≡ some ws → versions_of ws ≡ versions_of vs
unfolding toggle_at toggle
toggle_at_versions n [] ws e = cc
toggle_at_versions zero (v ∷ vs) ws e =
    let q : Path (List Item) (toggle v ∷ vs) ws = cc in
    subst (λ us. versions_of us ≡ versions_of (v ∷ vs)) q refl
toggle_at_versions (suc n) (v ∷ vs) ws e = go (toggle_at n vs) (toggle_at_versions n vs) refl e
  where
    go :
        (o : Option (List Item))
        → ((us : List Item) → toggle_at n vs ≡ some us → versions_of us ≡ versions_of vs)
        → toggle_at n vs ≡ o
        → (elim o [ none ↦ none | some us ↦ some (v ∷ us) ]) ≡ some ws
        → versions_of ws ≡ versions_of (v ∷ vs)
    go none ih h k = cc
    go (some us) ih h k =
        let q : Path (List Item) (v ∷ us) ws = cc in
        subst (λ us. versions_of us ≡ versions_of (v ∷ vs)) q
          (ap (λ rest. v.version ∷ rest) (ih us h))

module _ (widget : ListWidget) where
  open widget use {State, selected, filtering}

  delegate_update_versions :
      (msg : Msg) (l : State) (vs ws : List Item)
      → delegate_update widget msg l vs ≡ some ws
      → versions_of ws ≡ versions_of vs
  unfolding delegate_update
  delegate_update_versions (key k) l vs ws e = go (k == " ") (selected l) e
    where
      go :
          (b : Bool) (o : Option ℕ)
          → (if b then toggle_selected o vs else some vs) ≡ some ws
          → versions_of ws ≡ versions_of vs
      go true none h = cc
      go true (some n) h = toggle_at_versions n vs ws h
      go false o h = let q : Path (List Item) vs ws = cc in ap versions_of (sym q)
  delegate_update_versions (window_size w h) l vs ws e =
      let q : Path (List Item) vs ws = cc in ap versions_of (sym q)
  delegate_update_versions other l vs ws e =
      let q : Path (List Item) vs ws = cc in ap versions_of (sym q)

  delegate_calls_versions :
      (msg : Msg) (ls : List State) (vs ws : List Item)
      → delegate_calls widget msg ls vs ≡ some ws
      → versions_of ws ≡ versions_of vs
  unfolding delegate_calls
  delegate_calls_versions msg [] vs ws e =
      let q : Path (List Item) vs ws = cc in ap versions_of (sym q)
  delegate_calls_versions msg (l ∷ ls) vs ws e =
      go (delegate_update widget msg l vs) (λ us. delegate_calls_versions msg ls us ws) refl e
    where
      go :
          (o : Option (List Item))
          → ((us : List Item)
              → delegate_calls widget msg ls us ≡ some ws
              → versions_of ws ≡ versions_of us)
          → delegate_update widget msg l vs ≡ o
          → (elim o [ none ↦ none | some us ↦ delegate_calls widget msg ls us ]) ≡ some ws
          → versions_of ws ≡ versions_of vs
      go none ih h k = cc
      go (some us) ih h k = ih us k ∙ delegate_update_versions msg l vs us h

  -- What an update leaves: the versions and what is required, and a choice if it quits.
  pub record Updated (m m' : ViewModel widget) (c : Cmd) : Type 0 where
    pub versions : versions_of m'.choices ≡ versions_of m.choices
    pub required : m'.required ≡ m.required
    pub chosen : c ≡ quit → m'.required ≡ true → has_chosen m'.choices ≡ true

  update_list-Updated :
      (msg : Msg) (m m' : ViewModel widget) (c : Cmd)
      → update_list widget msg m ≡ some (m', c)
      → Updated m m' c
  unfolding update_list
  update_list-Updated msg m m' c e =
      go (delegate_calls widget msg (widget.update msg m.list).1 m.choices) refl e
    where
      go :
          (o : Option (List Item))
          → delegate_calls widget msg (widget.update msg m.list).1 m.choices ≡ o
          → with_choices widget o (widget.update msg m.list).0 m ≡ some (m', c)
          → Updated m m' c
      go none h k = cc
      go (some ws) h k =
          let q : record m { list = (widget.update msg m.list).0; choices = ws } ≡ m' = cc in
          let r : widget_cmd ≡ c = cc in
          record {
            versions =
                ap (λ (u : ViewModel widget). versions_of u.choices) (sym q)
                ∙ delegate_calls_versions msg (widget.update msg m.list).1 m.choices ws h;
            required = ap (λ (u : ViewModel widget). u.required) (sym q);
            chosen = λ t _. let s = r ∙ t in cc;
          }

  update_key-Updated :
      (k : String) (m m' : ViewModel widget) (c : Cmd)
      → update_key widget k m ≡ some (m', c)
      → Updated m m' c
  unfolding update_key
  update_key-Updated k m m' c e = go (k == "P") (k == "H") (k == "enter") e
    where
      finished :
          (b : Bool)
          → has_chosen m.choices ≡ b
          → (if m.required && not b
              then status_message "You must select at least one version!"
              else quit)
            ≡ c
          → c ≡ quit
          → m.required ≡ true
          → has_chosen m.choices ≡ true
      finished true h q f r = h
      finished false h q f r = let s = rw r at q in let t = s ∙ f in cc

      same :
          (u : ViewModel widget)
          → u ≡ m'
          → u.choices ≡ m.choices
          → u.required ≡ m.required
          → (c ≡ quit → m.required ≡ true → has_chosen m.choices ≡ true)
          → Updated m m' c
      same u q cs r f =
          subst (λ (x : ViewModel widget). Updated m x c) q
            (record {
              versions = ap versions_of cs;
              required = r;
              chosen = λ t h. ap has_chosen cs ∙ f t (sym r ∙ h);
            })

      go :
          (p h enter : Bool)
          → (if p
              then some (
                record m {
                  list = widget.set_show_pagination (not (widget.show_pagination m.list)) m.list;
                },
                no_cmd,
              )
              else (if h
                  then some (
                    record m { list = widget.set_show_help (not (widget.show_help m.list)) m.list },
                    no_cmd,
                  )
                  else (if enter
                      then some (
                        m,
                        if m.required && not (has_chosen m.choices)
                            then status_message "You must select at least one version!"
                            else quit,
                      )
                      else update_list widget (key k) m)))
            ≡ some (m', c)
          → Updated m m' c
      go true h enter x =
          let u = record m {
            list = widget.set_show_pagination (not (widget.show_pagination m.list)) m.list;
          } in
          let q = some-injective (u, no_cmd) (m', c) x in
          same u (ap (λ (y : ViewModel widget × Cmd). y.0) q) refl refl
            λ t. let r = ap (λ (y : ViewModel widget × Cmd). y.1) q ∙ t in cc
      go false true enter x =
          let u = record m { list = widget.set_show_help (not (widget.show_help m.list)) m.list } in
          let q = some-injective (u, no_cmd) (m', c) x in
          same u (ap (λ (y : ViewModel widget × Cmd). y.0) q) refl refl
            λ t. let r = ap (λ (y : ViewModel widget × Cmd). y.1) q ∙ t in cc
      go false false true x =
          let ends =
            if m.required && not (has_chosen m.choices)
            then status_message "You must select at least one version!"
            else quit in
          let q = some-injective (m, ends) (m', c) x in
          same m (ap (λ (y : ViewModel widget × Cmd). y.0) q) refl refl
            (finished (has_chosen m.choices) refl (ap (λ (y : ViewModel widget × Cmd). y.1) q))
      go false false false x = update_list-Updated (key k) m m' c x

  update_model-Updated :
      (msg : Msg) (m m' : ViewModel widget) (c : Cmd)
      → update_model widget msg m ≡ some (m', c)
      → Updated m m' c
  unfolding update_model
  update_model-Updated (window_size width height) m m' c e =
      let (h, v) = widget.frame_size in
      let u =
        update_list-Updated (window_size width height)
          (record m {
            list =
                widget.set_size (record { from = width; less = h })
                  (record { from = height; less = v }) m.list;
          })
          m' c e in
      record { versions = u.versions; required = u.required; chosen = u.chosen }
  update_model-Updated (key k) m m' c e = go (filtering m.list) e
    where
      go :
          (b : Bool)
          → (if b then update_list widget (key k) m else update_key widget k m) ≡ some (m', c)
          → Updated m m' c
      go true x = update_list-Updated (key k) m m' c x
      go false x = update_key-Updated k m m' c x
  update_model-Updated other m m' c e = update_list-Updated other m m' c e

  pub run_view-Updated :
      (msgs : List Msg) (m m' : ViewModel widget)
      → run_view widget msgs m ≡ quitted m'
      → Updated m m' quit
  unfolding run_view
  run_view-Updated [] m m' e = cc
  run_view-Updated (msg ∷ msgs) m m' e =
      go (update_model widget msg m) (λ n. run_view-Updated msgs n m') refl e
    where
      further :
          (n : ViewModel widget) (c : Cmd) → Updated m n c → Updated n m' quit → Updated m m' quit
      further n c u v = record {
        versions = v.versions ∙ u.versions;
        required = v.required ∙ u.required;
        chosen = v.chosen;
      }

      go :
          (o : Option (ViewModel widget × Cmd))
          → ((n : ViewModel widget) → run_view widget msgs n ≡ quitted m' → Updated n m' quit)
          → update_model widget msg m ≡ o
          → (elim o [
            | none ↦ panicked
            | some (n, quit) ↦ quitted n
            | some (n, no_cmd) ↦ run_view widget msgs n
            | some (n, widget_cmd) ↦ run_view widget msgs n
            | some (n, status_message s) ↦ run_view widget msgs n
          ])
            ≡ quitted m'
          → Updated m m' quit
      go none ih h k = cc
      go (some (n, quit)) ih h k =
          let q : n ≡ m' = cc in
          subst (λ (x : ViewModel widget). Updated m x quit) q (update_model-Updated msg m n quit h)
      go (some (n, no_cmd)) ih h k =
          further n no_cmd (update_model-Updated msg m n no_cmd h) (ih n k)
      go (some (n, widget_cmd)) ih h k =
          further n widget_cmd (update_model-Updated msg m n widget_cmd h) (ih n k)
      go (some (n, status_message s)) ih h k =
          further n (status_message s) (update_model-Updated msg m n (status_message s) h) (ih n k)
