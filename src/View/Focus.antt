-- ===== src/View/Focus.antt =====
-- Which input of the form of sdk/credentials.go has the focus.
use dorothy.Base.{
  ℕ, zero, suc, String, ◌≤◌, ◌≡◌, refl, ap, ap₂, ◌∙◌, subst, ◌⊎◌, inl, inr, Bool, true, false, not,
  ◌&&◌, List, [], ◌∷◌, map, length, ◌==◌, eqb, if◌then◌else◌, arith,
}
use dorothy.View.{
  Msg, window_size, key, other, Cmd, quit, widget_cmd, TextInput, quitted, waiting, is_quit,
}
use dorothy.View.Form.{
  is_leaving, is_backward, is_moving, moved, Field, Form, new_form, focus_at, update_inputs, move,
  update_form, run_form,
}

module _ (widget : TextInput) where
  open widget use {State, new_input, focus, blur, focused, update, value}

  -- The documented behaviour of a text input: only a focused one responds to messages.
  pub record TextInputLaws : Type 0 where
    pub new_blurred : focused new_input ≡ false
    pub focus_focuses : (i : State) → focused (focus i) ≡ true
    pub blur_blurs : (i : State) → focused (blur i) ≡ false
    pub blur_value : (i : State) → value (blur i) ≡ value i
    pub update_keeps : (msg : Msg) (i : State) → focused (update msg i) ≡ focused i
    pub update_ignored : (msg : Msg) (i : State) → focused i ≡ false → update msg i ≡ i

  abbrev pub flags : List (Field widget) → List Bool
  flags fs = map (λ (f : Field widget). focused f.input) fs

  abbrev pub values : List (Field widget) → List String
  values fs = map (λ (f : Field widget). value f.input) fs

  -- The focus index is at most 2, and the input at that index, if there is one, is the only one that
  -- has the focus.
  pub record IsFocused (m : Form widget) : Type 0 where
    pub bound : m.focus_index ≤ 2
    pub focus : flags m.inputs ≡ eqb 0 m.focus_index ∷ eqb 1 m.focus_index ∷ []

  moved_bound : (back : Bool) (i : ℕ) → moved back i 2 ≤ 2
  unfolding moved
  moved_bound true zero = ground arith
  moved_bound true (suc i) = ground arith
  moved_bound false i = ground arith

  module _ (laws : TextInputLaws) where
    flags-if :
        (b : Bool) (f : Field widget) (rest : List (Field widget))
        → flags (
            if b
            then record f { lit = true; input = focus f.input } ∷ rest
            else record f { lit = false; input = blur f.input } ∷ rest)
          ≡ b ∷ flags rest
    flags-if true f rest = ap (λ b. b ∷ flags rest) (laws.focus_focuses f.input)
    flags-if false f rest = ap (λ b. b ∷ flags rest) (laws.blur_blurs f.input)

    pub flags-focus_at :
        (target i : ℕ) (fs : List (Field widget)) (a b : Bool)
        → flags fs ≡ a ∷ b ∷ []
        → flags (focus_at widget target i fs) ≡ eqb i target ∷ eqb (suc i) target ∷ []
    unfolding focus_at
    flags-focus_at target i [] a b e = cc
    flags-focus_at target i (f ∷ []) a b e = cc
    flags-focus_at target i (f ∷ g ∷ []) a b e =
        flags-if (eqb i target) f (focus_at widget target (suc i) (g ∷ []))
        ∙ ap (λ bs. eqb i target ∷ bs) (flags-if (eqb (suc i) target) g [])
    flags-focus_at target i (f ∷ g ∷ k ∷ fs) a b e = cc

    pub flags-update_inputs :
        (msg : Msg) (fs : List (Field widget)) → flags (update_inputs widget msg fs) ≡ flags fs
    unfolding update_inputs
    flags-update_inputs msg [] = refl
    flags-update_inputs msg (f ∷ fs) =
        ap₂ (λ b bs. b ∷ bs) (laws.update_keeps msg f.input) (flags-update_inputs msg fs)

    pub length-flags :
        (fs : List (Field widget)) (a b : Bool) → flags fs ≡ a ∷ b ∷ [] → length fs ≡ 2
    length-flags [] a b e = cc
    length-flags (f ∷ []) a b e = cc
    length-flags (f ∷ g ∷ []) a b e = refl
    length-flags (f ∷ g ∷ k ∷ fs) a b e = cc

    pub move-IsFocused :
        (back : Bool) (m : Form widget) → IsFocused m → IsFocused (move widget back m)
    unfolding move
    move-IsFocused back m k =
        let two = length-flags m.inputs _ _ k.focus in
        record {
          bound = rw two (moved_bound back m.focus_index);
          focus =
              flags-focus_at (moved back m.focus_index (length m.inputs)) 0 m.inputs _ _ k.focus;
        }

    new_form-IsFocused : IsFocused (new_form widget)
    unfolding new_form
    new_form-IsFocused = record {
      bound = ground arith;
      focus = ap₂ (λ x y. x ∷ y ∷ []) (laws.focus_focuses new_input) laws.new_blurred;
    }

    update_form-IsFocused :
        (msg : Msg) (m : Form widget) → IsFocused m → IsFocused (update_form widget msg m).0
    unfolding update_form
    update_form-IsFocused (key k) m f =
        go (is_leaving k) (is_moving k) (k == "enter" && eqb (suc m.focus_index) (length m.inputs))
      where
        go :
            (leaving moving enter : Bool)
            → IsFocused
                (if◌then◌else◌ {A = Form widget × Cmd} leaving
                  (m, quit)
                  (if not moving
                    then (record m { inputs = update_inputs widget (key k) m.inputs }, widget_cmd)
                    else (if enter
                        then (record m { submitted = true }, quit)
                        else (move widget (is_backward k) m, widget_cmd)))).0
        go true moving enter = f
        go false false enter = record {
          bound = f.bound;
          focus = flags-update_inputs (key k) m.inputs ∙ f.focus;
        }
        go false true true = record { bound = f.bound; focus = f.focus }
        go false true false = move-IsFocused (is_backward k) m f
    update_form-IsFocused (window_size w h) m f = record {
      bound = f.bound;
      focus = flags-update_inputs _ m.inputs ∙ f.focus;
    }
    update_form-IsFocused other m f = record {
      bound = f.bound;
      focus = flags-update_inputs _ m.inputs ∙ f.focus;
    }

    run_form-IsFocused :
        (msgs : List Msg) (m m' : Form widget)
        → IsFocused m
        → (run_form widget msgs m ≡ quitted m') ⊎ (run_form widget msgs m ≡ waiting m')
        → IsFocused m'
    unfolding run_form
    run_form-IsFocused [] m m' f (inl e) = cc
    run_form-IsFocused [] m m' f (inr e) = let q : m ≡ m' = cc in subst IsFocused q f
    run_form-IsFocused (msg ∷ msgs) m m' f e =
        go (is_quit (update_form widget msg m).1)
          (run_form-IsFocused msgs (update_form widget msg m).0 m') e
      where
        next : IsFocused (update_form widget msg m).0
        next = update_form-IsFocused msg m f

        go :
            (b : Bool)
            → (IsFocused (update_form widget msg m).0
                → (run_form widget msgs (update_form widget msg m).0 ≡ quitted m')
                  ⊎ (run_form widget msgs (update_form widget msg m).0 ≡ waiting m')
                → IsFocused m')
            → ((elim b [
              | true ↦ quitted (update_form widget msg m).0
              | false ↦ run_form widget msgs (update_form widget msg m).0
            ])
                ≡ quitted m')
              ⊎ ((elim b [
                | true ↦ quitted (update_form widget msg m).0
                | false ↦ run_form widget msgs (update_form widget msg m).0
              ])
                  ≡ waiting m')
            → IsFocused m'
        go true ih (inl h) =
            let q : (update_form widget msg m).0 ≡ m' = cc in subst IsFocused q next
        go true ih (inr h) = cc
        go false ih h = ih next h

    -- However a user moves and types, at most one input of the form has the focus: the one at the focus
    -- index, which is at most 2, and none if it is 2.
    pub new_form-run_form :
        (msgs : List Msg) (m : Form widget)
        → (run_form widget msgs (new_form widget) ≡ quitted m)
          ⊎ (run_form widget msgs (new_form widget) ≡ waiting m)
        → IsFocused m
    new_form-run_form msgs m e = run_form-IsFocused msgs (new_form widget) m new_form-IsFocused e
