-- ===== src/View/Lost.antt =====
-- What the form of sdk/credentials.go loses while no input has the focus.
use mathlib.Core.List.{mem-cons_self, mem-cons_of_mem}
use dorothy.Base.{
  suc, String, ◌≡◌, refl, ap, ap₂, ◌∙◌, Bool, true, false, not, ◌&&◌, List, [], ◌∷◌, Mem, map,
  length, ◌==◌, eqb, if◌then◌else◌,
}
use dorothy.View.{Msg, key, Cmd, quit, widget_cmd, TextInput, quitted, waiting, is_quit}
use dorothy.View.Form.{
  is_leaving, is_backward, is_moving, moved, Field, Form, focus_at, update_inputs, move,
  update_form, run_form,
}
use dorothy.View.Focus.{TextInputLaws, IsFocused, flags, values, length-flags, move-IsFocused}

module _ (widget : TextInput) where
  open widget use {State, focus, blur, focused, update, value}

  module _ (laws : TextInputLaws widget) where
    -- A key that is typed.
    abbrev pub IsTyped : String → Type 0
    IsTyped k = (is_leaving k ≡ false) × (is_moving k ≡ false)

    update_inputs_blurred :
        (msg : Msg) (fs : List (Field widget))
        → flags widget fs ≡ false ∷ false ∷ []
        → update_inputs widget msg fs ≡ fs
    unfolding update_inputs
    update_inputs_blurred msg [] e = refl
    update_inputs_blurred msg (f ∷ []) e = cc
    update_inputs_blurred msg (f ∷ g ∷ []) e =
        ap₂ (λ x y. record f { input = x } ∷ record g { input = y } ∷ [])
          (laws.update_ignored msg f.input cc) (laws.update_ignored msg g.input cc)
    update_inputs_blurred msg (f ∷ g ∷ h ∷ fs) e = cc

    typed-update_form :
        (k : String) (m : Form widget)
        → flags widget m.inputs ≡ false ∷ false ∷ []
        → IsTyped k
        → update_form widget (key k) m ≡ (m, widget_cmd)
    unfolding update_form
    typed-update_form k m e (stays, still) = go (is_leaving k) (is_moving k) stays still
      where
        go :
            (leaving moving : Bool)
            → leaving ≡ false
            → moving ≡ false
            → Path
                (Form widget × Cmd)
                (if leaving
                  then (m, quit)
                  else (if not moving
                      then (record m { inputs = update_inputs widget (key k) m.inputs }, widget_cmd)
                      else (if k == "enter" && eqb (suc m.focus_index) (length m.inputs)
                          then (record m { submitted = true }, quit)
                          else (move widget (is_backward k) m, widget_cmd))))
                (m, widget_cmd)
        go true moving a b = cc
        go false true a b = cc
        go false false a b =
            ap (λ fs. (record m { inputs = fs }, widget_cmd))
              (update_inputs_blurred (key k) m.inputs e)

    typed_blurred :
        (ks : List String) (m : Form widget)
        → flags widget m.inputs ≡ false ∷ false ∷ []
        → ((k : String) → Mem k ks → IsTyped k)
        → run_form widget (map key ks) m ≡ waiting m
    unfolding run_form
    typed_blurred [] m e typed = refl
    typed_blurred (k ∷ ks) m e typed =
        ap
          (λ (p : Form widget × Cmd). elim (is_quit p.1) [
            | true ↦ quitted p.0
            | false ↦ run_form widget (map key ks) p.0
          ])
          (typed-update_form k m e (typed k mem-cons_self))
        ∙ (typed_blurred ks m e λ j mj. typed j (mem-cons_of_mem k mj))

    values-focus_at :
        (fs : List (Field widget)) (a b : Bool)
        → flags widget fs ≡ a ∷ b ∷ []
        → values widget (focus_at widget 2 0 fs) ≡ values widget fs
    unfolding focus_at
    values-focus_at [] a b e = cc
    values-focus_at (f ∷ []) a b e = cc
    values-focus_at (f ∷ g ∷ []) a b e =
        ap₂ (λ x y. x ∷ y ∷ []) (laws.blur_value f.input) (laws.blur_value g.input)
    values-focus_at (f ∷ g ∷ h ∷ fs) a b e = cc

    -- Going back from the first input leaves the form without a focus: whatever is typed then is lost.
    pub back_loses_keys :
        (ks : List String) (m : Form widget)
        → IsFocused widget m
        → m.focus_index ≡ 0
        → ((k : String) → Mem k ks → IsTyped k)
        → (m' : Form widget) × (run_form widget (key "shift+tab" ∷ map key ks) m ≡ waiting m')
          × (values widget m'.inputs ≡ values widget m.inputs)
    unfolding run_form update_form move moved
    back_loses_keys ks m f zeroth typed =
        let two = length-flags widget laws m.inputs _ _ f.focus in
        let index : moved true m.focus_index (length m.inputs) ≡ 2 = rw (zeroth, two) refl in
        (
          move widget true m,
          typed_blurred ks (move widget true m)
              ((move-IsFocused widget laws true m f).focus ∙ ap (λ i. eqb 0 i ∷ eqb 1 i ∷ []) index)
              typed,
          rw index (values-focus_at m.inputs _ _ f.focus),
        )
