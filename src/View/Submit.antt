-- ===== src/View/Submit.antt =====
-- A user who fills in and submits the form of sdk/credentials.go.
use dorothy.Base.{ℕ, String, ◌≡◌, refl, ap, ◌∙◌, true, false, List, [], ◌∷◌}
use dorothy.Outcome.{ok}
use dorothy.View.{Msg, key, Cmd, widget_cmd, TextInput, quitted, is_quit}
use dorothy.View.Form.{
  Field, Form, new_form, update_inputs, moved, focus_at, move, update_form, run_form, credentials,
}
use dorothy.View.Focus.{TextInputLaws}
use dorothy.View.Lost.{IsTyped}

-- Keys that are pressed before other messages, and keys that are typed.
abbrev pub pressed : List String → List Msg → List Msg
pressed [] msgs = msgs
pressed (k ∷ ks) msgs = key k ∷ pressed ks msgs

module _ (widget : TextInput) (laws : TextInputLaws widget) where
  open widget use {State, new_input, focus, blur, focused, update, value}

  abbrev pub AllTyped : List String → Type 0
  AllTyped [] = Unit
  AllTyped (k ∷ ks) = IsTyped widget laws k × AllTyped ks

  -- An input that gets one key after the other.
  abbrev pub typing : State → List String → State
  typing s [] = s
  typing s (k ∷ ks) = typing (update (key k) s) ks

  update_typed :
      (k : String) (m : Form widget)
      → IsTyped widget laws k
      → update_form widget (key k) m
        ≡ (record m { inputs = update_inputs widget (key k) m.inputs }, widget_cmd)
  unfolding update_form
  update_typed k m (stays, still) = rw (update_form, stays, still) refl

  run_typed :
      (k : String) (msgs : List Msg) (m : Form widget)
      → IsTyped widget laws k
      → run_form widget (key k ∷ msgs) m
        ≡ run_form widget msgs (record m { inputs = update_inputs widget (key k) m.inputs })
  unfolding run_form
  run_typed k msgs m h =
      ap
        (λ (y : Form widget × Cmd). elim (is_quit y.1) [
          | true ↦ quitted y.0
          | false ↦ run_form widget msgs y.0
        ])
        (update_typed k m h)

  abbrev form : ℕ → Field widget → Field widget → Form widget
  form i f g = record { focus_index = i; inputs = f ∷ g ∷ []; submitted = false }

  -- Keys reach the input that has the focus, and no other.
  run_first :
      (ks : List String) (msgs : List Msg) (i : ℕ) (f g : Field widget)
      → AllTyped ks
      → focused g.input ≡ false
      → run_form widget (pressed ks msgs) (form i f g)
        ≡ run_form widget msgs (form i (record f { input = typing f.input ks }) g)
  unfolding update_inputs
  run_first [] msgs i f g typed away = refl
  run_first (k ∷ ks) msgs i f g (here, later) away =
      run_typed k (pressed ks msgs) (form i f g) here
      ∙ ap
          (λ (s : State).
            run_form widget (pressed ks msgs)
              (form i (record f { input = update (key k) f.input }) (record g { input = s })))
          (laws.update_ignored (key k) g.input away)
      ∙ run_first ks msgs i (record f { input = update (key k) f.input }) g later away

  run_second :
      (ks : List String) (msgs : List Msg) (i : ℕ) (f g : Field widget)
      → AllTyped ks
      → focused f.input ≡ false
      → run_form widget (pressed ks msgs) (form i f g)
        ≡ run_form widget msgs (form i f (record g { input = typing g.input ks }))
  unfolding update_inputs
  run_second [] msgs i f g typed away = refl
  run_second (k ∷ ks) msgs i f g (here, later) away =
      run_typed k (pressed ks msgs) (form i f g) here
      ∙ ap
          (λ (s : State).
            run_form widget (pressed ks msgs)
              (form i (record f { input = s }) (record g { input = update (key k) g.input })))
          (laws.update_ignored (key k) f.input away)
      ∙ run_second ks msgs i f (record g { input = update (key k) g.input }) later away

  -- Enter goes from the first input to the second, and submits from the second.
  enter_first :
      (msgs : List Msg) (f g : Field widget)
      → run_form widget (key "enter" ∷ msgs) (form 0 f g)
        ≡ run_form widget msgs (
            form 1
              (record f { lit = false; input = blur f.input })
              (record g { lit = true; input = focus g.input }))
  unfolding run_form update_form move moved focus_at
  enter_first msgs f g = refl

  enter_second :
      (f g : Field widget)
      → run_form widget (key "enter" ∷ []) (form 1 f g)
        ≡ quitted (record (form 1 f g) { submitted = true })
  unfolding run_form update_form
  enter_second f g = refl

  -- A user who types an address, presses enter, types a password and presses enter submits what was
  -- typed: the form quits, and its credentials are what the two inputs make of the keys.
  pub credentials-run_form :
      (address password : List String)
      → AllTyped address
      → AllTyped password
      → (m : Form widget) × (run_form widget
            (pressed address (key "enter" ∷ pressed password (key "enter" ∷ [])))
            (new_form widget)
          ≡ quitted m)
        × (credentials widget m
            ≡ ok (record {
              email = value (typing (focus new_input) address);
              password = value (typing (focus new_input) password);
            }))
  unfolding new_form credentials
  credentials-run_form address password typed hidden =
      let email : Field widget = record {
        prompt = "Email: ";
        hidden = false;
        lit = true;
        input = focus new_input;
      } in
      let secret : Field widget = record {
        prompt = "Password: ";
        hidden = true;
        lit = false;
        input = new_input;
      } in
      let filled : Field widget = record email { input = typing email.input address } in
      let left : Field widget = record filled { lit = false; input = blur filled.input } in
      let entered : Field widget = record secret { lit = true; input = focus new_input } in
      let done_it : Field widget = record entered { input = typing entered.input password } in
      (
        record (form 1 left done_it) { submitted = true },
        run_first address (key "enter" ∷ pressed password (key "enter" ∷ [])) 0 email secret typed
              laws.new_blurred
            ∙ enter_first (pressed password (key "enter" ∷ [])) filled secret
            ∙ run_second password (key "enter" ∷ []) 1 left entered hidden
                (laws.blur_blurs filled.input)
            ∙ enter_second left done_it,
        ap (λ (x : String). ok (record { email = x; password = value done_it.input }))
            (laws.blur_value filled.input),
      )
