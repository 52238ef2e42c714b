-- ===== src/View/Form.antt =====
-- sdk/credentials.go: the form in which a user enters an email address and a password.
use dorothy.Base.{
  ℕ, zero, suc, String, Bool, true, false, not, ◌&&◌, ◌||◌, List, [], ◌∷◌, length, ◌==◌, eqb, leb,
  if◌then◌else◌,
}
use dorothy.Outcome.{Reply, ok, err}
use dorothy.Sdk.{UserLogin}
use dorothy.View.{
  Msg, window_size, key, other, Cmd, quit, widget_cmd, TextInput, Run, quitted, waiting, is_quit,
}

-- The keys that leave the form, and those that go from input to input.
abbrev pub is_leaving : String → Bool
is_leaving k = k == "ctrl+c" || k == "esc"

abbrev pub is_backward : String → Bool
is_backward k = k == "up" || k == "shift+tab"

abbrev pub is_moving : String → Bool
is_moving k = k == "tab" || k == "shift+tab" || k == "enter" || k == "up" || k == "down"

-- `focusIndex` after a move among `n` inputs: an index below 0 becomes `n`.
unfoldable pub moved : Bool → ℕ → ℕ → ℕ
moved true zero n = n
moved true (suc i) n = if leb n i then 0 else i
moved false i n = if leb n (suc i) then 0 else suc i

module _ (widget : TextInput) where
  open widget use {State, new_input, focus, blur, update, value}

  -- An input: its prompt, whether it hides what is typed, whether its styles are those of the focused
  -- one, and its state.
  pub record Field : Type 0 where
    pub prompt : String
    pub hidden : Bool
    pub lit : Bool
    pub input : State

  -- `model`
  pub record Form : Type 0 where
    pub focus_index : ℕ
    pub inputs : List Field
    pub submitted : Bool

  unfoldable pub new_form : Form
  new_form = record {
    focus_index = 0;
    inputs =
        record { prompt = "Email: "; hidden = false; lit = true; input = focus new_input }
        ∷ record { prompt = "Password: "; hidden = true; lit = false; input = new_input }
        ∷ [];
    submitted = false;
  }

  -- The loop that focuses one input and blurs the others; `i` is the index of the first.
  unfoldable pub focus_at : ℕ → ℕ → List Field → List Field
  focus_at target i [] = []
  focus_at target i (f ∷ fs) =
      let rest = focus_at target (suc i) fs in
      if eqb i target
      then record f { lit = true; input = focus f.input } ∷ rest
      else record f { lit = false; input = blur f.input } ∷ rest

  -- `updateInputs`
  unfoldable pub update_inputs : Msg → List Field → List Field
  update_inputs msg [] = []
  update_inputs msg (f ∷ fs) = record f { input = update msg f.input } ∷ update_inputs msg fs

  unfoldable pub move : Bool → Form → Form
  unfolding moved focus_at
  move back m =
      let target = moved back m.focus_index (length m.inputs) in
      record m { focus_index = target; inputs = focus_at target 0 m.inputs }

  unfoldable pub update_form : Msg → Form → Form × Cmd
  unfolding move update_inputs
  update_form (key k) m =
      if is_leaving k
      then (m, quit)
      else (if not (is_moving k)
          then (record m { inputs = update_inputs (key k) m.inputs }, widget_cmd)
          else (if k == "enter" && eqb (suc m.focus_index) (length m.inputs)
              then (record m { submitted = true }, quit)
              else (move (is_backward k) m, widget_cmd)))
  update_form (window_size w h) m =
      (record m { inputs = update_inputs (window_size w h) m.inputs }, widget_cmd)
  update_form other m = (record m { inputs = update_inputs other m.inputs }, widget_cmd)

  unfoldable pub run_form : List Msg → Form → Run Form
  unfolding update_form
  run_form [] m = waiting m
  run_form (msg ∷ msgs) m =
      let (m', c) = update_form msg m in
      elim (is_quit c) [ true ↦ quitted m' | false ↦ run_form msgs m' ]

  -- What `DefaultGetCredentials` makes of the model that the program ends with.
  abbrev pub login_of : List Field → Reply UserLogin
  login_of (email ∷ password ∷ fs) =
      ok (record { email = value email.input; password = value password.input })
  login_of fs = err "index out of range"

  unfoldable pub credentials : Form → Reply UserLogin
  credentials m = if m.submitted then login_of m.inputs else err "no credentials provided"
