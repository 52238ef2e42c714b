-- ===== src/View/Tests.antt =====
-- Runs of the views, and instances of the theorems about them.
use mathlib.Core.List.{mem-singleton}
use dorothy.Base.{
  ◌≡◌, ◌≢◌, refl, sym, subst, String-set, inl, inr, String, true, false, [], ◌∷◌, Mem, map, select,
  any,
}
use dorothy.Version.{Version, equal, same_hash, same_parents, same_elements}
use dorothy.Manifest.Samples.{manifest, first, second}
use dorothy.View.{key, quitted, waiting}
use dorothy.View.Versions.{
  ViewModel, new_model, run_view, chosen_hashes, items_of, item_of, toggle, toggle_at, has_chosen,
  delegate_update, delegate_calls, update_list, update_key, update_model,
}
use dorothy.View.Choice.{run_view_sound}
use dorothy.Outcome.{ok}
use dorothy.View.Submit.{pressed, credentials-run_form}
use dorothy.View.Form.{
  Form, new_form, credentials, run_form, update_form, move, moved, focus_at, update_inputs,
}
use dorothy.View.Focus.{IsFocused, new_form-run_form, values}
use dorothy.View.Lost.{back_loses_keys, IsTyped}
use dorothy.View.Samples.{sample_list, sample_input, sample_input-TextInputLaws}

program : Unit {0}
unfolding new_model run_view chosen_hashes items_of item_of toggle toggle_at has_chosen
    delegate_update delegate_calls update_list update_key update_model any select equal same_hash
    same_parents same_elements new_form run_form update_form move moved focus_at update_inputs
program = tt

abbrev chosen : ViewModel sample_list
chosen = record {
  list = tt;
  choices =
      record { version = second; chosen = true } ∷ record { version = first; chosen = false } ∷ [];
  required = true;
}

choosing :
    run_view sample_list
      (key "enter" ∷ key " " ∷ key "enter" ∷ [])
      (new_model sample_list "Parents" (manifest (first ∷ second ∷ [])) true [])
    ≡ quitted chosen
unfolding program
choosing = refl

run_view_sound_example :
    ((hash : String)
      → Mem hash (chosen_hashes chosen.choices)
      → ∥ ((v : Version) × Mem v (first ∷ second ∷ []) × (v.hash ≡ hash)) ∥₁)
    × (true ≡ true → chosen_hashes chosen.choices ≢ [])
run_view_sound_example =
    run_view_sound sample_list "Parents" (manifest (first ∷ second ∷ [])) true []
      (key "enter" ∷ key " " ∷ key "enter" ∷ []) chosen choosing

abbrev filled : Form sample_input
filled = record {
  focus_index = 1;
  inputs =
      record {
        prompt = "Email: ";
        hidden = false;
        lit = false;
        input = record { active = false; text = "d" };
      }
      ∷ record {
        prompt = "Password: ";
        hidden = true;
        lit = true;
        input = record { active = true; text = "s" };
      }
      ∷ [];
  submitted = true;
}

filling :
    run_form sample_input (key "d" ∷ key "tab" ∷ key "s" ∷ key "enter" ∷ []) (new_form sample_input)
    ≡ quitted filled
unfolding program
filling = refl

new_form-run_form_example : IsFocused sample_input filled
new_form-run_form_example =
    new_form-run_form sample_input sample_input-TextInputLaws
      (key "d" ∷ key "tab" ∷ key "s" ∷ key "enter" ∷ []) filled (inl filling)

abbrev empty_form : Form sample_input
empty_form = record {
  focus_index = 0;
  inputs =
      record {
        prompt = "Email: ";
        hidden = false;
        lit = true;
        input = record { active = true; text = "" };
      }
      ∷ record {
        prompt = "Password: ";
        hidden = true;
        lit = false;
        input = record { active = false; text = "" };
      }
      ∷ [];
  submitted = false;
}

waiting_form : run_form sample_input [] (new_form sample_input) ≡ waiting empty_form
unfolding program
waiting_form = refl

only_d : (k : String) → Mem k ("d" ∷ []) → IsTyped sample_input sample_input-TextInputLaws k
only_d k m =
    subst (λ j. IsTyped sample_input sample_input-TextInputLaws j)
      (sym ((mem-singleton String-set).0 m)) (refl, refl)

back_loses_keys_example :
    (m : Form sample_input) × (run_form sample_input
        (key "shift+tab" ∷ map key ("d" ∷ []))
        empty_form
      ≡ waiting m)
    × (values sample_input m.inputs ≡ values sample_input empty_form.inputs)
back_loses_keys_example =
    back_loses_keys sample_input sample_input-TextInputLaws ("d" ∷ []) empty_form
      (new_form-run_form sample_input sample_input-TextInputLaws [] empty_form (inr waiting_form))
      refl only_d

-- An address of two keys and a password of one.
credentials-run_form_example :
    (m : Form sample_input) × (run_form sample_input
        (pressed ("d" ∷ "@" ∷ []) (key "enter" ∷ pressed ("s" ∷ []) (key "enter" ∷ [])))
        (new_form sample_input)
      ≡ quitted m)
    × (credentials sample_input m ≡ ok (record { email = "d@"; password = "s" }))
credentials-run_form_example =
    credentials-run_form sample_input sample_input-TextInputLaws ("d" ∷ "@" ∷ []) ("s" ∷ [])
      ((refl, refl), ((refl, refl), tt)) ((refl, refl), tt)
