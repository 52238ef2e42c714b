-- ===== src/View/Samples.antt =====
-- Widgets that are as simple as can be: a list whose first item is selected, and an input whose value
-- is what was typed.
use Prim.Native.String.{◌++◌}
use dorothy.Base.{◌≡◌, refl, String, Bool, true, false, [], ◌∷◌, some}
use dorothy.View.{Msg, window_size, key, other, ListWidget, TextInput}
use dorothy.View.Focus.{TextInputLaws}

abbrev pub sample_list : ListWidget
sample_list = record {
  State = Unit {0};
  new_list = λ title n. tt;
  filtering = λ s. false;
  set_size = λ w h s. s;
  show_pagination = λ s. true;
  set_show_pagination = λ b s. s;
  show_help = λ s. true;
  set_show_help = λ b s. s;
  selected = λ s. some 0;
  update = λ msg s. (s, s ∷ []);
  frame_size = (4, 2);
}

pub record Input : Type 0 where
  pub active : Bool
  pub text : String

abbrev typed : Msg → String → String
typed (key k) text = text ++ k
typed (window_size w h) text = text
typed other text = text

abbrev taken : Msg → Bool → String → Input
taken msg true text = record { active = true; text = typed msg text }
taken msg false text = record { active = false; text = text }

abbrev pub sample_input : TextInput
sample_input = record {
  State = Input;
  new_input = record { active = false; text = "" };
  focus = λ i. record i { active = true };
  blur = λ i. record i { active = false };
  focused = λ i. i.active;
  update = λ msg i. taken msg i.active i.text;
  value = λ i. i.text;
}

taken-active : (msg : Msg) (b : Bool) (text : String) → (taken msg b text).active ≡ b
taken-active msg true text = refl
taken-active msg false text = refl

taken-ignored :
    (msg : Msg) (b : Bool) (text : String)
    → b ≡ false
    → taken msg b text ≡ record { active = b; text = text }
taken-ignored msg true text e = cc
taken-ignored msg false text e = refl

pub sample_input-TextInputLaws : TextInputLaws sample_input
sample_input-TextInputLaws = record {
  new_blurred = refl;
  focus_focuses = λ i. refl;
  blur_blurs = λ i. refl;
  blur_value = λ i. refl;
  update_keeps = λ msg i. taken-active msg i.active i.text;
  update_ignored = λ msg i. taken-ignored msg i.active i.text;
}
