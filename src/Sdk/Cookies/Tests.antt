-- ===== src/Sdk/Cookies/Tests.antt =====
-- Cookies of a client whose state is its jar and its only file, which has room for one cookie.
use dorothy.Base.{String, ◌≡◌, refl, sym, ap, ◌∙◌, Option, none, some, List, [], ◌∷◌}
use dorothy.Outcome.{Reply, ok, err}
use dorothy.Sdk.Cookies.{
  CookieFiles, CookieLaws, save_cookies, read_cookies, cleanup, read_cookies-save_cookies,
}

record Disk : Type 0 where
  jar : List String
  file : Option String

abbrev write : List String → Disk → Reply (Unit {0}) × Disk
write [] w = (err "nothing to write", w)
write (c ∷ []) w = (ok tt, record w { file = some c })
write (c ∷ d ∷ cs) w = (err "no space", w)

abbrev os : CookieFiles Disk
os = record {
  cookies = λ w. w.jar;
  set_cookies = λ cs w. record w { jar = cs };
  open_file = λ name w. w.file;
  decode_cookies = λ text. ok (text ∷ []);
  create = λ name w. (ok tt, w);
  encode_to = λ name cs w. write cs w;
  chmod = λ name w. (ok tt, w);
  remove = λ name w. record w { file = none };
}

abbrev Holds : Disk → String → List String → Type 0
Holds w name cs = (c : String) × (cs ≡ c ∷ []) × (w.file ≡ some c)

write-Holds : (cs : List String) (w w' : Disk) → write cs w ≡ (ok tt, w') → Holds w' "cookies" cs
write-Holds [] w w' e = cc
write-Holds (c ∷ []) w w' e = (c, refl, sym (ap (λ (y : Reply (Unit {0}) × Disk). y.1.file) e))
write-Holds (c ∷ d ∷ cs) w w' e = cc

-- A jar of one cookie has no name twice.
abbrev Apart : List String → Type 0
Apart cs = (c : String) × (cs ≡ c ∷ [])

laws : CookieLaws os Holds Apart
laws = record {
  encode_holds = λ name cs w w' e. write-Holds cs w w' e;
  chmod_holds = λ name cs w w' (c, same, filed) e.
      (c, same, ap (λ (y : Reply (Unit {0}) × Disk). y.1.file) (sym e) ∙ filed);
  open_holds = λ name cs w (c, same, filed). (c, filed, ap (λ (x : List String). ok x) (sym same));
  set_get = λ cs w apart empty. refl;
  chmod_jar = λ name w. refl;
  remove_jar = λ name w. refl;
}

abbrev logged_in : Disk
logged_in = record { jar = "jwt=token" ∷ []; file = none }

abbrev saved : Disk
saved = record { jar = "jwt=token" ∷ []; file = some "jwt=token" }

abbrev fresh : Disk
fresh = record { jar = []; file = some "jwt=token" }

saving : save_cookies os "cookies" logged_in ≡ (none, saved)
unfolding save_cookies cleanup
saving = refl

read_cookies-save_cookies_example :
    (save_cookies os "cookies" logged_in ≡ (none, saved))
    × ((read_cookies os "cookies" fresh).0 ≡ none)
    × ((read_cookies os "cookies" fresh).1.jar ≡ "jwt=token" ∷ [])
read_cookies-save_cookies_example =
    read_cookies-save_cookies os Holds Apart laws "cookies" logged_in logged_in saved saved refl
      ("jwt=token", refl) refl refl refl fresh refl (λ cs held. held)
