-- ===== src/Sdk/Cookies.antt =====
-- sdk/client.go: `ReadCookies` and `WriteCookies` on the files of the operating system. They are what
-- the operations `read_cookie_file` and `write_cookie_file` of Http stand for.
mod Tests
use dorothy.Base.{
  String, ◌≡◌, refl, ap, ◌∙◌, Option, none, some, false, List, [], is_nil, if◌then◌else◌,
}
use dorothy.Outcome.{Reply, ok, err}

-- The cookie jar with its base URL, encoding/json and package os over the state `W`. `create` is
-- `os.OpenFile` with truncation, and `open_file` answers what `os.Open` makes readable.
pub record CookieFiles (W : Type 0) : Type 0 where
  pub cookies : W → List String
  pub set_cookies : List String → W → W
  pub open_file : String → W → Option String
  pub decode_cookies : String → Reply (List String)
  pub create : String → W → Reply (Unit {0}) × W
  pub encode_to : String → List String → W → Reply (Unit {0}) × W
  pub chmod : String → W → Reply (Unit {0}) × W
  pub remove : String → W → W

abbrev pub error_in : Reply (Unit {0}) → Option String
error_in (ok _) = none
error_in (err e) = some e

module _ {W : Type 0} (os : CookieFiles W) where
  open os use {cookies, set_cookies, open_file, decode_cookies, create, encode_to, chmod, remove}

  abbrev pub removed_unless : String → Reply (Unit {0}) × W → W
  removed_unless filename (ok _, w) = w
  removed_unless filename (err e, w) = remove filename w

  -- A file whose mode cannot be set is removed.
  unfoldable pub cleanup : String → W → W
  cleanup filename w = removed_unless filename (chmod filename w)

  abbrev pub decoded_into : String → Reply (List String) → W → Option String × W
  decoded_into filename (err e) w = (some e, cleanup filename w)
  decoded_into filename (ok cs) w = (none, cleanup filename (set_cookies cs w))

  abbrev pub opened : String → Option String → W → Option String × W
  opened filename none w = (none, cleanup filename w)
  opened filename (some text) w = decoded_into filename (decode_cookies text) w

  -- A file that cannot be opened is no error.
  unfoldable pub read_cookies : String → W → Option String × W
  unfolding cleanup
  read_cookies filename w = opened filename (open_file filename w) w

  abbrev pub encoded_into : String → Reply (Unit {0}) × W → Option String × W
  encoded_into filename (reply, w) = (error_in reply, cleanup filename w)

  abbrev pub created : String → List String → Reply (Unit {0}) × W → Option String × W
  created filename cs (err e, w) = (some e, cleanup filename w)
  created filename cs (ok _, w) = encoded_into filename (encode_to filename cs w)

  unfoldable pub save_cookies : String → W → Option String × W
  unfolding cleanup
  save_cookies filename w =
      if is_nil (cookies w) then (none, w) else created filename (cookies w) (create filename w)

  -- A file that was written is read back, also once its mode was set, where it could be set. The jar of
  -- a client does not depend on files, and an empty one has the cookies that it was given if those are
  -- `Apart`: no two of them have one name.
  pub record CookieLaws (Holds : W → String → List String → Type 0) (Apart : List String → Type 0)
      : Type 0 where
    pub encode_holds :
        (name : String) (cs : List String) (w w' : W)
        → encode_to name cs w ≡ (ok tt, w')
        → Holds w' name cs
    pub chmod_holds :
        (name : String) (cs : List String) (w w' : W)
        → Holds w name cs
        → chmod name w ≡ (ok tt, w')
        → Holds w' name cs
    pub open_holds :
        (name : String) (cs : List String) (w : W)
        → Holds w name cs
        → (text : String) × (open_file name w ≡ some text) × (decode_cookies text ≡ ok cs)
    pub set_get :
        (cs : List String) (w : W) → Apart cs → cookies w ≡ [] → cookies (set_cookies cs w) ≡ cs
    pub chmod_jar : (name : String) (w : W) → cookies (chmod name w).1 ≡ cookies w
    pub remove_jar : (name : String) (w : W) → cookies (remove name w) ≡ cookies w

  module _ (Holds : W → String → List String → Type 0) (Apart : List String → Type 0)
      (laws : CookieLaws Holds Apart) where
    cleanup-jar : (name : String) (w : W) → cookies (cleanup name w) ≡ cookies w
    unfolding cleanup
    cleanup-jar name w = go (chmod name w) (laws.chmod_jar name w)
      where
        go :
            (x : Reply (Unit {0}) × W)
            → cookies x.1 ≡ cookies w
            → cookies (removed_unless name x) ≡ cookies w
        go (ok _, v) same = same
        go (err e, v) same = laws.remove_jar name v ∙ same

    -- What became of the file that `WriteCookies` wrote in the world `t`: it stays where its mode can be
    -- set, and is removed where not.
    pub data Kept (name : String) (cs : List String) (t w' : W) : Type 0 where
      kept : chmod name t ≡ (ok tt, w') → Holds w' name cs → Kept name cs t w'
      lost :
          (e : String) (v : W) → chmod name t ≡ (err e, v) → w' ≡ remove name v → Kept name cs t w'

    -- `WriteCookies` answers no error once the file was made and written, also where the file is removed
    -- again since its mode could not be set.
    pub save_cookies-Kept :
        (name : String) (w u t : W)
        → is_nil (cookies w) ≡ false
        → create name w ≡ (ok tt, u)
        → encode_to name (cookies w) u ≡ (ok tt, t)
        → (w' : W) × (save_cookies name w ≡ (none, w')) × Kept name (cookies w) t w'
    unfolding save_cookies cleanup
    save_cookies-Kept name w u t some_cookies made wrote =
        rw (some_cookies, made, wrote) (go (chmod name t) refl)
      where
        held : Holds t name (cookies w)
        held = laws.encode_holds name (cookies w) u t wrote

        go :
            (x : Reply (Unit {0}) × W)
            → chmod name t ≡ x
            → (w' : W) × (Path (Option String × W) (none, removed_unless name x) (none, w'))
              × Kept name (cookies w) t w'
        go (ok _, v) p = (v, refl, kept p (laws.chmod_holds name (cookies w) t v held p))
        go (err e, v) p = (remove name v, refl, lost e v p refl)

    -- Cookies of different names that `WriteCookies` has written, where the file could be made, written and
    -- given its mode, are what a new client, whose jar is empty, has after `ReadCookies`; neither of them
    -- answers an error. That holds also where the second client cannot set the mode, and so removes the
    -- file that it has read.
    pub read_cookies-save_cookies :
        (name : String) (w u t v : W)
        → is_nil (cookies w) ≡ false
        → Apart (cookies w)
        → create name w ≡ (ok tt, u)
        → encode_to name (cookies w) u ≡ (ok tt, t)
        → chmod name t ≡ (ok tt, v)
        → (fresh : W) → cookies fresh ≡ []
        → ((cs : List String) → Holds v name cs → Holds fresh name cs)
        → (save_cookies name w ≡ (none, v))
          × ((read_cookies name fresh).0 ≡ none)
          × (cookies (read_cookies name fresh).1 ≡ cookies w)
    unfolding read_cookies save_cookies cleanup
    read_cookies-save_cookies name w u t v some_cookies apart made wrote moded fresh empty
          same_files =
        let cs = cookies w in
        let held = laws.chmod_holds name cs t v (laws.encode_holds name cs u t wrote) moded in
        let (text, readable, decoded) = laws.open_holds name cs fresh (same_files cs held) in
        let given = set_cookies cs fresh in
        let read : read_cookies name fresh ≡ (none, cleanup name given) =
          rw (read_cookies, readable, decoded) refl in
        (
          rw (some_cookies, made, wrote, moded) refl,
          ap (λ (y : Option String × W). y.0) read,
          ap (λ (y : Option String × W). cookies y.1) read
              ∙ cleanup-jar name given
              ∙ laws.set_get cs fresh apart empty,
        )
