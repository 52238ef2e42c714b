-- ===== src/Config/Remotes.antt =====
-- The text of a remote, core/config.go, and what `NewRemote` reads of it.
mod Tests
use Prim.Native.String.{◌++◌}
use text.Mathlib.Text.{starts_with}
use dorothy.Base.{
  String, ◌≡◌, refl, ◌∙◌, subst, ◌⊎◌, inl, inr, none, some, Bool, true, false, not, ◌&&◌, ◌==◌, [],
  ◌∷◌, Bool-cases, eq_iff, if◌then◌else◌,
}
use dorothy.Outcome.{ok, done, failed, not_http}
use dorothy.Config.{Remote, Urls, remote_of, parsed_remote, new_remote}
use dorothy.Config.Addresses.{JoinUrl, url_string}

-- net/url, path and path/filepath on addresses whose elements need no escape and hold no slash.
pub record UrlLaws (urls : Urls) (join_url : JoinUrl) : Type 1 where
  pub IsAddress : String → Type 0
  pub IsElement : String → Type 0
  -- of a host and two elements `String` writes the scheme first, and `Parse` undoes it
  pub https_first :
      (a o d : String)
      → IsAddress a
      → IsElement o
      → IsElement d
      → starts_with (join_url "https" a (o ∷ d ∷ [])) "https://" ≡ true
  pub http_first :
      (a o d : String)
      → IsAddress a
      → IsElement o
      → IsElement d
      → starts_with (join_url "http" a (o ∷ d ∷ [])) "http://" ≡ true
  pub parse_join :
      (s a o d : String)
      → ◌⊎◌ (s ≡ "http") (s ≡ "https")
      → IsAddress a
      → IsElement o
      → IsElement d
      → urls.parse (join_url s a (o ∷ d ∷ [])) ≡ ok (s, a, "/" ++ (o ++ ("/" ++ d)))
  -- `filepath.Split` cuts behind the last slash, and `path.Clean` takes the last slash away
  pub split_last :
      (o d : String)
      → IsElement o
      → IsElement d
      → urls.split ("/" ++ (o ++ ("/" ++ d))) ≡ ("/" ++ (o ++ "/"), d)
  pub clean_last : (o : String) → IsElement o → urls.clean ("/" ++ (o ++ "/")) ≡ "/" ++ o
  pub split_only : (o : String) → IsElement o → urls.split ("/" ++ o) ≡ ("/", o)

module _ (urls : Urls) (join_url : JoinUrl) (laws : UrlLaws urls join_url) where
  StartsWeb : String → Type 0
  StartsWeb text = (starts_with text "https://" ≡ true) ⊎ (starts_with text "http://" ≡ true)

  not_empty : (text : String) → StartsWeb text → (text == "") ≡ false
  unfolding StartsWeb
  not_empty text begins = elim (Bool-cases (text == "")) [
    | inl e ↦ elim begins [
      | inl b ↦
          let t =
            subst (λ (x : String). starts_with x "https://" ≡ true) ((eq_iff text "").0 e) b in
          absurd (cc)
      | inr b ↦
          let t = subst (λ (x : String). starts_with x "http://" ≡ true) ((eq_iff text "").0 e) b in
          absurd (cc)
    ]
    | inr e ↦ e
  ]

  -- A text that begins as an address of the web is parsed.
  new_remote-parsed :
      (text : String) → StartsWeb text → new_remote urls text ≡ parsed_remote urls (urls.parse text)
  unfolding new_remote StartsWeb
  new_remote-parsed text begins =
      go (text == "") (starts_with text "https://") (starts_with text "http://")
        (not_empty text begins) begins
    where
      go :
          (e s w : Bool)
          → e ≡ false
          → (s ≡ true) ⊎ (w ≡ true)
          → (if e
              then done none
              else (if not s && not w
                  then failed not_http
                  else parsed_remote urls (urls.parse text)))
            ≡ parsed_remote urls (urls.parse text)
      go true s w empty any = absurd (cc)
      go false true w empty any = refl
      go false false true empty any = refl
      go false false false empty any = elim any [ inl p ↦ absurd (cc) | inr p ↦ absurd (cc) ]

  -- The text of a remote over http or https, whose host, organization and dataset need no escape, is
  -- read back as the same remote.
  pub new_remote-url_string :
      (r : Remote)
      → (r.scheme ≡ "http") ⊎ (r.scheme ≡ "https")
      → laws.IsAddress r.address
      → laws.IsElement r.organization
      → laws.IsElement r.dataset
      → new_remote urls (url_string join_url r) ≡ done (some r)
  unfolding url_string remote_of StartsWeb
  new_remote-url_string r web address organization dataset =
      let text = join_url r.scheme r.address (r.organization ∷ r.dataset ∷ []) in
      let begins : StartsWeb text = elim web [
        | inl e ↦
            inr (
              rw e
                (laws.http_first r.address r.organization r.dataset address organization dataset))
        | inr e ↦ inl (
            rw e (laws.https_first r.address r.organization r.dataset address organization dataset))
      ] in
      new_remote-parsed text begins
      ∙ rw
          (
            laws.parse_join r.scheme r.address r.organization r.dataset web address organization
                dataset,
            laws.split_last r.organization r.dataset organization dataset,
            laws.clean_last r.organization organization,
            laws.split_only r.organization organization,
          )
          refl
