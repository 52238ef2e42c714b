-- ===== src/Server/Newcomers/Entering.antt =====
-- From a registration to a request of the new user: server/db.go, server/handlers.go and server/auth.go.
mod Tests
use dorothy.Base.{◌+◌, ◌<◌, ◌≤◌, ◌≡◌, ◌≢◌, sym, refl, subst, ap, ◌∙◌, String, some}
use dorothy.Outcome.{ok}
use dorothy.Access.{User}
use dorothy.Server.{Fiber, Context}
use dorothy.Server.Accounts.{
  word, UserRow, NewUser, Accounts, create_user, validate_credentials, login, login_parsed, checked,
  found_user, issued, logged_in, authenticator, loaded_user,
}
use dorothy.Server.Identity.{create_user_sound}
use dorothy.Server.Tokens.{Claims, Auth, Jwt, lifetime, token_claims, make_token, with_tokens}
use dorothy.Server.Tokens.RoundTrip.{JwtLaws, token-Reads, authenticator-Reads}
use dorothy.Server.Newcomers.{AccountLaws, validate_credentials-create_user}

-- gorm finds an account by its address once it was created. The query of `Login` is a struct, whose empty
-- fields gorm leaves out: an empty address finds any account, and the law says nothing of it.
pub record FinderLaws {R W : Type 0} (accounts : Accounts R W) : Type 0 where
  pub user_found :
      (row : UserRow) (w w' : W)
      → accounts.create row w ≡ (ok tt, w')
      → row.email ≢ ""
      → (user : User) × (accounts.find_user row.email w' ≡ ok user) × (user.email ≡ row.email)

module _ (fiber : Fiber) {W : Type 0} (jwt : Jwt fiber.Request W) (tokens : JwtLaws jwt)
    (auth : Auth) (accounts : Accounts fiber.Request W) (laws : AccountLaws accounts)
    (finder : FinderLaws accounts) where
  open jwt use {unix_now, encode, cookie}

  abbrev signed : Accounts fiber.Request W
  signed = with_tokens jwt auth accounts

  login-issued :
      (n : NewUser) (c : Context fiber.Request) (user : User) (token : String) (w : W)
      → accounts.parse_login c.request ≡ ok (record { email = n.email; password = n.password })
      → validate_credentials fiber accounts n.email n.password w ≡ ok tt
      → accounts.find_user n.email w ≡ ok user
      → make_token jwt auth user w ≡ ok token
      → login fiber signed c w ≡ (logged_in fiber signed c, some token)
  unfolding login login_parsed checked found_user issued validate_credentials
  login-issued n c user token w parsed valid found made = rw (parsed, valid, found, made) refl

  -- A user that was created with an address that is not empty, and then logs in with the address and the password that were given gets a
  -- token, and until it expires every request with that token is taken for one of the user with that
  -- address, as far as the database still has it. It is assumed that the server can sign tokens then.
  pub newcomer_enters :
      (n : NewUser) (c : Context fiber.Request) (later : String → Context fiber.Request)
      (w w' v : W)
      → create_user fiber accounts n w ≡ (ok tt, w')
      → n.email ≢ ""
      → accounts.parse_login c.request ≡ ok (record { email = n.email; password = n.password })
      → ((m : Claims) → (s : String) × (encode auth m w' ≡ ok s))
      → ((s : String) → cookie (later s).request ≡ some s)
      → unix_now w' ≤ unix_now v
      → unix_now v < unix_now w' + lifetime
      → (token : String) × (login fiber signed c w' ≡ (logged_in fiber signed c, some token))
        × (authenticator fiber signed (later token) v
            ≡ loaded_user fiber signed (later token) (accounts.load_user (word n.email) v))
  unfolding make_token
  newcomer_enters n c later w w' v created addressed parsed signs carried after before =
      let made = create_user_sound fiber accounts n w w' created in
      let (user, found, named) =
        finder.user_found made.row w w' made.created (λ e. addressed (sym made.who.0 ∙ e)) in
      let (token, signs_it) = signs (token_claims user (unix_now w')) in
      let here = subst (λ (x : String). accounts.find_user x w' ≡ ok user) made.who.0 found in
      let valid = validate_credentials-create_user fiber accounts laws n w w' created in
      let reads =
        token-Reads fiber jwt tokens auth accounts user token w' v (later token).request signs_it
          (carried token) after before in
      (
        token,
        login-issued n c user token w' parsed valid here signs_it,
        authenticator-Reads fiber jwt tokens auth accounts (later token) v user.email reads
            ∙ ap
                (λ (x : String).
                  loaded_user fiber signed (later token) (accounts.load_user (word x) v))
                (named ∙ made.who.0),
      )
