-- ===== src/Server/Tokens/RoundTrip.antt =====
-- The token of a login, server/handlers.go, in a later request to server/auth.go.
use dorothy.Base.{ℕ, ◌+◌, ◌<◌, ◌≤◌, ◌≡◌, refl, String, none, some, true}
use dorothy.Outcome.{ok}
use dorothy.Access.{User}
use dorothy.Server.{Fiber, Context}
use dorothy.Server.Accounts.{number, word, Accounts, login, authenticator, loaded_user}
use dorothy.Server.Identity.{LoggedIn, login_sound}
use dorothy.Server.Tokens.{
  Claims, put_claim, get_claim, Auth, Jwt, lifetime, user_claims, token_claims, from_context,
  make_token, with_tokens,
}

module _ {R W : Type 0} (jwt : Jwt R W) where
  open jwt use {unix_now, encode, cookie, verify_request, as_map, validate}

  -- A request's cookie is read as a valid token with the address.
  pub record Reads (auth : Auth) (q : R) (w : W) (address : String) : Type 0 where
    pub token : jwt.Token
    pub found : verify_request auth q w ≡ (some token, none)
    pub claims : Claims
    pub map : as_map token ≡ ok claims
    pub email : get_claim "email" claims ≡ some (word address)
    pub valid : validate auth token w ≡ true

  -- A token that was signed under the secret is read back with its address, from the second when it was
  -- issued until the one when it expires.
  pub record JwtLaws : Type 0 where
    pub decode_encode :
        (auth : Auth) (m : Claims) (w : W) (s address : String) (issued expires : ℕ)
        → encode auth m w ≡ ok s
        → get_claim "email" m ≡ some (word address)
        → get_claim "iat" m ≡ some (number issued)
        → get_claim "exp" m ≡ some (number expires)
        → (q : R) (later : W) → cookie q ≡ some s
        → issued ≤ unix_now later
        → unix_now later < expires
        → Reads auth q later address

module _ (fiber : Fiber) {W : Type 0} (jwt : Jwt fiber.Request W) (laws : JwtLaws jwt) (auth : Auth)
    (accounts : Accounts fiber.Request W) where
  open jwt use {unix_now, encode, cookie, verify_request, as_map, validate}

  abbrev signed : Accounts fiber.Request W
  signed = with_tokens jwt auth accounts

  from_context-some :
      (t : jwt.Token) {m : Claims}
      → as_map t ≡ ok m
      → from_context as_map (some t) none ≡ (some t, some m, none)
  unfolding from_context
  from_context-some t e = rw (e, from_context) refl

  pub token-Reads :
      (user : User) (token : String) (w later : W) (q : fiber.Request)
      → make_token jwt auth user w ≡ ok token
      → cookie q ≡ some token
      → unix_now w ≤ unix_now later
      → unix_now later < unix_now w + lifetime
      → Reads jwt auth q later user.email
  unfolding make_token token_claims user_claims put_claim get_claim
  token-Reads user token w later q made carried after before =
      laws.decode_encode auth (token_claims user (unix_now w)) w token user.email (unix_now w)
        (unix_now w + lifetime) made refl refl refl q later carried after before

  pub authenticator-Reads :
      (c : Context fiber.Request) (w : W) (address : String)
      → Reads jwt auth c.request w address
      → authenticator fiber signed c w
        ≡ loaded_user fiber signed c (accounts.load_user (word address) w)
  unfolding authenticator
  authenticator-Reads c w address r =
      let seen = from_context-some r.token r.map in rw (r.found, seen, r.valid, seen, r.email) refl

  -- The token that a login has given out, sent back as a cookie before its 72 hours are over, makes the
  -- authenticator load the user with the address of the account that logged in.
  pub authenticator-login :
      (c later : Context fiber.Request) (token : String) (w w' : W)
      → (login fiber signed c w).1 ≡ some token
      → cookie later.request ≡ some token
      → unix_now w ≤ unix_now w'
      → unix_now w' < unix_now w + lifetime
      → (who : LoggedIn fiber signed c token w) × (authenticator fiber signed later w'
          ≡ loaded_user fiber signed later (accounts.load_user (word who.user.email) w'))
  authenticator-login c later token w w' logged carried after before =
      let who = login_sound fiber signed c token w logged in
      (
        who,
        authenticator-Reads later w' who.user.email
            (token-Reads who.user token w w' later.request who.made carried after before),
      )
