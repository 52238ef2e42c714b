-- ===== src/Server/Accounts.antt =====
-- Accounts of the server: `Registration`, `Login` and `LoginForm` of server/handlers.go, `CreateUser`
-- and `ValidateCredentials` of server/db.go, and `Authenticator` of server/auth.go.
use dorothy.Base.{ℕ, String, Option, none, some, Bool, true, false, ◌==◌, eqb, if◌then◌else◌}
use dorothy.Outcome.{Reply, ok, err}
use dorothy.Access.{User}
use dorothy.Server.{
  Fiber, Context, Answer, next, redirect, redirect_back, json, text, render, redirect_as,
  error_body, message_body,
}

pub record NewUser : Type 0 where
  pub email : String
  pub password : String
  pub name : String
  pub orcid : Option String

-- `UserLogin` of server/model
pub record UserLogin : Type 0 where
  pub email : String
  pub password : String

-- The row that `CreateUser` writes.
pub record UserRow : Type 0 where
  pub email : String
  pub password_hash : String
  pub name : String
  pub orcid : Option String
  pub role_code : String

-- A value that a token holds under a name: `any` of the map of claims, as far as the program makes one.
pub data Claim : Type 0 where
  number : ℕ → Claim
  word : String → Claim
  optional : Option String → Claim

-- gorm's session, bcrypt and jwtauth, over the state `W`. `stored_hash` selects the hash of an
-- address, `find_user` the user without its privileges, and `load_user` with them.
pub record Accounts (R W : Type 0) : Type 1 where
  pub Token : Type 0
  pub parse_new_user : R → Reply NewUser
  pub parse_login : R → Reply UserLogin
  pub parse_redirect : R → String
  pub count_users : W → Reply ℕ
  pub generate_hash : String → Reply String
  pub create : UserRow → W → Reply (Unit {0}) × W
  pub stored_hash : String → W → Reply (Option String)
  pub compare : String → String → Bool
  pub find_user : String → W → Reply User
  pub load_user : Claim → W → Reply User
  pub make_token : User → W → Reply String
  -- the token of the request's cookie, whether it is valid now, and its claim "email"
  pub cookie_token : R → W → Option Token
  pub is_valid_token : Token → W → Bool
  pub email_claim : Token → Option Claim

module _ (fiber : Fiber) {W : Type 0} (accounts : Accounts fiber.Request W) where
  open fiber use {Request, accepts, path}
  open accounts use {
    Token, parse_new_user, parse_login, parse_redirect, count_users, generate_hash, create,
    stored_hash, compare, find_user, load_user, make_token, cookie_token, is_valid_token,
    email_claim,
  }

  -- The first user is the administrator.
  unfoldable pub role_for : ℕ → String
  role_for count = if eqb count 0 then "admin" else "user"

  abbrev pub create_hashed : NewUser → String → Reply String → W → Reply (Unit {0}) × W
  create_hashed n role (err e) w = (err "failed to create user", w)
  create_hashed n role (ok hash) w =
      create
        (record {
          email = n.email;
          password_hash = hash;
          name = n.name;
          orcid = n.orcid;
          role_code = role;
        })
        w

  abbrev pub create_counted : NewUser → Reply ℕ → W → Reply (Unit {0}) × W
  create_counted n (err e) w = (err "failed to get user count", w)
  create_counted n (ok count) w = create_hashed n (role_for count) (generate_hash n.password) w

  unfoldable pub create_user : NewUser → W → Reply (Unit {0}) × W
  create_user n w = create_counted n (count_users w) w

  abbrev pub registered : Reply (Unit {0}) × W → Answer Request × W
  registered (err e, w) = (redirect_back (some 500) "register", w)
  registered (ok _, w) = (redirect none "/login", w)

  abbrev pub register_parsed : Reply NewUser → W → Answer Request × W
  register_parsed (err e) w = (text (some 400) e, w)
  register_parsed (ok n) w = registered (create_user n w)

  unfoldable pub registration : Context Request → W → Answer Request × W
  unfolding create_user
  registration c w = register_parsed (parse_new_user c.request) w

  abbrev pub compared : String → Reply (Option String) → Reply (Unit {0})
  compared password (err e) = err "invalid email or password"
  compared password (ok none) = err "invalid email or password"
  compared password (ok (some hash)) =
      if compare hash password then ok tt else err "invalid email or password"

  unfoldable pub validate_credentials : String → String → W → Reply (Unit {0})
  validate_credentials email password w = compared password (stored_hash email w)

  -- `LoginForm`, without the bindings of its view
  unfoldable pub login_form : Context Request → Answer Request
  login_form c = elim c.auth_user [ some user ↦ redirect none "/" | none ↦ render "views/login" ]

  -- The answer of a login that succeeded.
  unfoldable pub logged_in : Context Request → Answer Request
  logged_in c =
      let target = parse_redirect c.request in
      let home : Answer Request =
        if target == "" then redirect none "/" else redirect none target in
      if accepts c.request "text/html"
      then home
      else (if accepts c.request "application/json"
          then json none (message_body "success")
          else (if accepts c.request "text/plain" then text none "success" else home))

  abbrev pub unexpected : Context Request → Answer Request
  unexpected c =
      redirect_as fiber c 500 "/login" (error_body "an unexpected error occurred")
        "an unexpected error occurred"

  -- `Login`: the answer, and the token that its cookie carries, if any.
  unfoldable pub issued : Context Request → Reply String → Answer Request × Option String
  unfolding logged_in
  issued c (err e) = (unexpected c, none)
  issued c (ok token) = (logged_in c, some token)

  unfoldable pub found_user : Context Request → Reply User → W → Answer Request × Option String
  unfolding issued
  found_user c (err e) w = (unexpected c, none)
  found_user c (ok user) w = issued c (make_token user w)

  unfoldable pub checked :
      Context Request → UserLogin → Reply (Unit {0}) → W → Answer Request × Option String
  unfolding found_user
  checked c l (err e) w = (
    redirect_as fiber c 401 "/login" (error_body "invalid login credentials")
        "invalid logic credentials",
    none,
  )
  checked c l (ok _) w = found_user c (find_user l.email w) w

  unfoldable pub login_parsed :
      Context Request → Reply UserLogin → W → Answer Request × Option String
  unfolding checked validate_credentials
  login_parsed c (err e) w =
      (redirect_as fiber c 400 "/login" (error_body "bad request") "bad request", none)
  login_parsed c (ok l) w = checked c l (validate_credentials l.email l.password w) w

  unfoldable pub login : Context Request → W → Answer Request × Option String
  unfolding login_parsed
  login c w = login_parsed c (parse_login c.request) w

  -- The address that a valid token of the request claims.
  abbrev pub claimed : Option Token → W → Option Claim
  claimed none w = none
  claimed (some token) w = if is_valid_token token w then email_claim token else none

  abbrev pub loaded_user : Context Request → Reply User → Answer Request × Bool
  loaded_user c (err e) = (text (some 500) "internal server error", false)
  loaded_user c (ok user) = (next (record c { auth_user = some user }), false)

  -- The handler, and whether it clears the cookie.
  abbrev pub authenticated : Context Request → Option Claim → W → Answer Request × Bool
  authenticated c (some email) w = loaded_user c (load_user email w)
  authenticated c none w = (next c, elim c.auth_user [ none ↦ true | some user ↦ false ])

  unfoldable pub authenticator : Context Request → W → Answer Request × Bool
  authenticator c w = authenticated c (claimed (cookie_token c.request w) w) w
