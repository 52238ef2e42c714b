-- ===== src/Server/Tokens.antt =====
-- server/auth.go: the secret of the server, and the tokens that it makes and reads, over jwtauth. They
-- fill the token operations of Accounts.
pub mod RoundTrip
mod Tests
use dorothy.Base.{ℕ, ◌+◌, String, Option, none, some, Bool, List, [], ◌∷◌, ◌==◌, if◌then◌else◌}
use dorothy.Outcome.{Reply, ok, err}
use dorothy.Access.{User}
use dorothy.Server.{Context, Answer, next, text}
use dorothy.Server.Accounts.{Claim, number, word, optional, Accounts}

-- `map[string]interface{}`
abbrev pub Claims : Type 0
Claims = List (String × Claim)

-- `claims[key] = value`
unfoldable pub put_claim : String → Claim → Claims → Claims
put_claim key value [] = (key, value) ∷ []
put_claim key value ((k, v) ∷ m) =
    if k == key then (key, value) ∷ m else (k, v) ∷ put_claim key value m

-- `value, ok := claims[key]`
unfoldable pub get_claim : String → Claims → Option Claim
get_claim key [] = none
get_claim key ((k, v) ∷ m) = if k == key then some v else get_claim key m

-- `Auth`: a signer under a secret
pub record Auth : Type 0 where
  pub secret : String

-- jwtauth, jwx, fiber's adaptor and the operating system over the state `W`. `verify_request` answers
-- the token of the cookie "jwt" and an error; it may answer both.
pub record Jwt (R W : Type 0) : Type 1 where
  pub Token : Type 0
  pub getenv : String → W → String
  pub random_bytes : ℕ → W → Reply (List ℕ) × W
  pub base64 : List ℕ → String
  pub unix_now : W → ℕ
  pub encode : Auth → Claims → W → Reply String
  pub cookie : R → Option String
  pub convert_request : R → Reply (Unit {0})
  pub verify_request : Auth → R → W → Option Token × Option String
  pub as_map : Token → Reply Claims
  pub validate : Auth → Token → W → Bool

-- `jwtauth.SetIssuedNow` and `jwtauth.SetExpiryIn` with 72 hours, on the seconds of the clock
abbrev pub lifetime : ℕ
lifetime = 259200

abbrev pub set_issued_now : ℕ → Claims → Claims
set_issued_now now m = put_claim "iat" (number now) m

abbrev pub set_expiry_in : ℕ → ℕ → Claims → Claims
set_expiry_in now seconds m = put_claim "exp" (number (now + seconds)) m

unfoldable pub user_claims : User → Claims
user_claims user =
    ("id", number user.id)
    ∷ ("email", word user.email)
    ∷ ("name", word user.name)
    ∷ ("orcid", optional user.orcid)
    ∷ []

unfoldable pub token_claims : User → ℕ → Claims
unfolding user_claims put_claim
token_claims user now = set_expiry_in now lifetime (set_issued_now now (user_claims user))

-- `fromContext` on what `Verifier` has left: the token, its claims, where `none` is a nil map, and the
-- error.
unfoldable pub from_context :
    {T : Type 0}
    → (T → Reply Claims)
    → Option T
    → Option String
    → Option T × Option Claims × Option String
from_context as_map none e = (none, some [], e)
from_context as_map (some t) e = elim (as_map t) [
  | err x ↦ (some t, none, some x)
  | ok m ↦ (some t, some m, e)
]

module _ {R W : Type 0} (jwt : Jwt R W) where
  open jwt use {
    Token, getenv, random_bytes, base64, unix_now, encode, convert_request, verify_request, as_map,
    validate,
  }

  abbrev pub encoded : Reply (List ℕ) × W → Reply String × W
  encoded (err e, w) = (err e, w)
  encoded (ok key, w) = (ok (base64 key), w)

  unfoldable pub generate_secret : W → Reply String × W
  generate_secret w = encoded (random_bytes 32 w)

  abbrev pub signed_with : Reply String × W → Reply Auth × W
  signed_with (ok s, w) = (ok (record { secret = s }), w)
  signed_with (err e, w) =
      (err "DOROTHY_SERVER_SECRET environment variable empty and failed to generate secret", w)

  unfoldable pub new_auth : W → Reply Auth × W
  unfolding generate_secret
  new_auth w =
      let s = getenv "DOROTHY_OAUTH_SECRET" w in
      if s == "" then signed_with (generate_secret w) else (ok (record { secret = s }), w)

  module _ (auth : Auth) where
    unfoldable pub make_token : User → W → Reply String
    unfolding token_claims
    make_token user w = encode auth (token_claims user (unix_now w)) w

    -- `Verifier`: a request that cannot be converted is answered by fiber's handler of errors. What it
    -- leaves for the handlers behind depends on the request alone, and stands in `verified`.
    unfoldable pub verifier : Context R → Answer R
    verifier c = elim (convert_request c.request) [ err e ↦ text (some 500) e | ok _ ↦ next c ]

    abbrev pub verified : R → W → Option Token × Option Claims × Option String
    verified q w = let found = verify_request auth q w in from_context as_map found.0 found.1

    abbrev pub email_in : Option Claims → Option Claim
    email_in none = none
    email_in (some m) = get_claim "email" m

    -- The accounts with these tokens.
    abbrev pub with_tokens : Accounts R W → Accounts R W
    with_tokens a = record {
      Token = Token;
      parse_new_user = a.parse_new_user;
      parse_login = a.parse_login;
      parse_redirect = a.parse_redirect;
      count_users = a.count_users;
      generate_hash = a.generate_hash;
      create = a.create;
      stored_hash = a.stored_hash;
      compare = a.compare;
      find_user = a.find_user;
      load_user = a.load_user;
      make_token = make_token;
      cookie_token = λ q w. (verified q w).0;
      is_valid_token = λ t w. validate auth t w;
      email_claim = λ t. email_in (from_context as_map (some t) none).1;
    }
