-- ===== src/Server/Tokens/Tests.antt =====
-- Tokens on a server whose state is its clock, and whose tokens are the address that they claim.
use dorothy.Base.{
  ℕ, String, ◌≡◌, refl, ap, ◌∙◌, sym, Option, none, some, true, [], ◌∷◌, ◌==◌, arith,
}
use dorothy.Outcome.{Reply, ok, err}
use dorothy.Access.{User}
use dorothy.Server.{Fiber, Context}
use dorothy.Server.Accounts.{
  Claim, number, word, optional, Accounts, login, login_parsed, checked, found_user, issued,
  validate_credentials, authenticator, loaded_user,
}
use dorothy.Server.Identity.{LoggedIn}
use dorothy.Server.Tokens.{
  Auth, Jwt, get_claim, put_claim, token_claims, user_claims, make_token, with_tokens, new_auth,
  generate_secret,
}
use dorothy.Server.Tokens.RoundTrip.{JwtLaws, authenticator-login}

abbrev plain : Fiber
plain = record {
  Request = Option String;
  accepts = λ q kind. true;
  path = λ q. "/";
  organization_param = λ q. "";
  dataset_param = λ q. "";
  parse_payload = λ q. err "no body";
  parse_organization = λ q. err "no body";
  parse_dataset = λ q. err "no body";
}

-- The address of the claims, if they have one that is a text.
abbrev address_of : Option Claim → Reply String
address_of none = err "no address"
address_of (some (number n)) = err "no address"
address_of (some (word s)) = ok s
address_of (some (optional o)) = err "no address"

abbrev jwt : Jwt (Option String) ℕ
jwt = record {
  Token = String;
  getenv = λ name w. "";
  random_bytes = λ n w. (ok (7 ∷ []), w);
  base64 = λ key. "Bw==";
  unix_now = λ w. w;
  encode = λ auth m w. address_of (get_claim "email" m);
  cookie = λ q. q;
  convert_request = λ q. ok tt;
  verify_request = λ auth q w. (q, none);
  as_map = λ t. ok (("email", word t) ∷ []);
  validate = λ auth t w. true;
}

jwt-JwtLaws : JwtLaws jwt
jwt-JwtLaws = record {
  decode_encode =
      λ auth m w s address issued expires made email iat exp q later carried after before. record {
        token = address;
        found =
            let same : Path (Reply String) (ok address) (ok s) = sym (ap address_of email) ∙ made in
            let text : Path String s address = cc in
            ap (λ (o : Option String). (o, none)) (carried ∙ ap some text);
        claims = ("email", word address) ∷ [];
        map = refl;
        email = here address;
        valid = refl;
      };
}
  where
    here : (s : String) → get_claim "email" (("email", word s) ∷ []) ≡ some (word s)
    here s = unfold get_claim in refl

abbrev doug : User
doug = record {
  id = 1;
  email = "doug@example.com";
  name = "Doug";
  orcid = none;
  role_code = "admin";
  organization_privileges = [];
  dataset_privileges = [];
}

abbrev accounts : Accounts (Option String) ℕ
accounts = record {
  Token = Unit {0};
  parse_new_user = λ q. err "no body";
  parse_login = λ q. ok (record { email = "doug@example.com"; password = "secret" });
  parse_redirect = λ q. "";
  count_users = λ w. ok 1;
  generate_hash = λ password. ok password;
  create = λ row w. (ok tt, w);
  stored_hash = λ email w. ok (some "secret");
  compare = λ hash password. hash == password;
  find_user = λ email w. ok doug;
  load_user = λ email w. ok doug;
  make_token = λ user w. err "no key";
  cookie_token = λ q w. none;
  is_valid_token = λ t w. true;
  email_claim = λ t. none;
}

abbrev visit : Option String → Context (Option String)
visit q = record {
  request = q;
  auth_user = none;
  organizations = [];
  organization = none;
  dataset = none;
}

abbrev key : Auth
key = record { secret = "key" }

-- Without a secret in the environment one is made.
made : new_auth jwt 0 ≡ (ok (record { secret = "Bw==" }), 0)
unfolding new_auth generate_secret
made = refl

abbrev signed : Accounts (Option String) ℕ
signed = with_tokens jwt key accounts

entering : (login plain signed (visit none) 10).1 ≡ some "doug@example.com"
unfolding issued found_user checked login_parsed login validate_credentials make_token token_claims
    user_claims put_claim get_claim
entering = refl

authenticator-login_example :
    (who : LoggedIn plain signed (visit none) "doug@example.com" 10) × (authenticator plain signed
        (visit (some "doug@example.com"))
        20
      ≡ loaded_user plain signed
          (visit (some "doug@example.com"))
          (accounts.load_user (word who.user.email) 20))
authenticator-login_example =
    authenticator-login plain jwt jwt-JwtLaws key accounts (visit none)
      (visit (some "doug@example.com")) "doug@example.com" 10 20 entering refl (omega arith)
      (omega arith)
