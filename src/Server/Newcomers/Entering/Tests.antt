-- ===== src/Server/Newcomers/Entering/Tests.antt =====
-- A newcomer on a server whose state is the account that was made last, and its clock.
use text.Mathlib.TextPositions.{eq_refl}
use dorothy.Base.{
  ℕ, String, ◌≡◌, refl, sym, ap, ◌∙◌, subst, Option, none, some, true, [], ◌∷◌, ◌==◌, arith, ◌≢◌,
  eq_iff,
}
use dorothy.Outcome.{Reply, ok, err}
use dorothy.Access.{User}
use dorothy.Server.{Fiber, Context}
use dorothy.Server.Accounts.{
  Claim, number, word, optional, UserRow, NewUser, Accounts, create_user, role_for, login,
  logged_in, authenticator, loaded_user,
}
use dorothy.Server.Tokens.{Auth, Jwt, get_claim, with_tokens}
use dorothy.Server.Tokens.RoundTrip.{JwtLaws}
use dorothy.Server.Newcomers.{AccountLaws}
use dorothy.Server.Newcomers.Entering.{FinderLaws, newcomer_enters}

record Desk : Type 0 where
  row : Option UserRow
  clock : ℕ

abbrev plain : Fiber
plain = record {
  Request = Option String;
  accepts = λ q kind. true;
  path = λ q. "/";
  organization_param = λ q. "";
  dataset_param = λ q. "";
  parse_payload = λ q. err "no body";
  parse_organization = λ q. err "no body";
  parse_dataset = λ q. err "no body";
}

abbrev hash_of : Option UserRow → Reply (Option String)
hash_of none = err "not found"
hash_of (some r) = ok (some r.password_hash)

-- The account that was made last is found under any address.
abbrev user_of : Option UserRow → Reply User
user_of none = err "not found"
user_of (some r) = ok (record {
  id = 1;
  email = r.email;
  name = r.name;
  orcid = r.orcid;
  role_code = r.role_code;
  organization_privileges = [];
  dataset_privileges = [];
})

abbrev accounts : Accounts (Option String) Desk
accounts = record {
  Token = Unit {0};
  parse_new_user = λ q. err "no body";
  parse_login = λ q. ok (record { email = "doug@example.com"; password = "secret" });
  parse_redirect = λ q. "";
  count_users = λ w. ok 0;
  generate_hash = λ password. ok password;
  create = λ r w. (ok tt, record w { row = some r });
  stored_hash = λ email w. hash_of w.row;
  compare = λ hash password. hash == password;
  find_user = λ email w. user_of w.row;
  load_user = λ email w. user_of w.row;
  make_token = λ user w. err "no key";
  cookie_token = λ q w. none;
  is_valid_token = λ t w. true;
  email_claim = λ t. none;
}

accounts-AccountLaws : AccountLaws accounts
accounts-AccountLaws = record {
  hash_stored = λ r w w' e. sym (ap (λ (y : Reply (Unit {0}) × Desk). hash_of y.1.row) e);
  hash_accepted = λ password hash e.
      let same : Path String password hash = cc in
      subst (λ (x : String). (x == password) ≡ true) same (eq_refl password);
}

accounts-FinderLaws : FinderLaws accounts
accounts-FinderLaws = record {
  user_found = λ r w w' e addressed. (
    record {
      id = 1;
      email = r.email;
      name = r.name;
      orcid = r.orcid;
      role_code = r.role_code;
      organization_privileges = [];
      dataset_privileges = [];
    },
    sym (ap (λ (y : Reply (Unit {0}) × Desk). user_of y.1.row) e),
    refl,
  );
}

-- A token is the address that it claims; claims without one are signed all the same.
abbrev address_of : Option Claim → String
address_of none = ""
address_of (some (number n)) = ""
address_of (some (word s)) = s
address_of (some (optional o)) = ""

abbrev jwt : Jwt (Option String) Desk
jwt = record {
  Token = String;
  getenv = λ name w. "secret";
  random_bytes = λ n w. (ok [], w);
  base64 = λ key. "";
  unix_now = λ w. w.clock;
  encode = λ auth m w. ok (address_of (get_claim "email" m));
  cookie = λ q. q;
  convert_request = λ q. ok tt;
  verify_request = λ auth q w. (q, none);
  as_map = λ t. ok (("email", word t) ∷ []);
  validate = λ auth t w. true;
}

jwt-JwtLaws : JwtLaws jwt
jwt-JwtLaws = record {
  decode_encode =
      λ auth m w s address issued expires made email iat exp q later carried after before. record {
        token = address;
        found =
            let same : Path (Reply String) (ok address) (ok s) =
              sym (ap (λ x. ok (address_of x)) email) ∙ made in
            let text : Path String s address = cc in
            ap (λ (o : Option String). (o, none)) (carried ∙ ap some text);
        claims = ("email", word address) ∷ [];
        map = refl;
        email = here address;
        valid = refl;
      };
}
  where
    here : (s : String) → get_claim "email" (("email", word s) ∷ []) ≡ some (word s)
    here s = unfold get_claim in refl

abbrev key : Auth
key = record { secret = "secret" }

abbrev doug : NewUser
doug = record { email = "doug@example.com"; password = "secret"; name = "Doug"; orcid = none }

abbrev visit : Option String → Context (Option String)
visit q = record {
  request = q;
  auth_user = none;
  organizations = [];
  organization = none;
  dataset = none;
}

abbrev unborn : Desk
unborn = record { row = none; clock = 10 }

abbrev registered : Desk
registered = (create_user plain accounts doug unborn).1

creating : create_user plain accounts doug unborn ≡ (ok tt, registered)
unfolding create_user role_for
creating = refl

clock_kept : registered.clock ≡ 10
unfolding create_user role_for
clock_kept = refl

abbrev tomorrow : Desk
tomorrow = record { row = registered.row; clock = 86410 }

abbrev signed : Accounts (Option String) Desk
signed = with_tokens jwt key accounts

addressed : doug.email ≢ ""
addressed e = let t = (eq_iff "doug@example.com" "").1 e in cc

newcomer_enters_example :
    (token : String) × (login plain signed (visit none) registered
      ≡ (logged_in plain signed (visit none), some token))
    × (authenticator plain signed (visit (some token)) tomorrow
        ≡ loaded_user plain signed
            (visit (some token))
            (accounts.load_user (word "doug@example.com") tomorrow))
newcomer_enters_example =
    newcomer_enters plain jwt jwt-JwtLaws key accounts accounts-AccountLaws accounts-FinderLaws doug
      (visit none) (λ s. visit (some s)) unborn registered tomorrow creating addressed refl
      (λ m. (_, refl)) (λ s. refl) (rw clock_kept (omega arith)) (rw clock_kept (omega arith))
