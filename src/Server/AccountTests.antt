-- ===== src/Server/AccountTests.antt =====
-- Instances of the theorems about accounts: a server whose state is the number of its users.
use dorothy.Base.{ℕ, suc, String, ◌≡◌, refl, none, some, true, false, [], ◌==◌}
use dorothy.Outcome.{ok, err}
use dorothy.Access.{User}
use dorothy.Server.{Fiber, Context, next}
use dorothy.Server.Accounts.{
  Accounts, NewUser, word, role_for, create_user, validate_credentials, issued, found_user, checked,
  login_parsed, login, authenticator,
}
use dorothy.Server.Identity.{Created, create_user_sound, Authenticated, authenticator_sound}

abbrev plain : Fiber
plain = record {
  Request = Unit {0};
  accepts = λ q kind. true;
  path = λ q. "/";
  organization_param = λ q. "";
  dataset_param = λ q. "";
  parse_payload = λ q. err "no body";
  parse_organization = λ q. err "no body";
  parse_dataset = λ q. err "no body";
}

abbrev doug : User
doug = record {
  id = 1;
  email = "doug@example.com";
  name = "Doug";
  orcid = none;
  role_code = "admin";
  organization_privileges = [];
  dataset_privileges = [];
}

abbrev newcomer : NewUser
newcomer = record { email = "doug@example.com"; password = "secret"; name = "Doug"; orcid = none }

abbrev accounts : Accounts (Unit {0}) ℕ
accounts = record {
  Token = String;
  parse_new_user = λ q. ok newcomer;
  parse_login = λ q. ok (record { email = "doug@example.com"; password = "secret" });
  parse_redirect = λ q. "";
  count_users = λ w. ok w;
  generate_hash = λ password. ok password;
  create = λ row w. (ok tt, suc w);
  stored_hash = λ email w. ok (some "secret");
  compare = λ hash password. hash == password;
  find_user = λ email w. ok doug;
  load_user = λ email w. ok doug;
  make_token = λ user w. ok user.email;
  cookie_token = λ q w. some "doug@example.com";
  is_valid_token = λ token w. true;
  email_claim = λ token. some (word token);
}

abbrev stranger : Context (Unit {0})
stranger = record {
  request = tt;
  auth_user = none;
  organizations = [];
  organization = none;
  dataset = none;
}

runs : Unit {0}
unfolding create_user role_for validate_credentials issued found_user checked login_parsed login
    authenticator
runs = tt

creating : create_user plain accounts newcomer 0 ≡ (ok tt, 1)
unfolding runs
creating = refl

create_user_sound_example : Created plain accounts newcomer 0 1
create_user_sound_example = create_user_sound plain accounts newcomer 0 1 creating

entering : (login plain accounts stranger 1).1 ≡ some "doug@example.com"
unfolding runs
entering = refl

abbrev known : Context (Unit {0})
known = record stranger { auth_user = some doug }

recognized : authenticator plain accounts stranger 1 ≡ (next known, false)
unfolding runs
recognized = refl

authenticator_sound_example : Authenticated plain accounts stranger doug 1
authenticator_sound_example =
    authenticator_sound plain accounts stranger known false doug 1 refl recognized refl
