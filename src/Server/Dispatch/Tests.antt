-- ===== src/Server/Dispatch/Tests.antt =====
-- Requests through the routes of server/server.go, over the host in memory.
use dorothy.Base.{String, ◌≡◌, refl, none, some, Bool, true, false, ◌&&◌, [], ◌==◌, if◌then◌else◌}
use dorothy.Outcome.{ok, err}
use dorothy.Host.Memory.{Memory, memory}
use dorothy.Manifest.Samples.{sample_sort}
use dorothy.Repo.Samples.{repo}
use dorothy.Access.{Organization}
use dorothy.Server.{Fiber, Database, Context, next, text}
use dorothy.Server.Accounts.{Accounts}
use dorothy.Server.Routes.{continued, post_dataset}
use dorothy.Server.Dispatch.{Method, prefixed, get, post, Router, serve_request, not_found}
use dorothy.Server.Dispatch.Chains.{Enters}
use dorothy.Server.Dispatch.Posts.{IsPost, serve_request-IsPost}
use dorothy.Server.Dispatch.Shadows.{login_hides_organization}

-- A request is its path.
abbrev plain : Fiber
plain = record {
  Request = String;
  accepts = λ q kind. true;
  path = λ q. q;
  organization_param = λ q. "lab";
  dataset_param = λ q. "survey";
  parse_payload = λ q. err "no body";
  parse_organization = λ q. err "no body";
  parse_dataset = λ q. err "no body";
}

abbrev db : Database Memory
db = record {
  all_organizations = λ w. ok [];
  first_organization = λ slug w. err "not found";
  first_dataset = λ slug id w. err "not found";
  save_organization = λ o w. (ok o, w);
  save_organization_privilege = λ u o code w. w;
  save_dataset = λ d w. (ok d, w);
  save_dataset_privilege = λ u d code w. (ok tt, w);
  transaction = λ body w. body w;
  timed_out = λ w. false;
}

abbrev accounts : Accounts String Memory
accounts = record {
  Token = String;
  parse_new_user = λ q. err "no body";
  parse_login = λ q. err "no body";
  parse_redirect = λ q. "";
  count_users = λ w. ok 0;
  generate_hash = λ password. ok password;
  create = λ row w. (ok tt, w);
  stored_hash = λ email w. err "not found";
  compare = λ hash password. false;
  find_user = λ email w. err "not found";
  load_user = λ email w. err "not found";
  make_token = λ user w. err "no key";
  cookie_token = λ q w. none;
  is_valid_token = λ token w. false;
  email_claim = λ token. none;
}

-- `GET /login`, and every other request is a `POST` to a dataset.
abbrev matching : Method → String → String → Bool
matching prefixed path q =
    if path == "/"
    then true
    else (if path == "/:organization" then true else path == "/:organization/:dataset")
matching get path q = (path == "/login") && (q == "/login")
matching post path q = path == "/:organization/:dataset/"

abbrev router : Router String Memory
router = record {
  matches = matching;
  cors = λ c r. (next c, r);
  static_files = λ c r. (text (some 404) "not found", r);
  favicon = λ c r. (next c, r);
  verifier = λ c. next c;
  unmatched = λ q. (404, "Cannot find it");
}

abbrev visit : String → Context String
visit q = record {
  request = q;
  auth_user = none;
  organizations = [];
  organization = none;
  dataset = none;
}

abbrev entering : (q : String) → Enters plain memory db accounts router q (visit q) repo
entering q = record {
  below = refl;
  not_static = refl;
  cors_passes = refl;
  favicon_passes = refl;
  verifier_passes = refl;
}

no_get : (path : String) → matching get path "/lab/survey" ≡ false
no_get path = go (path == "/login")
  where
    go : (b : Bool) → (b && false) ≡ false
    go true = refl
    go false = refl

posting : IsPost plain memory db accounts router "/lab/survey"
posting = record {
  no_get = no_get;
  not_register = refl;
  not_login = refl;
  not_organization = refl;
  not_create = refl;
  organization = refl;
  dataset = refl;
  here = refl;
}

serve_request-IsPost_example :
    serve_request plain memory db accounts router sample_sort (visit "/lab/survey") repo
    ≡ continued plain memory db accounts
        (post_dataset plain memory db accounts sample_sort (visit "/lab/survey") repo)
        (not_found plain memory db accounts router "/lab/survey")
serve_request-IsPost_example =
    serve_request-IsPost plain memory db accounts router sample_sort (visit "/lab/survey") repo
      posting (entering "/lab/survey")

abbrev login_lab : Organization
login_lab = record {
  id = 1;
  slug = "login";
  name = "Login";
  contact = "c";
  description = "";
  is_private = false;
}

login_hides_organization_example :
    serve_request plain memory
      (record db {
        first_organization = λ slug w. ok (record { organization = login_lab; datasets = [] });
      })
      accounts
      router
      sample_sort
      (visit "/login")
      repo
    ≡ serve_request plain memory db accounts router sample_sort (visit "/login") repo
login_hides_organization_example =
    login_hides_organization plain memory db accounts router sample_sort
      (λ slug w. ok (record { organization = login_lab; datasets = [] })) (visit "/login") repo
      (record { not_home = refl; not_register = refl; not_registration = refl; here = refl })
      (entering "/login")
