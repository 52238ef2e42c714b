-- ===== src/Server/Tests.antt =====
-- Instances of the theorems about server/handlers.go.
use dorothy.Base.{
  String, ◌≡◌, ◌↔◌, refl, none, some, true, false, [], ◌∷◌, Mem, select, collect, any, decide,
}
use dorothy.Version.{same_hash, same_parents, same_elements, equal}
use dorothy.Outcome.{ok, err}
use dorothy.Sorter.Reference.{reference, reference-IsSorter}
use dorothy.Manifest.{toposort, merge, diff, conflicts, conflicts_of, found}
use dorothy.Manifest.Calls.{Slot-discrete}
use dorothy.Manifest.Samples.{sample_sort, first, second}
use dorothy.Host.Memory.{Memory, memory, memory-HostLaws}
use dorothy.Ipfs.{
  save_manifest, get_manifest, file_text, merge_and_commit, commit_all, commit_version,
  connect_to_peer_by_id,
}
use dorothy.Sdk.{Payload}
use dorothy.Repo.{Repo, recieve}
use dorothy.Repo.Samples.{repo}
use dorothy.Access.{Organization, Dataset}
use dorothy.Server.{Fiber, Database, Context, next, json, payload_body}
use dorothy.Server.Visible.{
  visible_datasets, public_datasets, get_organizations, visible_organizations, get_organization,
  may_see,
}
use dorothy.Server.Accounts.{Accounts, authenticator}
use dorothy.Server.Routes.{authenticate, with_dataset, post_dataset}
use dorothy.Server.Posting.{Posted, post_dataset_sound}
use dorothy.Server.Datasets.{
  verdict, attach_manifest, show_dataset, found_dataset, dataset_within, get_dataset, save_merged,
  merge_received, connected, recieve_dataset,
}
use dorothy.Server.Access.{MayRead, mem-visible_datasets_iff}

abbrev lab : Organization
lab = record {
  id = 1;
  slug = "lab";
  name = "Lab";
  contact = "c";
  description = "";
  is_private = false;
}

abbrev survey : Dataset
survey = record {
  id = 7;
  slug = "survey";
  name = "Survey";
  contact = "c";
  description = "";
  is_private = false;
  organization_id = 1;
  manifest_hash = "Qx";
  manifest = none;
  organization = some lab;
}

abbrev secret : Dataset
secret = record survey { is_private = true }

abbrev fiber : Fiber
fiber = record {
  Request = Unit {0};
  accepts = λ q kind. false;
  path = λ q. "/lab/survey";
  organization_param = λ q. "lab";
  dataset_param = λ q. "survey";
  parse_payload = λ q. ok (record { hash = "Qx"; peer_identity = "peer" });
  parse_organization = λ q. err "no body";
  parse_dataset = λ q. err "no body";
}

abbrev db : Database Memory
db = record {
  all_organizations = λ w. ok [];
  first_organization = λ slug w. err "not found";
  first_dataset = λ slug id w. ok survey;
  save_organization = λ o w. (ok o, w);
  save_organization_privilege = λ u o code w. w;
  save_dataset = λ d w. (ok d, w);
  save_dataset_privilege = λ u d code w. (ok tt, w);
  transaction = λ body w. body w;
  timed_out = λ w. false;
}

abbrev visitor : Context (Unit {0})
visitor = record {
  request = tt;
  auth_user = none;
  organizations = [];
  organization = some (record { organization = lab; datasets = survey ∷ [] });
  dataset = none;
}

program : Unit {0}
unfolding toposort merge diff conflicts conflicts_of found reference Slot-discrete collect any
    select decide same_hash same_parents same_elements equal save_manifest get_manifest file_text
    merge_and_commit commit_all commit_version connect_to_peer_by_id recieve visible_datasets
    public_datasets verdict attach_manifest show_dataset found_dataset dataset_within get_dataset
    save_merged merge_received connected recieve_dataset get_organizations visible_organizations
    get_organization may_see authenticator authenticate with_dataset post_dataset
program = tt

seen : visible_datasets none (secret ∷ survey ∷ []) ≡ some (survey ∷ [])
unfolding program
seen = refl

mem-visible_datasets_iff_example :
    Mem survey (survey ∷ []) ↔ (Mem survey (secret ∷ survey ∷ []) × MayRead none survey)
mem-visible_datasets_iff_example =
    mem-visible_datasets_iff none (secret ∷ survey ∷ []) (survey ∷ []) seen survey

abbrev opened : Context (Unit {0})
opened = record visitor {
  dataset =
      some (record survey {
        manifest = some (record { versions = first ∷ second ∷ []; hash = "Qx" });
      });
}

opening : get_dataset fiber memory db visitor repo ≡ (next opened, repo)
unfolding program
opening = refl

abbrev receiving_repo : Repo Memory
receiving_repo = (recieve_dataset fiber memory db sample_sort opened repo).1

abbrev answer : Payload
answer = record { hash = "QQm"; peer_identity = "peer" }

receiving :
    recieve_dataset fiber memory db sample_sort opened repo
    ≡ (json none (payload_body answer), receiving_repo)
unfolding program
receiving = refl

abbrev public_db : Database Memory
public_db = record db {
  first_organization = λ slug w. ok (record { organization = lab; datasets = survey ∷ [] });
}

-- Nobody carries a cookie.
abbrev accounts : Accounts (Unit {0}) Memory
accounts = record {
  Token = String;
  parse_new_user = λ q. err "no body";
  parse_login = λ q. err "no body";
  parse_redirect = λ q. "";
  count_users = λ w. ok 0;
  generate_hash = λ password. ok password;
  create = λ row w. (ok tt, w);
  stored_hash = λ email w. err "not found";
  compare = λ hash password. false;
  find_user = λ email w. err "not found";
  load_user = λ email w. err "not found";
  make_token = λ user w. err "no key";
  cookie_token = λ q w. none;
  is_valid_token = λ token w. false;
  email_claim = λ token. none;
}

abbrev stranger : Context (Unit {0})
stranger = record visitor { organization = none }

abbrev posted_repo : Repo Memory
posted_repo = (post_dataset fiber memory public_db accounts sample_sort stranger repo).1

posting :
    post_dataset fiber memory public_db accounts sample_sort stranger repo
    ≡ (json none (payload_body answer), posted_repo)
unfolding program
posting = refl

post_dataset_sound_example :
    Posted fiber memory public_db accounts sample_sort memory-HostLaws
      (reference-IsSorter Slot-discrete)
      stranger
      answer
      repo
      posted_repo
post_dataset_sound_example =
    post_dataset_sound fiber memory public_db accounts sample_sort memory-HostLaws
      (reference-IsSorter Slot-discrete) stranger repo posted_repo answer refl posting
