-- ===== src/Server/Creating/Tests.antt =====
-- Datasets that are made on the host in memory, and on one whose encoder fails.
use dorothy.Base.{◌≡◌, refl, none, some, true, false, []}
use dorothy.Outcome.{Outcome, ok, err, external}
use dorothy.Host.{Host}
use dorothy.Host.Memory.{Memory, memory}
use dorothy.Ipfs.{create_empty_manifest, save_manifest}
use dorothy.Repo.Samples.{world}
use dorothy.Access.{User, Organization}
use dorothy.Server.{Fiber, Database, NewDataset, Context, redirect}
use dorothy.Server.Forms.{
  create_dataset_handler, create_parsed, create_dataset, session_create_dataset, save_new_dataset,
  dataset_of,
}
use dorothy.Server.Creating.{TransactionLaws, MadeDataset, create_dataset_handler_sound}

abbrev survey : NewDataset
survey = record {
  slug = "survey";
  name = "Survey";
  organization_id = 1;
  contact = "c";
  description = none;
  is_private = false;
}

abbrev plain : Fiber
plain = record {
  Request = Unit {0};
  accepts = λ q kind. true;
  path = λ q. "/lab/dataset/create";
  organization_param = λ q. "lab";
  dataset_param = λ q. "";
  parse_payload = λ q. err "no body";
  parse_organization = λ q. err "no body";
  parse_dataset = λ q. ok survey;
}

abbrev db : Database Memory
db = record {
  all_organizations = λ w. ok [];
  first_organization = λ slug w. err "not found";
  first_dataset = λ slug id w. err "not found";
  save_organization = λ o w. (ok o, w);
  save_organization_privilege = λ u o code w. w;
  save_dataset = λ d w. (ok d, w);
  save_dataset_privilege = λ u d code w. (ok tt, w);
  transaction = λ body w. body w;
  timed_out = λ w. false;
}

abbrev lab : Organization
lab = record {
  id = 1;
  slug = "lab";
  name = "Lab";
  contact = "c";
  description = "";
  is_private = false;
}

abbrev doug : User
doug = record {
  id = 1;
  email = "doug@example.com";
  name = "Doug";
  orcid = none;
  role_code = "user";
  organization_privileges = [];
  dataset_privileges = [];
}

abbrev posted : Context (Unit {0})
posted = record {
  request = tt;
  auth_user = some doug;
  organizations = [];
  organization = some (record { organization = lab; datasets = [] });
  dataset = none;
}

abbrev later : Memory
later = (create_dataset_handler plain memory db posted world).1

db-TransactionLaws : TransactionLaws db
db-TransactionLaws = record { committed = λ body w w' e. e }

creating :
    create_dataset_handler plain memory db posted world ≡ (redirect none "/lab/survey", later)
unfolding create_dataset_handler create_parsed create_dataset session_create_dataset
    save_new_dataset dataset_of create_empty_manifest save_manifest
creating = refl

create_dataset_handler_sound_example :
    MadeDataset plain memory db db-TransactionLaws posted "/lab/survey" world later
create_dataset_handler_sound_example =
    create_dataset_handler_sound plain memory db db-TransactionLaws posted "/lab/survey" world later
      creating

abbrev failing : Host
failing = record memory { encode = λ vs. err "no space" }

unsaved : create_empty_manifest failing world ≡ (Outcome.failed (external "no space"), world)
unfolding create_empty_manifest save_manifest
unsaved = refl
