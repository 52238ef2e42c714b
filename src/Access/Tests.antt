-- ===== src/Access/Tests.antt =====
-- Instances of the theorems about server/model/user.go.
use dorothy.Base.{◌≡◌, ◌≢◌, refl, none, some, true, false, [], ◌∷◌}
use dorothy.Access.{
  User, Organization, Dataset, organization_entry, dataset_entry, can_manage_organization,
  organization_privilege, entry_or_default, can_read_dataset, can_write_dataset,
}
use dorothy.Access.Datasets.{manager_cannot_write_public}

abbrev lab : Organization
lab = record {
  id = 1;
  slug = "lab";
  name = "Lab";
  contact = "c";
  description = "";
  is_private = true;
}

abbrev survey : Dataset
survey = record {
  id = 7;
  slug = "survey";
  name = "Survey";
  contact = "c";
  description = "";
  is_private = false;
  organization_id = 1;
  manifest_hash = "Qm";
  manifest = none;
  organization = some lab;
}

abbrev manager : User
manager = record {
  id = 3;
  email = "m@example.com";
  name = "M";
  orcid = none;
  role_code = "user";
  organization_privileges = record { organization_id = 1; privilege_code = "admin" } ∷ [];
  dataset_privileges = [];
}

manages_lab : can_manage_organization manager lab ≡ true
unfolding can_manage_organization organization_privilege entry_or_default organization_entry
manages_lab = refl

no_entry : dataset_entry manager.dataset_privileges survey.id ≡ none
unfolding dataset_entry
no_entry = refl

manager_cannot_write_public_example :
    (can_read_dataset manager survey ≡ some true) × (can_write_dataset manager survey ≢ some true)
manager_cannot_write_public_example =
    manager_cannot_write_public manager survey lab refl (λ e. cc) no_entry refl manages_lab
