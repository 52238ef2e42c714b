-- ===== src/Access.antt =====
-- server/model: users, organizations, datasets and privileges (user.go, organization.go, dataset.go,
-- privilege.go). The columns that no modelled operation reads are left out (the times that gorm
-- keeps, the descriptions of roles, the list of a record's user privileges).
pub mod Organizations
pub mod Datasets
mod Tests
use mathlib.Core.Option
use dorothy.Base.{
  ℕ, String, Option, none, some, Bool, not, ◌&&◌, List, [], ◌∷◌, ◌==◌, eqb, if◌then◌else◌,
}
use dorothy.Manifest.{Manifest}

-- `Organization`; its datasets are in `Listing`, since the two Go types name each other
pub record Organization : Type 0 where
  pub id : ℕ
  pub slug : String
  pub name : String
  pub contact : String
  pub description : String
  pub is_private : Bool

-- `Dataset`; `organization` is nil until it is preloaded
pub record Dataset : Type 0 where
  pub id : ℕ
  pub slug : String
  pub name : String
  pub contact : String
  pub description : String
  pub is_private : Bool
  pub organization_id : ℕ
  pub manifest_hash : String
  pub manifest : Option Manifest
  pub organization : Option Organization

-- An organization with its preloaded field `Datasets`.
pub record Listing : Type 0 where
  pub organization : Organization
  pub datasets : List Dataset

pub record UserOrganizationPrivilege : Type 0 where
  pub organization_id : ℕ
  pub privilege_code : String

pub record UserDatasetPrivilege : Type 0 where
  pub dataset_id : ℕ
  pub privilege_code : String

pub record User : Type 0 where
  pub id : ℕ
  pub email : String
  pub name : String
  pub orcid : Option String
  pub role_code : String
  pub organization_privileges : List UserOrganizationPrivilege
  pub dataset_privileges : List UserDatasetPrivilege

-- The loops over the privileges: the code of the first entry for the identifier.
unfoldable pub organization_entry : List UserOrganizationPrivilege → ℕ → Option String
organization_entry [] id = none
organization_entry (p ∷ ps) id =
    if eqb p.organization_id id then some p.privilege_code else organization_entry ps id

unfoldable pub dataset_entry : List UserDatasetPrivilege → ℕ → Option String
dataset_entry [] id = none
dataset_entry (p ∷ ps) id =
    if eqb p.dataset_id id then some p.privilege_code else dataset_entry ps id

-- The entry that the loop returned, or what stands below the loop.
unfoldable pub entry_or_default : Option String → Bool → String
entry_or_default (some code) is_private = code
entry_or_default none is_private = if is_private then "" else "read"

unfoldable pub organization_privilege : User → Organization → String
unfolding entry_or_default
organization_privilege user org =
    if user.role_code == "admin"
    then "admin"
    else entry_or_default (organization_entry user.organization_privileges org.id) org.is_private

unfoldable pub can_read_organization : User → Organization → Bool
can_read_organization user org = not (organization_privilege user org == "")

unfoldable pub can_write_organization : User → Organization → Bool
can_write_organization user org =
    let privilege = organization_privilege user org in
    not (privilege == "") && not (privilege == "read")

unfoldable pub can_manage_organization : User → Organization → Bool
can_manage_organization user org = organization_privilege user org == "admin"

-- The end of `DatasetPrivilege`, where the user has no entry for the dataset: what the user may do
-- with the organization decides. `none` is the panic of `*org` at a nil organization.
unfoldable pub inherited_privilege : User → Bool → Option Organization → Option String
inherited_privilege user is_private none = none
inherited_privilege user is_private (some org) = some (
    if is_private
    then (if can_manage_organization user org then "admin" else "")
    else (if can_read_organization user org then "read" else ""))

unfoldable pub entry_or_inherited : Option String → Option String → Option String
entry_or_inherited (some code) inherited = some code
entry_or_inherited none inherited = inherited

unfoldable pub dataset_privilege : User → Dataset → Option String
unfolding inherited_privilege entry_or_inherited
dataset_privilege user dataset =
    if user.role_code == "admin"
    then some "admin"
    else entry_or_inherited (dataset_entry user.dataset_privileges dataset.id)
        (inherited_privilege user dataset.is_private dataset.organization)

unfoldable pub can_read_dataset : User → Dataset → Option Bool
can_read_dataset user dataset = Option.map (λ p. not (p == "")) (dataset_privilege user dataset)

unfoldable pub can_write_dataset : User → Dataset → Option Bool
can_write_dataset user dataset =
    Option.map (λ p. not (p == "") && not (p == "read")) (dataset_privilege user dataset)

unfoldable pub can_manage_dataset : User → Dataset → Option Bool
can_manage_dataset user dataset = Option.map (λ p. p == "admin") (dataset_privilege user dataset)
