-- ===== src/Access/Datasets.antt =====
-- Who may do what with a dataset whose organization is loaded (server/model/user.go).
use mathlib.Core.Option
use dorothy.Base.{
  String, refl, ◌≡◌, ◌≢◌, ◌↔◌, ◌⊎◌, Option, none, some, Bool, true, false, not, ◌&&◌, ◌==◌,
  if◌then◌else◌, arith, inl, inr, eq_iff,
}
use dorothy.Access.{
  User, Organization, Dataset, dataset_entry, can_read_organization, can_manage_organization,
  dataset_privilege, can_read_dataset, can_write_dataset, can_manage_dataset,
}
use dorothy.Access.Organizations.{Decides, by_role_or, organization_levels}

-- What the organization gives a user who has no entry for the dataset.
inherited : Bool → Bool → Bool → String
inherited true manages reads = if manages then "admin" else ""
inherited false manages reads = if reads then "read" else ""

code_or : Option String → String → String
code_or (some code) default = code
code_or none default = default

-- What `inherited` lets a user do, for each of the three tests.
abbrev Reads : Bool → Bool → Bool → Type 0
Reads true manages reads = manages ≡ true
Reads false manages reads = reads ≡ true

abbrev Writes : Bool → Bool → Type 0
Writes is_private manages = (is_private ≡ true) × (manages ≡ true)

module _ (entry : Option String) (is_private manages reads : Bool) where
  abbrev code : String
  code = code_or entry (inherited is_private manages reads)

code-Reads :
    (entry : Option String) (is_private manages reads : Bool)
    → (not (code entry is_private manages reads == "") ≡ true)
      ↔ Decides entry (λ c. c ≢ "") (Reads is_private manages reads)
unfolding code_or inherited
code-Reads (some c) is_private manages reads = ground (arith, eq_iff c "")
code-Reads none true true reads = (λ _. refl, λ _. refl)
code-Reads none true false reads = (λ h. cc, λ h. cc)
code-Reads none false manages true = (λ _. refl, λ _. refl)
code-Reads none false manages false = (λ h. cc, λ h. cc)

code-Writes :
    (entry : Option String) (is_private manages reads : Bool)
    → let c = code entry is_private manages reads in
      ((not (c == "") && not (c == "read")) ≡ true)
      ↔ Decides entry (λ c. (c ≢ "") × (c ≢ "read")) (Writes is_private manages)
unfolding code_or inherited
code-Writes (some c) is_private manages reads = ground (arith, eq_iff c "", eq_iff c "read")
code-Writes none true true reads = (λ _. (refl, refl), λ _. refl)
code-Writes none true false reads = (λ h. cc, λ (_, h). cc)
code-Writes none false manages true = (λ h. cc, λ (h, _). cc)
code-Writes none false manages false = (λ h. cc, λ (h, _). cc)

code_manages :
    (entry : Option String) (is_private manages reads : Bool)
    → ((code entry is_private manages reads == "admin") ≡ true)
      ↔ Decides entry (λ c. c ≡ "admin") (Writes is_private manages)
unfolding code_or inherited
code_manages (some c) is_private manages reads = eq_iff c "admin"
code_manages none true true reads = (λ _. (refl, refl), λ _. refl)
code_manages none true false reads = (λ h. cc, λ (_, h). cc)
code_manages none false manages true = (λ h. cc, λ (h, _). cc)
code_manages none false manages false = (λ h. cc, λ (h, _). cc)

module _ (user : User) (dataset : Dataset) (org : Organization)
    (loaded : dataset.organization ≡ some org) where
  abbrev entry : Option String
  entry = dataset_entry user.dataset_privileges dataset.id

  abbrev own : String
  own =
      code entry dataset.is_private (can_manage_organization user org)
        (can_read_organization user org)

  dataset_privilege_lem :
      dataset_privilege user dataset ≡ some (if user.role_code == "admin" then "admin" else own)
  unfolding dataset_privilege code_or inherited
  dataset_privilege_lem = rw loaded (ground arith)

  some_iff :
      {b : Bool} {o : Option Bool} {D : Type 0} → o ≡ some b → (b ≡ true) ↔ D → (o ≡ some true) ↔ D
  some_iff e iff = (λ h. iff.0 (cc), λ d. let t = iff.1 d in cc)

  -- A dataset can be read exactly by the admin role, by a first privilege for it whose code is not
  -- empty, or, with no privilege for it, by managing its organization if it is private, and by
  -- reading its organization if it is public.
  pub can_read_dataset_iff : (can_read_dataset user dataset ≡ some true) ↔ (
      (user.role_code ≡ "admin")
      ⊎ Decides entry
          (λ c. c ≢ "")
          (Reads dataset.is_private
            (can_manage_organization user org)
            (can_read_organization user org)))
  unfolding can_read_dataset
  can_read_dataset_iff = some_iff (rw (dataset_privilege_lem, can_read_dataset)) (
      by_role_or user.role_code own (λ p. not (p == "")) refl
        (code-Reads entry dataset.is_private _ _))

  -- A dataset can be written exactly by the admin role, by a first privilege for it whose code is
  -- neither empty nor "read", or, with no privilege for it, by managing its organization if the
  -- dataset is private.
  pub can_write_dataset_iff : (can_write_dataset user dataset ≡ some true) ↔ (
      (user.role_code ≡ "admin")
      ⊎ Decides entry
          (λ c. (c ≢ "") × (c ≢ "read"))
          (Writes dataset.is_private (can_manage_organization user org)))
  unfolding can_write_dataset
  can_write_dataset_iff = some_iff (rw (dataset_privilege_lem, can_write_dataset)) (
      by_role_or user.role_code own (λ p. not (p == "") && not (p == "read")) refl
        (code-Writes entry dataset.is_private _ _))

  -- A dataset can be managed exactly by the admin role, by a first privilege for it with the code
  -- "admin", or, with no privilege for it, by managing its organization if the dataset is private.
  pub can_manage_dataset_iff : (can_manage_dataset user dataset ≡ some true) ↔ (
      (user.role_code ≡ "admin")
      ⊎ Decides entry
          (λ c. c ≡ "admin")
          (Writes dataset.is_private (can_manage_organization user org)))
  unfolding can_manage_dataset
  can_manage_dataset_iff = some_iff (rw (dataset_privilege_lem, can_manage_dataset)) (
      by_role_or user.role_code own (λ p. p == "admin") refl
        (code_manages entry dataset.is_private _ _))

  -- An organization's manager who has no privilege of their own for a public dataset can only read
  -- it, while the same manager could write it if it were private.
  pub manager_cannot_write_public :
      user.role_code ≢ "admin"
      → entry ≡ none
      → dataset.is_private ≡ false
      → can_manage_organization user org ≡ true
      → (can_read_dataset user dataset ≡ some true) × (can_write_dataset user dataset ≢ some true)
  manager_cannot_write_public ne e public manages =
      let levels = organization_levels user org in
      (
        can_read_dataset_iff.1 (inr (rw (e, public) (levels.1 (levels.0 manages)))),
        λ h. elim (can_write_dataset_iff.0 h) [
          | inl r ↦ ne r
          | inr d ↦ (let (p, _) = rw e at d in cc)
        ],
      )

levels_of :
    (o : Option String)
    → let manage = Option.map (λ p. p == "admin") o in
      let write = Option.map (λ p. not (p == "") && not (p == "read")) o in
      let read = Option.map (λ p. not (p == "")) o in
      (manage ≡ some true → write ≡ some true) × (write ≡ some true → read ≡ some true)
levels_of none = (λ h. cc, λ h. cc)
levels_of (some p) =
    (λ h. let q : (p == "admin") ≡ true = cc in rw ((eq_iff p "admin").0 q) refl, λ h. ground arith)

-- Managing a dataset includes writing it, and writing it includes reading it.
pub dataset_levels :
    (user : User) (dataset : Dataset)
    → (can_manage_dataset user dataset ≡ some true → can_write_dataset user dataset ≡ some true)
      × (can_write_dataset user dataset ≡ some true → can_read_dataset user dataset ≡ some true)
unfolding can_manage_dataset can_write_dataset can_read_dataset
dataset_levels user dataset = levels_of (dataset_privilege user dataset)
