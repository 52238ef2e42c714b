-- ===== src/Access/Organizations.antt =====
-- Who may do what with an organization (server/model/user.go).
use dorothy.Base.{
  String, refl, ◌≡◌, ◌≢◌, ◌↔◌, ◌⊎◌, Option, none, some, Bool, true, false, not, ◌&&◌, ◌==◌,
  if◌then◌else◌, arith, inl, inr, eq_iff, Bool-cases,
}
use dorothy.Access.{
  User, Organization, organization_entry, entry_or_default, organization_privilege,
  can_read_organization, can_write_organization, can_manage_organization,
}

-- An entry decides by its code; without one, `default` does.
abbrev pub Decides : Option String → (String → Type 0) → Type 0 → Type 0
Decides (some code) P default = P code
Decides none P default = default

default_reads :
    (entry : Option String) (is_private : Bool)
    → (not (entry_or_default entry is_private == "") ≡ true)
      ↔ Decides entry (λ code. code ≢ "") (is_private ≡ false)
unfolding entry_or_default
default_reads (some code) is_private = ground (arith, eq_iff code "")
default_reads none true = (λ h. cc, λ h. cc)
default_reads none false = (λ _. refl, λ _. refl)

default_writes :
    (entry : Option String) (is_private : Bool)
    → let code = entry_or_default entry is_private in
      ((not (code == "") && not (code == "read")) ≡ true)
      ↔ Decides entry (λ c. (c ≢ "") × (c ≢ "read")) ⊥
unfolding entry_or_default
default_writes (some code) is_private = ground (arith, eq_iff code "", eq_iff code "read")
default_writes none true = (λ h. cc, λ h. absurd h)
default_writes none false = (λ h. cc, λ h. absurd h)

default_manages :
    (entry : Option String) (is_private : Bool)
    → ((entry_or_default entry is_private == "admin") ≡ true) ↔ Decides entry (λ c. c ≡ "admin") ⊥
unfolding entry_or_default
default_manages (some code) is_private = eq_iff code "admin"
default_manages none true = (λ h. cc, λ h. absurd h)
default_manages none false = (λ h. cc, λ h. absurd h)

-- A test of a privilege that passes "admin" passes by the role, or by what stands in its place.
pub by_role_or :
    (role code : String) (test : String → Bool) {D : Type 0}
    → test "admin" ≡ true
    → (test code ≡ true) ↔ D
    → (test (if role == "admin" then "admin" else code) ≡ true) ↔ ((role ≡ "admin") ⊎ D)
by_role_or role code test admin iff = elim (Bool-cases (role == "admin")) [
  | inl e ↦ rw e (λ _. inl ((eq_iff role "admin").0 e), λ _. admin)
  | inr e ↦ rw e (
    λ h. inr (iff.0 h),
    λ h. elim h [ inl r ↦ (let t = (eq_iff role "admin").1 r in cc) | inr d ↦ iff.1 d ],
  )
]

module _ (user : User) (org : Organization) where
  abbrev entry : Option String
  entry = organization_entry user.organization_privileges org.id

  -- A user can read an organization exactly by the admin role, by a first privilege for it whose
  -- code is not empty, or, with no privilege for it, if it is public.
  pub can_read_organization_iff :
      (can_read_organization user org ≡ true)
      ↔ ((user.role_code ≡ "admin") ⊎ Decides entry (λ c. c ≢ "") (org.is_private ≡ false))
  unfolding can_read_organization organization_privilege
  can_read_organization_iff =
      by_role_or user.role_code (entry_or_default entry org.is_private) (λ p. not (p == "")) refl
        (default_reads entry org.is_private)

  -- A user can write to an organization exactly by the admin role or by a first privilege for it
  -- whose code is neither empty nor "read".
  pub can_write_organization_iff :
      (can_write_organization user org ≡ true)
      ↔ ((user.role_code ≡ "admin") ⊎ Decides entry (λ c. (c ≢ "") × (c ≢ "read")) ⊥)
  unfolding can_write_organization organization_privilege
  can_write_organization_iff =
      by_role_or user.role_code (entry_or_default entry org.is_private)
        (λ p. not (p == "") && not (p == "read")) refl (default_writes entry org.is_private)

  -- A user can manage an organization exactly by the admin role or by a first privilege for it
  -- with the code "admin".
  pub can_manage_organization_iff :
      (can_manage_organization user org ≡ true)
      ↔ ((user.role_code ≡ "admin") ⊎ Decides entry (λ c. c ≡ "admin") ⊥)
  unfolding can_manage_organization organization_privilege
  can_manage_organization_iff =
      by_role_or user.role_code (entry_or_default entry org.is_private) (λ p. p == "admin") refl
        (default_manages entry org.is_private)

-- Managing an organization includes writing it, and writing it includes reading it.
pub organization_levels :
    (user : User) (org : Organization)
    → (can_manage_organization user org ≡ true → can_write_organization user org ≡ true)
      × (can_write_organization user org ≡ true → can_read_organization user org ≡ true)
unfolding can_manage_organization can_write_organization can_read_organization
organization_levels user org =
    (λ h. rw ((eq_iff (organization_privilege user org) "admin").0 h) refl, λ h. ground arith)
