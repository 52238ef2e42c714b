-- ===== src/Server/Visible.antt =====
-- server/handlers.go: `GetOrganizations` and `GetOrganization`, which load what the user may see.
use Prim.Native.String.{◌++◌}
use dorothy.Base.{
  Option, none, some, Bool, true, false, not, List, [], ◌∷◌, select, ◌==◌, if◌then◌else◌,
}
use dorothy.Outcome.{ok, err}
use dorothy.Access.{User, Organization, Dataset, Listing, can_read_organization, can_read_dataset}
use dorothy.Server.{Fiber, Database, Context, Answer, next, redirect, panic}

-- The loops over the datasets of an organization. `none` is a panic of `CanReadDataset`.
unfoldable pub public_datasets : List Dataset → List Dataset
public_datasets ds = select (λ d. not d.is_private) ds

abbrev pub keep : {A : Type 0} → Option Bool → A → Option (List A) → Option (List A)
keep none a rest = none
keep (some b) a none = none
keep (some true) a (some bs) = some (a ∷ bs)
keep (some false) a (some bs) = some bs

unfoldable pub readable_datasets : User → List Dataset → Option (List Dataset)
readable_datasets user [] = some []
readable_datasets user (d ∷ ds) = keep (can_read_dataset user d) d (readable_datasets user ds)

unfoldable pub visible_datasets : Option User → List Dataset → Option (List Dataset)
unfolding public_datasets readable_datasets
visible_datasets none ds = some (public_datasets ds)
visible_datasets (some user) ds = readable_datasets user ds

-- `org.IsPrivate` for a visitor, `CanReadOrganization` for a user
unfoldable pub may_see : Option User → Organization → Bool
may_see none org = not org.is_private
may_see (some user) org = can_read_organization user org

abbrev pub show :
    Bool → Organization → Option (List Dataset) → Option (List Listing) → Option (List Listing)
show false org ds rest = rest
show true org none rest = none
show true org (some ds) none = none
show true org (some ds) (some rest) = some (record { organization = org; datasets = ds } ∷ rest)

unfoldable pub visible_organizations : Option User → List Listing → Option (List Listing)
unfolding visible_datasets may_see
visible_organizations user [] = some []
visible_organizations user (l ∷ ls) =
    show (may_see user l.organization) l.organization (visible_datasets user l.datasets)
      (visible_organizations user ls)

module _ (fiber : Fiber) {W : Type 0} (db : Database W) where
  open fiber use {Request, path, organization_param}

  unfoldable pub get_organizations : Context Request → W → Answer Request
  unfolding visible_organizations
  get_organizations c w = elim (db.all_organizations w) [
    | err e ↦ redirect (some 500) "/"
    | ok orgs ↦ elim (visible_organizations c.auth_user orgs) [
      | none ↦ panic
      | some seen ↦ next (record c { organizations = seen })
    ]
  ]

  -- Where a user goes who may not see the organization.
  unfoldable pub turn_away : Context Request → Answer Request
  turn_away c = elim c.auth_user [
    | none ↦ redirect (some 401) ("/login?Redirect=" ++ path c.request)
    | some user ↦ redirect (some 403) "/"
  ]

  unfoldable pub get_organization : Context Request → W → Answer Request
  unfolding may_see visible_datasets turn_away
  get_organization c w =
      let slug = organization_param c.request in
      if slug == "" then redirect (some 404) "/" else elim (db.first_organization slug w) [
        | err e ↦ redirect (some 404) "/"
        | ok l ↦
            if not (may_see c.auth_user l.organization)
            then turn_away c
            else elim (visible_datasets c.auth_user l.datasets) [
              | none ↦ panic
              | some ds ↦ next (record c {
                organization = some (record { organization = l.organization; datasets = ds });
              })
            ]
      ]
