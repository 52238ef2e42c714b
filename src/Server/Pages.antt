-- ===== src/Server/Pages.antt =====
-- server/handlers.go: the handlers that show a view, without the bindings of the view.
use Prim.Native.String.{◌++◌}
use dorothy.Base.{Bool, true, none, some}
use dorothy.Server.{Fiber, Context, Answer, redirect, render}

module _ (fiber : Fiber) where
  open fiber use {Request, path}

  unfoldable pub index : Context Request → Answer Request
  index c = render "views/index"

  unfoldable pub registration_form : Context Request → Answer Request
  registration_form c = render "views/register"

  -- `Logout`, with whether it clears the cookie
  unfoldable pub logout : Context Request → Answer Request × Bool
  logout c = (redirect none "/", true)

  unfoldable pub create_organization_form : Context Request → Answer Request
  create_organization_form c = elim c.auth_user [
    | none ↦ redirect none ("/login?Redirect=" ++ path c.request)
    | some user ↦ render "views/create-organization"
  ]

  -- `Organization`, which shows what `GetOrganization` has loaded
  unfoldable pub organization_page : Context Request → Answer Request
  organization_page c = render "views/organization"

  unfoldable pub create_dataset_form : Context Request → Answer Request
  create_dataset_form c = elim c.organization [
    | none ↦ redirect (some 404) "/"
    | some org ↦ elim c.auth_user [
      | none ↦ redirect none ("/login?Redirect=" ++ path c.request)
      | some user ↦ render "views/create-dataset"
    ]
  ]
