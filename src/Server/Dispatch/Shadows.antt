-- ===== src/Server/Dispatch/Shadows.antt =====
-- Paths of server/server.go that belong to a page and to an organization.
use dorothy.Base.{String, ◌≡◌, refl, sym, ◌∙◌, true, false, Option-cases, inl, inr}
use dorothy.Outcome.{Reply}
use dorothy.Sorter.{Sorter}
use dorothy.Manifest.{Slot}
use dorothy.Host.{Host}
use dorothy.Repo.{Repo}
use dorothy.Access.{Listing}
use dorothy.Server.{Fiber, Database, Context}
use dorothy.Server.Visible.{get_organizations}
use dorothy.Server.Accounts.{Accounts, login_form}
use dorothy.Server.Routes.{Handler, continued, unchanged, authenticate}
use dorothy.Server.Dispatch.{get, post, Router, dispatch, page_routes, serve_request}
use dorothy.Server.Dispatch.Chains.{
  continued_cong, dispatch-skip, dispatch-run, Enters, routes-Enters,
}

-- What fiber matches a `GET /login` with.
pub record IsLogin {R W : Type 0} (router : Router R W) (q : R) : Type 0 where
  pub not_home : router.matches get "/" q ≡ false
  pub not_register : router.matches get "/register" q ≡ false
  pub not_registration : router.matches post "/register" q ≡ false
  pub here : router.matches get "/login" q ≡ true

module _ (fiber : Fiber) (h : Host) (db : Database h.World)
    (accounts : Accounts fiber.Request h.World) (router : Router fiber.Request h.World)
    (sort : Sorter Slot) where
  open fiber use {Request}
  open h use {World}

  -- The login form answers, and no route behind it runs.
  form_answers :
      (k : Handler fiber h db accounts) (c : Context Request) (r : Repo World)
      → continued fiber h db accounts (login_form fiber accounts c, r) k
        ≡ (login_form fiber accounts c, r)
  unfolding login_form
  form_answers k c r = elim (Option-cases c.auth_user) [
    | inl e ↦ rw e refl
    | inr (user, e) ↦ rw e refl
  ]

  page_routes-IsLogin :
      (q : Request)
      → IsLogin router q
      → (c : Context Request) (r : Repo World)
      → dispatch fiber h db accounts router q (page_routes fiber h db accounts router sort) c r
        ≡ (login_form fiber accounts c, r)
  unfolding page_routes
  page_routes-IsLogin q p c r =
      dispatch-skip fiber h db accounts router q get "/" _ _ c r p.not_home
      ∙ dispatch-skip fiber h db accounts router q get "/register" _ _ c r p.not_register
      ∙ dispatch-skip fiber h db accounts router q post "/register" _ _ c r p.not_registration
      ∙ dispatch-run fiber h db accounts router q get "/login" _ _ c r p.here
      ∙ form_answers _ c r

  serve_request-IsLogin :
      (c : Context Request) (r : Repo World)
      → IsLogin router c.request
      → Enters fiber h db accounts router c.request c r
      → serve_request fiber h db accounts router sort c r
        ≡ continued fiber h db accounts (authenticate fiber h db accounts c r) λ c r.
          continued fiber h db accounts
            (unchanged fiber h db accounts (get_organizations fiber db) c r)
            λ c r. (login_form fiber accounts c, r)
  unfolding serve_request
  serve_request-IsLogin c r p e =
      routes-Enters fiber h db accounts router c.request sort c r e
      ∙ continued_cong fiber h db accounts (authenticate fiber h db accounts c r) _ _ λ c' r.
        continued_cong fiber h db accounts
          (unchanged fiber h db accounts (get_organizations fiber db) c' r) _ _
          (page_routes-IsLogin c.request p)

-- A `GET /login` that fiber's own handlers hand on is answered in the same way whatever organization the
-- database has under the slug "login", or under any other.
pub login_hides_organization :
    (fiber : Fiber) (h : Host) (db : Database h.World) (accounts : Accounts fiber.Request h.World)
    (router : Router fiber.Request h.World) (sort : Sorter Slot)
    (found : String → h.World → Reply Listing) (c : Context fiber.Request) (r : Repo h.World)
    → IsLogin router c.request
    → Enters fiber h db accounts router c.request c r
    → serve_request fiber h (record db { first_organization = found }) accounts router sort c r
      ≡ serve_request fiber h db accounts router sort c r
unfolding get_organizations authenticate
login_hides_organization fiber h db accounts router sort found c r p e =
    let e' : Enters fiber h (record db { first_organization = found }) accounts router c.request c
        r =
      record {
        below = e.below;
        not_static = e.not_static;
        cors_passes = e.cors_passes;
        favicon_passes = e.favicon_passes;
        verifier_passes = e.verifier_passes;
      } in
    serve_request-IsLogin fiber h (record db { first_organization = found }) accounts router sort c
      r p e'
    ∙ sym (serve_request-IsLogin fiber h db accounts router sort c r p e)
