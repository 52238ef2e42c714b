-- ===== src/Server/Dispatch/Posts.antt =====
-- Which handlers of server/server.go a request that sends a manifest runs.
use dorothy.Base.{String, ◌≡◌, refl, ◌∙◌, true, false, []}
use dorothy.Sorter.{Sorter}
use dorothy.Manifest.{Slot}
use dorothy.Host.{Host}
use dorothy.Repo.{Repo}
use dorothy.Server.{Fiber, Database, Context}
use dorothy.Server.Visible.{get_organizations, get_organization}
use dorothy.Server.Datasets.{get_dataset, recieve_dataset, dataset_page}
use dorothy.Server.Accounts.{Accounts}
use dorothy.Server.Routes.{Handler, continued, unchanged, authenticate, with_dataset, post_dataset}
use dorothy.Server.Dispatch.{
  prefixed, get, post, Router, dispatch, not_found, dataset_routes, organization_routes,
  page_routes, serve_request,
}
use dorothy.Server.Dispatch.Chains.{
  continued_cong, continued_assoc, dispatch-skip, dispatch-run, Enters, routes-Enters,
}

module _ (fiber : Fiber) (h : Host) (db : Database h.World)
    (accounts : Accounts fiber.Request h.World) (router : Router fiber.Request h.World) where
  open fiber use {Request}
  open h use {World}
  open router use {matches}

  -- What fiber matches a `POST /:organization/:dataset` with.
  pub record IsPost (q : Request) : Type 0 where
    pub no_get : (path : String) → matches get path q ≡ false
    pub not_register : matches post "/register" q ≡ false
    pub not_login : matches post "/login" q ≡ false
    pub not_organization : matches post "/organization/create" q ≡ false
    pub not_create : matches post "/:organization/dataset/create" q ≡ false
    pub organization : matches prefixed "/:organization" q ≡ true
    pub dataset : matches prefixed "/:organization/:dataset" q ≡ true
    pub here : matches post "/:organization/:dataset/" q ≡ true

  module _ (sort : Sorter Slot) (q : Request) (p : IsPost q) where
    -- What is behind a dataset's manifest: nothing.
    abbrev nothing : Handler fiber h db accounts
    nothing = not_found fiber h db accounts router q

    dataset_routes-IsPost :
        (c : Context Request) (r : Repo World)
        → dispatch fiber h db accounts router q (dataset_routes fiber h db accounts router sort) c r
          ≡ continued fiber h db accounts
              (get_dataset fiber h db c r)
              λ c r. continued fiber h db accounts (recieve_dataset fiber h db sort c r) nothing
    unfolding dataset_routes
    dataset_routes-IsPost c r =
        dispatch-run fiber h db accounts router q prefixed "/:organization/:dataset"
          (get_dataset fiber h db) _ c r p.dataset
        ∙ continued_cong fiber h db accounts (get_dataset fiber h db c r) _ _ λ c r.
          dispatch-skip fiber h db accounts router q get "/:organization/:dataset/"
            (dataset_page fiber h db) _ c r (p.no_get "/:organization/:dataset/")
          ∙ dispatch-run fiber h db accounts router q post "/:organization/:dataset/"
              (recieve_dataset fiber h db sort) [] c r p.here
          ∙ continued_cong fiber h db accounts (recieve_dataset fiber h db sort c r) _ _
              λ c r. no_route c r
      where
        no_route :
            (c : Context Request) (r : Repo World)
            → dispatch fiber h db accounts router q [] c r ≡ nothing c r
        no_route c r = unfold dispatch in refl

    abbrev below_dataset : Handler fiber h db accounts
    below_dataset c r =
        continued fiber h db accounts (get_dataset fiber h db c r)
          λ c r. continued fiber h db accounts (recieve_dataset fiber h db sort c r) nothing

    abbrev organization_of_path : Handler fiber h db accounts
    organization_of_path = unchanged fiber h db accounts (get_organization fiber db)

    organization_routes-IsPost :
        (c : Context Request) (r : Repo World)
        → dispatch fiber h db accounts router q
            (organization_routes fiber h db accounts router sort)
            c
            r
          ≡ continued fiber h db accounts (organization_of_path c r) below_dataset
    unfolding organization_routes
    organization_routes-IsPost c r =
        dispatch-run fiber h db accounts router q prefixed "/:organization" organization_of_path _ c
          r p.organization
        ∙ continued_cong fiber h db accounts (organization_of_path c r) _ _ λ c r.
          dispatch-skip fiber h db accounts router q get "/:organization/" _ _ c r
            (p.no_get "/:organization/")
          ∙ dispatch-skip fiber h db accounts router q get "/:organization/dataset/create" _ _ c r
              (p.no_get "/:organization/dataset/create")
          ∙ dispatch-skip fiber h db accounts router q post "/:organization/dataset/create" _ _ c r
              p.not_create
          ∙ dataset_routes-IsPost c r

    page_routes-IsPost :
        (c : Context Request) (r : Repo World)
        → dispatch fiber h db accounts router q (page_routes fiber h db accounts router sort) c r
          ≡ dispatch fiber h db accounts router q
              (organization_routes fiber h db accounts router sort)
              c
              r
    unfolding page_routes
    page_routes-IsPost c r =
        dispatch-skip fiber h db accounts router q get "/" _ _ c r (p.no_get "/")
        ∙ dispatch-skip fiber h db accounts router q get "/register" _ _ c r (p.no_get "/register")
        ∙ dispatch-skip fiber h db accounts router q post "/register" _ _ c r p.not_register
        ∙ dispatch-skip fiber h db accounts router q get "/login" _ _ c r (p.no_get "/login")
        ∙ dispatch-skip fiber h db accounts router q post "/login" _ _ c r p.not_login
        ∙ dispatch-skip fiber h db accounts router q get "/logout" _ _ c r (p.no_get "/logout")
        ∙ dispatch-skip fiber h db accounts router q get "/organization/create" _ _ c r
            (p.no_get "/organization/create")
        ∙ dispatch-skip fiber h db accounts router q post "/organization/create" _ _ c r
            p.not_organization

  -- A request that fiber matches with `POST /:organization/:dataset` only, and that fiber's own handlers
  -- hand on, is answered by the handlers in front of the dataset and `RecieveDataset`, in the order of
  -- `post_dataset`; what no handler answers is not found.
  pub serve_request-IsPost :
      (sort : Sorter Slot) (c : Context Request) (r : Repo World)
      → IsPost c.request
      → Enters fiber h db accounts router c.request c r
      → serve_request fiber h db accounts router sort c r
        ≡ continued fiber h db accounts
            (post_dataset fiber h db accounts sort c r)
            (not_found fiber h db accounts router c.request)
  unfolding serve_request post_dataset with_dataset
  serve_request-IsPost sort c r p e =
      let q = c.request in
      let none_left = not_found fiber h db accounts router q in
      let orgs = unchanged fiber h db accounts (get_organizations fiber db) in
      let org = unchanged fiber h db accounts (get_organization fiber db) in
      routes-Enters fiber h db accounts router q sort c r e
      ∙ continued_cong fiber h db accounts (authenticate fiber h db accounts c r) _ _ (λ c r.
        continued_cong fiber h db accounts (orgs c r) _ _
          λ c r. page_routes-IsPost sort q p c r ∙ organization_routes-IsPost sort q p c r)
      ∙ continued_assoc fiber h db accounts (authenticate fiber h db accounts c r) _ _ none_left
          (λ c r. continued_assoc fiber h db accounts (orgs c r) _ _ none_left λ c r.
            continued_assoc fiber h db accounts (org c r) _ _ none_left λ c r.
              continued_assoc fiber h db accounts (get_dataset fiber h db c r) _ _ none_left
                λ c r. refl)
