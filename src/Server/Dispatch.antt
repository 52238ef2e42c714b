-- ===== src/Server/Dispatch.antt =====
-- server/server.go: the routes of `setup`, in the order in which it registers them.
mod Chains
pub mod Posts
pub mod Shadows
mod Tests
use dorothy.Base.{ℕ, String, some, Bool, true, false, List, [], ◌∷◌}
use dorothy.Sorter.{Sorter}
use dorothy.Manifest.{Slot}
use dorothy.Host.{Host}
use dorothy.Repo.{Repo}
use dorothy.Server.{Fiber, Database, Context, Answer, text}
use dorothy.Server.Visible.{get_organizations, get_organization}
use dorothy.Server.Datasets.{get_dataset, recieve_dataset, dataset_page}
use dorothy.Server.Forms.{create_organization, create_dataset_handler}
use dorothy.Server.Accounts.{Accounts, registration, login_form, login}
use dorothy.Server.Pages.{
  index, registration_form, logout, create_organization_form, organization_page,
  create_dataset_form,
}
use dorothy.Server.Routes.{Handler, continued, unchanged, authenticate}

-- `Use` and `Group`, which match what begins as their path does, and `Get` and `Post`
pub data Method : Type 0 where
  prefixed get post : Method

-- fiber's matching of requests, the handlers of its packages, and its answer where no route does.
pub record Router (R W : Type 0) : Type 0 where
  pub matches : Method → String → R → Bool
  pub cors : Context R → Repo W → Answer R × Repo W
  pub static_files : Context R → Repo W → Answer R × Repo W
  pub favicon : Context R → Repo W → Answer R × Repo W
  pub verifier : Context R → Answer R
  pub unmatched : R → ℕ × String

module _ (fiber : Fiber) (h : Host) (db : Database h.World)
    (accounts : Accounts fiber.Request h.World) (router : Router fiber.Request h.World) where
  open fiber use {Request}
  open h use {World}
  open router use {matches, cors, static_files, favicon, verifier, unmatched}

  pub record Route : Type 0 where
    pub method : Method
    pub path : String
    pub handler : Handler fiber h db accounts

  abbrev pub route : Method → String → Handler fiber h db accounts → Route
  route m p f = record { method = m; path = p; handler = f }

  abbrev pub not_found : Request → Handler fiber h db accounts
  not_found q c r = let (code, message) = unmatched q in (text (some code) message, r)

  -- The routes that match run one after the other, as long as each calls `c.Next()`. No handler changes
  -- the path, so all are matched against the request that came in.
  unfoldable pub dispatch : Request → List Route → Handler fiber h db accounts
  dispatch q [] c r = not_found q c r
  dispatch q (x ∷ xs) c r = elim (matches x.method x.path q) [
    | true ↦ continued fiber h db accounts (x.handler c r) (dispatch q xs)
    | false ↦ dispatch q xs c r
  ]

  -- A handler without a change of the database, and one that changes it.
  abbrev pub showing : (Context Request → Answer Request) → Handler fiber h db accounts
  showing f c r = (f c, r)

  abbrev pub on_database :
      (Context Request → World → Answer Request × World) → Handler fiber h db accounts
  on_database f c r = let (a, w) = f c r.world in (a, record r { world = w })

  module _ (sort : Sorter Slot) where
    -- `dataset := organization.Group("/:dataset", d.GetDataset())`
    unfoldable pub dataset_routes : List Route
    dataset_routes =
        route prefixed "/:organization/:dataset" (get_dataset fiber h db)
        ∷ route get "/:organization/:dataset/" (dataset_page fiber h db)
        ∷ route post "/:organization/:dataset/" (recieve_dataset fiber h db sort)
        ∷ []

    -- `organization := d.Group("/:organization", GetOrganization(d.session))`
    unfoldable pub organization_routes : List Route
    unfolding dataset_routes
    organization_routes =
        route prefixed "/:organization" (unchanged fiber h db accounts (get_organization fiber db))
        ∷ route get "/:organization/" (showing (organization_page fiber))
        ∷ route get "/:organization/dataset/create" (showing (create_dataset_form fiber))
        ∷ route post "/:organization/dataset/create"
            (on_database (create_dataset_handler fiber h db))
        ∷ dataset_routes

    unfoldable pub page_routes : List Route
    unfolding organization_routes
    page_routes =
        route get "/" (showing (index fiber))
        ∷ route get "/register" (showing (registration_form fiber))
        ∷ route post "/register" (on_database (registration fiber accounts))
        ∷ route get "/login" (showing (login_form fiber accounts))
        ∷ route post "/login" (unchanged fiber h db accounts λ c w. (login fiber accounts c w).0)
        ∷ route get "/logout" (showing λ c. (logout fiber c).0)
        ∷ route get "/organization/create" (showing (create_organization_form fiber))
        ∷ route post "/organization/create" (on_database (create_organization fiber h db))
        ∷ organization_routes

    -- `setup`; the handler that puts the title of the pages into the locals is left out
    unfoldable pub routes : List Route
    unfolding page_routes
    routes =
        route prefixed "/" cors
        ∷ route prefixed "/static" static_files
        ∷ route prefixed "/" favicon
        ∷ route prefixed "/" (showing verifier)
        ∷ route prefixed "/" (authenticate fiber h db accounts)
        ∷ route prefixed "/" (unchanged fiber h db accounts (get_organizations fiber db))
        ∷ page_routes

    unfoldable pub serve_request : Handler fiber h db accounts
    unfolding dispatch routes
    serve_request c r = dispatch c.request routes c r
