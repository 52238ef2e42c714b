-- ===== src/Server/Routes.antt =====
-- server/server.go: the handlers in front of a dataset, in the order in which `setup` registers them.
use dorothy.Sorter.{Sorter}
use dorothy.Manifest.{Slot}
use dorothy.Host.{Host}
use dorothy.Repo.{Repo}
use dorothy.Server.{
  Fiber, Database, Context, Answer, next, redirect, redirect_back, json, text, render, panic,
}
use dorothy.Server.Visible.{get_organizations, get_organization}
use dorothy.Server.Datasets.{get_dataset, recieve_dataset}
use dorothy.Server.Accounts.{Accounts, authenticator}

module _ (fiber : Fiber) (h : Host) (db : Database h.World)
    (accounts : Accounts fiber.Request h.World) where
  open fiber use {Request}
  open h use {World}

  abbrev pub Handler : Type 0
  Handler = Context Request → Repo World → Answer Request × Repo World

  -- `c.Next()`: the next handler runs on what this one has left, and no other answer runs it.
  abbrev pub continued : Answer Request × Repo World → Handler → Answer Request × Repo World
  continued (next c, r) k = k c r
  continued (redirect status path, r) k = (redirect status path, r)
  continued (redirect_back status path, r) k = (redirect_back status path, r)
  continued (json status body, r) k = (json status body, r)
  continued (text status body, r) k = (text status body, r)
  continued (render view, r) k = (render view, r)
  continued (panic, r) k = (panic, r)

  -- Handlers that change nothing but the context.
  abbrev pub unchanged : (Context Request → World → Answer Request) → Handler
  unchanged f c r = (f c r.world, r)

  -- `Authenticator`, without the cookie that it clears
  unfoldable pub authenticate : Handler
  unfolding authenticator
  authenticate = unchanged (λ c w. (authenticator fiber accounts c w).0)

  -- What runs before every dataset: the authenticator, `GetOrganizations`, `GetOrganization` and
  -- `GetDataset`.
  unfoldable pub with_dataset : Handler → Handler
  unfolding authenticate get_organizations get_organization get_dataset
  with_dataset k c r = continued (authenticate c r) λ c r.
      continued (unchanged (get_organizations fiber db) c r) λ c r.
        continued (unchanged (get_organization fiber db) c r)
          λ c r. continued (get_dataset fiber h db c r) k

  -- `POST /:organization/:dataset`
  unfoldable pub post_dataset : Sorter Slot → Handler
  unfolding with_dataset recieve_dataset
  post_dataset sort = with_dataset (recieve_dataset fiber h db sort)
