-- ===== src/Server/Dispatch/Chains.antt =====
-- How the routes of server/server.go run one behind the other.
use dorothy.Base.{String, ◌≡◌, refl, ◌∙◌, ap, true, false, List, ◌∷◌}
use dorothy.Host.{Host}
use dorothy.Sorter.{Sorter}
use dorothy.Manifest.{Slot}
use dorothy.Repo.{Repo}
use dorothy.Server.{
  Fiber, Database, Context, Answer, next, redirect, redirect_back, json, text, render, panic,
}
use dorothy.Server.Visible.{get_organizations}
use dorothy.Server.Accounts.{Accounts}
use dorothy.Server.Routes.{Handler, continued, unchanged, authenticate}
use dorothy.Server.Dispatch.{Method, prefixed, Router, Route, route, dispatch, page_routes, routes}

module _ (fiber : Fiber) (h : Host) (db : Database h.World)
    (accounts : Accounts fiber.Request h.World) where
  open fiber use {Request}
  open h use {World}

  -- Handlers that agree behind one that is shared, and three handlers in a row.
  pub continued_cong :
      (x : Answer Request × Repo World) (f g : Handler fiber h db accounts)
      → ((c : Context Request) (r : Repo World) → f c r ≡ g c r)
      → continued fiber h db accounts x f ≡ continued fiber h db accounts x g
  continued_cong (next c, r) f g e = e c r
  continued_cong (redirect status path, r) f g e = refl
  continued_cong (redirect_back status path, r) f g e = refl
  continued_cong (json status body, r) f g e = refl
  continued_cong (text status body, r) f g e = refl
  continued_cong (render view, r) f g e = refl
  continued_cong (panic, r) f g e = refl

  pub continued_assoc :
      (x : Answer Request × Repo World) (f g k : Handler fiber h db accounts)
      → ((c : Context Request) (r : Repo World) → f c r ≡ continued fiber h db accounts (g c r) k)
      → continued fiber h db accounts x f
        ≡ continued fiber h db accounts (continued fiber h db accounts x g) k
  continued_assoc (next c, r) f g k e = e c r
  continued_assoc (redirect status path, r) f g k e = refl
  continued_assoc (redirect_back status path, r) f g k e = refl
  continued_assoc (json status body, r) f g k e = refl
  continued_assoc (text status body, r) f g k e = refl
  continued_assoc (render view, r) f g k e = refl
  continued_assoc (panic, r) f g k e = refl

  module _ (router : Router fiber.Request h.World) (q : fiber.Request) where
    open router use {matches, cors, favicon, verifier}

    pub dispatch-skip :
        (m : Method) (p : String) (f : Handler fiber h db accounts)
        (xs : List (Route fiber h db accounts router)) (c : Context Request) (r : Repo World)
        → matches m p q ≡ false
        → dispatch fiber h db accounts router q (route fiber h db accounts router m p f ∷ xs) c r
          ≡ dispatch fiber h db accounts router q xs c r
    unfolding dispatch
    dispatch-skip m p f xs c r e = rw (e, dispatch) refl

    pub dispatch-run :
        (m : Method) (p : String) (f : Handler fiber h db accounts)
        (xs : List (Route fiber h db accounts router)) (c : Context Request) (r : Repo World)
        → matches m p q ≡ true
        → dispatch fiber h db accounts router q (route fiber h db accounts router m p f ∷ xs) c r
          ≡ continued fiber h db accounts (f c r) (dispatch fiber h db accounts router q xs)
    unfolding dispatch
    dispatch-run m p f xs c r e = rw (e, dispatch) refl

    -- A route that matches and hands on what it got.
    dispatch-pass :
        (m : Method) (p : String) (f : Handler fiber h db accounts)
        (xs : List (Route fiber h db accounts router)) (c : Context Request) (r : Repo World)
        → matches m p q ≡ true
        → f c r ≡ (next c, r)
        → dispatch fiber h db accounts router q (route fiber h db accounts router m p f ∷ xs) c r
          ≡ dispatch fiber h db accounts router q xs c r
    dispatch-pass m p f xs c r e passes =
        dispatch-run m p f xs c r e
        ∙ ap
            (λ (x : Answer Request × Repo World).
              continued fiber h db accounts x (dispatch fiber h db accounts router q xs))
            passes

    -- A request that fiber's own handlers hand on as it is, and whose cookies can be read.
    pub record Enters (c : Context Request) (r : Repo World) : Type 0 where
      pub below : matches prefixed "/" q ≡ true
      pub not_static : matches prefixed "/static" q ≡ false
      pub cors_passes : cors c r ≡ (next c, r)
      pub favicon_passes : favicon c r ≡ (next c, r)
      pub verifier_passes : verifier c ≡ next c

    pub routes-Enters :
        (sort : Sorter Slot) (c : Context Request) (r : Repo World)
        → Enters c r
        → dispatch fiber h db accounts router q (routes fiber h db accounts router sort) c r
          ≡ continued fiber h db accounts (authenticate fiber h db accounts c r) λ c r.
            continued fiber h db accounts
              (unchanged fiber h db accounts (get_organizations fiber db) c r)
              (dispatch fiber h db accounts router q (page_routes fiber h db accounts router sort))
    unfolding routes
    routes-Enters sort c r e =
        dispatch-pass prefixed "/" cors _ c r e.below e.cors_passes
        ∙ dispatch-skip prefixed "/static" router.static_files _ c r e.not_static
        ∙ dispatch-pass prefixed "/" favicon _ c r e.below e.favicon_passes
        ∙ dispatch-pass prefixed "/" (λ c r. (verifier c, r)) _ c r e.below
            (ap (λ (a : Answer Request). (a, r)) e.verifier_passes)
        ∙ dispatch-run prefixed "/" (authenticate fiber h db accounts) _ c r e.below
        ∙ continued_cong (authenticate fiber h db accounts c r) _ _ λ c r.
          dispatch-run prefixed "/" (unchanged fiber h db accounts (get_organizations fiber db)) _ c
            r e.below
