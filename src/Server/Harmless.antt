-- ===== src/Server/Harmless.antt =====
-- What the handlers in front of a dataset of server/server.go do not do: answer with a payload, or put
-- another user in place of the one that is known.
use Prim.Native.String.{◌++◌}
use dorothy.Base.{
  ℕ, String, ◌≡◌, refl, sym, ap, ◌∙◌, subst, Option, none, some, Bool, true, false, not, List, ◌==◌,
  if◌then◌else◌,
}
use dorothy.Outcome.{Reply, ok, err, Outcome, done, conflicted, failed}
use dorothy.Manifest.{Manifest}
use dorothy.Ipfs
use dorothy.Host.{Host}
use dorothy.Sdk.{Payload}
use dorothy.Repo.{Repo, on_world}
use dorothy.Access.{User, Listing, Organization, Dataset}
use dorothy.Server.{
  Fiber, Database, Context, Answer, next, redirect, redirect_back, json, text, render, panic, Body,
  error_body, conflict_body, message_body, merge_error_body, payload_body, redirect_as,
}
use dorothy.Server.Visible.{
  get_organizations, get_organization, visible_organizations, visible_datasets, turn_away, may_see,
}
use dorothy.Server.Datasets.{
  Verdict, shown, must_login, forbidden, broken, verdict, attached, attach_manifest, show_dataset,
  found_dataset, dataset_within, dataset_below, get_dataset,
}
use dorothy.Server.Accounts.{Accounts, Claim, authenticator, authenticated, loaded_user, claimed}
use dorothy.Server.Routes.{Handler, continued, authenticate}

module _ (fiber : Fiber) (h : Host) (db : Database h.World)
    (accounts : Accounts fiber.Request h.World) where
  open fiber use {Request}
  open h use {World}

  abbrev is_payload : Answer Request → Bool
  is_payload (json none (payload_body p)) = true
  is_payload (json none (error_body e)) = false
  is_payload (json none (conflict_body cs)) = false
  is_payload (json none (message_body m)) = false
  is_payload (json none (merge_error_body e)) = false
  is_payload (json (some status) body) = false
  is_payload (next c) = false
  is_payload (redirect status path) = false
  is_payload (redirect_back status path) = false
  is_payload (text status body) = false
  is_payload (render view) = false
  is_payload panic = false

  -- A handler that answers no payload itself.
  abbrev Plain : Handler fiber h db accounts → Type 0
  Plain f = (c : Context Request) (r : Repo World) → is_payload (f c r).0 ≡ false

  pub continued-payload :
      (x : Answer Request × Repo World) (k : Handler fiber h db accounts) (r' : Repo World)
      (answer : Payload)
      → is_payload x.0 ≡ false
      → continued fiber h db accounts x k ≡ (json none (payload_body answer), r')
      → (c : Context Request) × (r : Repo World) × (x ≡ (next c, r))
        × (k c r ≡ (json none (payload_body answer), r'))
  continued-payload (next c, r) k r' answer plain e = (c, r, refl, e)
  continued-payload (redirect status path, r) k r' answer plain e = cc
  continued-payload (redirect_back status path, r) k r' answer plain e = cc
  continued-payload (json none body, r) k r' answer plain e =
      let q : is_payload (json none body) ≡ true =
        ap (λ (y : Answer Request × Repo World). is_payload y.0) e in
      let no_payload = sym q ∙ plain in cc
  continued-payload (json (some status) body, r) k r' answer plain e = cc
  continued-payload (text status body, r) k r' answer plain e = cc
  continued-payload (render view, r) k r' answer plain e = cc
  continued-payload (panic, r) k r' answer plain e = cc

  pub authenticate-Plain : Plain (authenticate fiber h db accounts)
  unfolding authenticate authenticator
  authenticate-Plain c r =
      go (claimed fiber accounts (accounts.cookie_token c.request r.world) r.world)
    where
      loaded : (x : Reply User) → is_payload (loaded_user fiber accounts c x).0 ≡ false
      loaded (ok u) = refl
      loaded (err e) = refl

      go : (o : Option Claim) → is_payload (authenticated fiber accounts c o r.world).0 ≡ false
      go none = refl
      go (some email) = loaded (accounts.load_user email r.world)

  -- An answer that is no payload, and hands on the same user.
  pub record Harmless (c : Context Request) (a : Answer Request) : Type 0 where
    pub plain : is_payload a ≡ false
    pub same_user : (c' : Context Request) → a ≡ next c' → c'.auth_user ≡ c.auth_user

  Harmless-next : (c c' : Context Request) → c'.auth_user ≡ c.auth_user → Harmless c (next c')
  Harmless-next c c' e = record {
    plain = refl;
    same_user = λ d q.
        let s : c' ≡ d = cc in subst (λ (x : Context Request). x.auth_user ≡ c.auth_user) s e;
  }

  Harmless-redirect :
      (c : Context Request) (status : Option ℕ) (path : String) → Harmless c (redirect status path)
  Harmless-redirect c status path = record { plain = refl; same_user = λ d q. cc }

  Harmless-panic : (c : Context Request) → Harmless c panic
  Harmless-panic c = record { plain = refl; same_user = λ d q. cc }

  pub get_organizations-Harmless :
      (c : Context Request) (w : World) → Harmless c (get_organizations fiber db c w)
  unfolding get_organizations
  get_organizations-Harmless c w = go (db.all_organizations w)
    where
      seen :
          (o : Option (List Listing))
          → Harmless c (elim o [ none ↦ panic | some ls ↦ next (record c { organizations = ls }) ])
      seen none = Harmless-panic c
      seen (some ls) = Harmless-next c _ refl

      go :
          (x : Reply (List Listing))
          → Harmless c (elim x [
            | err e ↦ redirect (some 500) "/"
            | ok orgs ↦ elim (visible_organizations c.auth_user orgs) [
              | none ↦ panic
              | some ls ↦ next (record c { organizations = ls })
            ]
          ])
      go (err e) = Harmless-redirect c (some 500) "/"
      go (ok orgs) = seen (visible_organizations c.auth_user orgs)

  turn_away-Harmless : (c : Context Request) → Harmless c (turn_away fiber db c)
  unfolding turn_away
  turn_away-Harmless c = go c.auth_user
    where
      go :
          (u : Option User)
          → Harmless c (elim u [
            | none ↦ redirect (some 401) ("/login?Redirect=" ++ fiber.path c.request)
            | some user ↦ redirect (some 403) "/"
          ])
      go none = Harmless-redirect c (some 401) _
      go (some user) = Harmless-redirect c (some 403) "/"

  pub get_organization-Harmless :
      (c : Context Request) (w : World) → Harmless c (get_organization fiber db c w)
  unfolding get_organization
  get_organization-Harmless c w =
      at_slug (fiber.organization_param c.request == "")
        (db.first_organization (fiber.organization_param c.request) w)
    where
      seen :
          (l : Listing) (o : Option (List Dataset))
          → Harmless c (elim o [
            | none ↦ panic
            | some ds ↦ next (record c {
              organization = some (record { organization = l.organization; datasets = ds });
            })
          ])
      seen l none = Harmless-panic c
      seen l (some ds) = Harmless-next c _ refl

      allowed :
          (b : Bool) (l : Listing)
          → Harmless c (
              if not b
              then turn_away fiber db c
              else elim (visible_datasets c.auth_user l.datasets) [
                | none ↦ panic
                | some ds ↦ next (record c {
                  organization = some (record { organization = l.organization; datasets = ds });
                })
              ])
      allowed false l = turn_away-Harmless c
      allowed true l = seen l (visible_datasets c.auth_user l.datasets)

      at_slug :
          (b : Bool) (x : Reply Listing)
          → Harmless c (
              if b then redirect (some 404) "/" else elim x [
                | err e ↦ redirect (some 404) "/"
                | ok l ↦
                    if not (may_see c.auth_user l.organization)
                    then turn_away fiber db c
                    else elim (visible_datasets c.auth_user l.datasets) [
                      | none ↦ panic
                      | some ds ↦ next (record c {
                        organization =
                            some (record { organization = l.organization; datasets = ds });
                      })
                    ]
              ])
      at_slug true x = Harmless-redirect c (some 404) "/"
      at_slug false (err e) = Harmless-redirect c (some 404) "/"
      at_slug false (ok l) = allowed (may_see c.auth_user l.organization) l

  redirect_as-Plain :
      (c : Context Request) (status : ℕ) (path plain : String) (body : Body)
      → is_payload (redirect_as fiber c status path body plain) ≡ false
  unfolding redirect_as
  redirect_as-Plain c status path plain body =
      go (fiber.accepts c.request "text/html") (fiber.accepts c.request "application/json")
        (fiber.accepts c.request "text/plain")
    where
      go :
          (html js plain_text : Bool)
          → is_payload (
              if html
              then redirect (some status) path
              else (if js
                  then json (some status) body
                  else (if plain_text
                      then text (some status) plain
                      else redirect (some status) path)))
            ≡ false
      go true js t = refl
      go false true t = refl
      go false false true = refl
      go false false false = refl

  pub get_dataset-Plain : Plain (get_dataset fiber h db)
  unfolding get_dataset dataset_within found_dataset show_dataset attach_manifest
  get_dataset-Plain c r = below c.organization
    where
      fetched :
          (d : Dataset) (x : Outcome Manifest × Repo World)
          → is_payload (attached fiber h db d c x).0 ≡ false
      fetched d (done m, v) = refl
      fetched d (conflicted cs e, v) = refl
      fetched d (failed e, v) = refl

      judged :
          (v : Verdict) (org : Organization) (d : Dataset)
          → is_payload (show_dataset fiber h db v org d c r).0 ≡ false
      judged shown org d = fetched d (on_world h (Ipfs.get_manifest h d.manifest_hash) r)
      judged must_login org d = redirect_as-Plain c _ _ _ _
      judged forbidden org d = redirect_as-Plain c _ _ _ _
      judged broken org d = refl

      at_dataset :
          (org : Organization) (x : Reply Dataset)
          → is_payload (found_dataset fiber h db org x c r).0 ≡ false
      at_dataset org (err e) = redirect_as-Plain c _ _ _ _
      at_dataset org (ok d) = judged (verdict c.auth_user org d) org d

      within :
          (org : Organization) (slug : String) (b : Bool)
          → is_payload (dataset_within fiber h db org slug b c r).0 ≡ false
      within org slug true = redirect_as-Plain c _ _ _ _
      within org slug false = at_dataset org (db.first_dataset slug org.id r.world)

      below : (o : Option Listing) → is_payload (dataset_below fiber h db o c r).0 ≡ false
      below none = redirect_as-Plain c _ _ _ _
      below (some l) =
          within l.organization (fiber.dataset_param c.request)
            (fiber.dataset_param c.request == "")
