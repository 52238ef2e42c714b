-- ===== src/Server/Posting.antt =====
-- What a request that sends a manifest to the server of server/server.go has passed.
use dorothy.Base.{◌≡◌, sym, ap, ◌∙◌, subst, none, some}
use dorothy.Sorter.{Sorter, IsSorter}
use dorothy.Manifest.{Slot}
use dorothy.Host.{Host, HostLaws}
use dorothy.Sdk.{Payload}
use dorothy.Repo.{Repo}
use dorothy.Access.{User}
use dorothy.Server.{Fiber, Database, Context, Answer, next, json, payload_body}
use dorothy.Server.Visible.{get_organizations, get_organization}
use dorothy.Server.Datasets.{get_dataset, recieve_dataset}
use dorothy.Server.Accounts.{Accounts, authenticator}
use dorothy.Server.Access.{Opened, get_dataset_guards}
use dorothy.Server.Receive.{Accepted, recieve_dataset_sound}
use dorothy.Server.Identity.{Authenticated, authenticator_sound}
use dorothy.Server.Routes.{Handler, continued, unchanged, authenticate, with_dataset, post_dataset}
use dorothy.Server.Harmless.{
  continued-payload, authenticate-Plain, get_organizations-Harmless, get_organization-Harmless,
  get_dataset-Plain,
}

module _ (fiber : Fiber) (h : Host) (db : Database h.World)
    (accounts : Accounts fiber.Request h.World) where
  open fiber use {Request}
  open h use {World}

  reply :
      {a b : Answer Request} {r s : Repo World}
      → Path (Answer Request × Repo World) (a, r) (b, s)
      → a ≡ b
  reply e = ap (λ (y : Answer Request × Repo World). y.0) e

  state :
      {a b : Answer Request} {r s : Repo World}
      → Path (Answer Request × Repo World) (a, r) (b, s)
      → r ≡ s
  state e = ap (λ (y : Answer Request × Repo World). y.1) e

  authenticate-Authenticated :
      (c c' : Context Request) (user : User) (r r' : Repo World)
      → c.auth_user ≡ none
      → authenticate fiber h db accounts c r ≡ (next c', r')
      → c'.auth_user ≡ some user
      → Authenticated fiber accounts c user r.world
  unfolding authenticate
  authenticate-Authenticated c c' user r r' anonymous e known =
      let found = authenticator fiber accounts c r.world in
      authenticator_sound fiber accounts c c' found.1 user r.world anonymous
        (ap (λ (a : Answer Request). (a, found.1)) (reply e)) known

  module _ (sort : Sorter Slot) (laws : HostLaws h) (order : IsSorter sort) where
    -- What a request that was answered with a payload has passed.
    pub record Posted (c : Context Request) (answer : Payload) (r r' : Repo World) : Type 0 where
      pub before : Context Request
      pub is_user :
          (user : User) → before.auth_user ≡ some user → Authenticated fiber accounts c user r.world
      pub within : Context Request
      pub at : Repo World
      pub opened : Opened fiber h db before within r at
      pub accepted : Accepted fiber h db sort laws order within answer r'

    -- A request without a known user that sends a manifest to a dataset and is answered with a payload
    -- has passed all handlers in front: its user, if it has one, is the one that a valid token claims,
    -- the dataset is one that this user, or everyone, may read, and it is saved with the hash of the
    -- merge of its manifest and the one that was sent.
    pub post_dataset_sound :
        (c : Context Request) (r r' : Repo World) (answer : Payload)
        → c.auth_user ≡ none
        → post_dataset fiber h db accounts sort c r ≡ (json none (payload_body answer), r')
        → Posted c answer r r'
    unfolding post_dataset with_dataset authenticate
    post_dataset_sound c r r' answer anonymous e =
        let receive = recieve_dataset fiber h db sort in
        let orgs = unchanged fiber h db accounts (get_organizations fiber db) in
        let org = unchanged fiber h db accounts (get_organization fiber db) in
        let below_org : Handler fiber h db accounts =
          λ c r. continued fiber h db accounts (get_dataset fiber h db c r) receive in
        let below_orgs : Handler fiber h db accounts =
          λ c r. continued fiber h db accounts (org c r) below_org in
        let (c1, r1, a1, e1) =
          continued-payload fiber h db accounts (authenticate fiber h db accounts c r)
            (λ c r. continued fiber h db accounts (orgs c r) below_orgs) r' answer
            (authenticate-Plain fiber h db accounts c r) e in
        let (c2, r2, a2, e2) =
          continued-payload fiber h db accounts (orgs c1 r1) below_orgs r' answer
            (get_organizations-Harmless fiber h db accounts c1 r1.world).plain e1 in
        let (c3, r3, a3, e3) =
          continued-payload fiber h db accounts (org c2 r2) below_org r' answer
            (get_organization-Harmless fiber h db accounts c2 r2.world).plain e2 in
        let (c4, r4, a4, e4) =
          continued-payload fiber h db accounts (get_dataset fiber h db c3 r3) receive r' answer
            (get_dataset-Plain fiber h db accounts c3 r3) e3 in
        let same : r3 ≡ r = sym (state a1 ∙ state a2 ∙ state a3) in
        record {
          before = c3;
          is_user = λ user known. authenticate-Authenticated c c1 user r r1 anonymous a1 (
              sym (
                (get_organizations-Harmless fiber h db accounts c1 r1.world).same_user c2
                  (reply a2))
              ∙ sym (
                  (get_organization-Harmless fiber h db accounts c2 r2.world).same_user c3
                    (reply a3))
              ∙ known);
          within = c4;
          at = r4;
          opened =
              subst (λ (x : Repo World). Opened fiber h db c3 c4 x r4) same
                (get_dataset_guards fiber h db c3 c4 r3 r4 a4);
          accepted = recieve_dataset_sound fiber h db sort laws order c4 r4 r' answer e4;
        }
