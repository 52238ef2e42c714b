-- ===== src/Server/Forms.antt =====
-- server/handlers.go: `CreateOrganization` and `CreateDatasetHandler`, with `CreateDataset` of
-- server/server.go and of server/db.go.
use Prim.Native.String.{◌++◌}
use dorothy.Base.{String, Option, none, some, not, eqb, if◌then◌else◌}
use dorothy.Outcome.{Reply, ok, err, done, conflicted, failed}
use dorothy.Manifest.{Manifest}
use dorothy.Host.{Host}
use dorothy.Ipfs
use dorothy.Access.{User, Organization, Dataset, Listing}
use dorothy.Server.{Fiber, Database, NewOrganization, NewDataset, Context, Answer, redirect, text}

abbrev pub text_or_empty : Option String → String
text_or_empty none = ""
text_or_empty (some s) = s

-- The record before it is saved; gorm gives it an identifier in place of 0.
unfoldable pub organization_of : NewOrganization → Organization
organization_of n = record {
  id = 0;
  slug = n.slug;
  name = n.name;
  contact = n.contact;
  description = text_or_empty n.description;
  is_private = n.is_private;
}

unfoldable pub dataset_of : NewDataset → Manifest → Dataset
dataset_of n m = record {
  id = 0;
  slug = n.slug;
  name = n.name;
  contact = n.contact;
  description = text_or_empty n.description;
  is_private = n.is_private;
  organization_id = n.organization_id;
  manifest_hash = m.hash;
  manifest = none;
  organization = none;
}

module _ (fiber : Fiber) (h : Host) (db : Database h.World) where
  open fiber use {Request, parse_organization, parse_dataset}
  open h use {World}

  unfoldable pub create_organization : Context Request → World → Answer Request × World
  unfolding organization_of
  create_organization c w = elim c.auth_user [
    | none ↦ (redirect (some 401) "/", w)
    | some user ↦ elim (parse_organization c.request) [
      | err e ↦ (text (some 400) e, w)
      | ok n ↦
          let (reply, w') = db.save_organization (organization_of n) w in
          elim reply [
            | err e ↦ (redirect (some 500) "/", w')
            | ok org ↦ (
              redirect none ("/" ++ org.slug),
              db.save_organization_privilege user org "admin" w',
            )
          ]
    ]
  ]

  -- The body of the transaction of `DatabaseSession.CreateDataset`.
  unfoldable pub save_new_dataset :
      NewDataset → Manifest → Option User → World → Reply (Unit {0}) × World
  unfolding dataset_of
  save_new_dataset n m user w =
      let (reply, w') = db.save_dataset (dataset_of n m) w in
      elim reply [
        | err e ↦ (err e, w')
        | ok dataset ↦ elim user [
          | none ↦ (ok tt, w')
          | some u ↦ db.save_dataset_privilege u dataset "admin" w'
        ]
      ]

  unfoldable pub session_create_dataset :
      NewDataset → Manifest → Option User → World → Reply (Unit {0}) × World
  unfolding save_new_dataset
  session_create_dataset n m user = db.transaction (save_new_dataset n m user)

  -- `Server.CreateDataset`, whose failure to make a manifest is reported as success
  unfoldable pub create_dataset : NewDataset → Option User → World → Reply (Unit {0}) × World
  unfolding session_create_dataset
  create_dataset n user w =
      let (o, w') = Ipfs.create_empty_manifest h w in
      elim o [
        | done m ↦ session_create_dataset n m user w'
        | conflicted cs e ↦ (ok tt, w')
        | failed e ↦ (ok tt, w')
      ]

  -- `CreateDatasetHandler`, once the dataset was made or not, the form was read, and so on.
  abbrev pub created : Organization → NewDataset → Reply (Unit {0}) × World → Answer Request × World
  created org n (err e, w) = (redirect (some 500) "/", w)
  created org n (ok _, w) = (redirect none ("/" ++ (org.slug ++ ("/" ++ n.slug))), w)

  unfoldable pub create_parsed :
      User → Organization → Reply NewDataset → World → Answer Request × World
  unfolding create_dataset
  create_parsed user org (err e) w = (text (some 400) e, w)
  create_parsed user org (ok n) w =
      if not (eqb org.id n.organization_id)
      then (redirect (some 400) ("/" ++ (org.slug ++ "/dataset/create")), w)
      else created org n (create_dataset n (some user) w)

  abbrev pub create_within :
      User → Option Listing → Reply NewDataset → World → Answer Request × World
  create_within user none form w = (redirect (some 404) "/", w)
  create_within user (some l) form w = create_parsed user l.organization form w

  abbrev pub create_as :
      Option User → Option Listing → Reply NewDataset → World → Answer Request × World
  create_as none org form w = (redirect (some 401) "/", w)
  create_as (some user) org form w = create_within user org form w

  unfoldable pub create_dataset_handler : Context Request → World → Answer Request × World
  unfolding create_parsed
  create_dataset_handler c w = create_as c.auth_user c.organization (parse_dataset c.request) w
