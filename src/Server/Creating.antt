-- ===== src/Server/Creating.antt =====
-- What `CreateDatasetHandler` of server/handlers.go has done where it leads to the new dataset.
mod Tests
use Prim.Native.String.{◌++◌}
use dorothy.Base.{
  String, ◌≡◌, refl, sym, ap, ◌∙◌, inl, inr, Option, none, some, eqb, eqb_iff, Bool-cases,
}
use dorothy.Outcome.{Reply, ok, err, Error, Outcome, done, conflicted, failed}
use dorothy.Manifest.{Manifest}
use dorothy.Host.{Host}
use dorothy.Ipfs
use dorothy.Access.{User, Dataset, Listing}
use dorothy.Server.{Fiber, Database, NewDataset, Context, Answer, redirect}
use dorothy.Server.Forms.{
  text_or_empty, dataset_of, save_new_dataset, session_create_dataset, create_dataset, created,
  create_parsed, create_as, create_dataset_handler,
}

-- gorm commits a transaction exactly where its body returns no error, and answers that.
pub record TransactionLaws {W : Type 0} (db : Database W) : Type 0 where
  pub committed :
      (body : W → Reply (Unit {0}) × W) (w w' : W)
      → db.transaction body w ≡ (ok tt, w')
      → body w ≡ (ok tt, w')

module _ (fiber : Fiber) (h : Host) (db : Database h.World) (laws : TransactionLaws db) where
  open fiber use {Request, parse_dataset}
  open h use {World}

  -- The row of a new dataset: what its form says, under the hash of a manifest.
  pub record IsRowOf (n : NewDataset) (hash : String) (row : Dataset) : Type 0 where
    pub slug : row.slug ≡ n.slug
    pub name : row.name ≡ n.name
    pub contact : row.contact ≡ n.contact
    pub described :
        (n.description ≡ none → row.description ≡ "")
        × ((s : String) → n.description ≡ some s → row.description ≡ s)
    pub is_private : row.is_private ≡ n.is_private
    pub organization : row.organization_id ≡ n.organization_id
    pub manifest : row.manifest_hash ≡ hash

  -- The database has saved a row, and has given its creator the privilege "admin" for what it saved.
  pub record Inserted (n : NewDataset) (hash : String) (user : User) (w w' : World) : Type 0 where
    pub row : Dataset
    pub is_row : IsRowOf n hash row
    pub dataset : Dataset
    pub between : World
    pub saved : db.save_dataset row w ≡ (ok dataset, between)
    pub privileged : db.save_dataset_privilege user dataset "admin" between ≡ (ok tt, w')

  save_new_dataset-Inserted :
      (n : NewDataset) (m : Manifest) (user : User) (w w' : World)
      → save_new_dataset fiber h db n m (some user) w ≡ (ok tt, w')
      → Inserted n m.hash user w w'
  unfolding save_new_dataset dataset_of
  save_new_dataset-Inserted n m user w w' e = go (db.save_dataset (dataset_of n m) w) refl e
    where
      described :
          (o : Option String)
          → (o ≡ none → text_or_empty o ≡ "") × ((s : String) → o ≡ some s → text_or_empty o ≡ s)
      described none = (λ _. refl, λ s q. cc)
      described (some x) = (λ q. cc, λ s q. cc)

      go :
          (x : Reply Dataset × World)
          → db.save_dataset (dataset_of n m) w ≡ x
          → elim x.0 [ err y ↦ (err y, x.1) | ok d ↦ db.save_dataset_privilege user d "admin" x.1 ]
            ≡ (ok tt, w')
          → Inserted n m.hash user w w'
      go (err y, v) p k = cc
      go (ok d, v) p k = record {
        row = dataset_of n m;
        is_row = record {
          slug = refl;
          name = refl;
          contact = refl;
          described = described n.description;
          is_private = refl;
          organization = refl;
          manifest = refl;
        };
        dataset = d;
        between = v;
        saved = p;
        privileged = k;
      }

  -- A dataset that was made: an empty manifest was saved, and the database has the dataset with the hash
  -- of that manifest, and its creator as an administrator of it; or no manifest could be saved, and
  -- nothing was done to the database.
  pub data Stored (n : NewDataset) (user : User) (w w' : World) : Type 0 where
    stored :
        (m : Manifest) (v : World)
        → Ipfs.create_empty_manifest h w ≡ (done m, v)
        → Inserted n m.hash user v w'
        → Stored n user w w'
    lost :
        (o : Outcome Manifest)
        → Ipfs.create_empty_manifest h w ≡ (o, w')
        → ((m : Manifest) → ¬ (o ≡ done m))
        → Stored n user w w'

  create_dataset-Stored :
      (n : NewDataset) (user : User) (w w' : World)
      → create_dataset fiber h db n (some user) w ≡ (ok tt, w')
      → Stored n user w w'
  unfolding create_dataset session_create_dataset
  create_dataset-Stored n user w w' e = go (Ipfs.create_empty_manifest h w) refl e
    where
      go :
          (x : Outcome Manifest × World)
          → Ipfs.create_empty_manifest h w ≡ x
          → elim x.0 [
            | done m ↦ session_create_dataset fiber h db n m (some user) x.1
            | conflicted cs y ↦ (ok tt, x.1)
            | failed y ↦ (ok tt, x.1)
          ]
            ≡ (ok tt, w')
          → Stored n user w w'
      go (done m, v) p k = stored m v p (
          save_new_dataset-Inserted n m user v w'
            (laws.committed (save_new_dataset fiber h db n m (some user)) v w' k))
      go (conflicted cs y, v) p k =
          lost (conflicted cs y)
            (p ∙ ap (λ (z : Reply (Unit {0}) × World). (conflicted cs y, z.1)) k) (λ m q. cc)
      go (failed y, v) p k =
          lost (failed y) (p ∙ ap (λ (z : Reply (Unit {0}) × World). (failed y, z.1)) k) (λ m q. cc)

  -- What stands behind a dataset that a request has made.
  pub record MadeDataset (c : Context Request) (path : String) (w w' : World) : Type 0 where
    pub user : User
    pub known : c.auth_user ≡ some user
    pub within : Listing
    pub loaded : c.organization ≡ some within
    pub form : NewDataset
    pub parsed : parse_dataset c.request ≡ ok form
    pub same_organization : within.organization.id ≡ form.organization_id
    pub leads_to : path ≡ "/" ++ (within.organization.slug ++ ("/" ++ form.slug))
    pub outcome : Stored form user w w'

  -- A user of whom it is known gets to a new dataset only below the organization of the path, which the
  -- form names too. The database has saved it as the form describes it, with the hash of an empty manifest
  -- that was saved, and has made the user its administrator; or no manifest could be saved.
  pub create_dataset_handler_sound :
      (c : Context Request) (path : String) (w w' : World)
      → create_dataset_handler fiber h db c w ≡ (redirect none path, w')
      → MadeDataset c path w w'
  unfolding create_dataset_handler create_parsed
  create_dataset_handler_sound c path w w' e =
      at_user c.auth_user refl c.organization refl (parse_dataset c.request) refl e
    where
      made :
          (u : User)
          → c.auth_user ≡ some u
          → (l : Listing) → c.organization ≡ some l
          → (n : NewDataset) → parse_dataset c.request ≡ ok n
          → l.organization.id ≡ n.organization_id
          → (x : Reply (Unit {0}) × World) → create_dataset fiber h db n (some u) w ≡ x
          → created fiber h db l.organization n x ≡ (redirect none path, w')
          → MadeDataset c path w w'
      made u known l loaded n parsed same (err y, v) p k = cc
      made u known l loaded n parsed same (ok _, v) p k = record {
        user = u;
        known = known;
        within = l;
        loaded = loaded;
        form = n;
        parsed = parsed;
        same_organization = same;
        leads_to = let q = ap (λ (y : Answer Request × World). y.0) k in sym (cc);
        outcome =
            create_dataset-Stored n u w w'
              (p ∙ ap (λ (z : Answer Request × World). (ok tt, z.1)) k);
      }

      at_form :
          (u : User)
          → c.auth_user ≡ some u
          → (l : Listing) → c.organization ≡ some l
          → (x : Reply NewDataset) → parse_dataset c.request ≡ x
          → create_parsed fiber h db u l.organization x w ≡ (redirect none path, w')
          → MadeDataset c path w w'
      at_form u known l loaded (err y) parsed k = cc
      at_form u known l loaded (ok n) parsed k =
          elim (Bool-cases (eqb l.organization.id n.organization_id)) [
            | inl same ↦
                made u known l loaded n parsed
                  ((eqb_iff l.organization.id n.organization_id).0 same)
                  (create_dataset fiber h db n (some u) w) refl (rw same at k)
            | inr other ↦ let k' = rw other at k in absurd (cc)
          ]

      at_user :
          (o : Option User)
          → c.auth_user ≡ o
          → (l : Option Listing) → c.organization ≡ l
          → (x : Reply NewDataset) → parse_dataset c.request ≡ x
          → create_as fiber h db o l x w ≡ (redirect none path, w')
          → MadeDataset c path w w'
      at_user none known l loaded x parsed k = cc
      at_user (some u) known none loaded x parsed k = cc
      at_user (some u) known (some l) loaded x parsed k = at_form u known l loaded x parsed k

  -- Where no empty manifest can be saved, the handler still leads a known user to the dataset of a form
  -- that names the organization of the path, and does nothing to the database.
  pub create_dataset_handler_silent :
      (c : Context Request) (u : User) (l : Listing) (n : NewDataset) (x : Error) (w w' : World)
      → c.auth_user ≡ some u
      → c.organization ≡ some l
      → parse_dataset c.request ≡ ok n
      → l.organization.id ≡ n.organization_id
      → Ipfs.create_empty_manifest h w ≡ (failed x, w')
      → create_dataset_handler fiber h db c w
        ≡ (redirect none ("/" ++ (l.organization.slug ++ ("/" ++ n.slug))), w')
  unfolding create_dataset_handler create_parsed create_dataset
  create_dataset_handler_silent c u l n x w w' known loaded parsed same unsaved =
      rw
        (
          known,
          loaded,
          parsed,
          create_parsed,
          (eqb_iff l.organization.id n.organization_id).1 same,
          create_dataset,
          unsaved,
        )
        (ap
          (λ (z : Outcome Manifest × World).
            (redirect none ("/" ++ (l.organization.slug ++ ("/" ++ n.slug))), z.1))
          unsaved)
