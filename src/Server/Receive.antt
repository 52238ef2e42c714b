-- ===== src/Server/Receive.antt =====
-- What `RecieveDataset` of server/handlers.go has done where it accepts a manifest.
use dorothy.Base.{◌≡◌, refl, sym, ap, Option, none, some, Bool-cases, inl, inr}
use dorothy.Outcome.{Reply, ok, err, Outcome, done, conflicted, failed}
use dorothy.Sorter.{Sorter, IsSorter}
use dorothy.Manifest.{Manifest, Slot}
use dorothy.Host.{Host, HostLaws}
use dorothy.Sdk.{Payload}
use dorothy.Repo.{Repo, recieve}
use dorothy.Repo.Commit.{Received, recieve_sound}
use dorothy.Access.{Dataset}
use dorothy.Server.{Fiber, Database, Context, json, payload_body}
use dorothy.Server.Datasets.{
  saved, save_merged, merge_received, connected, receive_payload, receive_old, receive_into,
  recieve_dataset,
}

module _ (fiber : Fiber) (h : Host) (db : Database h.World) (sort : Sorter Slot) (laws : HostLaws h)
    (order : IsSorter sort) where
  open h use {World}
  open fiber use {Request}

  -- The dataset now has the hash of a manifest that merges what it had with what was sent.
  pub record Accepted (c : Context Request) (answer : Payload) (r' : Repo World) : Type 0 where
    pub dataset : Dataset
    pub loaded : c.dataset ≡ some dataset
    pub old : Manifest
    pub held : dataset.manifest ≡ some old
    pub payload : Payload
    pub parsed : fiber.parse_payload c.request ≡ ok payload
    pub before : Repo World
    pub manifest : Manifest
    pub after : Repo World
    pub received : Received h laws sort order old manifest payload.hash before after
    pub answered : answer.hash ≡ manifest.hash
    pub record_saved : Dataset
    pub saving :
        db.save_dataset (record dataset { manifest_hash = manifest.hash }) after.world
        ≡ (ok record_saved, r'.world)

  saved-ok :
      (m : Manifest) (x : Reply Dataset × World) (r r' : Repo World) {p : Payload}
      → saved fiber h db sort m x r ≡ (json none (payload_body p), r')
      → (p.hash ≡ m.hash) × (d : Dataset) × (x ≡ (ok d, r'.world))
  saved-ok m (err e, w) r r' t = cc
  saved-ok m (ok d, w) r r' {p} t =
      let q : record { hash = m.hash; peer_identity = r.dorothy.ipfs.identity } ≡ p = cc in
      let s : record r { world = w } ≡ r' = ap (λ y. y.1) t in
      (sym (ap (λ (k : Payload). k.hash) q), d, ap (λ (k : Repo World). (ok d, k.world)) s)

  merge_received-ok :
      (dataset : Dataset) (o : Outcome Manifest) (r r' : Repo World) {p : Payload}
      → merge_received fiber h db sort dataset o r ≡ (json none (payload_body p), r')
      → (m : Manifest) × (o ≡ done m)
        × (p.hash ≡ m.hash)
        × (d : Dataset) × (db.save_dataset (record dataset { manifest_hash = m.hash }) r.world
            ≡ (ok d, r'.world))
  unfolding merge_received save_merged
  merge_received-ok dataset (done m) r r' t =
      let (q, d, s) = saved-ok m _ r r' t in (m, refl, q, d, s)
  merge_received-ok dataset (conflicted cs e) r r' t = cc
  merge_received-ok dataset (failed e) r r' t = cc

  connected-ok :
      (c : Context Request) (dataset : Dataset) (old : Manifest) (payload : Payload)
      (x : Outcome (Unit {0}) × Repo World) (r' : Repo World) {p : Payload}
      → c.dataset ≡ some dataset
      → dataset.manifest ≡ some old
      → fiber.parse_payload c.request ≡ ok payload
      → connected fiber h db sort dataset old payload.hash x ≡ (json none (payload_body p), r')
      → Accepted c p r'
  unfolding connected
  connected-ok c dataset old payload (done _, r) r' is_dataset is_old parsed t =
      let (o, v) : Outcome Manifest × Repo World = recieve h sort old payload.hash r in
      let (m, is_done, q, d, s) =
        merge_received-ok dataset (recieve h sort old payload.hash r).0
          (recieve h sort old payload.hash r).1 r' t in
      record {
        dataset = dataset;
        loaded = is_dataset;
        old = old;
        held = is_old;
        payload = payload;
        parsed = parsed;
        before = r;
        manifest = m;
        after = (recieve h sort old payload.hash r).1;
        received =
            recieve_sound h laws sort order old m payload.hash r _
              (ap (λ (k : Outcome Manifest). (k, (recieve h sort old payload.hash r).1)) is_done);
        answered = q;
        record_saved = d;
        saving = s;
      }
  connected-ok c dataset old payload (conflicted cs e, r) r' is_dataset is_old parsed t = cc
  connected-ok c dataset old payload (failed e, r) r' is_dataset is_old parsed t =
      elim (Bool-cases (db.timed_out r.world)) [
        | inl b ↦ let t' = rw b at t in cc
        | inr b ↦ let t' = rw b at t in cc
      ]

  -- Where `RecieveDataset` answers a payload, the dataset was loaded with its manifest, the manifest
  -- that was sent is merged into it, the result can be fetched under the hash that is answered, and
  -- the dataset is saved with that hash.
  pub recieve_dataset_sound :
      (c : Context Request) (r r' : Repo World) (answer : Payload)
      → recieve_dataset fiber h db sort c r ≡ (json none (payload_body answer), r')
      → Accepted c answer r'
  unfolding recieve_dataset
  recieve_dataset_sound c r r' answer e = at_dataset c.dataset refl e
    where
      at_payload :
          (dataset : Dataset) (old : Manifest) (x : Reply Payload)
          → c.dataset ≡ some dataset
          → dataset.manifest ≡ some old
          → fiber.parse_payload c.request ≡ x
          → receive_payload fiber h db sort dataset old x r ≡ (json none (payload_body answer), r')
          → Accepted c answer r'
      at_payload dataset old (err x) a b q t = cc
      at_payload dataset old (ok payload) a b q t = connected-ok c dataset old payload _ r' a b q t

      at_old :
          (dataset : Dataset) (o : Option Manifest)
          → c.dataset ≡ some dataset
          → dataset.manifest ≡ o
          → receive_old fiber h db sort dataset o c r ≡ (json none (payload_body answer), r')
          → Accepted c answer r'
      at_old dataset none a q t = cc
      at_old dataset (some old) a q t = at_payload dataset old _ a q refl t

      at_dataset :
          (o : Option Dataset)
          → c.dataset ≡ o
          → receive_into fiber h db sort o c r ≡ (json none (payload_body answer), r')
          → Accepted c answer r'
      at_dataset none q t = cc
      at_dataset (some dataset) q t = at_old dataset dataset.manifest q refl t
