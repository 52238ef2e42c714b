-- ===== src/Server/Datasets.antt =====
-- server/handlers.go: `GetDataset`, `RecieveDataset` and `Dataset`.
use Prim.Native.String.{◌++◌}
use dorothy.Base.{String, Option, none, some, Bool, true, false, ◌||◌, ◌==◌, if◌then◌else◌}
use dorothy.Outcome.{Reply, ok, err, Outcome, done, conflicted, failed}
use dorothy.Sorter.{Sorter}
use dorothy.Manifest.{Manifest, Slot}
use dorothy.Host.{Host}
use dorothy.Ipfs
use dorothy.Sdk.{Payload}
use dorothy.Repo.{Repo, on_world, recieve}
use dorothy.Access.{User, Organization, Dataset, Listing, can_read_dataset}
use dorothy.Server.{
  Fiber, Database, Context, Answer, next, json, text, render, panic, redirect_as, error_body,
  message_body, conflict_body, merge_error_body, payload_body,
}

-- Whether the dataset is shown: `none` is a visitor without a user, who is sent to the login.
pub data Verdict : Type 0 where
  shown must_login forbidden broken : Verdict

abbrev pub of_read : Option Bool → Verdict
of_read none = broken
of_read (some true) = shown
of_read (some false) = forbidden

unfoldable pub verdict : Option User → Organization → Dataset → Verdict
verdict user org dataset =
    if org.is_private || dataset.is_private
    then elim user [ none ↦ must_login | some u ↦ of_read (can_read_dataset u dataset) ]
    else shown

module _ (fiber : Fiber) (h : Host) (db : Database h.World) where
  open fiber use {Request, accepts, path, dataset_param, parse_payload}
  open h use {World}

  abbrev pub Handler : Type 0
  Handler = Context Request → Repo World → Answer Request × Repo World

  -- The end of `GetDataset`: the manifest is fetched.
  abbrev pub attached :
      Dataset → Context Request → Outcome Manifest × Repo World → Answer Request × Repo World
  attached dataset c (done m, r) =
      (next (record c { dataset = some (record dataset { manifest = some m }) }), r)
  attached dataset c (conflicted cs e, r) =
      (json (some 500) (error_body "failed to get dataset manifest"), r)
  attached dataset c (failed e, r) =
      (json (some 500) (error_body "failed to get dataset manifest"), r)

  unfoldable pub attach_manifest : Dataset → Handler
  attach_manifest dataset c r =
      attached dataset c (on_world h (Ipfs.get_manifest h dataset.manifest_hash) r)

  unfoldable pub show_dataset : Verdict → Organization → Dataset → Handler
  unfolding attach_manifest
  show_dataset shown org dataset c r = attach_manifest dataset c r
  show_dataset must_login org dataset c r = (
    redirect_as fiber c 401 ("/login?Redirect=" ++ path c.request) (error_body "unauthorized")
        "unauthorized",
    r,
  )
  show_dataset forbidden org dataset c r =
      (redirect_as fiber c 403 ("/" ++ org.slug) (error_body "forbidden") "forbidden", r)
  show_dataset broken org dataset c r = (panic, r)

  unfoldable pub found_dataset : Organization → Reply Dataset → Handler
  unfolding show_dataset verdict
  found_dataset org (err e) c r =
      (redirect_as fiber c 404 ("/" ++ org.slug) (error_body "not found") "not found", r)
  found_dataset org (ok dataset) c r =
      show_dataset (verdict c.auth_user org dataset) org dataset c r

  -- `GetDataset` below an organization, with the slug of the dataset and whether it is empty.
  unfoldable pub dataset_within : Organization → String → Bool → Handler
  unfolding found_dataset
  dataset_within org slug true c r =
      (redirect_as fiber c 404 ("/" ++ org.slug) (error_body "bad request") "bad request", r)
  dataset_within org slug false c r = found_dataset org (db.first_dataset slug org.id r.world) c r

  abbrev pub dataset_below : Option Listing → Handler
  dataset_below none c r = (redirect_as fiber c 404 "/" (error_body "not found") "not found", r)
  dataset_below (some l) c r =
      let slug = dataset_param c.request in dataset_within l.organization slug (slug == "") c r

  unfoldable pub get_dataset : Handler
  unfolding dataset_within
  get_dataset c r = dataset_below c.organization c r

  module _ (sort : Sorter Slot) where
    abbrev pub saved : Manifest → Reply Dataset × World → Repo World → Answer Request × Repo World
    saved m (err e, w) r =
        (json (some 500) (error_body "failed to save manifest"), record r { world = w })
    saved m (ok _, w) r = (
      json none (payload_body (record { hash = m.hash; peer_identity = r.dorothy.ipfs.identity })),
      record r { world = w },
    )

    -- The dataset is saved with the hash of the merged manifest.
    unfoldable pub save_merged : Dataset → Manifest → Repo World → Answer Request × Repo World
    save_merged dataset m r =
        saved m (db.save_dataset (record dataset { manifest_hash = m.hash }) r.world) r

    -- The merge of `RecieveDataset` and what it answers.
    unfoldable pub merge_received :
        Dataset → Outcome Manifest → Repo World → Answer Request × Repo World
    unfolding save_merged
    merge_received dataset (done m) r = save_merged dataset m r
    merge_received dataset (conflicted cs e) r = (json (some 400) (conflict_body cs), r)
    merge_received dataset (failed e) r = (json (some 400) (merge_error_body e), r)

    -- Once the peer is connected, or not.
    unfoldable pub connected :
        Dataset → Manifest → String → Outcome (Unit {0}) × Repo World → Answer Request × Repo World
    unfolding merge_received
    connected dataset old hash (done _, r) =
        let (merged, r') = recieve h sort old hash r in merge_received dataset merged r'
    connected dataset old hash (conflicted cs e, r) = (panic, r)
    connected dataset old hash (failed e, r) =
        if db.timed_out r.world
        then (json (some 408) (message_body "attempt to connect to ipfs peer timed out"), r)
        else (json (some 500) (error_body "failed to connect to ipfs peer"), r)

    abbrev pub receive_payload :
        Dataset → Manifest → Reply Payload → Repo World → Answer Request × Repo World
    receive_payload dataset old (err e) r =
        (json (some 400) (error_body "recieved invalid manifest"), r)
    receive_payload dataset old (ok payload) r =
        connected dataset old payload.hash
          (on_world h (Ipfs.connect_to_peer_by_id h payload.peer_identity) r)

    abbrev pub receive_old : Dataset → Option Manifest → Handler
    receive_old dataset none c r =
        (json (some 500) (error_body "failed to fetch dataset manifest"), r)
    receive_old dataset (some old) c r = receive_payload dataset old (parse_payload c.request) r

    abbrev pub receive_into : Option Dataset → Handler
    receive_into none c r = (json (some 500) (error_body "failed to fetch dataset manifest"), r)
    receive_into (some dataset) c r = receive_old dataset dataset.manifest c r

    unfoldable pub recieve_dataset : Handler
    unfolding connected
    recieve_dataset c r = receive_into c.dataset c r

  -- `Dataset`, which shows what `GetDataset` has loaded
  unfoldable pub dataset_json : Option Dataset → String → Answer Request
  dataset_json none identity = json (some 500) (error_body "failed to fetch dataset manifest")
  dataset_json (some dataset) identity = elim dataset.manifest [
    | none ↦ json (some 500) (error_body "failed to fetch dataset manifest")
    | some m ↦
        json none (payload_body (record { hash = dataset.manifest_hash; peer_identity = identity }))
  ]

  abbrev pub dataset_text : Option Dataset → String → Answer Request
  dataset_text none identity = render "views/dataset"
  dataset_text (some dataset) identity = text none (dataset.manifest_hash ++ ("\n" ++ identity))

  unfoldable pub dataset_page : Handler
  unfolding dataset_json
  dataset_page c r =
      let identity = r.dorothy.ipfs.identity in
      if accepts c.request "text/html"
      then (render "views/dataset", r)
      else (if accepts c.request "application/json"
          then (dataset_json c.dataset identity, r)
          else (if accepts c.request "text/plain"
              then (dataset_text c.dataset identity, r)
              else (render "views/dataset", r)))
