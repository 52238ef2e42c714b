-- ===== src/Repo/Exchange.antt =====
-- core/dorothy.go: `SdkClient`, `Fetch` and `Push`.
use dorothy.Base.{
  String, Option, none, some, Bool, true, false, not, [], ◌∷◌, ◌==◌, eqb, if◌then◌else◌,
}
use dorothy.Outcome.{
  Outcome, done, failed, external, not_connected, nil_dereference, unexpected_status, no_payload,
  no_remote, ill_formed_remote,
}
use dorothy.Sorter.{Sorter}
use dorothy.Manifest.{Slot}
use dorothy.Effects.{Action, pure, lift, guard, ◌>>=◌, ◌>>◌}
use dorothy.Host.{Host}
use dorothy.Ipfs
use dorothy.Sdk.{
  Payload, Client, Http, Result, get_asset, post_asset, login_guard, write_cookies,
  new_client_with_cookies,
}
use dorothy.Config.{Remote}
use dorothy.Repo.{Dorothy, Repo, on_world, gets, wrap, merge_into}

module _ (h : Host) (sort : Sorter Slot) (http : Http h.World) where
  open h use {World, join}

  -- `SdkClient` once it has made a client.
  abbrev pub keep_client :
      Option (Client World) × Option String × World → Action (Repo World) (Option (Client World))
  keep_client (c, some e, w') r = (failed (external e), record r { client = c; world = w' })
  keep_client (c, none, w') r = (done c, record r { client = c; world = w' })

  abbrev pub make_client : Bool → Option Remote → Action (Repo World) (Option (Client World))
  make_client true remote r = (failed no_remote, r)
  make_client false none r = (failed ill_formed_remote, r)
  make_client false (some remote) r =
      keep_client
        (new_client_with_cookies http remote.scheme remote.address
          (join r.dorothy.directory "cookies") r.world)
        r

  abbrev pub cached : Option (Client World) → Action (Repo World) (Option (Client World))
  cached (some c) r = (done (some c), r)
  cached none r = make_client (r.dorothy.config.remote_string == "") r.dorothy.config.remote r

  unfoldable pub sdk_client : Action (Repo World) (Option (Client World))
  sdk_client r = cached r.client r

  -- What `Fetch` and `Push` accept of a response.
  unfoldable pub payload_of : Result → Outcome Payload
  payload_of result = elim result.error [
    | some e ↦ failed (external e)
    | none ↦
        if not (eqb result.code 200)
        then failed unexpected_status
        else elim result.payload [ none ↦ failed no_payload | some p ↦ done p ]
  ]

  abbrev pub keep_payload : Result → Payload → Action (Repo World) Payload
  keep_payload result payload = do
    d ← gets h (λ d. d)
    on_world h (λ w. (
      done tt,
      if result.required_login then write_cookies http (join d.directory "cookies") w else w,
    ))
    pure payload

  -- The request is sent under the login guard, and its cookies are kept.
  unfoldable pub send_with :
      Option (Client World)
      → (Option (Client World) → World → Result × World)
      → Action (Repo World) Payload
  unfolding payload_of
  send_with client send = do
    result ← on_world h (λ w. let (r, w') = login_guard http client (send client) w in (done r, w'))
    payload ← lift (payload_of result)
    keep_payload result payload

  -- The request of `Fetch` or `Push`.
  unfoldable pub exchange :
      (Dorothy → Outcome (Option (Client World) → World → Result × World))
      → Action (Repo World) Payload
  unfolding sdk_client send_with
  exchange req = do
    client ← sdk_client
    d ← gets h (λ d. d)
    send ← lift (req d)
    send_with client send

  -- The requests; a nil manifest or remote is a panic.
  unfoldable pub fetch_request : Dorothy → Outcome (Option (Client World) → World → Result × World)
  fetch_request d = elim d.config.remote [
    | none ↦ failed nil_dereference
    | some r ↦ done (λ client. get_asset http client (r.organization ∷ r.dataset ∷ []))
  ]

  unfoldable pub push_request : Dorothy → Outcome (Option (Client World) → World → Result × World)
  push_request d = elim d.manifest [
    | none ↦ failed nil_dereference
    | some m ↦ elim d.config.remote [
      | none ↦ failed nil_dereference
      | some r ↦ done (λ client.
          post_asset http client (record { hash = m.hash; peer_identity = d.ipfs.identity })
            (r.organization ∷ r.dataset ∷ []))
    ]
  ]

  unfoldable pub fetch : Action (Repo World) (Unit {0})
  unfolding exchange merge_into fetch_request
  fetch = do
    c ← gets h (λ d. d.ipfs.connected)
    guard c not_connected
    payload ← exchange fetch_request
    on_world h (Ipfs.connect_to_peer_by_id h payload.peer_identity)
    new ← on_world h (Ipfs.get_manifest h payload.hash)
    merge_into h sort new

  unfoldable pub push : Action (Repo World) (Unit {0})
  unfolding exchange merge_into push_request
  push = do
    c ← gets h (λ d. d.ipfs.connected)
    guard c not_connected
    payload ← exchange push_request
    wrap h "failed to connect to remote peer after push"
        (on_world h (Ipfs.connect_to_peer_by_id h payload.peer_identity))
    new ←
        wrap h "failed to retrieve manifest after push"
          (on_world h (Ipfs.get_manifest h payload.hash))
    merge_into h sort new
