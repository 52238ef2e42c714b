-- ===== src/Setup/Connection.antt =====
-- core/ipfs.go: `NewIpfs`, `Initialize` and `Connect`, and their callers in core/dorothy.go.
use dorothy.Base.{
  String, Option, none, some, true, false, not, ◌&&◌, List, [], ◌∷◌, ◌==◌, if◌then◌else◌,
}
use dorothy.Outcome.{Reply, ok, err, Outcome, done, failed, external}
use dorothy.Effects.{Action, pure, lift, call, ◌>>=◌, ◌>>◌}
use dorothy.Host.{Host}
use dorothy.Config.{pos, is_zero, IpfsConfig}
use dorothy.Config.Addresses.{ipfs_url}
use dorothy.Repo.{Node, Repo, on_world, gets, wrap, instead}
use dorothy.Setup.{BuildCfg, Kubo}

unfoldable pub new_ipfs : Option IpfsConfig → Node
new_ipfs none = record {
  config = record { global = false; address = ""; port = pos 0 };
  connected = false;
  identity = "";
}
new_ipfs (some c) = record { config = c; connected = false; identity = "" }

-- `IpfsNodeOption`: `IpfsOnline` and `IpfsOffline`
abbrev pub NodeOption : Type 0
NodeOption = BuildCfg → BuildCfg

abbrev pub online : NodeOption
online c = record c { online = true }

abbrev pub offline : NodeOption
offline c = record c { online = false }

-- The loop over the options.
unfoldable pub build_cfg : List NodeOption → BuildCfg → BuildCfg
build_cfg [] c = c
build_cfg (o ∷ os) c = build_cfg os (o c)

module _ (h : Host) (kubo : Kubo h.World) where
  open h use {World}
  open kubo use {
    KuboNode, Api, load_plugins, generate_config, fsrepo_init, fsrepo_open, new_node, core_api,
    identity, local_api, url_api, request_id,
  }

  abbrev pub set_node : Node → Action (Repo World) (Unit {0})
  set_node n r = (done tt, record r { dorothy = record (r.dorothy) { ipfs = n } })

  unfoldable pub setup_plugins : Action (Repo World) (Unit {0})
  setup_plugins r = (done tt, record r { world = load_plugins r.world })

  unfoldable pub initialize_local : String → Action (Repo World) (Unit {0})
  unfolding setup_plugins
  initialize_local directory = do
    setup_plugins
    cfg ← wrap h "failed to generate default IPFS config" (on_world h (call generate_config))
    wrap h "failed to initialize IPFS repo" (on_world h (call (fsrepo_init directory cfg)))

  -- `Dorothy.InitializeIpfs`
  unfoldable pub initialize_ipfs : Action (Repo World) (Unit {0})
  unfolding initialize_local
  initialize_ipfs r =
      if not r.dorothy.ipfs.config.global
      then initialize_local r.dorothy.directory r
      else (done tt, r)

  unfoldable pub create_node : String → List NodeOption → Action World KuboNode
  unfolding build_cfg
  create_node directory options = do
    repo ← call (fsrepo_open directory)
    call (new_node (build_cfg options (record { online = true })) repo)

  -- `s.CoreAPI, err = coreapi.NewCoreAPI(s.node)`: an error leaves a nil interface.
  abbrev pub attach :
      KuboNode → Reply (Unit {0}) × World → Repo World → Outcome (Unit {0}) × Repo World
  attach n (err e, w) r = (
    failed (external "failed to connect to local IPFS API"),
    record r {
      dorothy = record (r.dorothy) { ipfs = record (r.dorothy.ipfs) { connected = false } };
      world = w;
    },
  )
  attach n (ok _, w) r = (
    done tt,
    record r {
      dorothy = record (r.dorothy) {
        ipfs = record (r.dorothy.ipfs) { connected = true; identity = identity n };
      };
      world = w;
    },
  )

  unfoldable pub instantiate : String → List NodeOption → Action (Repo World) KuboNode
  unfolding create_node
  instantiate directory options =
      wrap h "failed to instantiate local IPFS node" (on_world h (create_node directory options))

  abbrev pub attach_node : KuboNode → Action (Repo World) (Unit {0})
  attach_node n r = attach n (core_api n r.world) r

  unfoldable pub connect_local : String → List NodeOption → Action (Repo World) (Unit {0})
  unfolding setup_plugins instantiate
  connect_local directory options = do
    setup_plugins
    n ← instantiate directory options
    attach_node n

  abbrev pub found_api : Option Api → Outcome Api
  found_api none = failed (external "cannot connect to global IPFS instance")
  found_api (some api) = done api

  unfoldable pub global_api : Action (Repo World) (Option Api)
  global_api r =
      let c = r.dorothy.ipfs.config in
      on_world h
        (call (if c.address == "" && is_zero c.port then local_api else url_api (ipfs_url c))) r

  unfoldable pub peer_identity : Api → Action (Repo World) String
  peer_identity api =
      instead h "cannot get peer id for global node" (on_world h (call (request_id api)))

  abbrev pub attach_global : String → Action (Repo World) (Unit {0})
  attach_global id r = set_node (record (r.dorothy.ipfs) { connected = true; identity = id }) r

  unfoldable pub connect_global : Action (Repo World) (Unit {0})
  unfolding global_api peer_identity
  connect_global = do
    reply ← global_api
    api ← lift (found_api reply)
    id ← peer_identity api
    attach_global id

  -- `Dorothy.ConnectIpfs`
  unfoldable pub connect_ipfs : List NodeOption → Action (Repo World) (Unit {0})
  unfolding connect_local connect_global
  connect_ipfs options r =
      if not r.dorothy.ipfs.config.global
      then connect_local r.dorothy.directory options r
      else connect_global r

  unfoldable pub initialize_and_connect : List NodeOption → Action (Repo World) (Unit {0})
  unfolding initialize_ipfs connect_ipfs
  initialize_and_connect options = do
    wrap h "failed to initialize IPFS" initialize_ipfs
    instead h "failed to connect to IPFS" (connect_ipfs options)

  -- A node that was connected is connected again, with the configuration as it is now.
  unfoldable pub reload_ipfs : Action (Repo World) (Unit {0})
  unfolding new_ipfs connect_ipfs
  reload_ipfs = do
    d ← gets h (λ d. d)
    set_node (new_ipfs d.config.ipfs)
    if d.ipfs.connected then connect_ipfs [] else pure tt
