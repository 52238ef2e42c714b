-- ===== src/Setup/Nodes.antt =====
-- What the connection of a node, core/ipfs.go, changes of the program.
use dorothy.Base.{
  String, Option, ◌≡◌, refl, sym, ap, ◌∙◌, Bool, true, false, not, if◌then◌else◌, List, [],
}
use dorothy.Outcome.{Outcome, done, Reply, ok, err}
use dorothy.Effects.{Action, call, lift, pure, ◌>>=◌, >>=-eq-done, >>=-lift-eq-done}
use dorothy.Host.{Host}
use dorothy.Repo.{Dorothy, Repo, Node, on_world, wrap, instead}
use dorothy.Repo.Steps.{Keeps, >>=-Keeps, instead-eq-done}
use dorothy.Sdk.{Client}
use dorothy.Config.{pos, IpfsConfig}
use dorothy.Setup.{Kubo}
use dorothy.Setup.Connection.{
  NodeOption, new_ipfs, setup_plugins, attach, attach_node, instantiate, global_api, peer_identity,
  attach_global, connect_local, found_api, connect_global, connect_ipfs, initialize_local,
  initialize_ipfs, initialize_and_connect, reload_ipfs,
}

module _ (h : Host) where
  open h use {World}

  abbrev pub no_node : Node
  no_node = record {
    config = record { global = false; address = ""; port = pos 0 };
    connected = false;
    identity = "";
  }

  -- The program apart from its node.
  abbrev pub apart : Repo World → Dorothy
  apart r = record (r.dorothy) { ipfs = no_node }

  -- The configuration of the node, and the client of the remote.
  abbrev pub steady : Repo World → IpfsConfig × Option (Client World)
  steady r = (r.dorothy.ipfs.config, r.client)

  steady_after :
      {A : Type 0} (m : Action (Repo World) A) (r r' : Repo World) {a : A}
      → m r ≡ (done a, r')
      → steady (m r).1 ≡ steady r
      → steady r' ≡ steady r
  steady_after {A} m r r' e k = sym (ap (λ (y : Outcome A × Repo World). steady y.1) e) ∙ k

  pub apart_after :
      {A : Type 0} (m : Action (Repo World) A) (r r' : Repo World) {a : A}
      → m r ≡ (done a, r')
      → apart (m r).1 ≡ apart r
      → apart r' ≡ apart r
  apart_after {A} m r r' e k = sym (ap (λ (y : Outcome A × Repo World). apart y.1) e) ∙ k

  module _ (kubo : Kubo h.World) where
    open kubo use {KuboNode, core_api}

    -- What a connection leaves: a connected node, and all but the node as it was.
    pub record Connected (r r' : Repo World) : Type 0 where
      pub connected : r'.dorothy.ipfs.connected ≡ true
      pub same : apart r' ≡ apart r

    -- Of the node only the connection and the identity are new, and the client is the same.
    pub connect_ipfs-steady :
        (options : List NodeOption) (r r' : Repo World)
        → connect_ipfs h kubo options r ≡ (done tt, r')
        → steady r' ≡ steady r
    unfolding connect_ipfs connect_local connect_global setup_plugins instantiate global_api
        peer_identity
    connect_ipfs-steady options r r' e = go r.dorothy.ipfs.config.global e
      where
        attached :
            (n : KuboNode) (reply : Reply (Unit {0}) × World) (s : Repo World)
            → attach h kubo n reply s ≡ (done tt, r')
            → steady r' ≡ steady s
        attached n (err x, w) s k = cc
        attached n (ok _, w) s k = sym (ap (λ (y : Outcome (Unit {0}) × Repo World). steady y.1) k)

        go :
            (b : Bool)
            → (if not b
                then connect_local h kubo r.dorothy.directory options r
                else connect_global h kubo r)
              ≡ (done tt, r')
            → steady r' ≡ steady r
        go true k =
            let (reply, v, e1, e2) =
              >>=-eq-done (global_api h kubo)
                (λ reply. lift (found_api h kubo reply) >>= λ api.
                  peer_identity h kubo api >>= attach_global h kubo)
                r k in
            let (api, e3, e4) =
              >>=-lift-eq-done (found_api h kubo reply)
                (λ api. peer_identity h kubo api >>= attach_global h kubo) v e2 in
            let (id, u, e5, e6) =
              >>=-eq-done (peer_identity h kubo api) (attach_global h kubo) v e4 in
            sym (ap (λ (y : Outcome (Unit {0}) × Repo World). steady y.1) e6)
            ∙ steady_after (peer_identity h kubo api) v u e5 refl
            ∙ steady_after (global_api h kubo) r v e1 refl
        go false k =
            let (_, v, e1, e2) =
              >>=-eq-done (setup_plugins h kubo)
                (λ _. instantiate h kubo r.dorothy.directory options >>= attach_node h kubo) r k in
            let (n, u, e3, e4) =
              >>=-eq-done (instantiate h kubo r.dorothy.directory options) (attach_node h kubo) v
                e2 in
            attached n (core_api n u.world) u e4
            ∙ steady_after (instantiate h kubo r.dorothy.directory options) v u e3 refl
            ∙ steady_after (setup_plugins h kubo) r v e1 refl

    attach-Connected :
        (n : KuboNode) (reply : Reply (Unit {0}) × World) (r r' : Repo World)
        → attach h kubo n reply r ≡ (done tt, r')
        → Connected r r'
    attach-Connected n (err e, w) r r' h' = cc
    attach-Connected n (ok _, w) r r' h' = record {
      connected = sym (ap (λ (y : Outcome (Unit {0}) × Repo World). y.1.dorothy.ipfs.connected) h');
      same = sym (ap (λ (y : Outcome (Unit {0}) × Repo World). apart y.1) h');
    }

    connect_local-Connected :
        (directory : String) (options : List NodeOption) (r r' : Repo World)
        → connect_local h kubo directory options r ≡ (done tt, r')
        → Connected r r'
    unfolding connect_local setup_plugins instantiate
    connect_local-Connected directory options r r' e =
        let (_, v, e1, e2) =
          >>=-eq-done (setup_plugins h kubo)
            (λ _. instantiate h kubo directory options >>= attach_node h kubo) r e in
        let (n, u, e3, e4) =
          >>=-eq-done (instantiate h kubo directory options) (attach_node h kubo) v e2 in
        let c = attach-Connected n (core_api n u.world) u r' e4 in
        record {
          connected = c.connected;
          same =
              c.same
              ∙ apart_after (instantiate h kubo directory options) v u e3 refl
              ∙ apart_after (setup_plugins h kubo) r v e1 refl;
        }

    connect_global-Connected :
        (r r' : Repo World) → connect_global h kubo r ≡ (done tt, r') → Connected r r'
    unfolding connect_global global_api peer_identity
    connect_global-Connected r r' e =
        let (reply, v, e1, e2) =
          >>=-eq-done (global_api h kubo)
            (λ reply. lift (found_api h kubo reply) >>= λ api.
              peer_identity h kubo api >>= attach_global h kubo)
            r e in
        let (api, e3, e4) =
          >>=-lift-eq-done (found_api h kubo reply)
            (λ api. peer_identity h kubo api >>= attach_global h kubo) v e2 in
        let (id, u, e5, e6) = >>=-eq-done (peer_identity h kubo api) (attach_global h kubo) v e4 in
        record {
          connected =
              sym (ap (λ (y : Outcome (Unit {0}) × Repo World). y.1.dorothy.ipfs.connected) e6);
          same =
              sym (ap (λ (y : Outcome (Unit {0}) × Repo World). apart y.1) e6)
              ∙ apart_after (peer_identity h kubo api) v u e5 refl
              ∙ apart_after (global_api h kubo) r v e1 refl;
        }

    pub connect_ipfs-Connected :
        (options : List NodeOption) (r r' : Repo World)
        → connect_ipfs h kubo options r ≡ (done tt, r')
        → Connected r r'
    unfolding connect_ipfs
    connect_ipfs-Connected options r r' e = go r.dorothy.ipfs.config.global e
      where
        go :
            (b : Bool)
            → (if not b
                then connect_local h kubo r.dorothy.directory options r
                else connect_global h kubo r)
              ≡ (done tt, r')
            → Connected r r'
        go true e = connect_global-Connected r r' e
        go false e = connect_local-Connected r.dorothy.directory options r r' e

    -- The program with its node made anew from its configuration.
    abbrev pub renewed : Repo World → Repo World
    renewed r = record r { dorothy = record (r.dorothy) { ipfs = new_ipfs r.dorothy.config.ipfs } }

    -- Reloading the node leaves all else as it was.
    pub reload_ipfs-apart :
        (r r' : Repo World) → reload_ipfs h kubo r ≡ (done tt, r') → apart r' ≡ apart r
    unfolding reload_ipfs
    reload_ipfs-apart r r' e = go r.dorothy.ipfs.connected e
      where
        go :
            (b : Bool)
            → (if b then connect_ipfs h kubo [] else pure tt) (renewed r) ≡ (done tt, r')
            → apart r' ≡ apart r
        go true e = (connect_ipfs-Connected [] (renewed r) r' e).same
        go false e = sym (ap (λ (y : Outcome (Unit {0}) × Repo World). apart y.1) e)

    -- Making the local node's repository leaves the program alone.
    initialize_local-apart : (directory : String) → Keeps apart (initialize_local h kubo directory)
    unfolding initialize_local setup_plugins
    initialize_local-apart directory r =
        >>=-Keeps apart
          (wrap h "failed to generate default IPFS config" (on_world h (call kubo.generate_config)))
          (λ cfg.
            wrap h "failed to initialize IPFS repo"
              (on_world h (call (kubo.fsrepo_init directory cfg))))
          (λ s. refl) (λ cfg s. refl) (record r { world = kubo.load_plugins r.world })

    initialize_ipfs-apart : Keeps apart (initialize_ipfs h kubo)
    unfolding initialize_ipfs
    initialize_ipfs-apart r = go r.dorothy.ipfs.config.global
      where
        go :
            (b : Bool)
            → apart
                (if not b then initialize_local h kubo r.dorothy.directory r else (done tt, r)).1
              ≡ apart r
        go true = refl
        go false = initialize_local-apart r.dorothy.directory r

    pub initialize_and_connect-Connected :
        (options : List NodeOption) (r r' : Repo World)
        → initialize_and_connect h kubo options r ≡ (done tt, r')
        → Connected r r'
    unfolding initialize_and_connect
    initialize_and_connect-Connected options r r' e =
        let (_, v, e1, e2) =
          >>=-eq-done (wrap h "failed to initialize IPFS" (initialize_ipfs h kubo))
            (λ _. instead h "failed to connect to IPFS" (connect_ipfs h kubo options)) r e in
        let c =
          connect_ipfs-Connected options v r'
            (instead-eq-done h "failed to connect to IPFS" (connect_ipfs h kubo options) v r' e2) in
        record {
          connected = c.connected;
          same =
              c.same
              ∙ apart_after (wrap h "failed to initialize IPFS" (initialize_ipfs h kubo)) r v e1
                  (initialize_ipfs-apart r);
        }
