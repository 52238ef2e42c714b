-- ===== src/Server/Startup/Ready.antt =====
-- What a server of server/server.go that has started has.
use dorothy.Base.{
  String, ◌≡◌, refl, sym, ap, ◌∙◌, subst, Option, none, some, Bool, true, false, not, List, [],
  if◌then◌else◌,
}
use dorothy.Outcome.{Outcome, done, Reply, ok, err}
use dorothy.Effects.{Action, call, lift, pure, ◌>>=◌, >>=-eq-done}
use dorothy.Host.{Host}
use dorothy.Config.{DatabaseConfig, IpfsConfig}
use dorothy.Repo.{Dorothy, Repo, on_world, gets}
use dorothy.Repo.Steps.{on_world-eq-done, call-eq-done, Keeps, >>=-Keeps}
use dorothy.Setup.{System, Kubo}
use dorothy.Setup.Connection.{
  NodeOption, new_ipfs, setup_plugins, instantiate, attach, attach_node, connect_local, global_api,
  found_api, peer_identity, attach_global, connect_global, connect_ipfs, reload_ipfs,
}
use dorothy.Setup.Nodes.{connect_ipfs-Connected, apart}
use dorothy.Server.Session.{Store, database_path, new_database_session, initialize_session}
use dorothy.Server.Tokens.{Auth, Jwt, new_auth}
use dorothy.Server.Startup.{
  ignored, set_global, made_global, use_global_node, open_sessions, new_server_from_dorothy,
}

module _ (h : Host) (kubo : Kubo h.World) where
  open h use {World}

  -- The program apart from its node, and the configuration that the node was made with.
  abbrev settled : Repo World → Dorothy × IpfsConfig
  settled r = (apart h r, r.dorothy.ipfs.config)

  attach-settled :
      (n : kubo.KuboNode) (x : Reply (Unit {0}) × World) (r : Repo World)
      → settled (attach h kubo n x r).1 ≡ settled r
  attach-settled n (err e, w) r = refl
  attach-settled n (ok _, w) r = refl

  connect_local-settled :
      (directory : String) (options : List NodeOption)
      → Keeps settled (connect_local h kubo directory options)
  unfolding connect_local setup_plugins instantiate
  connect_local-settled directory options r =
      let v : Repo World = record r { world = kubo.load_plugins r.world } in
      >>=-Keeps settled (instantiate h kubo directory options) (attach_node h kubo) (λ s. refl)
        (λ n s. attach-settled n (kubo.core_api n s.world) s) v

  connect_global-settled : Keeps settled (connect_global h kubo)
  unfolding connect_global global_api peer_identity
  connect_global-settled r =
      >>=-Keeps settled (global_api h kubo)
        (λ reply. lift (found_api h kubo reply) >>= λ api.
          peer_identity h kubo api >>= attach_global h kubo)
        (λ s. refl)
        (λ reply.
          >>=-Keeps settled (lift (found_api h kubo reply))
            (λ api. peer_identity h kubo api >>= attach_global h kubo) (λ s. refl)
            (λ api.
              >>=-Keeps settled (peer_identity h kubo api) (attach_global h kubo) (λ s. refl)
                (λ id s. refl)))
        r

  connect_ipfs-settled : (options : List NodeOption) → Keeps settled (connect_ipfs h kubo options)
  unfolding connect_ipfs
  connect_ipfs-settled options r = go r.dorothy.ipfs.config.global
    where
      go :
          (b : Bool)
          → settled
              (if not b
                then connect_local h kubo r.dorothy.directory options r
                else connect_global h kubo r).1
            ≡ settled r
      go true = connect_global-settled r
      go false = connect_local-settled r.dorothy.directory options r

  -- A node that is reloaded is made with the configuration of the program, also where it cannot be
  -- connected again.
  reload_ipfs-settled :
      (r : Repo World)
      → settled (reload_ipfs h kubo r).1 ≡ (apart h r, (new_ipfs r.dorothy.config.ipfs).config)
  unfolding reload_ipfs
  reload_ipfs-settled r = go r.dorothy.ipfs.connected
    where
      made : Repo World
      made = record r { dorothy = record (r.dorothy) { ipfs = new_ipfs r.dorothy.config.ipfs } }

      go :
          (b : Bool)
          → settled ((if b then connect_ipfs h kubo [] else pure tt) made).1 ≡ settled made
      go true = connect_ipfs-settled [] made
      go false = refl

module _ (h : Host) (system : System h.World) (kubo : Kubo h.World) (store : Store h.World)
    {R : Type 0} (jwt : Jwt R h.World) where
  open h use {World}

  flagged :
      (o : Option IpfsConfig)
      → (new_ipfs (some (made_global h system kubo store jwt o))).config.global ≡ true
  unfolding new_ipfs
  flagged none = refl
  flagged (some c) = refl

  -- The node is made with the flag; all but the node and its configuration stays.
  use_global_node-database :
      (global : Bool) (r v : Repo World)
      → use_global_node h system kubo store jwt global r ≡ (done tt, v)
      → (v.dorothy.config.database ≡ r.dorothy.config.database)
        × (global ≡ true → v.dorothy.ipfs.config.global ≡ true)
  unfolding use_global_node
  use_global_node-database false r v e =
      (sym (ap (λ (y : Outcome (Unit {0}) × Repo World). y.1.dorothy.config.database) e), λ f. cc)
  use_global_node-database true r v e =
      let start = (set_global h system kubo store jwt r).1 in
      let same : (reload_ipfs h kubo start).1 ≡ v =
        ap (λ (y : Outcome (Unit {0}) × Repo World). y.1) e in
      let kept =
        ap (λ (s : Repo World). settled h kubo s) (sym same) ∙ reload_ipfs-settled h kubo start in
      (
        ap (λ (p : Dorothy × IpfsConfig). p.0.config.database) kept,
        λ _. ap (λ (p : Dorothy × IpfsConfig). p.1.global) kept ∙ flagged r.dorothy.config.ipfs,
      )

  new_database_session-eq-done :
      (o : Option DatabaseConfig) (w w' : World)
      → new_database_session store o w ≡ (done tt, w')
      → (c : DatabaseConfig) × (o ≡ some c)
        × (store.open_database (database_path c) w ≡ (ok tt, w'))
  unfolding new_database_session
  new_database_session-eq-done none w w' e = cc
  new_database_session-eq-done (some c) w w' e =
      (c, refl, call-eq-done h (store.open_database (database_path c)) w w' e)

  -- The secret and the database that a server has got.
  pub record Opened (auth : Auth) (r r' : Repo World) : Type 0 where
    pub same : r'.dorothy ≡ r.dorothy
    pub made_at : World
    pub secret : new_auth jwt r.world ≡ (ok auth, made_at)
    pub database : DatabaseConfig
    pub configured : r.dorothy.config.database ≡ some database
    pub opened_at : World
    pub opened : store.open_database (database_path database) made_at ≡ (ok tt, opened_at)
    pub left : r'.world ≡ (initialize_session store opened_at).1

  open_sessions-Opened :
      (auth : Auth) (r r' : Repo World)
      → open_sessions h system kubo store jwt r ≡ (done auth, r')
      → Opened auth r r'
  unfolding open_sessions
  open_sessions-Opened auth r r' e =
      let finish : Auth → Action (Repo World) Auth = λ auth.
        ignored h system kubo store jwt (on_world h (initialize_session store)) >>= λ _.
        pure auth in
      let (made, t, e1, e2) =
        >>=-eq-done (on_world h (call (new_auth jwt)))
          (λ auth. gets h (λ d. d) >>= λ d.
            on_world h (new_database_session store d.config.database) >>= λ _. finish auth)
          r e in
      let session = new_database_session store t.dorothy.config.database in
      let (_, s, e3, e4) = >>=-eq-done (on_world h session) (λ _. finish made) t e2 in
      let (signed, t_same) = on_world-eq-done h (call (new_auth jwt)) r t e1 in
      let (ran, s_same) = on_world-eq-done h session t s e3 in
      let (c, found, opened) =
        new_database_session-eq-done t.dorothy.config.database t.world s.world ran in
      let ended : record s { world = (initialize_session store s.world).1 } ≡ r' =
        ap (λ (y : Outcome Auth × Repo World). y.1) e4 in
      let given : Path (Outcome Auth) (done made) (done auth) =
        ap (λ (y : Outcome Auth × Repo World). y.0) e4 in
      let same_auth : Path Auth made auth = cc in
      let kept : t.dorothy ≡ r.dorothy = ap (λ (x : Repo World). x.dorothy) t_same in
      record {
        same =
            sym (ap (λ (x : Repo World). x.dorothy) ended)
            ∙ ap (λ (x : Repo World). x.dorothy) s_same
            ∙ kept;
        made_at = t.world;
        secret =
            subst (λ (a : Auth). new_auth jwt r.world ≡ (ok a, t.world)) same_auth
              (call-eq-done h (new_auth jwt) r.world t.world signed);
        database = c;
        configured = sym (ap (λ (d : Dorothy). d.config.database) kept) ∙ found;
        opened_at = s.world;
        opened = opened;
        left = sym (ap (λ (x : Repo World). x.world) ended);
      }

  -- What a server that has started has.
  pub record Started (global : Bool) (auth : Auth) (r r' : Repo World) : Type 0 where
    pub connected : r'.dorothy.ipfs.connected ≡ true
    pub as_flagged : global ≡ true → r'.dorothy.ipfs.config.global ≡ true
    pub before : Repo World
    pub sessions : Opened auth before r'
    pub configured : r.dorothy.config.database ≡ some sessions.database

  -- A server that is made from a program has a connected node, a global one where that is asked for, a
  -- secret, and the database of the program's configuration, opened and then initialized, whether that
  -- succeeded or not.
  pub new_server_from_dorothy_sound :
      (global : Bool) (auth : Auth) (r r' : Repo World)
      → new_server_from_dorothy h system kubo store jwt global r ≡ (done auth, r')
      → Started global auth r r'
  unfolding new_server_from_dorothy
  new_server_from_dorothy_sound global auth r r' e =
      let open_it = open_sessions h system kubo store jwt in
      let (_, v, e1, e2) =
        >>=-eq-done (use_global_node h system kubo store jwt global)
          (λ _. connect_ipfs h kubo [] >>= λ _. open_it) r e in
      let (_, u, e3, e4) = >>=-eq-done (connect_ipfs h kubo []) (λ _. open_it) v e2 in
      let (database, flag) = use_global_node-database global r v e1 in
      let kept : settled h kubo u ≡ settled h kubo v =
        sym (ap (λ (y : Outcome (Unit {0}) × Repo World). settled h kubo y.1) e3)
        ∙ connect_ipfs-settled h kubo [] v in
      let o = open_sessions-Opened auth u r' e4 in
      record {
        connected =
            ap (λ (d : Dorothy). d.ipfs.connected) o.same
            ∙ (connect_ipfs-Connected h kubo [] v u e3).connected;
        as_flagged = λ g.
            ap (λ (d : Dorothy). d.ipfs.config.global) o.same
            ∙ ap (λ (p : Dorothy × IpfsConfig). p.1.global) kept
            ∙ flag g;
        before = u;
        sessions = o;
        configured =
            sym database
            ∙ sym (ap (λ (p : Dorothy × IpfsConfig). p.0.config.database) kept)
            ∙ o.configured;
      }
