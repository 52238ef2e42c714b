-- ===== src/Setup/Ready.antt =====
-- What `Setup` and `Initialize` of core/dorothy.go leave.
use dorothy.Base.{String, ◌≡◌, sym, ap, ◌∙◌, subst, some, true, List}
use dorothy.Outcome.{Outcome, done, conflicted, failed, ok, not_repository, not_connected}
use dorothy.Manifest.{Manifest}
use dorothy.Effects.{Action, call, ◌>>=◌, ◌>>◌, >>=-eq-done, guard-eq-done}
use dorothy.Host.{Host}
use dorothy.Ipfs
use dorothy.Repo.{Dorothy, Repo, on_world, manifest_path, assign_manifest, load_manifest}
use dorothy.Repo.Steps.{on_world-eq-done, call-eq-done}
use dorothy.Setup.{System, Kubo}
use dorothy.Setup.Nodes.{Connected, steady, connect_ipfs-Connected, connect_ipfs-steady}
use dorothy.Setup.Connection.{NodeOption, connect_ipfs}
use dorothy.Setup.Start.{is_initialized, setup}

module _ (h : Host) where
  open h use {World, read_file}

  pub assign_manifest-eq-done :
      (m : Action World Manifest) (r r' : Repo World)
      → assign_manifest h m r ≡ (done tt, r')
      → (new : Manifest) × (m r.world ≡ (done new, r'.world))
        × (r'.dorothy ≡ record (r.dorothy) { manifest = some new })
        × (r'.client ≡ r.client)
  unfolding assign_manifest
  assign_manifest-eq-done m r r' e = go (m r.world) e
    where
      go :
          (x : Outcome Manifest × World)
          → assign_manifest h (λ _. x) r ≡ (done tt, r')
          → (new : Manifest) × (x ≡ (done new, r'.world))
            × (r'.dorothy ≡ record (r.dorothy) { manifest = some new })
            × (r'.client ≡ r.client)
      go (done m, w) k = (
        m,
        ap (λ (y : Outcome (Unit {0}) × Repo World). (done m, y.1.world)) k,
        sym (ap (λ (y : Outcome (Unit {0}) × Repo World). y.1.dorothy) k),
        sym (ap (λ (y : Outcome (Unit {0}) × Repo World). y.1.client) k),
      )
      go (conflicted cs x, w) k = cc
      go (failed x, w) k = cc

  module _ (system : System World) (kubo : Kubo World) where
    -- What `Setup` leaves.
    pub record SetUp (r r' : Repo World) : Type 0 where
      pub initialized : is_initialized h system r.dorothy r.world ≡ true
      pub before : Repo World
      pub connection : Connected h kubo r before
      pub steady : steady h before ≡ steady h r
      pub same_client : r'.client ≡ r.client
      pub hash : String
      pub read_in : World
      pub named : read_file (manifest_path h r.dorothy) before.world ≡ (ok hash, read_in)
      pub manifest : Manifest
      pub got : Ipfs.get_manifest h hash read_in ≡ (done manifest, r'.world)
      pub holds : r'.dorothy ≡ record (before.dorothy) { manifest = some manifest }

    -- A set-up that succeeds found the directory, the configuration and the manifest file of a
    -- repository. It leaves a connected node and the manifest that the node has under the hash that
    -- the file names, and changes nothing else of the program: the node has the configuration that it
    -- had, and the client of the remote stays too. Only the connection and the identity of the node, the
    -- manifest and the world are new.
    pub setup_sound :
        (options : List NodeOption) (r r' : Repo World)
        → setup h system kubo options r ≡ (done tt, r')
        → SetUp r r'
    unfolding setup load_manifest manifest_path
    setup_sound options r r' e =
        let (init, e1) =
          guard-eq-done (is_initialized h system r.dorothy r.world) not_repository
            (λ _. connect_ipfs h kubo options >> load_manifest h) r e in
        let (_, v, e2, e3) =
          >>=-eq-done (connect_ipfs h kubo options) (λ _. load_manifest h) r e1 in
        let c = connect_ipfs-Connected h kubo options r v e2 in
        let kept = connect_ipfs-steady h kubo options r v e2 in
        let path = manifest_path h v.dorothy in
        let (_, e4) =
          guard-eq-done v.dorothy.ipfs.connected not_connected
            (λ _. on_world h (call (read_file path)) >>= λ hash.
              assign_manifest h (Ipfs.get_manifest h hash))
            v e3 in
        let (hash, u, e5, e6) =
          >>=-eq-done (on_world h (call (read_file path)))
            (λ hash. assign_manifest h (Ipfs.get_manifest h hash)) v e4 in
        let (ran, same) = on_world-eq-done h (call (read_file path)) v u e5 in
        let (m, got, holds, client) = assign_manifest-eq-done (Ipfs.get_manifest h hash) u r' e6 in
        record {
          initialized = init;
          before = v;
          connection = c;
          steady = kept;
          same_client = client ∙ ap (λ (s : Repo World). s.client) same ∙ ap (λ y. y.1) kept;
          hash = hash;
          named =
              subst (λ (x : String). read_file (h.join x "manifest") v.world ≡ (ok hash, u.world))
                (ap (λ (x : Dorothy). x.directory) c.same)
                (call-eq-done h (read_file path) v.world u.world ran);
          manifest = m;
          read_in = u.world;
          got = got;
          holds = holds ∙ ap (λ (s : Repo World). record (s.dorothy) { manifest = some m }) same;
        }
