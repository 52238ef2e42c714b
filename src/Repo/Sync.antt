-- ===== src/Repo/Sync.antt =====
-- What `Fetch` and `Push` of core/dorothy.go do to the loaded manifest.
use mathlib.Core.Logic.Or
use dorothy.Base.{
  ◌≡◌, refl, sym, ap, ◌∙◌, subst, Option, none, some, Bool, true, false, Mem, String, ◌==◌,
}
use dorothy.Version.{Version}
use dorothy.Outcome.{Outcome, done, conflicted, failed}
use dorothy.Sorter.{Sorter, IsSorter}
use dorothy.Manifest.{Manifest, Slot}
use dorothy.Manifest.MergeLaws
use dorothy.Effects.{Action, continue, >>=-eq-done, guard-eq-done}
use dorothy.Host.{Host, HostLaws}
use dorothy.Ipfs
use dorothy.Sdk.{Payload, Client, Http, Result, login_guard}
use dorothy.Config.{Remote}
use dorothy.Repo.{Dorothy, Repo, on_world, wrap, merge_into}
use dorothy.Repo.Commit.{Merged, merge_into_sound}
use dorothy.Repo.Steps.{Keeps, >>=-Keeps, on_world-eq-done, wrap-eq-done}
use dorothy.Repo.Answers.{Exchanged, exchange-Exchanged}
use dorothy.Repo.Exchange.{
  sdk_client, make_client, cached, keep_client, payload_of, keep_payload, send_with, exchange,
  fetch, fetch_request, push, push_request,
}

module _ (h : Host) where
  open h use {World, join}

  abbrev pub program : Repo World → Dorothy
  program r = r.dorothy

  module _ (sort : Sorter Slot) (http : Http World) where
    keep_client-Keeps :
        (x : Option (Client World) × Option String × World)
        → Keeps program (keep_client h sort http x)
    keep_client-Keeps (c, some e, w) r = refl
    keep_client-Keeps (c, none, w) r = refl

    sdk_client-Keeps : Keeps program (sdk_client h sort http)
    unfolding sdk_client
    sdk_client-Keeps r = go r.client
      where
        made :
            (b : Bool) (o : Option Remote) → (make_client h sort http b o r).1.dorothy ≡ r.dorothy
        made true o = refl
        made false none = refl
        made false (some remote) = keep_client-Keeps _ r

        go : (o : Option (Client World)) → (cached h sort http o r).1.dorothy ≡ r.dorothy
        go (some c) = refl
        go none = made (r.dorothy.config.remote_string == "") r.dorothy.config.remote

    lift-Keeps :
        {A : Type 0} (o : Outcome A) (f : A → Action (Repo World) Payload) (r : Repo World)
        → ((a : A) → (f a r).1.dorothy ≡ r.dorothy)
        → (continue o f r).1.dorothy ≡ r.dorothy
    lift-Keeps (done a) f r k = k a
    lift-Keeps (conflicted cs e) f r k = refl
    lift-Keeps (failed e) f r k = refl

    send_with-Keeps :
        (c : Option (Client World)) (send : Option (Client World) → World → Result × World)
        → Keeps program (send_with h sort http c send)
    unfolding send_with
    send_with-Keeps c send r =
        let result = (login_guard http c (send c) r.world).0 in
        lift-Keeps (payload_of h sort http result) (keep_payload h sort http result)
          (record r { world = (login_guard http c (send c) r.world).1 }) λ p. refl

    pub exchange-Keeps :
        (req : Dorothy → Outcome (Option (Client World) → World → Result × World))
        → Keeps program (exchange h sort http req)
    unfolding exchange
    exchange-Keeps req =
        >>=-Keeps program (sdk_client h sort http)
          (λ client r. continue (req r.dorothy) (send_with h sort http client) r) sdk_client-Keeps
          λ client r.
            lift-Keeps (req r.dorothy) (send_with h sort http client) r
              λ send. send_with-Keeps client send r

    module _ (laws : HostLaws h) (order : IsSorter sort) where
      program_after :
          {A : Type 0} (m : Action (Repo World) A) (r r' : Repo World) {a : A}
          → m r ≡ (done a, r')
          → (m r).1.dorothy ≡ r.dorothy
          → r'.dorothy ≡ r.dorothy
      program_after {A} m r r' e k = sym (ap (λ (y : Outcome A × Repo World). y.1.dorothy) e) ∙ k

      -- What a fetch or a push has done: the manifest that the node had under the hash of the remote's
      -- payload, once it was connected to the remote's peer, was merged into the loaded one.
      pub record Synced (req : Dorothy → Outcome (Option (Client World) → World → Result × World))
          (r r' : Repo World) : Type 0 where
        pub payload : Payload
        pub exchanged : Exchanged h sort http req r payload
        pub answered : Repo World
        pub ran : exchange h sort http req r ≡ (done payload, answered)
        pub reached : World
        pub connected :
            Ipfs.connect_to_peer_by_id h payload.peer_identity answered.world ≡ (done tt, reached)
        pub fetched : Manifest
        pub before : Repo World
        pub got : Ipfs.get_manifest h payload.hash reached ≡ (done fetched, before.world)
        pub same : before.dorothy ≡ r.dorothy
        pub merged : Merged h laws sort order fetched before r'
        -- no version of the loaded manifest is lost
        pub keeps : (v : Version) → Mem v merged.old.versions → Mem v merged.manifest.versions

      finish-Synced :
          (req : Dorothy → Outcome (Option (Client World) → World → Result × World))
          (payload : Payload) (new : Manifest) (r v u t r' : Repo World)
          → exchange h sort http req r ≡ (done payload, v)
          → on_world h (Ipfs.connect_to_peer_by_id h payload.peer_identity) v ≡ (done tt, u)
          → on_world h (Ipfs.get_manifest h payload.hash) u ≡ (done new, t)
          → merge_into h sort new t ≡ (done tt, r')
          → Synced req r r'
      finish-Synced req payload new r v u t r' exchanged connecting getting e =
          let m = merge_into_sound h laws sort order new t r' e in
          let peer = Ipfs.connect_to_peer_by_id h payload.peer_identity in
          let got = Ipfs.get_manifest h payload.hash in
          record {
            payload = payload;
            exchanged = exchange-Exchanged h sort http req r v payload exchanged;
            answered = v;
            ran = exchanged;
            reached = u.world;
            connected = (on_world-eq-done h peer v u connecting).0;
            fetched = new;
            before = t;
            got = (on_world-eq-done h got u t getting).0;
            same =
                program_after (on_world h got) u t getting refl
                ∙ program_after (on_world h peer) v u connecting refl
                ∙ program_after (exchange h sort http req) r v exchanged (exchange-Keeps req r);
            merged = m;
            keeps = λ x mx.
                subst (λ vs. Mem x vs) (sym m.committed.versions)
                  ((MergeLaws.mem-merge_iff sort order m.old new m.committed.merged
                      m.committed.is_merge x).1
                    (Or.inl mx));
          }

      -- A fetch that succeeds has merged a manifest into the one that was loaded: the one that the node has
      -- under the hash that the configured remote answered, without an error and with the status 200. No
      -- version of the loaded one is lost, and the manifest file names the result.
      pub fetch_sound :
          (r r' : Repo World)
          → fetch h sort http r ≡ (done tt, r')
          → Synced (fetch_request h sort http) r r'
      unfolding fetch
      fetch_sound r r' e =
          let req = fetch_request h sort http in
          let (_, e1) = guard-eq-done r.dorothy.ipfs.connected _ _ r e in
          let (payload, v, exchanged, e2) = >>=-eq-done (exchange h sort http req) _ r e1 in
          let peer = on_world h (Ipfs.connect_to_peer_by_id h payload.peer_identity) in
          let (_, u, connected, e3) = >>=-eq-done peer _ v e2 in
          let got = on_world h (Ipfs.get_manifest h payload.hash) in
          let (new, t, getting, e4) = >>=-eq-done got _ u e3 in
          finish-Synced req payload new r v u t r' exchanged connected getting e4

      -- A push that succeeds has merged the manifest of the remote's answer into the one that was
      -- loaded: no version of the loaded one is lost, and the manifest file names the result.
      pub push_sound :
          (r r' : Repo World)
          → push h sort http r ≡ (done tt, r')
          → Synced (push_request h sort http) r r'
      unfolding push
      push_sound r r' e =
          let req = push_request h sort http in
          let (_, e1) = guard-eq-done r.dorothy.ipfs.connected _ _ r e in
          let (payload, v, exchanged, e2) = >>=-eq-done (exchange h sort http req) _ r e1 in
          let peer = on_world h (Ipfs.connect_to_peer_by_id h payload.peer_identity) in
          let failing : String = "failed to connect to remote peer after push" in
          let (_, u, connected, e3) = >>=-eq-done (wrap h failing peer) _ v e2 in
          let got = on_world h (Ipfs.get_manifest h payload.hash) in
          let missing : String = "failed to retrieve manifest after push" in
          let (new, t, getting, e4) = >>=-eq-done (wrap h missing got) _ u e3 in
          finish-Synced req payload new r v u t r' exchanged
            (wrap-eq-done h failing peer v u connected) (wrap-eq-done h missing got u t getting) e4
