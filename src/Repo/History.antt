-- ===== src/Repo/History.antt =====
-- What the operations of core/dorothy.go do, one after the other and however each ends, to the
-- manifest that the program holds.
use mathlib.Core.Logic.Or
use dorothy.Base.{
  String, ◌≡◌, refl, sym, ap, ◌∙◌, subst, some, Bool, true, false, not, List, [], ◌∷◌, Mem, ◌==◌,
}
use dorothy.Version.{Version, PathType}
use dorothy.Outcome.{Error, Outcome, done, conflicted, failed, not_connected, empty_message}
use dorothy.Sorter.{Sorter, IsSorter}
use dorothy.Manifest.{Manifest, Slot}
use dorothy.Manifest.MergeLaws
use dorothy.Effects.{Action, call, guard, lift, continue, ◌>>=◌, ◌>>◌}
use dorothy.Host.{Host, HostLaws}
use dorothy.Ipfs
use dorothy.Ipfs.Merging.{merge_and_commit_sound}
use dorothy.Sdk.{Http}
use dorothy.Config.{UserConfig}
use dorothy.Repo.{
  Dorothy, Repo, loaded, on_world, wrap, set_manifest, manifest_path, manifest_hash,
  write_manifest_file, merge_into, configured, add_paths, new_version, commit_paths, checkout,
  recieve, resolve,
}
use dorothy.Repo.Steps.{Keeps, >>=-Keeps}
use dorothy.Repo.Commit.{loaded-eq-done}
use dorothy.Repo.Sync.{program, exchange-Keeps}
use dorothy.Repo.Exchange.{fetch, push, exchange, fetch_request, push_request}

module _ (h : Host) where
  open h use {World}

  -- A version that the program holds.
  pub record Holds (v : Version) (r : Repo World) : Type 0 where
    pub manifest : Manifest
    pub held : r.dorothy.manifest ≡ some manifest
    pub mem : Mem v manifest.versions

  pub Holds-same : (v : Version) (r s : Repo World) → s.dorothy ≡ r.dorothy → Holds v r → Holds v s
  Holds-same v r s e k = record {
    manifest = k.manifest;
    held = ap (λ (d : Dorothy). d.manifest) e ∙ k.held;
    mem = k.mem;
  }

  -- A step that loses no version, however it ends.
  abbrev pub Monotone : {A : Type 0} → Action (Repo World) A → Type 0
  Monotone m = (v : Version) (r : Repo World) → Holds v r → Holds v (m r).1

  Keeps-Monotone : {A : Type 0} (m : Action (Repo World) A) → Keeps (program h) m → Monotone m
  Keeps-Monotone m k v r hv = Holds-same v r (m r).1 (k r) hv

  >>=-Monotone :
      {A C : Type 0} (m : Action (Repo World) A) (f : A → Action (Repo World) C)
      → Keeps (program h) m
      → ((a : A) → Monotone (f a))
      → Monotone (m >>= f)
  >>=-Monotone {A} {C} m f km kf v r hv = go (m r) (Holds-same v r (m r).1 (km r) hv)
    where
      go : (x : Outcome A × Repo World) → Holds v x.1 → Holds v (continue x.0 f x.1).1
      go (done a, u) k = kf a v u k
      go (conflicted cs e, u) k = k
      go (failed e, u) k = k

  -- The rest of an operation after a test, or after a value that may be an error.
  guard-Holds :
      {C : Type 0} (b : Bool) (x : Error) (f : Unit {0} → Action (Repo World) C) (v : Version)
      (r : Repo World)
      → Holds v r
      → Holds v (f tt r).1
      → Holds v ((guard b x >>= f) r).1
  guard-Holds true x f v r hv k = k
  guard-Holds false x f v r hv k = hv

  lift-Holds :
      {A C : Type 0} (o : Outcome A) (f : A → Action (Repo World) C) (v : Version) (r : Repo World)
      → Holds v r
      → ((a : A) → o ≡ done a → Holds v (f a r).1)
      → Holds v (continue o f r).1
  lift-Holds (done a) f v r hv k = k a refl
  lift-Holds (conflicted cs e) f v r hv k = hv
  lift-Holds (failed e) f v r hv k = hv

  write_manifest_file-Keeps : Keeps (program h) (write_manifest_file h)
  unfolding write_manifest_file
  write_manifest_file-Keeps r = go (manifest_hash h r.dorothy.manifest)
    where
      go :
          (o : Outcome String)
          → (continue o
              (λ hash. on_world h (call (h.write_file (manifest_path h r.dorothy) hash)))
              r).1.dorothy
            ≡ r.dorothy
      go (done hash) = refl
      go (conflicted cs e) = refl
      go (failed e) = refl

  module _ (laws : HostLaws h) (sort : Sorter Slot) (order : IsSorter sort)
      (http : Http World) where
    -- The end of a merge: the merged manifest is held, whether or not its file can be written.
    merged-Holds :
        (old new : Manifest) (v : Version) (r : Repo World)
        → r.dorothy.manifest ≡ some old
        → Holds v r
        → Holds v
            ((on_world h (Ipfs.merge_and_commit h sort old new) >>= λ m.
                set_manifest h m >> write_manifest_file h)
              r).1
    merged-Holds old new v r is_old hv = go (Ipfs.merge_and_commit h sort old new r.world) refl
      where
        go :
            (x : Outcome Manifest × World)
            → Ipfs.merge_and_commit h sort old new r.world ≡ x
            → Holds v
                (continue x.0
                  (λ m. set_manifest h m >> write_manifest_file h)
                  (record r { world = x.1 })).1
        go (conflicted cs e, w) q = Holds-same v r _ refl hv
        go (failed e, w) q = Holds-same v r _ refl hv
        go (done m, w) q =
            let c = merge_and_commit_sound h laws sort order old new m r.world w q in
            let after : Repo World = record r {
              dorothy = record (r.dorothy) { manifest = some m };
              world = w;
            } in
            let same : hv.manifest ≡ old = let e = sym hv.held ∙ is_old in cc in
            Keeps-Monotone (write_manifest_file h) write_manifest_file-Keeps v after (record {
              manifest = m;
              held = refl;
              mem =
                  subst (λ vs. Mem v vs) (sym c.versions)
                    ((MergeLaws.mem-merge_iff sort order old new c.merged c.is_merge v).1
                      (Or.inl (subst (λ (x : Manifest). Mem v x.versions) same hv.mem)));
            })

    merge_into-Monotone : (new : Manifest) → Monotone (merge_into h sort new)
    unfolding merge_into
    merge_into-Monotone new v r hv =
        lift-Holds (loaded r.dorothy.manifest)
          (λ old. on_world h (Ipfs.merge_and_commit h sort old new) >>= λ m.
            set_manifest h m >> write_manifest_file h)
          v r hv λ old e. merged-Holds old new v r (loaded-eq-done r.dorothy.manifest e) hv

    -- The rest of a commit after its user is known.
    add_paths-Keeps :
        (paths : List String) (nopin : Bool) → Keeps (program h) (add_paths h paths nopin)
    unfolding add_paths
    add_paths-Keeps [] nopin =
        >>=-Keeps (program h)
          (wrap h "failed to add dataset" (on_world h (Ipfs.add_many h [] (not nopin)))) _
          (λ r. refl) λ a r. refl
    add_paths-Keeps (p ∷ []) nopin =
        >>=-Keeps (program h) (wrap h "cannot access dataset" (on_world h (call (h.is_dir p)))) _
          (λ r. refl)
          λ d.
            >>=-Keeps (program h)
              (wrap h "failed to add dataset" (on_world h (Ipfs.add h p (not nopin)))) _ (λ r. refl)
              λ a r. refl
    add_paths-Keeps (p ∷ q ∷ ps) nopin =
        >>=-Keeps (program h)
          (wrap h "failed to add dataset" (on_world h (Ipfs.add_many h (p ∷ q ∷ ps) (not nopin)))) _
          (λ r. refl) λ a r. refl

    new_version-Keeps :
        (u : UserConfig) (message : String) (parents : List String) (a : PathType × String)
        → Keeps (program h) (new_version h sort u message parents a)
    unfolding new_version
    new_version-Keeps u message parents (t, hash) r = refl

    pub commit_paths-Monotone :
        (paths : List String) (message : String) (nopin : Bool) (parents : List String)
        → Monotone (commit_paths h sort paths message nopin parents)
    unfolding commit_paths
    commit_paths-Monotone paths message nopin parents v r hv =
        guard-Holds r.dorothy.ipfs.connected not_connected _ v r hv (
          lift-Holds (configured r.dorothy.config.user) _ v r hv λ u _.
            guard-Holds (not (message == "")) empty_message _ v r hv (
              >>=-Monotone (add_paths h paths nopin) _ (add_paths-Keeps paths nopin)
                (λ a.
                  >>=-Monotone (new_version h sort u message parents a) (merge_into h sort)
                    (new_version-Keeps u message parents a) merge_into-Monotone)
                v r hv))

    pub fetch-Monotone : Monotone (fetch h sort http)
    unfolding fetch
    fetch-Monotone v r hv = guard-Holds r.dorothy.ipfs.connected not_connected _ v r hv (
        >>=-Monotone (exchange h sort http (fetch_request h sort http)) _
          (exchange-Keeps h sort http (fetch_request h sort http))
          (λ payload.
            >>=-Monotone (on_world h (Ipfs.connect_to_peer_by_id h payload.peer_identity)) _
              (λ s. refl)
              λ _.
                >>=-Monotone (on_world h (Ipfs.get_manifest h payload.hash)) (merge_into h sort)
                  (λ s. refl) merge_into-Monotone)
          v r hv)

    pub push-Monotone : Monotone (push h sort http)
    unfolding push
    push-Monotone v r hv = guard-Holds r.dorothy.ipfs.connected not_connected _ v r hv (
        >>=-Monotone (exchange h sort http (push_request h sort http)) _
          (exchange-Keeps h sort http (push_request h sort http))
          (λ payload.
            >>=-Monotone
              (wrap h "failed to connect to remote peer after push"
                (on_world h (Ipfs.connect_to_peer_by_id h payload.peer_identity)))
              _ (λ s. refl)
              λ _.
                >>=-Monotone
                  (wrap h "failed to retrieve manifest after push"
                    (on_world h (Ipfs.get_manifest h payload.hash)))
                  (merge_into h sort) (λ s. refl) merge_into-Monotone)
          v r hv)

    pub checkout-Monotone : (hash dest : String) → Monotone (checkout h hash dest)
    unfolding checkout
    checkout-Monotone hash dest v r hv =
        guard-Holds r.dorothy.ipfs.connected not_connected _ v r hv (
          lift-Holds _ (λ m. lift (resolve m.versions hash) >>= λ t. on_world h (Ipfs.get h t dest))
            v r hv
            λ m _.
              lift-Holds (resolve m.versions hash) (λ t. on_world h (Ipfs.get h t dest)) v r hv
                λ t _. Holds-same v r _ refl hv)

    pub recieve-Monotone : (old : Manifest) (hash : String) → Monotone (recieve h sort old hash)
    unfolding recieve
    recieve-Monotone old hash v r hv = guard-Holds r.dorothy.ipfs.connected not_connected _ v r hv (
        >>=-Monotone (on_world h (Ipfs.get_manifest h hash))
          (λ new. on_world h (Ipfs.merge_and_commit h sort old new)) (λ s. refl)
          (λ new. Keeps-Monotone (on_world h (Ipfs.merge_and_commit h sort old new)) λ s. refl) v r
          hv)
