-- ===== src/Setup/Initial.antt =====
-- What `Initialize` of core/dorothy.go leaves.
use dorothy.Base.{
  String, ◌≡◌, refl, sym, ap, ◌∙◌, subst, Option, none, some, Bool, true, false, List, [],
}
use dorothy.Version.{Version}
use dorothy.Outcome.{Outcome, done, ok}
use dorothy.Manifest.{Manifest}
use dorothy.Effects.{Action, call, ◌>>=◌, >>=-eq-done, >>=-lift-eq-done}
use dorothy.Host.{Host, HostLaws}
use dorothy.Ipfs
use dorothy.Ipfs.Manifests.{get_manifest-save_manifest}
use dorothy.Repo.{
  Dorothy, Repo, on_world, wrap, manifest_path, manifest_hash, assign_manifest, write_manifest_file,
}
use dorothy.Repo.Steps.{Keeps, on_world-eq-done, call-eq-done, wrap-eq-done}
use dorothy.Setup.{System, Kubo}
use dorothy.Setup.Nodes.{initialize_and_connect-Connected}
use dorothy.Setup.Connection.{NodeOption, initialize_and_connect}
use dorothy.Setup.Start.{
  is_initialized, make_repository, use_global, write_first_config, first_manifest, save_first,
  initialize_new, initialize,
}
use dorothy.Setup.Ready.{assign_manifest-eq-done}

module _ (h : Host) where
  open h use {World, read_file}

  module _ (system : System World) (kubo : Kubo World) where
    -- What a step leaves alone: the directory and the manifest that is held.
    abbrev place : Repo World → String × Option Manifest
    place r = (r.dorothy.directory, r.dorothy.manifest)

    place_after :
        {A : Type 0} (m : Action (Repo World) A) (r r' : Repo World) {a : A}
        → m r ≡ (done a, r')
        → place (m r).1 ≡ place r
        → place r' ≡ place r
    place_after {A} m r r' e k = sym (ap (λ (y : Outcome A × Repo World). place y.1) e) ∙ k

    abbrev versions_of : Option Manifest → List Version
    versions_of none = []
    versions_of (some m) = m.versions

    module _ (laws : HostLaws h) where
      -- The manifest of a new repository has the versions of the one that was held, and is served.
      first_manifest_lem :
          (o : Option Manifest) (m : Manifest) (w w' : World)
          → first_manifest h system kubo o w ≡ (done m, w')
          → (m.versions ≡ versions_of o)
            × (v : World) × (Ipfs.get_manifest h m.hash w' ≡ (done m, v))
      unfolding first_manifest Ipfs.create_empty_manifest
      first_manifest_lem none m w w' e =
          get_manifest-save_manifest h laws (record { versions = []; hash = "" }) m w w' e
      first_manifest_lem (some o) m w w' e = get_manifest-save_manifest h laws o m w w' e

      -- What the initialization of a new repository leaves.
      pub record Initialized (r r' : Repo World) : Type 0 where
        pub connected : r'.dorothy.ipfs.connected ≡ true
        pub manifest : Manifest
        pub held : r'.dorothy.manifest ≡ some manifest
        pub versions : manifest.versions ≡ versions_of r.dorothy.manifest
        pub saved_in : World
        pub later : World
        pub served : Ipfs.get_manifest h manifest.hash saved_in ≡ (done manifest, later)
        pub filed : read_file (manifest_path h r.dorothy) r'.world ≡ (ok manifest.hash, r'.world)

      -- The end of an initialization saves the manifest and writes its hash to the manifest file.
      pub save_first-Initialized :
          (r r' : Repo World)
          → r.dorothy.ipfs.connected ≡ true
          → save_first h system kubo r ≡ (done tt, r')
          → Initialized r r'
      unfolding save_first write_manifest_file manifest_path
      save_first-Initialized r r' c e =
          let (_, v, e1, e2) =
            >>=-eq-done (assign_manifest h (first_manifest h system kubo r.dorothy.manifest))
              (λ _. wrap h "failed to write manifest file" (write_manifest_file h)) r e in
          let (m, saved, holds, _) =
            assign_manifest-eq-done h (first_manifest h system kubo r.dorothy.manifest) r v e1 in
          let (vs, later, served) = first_manifest_lem r.dorothy.manifest m r.world v.world saved in
          let writing =
            wrap-eq-done h "failed to write manifest file" (write_manifest_file h) v r' e2 in
          let (hash, named, e3) =
            >>=-lift-eq-done (manifest_hash h v.dorothy.manifest)
              (λ hash. on_world h (call (h.write_file (manifest_path h v.dorothy) hash))) v
              writing in
          let man : v.dorothy.manifest ≡ some m = ap (λ (x : Dorothy). x.manifest) holds in
          let same_hash : hash ≡ m.hash =
            let q = sym named ∙ ap (λ o. manifest_hash h o) man in cc in
          let (ran, last) =
            on_world-eq-done h (call (h.write_file (manifest_path h v.dorothy) hash)) v r' e3 in
          let wrote =
            call-eq-done h (h.write_file (manifest_path h v.dorothy) hash) v.world r'.world ran in
          let end : r'.dorothy ≡ v.dorothy = ap (λ (s : Repo World). s.dorothy) last in
          let dir : v.dorothy.directory ≡ r.dorothy.directory =
            ap (λ (x : Dorothy). x.directory) holds in
          record {
            connected = ap (λ (x : Dorothy). x.ipfs.connected) (end ∙ holds) ∙ c;
            manifest = m;
            held = ap (λ (x : Dorothy). x.manifest) end ∙ man;
            versions = vs;
            saved_in = v.world;
            later = later;
            served = served;
            filed =
                subst
                  (λ (x : String). read_file (h.join x "manifest") r'.world ≡ (ok m.hash, r'.world))
                  dir
                  (subst
                    (λ (x : String).
                      read_file (h.join v.dorothy.directory "manifest") r'.world ≡ (ok x, r'.world))
                    same_hash (laws.write_read _ hash v.world r'.world wrote));
          }

      make_repository-place : Keeps place (make_repository h system kubo)
      unfolding make_repository
      make_repository-place r = refl

      write_first_config-place :
          (global : Bool) → Keeps place (write_first_config h system kubo global)
      unfolding write_first_config
      write_first_config-place global r = refl

      use_global-place : (global : Bool) → Keeps place (use_global h system kubo global)
      unfolding use_global
      use_global-place true r = refl
      use_global-place false r = refl

      -- An initialization that succeeds where no repository was leaves a connected node and a manifest
      -- with the versions that were held, or with none. The node served the manifest under its hash
      -- when it was saved, and the manifest file names that hash.
      pub initialize_sound :
          (global : Bool) (options : List NodeOption) (r r' : Repo World)
          → is_initialized h system r.dorothy r.world ≡ false
          → initialize h system kubo global options r ≡ (done tt, r')
          → Initialized r r'
      unfolding initialize initialize_new manifest_path
      initialize_sound global options r r' fresh e =
          let make = make_repository h system kubo in
          let use_it = use_global h system kubo global in
          let write = write_first_config h system kubo global in
          let connect = initialize_and_connect h kubo options in
          let save = save_first h system kubo in
          let (_, a, a1, a2) =
            >>=-eq-done make (λ _. use_it >>= λ _. write >>= λ _. connect >>= λ _. save) r
              (rw fresh at e) in
          let (_, b, b1, b2) =
            >>=-eq-done use_it (λ _. write >>= λ _. connect >>= λ _. save) a a2 in
          let (_, c, c1, c2) = >>=-eq-done write (λ _. connect >>= λ _. save) b b2 in
          let (_, d, d1, d2) = >>=-eq-done connect (λ _. save) c c2 in
          let n = initialize_and_connect-Connected h kubo options c d d1 in
          let i = save_first-Initialized d r' n.connected d2 in
          let same : place d ≡ place r =
            ap (λ (x : Dorothy). (x.directory, x.manifest)) n.same
            ∙ place_after write b c c1 (write_first_config-place global b)
            ∙ place_after use_it a b b1 (use_global-place global a)
            ∙ place_after make r a a1 (make_repository-place r) in
          record {
            connected = i.connected;
            manifest = i.manifest;
            held = i.held;
            versions = i.versions ∙ ap (λ (p : String × Option Manifest). versions_of p.1) same;
            saved_in = i.saved_in;
            later = i.later;
            served = i.served;
            filed =
                subst
                  (λ (p : String × Option Manifest).
                    read_file (h.join p.0 "manifest") r'.world ≡ (ok i.manifest.hash, r'.world))
                  same i.filed;
          }
