-- ===== src/Repo/Commit.antt =====
-- `Commit`, and the merge at the end of `Commit`, `Fetch` and `Push` of core/dorothy.go.
use mathlib.Core.Logic.Or
use mathlib.Core.List.{mem-cons_self}
use dorothy.Base.{
  Mem, true, String, ◌≡◌, ◌≢◌, ◌==◌, eq_iff, refl, sym, ap, ◌∙◌, subst, Option, none, some, Bool,
  not, List, [], ◌∷◌,
}
use dorothy.Version.{equal, Version, PathType}
use dorothy.Outcome.{Outcome, done, ok, not_connected, empty_message}
use dorothy.Sorter.{Sorter, IsSorter}
use dorothy.Manifest.{Manifest, Slot}
use dorothy.Manifest.MergeLaws
use dorothy.Effects.{Action, call, pure, guard-eq-done, ◌>>=◌, >>=-lift-eq-done, >>=-eq-done}
use dorothy.Host.{Host, HostLaws}
use dorothy.Ipfs
use dorothy.Ipfs.Merging.{MergeCommitted, merge_and_commit_sound}
use dorothy.Repo.Steps.{on_world-eq-done, call-eq-done}
use dorothy.Config.{UserConfig, user_string}
use dorothy.Repo.{
  Dorothy, Repo, loaded, on_world, wrap, add_paths, manifest_path, write_manifest_file, merge_into,
  configured, recieve, commit, commit_paths, new_version,
}

pub loaded-eq-done : (o : Option Manifest) {m : Manifest} → loaded o ≡ done m → o ≡ some m
unfolding loaded
loaded-eq-done none e = cc
loaded-eq-done (some m) e = cc

module _ (h : Host) where
  open h use {World, is_dir, write_file, read_file}

  -- Adding files changes the world alone.
  then-dorothy :
      {A B : Type 0} (m : Action (Repo World) A) (g : A → B) (r r' : Repo World) {b : B}
      → (m r).1.dorothy ≡ r.dorothy
      → (m >>= λ a. pure (g a)) r ≡ (done b, r')
      → r'.dorothy ≡ r.dorothy
  then-dorothy {A} {B} m g r r' keeps e =
      let (a, v, first, last) = >>=-eq-done m _ r e in
      let p : v.dorothy ≡ r'.dorothy = ap (λ (y : Outcome B × Repo World). y.1.dorothy) last in
      let q : (m r).1.dorothy ≡ v.dorothy =
        ap (λ (y : Outcome A × Repo World). y.1.dorothy) first in
      sym p ∙ sym q ∙ keeps

  add_paths-dorothy :
      (paths : List String) (nopin : Bool) (r r' : Repo World) {a : PathType × String}
      → add_paths h paths nopin r ≡ (done a, r')
      → r'.dorothy ≡ r.dorothy
  unfolding add_paths
  add_paths-dorothy [] nopin r r' e =
      then-dorothy (wrap h "failed to add dataset" (on_world h (Ipfs.add_many h [] (not nopin)))) _
        r r' refl e
  add_paths-dorothy (p ∷ []) nopin r r' e =
      let (d, v, first, e1) =
        >>=-eq-done (wrap h "cannot access dataset" (on_world h (call (is_dir p)))) _ r e in
      let q : r.dorothy ≡ v.dorothy = ap (λ (y : Outcome Bool × Repo World). y.1.dorothy) first in
      then-dorothy (wrap h "failed to add dataset" (on_world h (Ipfs.add h p (not nopin)))) _ v r'
        refl e1
      ∙ sym q
  add_paths-dorothy (p ∷ q ∷ ps) nopin r r' e =
      then-dorothy
        (wrap h "failed to add dataset" (on_world h (Ipfs.add_many h (p ∷ q ∷ ps) (not nopin)))) _ r
        r' refl e

  module _ (laws : HostLaws h) (sort : Sorter Slot) (order : IsSorter sort) where
    -- What a merge into the loaded manifest has done: the manifests were merged and committed, the
    -- program holds the result, and the manifest file names it.
    pub record Merged (new : Manifest) (r r' : Repo World) : Type 0 where
      pub old : Manifest
      pub held : r.dorothy.manifest ≡ some old
      pub manifest : Manifest
      pub committed_in : World
      pub committed : MergeCommitted h laws sort order old new manifest committed_in
      pub holds : r'.dorothy ≡ record (r.dorothy) { manifest = some manifest }
      pub filed : read_file (manifest_path h r.dorothy) r'.world ≡ (ok manifest.hash, r'.world)

    -- A merge into the loaded manifest that succeeds leaves the program with the merged and committed
    -- manifest, and the manifest file with its hash.
    pub merge_into_sound :
        (new : Manifest) (r r' : Repo World)
        → merge_into h sort new r ≡ (done tt, r')
        → Merged new r r'
    unfolding merge_into write_manifest_file manifest_path
    merge_into_sound new r r' e =
        let (old, held, e1) = >>=-lift-eq-done (loaded r.dorothy.manifest) _ r e in
        let (m, v, merging, e2) =
          >>=-eq-done (on_world h (Ipfs.merge_and_commit h sort old new)) _ r e1 in
        let (merge_ran, same) =
          on_world-eq-done h (Ipfs.merge_and_commit h sort old new) r v merging in
        let after : Repo World = record v { dorothy = record (v.dorothy) { manifest = some m } } in
        let (wrote, last) =
          on_world-eq-done h (call (write_file (manifest_path h v.dorothy) m.hash)) after r' e2 in
        let d : v.dorothy ≡ r.dorothy = ap (λ (s : Repo World). s.dorothy) same in
        record {
          old = old;
          held = loaded-eq-done r.dorothy.manifest held;
          manifest = m;
          committed_in = v.world;
          committed = merge_and_commit_sound h laws sort order old new m r.world v.world merge_ran;
          holds =
              ap (λ (s : Repo World). s.dorothy) last
              ∙ ap (λ (x : Dorothy). record x { manifest = some m }) d;
          filed =
              let read = laws.write_read _ m.hash v.world r'.world (
                call-eq-done h (write_file (manifest_path h v.dorothy) m.hash) v.world r'.world
                  wrote) in
              subst
                (λ (x : Dorothy). read_file (manifest_path h x) r'.world ≡ (ok m.hash, r'.world)) d
                read;
        }

    Merged-covers :
        (new : Manifest) (r r' : Repo World) (m : Merged new r r') {v : Version}
        → Mem v new.versions
        → ∥ ((u : Version) × Mem u m.manifest.versions × (equal v u ≡ true)) ∥₁
    Merged-covers new r r' m {v} mv =
        subst (λ vs. ∥ ((u : Version) × Mem u vs × (equal v u ≡ true)) ∥₁)
          (sym m.committed.versions)
          (MergeLaws.merge_covers sort order m.old new m.committed.merged m.committed.is_merge v
            (Or.inr mv))

    -- What a commit of files has done: a version with the message, the parents and the configured
    -- user was merged into the loaded manifest.
    pub record CommitDone (message : String) (parents : List String) (r r' : Repo World)
        : Type 0 where
      pub user : UserConfig
      pub is_configured : configured r.dorothy.config.user ≡ done user
      pub has_message : message ≢ ""
      pub version : Version
      pub author : version.author ≡ user_string user
      pub carries : (version.message ≡ message) × (version.parents ≡ parents)
      pub before : Repo World
      pub same : before.dorothy ≡ r.dorothy
      pub merged : Merged (record { versions = version ∷ []; hash = "" }) before r'
      pub present : ∥ ((u : Version) × Mem u merged.manifest.versions × (equal version u ≡ true)) ∥₁

    -- A commit of at least one file that succeeds found a configured user and a message. It made a
    -- version of that user with the message and the parents, and merged it into the loaded manifest:
    -- the program holds the merged manifest, which has that version or an equal one and could be
    -- fetched under its hash before the manifest file was written, and the file names that hash.
    pub commit_sound :
        (path : String) (paths : List String) (message : String) (nopin : Bool)
        (parents : List String) (r r' : Repo World)
        → commit h sort (path ∷ paths) message nopin parents r ≡ (done tt, r')
        → CommitDone message parents r r'
    unfolding commit commit_paths new_version
    commit_sound path paths message nopin parents r r' e =
        let (_, e1) = guard-eq-done r.dorothy.ipfs.connected not_connected _ r e in
        let (u, is_user, e2) = >>=-lift-eq-done (configured r.dorothy.config.user) _ r e1 in
        let (nonempty, e3) = guard-eq-done (not (message == "")) empty_message _ r e2 in
        let (added, v, adding, e4) = >>=-eq-done (add_paths h (path ∷ paths) nopin) _ r e3 in
        record {
          user = u;
          is_configured = is_user;
          has_message = λ q. let t = (eq_iff message "").1 q in let n = rw t at nonempty in cc;
          version = _;
          author = refl;
          carries = (refl, refl);
          before = v;
          same = add_paths-dorothy (path ∷ paths) nopin r v adding;
          merged = merge_into_sound _ v r' e4;
          present = Merged-covers _ v r' (merge_into_sound _ v r' e4) mem-cons_self;
        }

    -- What the server has done with a manifest that it received.
    pub record Received (old m : Manifest) (hash : String) (r r' : Repo World) : Type 0 where
      pub new : Manifest
      pub got_in : World
      pub got : Ipfs.get_manifest h hash r.world ≡ (done new, got_in)
      pub committed : MergeCommitted h laws sort order old new m r'.world
      pub same : r'.dorothy ≡ r.dorothy

    -- A manifest that `Recieve` accepts is the merge of the old one with the one that the hash names,
    -- and can be fetched; the program's own manifest stays.
    pub recieve_sound :
        (old m : Manifest) (hash : String) (r r' : Repo World)
        → recieve h sort old hash r ≡ (done m, r')
        → Received old m hash r r'
    unfolding recieve
    recieve_sound old m hash r r' e =
        let (_, e1) = guard-eq-done r.dorothy.ipfs.connected not_connected _ r e in
        let (new, v, getting, e2) = >>=-eq-done (on_world h (Ipfs.get_manifest h hash)) _ r e1 in
        let (got, same) = on_world-eq-done h (Ipfs.get_manifest h hash) r v getting in
        let (merging, last) = on_world-eq-done h (Ipfs.merge_and_commit h sort old new) v r' e2 in
        record {
          new = new;
          got_in = v.world;
          got = got;
          committed = merge_and_commit_sound h laws sort order old new m v.world r'.world merging;
          same = ap (λ (s : Repo World). s.dorothy) last ∙ ap (λ (s : Repo World). s.dorothy) same;
        }
