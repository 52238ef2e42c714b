-- ===== src/Ipfs/Manifests.antt =====
-- `GetManifest` of core/ipfs.go after `SaveManifest`.
use dorothy.Base.{◌≡◌, true, sym, ap, ap₂, ◌∙◌}
use dorothy.Outcome.{Outcome, done, ok}
use dorothy.Manifest.{Manifest}
use dorothy.Effects.{of_reply, reply_ok, >>=-lift-eq-done, >>=-call-eq-done}
use dorothy.Host.{Host, HostLaws}
use dorothy.Ipfs.{save_manifest, get_manifest, file_text}

module _ (h : Host) (laws : HostLaws h) where
  open h use {World, Bytes, encode, add_node, reader_file}

  -- What a save that succeeds has done.
  pub record Saved (m m' : Manifest) (w w' : World) : Type 0 where
    pub bytes : Bytes
    pub encoded : encode m.versions ≡ ok bytes
    pub added : add_node (reader_file bytes) true w ≡ (ok m'.hash, w')
    pub versions : m'.versions ≡ m.versions

  pub save_manifest-Saved :
      (m m' : Manifest) (w w' : World) → save_manifest h m w ≡ (done m', w') → Saved m m' w w'
  unfolding save_manifest
  save_manifest-Saved m m' w w' e =
      let (bytes, encoded, e1) = >>=-lift-eq-done (of_reply (encode m.versions)) _ w e in
      let (cid, v, added, e2) = >>=-call-eq-done (add_node (reader_file bytes) true) _ w e1 in
      let same : Path Manifest (record m { hash = cid }) m' = cc in
      let state : v ≡ w' = ap (λ (r : Outcome Manifest × World). r.1) e2 in
      record {
        bytes = bytes;
        encoded = reply_ok (encode m.versions) encoded;
        added = added ∙ ap₂ (λ (k : Manifest) (u : World). (ok k.hash, u)) same state;
        versions = ap (λ (k : Manifest). k.versions) (sym same);
      }

  -- A manifest that was saved is fetched under the hash that the save answered, with the same
  -- versions.
  pub get_manifest-save_manifest :
      (m m' : Manifest) (w w' : World)
      → save_manifest h m w ≡ (done m', w')
      → (m'.versions ≡ m.versions) × (v : World) × (get_manifest h m'.hash w' ≡ (done m', v))
  unfolding get_manifest file_text
  get_manifest-save_manifest m m' w w' e =
      let s = save_manifest-Saved m m' w w' e in
      let served = laws.add_serves s.bytes m'.hash w w' s.added in
      let decoded = laws.decode_encode m.versions s.bytes s.encoded in
      (
        s.versions,
        served.later,
        rw (served.parsed, served.got, served.content, decoded)
            (ap (λ vs. (done (record { versions = vs; hash = m'.hash }), served.later))
              (sym s.versions)),
      )
