-- ===== src/Server/Access.antt =====
-- What the handlers of server/handlers.go show, and to whom.
use mathlib.Core.HLevel.{×_prop}
use mathlib.Core.Logic.Or
use mathlib.Core.List.{Mem-prop, not-mem-nil, mem-cons, mem-cons_self, mem-cons_of_mem}
use dorothy.Base.{
  ℕ, String, select, ◌≡◌, refl, ap, subst, ◌↔◌, ◌⊎◌, inl, inr, Option, none, some, some-injective,
  Bool, true, false, not, ◌||◌, List, [], ◌∷◌, Mem, mem-select, mem-of-select, arith, Bool-cases,
  Option-cases,
}
use dorothy.Outcome.{Reply, ok, err, Outcome, done, conflicted, failed}
use dorothy.Manifest.{Manifest}
use dorothy.Host.{Host}
use dorothy.Ipfs
use dorothy.Repo.{Repo, on_world}
use dorothy.Access.{User, Organization, Dataset, Listing, can_read_dataset}
use dorothy.Server.{Fiber, Database, Context, Answer, next, redirect_as, Body}
use dorothy.Server.Visible.{visible_datasets, public_datasets, readable_datasets, keep}
use dorothy.Server.Datasets.{
  verdict, of_read, Verdict, shown, must_login, forbidden, broken, attached, attach_manifest,
  show_dataset, found_dataset, dataset_within, dataset_below, get_dataset,
}

-- A visitor may read what is public, and a user what `CanReadDataset` allows.
abbrev pub MayRead : Option User → Dataset → Type 0
MayRead none d = d.is_private ≡ false
MayRead (some user) d = can_read_dataset user d ≡ some true

MayRead-prop : (user : Option User) (d : Dataset) → IsProp (MayRead user d)
MayRead-prop none d = hlevel
MayRead-prop (some user) d = hlevel

keep-eq-some :
    {A : Type 0} (b : Option Bool) (a : A) (rest : Option (List A)) (out : List A)
    → keep b a rest ≡ some out
    → (tail : List A) × (rest ≡ some tail)
      × (((b ≡ some true) × (out ≡ a ∷ tail)) ⊎ ((b ≡ some false) × (out ≡ tail)))
keep-eq-some none a rest out e = cc
keep-eq-some (some b) a none out e = cc
keep-eq-some (some true) a (some tail) out e = (tail, refl, inl (refl, cc))
keep-eq-some (some false) a (some tail) out e = (tail, refl, inr (refl, cc))

mem-readable_iff :
    (user : User) (ds out : List Dataset)
    → readable_datasets user ds ≡ some out
    → (x : Dataset) → Mem x out ↔ (Mem x ds × (can_read_dataset user x ≡ some true))
unfolding readable_datasets
mem-readable_iff user [] out e x =
    let n : out ≡ [] = cc in rw n (λ m. absurd (not-mem-nil m), λ (m, _). m)
mem-readable_iff user (d ∷ ds) out e x =
    let (tail, later, cases) =
      keep-eq-some (can_read_dataset user d) d (readable_datasets user ds) out e in
    let ih = mem-readable_iff user ds tail later x in
    elim cases [
      | inl (reads, q) ↦ rw q (
        λ m.
            Or.elim (×_prop Mem-prop hlevel) (mem-cons.0 m) (λ same. rw same (mem-cons_self, reads))
              (λ m'. let (a, b) = ih.0 m' in (mem-cons_of_mem d a, b)),
        λ (m, r).
            Or.elim Mem-prop (mem-cons.0 m) (λ same. rw same mem-cons_self)
              (λ m'. mem-cons_of_mem d (ih.1 (m', r))),
      )
      | inr (refused, q) ↦ rw q (
        λ m. let (a, b) = ih.0 m in (mem-cons_of_mem d a, b),
        λ (m, r).
            Or.elim Mem-prop (mem-cons.0 m) (λ same. let t = rw same at r in cc)
              (λ m'. ih.1 (m', r)),
      )
    ]

-- `GetOrganizations` and `GetOrganization` show, of an organization that the requester may see,
-- exactly the datasets that the requester may read: a visitor the public ones, a user those that
-- `CanReadDataset` allows.
pub mem-visible_datasets_iff :
    (user : Option User) (ds seen : List Dataset)
    → visible_datasets user ds ≡ some seen
    → (d : Dataset) → Mem d seen ↔ (Mem d ds × MayRead user d)
unfolding visible_datasets public_datasets
mem-visible_datasets_iff none ds seen e d =
    let q : select (λ (x : Dataset). not x.is_private) ds ≡ seen =
      some-injective (public_datasets ds) seen e in
    subst (λ s. Mem d s ↔ (Mem d ds × MayRead none d)) q
      (
        λ m. let (a, b) = mem-of-select _ ds m in (a, ground arith),
        λ (a, b). mem-select _ ds a (rw b),
      )
mem-visible_datasets_iff (some user) ds seen e d = mem-readable_iff user ds seen e d

-- Who is shown the dataset itself: anyone if it and its organization are public, else a user who
-- may read it.
abbrev pub MayOpen : Option User → Organization → Dataset → Type 0
MayOpen user org dataset =
    ((org.is_private ≡ false) × (dataset.is_private ≡ false))
    ⊎ ((u : User) × (user ≡ some u) × (can_read_dataset u dataset ≡ some true))

of_read-shown : (b : Option Bool) → of_read b ≡ shown → b ≡ some true
of_read-shown none e = cc
of_read-shown (some true) e = refl
of_read-shown (some false) e = cc

verdict-shown :
    (user : Option User) (org : Organization) (dataset : Dataset)
    → verdict user org dataset ≡ shown
    → MayOpen user org dataset
unfolding verdict
verdict-shown user org dataset e = elim (Bool-cases (org.is_private || dataset.is_private)) [
  | inr public ↦ inl (ground arith)
  | inl hidden ↦ elim (Option-cases user) [
    | inl none_there ↦ let t = rw (hidden, none_there) at e in cc
    | inr (u, there) ↦
        inr (u, there, of_read-shown (can_read_dataset u dataset) (rw (hidden, there) at e))
  ]
]

redirect_as-not-next :
    (fiber : Fiber) (c c' : Context fiber.Request) (status : ℕ) (path : String) (body : Body)
    (plain : String)
    → ¬ (redirect_as fiber c status path body plain ≡ next c')
unfolding redirect_as
redirect_as-not-next fiber c c' status path body plain e =
    elim (Bool-cases (fiber.accepts c.request "text/html")) [
      | inl a ↦ let t = rw a at e in cc
      | inr a ↦ elim (Bool-cases (fiber.accepts c.request "application/json")) [
        | inl b ↦ let t = rw (a, b) at e in cc
        | inr b ↦ elim (Bool-cases (fiber.accepts c.request "text/plain")) [
          | inl d ↦ let t = rw (a, b, d) at e in cc
          | inr d ↦ let t = rw (a, b, d) at e in cc
        ]
      ]
    ]

module _ (fiber : Fiber) (h : Host) (db : Database h.World) where
  -- What `GetDataset` has done where the next handler runs.
  pub record Opened (c c' : Context fiber.Request) (r r' : Repo h.World) : Type 0 where
    pub listing : Listing
    pub dataset : Dataset
    pub manifest : Manifest
    pub found : c.organization ≡ some listing
    pub allowed : MayOpen c.auth_user listing.organization dataset
    pub fetched : on_world h (Ipfs.get_manifest h dataset.manifest_hash) r ≡ (done manifest, r')
    pub attached : c'.dataset ≡ some (record dataset { manifest = some manifest })
    pub same_user : c'.auth_user ≡ c.auth_user

  attached-next :
      (dataset : Dataset) (c c' : Context fiber.Request) (x : Outcome Manifest × Repo h.World)
      (r' : Repo h.World)
      → attached fiber h db dataset c x ≡ (next c', r')
      → (m : Manifest) × (x ≡ (done m, r'))
        × (c' ≡ record c { dataset = some (record dataset { manifest = some m }) })
  attached-next dataset c c' (done m, v) r' t =
      let s : v ≡ r' = ap (λ y. y.1) t in (m, ap (λ (y : Repo h.World). (done m, y)) s, cc)
  attached-next dataset c c' (conflicted cs x, v) r' t = cc
  attached-next dataset c c' (failed x, v) r' t = cc

  not_next :
      {A : Type 0} (c c' : Context fiber.Request) (r r' : Repo h.World) (status : ℕ) (path : String)
      (body : Body) (plain : String)
      → Path
          (Answer fiber.Request × Repo h.World)
          (redirect_as fiber c status path body plain, r)
          (next c', r')
      → A
  not_next c c' r r' _ _ _ _ t = absurd (redirect_as-not-next fiber c c' _ _ _ _ (ap (λ y. y.0) t))

  show_dataset-next :
      (v : Verdict) (org : Organization) (dataset : Dataset) (c c' : Context fiber.Request)
      (r r' : Repo h.World)
      → show_dataset fiber h db v org dataset c r ≡ (next c', r')
      → (v ≡ shown) × (attach_manifest fiber h db dataset c r ≡ (next c', r'))
  unfolding show_dataset
  show_dataset-next shown org dataset c c' r r' e = (refl, e)
  show_dataset-next must_login org dataset c c' r r' e = not_next c c' r r' _ _ _ _ e
  show_dataset-next forbidden org dataset c c' r r' e = not_next c c' r r' _ _ _ _ e
  show_dataset-next broken org dataset c c' r r' e = cc

  found_dataset-next :
      (l : Listing) (reply : Reply Dataset) (c c' : Context fiber.Request) (r r' : Repo h.World)
      → c.organization ≡ some l
      → found_dataset fiber h db l.organization reply c r ≡ (next c', r')
      → Opened c c' r r'
  unfolding found_dataset attach_manifest
  found_dataset-next l (err x) c c' r r' q t = not_next c c' r r' _ _ _ _ t
  found_dataset-next l (ok dataset) c c' r r' q t =
      let (seen, t') = show_dataset-next _ l.organization dataset c c' r r' t in
      let (m, fetched, same) = attached-next dataset c c' _ r' t' in
      record {
        listing = l;
        dataset = dataset;
        manifest = m;
        found = q;
        allowed = verdict-shown c.auth_user l.organization dataset seen;
        fetched = fetched;
        attached = ap (λ (k : Context fiber.Request). k.dataset) same;
        same_user = ap (λ (k : Context fiber.Request). k.auth_user) same;
      }

  dataset_within-next :
      (l : Listing) (slug : String) (empty : Bool) (c c' : Context fiber.Request)
      (r r' : Repo h.World)
      → c.organization ≡ some l
      → dataset_within fiber h db l.organization slug empty c r ≡ (next c', r')
      → Opened c c' r r'
  unfolding dataset_within
  dataset_within-next l slug true c c' r r' q e = not_next c c' r r' _ _ _ _ e
  dataset_within-next l slug false c c' r r' q e = found_dataset-next l _ c c' r r' q e

  -- `GetDataset` hands a request on to the next handler only for a dataset that the requester may
  -- open, with the manifest that its hash names.
  pub get_dataset_guards :
      (c c' : Context fiber.Request) (r r' : Repo h.World)
      → get_dataset fiber h db c r ≡ (next c', r')
      → Opened c c' r r'
  unfolding get_dataset
  get_dataset_guards c c' r r' e = go c.organization refl e
    where
      go :
          (o : Option Listing)
          → c.organization ≡ o
          → dataset_below fiber h db o c r ≡ (next c', r')
          → Opened c c' r r'
      go none q t = not_next c c' r r' _ _ _ _ t
      go (some l) q t = dataset_within-next l _ _ c c' r r' q t
