-- ===== src/Repo/Steps.antt =====
-- Steps of the program: what they did where they succeeded, and what they leave alone.
use dorothy.Base.{String, ◌≡◌, sym, ap, ap₂, ◌∙◌}
use dorothy.Outcome.{Outcome, done, conflicted, failed, ok, Reply}
use dorothy.Effects.{Action, call, reply_ok, continue, ◌>>=◌}
use dorothy.Host.{Host}
use dorothy.Repo.{Repo, on_world, wrap, instead}

module _ (h : Host) where
  open h use {World}

  -- What a step of the world that succeeded did.
  pub on_world-eq-done :
      {A : Type 0} (m : Action World A) (r r' : Repo World) {a : A}
      → on_world h m r ≡ (done a, r')
      → (m r.world ≡ (done a, r'.world)) × (r' ≡ record r { world = r'.world })
  on_world-eq-done {A} m r r' {a} e =
      let p : record r { world = (m r.world).1 } ≡ r' =
        ap (λ (y : Outcome A × Repo World). y.1) e in
      let w : (m r.world).1 ≡ r'.world = ap (λ (s : Repo World). s.world) p in
      let o : (m r.world).0 ≡ done a = ap (λ (y : Outcome A × Repo World). y.0) e in
      (
        ap₂ (λ (x : Outcome A) (u : World). (x, u)) o w,
        sym p ∙ ap (λ (u : World). record r { world = u }) w,
      )

  pub call-eq-done :
      {A : Type 0} (c : World → Reply A × World) (w w' : World) {a : A}
      → call c w ≡ (done a, w')
      → c w ≡ (ok a, w')
  call-eq-done {A} c w w' {a} e =
      ap₂ (λ (x : Reply A) (u : World). (x, u))
        (reply_ok (c w).0 (ap (λ (y : Outcome A × World). y.0) e))
        (ap (λ (y : Outcome A × World). y.1) e)

  pub wrap-eq-done :
      {A : Type 0} (t : String) (m : Action (Repo World) A) (r r' : Repo World) {a : A}
      → wrap h t m r ≡ (done a, r')
      → m r ≡ (done a, r')
  wrap-eq-done {A} t m r r' {a} e = go (m r) e
    where
      go : (x : Outcome A × Repo World) → (wrap h t (λ _. x) r) ≡ (done a, r') → x ≡ (done a, r')
      go (done b, v) k = k
      go (conflicted cs x, v) k = cc
      go (failed x, v) k = cc

  pub instead-eq-done :
      {A : Type 0} (t : String) (m : Action (Repo World) A) (r r' : Repo World) {a : A}
      → instead h t m r ≡ (done a, r')
      → m r ≡ (done a, r')
  instead-eq-done {A} t m r r' {a} e = go (m r) e
    where
      go : (x : Outcome A × Repo World) → (instead h t (λ _. x) r) ≡ (done a, r') → x ≡ (done a, r')
      go (done b, v) k = k
      go (conflicted cs x, v) k = cc
      go (failed x, v) k = cc

module _ {W B : Type 0} (view : Repo W → B) where
  -- A step that leaves a part of the program alone, however it ends.
  abbrev pub Keeps : {A : Type 0} → Action (Repo W) A → Type 0
  Keeps m = (r : Repo W) → view (m r).1 ≡ view r

  pub >>=-Keeps :
      {A C : Type 0} (m : Action (Repo W) A) (f : A → Action (Repo W) C)
      → Keeps m
      → ((a : A) → Keeps (f a))
      → Keeps (m >>= f)
  >>=-Keeps {A} {C} m f km kf r = go (m r) (km r)
    where
      go : (x : Outcome A × Repo W) → view x.1 ≡ view r → view (continue x.0 f x.1).1 ≡ view r
      go (done a, v) k = kf a v ∙ k
      go (conflicted cs e, v) k = k
      go (failed e, v) k = k
