-- ===== src/Effects.antt =====
-- Go functions that change the state `W` and return a value, conflicts or an error. What was written
-- before an error stays written.
use dorothy.Base.{◌≡◌, refl, Bool, true, false}
use dorothy.Outcome.{Error, Reply, ok, err, Outcome, done, conflicted, failed, external}

abbrev pub Action : Type 0 → Type 0 → Type 0
Action W A = W → Outcome A × W

abbrev pub of_reply : {A : Type 0} → Reply A → Outcome A
of_reply (ok a) = done a
of_reply (err e) = failed (external e)

module _ {W A : Type 0} where
  abbrev pub pure : A → Action W A
  pure a w = (done a, w)

  abbrev pub fail : Error → Action W A
  fail e w = (failed e, w)

  abbrev pub lift : Outcome A → Action W A
  lift o w = (o, w)

  -- a call of a library or of the operating system
  abbrev pub call : (W → Reply A × W) → Action W A
  call f w = let (r, w') = f w in (of_reply r, w')

abbrev pub guard : {W : Type 0} → Bool → Error → Action W (Unit {0})
guard true e w = (done tt, w)
guard false e w = (failed e, w)

module _ {W A B : Type 0} where
  abbrev pub continue : Outcome A → (A → Action W B) → Action W B
  continue (done a) f w = f a w
  continue (conflicted cs e) f w = (conflicted cs e, w)
  continue (failed e) f w = (failed e, w)

  infixl 10 ◌>>=◌ ◌>>◌
  abbrev pub ◌>>=◌ : Action W A → (A → Action W B) → Action W B
  ◌>>=◌ m f w = let (o, w') = m w in continue o f w'

  abbrev pub ◌>>◌ : Action W A → Action W B → Action W B
  m >> n = m >>= λ _. n

  -- What a successful block did first.
  pub >>=-eq-done :
      (m : Action W A) (f : A → Action W B) (w : W) {b : B} {w' : W}
      → (m >>= f) w ≡ (done b, w')
      → (a : A) × (v : W) × (m w ≡ (done a, v)) × (f a v ≡ (done b, w'))
  >>=-eq-done m f w {b} {w'} h = go (m w) refl h
    where
      go :
          (r : Outcome A × W)
          → m w ≡ r
          → continue r.0 f r.1 ≡ (done b, w')
          → (a : A) × (v : W) × (m w ≡ (done a, v)) × (f a v ≡ (done b, w'))
      go (done a, v) e h = (a, v, e, h)
      go (conflicted cs e', v) e h = cc
      go (failed e', v) e h = cc

pub reply_ok : {A : Type 0} (r : Reply A) {a : A} → of_reply r ≡ done a → r ≡ ok a
reply_ok (ok b) e = cc
reply_ok (err b) e = cc

module _ {W A B : Type 0} where
  -- The same for a first step that leaves the state alone, and for a first step that is a call.
  pub >>=-lift-eq-done :
      (o : Outcome A) (f : A → Action W B) (w : W) {b : B} {w' : W}
      → (lift o >>= f) w ≡ (done b, w')
      → (a : A) × (o ≡ done a) × (f a w ≡ (done b, w'))
  >>=-lift-eq-done (done a) f w e = (a, refl, e)
  >>=-lift-eq-done (conflicted cs e') f w e = cc
  >>=-lift-eq-done (failed e') f w e = cc

  pub >>=-call-eq-done :
      (c : W → Reply A × W) (f : A → Action W B) (w : W) {b : B} {w' : W}
      → (call c >>= f) w ≡ (done b, w')
      → (a : A) × (v : W) × (c w ≡ (ok a, v)) × (f a v ≡ (done b, w'))
  >>=-call-eq-done c f w {b} {w'} e = go (c w) refl e
    where
      go :
          (r : Reply A × W)
          → c w ≡ r
          → continue (of_reply r.0) f r.1 ≡ (done b, w')
          → (a : A) × (v : W) × (c w ≡ (ok a, v)) × (f a v ≡ (done b, w'))
      go (ok a, v) e' h = (a, v, e', h)
      go (err x, v) e' h = cc

-- A guard that let the rest run.
pub guard-eq-done :
    {W B : Type 0} (b : Bool) (x : Error) (f : Unit {0} → Action W B) (w : W) {a : B} {w' : W}
    → (guard b x >>= f) w ≡ (done a, w')
    → (b ≡ true) × (f tt w ≡ (done a, w'))
guard-eq-done true x f w e = (refl, e)
guard-eq-done false x f w e = cc
