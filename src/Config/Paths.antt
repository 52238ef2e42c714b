-- ===== src/Config/Paths.antt =====
-- What a property reads after it, or another, was set or deleted (core/dorothy.go).
use dorothy.Base.{
  String, ◌≡◌, ◌≢◌, ◌↔◌, ◌⊎◌, inl, inr, refl, sym, ap, ◌∙◌, subst, Option, none, some, List, [],
  ◌∷◌, ◌==◌, eq_iff, eq_refl, if◌then◌else◌, arith,
}
use dorothy.Outcome.{Outcome, done, failed, conflicted, ◌>>=◌}
use dorothy.Config.Tree.{
  Value, scalar, table, Table, end, entry, lookup, insert, remove, below, set_path, inside,
  get_path, removed, del_path,
}

>>=-eq-done :
    {A B : Type 0} (o : Outcome A) (f : A → Outcome B) {b : B}
    → (o >>= f) ≡ done b
    → (a : A) × (o ≡ done a) × (f a ≡ done b)
>>=-eq-done (done a) f h = (a, refl, h)
>>=-eq-done (conflicted cs e) f h = cc
>>=-eq-done (failed e) f h = cc

-- Two properties of which neither lies below the other.
abbrev pub Diverge : List String → List String → Type 0
Diverge [] qs = ⊥
Diverge (p ∷ ps) [] = ⊥
Diverge (p ∷ ps) (q ∷ qs) = (p ≢ q) ⊎ ((p ≡ q) × Diverge ps qs)

module _ {S : Type 0} where
  lookup-insert :
      (j k : String) (v : Value S) (t : Table S)
      → lookup j (insert k v t) ≡ (if k == j then some v else lookup j t)
  unfolding lookup insert
  lookup-insert j k v end = refl
  lookup-insert j k v (entry i w t) =
      ground (arith, eq_iff k j, eq_iff i k, eq_iff i j, lookup-insert j k v t)

  lookup-insert_self : (k : String) (v : Value S) (t : Table S) → lookup k (insert k v t) ≡ some v
  lookup-insert_self k v t = simp (lookup-insert, eq_refl)

  lookup-insert_ne :
      (j k : String) (v : Value S) (t : Table S) → k ≢ j → lookup j (insert k v t) ≡ lookup j t
  lookup-insert_ne j k v t ne = ground (arith, lookup-insert j k v t, eq_iff k j)

  lookup-remove :
      (j k : String) (t : Table S) → lookup j (remove k t) ≡ (if k == j then none else lookup j t)
  unfolding lookup remove
  lookup-remove j k end = ground arith
  lookup-remove j k (entry i w t) =
      ground (arith, eq_iff k j, eq_iff i k, eq_iff i j, lookup-remove j k t)

  -- A write below `p` that succeeded: the map that it wrote into, what became of it, and the whole.
  below_written :
      (f : Table S → Outcome (Table S)) (p : String) (t t' : Table S)
      → (below (lookup p t) >>= λ s. f s >>= λ s'. done (insert p (table s') t)) ≡ done t'
      → (s : Table S) × (s' : Table S) × (below (lookup p t) ≡ done s)
        × (f s ≡ done s')
        × (t' ≡ insert p (table s') t)
  below_written f p t t' h =
      let (s, b, h1) = >>=-eq-done (below (lookup p t)) _ h in
      let (s', w, h2) = >>=-eq-done (f s) _ h1 in (s, s', b, w, cc)

  -- A property that was set reads as the value that was given.
  pub get_path-set_path :
      (p : String) (ps : List String) (v : Value S) (t t' : Table S)
      → set_path (p ∷ ps) v t ≡ done t'
      → get_path (p ∷ ps) t' ≡ some v
  unfolding set_path get_path
  get_path-set_path p [] v t t' h =
      let q : insert p v t ≡ t' = cc in
      subst (λ u. lookup p u ≡ some v) q (lookup-insert_self p v t)
  get_path-set_path p (q ∷ ps) v t t' h =
      let (s, s', b, w, e) = below_written (set_path (q ∷ ps) v) p t t' h in
      rw e (
        ap (inside (get_path (q ∷ ps))) (lookup-insert_self p (table s') t)
        ∙ get_path-set_path q ps v s s' w)

  get_path-end : (ps : List String) → get_path {S = S} ps end ≡ none
  unfolding get_path lookup
  get_path-end [] = refl
  get_path-end (p ∷ []) = refl
  get_path-end (p ∷ q ∷ ps) = refl

  -- Another entry than the one that was written reads as before.
  get_path_other :
      (p q : String) (qs : List String) (v : Value S) (t : Table S)
      → p ≢ q
      → get_path (q ∷ qs) (insert p v t) ≡ get_path (q ∷ qs) t
  unfolding get_path
  get_path_other p q [] v t ne = lookup-insert_ne q p v t ne
  get_path_other p q (r ∷ qs) v t ne = ap (inside (get_path (r ∷ qs))) (lookup-insert_ne q p v t ne)

  get_path-inside :
      (p r : String) (qs : List String) (t s : Table S)
      → lookup p t ≡ some (table s)
      → get_path (p ∷ r ∷ qs) t ≡ get_path (r ∷ qs) s
  unfolding get_path
  get_path-inside p r qs t s e = ap (inside (get_path (r ∷ qs))) e

  -- The map below `p` holds what is read below `p`, also where it was made.
  get_path-below :
      (p r : String) (qs : List String) (t s : Table S)
      → below (lookup p t) ≡ done s
      → get_path (p ∷ r ∷ qs) t ≡ get_path (r ∷ qs) s
  unfolding get_path
  get_path-below p r qs t s b = go (lookup p t) b
    where
      go :
          (o : Option (Value S))
          → below o ≡ done s
          → inside (get_path (r ∷ qs)) o ≡ get_path (r ∷ qs) s
      go none h =
          let e : Path (Table S) end s = cc in
          subst (λ u. none ≡ get_path (r ∷ qs) u) e (sym (get_path-end (r ∷ qs)))
      go (some (table u)) h = let e : Path (Table S) u s = cc in ap (get_path (r ∷ qs)) e
      go (some (scalar x)) h = cc

  -- Setting a property changes no other one that lies neither above nor below it.
  pub get_path-set_path_other :
      (ps qs : List String) (v : Value S) (t t' : Table S)
      → Diverge ps qs
      → set_path ps v t ≡ done t'
      → get_path qs t' ≡ get_path qs t
  unfolding set_path
  get_path-set_path_other [] qs v t t' d h = absurd d
  get_path-set_path_other (p ∷ ps) [] v t t' d h = absurd d
  get_path-set_path_other (p ∷ []) (q ∷ qs) v t t' (inl ne) h =
      let e : insert p v t ≡ t' = cc in
      subst (λ u. get_path (q ∷ qs) u ≡ get_path (q ∷ qs) t) e (get_path_other p q qs v t ne)
  get_path-set_path_other (p ∷ []) (q ∷ qs) v t t' (inr (e, d)) h = absurd d
  get_path-set_path_other (p ∷ r ∷ ps) (q ∷ qs) v t t' (inl ne) h =
      let (s, s', b, w, e) = below_written (set_path (r ∷ ps) v) p t t' h in
      rw e (get_path_other p q qs (table s') t ne)
  get_path-set_path_other (p ∷ r ∷ ps) (q ∷ []) v t t' (inr (pq, d)) h = absurd d
  get_path-set_path_other (p ∷ r ∷ ps) (q ∷ u ∷ qs) v t t' (inr (pq, d)) h =
      let (s, s', b, w, e) = below_written (set_path (r ∷ ps) v) p t t' h in
      let ih = get_path-set_path_other (r ∷ ps) (u ∷ qs) v s s' d w in
      rw (← pq, e)
        (get_path-inside p u qs _ s' (lookup-insert_self p (table s') t)
          ∙ ih
          ∙ sym (get_path-below p u qs t s b))

  pub get_path-del_path :
      (p : String) (ps : List String) (t t' : Table S)
      → del_path (p ∷ ps) t ≡ done t'
      → ((v : Value S) × (get_path (p ∷ ps) t ≡ some v)) × (get_path (p ∷ ps) t' ≡ none)
  unfolding del_path get_path
  get_path-del_path p [] t t' h = go (lookup p t) refl h
    where
      go :
          (o : Option (Value S))
          → lookup p t ≡ o
          → removed p t o ≡ done t'
          → ((v : Value S) × (get_path (p ∷ []) t ≡ some v)) × (get_path (p ∷ []) t' ≡ none)
      go none e h' = cc
      go (some v) e h' =
          let q : remove p t ≡ t' = cc in
          ((v, e), subst (λ u. lookup p u ≡ none) q (lookup-remove p p t ∙ rw (eq_refl) refl))
  get_path-del_path p (q ∷ ps) t t' h =
      let (s, s', b, w, e) = below_written (del_path (q ∷ ps)) p t t' h in
      let ((v, r), gone) = get_path-del_path q ps s s' w in
      (
        (v, get_path-below p q ps t s b ∙ r),
        rw e (get_path-inside p q ps _ s' (lookup-insert_self p (table s') t) ∙ gone),
      )

  inside-eq-some :
      (f : Table S → Option (Value S)) (o : Option (Value S)) {v : Value S}
      → inside f o ≡ some v
      → (s : Table S) × (o ≡ some (table s)) × (f s ≡ some v)
  inside-eq-some f (some (table s)) h = (s, refl, h)
  inside-eq-some f (some (scalar x)) h = cc
  inside-eq-some f none h = cc

  del_path_exists :
      (p : String) (ps : List String) (t : Table S) (v : Value S)
      → get_path (p ∷ ps) t ≡ some v
      → (t' : Table S) × (del_path (p ∷ ps) t ≡ done t')
  unfolding del_path get_path
  del_path_exists p [] t v h = (remove p t, rw h)
  del_path_exists p (q ∷ ps) t v h =
      let (s, e, r) = inside-eq-some (get_path (q ∷ ps)) (lookup p t) h in
      let (s', d) = del_path_exists q ps s v r in (insert p (table s') t, rw (e, d) refl)

  -- A property can be deleted exactly if it has a value, and then it has none any more.
  pub del_path_iff :
      (p : String) (ps : List String) (t : Table S)
      → ((t' : Table S) × (del_path (p ∷ ps) t ≡ done t') × (get_path (p ∷ ps) t' ≡ none))
        ↔ ((v : Value S) × (get_path (p ∷ ps) t ≡ some v))
  del_path_iff p ps t = (
    λ (t', d, gone). (get_path-del_path p ps t t' d).0,
    λ (v, r).
        let (t', d) = del_path_exists p ps t v r in (t', d, (get_path-del_path p ps t t' d).1),
  )
