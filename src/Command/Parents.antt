-- ===== src/Command/Parents.antt =====
-- Which parents `checkParentage` of cmd/commit.go gives.
use mathlib.Core.List.Perm
use mathlib.Core.List.{not-mem-nil}
use dorothy.Base.{
  ℕ, zero, suc, String, ◌≡◌, refl, subst, ◌⊎◌, inl, inr, Bool, true, false, List, [], ◌∷◌, ◌++◌,
  Mem, Perm, Option, none, some, if◌then◌else◌,
}
use dorothy.Version.{Version}
use dorothy.Outcome.{Reply, ok, err, Outcome, done, conflicted, failed}
use dorothy.Effects.{pure}
use dorothy.Manifest.{Manifest, unknown_commits}
use dorothy.View.{Msg, Run, quitted, waiting, panicked}
use dorothy.View.Versions.{ViewModel, new_model, run_view, chosen_hashes}
use dorothy.View.Choice.{run_view_sound}
use dorothy.Command.{Terminal, Partial, after, total}
use dorothy.Command.Parentage.{
  is_yes, choose_versions_with_selected, selected_leaves, choice_of, viewed, picked, pick_parents,
  confirm, confirmed, check_unknown, picks, check_parentage,
}
use dorothy.Command.Prompts.{SaysYes, confirm-SaysYes}

module _ {W : Type 0} (t : Terminal W) where
  open t use {scan, sort_strings, list_widget, messages}

  -- Hashes of versions of a manifest.
  abbrev pub AreOf : Manifest → List String → Type 0
  AreOf m hashes =
      (hash : String) → Mem hash hashes → ∥ ((v : Version) × Mem v m.versions × (v.hash ≡ hash)) ∥₁

  choose-AreOf :
      (title : String) (required : Bool) (selected : List Version) (m : Manifest)
      (hashes : List String) (w w' : W)
      → choose_versions_with_selected t title required selected (some m) w ≡ some (done hashes, w')
      → AreOf m hashes
  unfolding choose_versions_with_selected
  choose-AreOf title required selected m hashes w w' e = go (messages w) e
    where
      model : ViewModel list_widget
      model = new_model list_widget title m required selected

      ran :
          (r : Run (ViewModel list_widget)) (v : W)
          → ((n : ViewModel list_widget) → r ≡ quitted n → AreOf m (chosen_hashes n.choices))
          → choice_of t r v ≡ some (done hashes, w')
          → AreOf m hashes
      ran (quitted n) v sound k =
          let q : chosen_hashes n.choices ≡ hashes = cc in subst (λ hs. AreOf m hs) q (sound n refl)
      ran (waiting n) v sound k = cc
      ran panicked v sound k = cc

      go : (r : Reply (List Msg) × W) → viewed t model r ≡ some (done hashes, w') → AreOf m hashes
      go (ok msgs, v) k =
          ran (run_view list_widget msgs model) v
            (λ n h. (run_view_sound list_widget title m required selected msgs n h).0) k
      go (err x, v) k = cc

  pick_parents-AreOf :
      (n : ℕ) (m : Manifest) (hashes : List String) (w w' : W)
      → pick_parents t n (some m) w ≡ some (done hashes, w')
      → AreOf m hashes
  unfolding pick_parents
  pick_parents-AreOf zero m hashes w w' e = cc
  pick_parents-AreOf (suc n) m hashes w w' e =
      go
        (choose_versions_with_selected t "Which versions are parents of this version?" false
          (selected_leaves t (some m)) (some m) w)
        (λ hs v. choose-AreOf _ false _ m hs w v) (λ v. pick_parents-AreOf n m hashes v w') e
    where
      asked :
          (b : Bool) (v : W)
          → ((v : W) → pick_parents t n (some m) v ≡ some (done hashes, w') → AreOf m hashes)
          → (elim b [ true ↦ some (done [], v) | false ↦ pick_parents t n (some m) v ])
            ≡ some (done hashes, w')
          → AreOf m hashes
      asked true v ih k =
          let q : [] ≡ hashes = cc in subst (λ hs. AreOf m hs) q λ h mh. absurd (not-mem-nil mh)
      asked false v ih k = ih v k

      go :
          (o : Option (Outcome (List String) × W))
          → ((hs : List String) (v : W) → o ≡ some (done hs, v) → AreOf m hs)
          → ((v : W) → pick_parents t n (some m) v ≡ some (done hashes, w') → AreOf m hashes)
          → picked t (pick_parents t n (some m)) o ≡ some (done hashes, w')
          → AreOf m hashes
      go none sound ih k = cc
      go (some (conflicted cs x, v)) sound ih k = cc
      go (some (failed x, v)) sound ih k = cc
      go (some (done (p ∷ ps), v)) sound ih k =
          let q : p ∷ ps ≡ hashes = cc in subst (λ hs. AreOf m hs) q (sound (p ∷ ps) v refl)
      go (some (done [], v)) sound ih k = asked (is_yes t (scan v).0) (scan v).1 ih k

  after-eq-done :
      {A B : Type 0} (o : Option (Outcome A × W)) (f : A → Partial W B) {b : B} {w' : W}
      → after o f ≡ some (done b, w')
      → (a : A) × (v : W) × (o ≡ some (done a, v)) × (f a v ≡ some (done b, w'))
  after-eq-done none f e = cc
  after-eq-done (some (done a, v)) f e = (a, v, refl, e)
  after-eq-done (some (conflicted cs x, v)) f e = cc
  after-eq-done (some (failed x, v)) f e = cc

  -- What `checkParentage` lets a commit go on with: the parents that were given and chosen ones, which
  -- are versions of the manifest. All of them are, unless the user has said yes to the question that was
  -- asked after the choice.
  pub record Checked (n : ℕ) (m : Manifest) (given parents : List String) (pick : Bool) (w : W)
      : Type 0 where
    pub chosen : List String
    pub asked_at : W
    pub choosing :
        (if picks t (some m) given pick then pick_parents t n (some m) else total (pure [])) w
        ≡ some (done chosen, asked_at)
    pub are_of : AreOf m chosen
    pub same : Perm parents (given ++ chosen)
    pub known : (unknown_commits m (given ++ chosen) ≡ []) ⊎ ((k : ℕ) × SaysYes t n k asked_at)

  confirmed-eq-done :
      (given parents : List String) (o : Option (Bool × W)) (w' : W)
      → confirmed t given o ≡ some (done (some parents), w')
      → (x : W) × (given ≡ parents) × (o ≡ some (true, x))
  confirmed-eq-done given parents none w' e = cc
  confirmed-eq-done given parents (some (true, x)) w' e = (x, cc, refl)
  confirmed-eq-done given parents (some (false, x)) w' e = cc

  picked-AreOf :
      (b : Bool) (n : ℕ) (m : Manifest) (chosen : List String) (w v : W)
      → (if b then pick_parents t n (some m) else total (pure [])) w ≡ some (done chosen, v)
      → AreOf m chosen
  picked-AreOf true n m chosen w v e = pick_parents-AreOf n m chosen w v e
  picked-AreOf false n m chosen w v e =
      let q : [] ≡ chosen = cc in subst (λ hs. AreOf m hs) q λ h mh. absurd (not-mem-nil mh)

  -- A commit that goes on has the parents that were given and, where the user was asked, the ones that
  -- the user chose, in some order. The chosen ones are versions of the manifest, and either all of them
  -- are or the user has confirmed the unknown ones: of the answers after the choice, the first that is a yes
  -- or a no is a yes.
  pub check_parentage_sound :
      ((xs : List String) → Perm (sort_strings xs) xs)
      → (n : ℕ) (m : Manifest) (given parents : List String) (pick : Bool) (w w' : W)
      → check_parentage t n (some m) given pick w ≡ some (done (some parents), w')
      → Checked n m given parents pick w
  unfolding check_parentage check_unknown
  check_parentage_sound sorts n m given parents pick w w' e =
      let (chosen, v, choosing, e1) =
        after-eq-done
          ((if picks t (some m) given pick then pick_parents t n (some m) else total (pure [])) w)
          (λ chosen. check_unknown t n (given ++ chosen) (unknown_commits m (given ++ chosen))) e in
      go chosen v choosing (picked-AreOf (picks t (some m) given pick) n m chosen w v choosing)
        (unknown_commits m (given ++ chosen)) refl e1
    where
      go :
          (chosen : List String) (v : W)
          → (if picks t (some m) given pick then pick_parents t n (some m) else total (pure [])) w
            ≡ some (done chosen, v)
          → AreOf m chosen
          → (us : List String) → unknown_commits m (given ++ chosen) ≡ us
          → check_unknown t n (given ++ chosen) us v ≡ some (done (some parents), w')
          → Checked n m given parents pick w
      go chosen v choosing of [] none_unknown k =
          let q : sort_strings (given ++ chosen) ≡ parents = cc in
          record {
            chosen = chosen;
            asked_at = v;
            choosing = choosing;
            are_of = of;
            same = subst (λ ps. Perm ps (given ++ chosen)) q (sorts (given ++ chosen));
            known = inl none_unknown;
          }
      go chosen v choosing of (u ∷ us) some_unknown k =
          let (x, same, said) = confirmed-eq-done (given ++ chosen) parents (confirm t n v) w' k in
          record {
            chosen = chosen;
            asked_at = v;
            choosing = choosing;
            are_of = of;
            same = subst (λ ps. Perm ps (given ++ chosen)) same (Perm.refl (given ++ chosen));
            known = inr (confirm-SaysYes t n v x said);
          }
