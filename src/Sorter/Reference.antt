-- ===== src/Sorter/Reference.antt =====
-- A sorter that has the documented laws: a witness that they can hold, and a means to run the model.
-- It is not the algorithm of `v.io/x/lib/toposort`, whose code is not part of the repository.
use mathlib.Core.HLevel.{⊥_prop}
use mathlib.Core.Logic.Or
use mathlib.Core.List.Perm
use mathlib.Core.List.{
  Mem-prop, dec_mem, not-mem-nil, mem-cons, mem-cons_self, mem-cons_of_mem, Nodup-nil, Nodup-cons,
  mem-reverse, Pairwise-cons, Pairwise-reverse, mem_of_ne_of_mem,
}
use mathlib.Core.HLevel.{¬_prop}
use native.Mathlib.Nat.{le_refl}
use dorothy.Base.{
  collect, mem-collect, exists_of_mem-collect, ℕ, zero, suc, ◌≤◌, ◌≡◌, refl, subst, ◌↔◌, ∥∥₁_elim,
  ∥∥₁_prop, ∥∥₁_map, Bool, true, decide, decide_iff, false, not, Option, none, some, List, [], ◌∷◌,
  reverse, Mem, Perm, Pairwise, Nodup, arith, length, any, exists_of-any, not-any-of_mem,
  Bool-cases, inl, inr, if◌then◌else◌,
}
use dorothy.Sorter.{Call, add_edge, named, Sorter, Walk, IsAcyclic, IsSorter}
use dorothy.Sorter.Trail.{Trail, not-Trail}

module _ {A : Type 0} (p : A → Bool) where
  push : A → Option (A × List A) → Option (A × List A)
  push y none = none
  push y (some (x, r)) = some (x, y ∷ r)

  -- The first element that passes the test, and the list without it.
  pub take_free : List A → Option (A × List A)
  unfolding push
  take_free [] = none
  take_free (y ∷ ys) = if p y then some (y, ys) else push y (take_free ys)

  pub record Taken (l : List A) (x : A) (r : List A) : Type 0 where
    pub perm : Perm l (x ∷ r)
    pub free : p x ≡ true
    pub size : length l ≡ suc (length r)

  abbrev pub Takes : List A → Option (A × List A) → Type 0
  Takes l none = (x : A) → Mem x l → p x ≡ false
  Takes l (some (x, r)) = Taken l x r

  take_free_step :
      (y : A) (ys : List A) (b : Bool) (o : Option (A × List A))
      → p y ≡ b
      → Takes ys o
      → Takes (y ∷ ys) (if b then some (y, ys) else push y o)
  unfolding push
  take_free_step y ys true o e h = record { perm = Perm.refl _; free = e; size = refl }
  take_free_step y ys false none e h =
      λ x m. Or.elim (hlevel) (mem-cons.0 m) (λ q. rw q e) (λ later. h x later)
  take_free_step y ys false (some (x, r)) e h = record {
    perm = Perm.trans (Perm.cons y h.perm) (Perm.swap x y r);
    free = h.free;
    size = omega (arith, h.size);
  }

  pub take_free-Takes : (l : List A) → Takes l (take_free l)
  unfolding take_free
  take_free-Takes [] = λ x m. absurd (not-mem-nil m)
  take_free-Takes (y ∷ ys) = take_free_step y ys (p y) (take_free ys) refl (take_free-Takes ys)

module _ {A : Type 0} (dec : Discrete A) (cs : List (Call A)) where
  Call-discrete : Discrete (Call A)
  Call-discrete = hlevel dec

  edge : A → A → Bool
  unfolding Call-discrete
  edge a b = decide (dec_mem Call-discrete (add_edge a b) cs)

  edge_iff : (a b : A) → (edge a b ≡ true) ↔ Mem (add_edge a b) cs
  unfolding edge
  edge_iff a b = decide_iff (dec_mem Call-discrete (add_edge a b) cs)

  -- `a` depends on nothing that is still pending.
  is_free : List A → A → Bool
  unfolding edge
  is_free pending a = not (any (λ b. edge a b) pending)

  emit : (List A → List A × List (List A)) → List A → Option (A × List A) → List A × List (List A)
  emit rec pending none = (pending, pending ∷ [])
  emit rec pending (some (x, rest)) = let (sorted, cycles) = rec rest in (x ∷ sorted, cycles)

  -- Emits a free node again and again; what is left when there is none is reported as a cycle.
  rounds : ℕ → List A → List A × List (List A)
  unfolding is_free take_free emit
  rounds f [] = ([], [])
  rounds zero (p ∷ ps) = (p ∷ ps, (p ∷ ps) ∷ [])
  rounds (suc f) (p ∷ ps) = emit (rounds f) (p ∷ ps) (take_free (is_free (p ∷ ps)) (p ∷ ps))

  Walk-trans : {a b c : A} → Walk cs a b → Walk cs b c → Walk cs a c
  Walk-trans w (Walk.one e) = Walk.more w e
  Walk-trans w (Walk.more v e) = Walk.more (Walk-trans w v) e

  -- Where every node of a list leads to a node of the list, there is a cycle.
  stuck :
      (h : A) (t : List A)
      → ((x : A) → Mem x (h ∷ t) → ∥ ((y : A) × Mem y (h ∷ t) × Walk cs x y) ∥₁)
      → ¬ IsAcyclic cs
  stuck h [] total acyclic = ∥∥₁_elim (total h mem-cons_self) ⊥_prop λ (y, m, w).
      Or.elim ⊥_prop (mem-cons.0 m) (λ e. acyclic h (subst (Walk cs h) e w)) not-mem-nil
  stuck h (h' ∷ t) total acyclic = stuck h' t shorter acyclic
    where
      avoid :
          (x y : A)
          → Mem y (h ∷ h' ∷ t)
          → Walk cs x y
          → ∥ ((z : A) × Mem z (h' ∷ t) × Walk cs x z) ∥₁
      avoid x y m w =
          Or.elim ∥∥₁_prop (mem-cons.0 m)
            (λ e. ∥∥₁_elim (total h mem-cons_self) ∥∥₁_prop λ (z, mz, v).
              let there = mem_of_ne_of_mem (λ q. acyclic h (subst (Walk cs h) q v)) mz in
              ∣ (z, there, Walk-trans (subst (Walk cs x) e w) v) ∣₁)
            (λ later. ∣ (y, later, w) ∣₁)

      shorter : (x : A) → Mem x (h' ∷ t) → ∥ ((y : A) × Mem y (h' ∷ t) × Walk cs x y) ∥₁
      shorter x m = ∥∥₁_elim (total x (mem-cons_of_mem h m)) ∥∥₁_prop λ (y, my, w). avoid x y my w

  record Sorted (pending : List A) (r : List A × List (List A)) : Type 0 where
    perm : Perm r.0 pending
    ordered : r.1 ≡ [] → Pairwise (λ a b. ¬ Mem (add_edge a b) cs) r.0
    irreflexive : r.1 ≡ [] → (a : A) → Mem a r.0 → ¬ Mem (add_edge a a) cs
    clean : IsAcyclic cs → r.1 ≡ []

  free_of :
      (pending : List A) (x y : A)
      → is_free pending x ≡ true
      → Mem y pending
      → ¬ Mem (add_edge x y) cs
  unfolding is_free
  free_of pending x y f m e =
      let t = (edge_iff x y).1 e in
      let n = not-any-of_mem (λ b. edge x b) pending (ground arith) m in cc

  blocked_of :
      (pending : List A) (x : A)
      → is_free pending x ≡ false
      → ∥ ((y : A) × Mem y pending × Walk cs x y) ∥₁
  unfolding is_free
  blocked_of pending x f =
      ∥∥₁_map (exists_of-any (λ b. edge x b) pending (ground arith))
        λ (y, m, e). (y, m, Walk.one ((edge_iff x y).0 e))

  emit-Sorted :
      (rec : List A → List A × List (List A)) (p : A) (ps : List A) (o : Option (A × List A))
      → Takes (is_free (p ∷ ps)) (p ∷ ps) o
      → ((x : A) (rest : List A)
          → Taken (is_free (p ∷ ps)) (p ∷ ps) x rest
          → Sorted rest (rec rest))
      → Sorted (p ∷ ps) (emit rec (p ∷ ps) o)
  unfolding emit
  emit-Sorted rec p ps none h ih = record {
    perm = Perm.refl _;
    ordered = λ e. absurd (cc);
    irreflexive = λ e. absurd (cc);
    clean = λ acyclic. absurd (stuck p ps (λ x m. blocked_of (p ∷ ps) x (h x m)) acyclic);
  }
  emit-Sorted rec p ps (some (x, rest)) h ih =
      let s = ih x rest h in
      let here = Perm.subset (Perm.symm h.perm) in
      record {
        perm = Perm.trans (Perm.cons x s.perm) (Perm.symm h.perm);
        ordered = λ e. Pairwise-cons.1 (
          λ b m. free_of (p ∷ ps) x b h.free (here b (mem-cons_of_mem x (Perm.subset s.perm b m))),
          s.ordered e,
        );
        irreflexive = λ e a m.
            Or.elim ¬_prop (mem-cons.0 m)
              (λ q. rw q (free_of (p ∷ ps) x x h.free (here x mem-cons_self)))
              (λ later. s.irreflexive e a later);
        clean = s.clean;
      }

  rounds-Sorted :
      (f : ℕ) (pending : List A) → length pending ≤ f → Sorted pending (rounds f pending)
  unfolding rounds
  rounds-Sorted f [] le = record {
    perm = Perm.refl _;
    ordered = λ _. Pairwise.nil;
    irreflexive = λ _ a m. absurd (not-mem-nil m);
    clean = λ _. refl;
  }
  rounds-Sorted zero (p ∷ ps) le = absurd (omega arith)
  rounds-Sorted (suc f) (p ∷ ps) le =
      emit-Sorted (rounds f) p ps _ (take_free-Takes (is_free (p ∷ ps)) (p ∷ ps))
        λ x rest taken. rounds-Sorted f rest (let size = taken.size in omega arith)

module _ {A : Type 0} (dec : Discrete A) where
  put : A → List A → List A
  put a xs = if decide (dec_mem dec a xs) then xs else a ∷ xs

  distinct : List A → List A
  unfolding put
  distinct [] = []
  distinct (x ∷ xs) = put x (distinct xs)

  distinct_lem : (xs : List A) → Nodup (distinct xs) × ((a : A) → Mem a (distinct xs) ↔ Mem a xs)
  unfolding distinct
  distinct_lem [] = (Nodup-nil, λ a. (λ m. m, λ m. m))
  distinct_lem (x ∷ xs) =
      let (nodup, same) = distinct_lem xs in
      elim (Bool-cases (decide (dec_mem dec x (distinct xs)))) [
        | inl e ↦
            let old = (decide_iff (dec_mem dec x (distinct xs))).0 e in
            rw e (
              nodup,
              λ a. (
                λ m. mem-cons_of_mem x ((same a).0 m),
                λ m. Or.elim Mem-prop (mem-cons.0 m) (λ q. rw q old) (λ later. (same a).1 later),
              ),
            )
        | inr e ↦ rw e (
          Nodup-cons.1 (λ m. let t = (decide_iff (dec_mem dec x (distinct xs))).1 m in cc, nodup),
          λ a. (
            λ m.
                Or.elim Mem-prop (mem-cons.0 m) (λ q. rw q mem-cons_self)
                  (λ later. mem-cons_of_mem x ((same a).0 later)),
            λ m.
                Or.elim Mem-prop (mem-cons.0 m) (λ q. rw q mem-cons_self)
                  (λ later. mem-cons_of_mem x ((same a).1 later)),
          ),
        )
      ]

  nodes : List (Call A) → List A
  unfolding distinct
  nodes cs = distinct (collect named cs)

  unfoldable pub reference : Sorter A
  unfolding nodes rounds
  reference cs = rounds dec cs (length (nodes cs)) (nodes cs)

  reference-Sorted : (cs : List (Call A)) → Sorted dec cs (nodes cs) (reference cs)
  unfolding reference
  reference-Sorted cs = rounds-Sorted dec cs (length (nodes cs)) (nodes cs) (le_refl _)

  mem-nodes : (cs : List (Call A)) (a : A) → Mem a (nodes cs) ↔ Mem a (collect named cs)
  unfolding nodes
  mem-nodes cs a = (distinct_lem (collect named cs)).1 a

  nodes-Nodup : (cs : List (Call A)) → Nodup (nodes cs)
  unfolding nodes
  nodes-Nodup cs = (distinct_lem (collect named cs)).0

  -- The walks of an acyclic answer stay among the nodes.
  Walk-Trail :
      (cs : List (Call A)) (l : List A) {a b : A}
      → ((x y : A) → Mem (add_edge x y) cs → Mem y l)
      → Walk cs a b
      → Trail (λ x y. Mem (add_edge x y) cs) l a b
  Walk-Trail cs l inside (Walk.one e) = Trail.one (inside _ _ e) e
  Walk-Trail cs l inside (Walk.more w e) = Trail.more (Walk-Trail cs l inside w) (inside _ _ e) e

  pub reference-IsSorter : IsSorter reference
  reference-IsSorter = record {
    nodup = λ cs. Perm.nodup (Perm.symm (reference-Sorted cs).perm) (nodes-Nodup cs);
    sorted_named = λ cs c a mc ma.
        Perm.subset (Perm.symm (reference-Sorted cs).perm) a
          ((mem-nodes cs a).1 (mem-collect named cs mc ma));
    named_sorted = λ cs a m.
        exists_of_mem-collect named cs
          ((mem-nodes cs a).0 (Perm.subset (reference-Sorted cs).perm a m));
    clean = λ cs. (
      λ e a w.
          let s = reference-Sorted cs in
          not-Trail (reverse (reference cs).0) ((Pairwise-reverse (λ _ _. ¬_prop)).1 (s.ordered e))
            (λ x m. s.irreflexive e x (mem-reverse.0 m))
            (Walk-Trail cs _
              (λ x y m. mem-reverse.1 (
                Perm.subset (Perm.symm s.perm) y
                  ((mem-nodes cs y).1 (mem-collect named cs m (mem-cons_of_mem x mem-cons_self)))))
              w),
      (reference-Sorted cs).clean,
    );
    ordered = λ cs. (reference-Sorted cs).ordered;
  }
