-- ===== src/Sorter/Trail.antt =====
-- A list in which no element has to stand before an earlier one, or before itself, has no cycle.
use mathlib.Core.List.{not-mem-nil, mem_of_ne_of_mem, mem-cons, Pairwise-cons}
use mathlib.Core.Logic.Or
use mathlib.Core.HLevel.{⊥_prop}
use dorothy.Base.{sym, subst, List, [], ◌∷◌, Mem, Pairwise}

-- Steps of `R` whose targets stand in `l`.
pub data Trail {A : Type 0} (R : A → A → Type 0) (l : List A) (a : A) : A → Type 0 where
  one : {b : A} → Mem b l → R a b → Trail R l a b
  more : {b c : A} → Trail R l a b → Mem c l → R b c → Trail R l a c

module _ {A : Type 0} {R : A → A → Type 0} where
  target : {l : List A} {a b : A} → Trail R l a b → Mem b l
  target (one m r) = m
  target (more t m r) = m

  drop_first :
      {h : A} {t : List A} {a b : A}
      → ((x : A) → Mem x (h ∷ t) → ¬ R x h)
      → Mem a (h ∷ t)
      → Trail R (h ∷ t) a b
      → Trail R t a b
  drop_first first ma (one {b = b} m r) =
      one (mem_of_ne_of_mem (λ e. first _ ma (subst (R _) e r)) m) r
  drop_first first ma (more {b = b} {c = c} t m r) =
      more (drop_first first ma t) (mem_of_ne_of_mem (λ e. first b (target t) (subst (R b) e r)) m)
        r

  pub not-Trail :
      (l : List A) {a : A}
      → Pairwise (λ x y. ¬ R y x) l
      → ((x : A) → Mem x l → ¬ R x x)
      → ¬ Trail R l a a
  not-Trail [] p irr t = not-mem-nil (target t)
  not-Trail (h ∷ l) p irr t =
      not-Trail l (Pairwise-cons.0 p).1 (λ x m. irr x (mem-cons.1 (Or.inr m)))
        (drop_first
          (λ x m r.
            Or.elim ⊥_prop (mem-cons.0 m) (λ e. irr x m (subst (R x) (sym e) r))
              (λ later. (Pairwise-cons.0 p).0 x later r))
          (target t) t)
