-- ===== src/Sorter.antt =====
-- The interface of `v.io/x/lib/toposort`, which core/manifest.go calls: the calls that a sorter has
-- received, its answer, and the documented laws of that answer.
pub mod Trail
pub mod Reference
use dorothy.Base.{◌≡◌, ◌↔◌, List, [], ◌∷◌, Mem, Nodup, Pairwise}

-- `AddNode(a)` and `AddEdge(from, to)`: `from` depends on `to`.
pub data Call (A : Type 0) : Type 0 where
  add_node : A → Call A
  add_edge : A → A → Call A

-- The calls in order ↦ `Sort() (sorted, cycles)`.
abbrev pub Sorter : Type 0 → Type 0
Sorter A = List (Call A) → List A × List (List A)

-- A walk of at least one edge.
pub data Walk {A : Type 0} (cs : List (Call A)) (a : A) : A → Type 0 where
  one : {b : A} → Mem (add_edge a b) cs → Walk cs a b
  more : {b c : A} → Walk cs a b → Mem (add_edge b c) cs → Walk cs a c

abbrev pub IsAcyclic : {A : Type 0} → List (Call A) → Type 0
IsAcyclic {A} cs = (a : A) → ¬ Walk cs a a

-- The nodes that a call names.
abbrev pub named : {A : Type 0} → Call A → List A
named (add_node a) = a ∷ []
named (add_edge a b) = a ∷ b ∷ []

-- "Sort returns the topologically sorted nodes, along with some of the cycles (if any)":
-- every node once; no cycle reported exactly if there is none; and then `to` before `from`.
pub record IsSorter {A : Type 0} (sort : Sorter A) : Type 0 where
  pub nodup : (cs : List (Call A)) → Nodup (sort cs).0
  pub sorted_named :
      (cs : List (Call A)) (c : Call A) (a : A) → Mem c cs → Mem a (named c) → Mem a (sort cs).0
  pub named_sorted :
      (cs : List (Call A)) (a : A)
      → Mem a (sort cs).0
      → ∥ ((c : Call A) × Mem c cs × Mem a (named c)) ∥₁
  pub clean : (cs : List (Call A)) → ((sort cs).1 ≡ []) ↔ IsAcyclic cs
  pub ordered :
      (cs : List (Call A))
      → (sort cs).1 ≡ []
      → Pairwise (λ a b. ¬ Mem (add_edge a b) cs) (sort cs).0

pub Call-set : {A : Type 0} → IsSet A → IsSet (Call A)
Call-set h = hlevel h
