-- ===== src/Manifest/Calls.antt =====
-- The calls that `toposort` of core/manifest.go makes on the sorter.
use mathlib.Core.HLevel.{×₃_prop}
use mathlib.Core.Logic.Or
use mathlib.Core.List.{
  Mem-prop, mem-singleton, mem-append, mem-cons, mem-append_left, mem-append_right, mem-map,
  mem-map_of_mem,
}
use native.Mathlib.Decide.{ℕ_discrete}
use dorothy.Base.{
  String-discrete, ◌<◌, ◌≡◌, refl, ap, ◌∨₁◌, ∥∥₁_elim, ∥∥₁_prop, ∥∥₁_map, ∨₁_prop, List, ◌++◌, map,
  Mem, ltb_iff, eq_iff, mem-collect, exists_of_mem-collect, mem-guarded, of_mem-guarded, ◌==◌, ltb,
}
use dorothy.Version.{Version, Version-set}
use dorothy.Sorter.{Call, Call-set, add_node, add_edge, named}
use dorothy.Manifest.{Slot, parent_calls, date_calls, calls}

-- What puts `u` before `v`: it is a parent of `v`, or it is older.
abbrev pub Precedes : Version → Version → Type 0
Precedes u v = Mem u.hash v.parents ∨₁ (u.date.instant < v.date.instant)

Slot-set : IsSet Slot
Slot-set = hlevel Version-set

-- The edge that one `AddEdge` makes.
abbrev IsEdge : (P : Slot → Slot → Type 0) (s : List Slot) (c : Call Slot) → Type 0
IsEdge P s c = ∥ ((j i : Slot) × (c ≡ add_edge j i) × Mem j s × Mem i s × P j i) ∥₁

-- The ends of an edge; a node is both of its ends.
from : Call Slot → Slot
from (add_node a) = a
from (add_edge a b) = a

to : Call Slot → Slot
to (add_node a) = a
to (add_edge a b) = b

module _ (s : List Slot) where
  of_mem-parent_calls :
      (c : Call Slot)
      → Mem c (parent_calls s)
      → IsEdge (λ j i. Mem j.version.hash i.version.parents) s c
  unfolding parent_calls
  of_mem-parent_calls c m = ∥∥₁_elim (exists_of_mem-collect _ s m) ∥∥₁_prop λ (i, mi, m1).
      ∥∥₁_elim (exists_of_mem-collect _ s m1) ∥∥₁_prop λ (j, mj, m2).
        ∥∥₁_map (exists_of_mem-collect _ i.version.parents m2) λ (hash, mh, m3).
          let (t, e) = of_mem-guarded (j.version.hash == hash) m3 in
          (
            j,
            i,
            (mem-singleton (Call-set Slot-set)).0 e,
            mj,
            mi,
            rw ((eq_iff j.version.hash hash).0 t) mh,
          )

  of_mem-date_calls :
      (c : Call Slot)
      → Mem c (date_calls s)
      → IsEdge (λ j i. j.version.date.instant < i.version.date.instant) s c
  unfolding date_calls
  of_mem-date_calls c m = ∥∥₁_elim (exists_of_mem-collect _ s m) ∥∥₁_prop λ (i, mi, m1).
      ∥∥₁_map (exists_of_mem-collect _ s m1) λ (j, mj, m2).
        let (t, e) = of_mem-guarded (ltb j.version.date.instant i.version.date.instant) m2 in
        (j, i, (mem-singleton (Call-set Slot-set)).0 e, mj, mi, (ltb_iff _ _).0 t)

  pub edge_mem :
      {j i : Slot} → Mem j s → Mem i s → Precedes j.version i.version → Mem (add_edge j i) (calls s)
  unfolding calls
  edge_mem {j} {i} mj mi p = mem-append_right (map add_node s) (
      Or.elim Mem-prop p
        (λ mh. mem-append_left (date_calls s) (
          mem-collect _ s mi (
            mem-collect _ s mj
              (mem-collect _ i.version.parents mh (mem-guarded ((eq_iff _ _).1 refl))))))
        (λ lt.
          mem-append_right (parent_calls s)
            (mem-collect _ s mi (mem-collect _ s mj (mem-guarded ((ltb_iff _ _).1 lt))))))

  of_mem-calls :
      (c : Call Slot)
      → Mem c (calls s)
      → Mem c (map add_node s) ∨₁ IsEdge (λ j i. Precedes j.version i.version) s c
  unfolding calls
  of_mem-calls c m = Or.elim ∨₁_prop (mem-append.0 m) Or.inl λ later. Or.inr (
      Or.elim ∥∥₁_prop (mem-append.0 later)
        (λ p. ∥∥₁_map (of_mem-parent_calls c p) λ (j, i, e, mj, mi, h). (j, i, e, mj, mi, Or.inl h))
        (λ d. ∥∥₁_map (of_mem-date_calls c d) λ (j, i, e, mj, mi, h). (j, i, e, mj, mi, Or.inr h)))

  pub of_edge_mem :
      (j i : Slot) → Mem (add_edge j i) (calls s) → Mem j s × Mem i s × Precedes j.version i.version
  unfolding from to
  of_edge_mem j i m =
      let is_prop = ×₃_prop Mem-prop Mem-prop ∨₁_prop in
      Or.elim is_prop (of_mem-calls (add_edge j i) m)
        (λ node. ∥∥₁_elim (mem-map.0 node) is_prop λ (x, mx, e). cc)
        (λ edge. ∥∥₁_elim edge is_prop λ (j', i', e, mj, mi, h).
          let ej = ap from e in let ei = ap to e in rw (ej, ei) (mj, mi, h))

  -- The calls name the slots and nothing else.
  pub mem-of_named : (c : Call Slot) (a : Slot) → Mem c (calls s) → Mem a (named c) → Mem a s
  mem-of_named c a m n =
      Or.elim Mem-prop (of_mem-calls c m)
        (λ node.
          ∥∥₁_elim (mem-map.0 node) Mem-prop
            λ (x, mx, e). rw ((mem-singleton Slot-set).0 (rw (← e) at n)) mx)
        (λ edge. ∥∥₁_elim edge Mem-prop λ (j, i, e, mj, mi, h).
          Or.elim Mem-prop (mem-cons.0 (rw e at n)) (λ q. rw q mj)
            (λ q. rw ((mem-singleton Slot-set).0 q) mi))

  pub node_mem : (a : Slot) → Mem a s → Mem (add_node a) (calls s)
  unfolding calls
  node_mem a m = mem-append_left (parent_calls s ++ date_calls s) (mem-map_of_mem add_node m)

unfoldable pub Slot-discrete : Discrete Slot
unfolding String-discrete ℕ_discrete
Slot-discrete = hlevel (String-discrete, ℕ_discrete)
