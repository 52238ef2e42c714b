-- ===== src/Version/Equality.antt =====
-- What `SameParents` and `Equal` of core/manifest.go compare.
use dorothy.Base.{
  ◌≡◌, refl, sym, ◌∙◌, Bool_ext, ◌↔◌, true, String, List, [], ◌∷◌, ◌++◌, arith, length, eq_iff,
  eq_refl,
}
use dorothy.Version.{Version, same_elements, same_parents, equal}

-- What `Equal` compares: of the date the instant, and of the parents their number.
pub record Same (v o : Version) : Type 0 where
  pub hash : v.hash ≡ o.hash
  pub author : v.author ≡ o.author
  pub instant : v.date.instant ≡ o.date.instant
  pub message : v.message ≡ o.message
  pub path_type : v.path_type ≡ o.path_type
  pub parents : length v.parents ≡ length o.parents

same_elements-++ : (xs ys : List String) → same_elements xs (xs ++ ys) ≡ true
unfolding same_elements
same_elements-++ [] ys = refl
same_elements-++ (x ∷ xs) ys = ground (arith, same_elements-++ xs ys, eq_refl x)

-- `SameParents` answers true for parents of the same number.
pub same_parents_iff :
    (v o : Version) → (same_parents v o ≡ true) ↔ (length v.parents ≡ length o.parents)
unfolding same_parents
same_parents_iff v o = ground (arith, same_elements-++ v.parents o.parents)

-- `Equal` answers true exactly for versions that agree in hash, author, instant, message, path type and
-- the number of their parents, whatever the parents are.
pub equal_iff : (v o : Version) → (equal v o ≡ true) ↔ Same v o
unfolding equal
equal_iff v o = ground (
  arith,
  eq_iff v.hash o.hash,
  eq_iff v.author o.author,
  eq_iff v.message o.message,
  eq_iff v.path_type o.path_type,
  same_parents_iff v o,
)

Same-symm : {v o : Version} → Same v o → Same o v
Same-symm s = record {
  hash = sym s.hash;
  author = sym s.author;
  instant = sym s.instant;
  message = sym s.message;
  path_type = sym s.path_type;
  parents = sym s.parents;
}

pub equal_refl : (v : Version) → equal v v ≡ true
equal_refl v = (equal_iff v v).1 (record {
  hash = refl;
  author = refl;
  instant = refl;
  message = refl;
  path_type = refl;
  parents = refl;
})

pub equal_comm : (v o : Version) → equal v o ≡ equal o v
equal_comm v o =
    Bool_ext (equal v o) (equal o v) (λ h. (equal_iff o v).1 (Same-symm ((equal_iff v o).0 h)))
      (λ h. (equal_iff v o).1 (Same-symm ((equal_iff o v).0 h)))

-- `Equal` is transitive.
pub equal_trans : (u v w : Version) → equal u v ≡ true → equal v w ≡ true → equal u w ≡ true
equal_trans u v w p q =
    let a = (equal_iff u v).0 p in
    let b = (equal_iff v w).0 q in
    (equal_iff u w).1 (record {
      hash = a.hash ∙ b.hash;
      author = a.author ∙ b.author;
      instant = a.instant ∙ b.instant;
      message = a.message ∙ b.message;
      path_type = a.path_type ∙ b.path_type;
      parents = a.parents ∙ b.parents;
    })
