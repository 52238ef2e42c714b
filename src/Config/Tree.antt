-- ===== src/Config/Tree.antt =====
-- The property trees of `SetConfig`, `GetConfig` and `DelConfig` of core/dorothy.go: the maps that a TOML
-- file is decoded to. A map is a list of its entries; a write replaces the entry of its key.
use dorothy.Base.{String, Option, none, some, List, [], ◌∷◌, ◌==◌, if◌then◌else◌}
use dorothy.Outcome.{Outcome, done, failed, invalid_property, ◌>>=◌}

-- `any` as TOML decodes it: a table, or a value that is none, of the type `S`.
mutual
  pub data Value (S : Type 0) : Type 0 where
    scalar : S → Value S
    table : Table S → Value S

  pub data Table (S : Type 0) : Type 0 where
    end : Table S
    entry : String → Value S → Table S → Table S

module _ {S : Type 0} where
  unfoldable pub lookup : String → Table S → Option (Value S)
  lookup k end = none
  lookup k (entry j v t) = if j == k then some v else lookup k t

  unfoldable pub insert : String → Value S → Table S → Table S
  insert k v end = entry k v end
  insert k v (entry j w t) = if j == k then entry k v t else entry j w (insert k v t)

  -- `delete(s, prop)`
  unfoldable pub remove : String → Table S → Table S
  remove k end = end
  remove k (entry j v t) = if j == k then remove k t else entry j v (remove k t)

  -- The map below a property that is not the last: it is made if it is missing.
  abbrev pub below : Option (Value S) → Outcome (Table S)
  below none = done end
  below (some (table t)) = done t
  below (some (scalar s)) = failed invalid_property

  -- The loop of `SetConfig`.
  unfoldable pub set_path : List String → Value S → Table S → Outcome (Table S)
  set_path [] v t = done t
  set_path (p ∷ []) v t = done (insert p v t)
  set_path (p ∷ q ∷ ps) v t = do
    s ← below (lookup p t)
    s' ← set_path (q ∷ ps) v s
    done (insert p (table s') t)

  -- A look into the map of a property that is not the last.
  abbrev pub inside : (Table S → Option (Value S)) → Option (Value S) → Option (Value S)
  inside f (some (table t)) = f t
  inside f (some (scalar s)) = none
  inside f none = none

  -- The loop of `GetConfig`.
  unfoldable pub get_path : List String → Table S → Option (Value S)
  get_path [] t = none
  get_path (p ∷ []) t = lookup p t
  get_path (p ∷ q ∷ ps) t = inside (get_path (q ∷ ps)) (lookup p t)

  abbrev pub removed : String → Table S → Option (Value S) → Outcome (Table S)
  removed p t none = failed invalid_property
  removed p t (some v) = done (remove p t)

  -- The loop of `DelConfig`, which makes missing maps too before it fails.
  unfoldable pub del_path : List String → Table S → Outcome (Table S)
  del_path [] t = done t
  del_path (p ∷ []) t = removed p t (lookup p t)
  del_path (p ∷ q ∷ ps) t = do
    s ← below (lookup p t)
    s' ← del_path (q ∷ ps) s
    done (insert p (table s') t)
