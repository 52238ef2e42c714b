-- ===== src/Config/Tests.antt =====
-- Properties of a small configuration, and instances of the theorems about them.
use dorothy.Base.{◌≡◌, ◌↔◌, String, refl, some, none, [], ◌∷◌}
use dorothy.Outcome.{done}
use dorothy.Config.Tree.{
  Table, Value, table, scalar, end, entry, lookup, insert, set_path, get_path, del_path,
}
use dorothy.Config.Paths.{del_path_iff}

abbrev named : Table String
named = entry "user" (table (entry "name" (scalar "Doug") end)) end

abbrev mailed : Table String
mailed =
    entry "user"
      (table (entry "name" (scalar "Doug") (entry "email" (scalar "doug@example.com") end))) end

setting : set_path ("user" ∷ "email" ∷ []) (scalar "doug@example.com") named ≡ done mailed
unfolding set_path lookup insert
setting = refl

del_path_iff_example :
    ((t' : Table String) × (del_path ("user" ∷ "name" ∷ []) named ≡ done t')
      × (get_path ("user" ∷ "name" ∷ []) t' ≡ none))
    ↔ ((v : Value String) × (get_path ("user" ∷ "name" ∷ []) named ≡ some v))
del_path_iff_example = del_path_iff "user" ("name" ∷ []) named
