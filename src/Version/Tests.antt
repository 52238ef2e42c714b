-- ===== src/Version/Tests.antt =====
-- Instances of the theorems about `Equal` of core/manifest.go.
use dorothy.Base.{◌≡◌, ◌↔◌, refl, true, [], ◌∷◌}
use dorothy.Version.{Version, path_type_file, same_hash, same_parents, same_elements, equal}
use dorothy.Version.Equality.{Same, equal_iff}

abbrev article : Version
article = record {
  author = "Doug <doug@example.com>";
  date = record { instant = 10; zone = "UTC" };
  message = "an article";
  hash = "hash1";
  path_type = path_type_file;
  parents = "hash0" ∷ [];
}

-- The same instant, shown in another zone.
abbrev moved : Version
moved = record article { date = record { instant = 10; zone = "CET" } }

same_instant : equal article moved ≡ true
unfolding equal same_hash same_parents same_elements
same_instant = refl

back : equal moved article ≡ true
unfolding equal same_hash same_parents same_elements
back = refl

-- Another parent makes no difference, where there is one in its place.
abbrev adopted : Version
adopted = record article { parents = "hash9" ∷ [] }

other_parent : equal article adopted ≡ true
unfolding equal same_hash same_parents same_elements
other_parent = refl

equal_iff_example : (equal article adopted ≡ true) ↔ Same article adopted
equal_iff_example = equal_iff article adopted
