-- ===== src/Manifest/Samples.antt =====
-- Small manifests, after core/toposort_test.go and core/ipfs_test.go.
use dorothy.Base.{ℕ, String, List, [], ◌∷◌}
use dorothy.Version.{Version, Time, path_type_file}
use dorothy.Sorter.{Sorter}
use dorothy.Sorter.Reference.{reference}
use dorothy.Manifest.{Manifest, Slot}
use dorothy.Manifest.Calls.{Slot-discrete}

abbrev pub sample_sort : Sorter Slot
sample_sort = reference Slot-discrete

abbrev pub at : ℕ → Time
at n = record { instant = n; zone = "UTC" }

abbrev pub version : String → ℕ → List String → Version
version hash date parents = record {
  author = "Doug <doug@example.com>";
  date = at date;
  message = "an article";
  hash = hash;
  path_type = path_type_file;
  parents = parents;
}

abbrev pub manifest : List Version → Manifest
manifest versions = record { versions = versions; hash = "" }

abbrev pub first : Version
first = version "hash1" 10 []

abbrev pub second : Version
second = version "hash2" 11 ("hash1" ∷ [])

abbrev pub third : Version
third = version "hash3" 11 ("hash2" ∷ [])

-- `first` with another message
abbrev pub forged : Version
forged = record first { message = "another article" }
