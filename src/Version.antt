-- ===== src/Version.antt =====
-- core/manifest.go: `Version` and its comparisons.
use dorothy.Base.{
  ℕ, String, String-set, Bool, true, false, not, ◌&&◌, List, [], ◌∷◌, ◌++◌, ◌==◌, eqb, ltb, length,
  if◌then◌else◌,
}
pub mod Equality
mod Tests

-- `time.Time`: the instant, counted from an origin before every date, and the location that it is
-- shown in. `Equal` and `Before` read the instant alone.
pub record Time : Type 0 where
  pub instant : ℕ
  pub zone : String

abbrev pub PathType : Type 0
PathType = String

abbrev pub path_type_directory : PathType
path_type_directory = "DIRECTORY"

abbrev pub path_type_file : PathType
path_type_file = "FILE"

pub record Version : Type 0 where
  pub author : String
  pub date : Time
  pub message : String
  pub hash : String
  pub path_type : PathType
  pub parents : List String

-- `PathType.IsValid`
unfoldable pub is_valid : PathType → Bool
is_valid e = if e == path_type_directory then true else e == path_type_file

unfoldable pub same_hash : Version → Version → Bool
same_hash v o = v.hash == o.hash

-- The loop of `SameParents`; the second list is at least as long as the first.
unfoldable pub same_elements : List String → List String → Bool
same_elements [] those = true
same_elements (x ∷ these) [] = false
same_elements (x ∷ these) (y ∷ those) =
    let rest = same_elements these those in if not (x == y) then false else rest

-- The second list is appended to the first, so the loop compares the first list with itself.
unfoldable pub same_parents : Version → Version → Bool
unfolding same_elements
same_parents v o =
    let these = v.parents in
    let those = these ++ o.parents in
    if not (eqb (length v.parents) (length o.parents)) then false else same_elements these those

unfoldable pub equal : Version → Version → Bool
unfolding same_hash same_parents
equal v o =
    same_hash v o
    && v.author == o.author
    && eqb v.date.instant o.date.instant
    && v.message == o.message
    && v.path_type == o.path_type
    && same_parents v o

unfoldable pub less : Version → Version → Bool
unfolding same_hash
less v o = not (same_hash v o) && ltb v.date.instant o.date.instant

pub Version-set : IsSet Version
Version-set = hlevel String-set
