-- ===== src/Manifest/Report.antt =====
-- core/manifest.go and cmd/log.go: the tables that show a conflict and a version. How tabwriter and
-- lipgloss lay them out is left to them; a date is shown by `format_date`.
mod Columns
use dorothy.Base.{String, Bool, List, [], ◌∷◌, ◌&&◌, is_nil, if◌then◌else◌}
use dorothy.Version.{Time, Version}
use dorothy.Outcome.{Conflict}

-- A line of `Conflict.String`: its label, and what both versions have.
pub record Line : Type 0 where
  pub label : String
  pub left : String
  pub right : String

abbrev pub line : String → String → String → Line
line label left right = record { label = label; left = left; right = right }

-- The loop over the parents of both versions, whose label stands in its first line only.
unfoldable pub parent_lines : String → List String → List String → List Line
parent_lines label [] [] = []
parent_lines label (p ∷ ps) [] = line label p "" ∷ parent_lines "" ps []
parent_lines label [] (q ∷ qs) = line label "" q ∷ parent_lines "" [] qs
parent_lines label (p ∷ ps) (q ∷ qs) = line label p q ∷ parent_lines "" ps qs

unfoldable pub parents_shown : List String → List String → List Line
unfolding parent_lines
parents_shown ps qs =
    if is_nil ps && is_nil qs then line "Parents:" "" "" ∷ [] else parent_lines "Parents:" ps qs

-- A line of `printCommit`.
pub record Entry : Type 0 where
  pub label : String
  pub value : String

abbrev pub entry : String → String → Entry
entry label value = record { label = label; value = value }

unfoldable pub log_parents : String → List String → List Entry
log_parents label [] = []
log_parents label (p ∷ ps) = entry label p ∷ log_parents "" ps

module _ (format_date : Time → String) where
  unfoldable pub conflict_lines : Conflict → List Line
  unfolding parents_shown
  conflict_lines c =
      line "" "original" "new"
      ∷ line "Hash:" c.left.hash c.right.hash
      ∷ line "Author:" c.left.author c.right.author
      ∷ line "Date:" (format_date c.left.date) (format_date c.right.date)
      ∷ line "Message:" c.left.message c.right.message
      ∷ line "Type:" c.left.path_type c.right.path_type
      ∷ parents_shown c.left.parents c.right.parents

  unfoldable pub log_entries : Version → Bool → List Entry
  unfolding log_parents
  log_entries v show_parents =
      entry "Hash:" v.hash
      ∷ entry "Author:" v.author
      ∷ entry "Date:" (format_date v.date)
      ∷ entry "Type:" v.path_type
      ∷ (if show_parents then log_parents "Parents:" v.parents else [])
