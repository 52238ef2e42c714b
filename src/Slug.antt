-- ===== src/Slug.antt =====
-- server/model/util.go: the slug of a name, over the code points of the name.
pub mod Laws
mod Tests
use Prim.Native.Char.{code}
use dorothy.Base.{
  ℕ, ◌+◌, String, Bool, false, ◌&&◌, ◌||◌, List, [], ◌∷◌, map, is_nil, select, leb, ltb, eqb,
  if◌then◌else◌,
}

-- The code points of a text, as `range` reads them. `String` has its own `[]` and `∷`.
abbrev pub codes : String → List ℕ
codes String.[] = []
codes (String.◌∷◌ c s) = code c ∷ codes s

-- `unicode.IsSpace`
unfoldable pub is_space : ℕ → Bool
is_space c =
    (leb 9 c && leb c 13)
    || eqb c 0x20
    || eqb c 0x85
    || eqb c 0xA0
    || eqb c 0x1680
    || (leb 0x2000 c && leb c 0x200A)
    || eqb c 0x2028
    || eqb c 0x2029
    || eqb c 0x202F
    || eqb c 0x205F
    || eqb c 0x3000

-- `strings.TrimSpace`
unfoldable pub trim_left : List ℕ → List ℕ
trim_left [] = []
trim_left (c ∷ s) = if is_space c then trim_left s else c ∷ s

unfoldable pub trim_right : List ℕ → List ℕ
trim_right [] = []
trim_right (c ∷ s) = let rest = trim_right s in if is_space c && is_nil rest then [] else c ∷ rest

abbrev pub is_letter : ℕ → Bool
is_letter c = leb b'a' c && leb c b'z'

-- `[a-z\- ]`, what `invalidChar` does not match
abbrev pub is_valid_char : ℕ → Bool
is_valid_char c = is_letter c || eqb c b'-' || eqb c 0x20

-- `[[:space:]]`
abbrev pub is_ascii_space : ℕ → Bool
is_ascii_space c = (leb 9 c && leb c 13) || eqb c 0x20

-- `spaces.ReplaceAllString(slug, "-")`: one dash for each run. `within` says that a run has begun.
unfoldable pub dashed : Bool → List ℕ → List ℕ
dashed within [] = []
dashed within (c ∷ s) =
    let rest = dashed (is_ascii_space c) s in
    if is_ascii_space c then (if within then rest else b'-' ∷ rest) else c ∷ rest

-- `wide` is `unicode.ToLower` beyond ASCII, whose tables are not part of the repository.
module _ (wide : ℕ → ℕ) where
  unfoldable pub to_lower : ℕ → ℕ
  to_lower c = if leb b'A' c && leb c b'Z' then c + 32 else (if ltb c 128 then c else wide c)

  unfoldable pub slugify : List ℕ → List ℕ
  unfolding trim_left trim_right to_lower dashed
  slugify name = dashed false (select is_valid_char (map to_lower (trim_right (trim_left name))))
