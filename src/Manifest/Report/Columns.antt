-- ===== src/Manifest/Report/Columns.antt =====
-- What the lines about parents of `Conflict.String`, core/manifest.go, show.
use Prim.Native.Nat.{◌-◌}
use dorothy.Base.{ℕ, zero, suc, String, ◌≡◌, refl, ap, ◌∙◌, List, [], ◌∷◌, ◌++◌, map, length, arith}
use dorothy.Manifest.Report.{Line, parent_lines}

-- Empty cells.
abbrev pub blanks : ℕ → List String
blanks zero = []
blanks (suc n) = "" ∷ blanks n

abbrev pub left_of : Line → String
left_of l = l.left

abbrev pub right_of : Line → String
right_of l = l.right

-- Each column has the parents of its version, in order, and empty cells where the other one has more.
pub parent_lines-columns :
    (label : String) (ps qs : List String)
    → (map left_of (parent_lines label ps qs) ≡ ps ++ blanks (length qs - length ps))
      × (map right_of (parent_lines label ps qs) ≡ qs ++ blanks (length ps - length qs))
unfolding parent_lines
parent_lines-columns label [] [] = (refl, refl)
parent_lines-columns label (p ∷ ps) [] =
    let (left, right) = parent_lines-columns "" ps [] in
    let more : 0 - length ps ≡ 0 - suc (length ps) = omega arith in
    let all : suc (length ps - 0) ≡ suc (length ps) - 0 = omega arith in
    (
      ap (λ (xs : List String). p ∷ xs) (left ∙ ap (λ (n : ℕ). ps ++ blanks n) more),
      ap (λ (xs : List String). "" ∷ xs) right ∙ ap blanks all,
    )
parent_lines-columns label [] (q ∷ qs) =
    let (left, right) = parent_lines-columns "" [] qs in
    let more : 0 - length qs ≡ 0 - suc (length qs) = omega arith in
    let all : suc (length qs - 0) ≡ suc (length qs) - 0 = omega arith in
    (
      ap (λ (xs : List String). "" ∷ xs) left ∙ ap blanks all,
      ap (λ (xs : List String). q ∷ xs) (right ∙ ap (λ (n : ℕ). qs ++ blanks n) more),
    )
parent_lines-columns label (p ∷ ps) (q ∷ qs) =
    let (left, right) = parent_lines-columns "" ps qs in
    let over : length qs - length ps ≡ suc (length qs) - suc (length ps) = omega arith in
    let under : length ps - length qs ≡ suc (length ps) - suc (length qs) = omega arith in
    (
      ap (λ (xs : List String). p ∷ xs) (left ∙ ap (λ (n : ℕ). ps ++ blanks n) over),
      ap (λ (xs : List String). q ∷ xs) (right ∙ ap (λ (n : ℕ). qs ++ blanks n) under),
    )
