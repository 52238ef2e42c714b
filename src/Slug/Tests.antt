-- ===== src/Slug/Tests.antt =====
-- Slugs of some names.
use dorothy.Base.{ℕ, ◌≡◌, refl, [], select, ◌↔◌}
use dorothy.Slug.{codes, slugify, is_space}
use dorothy.Slug.Laws.{IsSlug, slugify_fixed_iff}

abbrev as_is : ℕ → ℕ
as_is c = c

spaced : slugify as_is (codes "  My  Data Set ") ≡ codes "my-data-set"
unfolding slugify is_space select
spaced = refl

-- Digits are dropped, and a space that they leave in front becomes a dash.
numbered : slugify as_is (codes "2024 survey") ≡ codes "-survey"
unfolding slugify is_space select
numbered = refl

only_digits : slugify as_is (codes "2024") ≡ []
unfolding slugify is_space select
only_digits = refl

slugify_fixed_iff_example :
    ((slugify as_is (codes "My Data") ≡ codes "My Data") ↔ IsSlug (codes "My Data"))
    × (slugify as_is (slugify as_is (codes "My Data")) ≡ slugify as_is (codes "My Data"))
slugify_fixed_iff_example = slugify_fixed_iff as_is (codes "My Data")
