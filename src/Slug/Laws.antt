-- ===== src/Slug/Laws.antt =====
-- What the slugs of server/model/util.go look like.
use mathlib.Core.List.{map}
use dorothy.Base.{
  ℕ, ◌≡◌, refl, subst, ◌↔◌, Bool, true, false, ◌||◌, List, [], ◌∷◌, select, eqb, arith,
}
use dorothy.Slug.{
  is_space, trim_left, trim_right, is_letter, is_valid_char, is_ascii_space, dashed, to_lower,
  slugify,
}

-- A small letter or a dash.
abbrev pub is_slug_char : ℕ → Bool
is_slug_char c = is_letter c || eqb c b'-'

abbrev pub IsSlug : List ℕ → Type 0
IsSlug [] = Unit
IsSlug (c ∷ s) = (is_slug_char c ≡ true) × IsSlug s

dashed-IsSlug : (within : Bool) (s : List ℕ) → IsSlug (dashed within (select is_valid_char s))
unfolding dashed select
dashed-IsSlug within [] = tt
dashed-IsSlug within (c ∷ s) =
    ground (arith, dashed-IsSlug (is_ascii_space c) s, dashed-IsSlug within s)

trim_left-IsSlug : (s : List ℕ) → IsSlug s → trim_left s ≡ s
unfolding trim_left is_space
trim_left-IsSlug [] h = refl
trim_left-IsSlug (c ∷ s) h = ground arith

trim_right-IsSlug : (s : List ℕ) → IsSlug s → trim_right s ≡ s
unfolding trim_right is_space
trim_right-IsSlug [] h = refl
trim_right-IsSlug (c ∷ s) h = ground (arith, trim_right-IsSlug s)

module _ (wide : ℕ → ℕ) where
  lower-IsSlug : (s : List ℕ) → IsSlug s → map (to_lower wide) s ≡ s
  unfolding to_lower
  lower-IsSlug [] h = refl
  lower-IsSlug (c ∷ s) h = ground (arith, lower-IsSlug s)

  select-IsSlug : (s : List ℕ) → IsSlug s → select is_valid_char s ≡ s
  unfolding select
  select-IsSlug [] h = refl
  select-IsSlug (c ∷ s) h = ground (arith, select-IsSlug s)

  dashed-fixed : (s : List ℕ) → IsSlug s → dashed false s ≡ s
  unfolding dashed
  dashed-fixed [] h = refl
  dashed-fixed (c ∷ s) h = ground (arith, dashed-fixed s)

  -- A slug has small letters and dashes only, whatever the name.
  pub slugify-IsSlug : (name : List ℕ) → IsSlug (slugify wide name)
  unfolding slugify
  slugify-IsSlug name = dashed-IsSlug false (map (to_lower wide) (trim_right (trim_left name)))

  -- A name is its own slug exactly if it has small letters and dashes only; so the slug of a slug is
  -- that slug.
  pub slugify_fixed_iff :
      (name : List ℕ)
      → ((slugify wide name ≡ name) ↔ IsSlug name)
        × (slugify wide (slugify wide name) ≡ slugify wide name)
  unfolding slugify
  slugify_fixed_iff name = (
    (λ e. subst IsSlug e (slugify-IsSlug name), fixed name),
    fixed (slugify wide name) (slugify-IsSlug name),
  )
    where
      fixed : (s : List ℕ) → IsSlug s → slugify wide s ≡ s
      fixed s h =
          rw
            (
              trim_left-IsSlug s h,
              trim_right-IsSlug s h,
              lower-IsSlug s h,
              select-IsSlug s h,
              dashed-fixed s h,
            )
            refl
