-- ===== src/Limits/Slug.antt =====
-- The name of a service as ui/src/pages/internal/forms/ServiceForm.tsx rewrites it while it is
-- typed, and the pattern of its schema.
use pb_launcher.Prelude.{
  ℕ, Text, [], ◌∷◌, Bool, true, false, not, ◌&&◌, ◌||◌, leb, ◌==◌, map, all, ◌≡◌, ◌≢◌, refl, ap,
  ◌∙◌, if◌then◌else◌, arith,
}

-- `[a-z0-9-]`
abbrev pub is_slug_char : ℕ → Bool
is_slug_char c = (leb b'a' c && leb c b'z') || ((leb b'0' c && leb c b'9') || c == b'-')

-- `.replace(/[^a-z0-9-]/g, "-")`
unfoldable pub dash_others : Text → Text
dash_others t = map (λ c. if is_slug_char c then c else b'-') t

-- `.replace(/-+/g, "-")`; the flag says that a dash was written just before.
unfoldable pub single_dashes : Bool → Text → Text
single_dashes behind [] = []
single_dashes behind (c ∷ t) =
    let rest = single_dashes (c == b'-') t in if behind && (c == b'-') then rest else c ∷ rest

unfoldable pub sanitized : (Text → Text) → Text → Text
sanitized lower t = single_dashes false (dash_others (lower t))

-- `/^[a-z0-9-]+$/`
unfoldable pub matches_name : Text → Bool
matches_name [] = false
matches_name (c ∷ t) = all is_slug_char (c ∷ t)

-- Whether two dashes stand side by side, `behind` a dash or not.
abbrev pub is_spaced : Bool → Text → Bool
is_spaced behind [] = true
is_spaced behind (c ∷ t) = not (behind && (c == b'-')) && is_spaced (c == b'-') t

dashed_slug : (t : Text) → all is_slug_char (dash_others t) ≡ true
unfolding dash_others
dashed_slug [] = refl
dashed_slug (c ∷ t) = ground (arith, dashed_slug t)

single_slug :
    (b : Bool) (t : Text) → all is_slug_char t ≡ true → all is_slug_char (single_dashes b t) ≡ true
unfolding single_dashes
single_slug b [] h = refl
single_slug b (c ∷ t) h = ground (arith, h, single_slug (c == b'-') t)

single_spaced : (b : Bool) (t : Text) → is_spaced b (single_dashes b t) ≡ true
unfolding single_dashes
single_spaced b [] = refl
single_spaced b (c ∷ t) = ground (arith, single_spaced (c == b'-') t)

single_fixed : (b : Bool) (t : Text) → is_spaced b t ≡ true → single_dashes b t ≡ t
unfolding single_dashes
single_fixed b [] h = refl
single_fixed b (c ∷ t) h = ground (arith, h, single_fixed (c == b'-') t)

dashed_fixed : (t : Text) → all is_slug_char t ≡ true → dash_others t ≡ t
unfolding dash_others
dashed_fixed [] h = refl
dashed_fixed (c ∷ t) h = ground (arith, h, dashed_fixed t)

full :
    (t : Text)
    → t ≢ []
    → all is_slug_char (single_dashes false (dash_others t)) ≡ true
    → matches_name (single_dashes false (dash_others t)) ≡ true
unfolding matches_name single_dashes dash_others
full [] h k = absurd (h refl)
full (c ∷ t) h k = k

-- Whatever is typed, the name that the field is left with has no two dashes side by side, matches the
-- pattern of the schema unless the field is empty, and is not rewritten again; `toLowerCase`
-- leaves lower-case letters, digits and dashes as they are.
pub sanitized-matches_name :
    (lower : Text → Text) (t : Text)
    → ((s : Text) → all is_slug_char s ≡ true → lower s ≡ s)
    → (is_spaced false (sanitized lower t) ≡ true)
      × (lower t ≢ [] → matches_name (sanitized lower t) ≡ true)
      × (sanitized lower (sanitized lower t) ≡ sanitized lower t)
unfolding sanitized
sanitized-matches_name lower t keeps =
    let slug = single_slug false (dash_others (lower t)) (dashed_slug (lower t)) in
    let spaced = single_spaced false (dash_others (lower t)) in
    (
      spaced,
      (λ h. full (lower t) h slug),
      ap (λ s. single_dashes false (dash_others s)) (keeps _ slug)
          ∙ ap (single_dashes false) (dashed_fixed _ slug)
          ∙ single_fixed false _ spaced,
    )
