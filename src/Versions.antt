-- ===== src/Versions.antt =====
-- The versions that a form offers: `compareVersions` and `releaseOptions` of
-- ui/src/pages/internal/forms/ChangeVersionForm.tsx and ServiceForm.tsx.
-- `Number` of a part is its value in decimal digits, 0 for the empty part, and `none` for NaN, which
-- every other text is read as: a part with a sign, an exponent, a prefix such as 0x or a space, which
-- `Number` takes too, is not modelled.
pub mod Compare
pub mod Sorted
pub mod Offered
use pb_launcher.Prelude.{
  ℕ, zero, suc, ◌+◌, ◌-◌, ◌*◌, Text, codes, List, [], ◌∷◌, ◌++◌, Bool, true, false, ◌&&◌, not,
  Option, none, some, leb, text_eq, any, filter, map, split, if◌then◌else◌,
}
use pb_launcher.Prelude.Int.{ℤ, pos, negsuc, ◌-ℤ◌, leb_ℤ, ltb_ℤ}
use pb_launcher.Collections.Writes.{ReleaseOption}

abbrev pub is_digit : ℕ → Bool
is_digit c = leb b'0' c && leb c b'9'

unfoldable pub digits_from : ℕ → Text → Option ℕ
digits_from n [] = some n
digits_from n (c ∷ s) =
    let rest = digits_from (n * 10 + (c - b'0')) s in if is_digit c then rest else none

-- `Number(part)`
abbrev pub number_of : Text → Option ℕ
number_of s = digits_from 0 s

-- `left - right`, NaN if either is.
abbrev pub difference : Option ℕ → Option ℕ → Option ℤ
difference none y = none
difference (some x) none = none
difference (some x) (some y) = some (pos x -ℤ pos y)

-- `if (diff !== 0) return diff`, and otherwise the rest of the loop: NaN is not 0.
abbrev pub first_difference : Option ℤ → Option ℤ → Option ℤ
first_difference none rest = none
first_difference (some (pos zero)) rest = rest
first_difference (some (pos (suc n))) rest = some (pos (suc n))
first_difference (some (negsuc n)) rest = some (negsuc n)

-- The loop up to the longer length: a part that is missing counts as 0.
unfoldable pub compare_parts : List (Option ℕ) → List (Option ℕ) → Option ℤ
compare_parts [] [] = some (pos 0)
compare_parts (x ∷ xs) [] = first_difference (difference x (some 0)) (compare_parts xs [])
compare_parts [] (y ∷ ys) = first_difference (difference (some 0) y) (compare_parts [] ys)
compare_parts (x ∷ xs) (y ∷ ys) = first_difference (difference x y) (compare_parts xs ys)

abbrev pub parts_of : Text → List (Option ℕ)
parts_of v = map number_of (split v b'.')

unfoldable pub compare_versions : Text → Text → Option ℤ
compare_versions a b = compare_parts (parts_of a) (parts_of b)

pub record SelectOption : Type 0 where
  pub label : Text
  pub value : Text

-- `diff > 0`, which NaN is not.
abbrev pub is_positive : Option ℤ → Bool
is_positive none = false
is_positive (some d) = ltb_ℤ (pos 0) d

abbrev pub tag_of : Option ℤ → Text
tag_of diff = if is_positive diff then codes "↑ upgrade" else codes "↓ downgrade"

-- What the forms read of the service.
pub record Installed : Type 0 where
  pub repository_id : Text
  pub release_id : Text
  pub release_version : Text

-- A comparator's result of NaN counts as 0, and the sort is stable.
abbrev pub goes_first : ReleaseOption → ReleaseOption → Bool
goes_first a b = not (is_positive (compare_versions b.version a.version))

unfoldable pub insert_release : ReleaseOption → List ReleaseOption → List ReleaseOption
insert_release r [] = r ∷ []
insert_release r (m ∷ ms) = if goes_first r m then r ∷ m ∷ ms else m ∷ insert_release r ms

unfoldable pub sort_releases : List ReleaseOption → List ReleaseOption
sort_releases [] = []
sort_releases (r ∷ rs) = insert_release r (sort_releases rs)

-- `releaseOptions` of ChangeVersionForm.tsx.
abbrev pub is_candidate : Installed → ReleaseOption → Bool
is_candidate service r =
    text_eq r.repository_id service.repository_id && not (text_eq r.id service.release_id)

abbrev pub change_option : Installed → ReleaseOption → SelectOption
change_option service r = record {
  label =
      r.repository_name
      ++ (codes " v"
          ++ (r.version
              ++ (codes "  ("
                  ++ (tag_of (compare_versions r.version service.release_version) ++ codes ")"))));
  value = r.id;
}

unfoldable pub change_candidates : Installed → List ReleaseOption → List ReleaseOption
change_candidates service releases = sort_releases (filter (is_candidate service) releases)

unfoldable pub change_options : Installed → List ReleaseOption → List SelectOption
change_options service releases = map (change_option service) (change_candidates service releases)

-- `releaseOptions` of ServiceForm.tsx.
abbrev pub current_option : Text → Text → SelectOption
current_option version id = record {
  label = codes "v" ++ (version ++ codes "  (actual)");
  value = id;
}

abbrev pub new_option : ReleaseOption → SelectOption
new_option r = record { label = codes "v" ++ r.version; value = r.id }

abbrev pub form_option : Installed → ReleaseOption → SelectOption
form_option service r =
    if text_eq r.id service.release_id then current_option r.version r.id else record {
      label =
          codes "v"
          ++ (r.version
              ++ (codes "  ("
                  ++ (tag_of (compare_versions r.version service.release_version) ++ codes ")")));
      value = r.id;
    }

unfoldable pub form_options : Option Installed → List ReleaseOption → List SelectOption
form_options none releases = map new_option releases
form_options (some service) releases =
    (if any (λ r. text_eq r.id service.release_id) releases
      then []
      else current_option service.release_version service.release_id ∷ [])
    ++ map (form_option service) releases
