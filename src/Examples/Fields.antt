-- ===== src/Examples/Fields.antt =====
-- The rules for fields at concrete texts, with a validator that does what is documented.
use pb_launcher.Prelude.{
  ℕ, ◌≤◌, ◌≡◌, ◌≢◌, ◌↔◌, refl, Text, codes, List, [], ◌∷◌, Bool, true, false, ◌&&◌, none, leb,
  leb→le, length, any, text_eq, arith, trim, trim_start, is_blank, and_true,
}
use pb_launcher.Validation.{
  Value, undefined, null, text, other, Rule, transform, test, min, max, matches, one_of, email,
  positive, required, type_error, trimmed, nullable, default_null, Schema, string, boolean, number,
  date, without_blanks, phone_required, string_required_matching, is_numeric, sanitize_string,
}
use pb_launcher.Validation.Checked.{
  cast, OfText, IsPresent, IsNullable, HasType, Passes, PassesAll, IsDocumented, EmailOrEmpty,
}
use pb_launcher.Validation.Phone.{IsPeruPhone}
use pb_launcher.Validation.Accepted.{rules_of, phone_required_iff}
use pb_launcher.Validation.Required.{matching, schema_of, schema_of-Meets}

-- A simple test of an address.
abbrev has_at : Text → Bool
has_at t = any (text_eq (codes "@")) (t ∷ [])

abbrev of_text : (Text → Bool) → Value → Bool
of_text p undefined = true
of_text p null = true
of_text p (text t) = p t
of_text p (other n) = false

abbrev email_or_empty : Text → Bool
email_or_empty [] = true
email_or_empty (c ∷ t) = has_at (c ∷ t)

abbrev is_present : Value → Bool
is_present (text (c ∷ t)) = true
is_present (text []) = false
is_present undefined = false
is_present null = false
is_present (other n) = false

abbrev is_nullable : List Rule → Bool
is_nullable [] = false
is_nullable (nullable ∷ rules) = true
is_nullable (transform f ∷ rules) = is_nullable rules
is_nullable (test a b p ∷ rules) = is_nullable rules
is_nullable (min n k ∷ rules) = is_nullable rules
is_nullable (max n k ∷ rules) = is_nullable rules
is_nullable (matches p k ∷ rules) = is_nullable rules
is_nullable (one_of v k ∷ rules) = is_nullable rules
is_nullable (email k ∷ rules) = is_nullable rules
is_nullable (positive k ∷ rules) = is_nullable rules
is_nullable (required k ∷ rules) = is_nullable rules
is_nullable (type_error k ∷ rules) = is_nullable rules
is_nullable (trimmed ∷ rules) = is_nullable rules
is_nullable (default_null ∷ rules) = is_nullable rules

abbrev has_type : List Rule → Value → Bool
has_type rules undefined = true
has_type rules null = is_nullable rules
has_type rules (text t) = true
has_type rules (other n) = false

abbrev passes : Value → Rule → Bool
passes v (test a b p) = p v
passes v (min n k) = of_text (λ t. leb n (length t)) v
passes v (max n k) = of_text (λ t. leb (length t) n) v
passes v (matches p k) = of_text p v
passes v (one_of values k) = of_text (λ t. any (text_eq t) values) v
passes v (email k) = of_text email_or_empty v
passes v (required k) = is_present v
passes v (transform f) = true
passes v (positive k) = true
passes v (type_error k) = true
passes v trimmed = true
passes v nullable = true
passes v default_null = true

abbrev passes_all : Value → List Rule → Bool
passes_all v [] = true
passes_all v (rule ∷ rules) = passes v rule && passes_all v rules

abbrev accepts : Schema → Value → Bool
accepts (string rules) v = has_type rules (cast rules v) && passes_all (cast rules v) rules
accepts (boolean rules) v = false
accepts (number rules) v = false
accepts (date rules) v = false

of_text_iff :
    (p : Text → Bool) (P : Text → Type 0) (v : Value)
    → ((t : Text) → (p t ≡ true) ↔ P t)
    → (of_text p v ≡ true) ↔ OfText P v
of_text_iff p P undefined h = (λ e. tt, λ e. refl)
of_text_iff p P null h = (λ e. tt, λ e. refl)
of_text_iff p P (text t) h = h t
of_text_iff p P (other n) h = (λ e. cc, λ e. absurd e)

is_present_iff : (v : Value) → (is_present v ≡ true) ↔ IsPresent v
is_present_iff undefined = (λ e. cc, λ e. absurd e)
is_present_iff null = (λ e. cc, λ e. absurd e)
is_present_iff (text []) = (λ e. cc, λ e. absurd e)
is_present_iff (text (c ∷ t)) = (λ e. tt, λ e. refl)
is_present_iff (other n) = (λ e. cc, λ e. absurd e)

email_iff : (t : Text) → (email_or_empty t ≡ true) ↔ EmailOrEmpty has_at t
email_iff [] = (λ e. tt, λ e. refl)
email_iff (c ∷ t) = (λ e. e, λ e. e)

leb_iff : (a b : ℕ) → (leb a b ≡ true) ↔ (a ≤ b)
leb_iff a b = (leb→le a b, λ h. ground arith)

passes_iff : (v : Value) (rule : Rule) → (passes v rule ≡ true) ↔ Passes has_at v rule
passes_iff v (test a b p) = (λ e. e, λ e. e)
passes_iff v (min n k) = of_text_iff _ _ v (λ t. leb_iff n (length t))
passes_iff v (max n k) = of_text_iff _ _ v (λ t. leb_iff (length t) n)
passes_iff v (matches p k) = of_text_iff _ _ v (λ t. (λ e. e, λ e. e))
passes_iff v (one_of values k) = of_text_iff _ _ v (λ t. (λ e. e, λ e. e))
passes_iff v (email k) = of_text_iff _ _ v email_iff
passes_iff v (required k) = is_present_iff v
passes_iff v (transform f) = (λ e. tt, λ e. refl)
passes_iff v (positive k) = (λ e. tt, λ e. refl)
passes_iff v (type_error k) = (λ e. tt, λ e. refl)
passes_iff v trimmed = (λ e. tt, λ e. refl)
passes_iff v nullable = (λ e. tt, λ e. refl)
passes_iff v default_null = (λ e. tt, λ e. refl)

passes_all_iff :
    (v : Value) (rules : List Rule) → (passes_all v rules ≡ true) ↔ PassesAll has_at v rules
passes_all_iff v [] = (λ e. tt, λ e. refl)
passes_all_iff v (rule ∷ rules) = (
  λ e. let (a, b) = and_true _ _ e in ((passes_iff v rule).0 a, (passes_all_iff v rules).0 b),
  λ e. rw ((passes_iff v rule).1 e.0, (passes_all_iff v rules).1 e.1) refl,
)

is_nullable_iff : (rules : List Rule) → (is_nullable rules ≡ true) ↔ IsNullable rules
is_nullable_iff [] = (λ e. cc, λ e. absurd e)
is_nullable_iff (nullable ∷ rules) = (λ e. tt, λ e. refl)
is_nullable_iff (transform f ∷ rules) = is_nullable_iff rules
is_nullable_iff (test a b p ∷ rules) = is_nullable_iff rules
is_nullable_iff (min n k ∷ rules) = is_nullable_iff rules
is_nullable_iff (max n k ∷ rules) = is_nullable_iff rules
is_nullable_iff (matches p k ∷ rules) = is_nullable_iff rules
is_nullable_iff (one_of v k ∷ rules) = is_nullable_iff rules
is_nullable_iff (email k ∷ rules) = is_nullable_iff rules
is_nullable_iff (positive k ∷ rules) = is_nullable_iff rules
is_nullable_iff (required k ∷ rules) = is_nullable_iff rules
is_nullable_iff (type_error k ∷ rules) = is_nullable_iff rules
is_nullable_iff (trimmed ∷ rules) = is_nullable_iff rules
is_nullable_iff (default_null ∷ rules) = is_nullable_iff rules

has_type_iff : (rules : List Rule) (v : Value) → (has_type rules v ≡ true) ↔ HasType rules v
has_type_iff rules undefined = (λ e. tt, λ e. refl)
has_type_iff rules null = is_nullable_iff rules
has_type_iff rules (text t) = (λ e. tt, λ e. refl)
has_type_iff rules (other n) = (λ e. cc, λ e. absurd e)

accepts-IsDocumented : IsDocumented has_at accepts
accepts-IsDocumented rules t =
    let v = cast rules (text t) in
    (
      λ e.
          let (a, b) = and_true _ _ e in ((has_type_iff rules v).0 a, (passes_all_iff v rules).0 b),
      λ e. rw ((has_type_iff rules v).1 e.0, (passes_all_iff v rules).1 e.1) refl,
    )

phone_required_iff_example :
    (accepts (phone_required none) (text (codes "+51 987654321")) ≡ true)
    ↔ IsPeruPhone (without_blanks (codes "+51 987654321"))
phone_required_iff_example =
    phone_required_iff has_at accepts accepts-IsDocumented none (codes "+51 987654321")

schema_of-Meets_example :
    (cast (rules_of (schema_of (matching is_numeric none))) (text (codes " 7 ")) ≡ text (codes "7"))
    × ((codes "7" ≢ []) × (is_numeric (codes "7") ≡ true))
unfolding string_required_matching sanitize_string trim trim_start is_blank
schema_of-Meets_example =
    schema_of-Meets has_at accepts accepts-IsDocumented (matching is_numeric none) (codes " 7 ")
      refl

abbrev to_float : Value → Value
to_float v = other 12
