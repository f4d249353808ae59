-- ===== src/Validation/Required.antt =====
-- What a required field of text that is checked as it is typed, a phone aside, comes to.
use mathlib.Core.Path.{subst}
use pb_launcher.Prelude.{
  ℕ, ◌≡◌, ◌≢◌, refl, sym, ap, ◌∙◌, Text, List, [], ◌∷◌, ◌++◌, Bool, true, Option, none, some, all,
  trim, trim_again,
}
use pb_launcher.Validation.{
  Value, text, Schema, null_if_empty, sanitize_string, is_digit, string_required, password_required,
  string_required_matching, url_required, is_http, Rule, string, transform, test, min, max, matches,
  one_of, email, positive, required, type_error, trimmed, nullable, default_null, numeric_string,
  min_rule, max_rule, numeric_string_required, NumericStringOptions, default_required_message,
}
use pb_launcher.Validation.Checked.{IsDocumented, IsPresent, cast, trim_value, PassesAll}
use pb_launcher.Validation.Accepted.{rules_of, IsStrong, password_required_iff}

-- The fields of text that are required and trimmed, with what each is checked for.
pub data Field : Type 0 where
  plain : Option Text → Field
  numeric : (ℕ → Text) → NumericStringOptions → Field
  matching : (Text → Bool) → Option Text → Field
  password : Option Text → Field
  url : (Text → Option Text) → Option Text → Option Text → Field

abbrev pub schema_of : Field → Schema
schema_of (plain m) = string_required m
schema_of (numeric show options) = numeric_string_required show options
schema_of (matching p m) = string_required_matching p m
schema_of (password m) = password_required m
schema_of (url protocol_of m r) = url_required protocol_of m r

-- What a text has to be, besides not empty.
abbrev pub Meets : Field → Text → Type 0
Meets (plain m) t = Unit
Meets (numeric show options) t = all is_digit t ≡ true
Meets (matching p m) t = p t ≡ true
Meets (password m) t = IsStrong t
Meets (url protocol_of m r) t = is_http (protocol_of t) ≡ true

abbrev IsRequired : List Rule → Type 0
IsRequired [] = ⊥
IsRequired (required m ∷ rules) = Unit
IsRequired (_ ∷ rules) = IsRequired rules

IsRequired-append : (rules : List Rule) (m : Text) → IsRequired (rules ++ required m ∷ [])
IsRequired-append [] m = tt
IsRequired-append (required k ∷ rules) m = tt
IsRequired-append (transform f ∷ rules) m = IsRequired-append rules m
IsRequired-append (test a b p ∷ rules) m = IsRequired-append rules m
IsRequired-append (min n k ∷ rules) m = IsRequired-append rules m
IsRequired-append (max n k ∷ rules) m = IsRequired-append rules m
IsRequired-append (matches p k ∷ rules) m = IsRequired-append rules m
IsRequired-append (one_of v k ∷ rules) m = IsRequired-append rules m
IsRequired-append (email k ∷ rules) m = IsRequired-append rules m
IsRequired-append (positive k ∷ rules) m = IsRequired-append rules m
IsRequired-append (type_error k ∷ rules) m = IsRequired-append rules m
IsRequired-append (trimmed ∷ rules) m = IsRequired-append rules m
IsRequired-append (nullable ∷ rules) m = IsRequired-append rules m
IsRequired-append (default_null ∷ rules) m = IsRequired-append rules m

schema_of-IsRequired : (f : Field) → IsRequired (rules_of (schema_of f))
unfolding string_required numeric_string_required string_required_matching password_required
    url_required
schema_of-IsRequired (plain m) = tt
schema_of-IsRequired (numeric show options) =
    IsRequired-append (numeric_string show options) default_required_message
schema_of-IsRequired (matching p m) = tt
schema_of-IsRequired (password m) = tt
schema_of-IsRequired (url protocol_of m r) = tt

cast-bounds :
    (show : ℕ → Text) (o : NumericStringOptions) (m : Text) (v : Value)
    → cast ((min_rule show o.min_length ++ max_rule show o.max_length) ++ required m ∷ []) v ≡ v
cast-bounds show o m v = go o.min_length o.max_length
  where
    go : (a b : Option ℕ) → cast ((min_rule show a ++ max_rule show b) ++ required m ∷ []) v ≡ v
    go none none = refl
    go none (some n) = refl
    go (some k) none = refl
    go (some k) (some n) = refl

trim_value-null_if_empty : (u : Text) → trim u ≡ u → trim_value (null_if_empty u) ≡ null_if_empty u
trim_value-null_if_empty [] h = refl
trim_value-null_if_empty (c ∷ u) h = ap text h

-- Each of them trims its text, and takes an empty one for a missing one.
cast-trim : (f : Field) (t : Text) → cast (rules_of (schema_of f)) (text t) ≡ null_if_empty (trim t)
unfolding string_required numeric_string_required string_required_matching password_required
    url_required numeric_string sanitize_string
cast-trim (plain m) t = refl
cast-trim (numeric show options) t =
    cast-bounds show options default_required_message (null_if_empty (trim t))
cast-trim (matching p m) t = trim_value-null_if_empty (trim t) (trim_again t)
cast-trim (password m) t = refl
cast-trim (url protocol_of m r) t = refl

filled : (u : Text) → IsPresent (null_if_empty u) → (u ≢ []) × (null_if_empty u ≡ text u)
filled [] h = absurd h
filled (c ∷ u) h = (λ e. cc, refl)

module _ (is_email : Text → Bool) where
  passes_required :
      (v : Value) (rules : List Rule) → IsRequired rules → PassesAll is_email v rules → IsPresent v
  passes_required v [] r h = absurd r
  passes_required v (required k ∷ rules) r h = h.0
  passes_required v (transform f ∷ rules) r h = passes_required v rules r h.1
  passes_required v (test a b p ∷ rules) r h = passes_required v rules r h.1
  passes_required v (min n k ∷ rules) r h = passes_required v rules r h.1
  passes_required v (max n k ∷ rules) r h = passes_required v rules r h.1
  passes_required v (matches p k ∷ rules) r h = passes_required v rules r h.1
  passes_required v (one_of vs k ∷ rules) r h = passes_required v rules r h.1
  passes_required v (email k ∷ rules) r h = passes_required v rules r h.1
  passes_required v (positive k ∷ rules) r h = passes_required v rules r h.1
  passes_required v (type_error k ∷ rules) r h = passes_required v rules r h.1
  passes_required v (trimmed ∷ rules) r h = passes_required v rules r h.1
  passes_required v (nullable ∷ rules) r h = passes_required v rules r h.1
  passes_required v (default_null ∷ rules) r h = passes_required v rules r h.1

  module _ (accepts : Schema → Value → Bool) (documented : IsDocumented is_email accepts) where
    passed :
        (f : Field) (t : Text)
        → accepts (string (rules_of (schema_of f))) (text t) ≡ true
        → PassesAll is_email (null_if_empty (trim t)) (rules_of (schema_of f))
    passed f t h =
        subst (λ v. PassesAll is_email v (rules_of (schema_of f))) (cast-trim f t)
          ((documented (rules_of (schema_of f)) t).0 h).1

    passed-Meets :
        (f : Field) (t u : Text)
        → accepts (string (rules_of (schema_of f))) (text t) ≡ true
        → u ≡ trim t
        → PassesAll is_email (null_if_empty u) (rules_of (schema_of f))
        → u ≢ []
        → Meets f u
    unfolding string_required numeric_string_required string_required_matching url_required
        numeric_string
    passed-Meets f t [] a e h ne = absurd (ne refl)
    passed-Meets (plain m) t (c ∷ u) a e h ne = tt
    passed-Meets (numeric show options) t (c ∷ u) a e h ne = h.1.0
    passed-Meets (matching p m) t (c ∷ u) a e h ne = h.1.1.0
    passed-Meets (password m) t (c ∷ u) a e h ne =
        subst IsStrong (sym e) (
          (password_required_iff is_email accepts documented m t).0 (unfold password_required in a))
    passed-Meets (url protocol_of m r) t (c ∷ u) a e h ne = h.1.0

    -- Where yup does with a field of text what it documents, a text that one of these schemas
    -- accepts, `stringRequired`, `numericStringRequired`, `stringRequiredMatching`,
    -- `passwordRequired` and `urlRequired`, is cast to itself without the blanks at its ends, which
    -- is not empty, and which has digits only, matches the pattern, is a strong password or has the
    -- protocol HTTP or HTTPS, as the schema asks.
    pub schema_of-Meets :
        (f : Field) (t : Text)
        → accepts (string (rules_of (schema_of f))) (text t) ≡ true
        → (cast (rules_of (schema_of f)) (text t) ≡ text (trim t))
          × ((trim t ≢ []) × Meets f (trim t))
    schema_of-Meets f t h =
        let p = passed f t h in
        let (ne, e) = filled (trim t) (passes_required _ _ (schema_of-IsRequired f) p) in
        (cast-trim f t ∙ e, (ne, passed-Meets f t (trim t) h refl p ne))
