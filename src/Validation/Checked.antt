-- ===== src/Validation/Checked.antt =====
-- What yup does with a schema of ui/src/utils/validation.ts, as its documentation says it for a field
-- that holds a text: the transforms run in order, and the value that comes out has to pass each test.
use pb_launcher.Prelude.{◌≤◌, ◌≡◌, ◌↔◌, Text, List, [], ◌∷◌, Bool, true, length, any, text_eq, trim}
use pb_launcher.Validation.{
  Value, undefined, null, text, other, Rule, transform, test, min, max, matches, one_of, email,
  required, trimmed, nullable, Schema, string,
}

abbrev pub trim_value : Value → Value
trim_value undefined = undefined
trim_value null = null
trim_value (text t) = text (trim t)
trim_value (other n) = other n

abbrev pub cast : List Rule → Value → Value
cast [] v = v
cast (transform f ∷ rules) v = cast rules (f v)
cast (trimmed ∷ rules) v = cast rules (trim_value v)
cast (_ ∷ rules) v = cast rules v

-- A test of a text that lets a missing value pass; other values are no texts.
abbrev pub OfText : (Text → Type 0) → Value → Type 0
OfText P undefined = Unit
OfText P null = Unit
OfText P (text t) = P t
OfText P (other n) = ⊥

abbrev pub IsPresent : Value → Type 0
IsPresent (text (c ∷ t)) = Unit
IsPresent _ = ⊥

abbrev pub IsNullable : List Rule → Type 0
IsNullable [] = ⊥
IsNullable (nullable ∷ rules) = Unit
IsNullable (_ ∷ rules) = IsNullable rules

abbrev pub HasType : List Rule → Value → Type 0
HasType rules undefined = Unit
HasType rules null = IsNullable rules
HasType rules (text t) = Unit
HasType rules (other n) = ⊥

module _ (is_email : Text → Bool) where
  abbrev pub EmailOrEmpty : Text → Type 0
  EmailOrEmpty [] = Unit
  EmailOrEmpty (c ∷ t) = is_email (c ∷ t) ≡ true

  abbrev pub Passes : Value → Rule → Type 0
  Passes v (test name message p) = p v ≡ true
  Passes v (min n message) = OfText (λ t. n ≤ length t) v
  Passes v (max n message) = OfText (λ t. length t ≤ n) v
  Passes v (matches p message) = OfText (λ t. p t ≡ true) v
  Passes v (one_of values message) = OfText (λ t. any (text_eq t) values ≡ true) v
  Passes v (email message) = OfText EmailOrEmpty v
  Passes v (required message) = IsPresent v
  Passes v _ = Unit

  abbrev pub PassesAll : Value → List Rule → Type 0
  PassesAll v [] = Unit
  PassesAll v (rule ∷ rules) = Passes v rule × PassesAll v rules

  -- `accepts` is `isValid` of a schema.
  abbrev pub IsDocumented : (Schema → Value → Bool) → Type 0
  IsDocumented accepts =
      (rules : List Rule) (t : Text)
      → (accepts (string rules) (text t) ≡ true)
        ↔ (HasType rules (cast rules (text t)) × PassesAll (cast rules (text t)) rules)
