-- ===== src/Validation.antt =====
-- The rules for the fields of forms, ui/src/utils/validation.ts. A schema is the chain of calls that
-- builds it; what yup does with it is a parameter of Validation/Checked. A regular expression is the
-- test that it makes of a text. `isNaN`, `parseFloat`, the protocol that `new URL` finds in a text,
-- none where it throws, and `String` of a number are parameters.
pub mod Checked
pub mod Phone
pub mod Accepted
pub mod Required
use pb_launcher.Prelude.{
  ℕ, Text, codes, List, [], ◌∷◌, ◌++◌, Bool, true, false, not, ◌&&◌, ◌||◌, Option, none, some, leb,
  text_eq, starts_with, filter, any, all, trim, is_blank, if◌then◌else◌,
}
use pb_launcher.Collections.{or_default}

-- What a field may hold: `other` stands for a number, a Boolean, a date or an object.
pub data Value : Type 0 where
  undefined null : Value
  text : Text → Value
  other : ℕ → Value

-- The calls of a chain.
pub data Rule : Type 0 where
  transform : (Value → Value) → Rule
  test : Text → Text → (Value → Bool) → Rule
  min max : ℕ → Text → Rule
  matches : (Text → Bool) → Text → Rule
  one_of : List Text → Text → Rule
  email positive required type_error : Text → Rule
  trimmed nullable default_null : Rule

pub data Schema : Type 0 where
  string boolean number date : List Rule → Schema

abbrev pub default_required_message : Text
default_required_message = codes "This field is required"

abbrev pub default_positive_number_error : Text
default_positive_number_error = codes "The value must be a positive number"

abbrev pub default_type_number_error : Text
default_type_number_error = codes "The value must be a number"

abbrev pub null_if_empty : Text → Value
null_if_empty [] = null
null_if_empty (c ∷ t) = text (c ∷ t)

unfoldable pub sanitize_string : Value → Value
sanitize_string undefined = null
sanitize_string null = null
sanitize_string (text t) = null_if_empty (trim t)
sanitize_string (other n) = other n

unfoldable pub string_required : Option Text → Schema
string_required message =
    string (transform sanitize_string ∷ required (or_default message default_required_message) ∷ [])

unfoldable pub boolean_required : Option Text → Schema
boolean_required message = boolean (
    transform sanitize_string
    ∷ type_error (codes "The value must be a boolean")
    ∷ required (or_default message default_required_message)
    ∷ [])

-- `if (value == null || value === "") return true; return p(value);`
abbrev pub unless_empty : (Text → Bool) → Value → Bool
unless_empty p (text (c ∷ t)) = p (c ∷ t)
unless_empty p _ = true

abbrev pub is_digit : ℕ → Bool
is_digit c = leb b'0' c && leb c b'9'

abbrev pub is_upper : ℕ → Bool
is_upper c = leb b'A' c && leb c b'Z'

abbrev pub is_lower : ℕ → Bool
is_lower c = leb b'a' c && leb c b'z'

-- /^[0-9]+$/
abbrev pub is_numeric : Text → Bool
is_numeric [] = false
is_numeric (c ∷ t) = all is_digit (c ∷ t)

pub record NumericStringOptions : Type 0 where
  pub min_length : Option ℕ
  pub max_length : Option ℕ

module _ (show : ℕ → Text) where
  abbrev pub min_rule : Option ℕ → List Rule
  min_rule none = []
  min_rule (some n) = min n (codes "Minimum length is " ++ (show n ++ codes " characters")) ∷ []

  abbrev pub max_rule : Option ℕ → List Rule
  max_rule none = []
  max_rule (some n) = max n (codes "Maximum length is " ++ (show n ++ codes " characters")) ∷ []

  unfoldable pub numeric_string : NumericStringOptions → List Rule
  numeric_string options =
      transform sanitize_string
      ∷ test (codes "numeric-only") (codes "Only numeric characters are allowed")
          (unless_empty is_numeric)
      ∷ (min_rule options.min_length ++ max_rule options.max_length)

  unfoldable pub numeric_string_required : NumericStringOptions → Schema
  numeric_string_required options =
      string (numeric_string options ++ required default_required_message ∷ [])

  unfoldable pub numeric_string_nullable : NumericStringOptions → Schema
  numeric_string_nullable options = string (numeric_string options ++ nullable ∷ default_null ∷ [])

abbrev pub string_nullable : Schema
string_nullable = string (transform sanitize_string ∷ nullable ∷ default_null ∷ [])

abbrev pub positive_number_nullable : (Value → Bool) → Schema
positive_number_nullable is_nan = number (
    transform (λ v. if is_nan v then other 0 else v)
    ∷ type_error default_type_number_error
    ∷ min 0 default_positive_number_error
    ∷ nullable
    ∷ default_null
    ∷ [])

abbrev pub positive_number_required : Option Text → Schema
positive_number_required message = number (
    type_error default_type_number_error
    ∷ positive default_positive_number_error
    ∷ required (or_default message default_required_message)
    ∷ [])

abbrev pub default_email_error : Text
default_email_error = codes "Please enter a valid email address"

unfoldable pub email_required : Option Text → Schema
email_required message =
    string
      (email default_email_error ∷ required (or_default message (codes "Email is required")) ∷ [])

-- `is_email` is what `yup.string().email().isValidSync` says.
unfoldable pub email_nullable : (Text → Bool) → Option Text → Schema
email_nullable is_email message = string (
    transform sanitize_string
    ∷ test (codes "valid-email") (or_default message default_email_error) (unless_empty is_email)
    ∷ nullable
    ∷ default_null
    ∷ [])

abbrev pub default_regex_error : Text
default_regex_error = codes "Invalid value format"

unfoldable pub string_nullable_matching : (Text → Bool) → Option Text → Schema
string_nullable_matching pattern_ message = string (
    transform sanitize_string
    ∷ test (codes "match-pattern") (or_default message default_regex_error) (unless_empty pattern_)
    ∷ nullable
    ∷ default_null
    ∷ [])

unfoldable pub string_required_matching : (Text → Bool) → Option Text → Schema
string_required_matching pattern_ message = string (
    transform sanitize_string
    ∷ trimmed
    ∷ test (codes "match-pattern") (or_default message default_regex_error) (unless_empty pattern_)
    ∷ required default_required_message
    ∷ [])

-- `\s?`
abbrev pub skip_blank : Text → Text
skip_blank [] = []
skip_blank (c ∷ s) = if is_blank c then s else c ∷ s

-- `[0-9]{3}`
abbrev pub three_digits : Text → Option Text
three_digits (c ∷ d ∷ e ∷ s) = if is_digit c && (is_digit d && is_digit e) then some s else none
three_digits _ = none

-- `\s?[0-9]{3}`, and once more on what the one before leaves.
abbrev pub group : Text → Option Text
group s = three_digits (skip_blank s)

abbrev pub then_group : Option Text → Option Text
then_group none = none
then_group (some s) = group s

abbrev pub is_end : Option Text → Bool
is_end (some []) = true
is_end _ = false

abbrev pub three_groups : Text → Bool
three_groups s = is_end (then_group (then_group (group s)))

-- /^(?:\+51)\s?[0-9]{3}\s?[0-9]{3}\s?[0-9]{3}$/
unfoldable pub peru_phone_regex : Text → Bool
peru_phone_regex (p ∷ f ∷ o ∷ s) = text_eq (p ∷ f ∷ o ∷ []) (codes "+51") && three_groups s
peru_phone_regex _ = false

abbrev pub without_blanks : Text → Text
without_blanks t = filter (λ c. not (is_blank c)) t

abbrev pub with_prefix : Text → Value
with_prefix [] = null
with_prefix (c ∷ t) =
    if starts_with (c ∷ t) (codes "+") then text (c ∷ t) else text (codes "+51 " ++ (c ∷ t))

unfoldable pub transform_phone_number : Value → Value
transform_phone_number undefined = null
transform_phone_number null = null
transform_phone_number (text t) = with_prefix (without_blanks (trim t))
transform_phone_number (other n) = other n

abbrev pub phone_rules : Option Text → List Rule
phone_rules message =
    transform transform_phone_number
    ∷ test (codes "valid-phone") (or_default message (codes "Please enter a valid phone number"))
        (unless_empty peru_phone_regex)
    ∷ []

unfoldable pub phone_nullable : Option Text → Schema
phone_nullable message = string (phone_rules message ++ nullable ∷ default_null ∷ [])

unfoldable pub phone_required : Option Text → Schema
phone_required message = string (phone_rules message ++ required default_required_message ∷ [])

unfoldable pub password_required : Option Text → Schema
password_required message = string (
    transform sanitize_string
    ∷ min 8 (codes "Password must be at least 8 characters")
    ∷ matches (any is_upper) (codes "Password must contain at least one uppercase letter")
    ∷ matches (any is_lower) (codes "Password must contain at least one lowercase letter")
    ∷ matches (any is_digit) (codes "Password must contain at least one number")
    ∷ required (or_default message (codes "Password is required"))
    ∷ [])

-- `values.join(", ")`
abbrev pub listed : List Text → Text
listed [] = []
listed (v ∷ []) = v
listed (v ∷ w ∷ vs) = v ++ (codes ", " ++ listed (w ∷ vs))

abbrev pub string_enum_required : List Text → Option Text → Schema
string_enum_required values message = string (
    one_of values (codes "Value must be one of: " ++ listed values)
    ∷ required (or_default message default_required_message)
    ∷ [])

abbrev pub date_required : Option Text → Schema
date_required message = date (
    type_error (codes "Invalid date format")
    ∷ required (or_default message (codes "Date is required"))
    ∷ [])

abbrev pub date_nullable : Schema
date_nullable = date (type_error (codes "Invalid date format") ∷ nullable ∷ default_null ∷ [])

-- The transform gets the value that `string()` has cast to a text already.
abbrev pub float_or_null : (Value → Value) → Value → Value
float_or_null parse_float undefined = null
float_or_null parse_float null = null
float_or_null parse_float (text []) = null
float_or_null parse_float v = parse_float v

abbrev pub numeric_string_to_number : (Value → Value) → Schema
numeric_string_to_number parse_float = string (
    transform (float_or_null parse_float)
    ∷ type_error (codes "Must be a valid number")
    ∷ nullable
    ∷ default_null
    ∷ [])

pub record LoginSchema : Type 0 where
  pub email : Schema
  pub password : Schema

abbrev pub login_schema : LoginSchema
login_schema = record { email = email_required none; password = password_required none }

-- The test of the URL fields: the protocol is HTTP or HTTPS.
abbrev pub is_http : Option Text → Bool
is_http none = false
is_http (some p) = text_eq p (codes "http:") || text_eq p (codes "https:")

unfoldable pub url_nullable : (Text → Option Text) → Option Text → Schema
url_nullable protocol_of message = string (
    transform sanitize_string
    ∷ test (codes "valid-url") (or_default message (codes "Invalid URL"))
        (unless_empty (λ t. is_http (protocol_of t)))
    ∷ nullable
    ∷ default_null
    ∷ [])

unfoldable pub url_required : (Text → Option Text) → Option Text → Option Text → Schema
url_required protocol_of message required_message = string (
    transform sanitize_string
    ∷ test (codes "valid-url") (or_default message (codes "Invalid URL"))
        (unless_empty (λ t. is_http (protocol_of t)))
    ∷ required (or_default required_message (codes "URL is required"))
    ∷ [])
