-- ===== src/Validation/Accepted.antt =====
-- What the schemas of ui/src/utils/validation.ts accept of the texts in a field.
use pb_launcher.Prelude.{
  ℕ, ◌≤◌, ◌≡◌, ◌↔◌, refl, Text, List, [], ◌∷◌, Bool, true, Option, length, any, trim, arith,
}
use pb_launcher.Validation.{
  Value, undefined, null, text, other, Schema, null_if_empty, sanitize_string, is_upper, is_lower,
  is_digit, numeric_string_to_number, password_required, phone_required, without_blanks, Rule,
  string, boolean, number, date,
}
use pb_launcher.Validation.Checked.{IsDocumented, IsPresent, HasType, OfText}
use pb_launcher.Validation.Phone.{IsPeruPhone, transform_phone_number-Matched}

abbrev pub rules_of : Schema → List Rule
rules_of (string rules) = rules
rules_of (boolean rules) = rules
rules_of (number rules) = rules
rules_of (date rules) = rules

IsPresent-HasType : (rules : List Rule) (v : Value) → IsPresent v → HasType rules v
IsPresent-HasType rules undefined h = tt
IsPresent-HasType rules null h = absurd h
IsPresent-HasType rules (text t) h = tt
IsPresent-HasType rules (other n) h = absurd h

abbrev pub IsStrong : Text → Type 0
IsStrong t =
    (8 ≤ length t) × ((any is_upper t ≡ true) × ((any is_lower t ≡ true) × (any is_digit t ≡ true)))

module _ (is_email : Text → Bool) where
  module _ (accepts : Schema → Value → Bool) (documented : IsDocumented is_email accepts) where
    -- Where yup does with a field of text what it documents, a required phone is accepted exactly
    -- if it is, blanks aside, nine digits or +51 and nine digits.
    pub phone_required_iff :
        (message : Option Text) (t : Text)
        → (accepts (phone_required message) (text t) ≡ true) ↔ IsPeruPhone (without_blanks t)
    unfolding phone_required
    phone_required_iff message t =
        let rules = rules_of (phone_required message) in
        let matched = transform_phone_number-Matched t in
        (
          λ h. let p = ((documented rules t).0 h).1 in matched.0 (p.1.1.0, p.1.0),
          λ h.
              let m = matched.1 h in
              (documented rules t).1 (IsPresent-HasType rules _ m.0, (tt, (m.1, (m.0, tt)))),
        )

    value-IsStrong :
        (rules : List Rule) (t : Text)
        → (HasType rules (null_if_empty t)
            × (OfText (λ s. 8 ≤ length s) (null_if_empty t)
                × (OfText (λ s. any is_upper s ≡ true) (null_if_empty t)
                    × (OfText (λ s. any is_lower s ≡ true) (null_if_empty t)
                        × (OfText (λ s. any is_digit s ≡ true) (null_if_empty t)
                            × IsPresent (null_if_empty t))))))
          ↔ IsStrong t
    value-IsStrong rules [] = (λ h. absurd h.1.1.1.1.1, λ h. absurd (omega (arith, h.0)))
    value-IsStrong rules (c ∷ t) = (
      λ h. (h.1.0, (h.1.1.0, (h.1.1.1.0, h.1.1.1.1.0))),
      λ h. (tt, (h.0, (h.1.0, (h.1.1.0, (h.1.1.1, tt))))),
    )

    -- Where yup does with a field of text what it documents, a required password is accepted exactly
    -- if without the blanks at its ends it has eight characters, a capital, a small letter and a digit.
    pub password_required_iff :
        (message : Option Text) (t : Text)
        → (accepts (password_required message) (text t) ≡ true) ↔ IsStrong (trim t)
    unfolding password_required sanitize_string
    password_required_iff message t =
        let rules = rules_of (password_required message) in
        let strong = value-IsStrong rules (trim t) in
        (
          λ h.
              let (k, p) = (documented rules t).0 h in
              strong.0 (k, (p.1.0, (p.1.1.0, (p.1.1.1.0, (p.1.1.1.1.0, p.1.1.1.1.1.0))))),
          λ h.
              let m = strong.1 h in
              (documented rules t).1
                (m.0, (tt, (m.1.0, (m.1.1.0, (m.1.1.1.0, (m.1.1.1.1.0, (m.1.1.1.1.1, tt))))))),
        )

    -- Where yup does with a field of text what it documents, and `parseFloat` gives a number, the
    -- schema for a numeric text that is to be a number accepts the empty text only: a number is no
    -- text.
    pub numeric_string_to_number_iff :
        (parse_float : Value → Value) (t : Text)
        → ((v : Value) → (n : ℕ) × (parse_float v ≡ other n))
        → (accepts (numeric_string_to_number parse_float) (text t) ≡ true) ↔ (t ≡ [])
    numeric_string_to_number_iff parse_float [] number_of =
        let rules = rules_of (numeric_string_to_number parse_float) in
        (λ h. refl, λ h. (documented rules []).1 (tt, (tt, (tt, (tt, (tt, tt))))))
    numeric_string_to_number_iff parse_float (c ∷ t) number_of =
        let rules = rules_of (numeric_string_to_number parse_float) in
        let (n, e) = number_of (text (c ∷ t)) in
        (λ h. absurd (rw e at (((documented rules (c ∷ t)).0 h).0)), λ h. cc)
