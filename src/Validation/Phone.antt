-- ===== src/Validation/Phone.antt =====
-- The phone numbers that the regular expression of ui/src/utils/validation.ts matches.
use pb_launcher.Prelude.{
  ℕ, ◌+◌, ◌≡◌, ◌↔◌, refl, sym, ap, ◌∙◌, Text, codes, [], ◌∷◌, ◌++◌, append-nil, Bool, true, false,
  not, ◌&&◌, Option, none, some, ◌==◌, length, all, All, reverse, trim, trim_start, is_blank,
  Bool-cases, inl, inr, ◌⊎◌, arith, if◌then◌else◌,
}
use mathlib.Core.List.{reverse-cons, reverse-reverse}
use pb_launcher.Validation.Checked.{IsPresent}
use pb_launcher.Validation.{
  unless_empty, is_digit, skip_blank, three_digits, group, then_group, is_end, three_groups,
  peru_phone_regex, without_blanks, with_prefix, transform_phone_number, Value, text,
}

abbrev NoBlanks : Text → Type 0
NoBlanks s = All (λ c. is_blank c ≡ false) s

abbrev pub digits_exactly : ℕ → Text → Bool
digits_exactly n s = length s == n && all is_digit s

abbrev on_rest : ℕ → Option Text → Bool
on_rest n none = false
on_rest n (some r) = digits_exactly n r

skip_blank_lem : (s : Text) → NoBlanks s → skip_blank s ≡ s
skip_blank_lem [] h = refl
skip_blank_lem (c ∷ s) h = rw h.0 refl

three_digits_lem : (n : ℕ) (s : Text) → digits_exactly (n + 3) s ≡ on_rest n (three_digits s)
three_digits_lem n [] = ground arith
three_digits_lem n (c ∷ []) = ground arith
three_digits_lem n (c ∷ d ∷ []) = ground arith
three_digits_lem n (c ∷ d ∷ e ∷ s) = ground arith

same_rest : (b : Bool) (s r : Text) → (if b then some s else none) ≡ some r → s ≡ r
same_rest b s r e = ground (arith, e)

three_digits-NoBlanks : (s r : Text) → NoBlanks s → three_digits s ≡ some r → NoBlanks r
three_digits-NoBlanks [] r h e = cc
three_digits-NoBlanks (c ∷ []) r h e = cc
three_digits-NoBlanks (c ∷ d ∷ []) r h e = cc
three_digits-NoBlanks (c ∷ d ∷ f ∷ s) r h e =
    rw (← same_rest (is_digit c && (is_digit d && is_digit f)) s r e) h.1.1.1

group_lem : (n : ℕ) (s : Text) → NoBlanks s → digits_exactly (n + 3) s ≡ on_rest n (group s)
group_lem n s h = rw (skip_blank_lem s h) (three_digits_lem n s)

group-NoBlanks : (s r : Text) → NoBlanks s → group s ≡ some r → NoBlanks r
group-NoBlanks s r h e = three_digits-NoBlanks s r h (rw (skip_blank_lem s h) at e)

then_group_lem :
    (n : ℕ) (o : Option Text)
    → ((r : Text) → o ≡ some r → NoBlanks r)
    → on_rest (n + 3) o ≡ on_rest n (then_group o)
then_group_lem n none h = refl
then_group_lem n (some s) h = group_lem n s (h s refl)

then_group-NoBlanks :
    (o : Option Text)
    → ((r : Text) → o ≡ some r → NoBlanks r)
    → (r : Text) → then_group o ≡ some r
    → NoBlanks r
then_group-NoBlanks none h r e = cc
then_group-NoBlanks (some s) h r e = group-NoBlanks s r (h s refl) e

is_end_lem : (o : Option Text) → is_end o ≡ on_rest 0 o
is_end_lem none = refl
is_end_lem (some []) = refl
is_end_lem (some (c ∷ s)) = ground arith

-- Without blanks, the three groups are nine digits.
three_groups_lem : (s : Text) → NoBlanks s → three_groups s ≡ digits_exactly 9 s
three_groups_lem s h =
    let first = group-NoBlanks s in
    let one = λ (r : Text) (e : group s ≡ some r). group-NoBlanks s r h e in
    is_end_lem (then_group (then_group (group s)))
    ∙ sym (then_group_lem 0 (then_group (group s)) (then_group-NoBlanks (group s) one))
    ∙ sym (then_group_lem 3 (group s) one)
    ∙ sym (group_lem 6 s h)

-- The number is given with the prefix of the country or as the nine digits alone.
abbrev pub IsPeruPhone : Text → Type 0
IsPeruPhone s =
    (digits_exactly 9 s ≡ true)
    ⊎ ((r : Text) × ((s ≡ codes "+51" ++ r) × (digits_exactly 9 r ≡ true)))

without_blanks-NoBlanks : (t : Text) → NoBlanks (without_blanks t)
without_blanks-NoBlanks [] = tt
without_blanks-NoBlanks (c ∷ t) = elim (Bool-cases (is_blank c)) [
  | inl e ↦ rw e (without_blanks-NoBlanks t)
  | inr e ↦ rw e (e, without_blanks-NoBlanks t)
]

without_blanks-append :
    (s t : Text) → without_blanks (s ++ t) ≡ without_blanks s ++ without_blanks t
without_blanks-append [] t = refl
without_blanks-append (c ∷ s) t = elim (Bool-cases (is_blank c)) [
  | inl e ↦ rw e (without_blanks-append s t)
  | inr e ↦ rw e (ap (◌∷◌ c) (without_blanks-append s t))
]

without_blanks-reverse : (s : Text) → without_blanks (reverse s) ≡ reverse (without_blanks s)
without_blanks-reverse [] = refl
without_blanks-reverse (c ∷ s) =
    rw (reverse-cons, without_blanks-append, without_blanks-reverse s)
      (last_blank c (without_blanks s))
  where
    last_blank :
        (c : ℕ) (s : Text)
        → reverse s ++ without_blanks (c ∷ []) ≡ reverse (if not (is_blank c) then c ∷ s else s)
    last_blank c s = elim (Bool-cases (is_blank c)) [
      | inl e ↦ rw e (append-nil (reverse s))
      | inr e ↦ rw e (sym (reverse-cons c s))
    ]

without_blanks-trim_start : (s : Text) → without_blanks (trim_start s) ≡ without_blanks s
unfolding trim_start
without_blanks-trim_start [] = refl
without_blanks-trim_start (c ∷ s) = elim (Bool-cases (is_blank c)) [
  | inl e ↦ rw e (without_blanks-trim_start s)
  | inr e ↦ rw e (rw e refl)
]

-- To trim first is of no effect.
without_blanks-trim : (s : Text) → without_blanks (trim s) ≡ without_blanks s
unfolding trim
without_blanks-trim s =
    without_blanks-reverse (trim_start (reverse (trim_start s)))
    ∙ ap reverse (
        without_blanks-trim_start (reverse (trim_start s))
        ∙ (without_blanks-reverse (trim_start s) ∙ ap reverse (without_blanks-trim_start s)))
    ∙ reverse-reverse (without_blanks s)

-- The blank that the transform writes behind the prefix is skipped.
spaced : (s : Text) → NoBlanks s → three_groups (b' ' ∷ s) ≡ three_groups s
unfolding is_blank
spaced s h = ap (λ u. is_end (then_group (then_group (three_digits u)))) (sym (skip_blank_lem s h))

regex_prefixed : (s : Text) → NoBlanks s → peru_phone_regex (codes "+51 " ++ s) ≡ digits_exactly 9 s
unfolding peru_phone_regex
regex_prefixed s h = spaced s h ∙ three_groups_lem s h

regex_plain :
    (s : Text)
    → NoBlanks s
    → (peru_phone_regex s ≡ true)
      ↔ ((r : Text) × ((s ≡ codes "+51" ++ r) × (digits_exactly 9 r ≡ true)))
unfolding peru_phone_regex
regex_plain [] n = (λ h. cc, λ h. cc h.1.0)
regex_plain (c ∷ []) n = (λ h. cc, λ h. cc h.1.0)
regex_plain (c ∷ d ∷ []) n = (λ h. cc, λ h. cc h.1.0)
regex_plain (c ∷ d ∷ e ∷ s) n =
    let nine = three_groups_lem s n.1.1.1 in
    (λ h. (s, (ground arith, ground arith)), λ h. ground (arith, h.1.0, h.1.1))

-- What the transform makes of a text without blanks is there and matches.
abbrev pub Matched : Value → Type 0
Matched v = IsPresent v × (unless_empty peru_phone_regex v ≡ true)

with_prefix-Matched : (s : Text) → NoBlanks s → Matched (with_prefix s) ↔ IsPeruPhone s
with_prefix-Matched [] n = (λ h. absurd h.0, λ h. elim h [ inl e ↦ cc | inr (r, e) ↦ cc e.0 ])
with_prefix-Matched (c ∷ s) n = elim (Bool-cases (c == b'+')) [
  | inl plus ↦ rw plus (
    λ h. inr ((regex_plain (c ∷ s) n).0 h.1),
    λ h. elim h [
      | inl nine ↦ absurd (ground (arith, plus))
      | inr r ↦ (tt, (regex_plain (c ∷ s) n).1 r)
    ],
  )
  | inr other ↦ rw other (
    λ h. inl (sym (regex_prefixed (c ∷ s) n) ∙ h.1),
    λ h. elim h [
      | inl nine ↦ (tt, regex_prefixed (c ∷ s) n ∙ nine)
      | inr (r, e) ↦ absurd (ground (arith, other, e.0))
    ],
  )
]

pub transform_phone_number-Matched :
    (t : Text) → Matched (transform_phone_number (text t)) ↔ IsPeruPhone (without_blanks t)
unfolding transform_phone_number
transform_phone_number-Matched t =
    rw (without_blanks-trim t) (with_prefix-Matched (without_blanks t) (without_blanks-NoBlanks t))
