-- ===== src/Limits/Profiles.antt =====
-- What the form keeps of the limits of a service.
use mathlib.Core.Path.{subst}
use pb_launcher.Prelude.{
  Text, codes, List, [], ◌∷◌, true, any, Option, none, some, ◌≡◌, ◌≢◌, ◌↔◌, ◌⊎◌, inl, inr, refl, ap,
  sym, ◌∙◌, text_eq, Bool-cases,
}
use pb_launcher.Url.{is_truthy}
use pb_launcher.Collections.{ServiceDto}
use pb_launcher.Collections.Writes.{ServiceData}
use pb_launcher.Limits.{
  Limits, FormValues, SavedDefaults, Submission, password_missing, create, update, or_else,
  get_profile_from_limits, get_limits_from_profile, default_values, release_effect,
  handle_form_submit,
}

abbrev pub limits : Text → Text → Limits
limits c m = record { cpu_quota = c; memory_limit = m }

-- The limits of the five profiles.
abbrev pub IsProfile : Limits → Type 0
IsProfile l =
    (l ≡ limits (codes "25%") (codes "256M"))
    ⊎ (l ≡ limits (codes "50%") (codes "512M"))
    ⊎ (l ≡ limits (codes "100%") (codes "1024M"))
    ⊎ (l ≡ limits (codes "none") (codes "none"))
    ⊎ (l ≡ limits (codes "default") (codes "default"))

IsProfile-limits : (p : Text) → IsProfile (get_limits_from_profile p)
unfolding get_limits_from_profile
IsProfile-limits p = elim (Bool-cases (text_eq p (codes "low"))) [
  | inl a ↦ inl (rw a refl)
  | inr a ↦ elim (Bool-cases (text_eq p (codes "standard"))) [
    | inl b ↦ inr (inl (rw (a, b) refl))
    | inr b ↦ elim (Bool-cases (text_eq p (codes "high"))) [
      | inl c ↦ inr (inr (inl (rw (a, b, c) refl)))
      | inr c ↦ elim (Bool-cases (text_eq p (codes "none"))) [
        | inl d ↦ inr (inr (inr (inl (rw (a, b, c, d) refl))))
        | inr d ↦ inr (inr (inr (inr (rw (a, b, c, d) refl))))
      ]
    ]
  ]
]

-- The profile that is shown for limits, read back as the form sends it.
abbrev pub shown_limits : Limits → Limits
shown_limits l =
    get_limits_from_profile
      (or_else (get_profile_from_limits (some l.cpu_quota) (some l.memory_limit)) (codes "default"))

profile_shown : (l : Limits) → IsProfile l → shown_limits l ≡ l
unfolding get_limits_from_profile get_profile_from_limits
profile_shown l (inl e) = rw e refl
profile_shown l (inr (inl e)) = rw e refl
profile_shown l (inr (inr (inl e))) = rw e refl
profile_shown l (inr (inr (inr (inl e)))) = rw e refl
profile_shown l (inr (inr (inr (inr e)))) = rw e refl

shown_iff : (l : Limits) → (shown_limits l ≡ l) ↔ IsProfile l
shown_iff l = (λ e. subst IsProfile e (IsProfile-limits _), profile_shown l)

or_else_same : (a : Text) → or_else a a ≡ a
or_else_same [] = refl
or_else_same (c ∷ s) = refl

-- The record as an update would send it.
abbrev pub unchanged : ServiceDto → Limits → Submission
unchanged r l = update r.id (record {
  name = r.name;
  release = r.release_id;
  restart_policy = r.restart_policy;
  cpu_quota = some l.cpu_quota;
  memory_limit = some l.memory_limit;
})

submits :
    (r : ServiceDto) (saved : SavedDefaults) (l : Limits)
    → r.cpu_quota ≡ some l.cpu_quota
    → r.memory_limit ≡ some l.memory_limit
    → handle_form_submit (some r) (default_values (some r) saved) ≡ unchanged r (shown_limits l)
unfolding handle_form_submit default_values
submits r saved l c m = rw (c, m, or_else_same r.release_id) refl

abbrev or_text : Text → Option Text → Text
or_text d none = d
or_text d (some t) = t

abbrev sent : Limits → Submission → Limits
sent l password_missing = l
sent l (create s p d) = l
sent l (update i d) = limits (or_text [] d.cpu_quota) (or_text [] d.memory_limit)

-- A form of a service that is submitted as it was opened sends the service's own values exactly if
-- its limits are those of one of the five profiles.
pub handle_form_submit-unchanged :
    (r : ServiceDto) (saved : SavedDefaults) (l : Limits)
    → r.cpu_quota ≡ some l.cpu_quota
    → r.memory_limit ≡ some l.memory_limit
    → (handle_form_submit (some r) (default_values (some r) saved) ≡ unchanged r l) ↔ IsProfile l
handle_form_submit-unchanged r saved l c m = (
  λ e. (shown_iff l).0 (ap (sent l) (sym (submits r saved l c m) ∙ e)),
  λ p. submits r saved l c m ∙ ap (unchanged r) ((shown_iff l).1 p),
)

abbrev kept : SavedDefaults → Submission → SavedDefaults
kept s password_missing = s
kept s (create t p d) = t
kept s (update i d) = s

abbrev pub values_kept : FormValues → SavedDefaults
values_kept v = record {
  instance_source = some v.instance_source;
  restart_policy = some v.restart_policy;
  superuser_password = some v.superuser_password;
  resource_profile = some v.resource_profile;
}

creation_keeps :
    (v : FormValues) (saved : SavedDefaults) (password : Text) (d : ServiceData)
    → handle_form_submit none v ≡ create saved password d
    → saved ≡ values_kept v
unfolding handle_form_submit
creation_keeps v saved password d e = elim (Bool-cases (is_truthy v.superuser_password)) [
  | inl t ↦ sym (ap (kept saved) e) ∙ rw t refl
  | inr f ↦ absurd (is_missing (sym e ∙ rw f refl))
]
  where
    is_missing : create saved password d ≡ password_missing → ⊥
    is_missing h = cc

-- The source that a form for a new service comes to have, from the one that it starts with, while the
-- releases that it offers change.
abbrev pub source_after : List (List Text) → Text → Text
source_after [] current = current
source_after (options ∷ more) current = source_after more (release_effect none options current)

-- A source is kept as long as the releases that are offered have it.
abbrev pub IsOffered : Text → List (List Text) → Type 0
IsOffered t [] = Unit
IsOffered t (options ∷ more) = (any (text_eq t) options ≡ true) × IsOffered t more

release_effect-kept :
    (t : Text) (options : List Text)
    → t ≢ []
    → any (text_eq t) options ≡ true
    → release_effect none options t ≡ t
unfolding release_effect
release_effect-kept [] options ne h = absurd (ne refl)
release_effect-kept (c ∷ t) [] ne h = cc
release_effect-kept (c ∷ t) (o ∷ os) ne h = rw h refl

source_after-IsOffered :
    (t : Text) (steps : List (List Text)) → t ≢ [] → IsOffered t steps → source_after steps t ≡ t
source_after-IsOffered t [] ne h = refl
source_after-IsOffered t (options ∷ more) ne (h, k) =
    ap (source_after more) (release_effect-kept t options ne h) ∙ source_after-IsOffered t more ne k

emptied : (o : Text) (os : List Text) (t : Text) → source_after ([] ∷ (o ∷ os) ∷ []) t ≡ o
unfolding release_effect
emptied o os t = refl

default_values_saved :
    (v : FormValues) (saved : SavedDefaults) (password : Text) (d : ServiceData)
    → handle_form_submit none v ≡ create saved password d
    → default_values none saved ≡ record {
      name = [];
      instance_source = v.instance_source;
      restart_policy = v.restart_policy;
      superuser_password = v.superuser_password;
      resource_profile = codes "low";
    }
unfolding handle_form_submit default_values get_profile_from_limits
default_values_saved v saved password d e = rw (creation_keeps v saved password d e) refl

-- After the creation of a service from a source that is not empty, the next form has the policy and
-- the password that were sent, but the low profile, whichever was sent. It keeps the source that was
-- sent while the releases that it offers have it; if it offers none at first, since they are not
-- loaded yet, it comes to have the first of those that it offers then, whichever was sent.
pub default_values_reopened :
    (v : FormValues) (saved : SavedDefaults) (password : Text) (d : ServiceData)
    (steps : List (List Text)) (o : Text) (os : List Text)
    → handle_form_submit none v ≡ create saved password d
    → v.instance_source ≢ []
    → IsOffered v.instance_source steps
    → let w = default_values none saved in
      (w.restart_policy ≡ v.restart_policy)
      × ((w.superuser_password ≡ v.superuser_password)
          × ((w.resource_profile ≡ codes "low")
              × ((source_after steps w.instance_source ≡ v.instance_source)
                  × (source_after ([] ∷ (o ∷ os) ∷ []) w.instance_source ≡ o))))
default_values_reopened v saved password d steps o os e ne k =
    let w = default_values_saved v saved password d e in
    (
      ap (λ f. f.restart_policy) w,
      (
        ap (λ f. f.superuser_password) w,
        (
          ap (λ f. f.resource_profile) w,
          (
            ap (λ f. source_after steps f.instance_source) w
                ∙ source_after-IsOffered v.instance_source steps ne k,
            emptied o os (default_values none saved).instance_source,
          ),
        ),
      ),
    )
