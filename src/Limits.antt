-- ===== src/Limits.antt =====
-- The limits of a service and the profiles that ui/src/pages/internal/forms/ServiceForm.tsx shows for
-- them: `getProfileFromLimits`, `getLimitsFromProfile`, the values that the form starts with and what
-- it sends.
pub mod Profiles
pub mod Creation
pub mod Slug
use pb_launcher.Prelude.{
  Text, codes, [], ◌∷◌, Bool, true, false, ◌&&◌, ◌||◌, not, any, List, Option, none, some, text_eq,
  if◌then◌else◌,
}
use pb_launcher.Url.{is_truthy, or_empty}
use pb_launcher.Collections.{ServiceDto, or_default}
use pb_launcher.Collections.Writes.{ServiceData}

pub record Limits : Type 0 where
  pub cpu_quota : Text
  pub memory_limit : Text

-- `cpu === "…" && ram === "…"`
abbrev pub are : Option Text → Option Text → Text → Text → Bool
are none ram c r = false
are (some cpu) none c r = false
are (some cpu) (some ram) c r = text_eq cpu c && text_eq ram r

unfoldable pub get_profile_from_limits : Option Text → Option Text → Text
get_profile_from_limits cpu ram =
    if not (is_truthy (or_empty cpu)) && not (is_truthy (or_empty ram))
    then codes "low"
    else if are cpu ram (codes "default") (codes "default")
    then codes "default"
    else if are cpu ram (codes "25%") (codes "256M")
    then codes "low"
    else if are cpu ram (codes "50%") (codes "512M")
    then codes "standard"
    else if are cpu ram (codes "100%") (codes "1024M")
    then codes "high"
    else if are cpu ram (codes "none") (codes "none")
    then codes "none"
    else codes "low"

unfoldable pub get_limits_from_profile : Text → Limits
get_limits_from_profile profile =
    if text_eq profile (codes "low")
    then record { cpu_quota = codes "25%"; memory_limit = codes "256M" }
    else if text_eq profile (codes "standard")
    then record { cpu_quota = codes "50%"; memory_limit = codes "512M" }
    else if text_eq profile (codes "high")
    then record { cpu_quota = codes "100%"; memory_limit = codes "1024M" }
    else if text_eq profile (codes "none")
    then record { cpu_quota = codes "none"; memory_limit = codes "none" }
    else record { cpu_quota = codes "default"; memory_limit = codes "default" }

-- The values of the form, which are also what the browser keeps of the last creation.
pub record FormValues : Type 0 where
  pub name : Text
  pub instance_source : Text
  pub restart_policy : Text
  pub superuser_password : Text
  pub resource_profile : Text

pub record SavedDefaults : Type 0 where
  pub instance_source : Option Text
  pub restart_policy : Option Text
  pub superuser_password : Option Text
  pub resource_profile : Option Text

-- `defaultValues`: for a record the saved defaults are `{}`.
unfoldable pub default_values : Option ServiceDto → SavedDefaults → FormValues
default_values none saved = record {
  name = [];
  instance_source = or_default saved.instance_source [];
  restart_policy = or_default saved.restart_policy (codes "on-failure");
  superuser_password = or_default saved.superuser_password [];
  resource_profile = get_profile_from_limits none none;
}
default_values (some r) saved = record {
  name = r.name;
  instance_source = r.release_id;
  restart_policy = r.restart_policy;
  superuser_password = [];
  resource_profile = get_profile_from_limits r.cpu_quota r.memory_limit;
}

-- The effect on the source that runs when the form is shown and whenever the releases that it offers
-- change: for a record it does nothing; a source that is not among them gives way to the first of
-- them, and to the empty one where there is none.
unfoldable pub release_effect : Option ServiceDto → List Text → Text → Text
release_effect (some r) release_options current_release = current_release
release_effect none [] current_release = []
release_effect none (o ∷ os) current_release =
    if not (is_truthy current_release) || not (any (text_eq current_release) (o ∷ os))
    then o
    else current_release

-- What a submission does: it asks for a password, keeps the values and creates, or updates.
pub data Submission : Type 0 where
  password_missing : Submission
  create : SavedDefaults → Text → ServiceData → Submission
  update : Text → ServiceData → Submission

-- `a || b`
abbrev pub or_else : Text → Text → Text
or_else a b = if is_truthy a then a else b

abbrev pub limits_of : FormValues → Limits
limits_of v = get_limits_from_profile (or_else v.resource_profile (codes "default"))

unfoldable pub handle_form_submit : Option ServiceDto → FormValues → Submission
handle_form_submit none v =
    if not (is_truthy v.superuser_password)
    then password_missing
    else create
        (record {
          instance_source = some v.instance_source;
          restart_policy = some v.restart_policy;
          superuser_password = some v.superuser_password;
          resource_profile = some v.resource_profile;
        })
        v.superuser_password
        (record {
          name = v.name;
          release = v.instance_source;
          restart_policy = v.restart_policy;
          cpu_quota = some (limits_of v).cpu_quota;
          memory_limit = some (limits_of v).memory_limit;
        })
handle_form_submit (some r) v = update r.id (record {
  name = v.name;
  release = or_else v.instance_source r.release_id;
  restart_policy = v.restart_policy;
  cpu_quota = some (limits_of v).cpu_quota;
  memory_limit = some (limits_of v).memory_limit;
})
