-- ===== src/Examples/Forms.antt =====
-- The forms at concrete releases and limits.
use pb_launcher.Prelude.{Text, codes, List, [], ◌∷◌, true, none, some, map, ◌≡◌, ◌↔◌, refl}
use pb_launcher.Prelude.Int.{◌-ℤ◌}
use pb_launcher.Collections.{ServiceDto, listed}
use pb_launcher.Collections.Writes.{ReleaseOption, ServiceData}
use pb_launcher.Versions.{
  Installed, SelectOption, parts_of, digits_from, compare_versions, is_positive, change_candidates,
  change_options, sort_releases, insert_release, compare_parts,
}
use pb_launcher.Versions.Compare.{number_at, IsLater, compare_versions_iff}
use pb_launcher.Limits.{
  FormValues, SavedDefaults, create, default_values, handle_form_submit, get_limits_from_profile,
}
use pb_launcher.Limits.Profiles.{
  limits, IsProfile, unchanged, values_kept, source_after, handle_form_submit-unchanged,
  default_values_reopened,
}
use pb_launcher.Examples.Database.{web}

abbrev release : Text → Text → ReleaseOption
release id version = record {
  id = id;
  repository_id = codes "pocketbase";
  repository_name = codes "PocketBase";
  version = version;
}

abbrev releases : List ReleaseOption
releases =
    release (codes "a") (codes "0.9.2")
    ∷ release (codes "b") (codes "0.28.0")
    ∷ release (codes "c") (codes "0.28")
    ∷ release (codes "d") (codes "1.0.0-rc")
    ∷ []

abbrev installed : Installed
installed = record {
  repository_id = codes "pocketbase";
  release_id = codes "b";
  release_version = codes "0.28.0";
}

offered_run :
    map (λ (o : SelectOption). o.value) (change_options installed releases)
    ≡ codes "d" ∷ codes "c" ∷ codes "a" ∷ []
unfolding change_options change_candidates sort_releases insert_release compare_versions
    compare_parts digits_from ◌-ℤ◌
offered_run = refl

parts_run : parts_of (codes "0.28") ≡ map some (0 ∷ 28 ∷ [])
unfolding digits_from
parts_run = refl

other_parts_run : parts_of (codes "0.9.2") ≡ map some (0 ∷ 9 ∷ 2 ∷ [])
unfolding digits_from
other_parts_run = refl

compare_versions_iff_example :
    (is_positive (compare_versions (codes "0.28") (codes "0.9.2")) ≡ true)
    ↔ IsLater (number_at (0 ∷ 28 ∷ [])) (number_at (0 ∷ 9 ∷ 2 ∷ []))
compare_versions_iff_example =
    compare_versions_iff (codes "0.28") (codes "0.9.2") (0 ∷ 28 ∷ []) (0 ∷ 9 ∷ 2 ∷ []) parts_run
      other_parts_run

abbrev nothing_saved : SavedDefaults
nothing_saved = record {
  instance_source = none;
  restart_policy = none;
  superuser_password = none;
  resource_profile = none;
}

abbrev capped : ServiceDto
capped =
    listed [] [] (record web { cpu_quota = some (codes "75%"); memory_limit = some (codes "512M") })

handle_form_submit-unchanged_example :
    (handle_form_submit (some capped) (default_values (some capped) nothing_saved)
      ≡ unchanged capped (limits (codes "75%") (codes "512M")))
    ↔ IsProfile (limits (codes "75%") (codes "512M"))
handle_form_submit-unchanged_example =
    handle_form_submit-unchanged capped nothing_saved (limits (codes "75%") (codes "512M")) refl
      refl

abbrev filled : FormValues
filled = record {
  name = codes "web";
  instance_source = codes "b";
  restart_policy = codes "no";
  superuser_password = codes "secret";
  resource_profile = codes "high";
}

abbrev sent_data : ServiceData
sent_data = record {
  name = codes "web";
  release = codes "b";
  restart_policy = codes "no";
  cpu_quota = some (codes "100%");
  memory_limit = some (codes "1024M");
}

creation_run :
    handle_form_submit none filled ≡ create (values_kept filled) (codes "secret") sent_data
unfolding handle_form_submit get_limits_from_profile
creation_run = refl

abbrev reopened : FormValues
reopened = default_values none (values_kept filled)

abbrev loaded : List Text
loaded = codes "a" ∷ codes "b" ∷ []

default_values_reopened_example :
    (reopened.restart_policy ≡ codes "no")
    × ((reopened.superuser_password ≡ codes "secret")
        × ((reopened.resource_profile ≡ codes "low")
            × ((source_after (loaded ∷ []) reopened.instance_source ≡ codes "b")
                × (source_after ([] ∷ loaded ∷ []) reopened.instance_source ≡ codes "a"))))
default_values_reopened_example =
    default_values_reopened filled (values_kept filled) (codes "secret") sent_data (loaded ∷ [])
      (codes "a") (codes "b" ∷ []) creation_run (λ e. cc) (refl, tt)
