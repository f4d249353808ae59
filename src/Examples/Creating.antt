-- ===== src/Examples/Creating.antt =====
-- The creation of a service and its name at concrete inputs.
use pb_launcher.Prelude.{
  Text, codes, [], ◌∷◌, ◌+◌, leb, ◌&&◌, all, map, none, true, false, starts_with, ◌≡◌, ◌≢◌, refl,
  arith, if◌then◌else◌,
}
use pb_launcher.Http.{done, thrown, Thrown, network_error, await_fetch, await_json, require_ok}
use pb_launcher.Http.Values.{Json, undefined, string, object, field, end}
use pb_launcher.Collections.Records.{Sdk}
use pb_launcher.Collections.Writes.{ServiceData, create_service_instance}
use pb_launcher.Services.System.{upsert_superuser}
use pb_launcher.Services.Laws.Failures.{answering}
use pb_launcher.Limits.Creation.{
  created_but, create_instance, or_created_but, toast, is_done, create_instance-toast,
}
use pb_launcher.Limits.Slug.{
  is_slug_char, is_spaced, sanitized, matches_name, sanitized-matches_name,
}
use pb_launcher.Examples.Calls.{local, conflict}

-- A database that takes every new record.
abbrev pub creating : Sdk
creating = record {
  first_service = λ c o. thrown network_error;
  list_services = λ o. thrown network_error;
  list_commands = λ o. thrown network_error;
  list_domains = λ o. thrown network_error;
  list_releases = λ o. thrown network_error;
  create_record = λ c j. done (object (field (codes "id") (string (codes "s")) end));
  update_record = λ c i j. thrown network_error;
  delete_record = λ c i. thrown network_error;
}

abbrev native : Thrown → Json
native e = undefined

abbrev text_of : Json → Text
text_of (string t) = t
text_of j = []

abbrev web_data : ServiceData
web_data = record {
  name = codes "web";
  release = codes "r";
  restart_policy = codes "no";
  cpu_quota = none;
  memory_limit = none;
}

create_instance-toast_example :
    starts_with
      (toast native text_of (
        create_instance native text_of creating local
          (answering conflict)
          web_data
          (codes "secret")))
      created_but
    ≡ is_done native text_of (create_service_instance creating web_data)
unfolding create_instance create_service_instance or_created_but upsert_superuser await_fetch
    await_json require_ok
create_instance-toast_example =
    create_instance-toast native text_of (λ t. refl) creating local (answering conflict) web_data
      (codes "secret") refl refl

-- `toLowerCase` on ASCII.
abbrev ascii_lower : Text → Text
ascii_lower t = map (λ c. if leb b'A' c && leb c b'Z' then c + 32 else c) t

lower_slug : (s : Text) → all is_slug_char s ≡ true → ascii_lower s ≡ s
lower_slug [] h = refl
lower_slug (c ∷ s) h = ground (arith, h, lower_slug s)

sanitized-matches_name_example :
    (is_spaced false (sanitized ascii_lower (codes "My  App!")) ≡ true)
    × (ascii_lower (codes "My  App!") ≢ []
        → matches_name (sanitized ascii_lower (codes "My  App!")) ≡ true)
    × (sanitized ascii_lower (sanitized ascii_lower (codes "My  App!"))
        ≡ sanitized ascii_lower (codes "My  App!"))
sanitized-matches_name_example = sanitized-matches_name ascii_lower (codes "My  App!") lower_slug
