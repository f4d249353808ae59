-- ===== src/Collections/Writes.antt =====
-- The writes of ui/src/services/services.ts and services_domain.ts, and the releases of release.ts.
use pb_launcher.Prelude.{Text, codes, List, [], ◌∷◌, Bool, Option, none, some, map, if◌then◌else◌}
use pb_launcher.Http.{Outcome, done, thrown, plain_error, ◌>>=◌}
use pb_launcher.Http.Values.{Json, Fields, string, object, field, end}
use pb_launcher.Collections.Records.{ReleaseDto, Sdk}

-- An optional property of a payload: `JSON.stringify` leaves an undefined one out.
abbrev pub optional : Text → Option Text → Fields → Fields
optional name none fs = fs
optional name (some t) fs = field name (string t) fs

pub record ServiceData : Type 0 where
  pub name : Text
  pub release : Text
  pub restart_policy : Text
  pub cpu_quota : Option Text
  pub memory_limit : Option Text

abbrev pub service_payload : ServiceData → Json
service_payload data_ = object (
    field (codes "name") (string data_.name) (
      field (codes "release") (string data_.release) (
        field (codes "restart_policy") (string data_.restart_policy) (
          optional (codes "cpu_quota") data_.cpu_quota
            (optional (codes "memory_limit") data_.memory_limit end)))))

pub data Action : Type 0 where
  stop start restart upgrade : Action

abbrev pub action_text : Action → Text
action_text stop = codes "stop"
action_text start = codes "start"
action_text restart = codes "restart"
action_text upgrade = codes "upgrade"

abbrev pub yes_or_no : Bool → Text
yes_or_no b = if b then codes "yes" else codes "no"

pub record ReleaseOption : Type 0 where
  pub id : Text
  pub repository_id : Text
  pub repository_name : Text
  pub version : Text

module _ (sdk : Sdk) where
  unfoldable pub create_service_instance : ServiceData → Outcome Json
  create_service_instance data_ = sdk.create_record (codes "services") (service_payload data_)

  unfoldable pub update_service_instance : Text → ServiceData → Outcome (Unit {0})
  update_service_instance id data_ = do
    record_ ← sdk.update_record (codes "services") id (service_payload data_)
    done tt

  unfoldable pub delete_service_instance : Text → Outcome (Unit {0})
  delete_service_instance id = sdk.delete_record (codes "services") id

  unfoldable pub execute_service_command : Text → Action → Option Text → Outcome (Unit {0})
  execute_service_command service_id action target_release = do
    record_ ← sdk.create_record (codes "comands") (
        object (
          field (codes "service") (string service_id) (
            field (codes "action") (string (action_text action))
              (optional (codes "target_release") target_release end))))
    done tt

  unfoldable pub create_domain : Bool → Text → Text → Outcome (Unit {0})
  create_domain use_https domain [] = thrown (plain_error (string (codes "'service' is required")))
  create_domain use_https domain (c ∷ service) = do
    record_ ← sdk.create_record (codes "services_domains") (
        object (
          field (codes "domain") (string domain) (
            field (codes "use_https") (string (yes_or_no use_https))
              (field (codes "service") (string (c ∷ service)) end))))
    done tt

  unfoldable pub update_domain : Text → Bool → Outcome (Unit {0})
  update_domain id use_https = do
    record_ ←
        sdk.update_record (codes "services_domains") id
          (object (field (codes "use_https") (string (yes_or_no use_https)) end))
    done tt

  unfoldable pub delete_domain : Text → Outcome (Unit {0})
  delete_domain id = sdk.delete_record (codes "services_domains") id

  unfoldable pub create_ssl_request : Text → Outcome (Unit {0})
  create_ssl_request domain = do
    record_ ←
        sdk.create_record (codes "cert_requests")
          (object (field (codes "domain") (string domain) end))
    done tt

  unfoldable pub fetch_all_releases : Outcome (List ReleaseOption)
  fetch_all_releases = do
    records ← sdk.list_releases (record {
      filter = none;
      expand = none;
      fields = some (codes "id,version");
      sort = some (codes "-version");
    })
    done (map release_option records)
    where
      release_option : ReleaseDto → ReleaseOption
      release_option r = record {
        id = r.id;
        repository_id = codes "pocketbase";
        repository_name = codes "PocketBase";
        version = r.version;
      }
