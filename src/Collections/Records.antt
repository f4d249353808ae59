-- ===== src/Collections/Records.antt =====
-- The SDK of PocketBase as ui/src/services use it, and the records it returns: the types of
-- ui/src/services/services.ts and services_domain.ts.
use pb_launcher.Prelude.{ℕ, Text, List, [], ◌∷◌, ◌++◌, Bool, Option}
use pb_launcher.Http.{Outcome}
use pb_launcher.Http.Values.{Json}

pub data Status : Type 0 where
  idle pending running stopped failure restoring sleeping : Status

-- The relation `service` of a domain: the type says one id, and the code also takes a list of ids.
pub data DomainService : Type 0 where
  one_service : Text → DomainService
  many_services : List Text → DomainService

pub record DomainDto : Type 0 where
  pub id : Text
  pub use_https : Text
  pub domain : Text
  pub service : DomainService
  pub cert_status : Option Text
  pub x_cert_request_state : Option Text
  pub x_has_valid_ssl_cert : Option Bool
  pub x_reached_max_attempt : Option Bool
  pub x_failed_error_message : Option Text

-- A record of the collection `services`, with the release that `expand` adds.
pub record ServiceRecord : Type 0 where
  pub id : Text
  pub name : Text
  pub status : Status
  pub pb_install : Option Text
  pub boot_user_email : Text
  pub boot_user_password : Text
  pub last_started : Text
  pub restart_policy : Text
  pub error_message : Text
  pub ip : Option Text
  pub port : Option ℕ
  pub cpu_quota : Option Text
  pub memory_limit : Option Text
  pub current_snapshot_id : Option Text
  pub current_snapshot_applied_at : Option Text
  pub created : Text
  pub release_id : Text
  pub release_version : Text

pub record ListOptions : Type 0 where
  pub filter : Option Text
  pub expand : Option Text
  pub fields : Option Text
  pub sort : Option Text

-- A text in the quotes of a filter.
abbrev pub quoted : Text → Text
quoted t = b'"' ∷ (t ++ b'"' ∷ [])

pub record ReleaseDto : Type 0 where
  pub id : Text
  pub version : Text

-- The calls of `pb.collection(…)`, one for each type that a collection's records are read at. A
-- record of `comands` is read for its service alone.
pub record Sdk : Type 0 where
  pub first_service : Text → ListOptions → Outcome ServiceRecord
  pub list_services : ListOptions → Outcome (List ServiceRecord)
  pub list_commands : ListOptions → Outcome (List Text)
  pub list_domains : ListOptions → Outcome (List DomainDto)
  pub list_releases : ListOptions → Outcome (List ReleaseDto)
  pub create_record : Text → Json → Outcome Json
  pub update_record : Text → Text → Json → Outcome Json
  pub delete_record : Text → Text → Outcome (Unit {0})
