-- ===== src/Collections.antt =====
-- The records of services, commands and domains, read and written through the SDK of PocketBase:
-- ui/src/services/services.ts, services_domain.ts and release.ts. The SDK is a parameter.
-- `Promise.all` starts its requests together; where several reject, the first listed stands for the
-- one that rejects first.
pub mod Records
pub mod Writes
pub mod Answers
pub mod Agree
pub mod Commanded
use pb_launcher.Prelude.{
  ℕ, Text, codes, List, [], ◌∷◌, ◌++◌, Bool, true, false, Option, none, some, text_eq, any, filter,
  map, length, ltb, if◌then◌else◌,
}
use pb_launcher.Http.{Outcome, done, ◌>>=◌}
use pb_launcher.Collections.Records.{
  Status, pending, DomainDto, one_service, many_services, ServiceRecord, ListOptions, quoted, Sdk,
}

pub record ServiceDto : Type 0 where
  pub id : Text
  pub name : Text
  pub status : Status
  pub pb_install : Text
  pub boot_user_email : Text
  pub boot_user_password : Text
  pub last_started : Text
  pub restart_policy : Text
  pub error_message : Text
  pub ip : Text
  pub port : ℕ
  pub created : Text
  pub repository : Text
  pub repository_id : Text
  pub release_id : Text
  pub release_version : Text
  pub domains : List DomainDto
  pub cpu_quota : Option Text
  pub memory_limit : Option Text
  pub current_snapshot_id : Option Text
  pub current_snapshot_applied_at : Option Text

-- `value ?? fallback`
abbrev pub or_default {ℓ} : {A : Type ℓ} → Option A → A → A
or_default none fallback = fallback
or_default (some a) fallback = a

abbrev pub service_fields : Text
service_fields =
    codes "id,name,status,_pb_install,boot_user_email,boot_user_password,last_started,"
    ++ (codes "restart_policy,error_message,ip,port,created,release,cpu_quota,memory_limit,"
        ++ (codes "current_snapshot_id,current_snapshot_applied_at,"
            ++ codes "expand.release.id,expand.release.version"))

abbrev pub pending_filter : Text
pending_filter = codes "status=" ++ quoted (codes "pending")

abbrev pub service_filter : Text → Text
service_filter id = codes "service=" ++ quoted id

abbrev pub service_options : ListOptions
service_options = record {
  filter = none;
  expand = some (codes "release");
  fields = some service_fields;
  sort = none;
}

abbrev pub command_options : Text → ListOptions
command_options f = record {
  filter = some f;
  expand = none;
  fields = some (codes "service");
  sort = none;
}

abbrev pub domain_options : Option Text → ListOptions
domain_options f = record { filter = f; expand = none; fields = none; sort = none }

-- The test of a domain in the list of all services.
abbrev pub belongs_to : Text → DomainDto → Bool
belongs_to id d = elim d.service [
  | many_services ids ↦ any (text_eq id) ids
  | one_service t ↦ text_eq t id
]

-- The function that is mapped over the services.
abbrev pub listed : List Text → List DomainDto → ServiceRecord → ServiceDto
listed pending_services domains s = record {
  id = s.id;
  name = s.name;
  status = if any (text_eq s.id) pending_services then pending else s.status;
  pb_install = or_default s.pb_install [];
  boot_user_email = s.boot_user_email;
  boot_user_password = s.boot_user_password;
  last_started = s.last_started;
  restart_policy = s.restart_policy;
  error_message = s.error_message;
  ip = or_default s.ip [];
  port = or_default s.port 0;
  created = s.created;
  repository = codes "PocketBase";
  repository_id = codes "pocketbase";
  release_id = s.release_id;
  release_version = s.release_version;
  domains = filter (belongs_to s.id) domains;
  cpu_quota = s.cpu_quota;
  memory_limit = s.memory_limit;
  current_snapshot_id = s.current_snapshot_id;
  current_snapshot_applied_at = s.current_snapshot_applied_at;
}

module _ (sdk : Sdk) where
  abbrev pub fetch_full_list : Outcome (List DomainDto)
  fetch_full_list = sdk.list_domains (domain_options none)

  abbrev pub fetch_all_by_service_id : Text → Outcome (List DomainDto)
  fetch_all_by_service_id service_id =
      sdk.list_domains (domain_options (some (service_filter service_id)))

  unfoldable pub fetch_service_by_name : Text → Outcome ServiceDto
  fetch_service_by_name name = do
    service ← sdk.first_service (codes "name=" ++ quoted name) service_options
    commands ←
        sdk.list_commands
          (command_options (pending_filter ++ (codes "&&" ++ service_filter service.id)))
    domains ← fetch_all_by_service_id service.id
    done (record {
      id = service.id;
      name = service.name;
      status = if ltb 0 (length commands) then pending else service.status;
      pb_install = or_default service.pb_install [];
      boot_user_email = service.boot_user_email;
      boot_user_password = service.boot_user_password;
      last_started = service.last_started;
      restart_policy = service.restart_policy;
      error_message = service.error_message;
      ip = or_default service.ip [];
      port = or_default service.port 0;
      created = service.created;
      repository = codes "PocketBase";
      repository_id = codes "pocketbase";
      release_id = service.release_id;
      release_version = service.release_version;
      domains = domains;
      cpu_quota = service.cpu_quota;
      memory_limit = service.memory_limit;
      current_snapshot_id = service.current_snapshot_id;
      current_snapshot_applied_at = service.current_snapshot_applied_at;
    })

  unfoldable pub fetch_all_services : Outcome (List ServiceDto)
  fetch_all_services = do
    services ← sdk.list_services service_options
    commands ← sdk.list_commands (command_options pending_filter)
    domains ← fetch_full_list
    done (map (listed commands domains) services)
