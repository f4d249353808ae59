-- ===== src/Collections/Commanded.antt =====
-- A service that a command waits for.
use pb_launcher.Prelude.{
  Text, List, [], ◌∷◌, true, text_eq, filter, map, ◌≡◌, refl, Bool-cases, inl, inr, if◌then◌else◌,
}
use pb_launcher.Http.{Thrown, done, ◌>>=◌}
use pb_launcher.Collections.Records.{Status, pending, DomainDto, ServiceRecord, Sdk}
use pb_launcher.Collections.{ServiceDto, listed, fetch_all_services}
use pb_launcher.Collections.Answers.{Command, Database, is_pending, Answers}
use pb_launcher.Collections.Agree.{read_all}

abbrev pub with_status : Status → ServiceDto → ServiceDto
with_status st d = record {
  id = d.id;
  name = d.name;
  status = st;
  pb_install = d.pb_install;
  boot_user_email = d.boot_user_email;
  boot_user_password = d.boot_user_password;
  last_started = d.last_started;
  restart_policy = d.restart_policy;
  error_message = d.error_message;
  ip = d.ip;
  port = d.port;
  created = d.created;
  repository = d.repository;
  repository_id = d.repository_id;
  release_id = d.release_id;
  release_version = d.release_version;
  domains = d.domains;
  cpu_quota = d.cpu_quota;
  memory_limit = d.memory_limit;
  current_snapshot_id = d.current_snapshot_id;
  current_snapshot_applied_at = d.current_snapshot_applied_at;
}

abbrev pub mark_pending : Text → ServiceDto → ServiceDto
mark_pending id d = if text_eq d.id id then with_status pending d else d

abbrev pub add_command : Command → Database → Database
add_command c db = record {
  services = db.services;
  commands = c ∷ db.commands;
  domains = db.domains;
}

listed_more :
    (id : Text) (cs : List Text) (ds : List DomainDto) (ss : List ServiceRecord)
    → map (listed (id ∷ cs) ds) ss ≡ map (mark_pending id) (map (listed cs ds) ss)
listed_more id cs ds [] = refl
listed_more id cs ds (s ∷ ss) = elim (Bool-cases (text_eq s.id id)) [
  | inl e ↦ rw (e, listed_more id cs ds ss) refl
  | inr e ↦ rw (e, listed_more id cs ds ss) refl
]

-- Where the SDK answers from a database as it is documented, requests that ask for less than is read
-- of the records left open: once the database has one more pending command, the service it is for
-- is listed as pending, and nothing else in the list changes.
pub fetch_all_services_commanded :
    (sdk later : Sdk) (db : Database) (missing : Thrown) (c : Command)
    → is_pending c ≡ true
    → Answers sdk db missing
    → Answers later (add_command c db) missing
    → fetch_all_services later
      ≡ (fetch_all_services sdk >>= λ ds. done (map (mark_pending c.service) ds))
fetch_all_services_commanded sdk later db missing c p a b =
    rw
      (
        read_all sdk db missing a,
        read_all later (add_command c db) missing b,
        p,
        listed_more c.service (map (λ c. c.service) (filter is_pending db.commands)) db.domains
            db.services,
      )
      refl
