-- ===== src/Examples/Database.antt =====
-- An SDK over a small database, which reads the filters as the code writes them, and the theorems on
-- the collections at it.
use pb_launcher.Prelude.{
  ℕ, Text, codes, List, [], ◌∷◌, ◌++◌, Bool, true, false, ◌&&◌, ◌||◌, Option, none, some, ◌==◌,
  text_eq, find, filter, map, if◌then◌else◌, ◌≡◌, refl, ap, arith,
}
use pb_launcher.Http.{network_error, done, ◌>>=◌}
use pb_launcher.Http.Values.{null}
use pb_launcher.Collections.Records.{
  running, ServiceRecord, DomainDto, DomainService, one_service, many_services, quoted, Sdk,
}
use pb_launcher.Collections.{
  pending_filter, service_filter, listed, fetch_service_by_name, fetch_all_services,
}
use pb_launcher.Collections.Answers.{
  Command, Database, is_pending, is_for, is_of, first_or, gives, Answers,
}
use pb_launcher.Collections.Commanded.{add_command, mark_pending, fetch_all_services_commanded}

text_eq_longer : (t : Text) (d : ℕ) → text_eq [] (t ++ d ∷ []) ≡ false
text_eq_longer [] d = refl
text_eq_longer (c ∷ t) d = refl

longer_text_eq : (t : Text) (d : ℕ) → text_eq (t ++ d ∷ []) [] ≡ false
longer_text_eq [] d = refl
longer_text_eq (c ∷ t) d = refl

text_eq_ended : (s t : Text) (d : ℕ) → text_eq (s ++ d ∷ []) (t ++ d ∷ []) ≡ text_eq s t
text_eq_ended [] [] d = ground arith
text_eq_ended [] (c ∷ t) d = ground (arith, text_eq_longer t d)
text_eq_ended (c ∷ s) [] d = ground (arith, longer_text_eq s d)
text_eq_ended (c ∷ s) (e ∷ t) d = ap (◌&&◌ (c == e)) (text_eq_ended s t d)

abbrev command_filter : Text → Text
command_filter id = pending_filter ++ (codes "&&" ++ service_filter id)

abbrev kept : Option Text → Command → Bool
kept none c = true
kept (some f) c = is_pending c && (text_eq f pending_filter || text_eq f (command_filter c.service))

abbrev shown : Option Text → DomainDto → Bool
shown none d = true
shown (some f) d = elim d.service [
  | one_service t ↦ text_eq (service_filter t) f
  | many_services ts ↦ false
]

abbrev all_or_none : {A : Type 0} → Option Text → List A → List A
all_or_none none xs = xs
all_or_none (some f) xs = []

-- The service of a command, where the fields name it.
abbrev named_service : Option Text → Command → Text
named_service f c = if gives f (codes "service" ∷ []) then c.service else []

abbrev sdk_of : Database → Sdk
sdk_of db = record {
  first_service = λ f o.
      first_or network_error (find (λ s. text_eq (codes "name=" ++ quoted s.name) f) db.services);
  list_services = λ o. done (all_or_none o.filter db.services);
  list_commands = λ o. done (map (named_service o.fields) (filter (kept o.filter) db.commands));
  list_domains = λ o. done (filter (shown o.filter) db.domains);
  list_releases = λ o. done [];
  create_record = λ c j. done null;
  update_record = λ c i j. done null;
  delete_record = λ c i. done tt;
}

find_named :
    (name : Text) (ss : List ServiceRecord)
    → find (λ s. text_eq (codes "name=" ++ quoted s.name) (codes "name=" ++ quoted name)) ss
      ≡ find (λ s. text_eq s.name name) ss
find_named name [] = refl
find_named name (s ∷ ss) = rw (text_eq_ended s.name name b'"', find_named name ss) refl

kept_pending : (cs : List Command) → filter (kept (some pending_filter)) cs ≡ filter is_pending cs
kept_pending [] = refl
kept_pending (c ∷ cs) = ground (arith, kept_pending cs)

kept_for :
    (id : Text) (cs : List Command)
    → filter (kept (some (command_filter id))) cs ≡ filter (λ c. is_pending c && is_for id c) cs
kept_for id [] = refl
kept_for id (c ∷ cs) = rw (text_eq_ended id c.service b'"', kept_for id cs) refl

shown_all : (ds : List DomainDto) → filter (shown none) ds ≡ ds
shown_all [] = refl
shown_all (d ∷ ds) = ap (◌∷◌ d) (shown_all ds)

shown_one : (id : Text) (d : DomainDto) → shown (some (service_filter id)) d ≡ is_of id d
shown_one id d = go d.service
  where
    go :
        (r : DomainService)
        → (elim r [
          | one_service t ↦ text_eq (service_filter t) (service_filter id)
          | many_services ts ↦ false
        ])
          ≡ elim r [ one_service t ↦ text_eq t id | many_services ts ↦ false ]
    go (one_service t) = text_eq_ended t id b'"'
    go (many_services ts) = refl

shown_of :
    (id : Text) (ds : List DomainDto)
    → filter (shown (some (service_filter id))) ds ≡ filter (is_of id) ds
shown_of id [] = refl
shown_of id (d ∷ ds) = rw (shown_one id d, shown_of id ds) refl

named_services :
    (f : Option Text) (cs : List Command)
    → gives f (codes "service" ∷ []) ≡ true
    → map (named_service f) cs ≡ map (λ c. c.service) cs
named_services f [] h = refl
named_services f (c ∷ cs) h = rw (h, named_services f cs h) refl

sdk_of-Answers : (db : Database) → Answers (sdk_of db) db network_error
sdk_of-Answers db = record {
  service_named = λ o name q k. ap (first_or network_error) (find_named name db.services);
  all_services = λ o e k. rw e refl;
  pending_commands =
      λ o e k. rw (e, kept_pending db.commands) (ap done (named_services o.fields _ k));
  pending_commands_for =
      λ o id q e k. rw (e, kept_for id db.commands) (ap done (named_services o.fields _ k));
  all_domains = λ o e k. rw (e, shown_all db.domains) refl;
  domains_of = λ o id q e k. rw (e, shown_of id db.domains) refl;
}

abbrev pub web : ServiceRecord
web = record {
  id = codes "w";
  name = codes "web";
  status = running;
  pb_install = none;
  boot_user_email = [];
  boot_user_password = [];
  last_started = [];
  restart_policy = codes "no";
  error_message = [];
  ip = none;
  port = none;
  cpu_quota = none;
  memory_limit = none;
  current_snapshot_id = none;
  current_snapshot_applied_at = none;
  created = [];
  release_id = codes "r";
  release_version = codes "0.28.0";
}

abbrev pub web_domain : DomainDto
web_domain = record {
  id = codes "d";
  use_https = codes "yes";
  domain = codes "web.example.org";
  service = one_service (codes "w");
  cert_status = none;
  x_cert_request_state = none;
  x_has_valid_ssl_cert = none;
  x_reached_max_attempt = none;
  x_failed_error_message = none;
}

abbrev small : Database
small = record { services = web ∷ []; commands = []; domains = web_domain ∷ [] }

abbrev restart_web : Command
restart_web = record { service = codes "w"; status = codes "pending" }

by_name_run :
    fetch_service_by_name (sdk_of (add_command restart_web small)) (codes "web")
    ≡ done (listed (codes "w" ∷ []) (web_domain ∷ []) web)
unfolding fetch_service_by_name
by_name_run = refl

fetch_all_services_commanded_example :
    fetch_all_services (sdk_of (add_command restart_web small))
    ≡ (fetch_all_services (sdk_of small) >>= λ ds. done (map (mark_pending (codes "w")) ds))
fetch_all_services_commanded_example =
    fetch_all_services_commanded (sdk_of small) (sdk_of (add_command restart_web small)) small
      network_error restart_web refl (sdk_of-Answers small)
      (sdk_of-Answers (add_command restart_web small))
