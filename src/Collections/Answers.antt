-- ===== src/Collections/Answers.antt =====
-- A database, and what the SDK promises to answer for the filters that the code writes.
use pb_launcher.Prelude.{
  Text, codes, List, ◌++◌, Bool, false, ◌&&◌, Option, none, some, text_eq, find, filter, map, All,
  ◌≡◌, ◌≢◌, true, any, all, split, [], ◌∷◌,
}
use pb_launcher.Http.{Outcome, Thrown, done, thrown}
use pb_launcher.Collections.Records.{
  ServiceRecord, DomainDto, one_service, many_services, ListOptions, quoted, Sdk,
}
use pb_launcher.Collections.{pending_filter, service_filter}

-- A record of the collection `comands`.
pub record Command : Type 0 where
  pub service : Text
  pub status : Text

pub record Database : Type 0 where
  pub services : List ServiceRecord
  pub commands : List Command
  pub domains : List DomainDto

-- A text that a filter can hold in quotes.
abbrev pub IsQuotable : Text → Type 0
IsQuotable = All (λ c. (c ≢ b'"') × (c ≢ b'\\'))

abbrev pub is_pending : Command → Bool
is_pending c = text_eq c.status (codes "pending")

abbrev pub is_for : Text → Command → Bool
is_for id c = text_eq id c.service

-- A domain of one service, as the database has them.
abbrev pub is_of : Text → DomainDto → Bool
is_of id d = elim d.service [ one_service t ↦ text_eq t id | many_services ids ↦ false ]

abbrev pub first_or {ℓ} : {A : Type ℓ} → Thrown → Option A → Outcome A
first_or missing none = thrown missing
first_or missing (some a) = done a

-- The option `fields` gives each of the names: it is not set, or lists them between commas.
abbrev pub gives : Option Text → List Text → Bool
gives none names = true
gives (some f) names = all (λ n. any (text_eq n) (split f b',')) names

-- The fields of a service, and of the release that it is expanded by.
abbrev pub service_names : List Text
service_names =
    codes "id"
    ∷ codes "name"
    ∷ codes "status"
    ∷ codes "_pb_install"
    ∷ codes "boot_user_email"
    ∷ codes "boot_user_password"
    ∷ codes "last_started"
    ∷ codes "restart_policy"
    ∷ codes "error_message"
    ∷ codes "ip"
    ∷ codes "port"
    ∷ codes "cpu_quota"
    ∷ codes "memory_limit"
    ∷ codes "current_snapshot_id"
    ∷ codes "current_snapshot_applied_at"
    ∷ codes "created"
    ∷ codes "expand.release.id"
    ∷ codes "expand.release.version"
    ∷ []

abbrev pub domain_names : List Text
domain_names =
    codes "id"
    ∷ codes "use_https"
    ∷ codes "domain"
    ∷ codes "service"
    ∷ codes "cert_status"
    ∷ codes "x_cert_request_state"
    ∷ codes "x_has_valid_ssl_cert"
    ∷ codes "x_reached_max_attempt"
    ∷ codes "x_failed_error_message"
    ∷ []

-- A request that asks for services with all that is read of them.
abbrev pub AsksServices : ListOptions → Type 0
AsksServices o = (o.expand ≡ some (codes "release")) × (gives o.fields service_names ≡ true)

abbrev pub AsksCommands : ListOptions → Type 0
AsksCommands o = gives o.fields (codes "service" ∷ []) ≡ true

abbrev pub AsksDomains : ListOptions → Type 0
AsksDomains o = gives o.fields domain_names ≡ true

-- The documented answers, to requests whose options name what is read of the records: a list
-- without a filter has all records, a filter keeps the records that meet it, and `getFirstListItem`
-- gives the first of them or rejects. What is answered to other options is left open, since a field
-- that `fields` does not name is missing, and so is a relation that `expand` does not.
pub record Answers (sdk : Sdk) (db : Database) (missing : Thrown) : Type 0 where
  pub service_named :
      (o : ListOptions) (name : Text)
      → IsQuotable name
      → AsksServices o
      → sdk.first_service (codes "name=" ++ quoted name) o
        ≡ first_or missing (find (λ s. text_eq s.name name) db.services)
  pub all_services :
      (o : ListOptions) → o.filter ≡ none → AsksServices o → sdk.list_services o ≡ done db.services
  pub pending_commands :
      (o : ListOptions)
      → o.filter ≡ some pending_filter
      → AsksCommands o
      → sdk.list_commands o ≡ done (map (λ c. c.service) (filter is_pending db.commands))
  pub pending_commands_for :
      (o : ListOptions) (id : Text)
      → IsQuotable id
      → o.filter ≡ some (pending_filter ++ (codes "&&" ++ service_filter id))
      → AsksCommands o
      → sdk.list_commands o
        ≡ done (map (λ c. c.service) (filter (λ c. is_pending c && is_for id c) db.commands))
  pub all_domains :
      (o : ListOptions) → o.filter ≡ none → AsksDomains o → sdk.list_domains o ≡ done db.domains
  pub domains_of :
      (o : ListOptions) (id : Text)
      → IsQuotable id
      → o.filter ≡ some (service_filter id)
      → AsksDomains o
      → sdk.list_domains o ≡ done (filter (is_of id) db.domains)
