-- ===== src/Collections/Agree.antt =====
-- The two ways to read a service, by its name and in the list of all.
use pb_launcher.Prelude.{Text, none, filter, map, ◌≡◌, refl}
use pb_launcher.Http.{Thrown, done}
use mathlib.Core.Option.{map as map_option}
use pb_launcher.Collections.Records.{DomainDto, one_service, Sdk}
use pb_launcher.Collections.{
  service_options, command_options, domain_options, pending_filter, listed, fetch_all_services,
}
use pb_launcher.Collections.Answers.{Database, is_pending, Answers}

-- The database has a domain for one service.
abbrev pub HasOneService : DomainDto → Type 0
HasOneService d = (t : Text) × (d.service ≡ one_service t)

module _ (sdk : Sdk) (db : Database) (missing : Thrown) (a : Answers sdk db missing) where
  pub read_all :
      fetch_all_services sdk
      ≡ done (
          map
            (listed (map (λ c. c.service) (filter is_pending db.commands)) db.domains)
            db.services)
  unfolding fetch_all_services
  read_all =
      rw
        (
          a.all_services service_options refl (refl, refl),
          a.pending_commands (command_options pending_filter) refl refl,
          a.all_domains (domain_options none) refl refl,
        )
        refl
