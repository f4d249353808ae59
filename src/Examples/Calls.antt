-- ===== src/Examples/Calls.antt =====
-- The calls of the services at concrete responses.
use pb_launcher.Prelude.{Text, codes, [], ◌++◌, ◌≡◌, refl, none, some, arith}
use pb_launcher.Http.{
  Response, Fetch, Client, thrown, http_error, syntax_error, await_fetch, require_ok, message_or,
  json_or_null,
}
use pb_launcher.Http.Values.{Json, string, object, field, end, array, nil}
use pb_launcher.Url.Join.{IsBare}
use pb_launcher.Services.Files.{fetch_files}
use pb_launcher.Services.Hooks.{parse_filename_or}
use pb_launcher.Services.System.{
  is_initial_setup_done, setup, execute_cli_command, fetch_proxy_configs, fetch_system_status,
  fetch_all_repositories, sync_repository, upsert_superuser, fetch_service_logs,
}
use pb_launcher.Services.Laws.Failures.{
  answering, FilesReport, HooksReport, BackupReport, calls_failure, status_lost,
}
use pb_launcher.Services.Laws.Reported.{Reports}
use pb_launcher.Services.Laws.Requests.{
  only_at, files_path, FilesAuthorized, SystemAuthorized, calls_authorized,
}
use pb_launcher.Services.Laws.Filename.{quoted, unquoted, parse_filename_round_trip}

abbrev pub encode : Text → Text
encode t = t

abbrev pub local : Client
local = record { base_url = codes "/"; token = codes "t" }

abbrev pub stopped_first : Json
stopped_first = object (field (codes "message") (string (codes "stop it first")) end)

abbrev pub conflict : Response
conflict = record { status = 409; body = some stopped_first; content_disposition = none; blob = [] }

abbrev bad_gateway : Response
bad_gateway = record { status = 502; body = none; content_disposition = none; blob = [] }

abbrev pub one_file : Fetch
one_file q =
    some (record { status = 200; body = some (array nil); content_disposition = none; blob = [] })

conflict_run :
    fetch_files encode local (answering conflict) (codes "s")
    ≡ thrown (http_error 409 (string (codes "stop it first")) stopped_first)
unfolding fetch_files await_fetch require_ok message_or json_or_null
conflict_run = refl

calls_failure_example :
    FilesReport encode local conflict (codes "s") (codes "a") (codes "x") (codes "b")
    × HooksReport encode local conflict (codes "s") (codes "a") (codes "x") (codes "z")
    × BackupReport local conflict (codes "s") (codes "p") (codes "z") (codes "n") none
calls_failure_example =
    calls_failure encode local conflict refl (codes "s") (codes "a") (codes "x") (codes "b")
      (codes "p") (codes "z") (codes "n") none

status_lost_example :
    (is_initial_setup_done local (answering bad_gateway) ≡ thrown syntax_error)
    × (setup local (answering bad_gateway) (codes "e") (codes "p") ≡ thrown syntax_error)
    × (execute_cli_command local (answering bad_gateway) (codes "s") [] ≡ thrown syntax_error)
    × (fetch_proxy_configs local (answering bad_gateway) ≡ thrown syntax_error)
    × (upsert_superuser local (answering bad_gateway) (codes "s") (some (codes "p"))
        ≡ thrown syntax_error)
    × (fetch_service_logs local (answering bad_gateway) (codes "s") (codes "10")
        ≡ thrown syntax_error)
    × Reports bad_gateway
        (codes "Failed to fetch system status")
        (fetch_system_status local (answering bad_gateway))
    × Reports bad_gateway
        (codes "Failed to fetch repositories")
        (fetch_all_repositories local (answering bad_gateway))
    × Reports bad_gateway
        (codes "Failed to sync repository")
        (sync_repository local (answering bad_gateway) (codes "s"))
status_lost_example =
    status_lost local bad_gateway refl (codes "s") (codes "e") (codes "p") (codes "10") [] refl

calls_authorized_example :
    FilesAuthorized local one_file encode (codes "s") (codes "a") (codes "x") (codes "b") []
    × SystemAuthorized local one_file (codes "s") (codes "10") none []
calls_authorized_example =
    calls_authorized local one_file encode (codes "s") (codes "a") (codes "x") (codes "b")
      (codes "10") [] [] none

origin-IsBare : IsBare (codes "http://h")
origin-IsBare = record { some_text = λ e. cc; no_leading = refl; no_trailing = refl }

abbrev remote : Client
remote = record { base_url = codes "http://h/"; token = codes "t" }

abbrev at : Text → Fetch
at rest = only_at (codes "http://h" ++ files_path (codes "s") rest) one_file

parse_filename_round_trip_example :
    (parse_filename_or (codes "d.zip") (some (codes "attachment; " ++ quoted (codes "a.zip") []))
      ≡ codes "a.zip")
    × (parse_filename_or
          (codes "d.zip")
          (some (codes "attachment; " ++ unquoted (codes "a.zip") []))
        ≡ codes "a.zip")
parse_filename_round_trip_example =
    parse_filename_round_trip (codes "d.zip") (codes "attachment; ") b'a' (codes ".zip") []
      (omega arith) (omega arith)
