-- ===== src/Services/Laws/Failures.antt =====
-- A response that is not ok.
use pb_launcher.Prelude.{Text, codes, List, false, Option, none, some, ◌≡◌}
use pb_launcher.Http.{
  Response, Fetch, thrown, syntax_error, is_ok, Client, await_fetch, await_json, require_ok,
}
use pb_launcher.Services.Laws.Reported.{Reports, reported}
use pb_launcher.Services.Files.{
  fetch_files, read_file, save_file, create_folder, rename_file, extract_zip, delete_file,
}
use pb_launcher.Services.Hooks.{
  fetch_hooks, export_hooks, import_hooks, read_hook, save_hook, delete_hook,
}
use pb_launcher.Services.Backup.{
  restore_backup, clone_service, list_snapshots, create_snapshot, restore_snapshot,
  download_snapshot, delete_snapshot,
}
use pb_launcher.Services.System.{
  is_initial_setup_done, setup, execute_cli_command, fetch_proxy_configs, fetch_system_status,
  fetch_all_repositories, sync_repository, upsert_superuser, fetch_service_logs,
}

-- The server that gives one response to every request.
abbrev pub answering : Response → Fetch
answering r q = some r

module _ (encode : Text → Text) (pb : Client) (r : Response) where
  -- Each JSON operation on files.
  abbrev pub FilesReport : Text → Text → Text → Text → Type 0
  FilesReport id path content new_path =
      Reports r (codes "Failed to list files") (fetch_files encode pb (answering r) id)
      × Reports r (codes "Failed to read file") (read_file encode pb (answering r) id path)
      × Reports r (codes "Failed to save file") (save_file encode pb (answering r) id path content)
      × Reports r (codes "Failed to create folder") (create_folder encode pb (answering r) id path)
      × Reports r (codes "Failed to rename file")
          (rename_file encode pb (answering r) id path new_path)
      × Reports r (codes "Failed to extract zip file") (extract_zip encode pb (answering r) id path)
      × Reports r (codes "Failed to delete file") (delete_file encode pb (answering r) id path)

  -- Each operation on hooks.
  abbrev pub HooksReport : Text → Text → Text → Text → Type 0
  HooksReport id path content file =
      Reports r (codes "Failed to list PB hooks") (fetch_hooks encode pb (answering r) id)
      × Reports r (codes "Failed to export PB hooks") (export_hooks encode pb (answering r) id)
      × Reports r (codes "Failed to import PB hooks") (import_hooks encode pb (answering r) id file)
      × Reports r (codes "Failed to read PB hook") (read_hook encode pb (answering r) id path)
      × Reports r (codes "Failed to save PB hook")
          (save_hook encode pb (answering r) id path content)
      × Reports r (codes "Failed to delete PB hook") (delete_hook encode pb (answering r) id path)

module _ (pb : Client) (r : Response) where
  -- Each operation on backups and snapshots.
  abbrev pub BackupReport : Text → Text → Text → Text → Option Text → Type 0
  BackupReport id snapshot file name comment =
      Reports r (codes "Failed to restore backup") (restore_backup pb (answering r) file name)
      × Reports r (codes "Failed to clone service") (clone_service pb (answering r) id name)
      × Reports r (codes "Failed to list snapshots") (list_snapshots pb (answering r) id)
      × Reports r (codes "Failed to create snapshot")
          (create_snapshot pb (answering r) id name comment)
      × Reports r (codes "Failed to restore snapshot")
          (restore_snapshot pb (answering r) id snapshot)
      × Reports r (codes "Failed to download snapshot")
          (download_snapshot pb (answering r) id snapshot)
      × Reports r (codes "Failed to delete snapshot") (delete_snapshot pb (answering r) id snapshot)

module _ (encode : Text → Text) (pb : Client) (r : Response) (failed : is_ok r ≡ false) where
  -- What each operation reports of a response that is not ok.
  files_failure :
      (id path content new_path : Text) → FilesReport encode pb r id path content new_path
  unfolding fetch_files read_file save_file create_folder rename_file extract_zip delete_file
      await_fetch require_ok
  files_failure id path content new_path = (
    reported r _ _ (rw failed),
    reported r _ _ (rw failed),
    reported r _ _ (rw failed),
    reported r _ _ (rw failed),
    reported r _ _ (rw failed),
    reported r _ _ (rw failed),
    reported r _ _ (rw failed),
  )

  hooks_failure : (id path content file : Text) → HooksReport encode pb r id path content file
  unfolding fetch_hooks export_hooks import_hooks read_hook save_hook delete_hook await_fetch
      require_ok
  hooks_failure id path content file = (
    reported r _ _ (rw failed),
    reported r _ _ (rw failed),
    reported r _ _ (rw failed),
    reported r _ _ (rw failed),
    reported r _ _ (rw failed),
    reported r _ _ (rw failed),
  )

module _ (pb : Client) (r : Response) (failed : is_ok r ≡ false) where
  backup_failure :
      (id snapshot file name : Text) (comment : Option Text)
      → BackupReport pb r id snapshot file name comment
  unfolding restore_backup clone_service list_snapshots create_snapshot restore_snapshot
      download_snapshot delete_snapshot await_fetch require_ok
  backup_failure id snapshot file name comment = (
    reported r _ _ (rw failed),
    reported r _ _ (rw failed),
    reported r _ _ (rw failed),
    reported r _ _ (rw failed),
    reported r _ _ (rw failed),
    reported r _ _ (rw failed),
    reported r _ _ (rw failed),
  )

  -- Six calls read the body with no `catch`: where it is not JSON, a response that is not ok is
  -- reported as a syntax error and its status is lost, while three others still report it.
  pub status_lost :
      (id email password limit_text : Text) (args : List Text)
      → r.body ≡ none
      → (is_initial_setup_done pb (answering r) ≡ thrown syntax_error)
        × (setup pb (answering r) email password ≡ thrown syntax_error)
        × (execute_cli_command pb (answering r) id args ≡ thrown syntax_error)
        × (fetch_proxy_configs pb (answering r) ≡ thrown syntax_error)
        × (upsert_superuser pb (answering r) id (some password) ≡ thrown syntax_error)
        × (fetch_service_logs pb (answering r) id limit_text ≡ thrown syntax_error)
        × Reports r (codes "Failed to fetch system status") (fetch_system_status pb (answering r))
        × Reports r (codes "Failed to fetch repositories") (fetch_all_repositories pb (answering r))
        × Reports r (codes "Failed to sync repository") (sync_repository pb (answering r) id)
  unfolding is_initial_setup_done setup execute_cli_command fetch_proxy_configs upsert_superuser
      fetch_service_logs fetch_system_status fetch_all_repositories sync_repository await_fetch
      await_json require_ok
  status_lost id email password limit_text args e = (
    rw e,
    rw (failed, e),
    rw e,
    rw e,
    rw e,
    rw e,
    reported r _ _ (rw failed),
    reported r _ _ (rw failed),
    reported r _ _ (rw failed),
  )

module _ (encode : Text → Text) (pb : Client) (r : Response) (failed : is_ok r ≡ false) where
  -- On a response that is not ok, each JSON operation on files, each operation on hooks and each
  -- operation on backups and snapshots throws an `HttpError` that has the status of the response, its
  -- body or null where that is no JSON, and the field `message` of the body if it is an object whose
  -- message is not empty, zero, false or missing, and the call's own message otherwise.
  pub calls_failure :
      (id path content new_path snapshot file name : Text) (comment : Option Text)
      → FilesReport encode pb r id path content new_path
        × HooksReport encode pb r id path content file
        × BackupReport pb r id snapshot file name comment
  calls_failure id path content new_path snapshot file name comment = (
    files_failure encode pb r failed id path content new_path,
    hooks_failure encode pb r failed id path content file,
    backup_failure pb r failed id snapshot file name comment,
  )
