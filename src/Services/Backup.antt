-- ===== src/Services/Backup.antt =====
-- ui/src/services/backup.ts
use pb_launcher.Prelude.{Text, codes, List, [], ◌∷◌, ◌++◌, Option, none, some}
use pb_launcher.Http.{
  get, post, delete, no_body, form_body, form_text, form_file, FormValue, Fetch, Outcome, done,
  ◌>>=◌, ◌>>◌, await_fetch, json_or_null, require_ok, array_or_empty, Client, url_for,
}
use pb_launcher.Http.Values.{Json, Items}
use pb_launcher.Services.Files.{Download}
use pb_launcher.Services.Hooks.{parse_filename_or}

abbrev pub parse_filename : Option Text → Text
parse_filename = parse_filename_or (codes "pblauncher-backup.zip")

-- `if (data.comment) form.append("comment", data.comment)`
abbrev pub comment_part : Option Text → List (Text × FormValue)
comment_part none = []
comment_part (some []) = []
comment_part (some (c ∷ s)) = (codes "comment", form_text (c ∷ s)) ∷ []

module _ (pb : Client) (fetch : Fetch) where
  unfoldable pub restore_backup : Text → Text → Outcome Json
  restore_backup file name = do
    response ← await_fetch fetch (record {
      method = post;
      url = url_for pb (codes "/x-api/services/restore");
      authorization = some pb.token;
      content_type = none;
      body = form_body ((codes "backup", form_file file) ∷ (codes "name", form_text name) ∷ []);
    })
    let json = json_or_null response
    require_ok response json (codes "Failed to restore backup")
    done json

  unfoldable pub clone_service : Text → Text → Outcome Json
  clone_service service_id name = do
    response ← await_fetch fetch (record {
      method = post;
      url = url_for pb (codes "/x-api/services/" ++ (service_id ++ codes "/clone"));
      authorization = some pb.token;
      content_type = none;
      body = form_body ((codes "name", form_text name) ∷ []);
    })
    let json = json_or_null response
    require_ok response json (codes "Failed to clone service")
    done json

  unfoldable pub list_snapshots : Text → Outcome Items
  list_snapshots service_id = do
    response ← await_fetch fetch (record {
      method = get;
      url = url_for pb (codes "/x-api/services/" ++ (service_id ++ codes "/snapshots"));
      authorization = some pb.token;
      content_type = none;
      body = no_body;
    })
    let json = json_or_null response
    require_ok response json (codes "Failed to list snapshots")
    done (array_or_empty json)

  unfoldable pub create_snapshot : Text → Text → Option Text → Outcome Json
  create_snapshot service_id name comment = do
    response ← await_fetch fetch (record {
      method = post;
      url = url_for pb (codes "/x-api/services/" ++ (service_id ++ codes "/snapshots"));
      authorization = some pb.token;
      content_type = none;
      body = form_body ((codes "name", form_text name) ∷ comment_part comment);
    })
    let json = json_or_null response
    require_ok response json (codes "Failed to create snapshot")
    done json

  unfoldable pub restore_snapshot : Text → Text → Outcome Json
  restore_snapshot service_id snapshot_id = do
    response ← await_fetch fetch (record {
      method = post;
      url = url_for pb (
          codes "/x-api/services/"
          ++ (service_id ++ (codes "/snapshots/" ++ (snapshot_id ++ codes "/restore"))));
      authorization = some pb.token;
      content_type = none;
      body = no_body;
    })
    let json = json_or_null response
    require_ok response json (codes "Failed to restore snapshot")
    done json

  unfoldable pub download_snapshot : Text → Text → Outcome Download
  download_snapshot service_id snapshot_id = do
    response ← await_fetch fetch (record {
      method = get;
      url = url_for pb (
          codes "/x-api/services/"
          ++ (service_id ++ (codes "/snapshots/" ++ (snapshot_id ++ codes "/download"))));
      authorization = some pb.token;
      content_type = none;
      body = no_body;
    })
    require_ok response (json_or_null response) (codes "Failed to download snapshot")
    done (record { file_name = parse_filename response.content_disposition; blob = response.blob })

  unfoldable pub delete_snapshot : Text → Text → Outcome (Unit {0})
  delete_snapshot service_id snapshot_id = do
    response ← await_fetch fetch (record {
      method = delete;
      url =
          url_for pb
            (codes "/x-api/services/" ++ (service_id ++ (codes "/snapshots/" ++ snapshot_id)));
      authorization = some pb.token;
      content_type = none;
      body = no_body;
    })
    require_ok response (json_or_null response) (codes "Failed to delete snapshot")
