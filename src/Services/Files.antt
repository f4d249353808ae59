-- ===== src/Services/Files.antt =====
-- ui/src/services/files.ts
use pb_launcher.Prelude.{ℕ, Text, codes, List, [], ◌∷◌, ◌++◌, none, some, leb, ◌&&◌, if◌then◌else◌}
use pb_launcher.Http.{
  get, post, put, patch, delete, no_body, json_body, form_body, form_text, form_file, FormValue,
  Fetch, Outcome, done, thrown, http_error, plain_error, ◌>>=◌, ◌>>◌, is_ok, await_fetch,
  json_or_null, require_ok, array_or_empty, Client, url_for, json_type,
}
use pb_launcher.Http.Values.{Json, Items, null, undefined, string, object, field, end, field_of}
use pb_launcher.Tree.{get_file_name}

-- A saved download: the name that the browser is given, and the bytes.
pub record Download : Type 0 where
  pub file_name : Text
  pub blob : List ℕ

module _ (encode : Text → Text) (pb : Client) (fetch : Fetch) where
  unfoldable pub fetch_files : Text → Outcome Items
  fetch_files service_id = do
    response ← await_fetch fetch (record {
      method = get;
      url = url_for pb (codes "/x-api/services/" ++ (service_id ++ codes "/files"));
      authorization = some pb.token;
      content_type = none;
      body = no_body;
    })
    let json = json_or_null response
    require_ok response json (codes "Failed to list files")
    done (array_or_empty json)

  unfoldable pub read_file : Text → Text → Outcome Json
  read_file service_id path = do
    response ← await_fetch fetch (record {
      method = get;
      url = url_for pb (
          codes "/x-api/services/"
          ++ (service_id ++ (codes "/files/content?path=" ++ encode path)));
      authorization = some pb.token;
      content_type = none;
      body = no_body;
    })
    let json = json_or_null response
    require_ok response json (codes "Failed to read file")
    done json

  unfoldable pub save_file : Text → Text → Text → Outcome (Unit {0})
  save_file service_id path content = do
    response ← await_fetch fetch (record {
      method = put;
      url = url_for pb (codes "/x-api/services/" ++ (service_id ++ codes "/files/content"));
      authorization = some pb.token;
      content_type = json_type;
      body = json_body (
          object
            (field (codes "path") (string path) (field (codes "content") (string content) end)));
    })
    require_ok response (json_or_null response) (codes "Failed to save file")

  unfoldable pub download_file : Text → Text → Outcome (List ℕ)
  download_file service_id path = do
    response ← await_fetch fetch (record {
      method = get;
      url = url_for pb (
          codes "/x-api/services/"
          ++ (service_id ++ (codes "/files/download?path=" ++ encode path)));
      authorization = some pb.token;
      content_type = none;
      body = no_body;
    })
    if is_ok response
        then done response.blob
        else thrown (plain_error (string (codes "Failed to download file")))

  -- `path.split("/").pop() || "download"`
  abbrev pub download_name : Text → Text
  download_name path = elim (get_file_name path) [ [] ↦ codes "download" | c ∷ s ↦ c ∷ s ]

  unfoldable pub download_file_in_browser : Text → Text → Outcome Download
  download_file_in_browser service_id path = do
    blob ← download_file service_id path
    done (record { file_name = download_name path; blob = blob })

  unfoldable pub create_folder : Text → Text → Outcome (Unit {0})
  create_folder service_id path = do
    response ← await_fetch fetch (record {
      method = post;
      url = url_for pb (codes "/x-api/services/" ++ (service_id ++ codes "/files/folder"));
      authorization = some pb.token;
      content_type = json_type;
      body = json_body (object (field (codes "path") (string path) end));
    })
    require_ok response (json_or_null response) (codes "Failed to create folder")

  unfoldable pub rename_file : Text → Text → Text → Outcome (Unit {0})
  rename_file service_id old_path new_path = do
    response ← await_fetch fetch (record {
      method = patch;
      url = url_for pb (codes "/x-api/services/" ++ (service_id ++ codes "/files/rename"));
      authorization = some pb.token;
      content_type = json_type;
      body = json_body (
          object (
            field (codes "old_path") (string old_path)
              (field (codes "new_path") (string new_path) end)));
    })
    require_ok response (json_or_null response) (codes "Failed to rename file")

  unfoldable pub extract_zip : Text → Text → Outcome (Unit {0})
  extract_zip service_id path = do
    response ← await_fetch fetch (record {
      method = post;
      url = url_for pb (codes "/x-api/services/" ++ (service_id ++ codes "/files/unzip"));
      authorization = some pb.token;
      content_type = json_type;
      body = json_body (object (field (codes "path") (string path) end));
    })
    require_ok response (json_or_null response) (codes "Failed to extract zip file")

  unfoldable pub delete_file : Text → Text → Outcome (Unit {0})
  delete_file service_id path = do
    response ← await_fetch fetch (record {
      method = delete;
      url =
          url_for pb
            (codes "/x-api/services/" ++ (service_id ++ (codes "/files?path=" ++ encode path)));
      authorization = some pb.token;
      content_type = none;
      body = no_body;
    })
    require_ok response (json_or_null response) (codes "Failed to delete file")

-- The form of an upload: the destination and the files in order.
abbrev pub upload_form : Text → List Text → List (Text × FormValue)
upload_form dest_path files = (codes "path", form_text dest_path) ∷ file_parts files
  where
    file_parts : List Text → List (Text × FormValue)
    file_parts [] = []
    file_parts (f ∷ fs) = (codes "files", form_file f) ∷ file_parts fs

-- `json?.message ?? fallback`: only null and undefined are replaced.
abbrev pub message_or_default : Json → Text → Json
message_or_default j fallback = elim (field_of j (codes "message")) [
  | null ↦ string fallback
  | undefined ↦ string fallback
  | m ↦ m
]

-- The request of an upload goes through `XMLHttpRequest`: `none` stands for its `onerror`.
unfoldable pub upload_files : Client → Fetch → Text → Text → List Text → Outcome (Unit {0})
upload_files pb xhr service_id dest_path files =
    elim (xhr (record {
      method = post;
      url = url_for pb (codes "/x-api/services/" ++ (service_id ++ codes "/files/upload"));
      authorization = some pb.token;
      content_type = none;
      body = form_body (upload_form dest_path files);
    })) [
      | none ↦ thrown (plain_error (string (codes "Error de red durante el upload")))
      | some response ↦
          let json = json_or_null response in
          if leb 200 response.status && leb response.status 299
          then done tt
          else thrown (
              http_error response.status (message_or_default json (codes "Failed to upload files"))
                json)
    ]
