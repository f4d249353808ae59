-- ===== src/Services/Laws/Requests.antt =====
-- What the services send.
use pb_launcher.Prelude.{
  ℕ, Text, codes, List, [], ◌∷◌, ◌++◌, Bool, false, Option, none, some, ◌≡◌, refl, text_eq,
  text_eq_refl, if◌then◌else◌,
}
use pb_launcher.Http.{Method, Body, Fetch, Client, await_fetch}
use pb_launcher.Url.{slash, join_urls}
use pb_launcher.Url.Join.{slashes, IsBare, join_urls_seam}
use pb_launcher.Services.Files.{
  fetch_files, read_file, save_file, create_folder, rename_file, extract_zip, delete_file,
  download_file, upload_files,
}
use pb_launcher.Services.System.{
  execute_cli_command, fetch_system_status, fetch_all_repositories, sync_repository,
  upsert_superuser, fetch_service_logs,
}

abbrev pub carries : Text → Option Text → Bool
carries token none = false
carries token (some t) = text_eq t token

-- A server that drops every request without the token.
abbrev pub guarded : Text → Fetch → Fetch
guarded token fetch q = if carries token q.authorization then fetch q else none

await-guarded :
    (token : Text) (fetch : Fetch) (m : Method) (url : Text) (t : Option Text) (body : Body)
    → await_fetch (guarded token fetch) (record {
      method = m;
      url = url;
      authorization = some token;
      content_type = t;
      body = body;
    })
      ≡ await_fetch fetch (record {
        method = m;
        url = url;
        authorization = some token;
        content_type = t;
        body = body;
      })
unfolding await_fetch
await-guarded token fetch m url t body = rw (text_eq_refl token, await_fetch)

module _ (pb : Client) (fetch : Fetch) where
  -- On a server that drops the requests without the token, the calls on files answer as before.
  abbrev pub FilesAuthorized : (Text → Text) → Text → Text → Text → Text → List Text → Type 0
  FilesAuthorized encode id path content new_path files =
      (fetch_files encode pb (guarded pb.token fetch) id ≡ fetch_files encode pb fetch id)
      × (read_file encode pb (guarded pb.token fetch) id path ≡ read_file encode pb fetch id path)
      × (save_file encode pb (guarded pb.token fetch) id path content
          ≡ save_file encode pb fetch id path content)
      × (download_file encode pb (guarded pb.token fetch) id path
          ≡ download_file encode pb fetch id path)
      × (create_folder encode pb (guarded pb.token fetch) id path
          ≡ create_folder encode pb fetch id path)
      × (rename_file encode pb (guarded pb.token fetch) id path new_path
          ≡ rename_file encode pb fetch id path new_path)
      × (extract_zip encode pb (guarded pb.token fetch) id path
          ≡ extract_zip encode pb fetch id path)
      × (delete_file encode pb (guarded pb.token fetch) id path
          ≡ delete_file encode pb fetch id path)
      × (upload_files pb (guarded pb.token fetch) id path files
          ≡ upload_files pb fetch id path files)

  -- The same of the other calls with a token.
  abbrev pub SystemAuthorized : Text → Text → Option Text → List Text → Type 0
  SystemAuthorized id limit_text password args =
      (execute_cli_command pb (guarded pb.token fetch) id args
        ≡ execute_cli_command pb fetch id args)
      × (fetch_system_status pb (guarded pb.token fetch) ≡ fetch_system_status pb fetch)
      × (fetch_all_repositories pb (guarded pb.token fetch) ≡ fetch_all_repositories pb fetch)
      × (sync_repository pb (guarded pb.token fetch) id ≡ sync_repository pb fetch id)
      × (upsert_superuser pb (guarded pb.token fetch) id password
          ≡ upsert_superuser pb fetch id password)
      × (fetch_service_logs pb (guarded pb.token fetch) id limit_text
          ≡ fetch_service_logs pb fetch id limit_text)

  files_authorized :
      (encode : Text → Text) (id path content new_path : Text) (files : List Text)
      → FilesAuthorized encode id path content new_path files
  unfolding fetch_files read_file save_file create_folder rename_file extract_zip delete_file
      download_file upload_files
  files_authorized encode id path content new_path files =
      let e = await-guarded pb.token fetch in
      (rw e, rw e, rw e, rw e, rw e, rw e, rw e, rw e, rw (text_eq_refl pb.token, upload_files))

  system_authorized :
      (id limit_text : Text) (password : Option Text) (args : List Text)
      → SystemAuthorized id limit_text password args
  unfolding execute_cli_command fetch_system_status fetch_all_repositories sync_repository
      upsert_superuser fetch_service_logs
  system_authorized id limit_text password args =
      let e = await-guarded pb.token fetch in (rw e, rw e, rw e, rw e, rw e, rw e)

  -- Each operation on files, the commands, the logs and the administrator of a service, the state of
  -- the host and the repositories send the token: a server that drops the requests without it serves
  -- all of them as before.
  pub calls_authorized :
      (encode : Text → Text) (id path content new_path limit_text : Text) (files args : List Text)
      (password : Option Text)
      → FilesAuthorized encode id path content new_path files
        × SystemAuthorized id limit_text password args
  calls_authorized encode id path content new_path limit_text files args password = (
    files_authorized encode id path content new_path files,
    system_authorized id limit_text password args,
  )

-- A server that answers at one address only.
abbrev pub only_at : Text → Fetch → Fetch
only_at url fetch q = if text_eq q.url url then fetch q else none

await-only_at :
    (url : Text) (fetch : Fetch) (m : Method) (a t : Option Text) (body : Body)
    → await_fetch
        (only_at url fetch)
        (record { method = m; url = url; authorization = a; content_type = t; body = body })
      ≡ await_fetch fetch
          (record { method = m; url = url; authorization = a; content_type = t; body = body })
unfolding await_fetch
await-only_at url fetch m a t body = rw (text_eq_refl url, await_fetch)

-- Every path of the API starts with `/x`.
seam_slashes :
    (m : ℕ) (base : Text)
    → IsBare base
    → (rest : Text)
    → join_urls ((base ++ slashes m) ∷ (slash ∷ b'x' ∷ rest) ∷ []) ≡ base ++ slash ∷ b'x' ∷ rest
seam_slashes m base b rest = join_urls_seam 0 m 1 base (b'x' ∷ rest) b (λ e. cc) refl

abbrev pub files_path : Text → Text → Text
files_path id rest = codes "/x-api/services/" ++ (id ++ (codes "/files" ++ rest))

-- Each JSON operation on files, and the download, goes to its path below the origin, with however
-- many slashes the origin is configured: a server that answers there only serves it as before.
pub files_address :
    (encode : Text → Text) (base token : Text) (m : ℕ) (fetch : Fetch) (id path content p : Text)
    → IsBare base
    → let pb : Client = record { base_url = base ++ slashes m; token = token } in
      let at = λ (rest : Text). only_at (base ++ files_path id rest) fetch in
      (fetch_files encode pb (at []) id ≡ fetch_files encode pb fetch id)
      × (read_file encode pb (at (codes "/content?path=" ++ encode path)) id path
          ≡ read_file encode pb fetch id path)
      × (save_file encode pb (at (codes "/content")) id path content
          ≡ save_file encode pb fetch id path content)
      × (download_file encode pb (at (codes "/download?path=" ++ encode path)) id path
          ≡ download_file encode pb fetch id path)
      × (create_folder encode pb (at (codes "/folder")) id path
          ≡ create_folder encode pb fetch id path)
      × (rename_file encode pb (at (codes "/rename")) id path p
          ≡ rename_file encode pb fetch id path p)
      × (extract_zip encode pb (at (codes "/unzip")) id path ≡ extract_zip encode pb fetch id path)
      × (delete_file encode pb (at (codes "?path=" ++ encode path)) id path
          ≡ delete_file encode pb fetch id path)
unfolding fetch_files read_file save_file create_folder rename_file extract_zip delete_file
    download_file
files_address encode base token m fetch id path content p b =
    let e = seam_slashes m base b in
    let at = λ (rest : Text). await-only_at (base ++ files_path id rest) fetch in
    (
      rw (e, at []),
      rw (e, at (codes "/content?path=" ++ encode path)),
      rw (e, at (codes "/content")),
      rw (e, at (codes "/download?path=" ++ encode path)),
      rw (e, at (codes "/folder")),
      rw (e, at (codes "/rename")),
      rw (e, at (codes "/unzip")),
      rw (e, at (codes "?path=" ++ encode path)),
    )
