-- ===== src/Services/Hooks.antt =====
-- ui/src/services/hooks.ts
use pb_launcher.Prelude.{
  ℕ, Text, codes, [], ◌∷◌, ◌++◌, ◌||◌, Option, none, some, ◌==◌, starts_with, drop, length,
  if◌then◌else◌,
}
use pb_launcher.Http.{
  get, post, put, delete, no_body, json_body, form_body, form_file, Fetch, Outcome, done, ◌>>=◌,
  ◌>>◌, await_fetch, json_or_null, require_ok, array_or_empty, Client, url_for, json_type,
}
use pb_launcher.Http.Values.{Json, Items, string, object, field, end}
use pb_launcher.Services.Files.{Download}

abbrev pub quote : ℕ
quote = b'"'

abbrev pub semicolon : ℕ
semicolon = b';'

-- `[^";]*` from the front of a text.
unfoldable pub name_chars : Text → Text
name_chars [] = []
name_chars (c ∷ s) = if (c == quote) || (c == semicolon) then [] else c ∷ name_chars s

abbrev pub skip_quote : Text → Text
skip_quote [] = []
skip_quote (c ∷ s) = if c == quote then s else c ∷ s

-- The group of `/filename="?([^";]+)"?/` at the front of a text. Where a quote is skipped and no
-- character follows, the expression has no other match here, since the group takes no quote.
unfoldable pub match_at : Text → Option Text
match_at s =
    if starts_with s (codes "filename=")
    then (elim (name_chars (skip_quote (drop (length (codes "filename=")) s))) [
      | [] ↦ none
      | c ∷ t ↦ some (c ∷ t)
    ])
    else none

-- `match` finds the first place where the expression matches.
unfoldable pub match_filename : Text → Option Text
match_filename [] = match_at []
match_filename (c ∷ s) =
    let rest = match_filename s in elim (match_at (c ∷ s)) [ none ↦ rest | some t ↦ some t ]

unfoldable pub parse_filename_or : Text → Option Text → Text
parse_filename_or fallback none = fallback
parse_filename_or fallback (some disposition) = elim (match_filename disposition) [
  | none ↦ fallback
  | some t ↦ t
]

abbrev pub parse_filename : Option Text → Text
parse_filename = parse_filename_or (codes "pb-hooks.zip")

module _ (encode : Text → Text) (pb : Client) (fetch : Fetch) where
  unfoldable pub fetch_hooks : Text → Outcome Items
  fetch_hooks service_id = do
    response ← await_fetch fetch (record {
      method = get;
      url = url_for pb (codes "/x-api/services/" ++ (service_id ++ codes "/hooks"));
      authorization = some pb.token;
      content_type = none;
      body = no_body;
    })
    let json = json_or_null response
    require_ok response json (codes "Failed to list PB hooks")
    done (array_or_empty json)

  unfoldable pub export_hooks : Text → Outcome Download
  export_hooks service_id = do
    response ← await_fetch fetch (record {
      method = get;
      url = url_for pb (codes "/x-api/services/" ++ (service_id ++ codes "/hooks/export"));
      authorization = some pb.token;
      content_type = none;
      body = no_body;
    })
    require_ok response (json_or_null response) (codes "Failed to export PB hooks")
    done (record { file_name = parse_filename response.content_disposition; blob = response.blob })

  unfoldable pub import_hooks : Text → Text → Outcome Json
  import_hooks service_id file = do
    response ← await_fetch fetch (record {
      method = post;
      url = url_for pb (codes "/x-api/services/" ++ (service_id ++ codes "/hooks/import"));
      authorization = some pb.token;
      content_type = none;
      body = form_body ((codes "hooks", form_file file) ∷ []);
    })
    let json = json_or_null response
    require_ok response json (codes "Failed to import PB hooks")
    done json

  unfoldable pub read_hook : Text → Text → Outcome Json
  read_hook service_id path = do
    response ← await_fetch fetch (record {
      method = get;
      url =
          url_for pb (
            codes "/x-api/services/" ++ (service_id ++ (codes "/hooks/file?path=" ++ encode path)));
      authorization = some pb.token;
      content_type = none;
      body = no_body;
    })
    let json = json_or_null response
    require_ok response json (codes "Failed to read PB hook")
    done json

  unfoldable pub save_hook : Text → Text → Text → Outcome (Unit {0})
  save_hook service_id path content = do
    response ← await_fetch fetch (record {
      method = put;
      url = url_for pb (codes "/x-api/services/" ++ (service_id ++ codes "/hooks/file"));
      authorization = some pb.token;
      content_type = json_type;
      body = json_body (
          object
            (field (codes "path") (string path) (field (codes "content") (string content) end)));
    })
    require_ok response (json_or_null response) (codes "Failed to save PB hook")

  unfoldable pub delete_hook : Text → Text → Outcome (Unit {0})
  delete_hook service_id path = do
    response ← await_fetch fetch (record {
      method = delete;
      url =
          url_for pb (
            codes "/x-api/services/" ++ (service_id ++ (codes "/hooks/file?path=" ++ encode path)));
      authorization = some pb.token;
      content_type = none;
      body = no_body;
    })
    require_ok response (json_or_null response) (codes "Failed to delete PB hook")
