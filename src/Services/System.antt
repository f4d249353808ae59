-- ===== src/Services/System.antt =====
-- The calls of `fetch` of ui/src/services/{auth,cli,config,status,repositories,services}.ts.
-- Unlike files.ts, some of these read the body without a `catch`: a body that is not JSON is then
-- thrown as such, whatever the status.
use pb_launcher.Prelude.{
  Text, codes, List, [], ◌∷◌, ◌++◌, Bool, true, false, Option, none, some, text_eq, if◌then◌else◌,
}
use pb_launcher.Http.{
  get, post, no_body, json_body, Fetch, Outcome, done, thrown, http_error, plain_error, type_error,
  ◌>>=◌, ◌>>◌, is_ok, await_fetch, await_json, json_or_null, require_ok, array_or_empty, Client,
  url_for, json_type,
}
use pb_launcher.Http.Values.{
  Json, Items, Fields, null, undefined, string, array, object, field, end, cons, nil, field_of,
  is_truthy,
}

-- `json.name`, which throws on null.
unfoldable pub read_field : Json → Text → Outcome Json
read_field null name = thrown type_error
read_field undefined name = thrown type_error
read_field j name = done (field_of j name)

abbrev pub is_text : Json → Text → Bool
is_text (string s) t = text_eq s t
is_text j t = false

-- `json.message === "yes"` and `=== "no"`.
unfoldable pub setup_answer : Json → Json → Outcome Bool
setup_answer message json =
    if is_text message (codes "yes")
    then done true
    else if is_text message (codes "no")
    then done false
    else thrown (http_error 500 (string (codes "Invalid response from server")) json)

abbrev pub strings : List Text → Items
strings [] = nil
strings (a ∷ args) = cons (string a) (strings args)

-- `json.error || "Failed to execute CLI command"`
abbrev pub cli_message : Json → Json
cli_message e = if is_truthy e then e else string (codes "Failed to execute CLI command")

-- `JSON.stringify({ password: data.password })` leaves out a password that is not given.
abbrev pub password_fields : Option Text → Fields
password_fields none = end
password_fields (some p) = field (codes "password") (string p) end

module _ (pb : Client) (fetch : Fetch) where
  unfoldable pub is_initial_setup_done : Outcome Bool
  is_initial_setup_done = do
    response ← await_fetch fetch (record {
      method = get;
      url = url_for pb (codes "/x-api/setup/admin-exists");
      authorization = none;
      content_type = none;
      body = no_body;
    })
    json ← await_json response
    require_ok response json (codes "Unexpected error")
    message ← read_field json (codes "message")
    setup_answer message json

  unfoldable pub setup : Text → Text → Outcome (Unit {0})
  setup email password = do
    response ← await_fetch fetch (record {
      method = post;
      url = url_for pb (codes "/x-api/setup/admin");
      authorization = none;
      content_type = json_type;
      body = json_body (
          object (
            field (codes "email") (string email) (field (codes "password") (string password) end)));
    })
    if is_ok response
        then done tt
        else do json ← await_json response; require_ok response json (codes "Unexpected error")

  unfoldable pub execute_cli_command : Text → List Text → Outcome Json
  execute_cli_command service_id args = do
    response ← await_fetch fetch (record {
      method = post;
      url = url_for pb (codes "/x-api/service/cli/" ++ service_id);
      authorization = some pb.token;
      content_type = json_type;
      body = json_body (object (field (codes "args") (array (strings args)) end));
    })
    json ← await_json response
    if is_ok response
        then done json
        else do error ← read_field json (codes "error"); thrown (plain_error (cli_message error))

  unfoldable pub fetch_proxy_configs : Outcome Json
  fetch_proxy_configs = do
    response ← await_fetch fetch (record {
      method = get;
      url = url_for pb (codes "/x-api/proxy_configs");
      authorization = none;
      content_type = none;
      body = no_body;
    })
    json ← await_json response
    require_ok response json (codes "Unexpected error")
    done json

  unfoldable pub fetch_system_status : Outcome Json
  fetch_system_status = do
    response ← await_fetch fetch (record {
      method = get;
      url = url_for pb (codes "/x-api/system/status");
      authorization = some pb.token;
      content_type = none;
      body = no_body;
    })
    let json = json_or_null response
    require_ok response json (codes "Failed to fetch system status")
    done json

  unfoldable pub fetch_all_repositories : Outcome Items
  fetch_all_repositories = do
    response ← await_fetch fetch (record {
      method = get;
      url = url_for pb (codes "/x-api/repositories/status");
      authorization = some pb.token;
      content_type = none;
      body = no_body;
    })
    let json = json_or_null response
    require_ok response json (codes "Failed to fetch repositories")
    done (array_or_empty json)

  unfoldable pub sync_repository : Text → Outcome (Unit {0})
  sync_repository id = do
    response ← await_fetch fetch (record {
      method = post;
      url = url_for pb (codes "/x-api/repositories/" ++ (id ++ codes "/sync"));
      authorization = some pb.token;
      content_type = none;
      body = no_body;
    })
    require_ok response (json_or_null response) (codes "Failed to sync repository")

  unfoldable pub upsert_superuser : Text → Option Text → Outcome Json
  upsert_superuser service_id password = do
    response ← await_fetch fetch (record {
      method = post;
      url = url_for pb (codes "/x-api/upsert_superuser/" ++ service_id);
      authorization = some pb.token;
      content_type = json_type;
      body = json_body (object (password_fields password));
    })
    json ← await_json response
    require_ok response json (codes "Unexpected error")
    done json

  -- `limit` is written into the URL: `limit_text` is its decimal text.
  unfoldable pub fetch_service_logs : Text → Text → Outcome Items
  fetch_service_logs service_id limit_text = do
    response ← await_fetch fetch (record {
      method = get;
      url = url_for pb (codes "/x-api/service/logs/" ++ (service_id ++ (codes "/" ++ limit_text)));
      authorization = some pb.token;
      content_type = none;
      body = no_body;
    })
    json ← await_json response
    require_ok response json (codes "Unexpected error")
    done (array_or_empty json)
