-- ===== src/Repositories.antt =====
-- The form of a repository, ui/src/pages/internal/forms/RepositoryForm.tsx, with the records of
-- ui/src/services/repositories.ts that it writes, and the rows of
-- ui/src/pages/internal/SettingsPage.tsx. The SDK of PocketBase is a parameter. `number_of` is
-- `Number` of what is typed as the retention, a whole number: what is negative or no number counts as
-- 0 here, since `Math.max(… || 1, 1)` makes 1 of each; the field takes no fraction.
pub mod Saved
use pb_launcher.Prelude.{
  ℕ, Text, codes, List, [], ◌∷◌, Bool, true, false, not, ◌||◌, Option, none, some, text_eq, ltb,
  if◌then◌else◌,
}
use pb_launcher.Prelude.Int.{pos}
use pb_launcher.Http.{Outcome}
use pb_launcher.Http.Values.{Json, Fields, string, boolean, number, object, field, end}
use pb_launcher.Collections.Records.{Sdk}
use pb_launcher.Collections.Writes.{optional}

pub data SyncStatus : Type 0 where
  never syncing success error : SyncStatus

pub record RepositoryPayload : Type 0 where
  pub name : Text
  pub repository : Text
  pub token : Text
  pub retention : ℕ
  pub release_file_pattern : Text
  pub exec_file_pattern : Text
  pub disabled : Bool

-- A repository as the back end lists it: the fields of the payload and these.
pub record RepositoryDto : Type 0 where
  pub id : Text
  pub payload : RepositoryPayload
  pub last_sync_at : Option Text
  pub last_sync_status : Option SyncStatus
  pub last_sync_error : Option Text
  pub release_count : Option ℕ
  pub downloaded_versions_count : Option ℕ

abbrev pub default_repository_id : Text
default_repository_id = codes "pocketbase"

abbrev pub default_payload : RepositoryPayload
default_payload = record {
  name = [];
  repository = [];
  token = [];
  retention = 3;
  release_file_pattern = codes "pocketbase_.+_linux_amd64\\.zip";
  exec_file_pattern = codes "^pocketbase";
  disabled = false;
}

-- `Math.max(n, 1)`, which is also `Math.max(n || 1, 1)`
abbrev pub at_least_one : ℕ → ℕ
at_least_one n = if ltb n 1 then 1 else n

-- The object in the state of the form: the spread of the repository brings all of its fields along,
-- those that are not of the payload too.
pub record FormState : Type 0 where
  pub payload : RepositoryPayload
  pub spread : Option RepositoryDto

unfoldable pub first_state : Option RepositoryDto → FormState
first_state none = record {
  payload = record default_payload { retention = at_least_one default_payload.retention };
  spread = none;
}
first_state (some r) = record {
  payload = record r.payload { retention = at_least_one r.payload.retention };
  spread = some r;
}

-- `setValue`, by the fields that have an input.
pub data Edit : Type 0 where
  set_name set_repository set_token set_retention : Text → Edit
  set_release_file_pattern set_exec_file_pattern : Text → Edit
  set_disabled : Bool → Edit

abbrev pub status_text : SyncStatus → Text
status_text never = codes "never"
status_text syncing = codes "syncing"
status_text success = codes "success"
status_text error = codes "error"

abbrev pub optional_status : Option SyncStatus → Fields → Fields
optional_status none fs = fs
optional_status (some s) fs = field (codes "last_sync_status") (string (status_text s)) fs

abbrev pub optional_count : Text → Option ℕ → Fields → Fields
optional_count name none fs = fs
optional_count name (some n) fs = field name (number (pos n)) fs

abbrev pub spread_fields : Option RepositoryDto → Fields
spread_fields none = end
spread_fields (some r) = field (codes "id") (string r.id) (
    optional (codes "last_sync_at") r.last_sync_at (
      optional_status r.last_sync_status (
        optional (codes "last_sync_error") r.last_sync_error (
          optional_count (codes "release_count") r.release_count
            (optional_count (codes "downloaded_versions_count") r.downloaded_versions_count end)))))

-- `{ ...form, retention: … }`
abbrev pub saved_fields : FormState → Fields
saved_fields s = field (codes "name") (string s.payload.name) (
    field (codes "repository") (string s.payload.repository) (
      field (codes "token") (string s.payload.token) (
        field (codes "retention") (number (pos (at_least_one s.payload.retention))) (
          field (codes "release_file_pattern") (string s.payload.release_file_pattern) (
            field (codes "exec_file_pattern") (string s.payload.exec_file_pattern)
              (field (codes "disabled") (boolean s.payload.disabled) (spread_fields s.spread)))))))

module _ (number_of : Text → ℕ) where
  unfoldable pub set_value : RepositoryPayload → Edit → RepositoryPayload
  set_value p (set_name v) = record p { name = v }
  set_value p (set_repository v) = record p { repository = v }
  set_value p (set_token v) = record p { token = v }
  set_value p (set_retention v) = record p { retention = at_least_one (number_of v) }
  set_value p (set_release_file_pattern v) = record p { release_file_pattern = v }
  set_value p (set_exec_file_pattern v) = record p { exec_file_pattern = v }
  set_value p (set_disabled b) = record p { disabled = b }

  unfoldable pub edited : FormState → List Edit → FormState
  edited s [] = s
  edited s (e ∷ es) = edited (record s { payload = set_value s.payload e }) es

module _ (sdk : Sdk) where
  abbrev pub create_repository : Json → Outcome Json
  create_repository data_ = sdk.create_record (codes "repositories") data_

  abbrev pub update_repository : Text → Json → Outcome Json
  update_repository id data_ = sdk.update_record (codes "repositories") id data_

  -- The mutation.
  unfoldable pub save_repository : Option RepositoryDto → FormState → Outcome Json
  save_repository none s = create_repository (object (saved_fields s))
  save_repository (some r) s =
      if text_eq r.id default_repository_id
      then update_repository r.id
          (object (field (codes "retention") (number (pos (at_least_one s.payload.retention))) end))
      else update_repository r.id (object (saved_fields s))

-- The buttons of a row.
abbrev pub is_syncing : Option SyncStatus → Bool
is_syncing (some syncing) = true
is_syncing _ = false

abbrev pub can_sync : RepositoryDto → Bool → Bool
can_sync r sync_pending =
    not (r.payload.disabled || (sync_pending || is_syncing r.last_sync_status))

abbrev pub can_delete : RepositoryDto → Bool
can_delete r = not (text_eq r.id default_repository_id)
