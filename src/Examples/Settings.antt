-- ===== src/Examples/Settings.antt =====
-- The form of a repository at concrete inputs.
use pb_launcher.Prelude.{ℕ, ◌≡◌, refl, Text, codes, List, [], ◌∷◌, none, some, length}
use pb_launcher.Prelude.Int.{pos}
use pb_launcher.Http.Values.{Fields, string, number, object, field, end, lookup_field}
use pb_launcher.Repositories.{
  at_least_one, syncing, RepositoryDto, default_payload, Edit, set_name, set_retention,
  update_repository, status_text,
}
use pb_launcher.Repositories.Saved.{saved, last_retention, default_saved, saved_status}
use pb_launcher.Examples.Creating.{creating}

abbrev typed : Text → ℕ
typed t = length t

abbrev default_repository : RepositoryDto
default_repository = record {
  id = codes "pocketbase";
  payload = default_payload;
  last_sync_at = none;
  last_sync_status = some syncing;
  last_sync_error = none;
  release_count = none;
  downloaded_versions_count = none;
}

abbrev other_repository : RepositoryDto
other_repository = record default_repository { id = codes "r1" }

abbrev edits : List Edit
edits = set_name (codes "mine") ∷ set_retention [] ∷ []

default_saved_example :
    saved typed creating default_repository edits
    ≡ update_repository creating (codes "pocketbase") (
        object (
          field
            (codes "retention")
            (number (pos (at_least_one (last_retention typed creating 3 edits))))
            end))
default_saved_example = default_saved typed creating default_repository edits refl

saved_status_example :
    (fs : Fields) × ((saved typed creating other_repository edits
        ≡ update_repository creating (codes "r1") (object fs))
      × (lookup_field fs (codes "last_sync_status") ≡ string (status_text syncing)))
saved_status_example = saved_status typed creating other_repository edits syncing refl refl

-- One backslash stands before the dot of the ending.
pattern_run : length default_payload.release_file_pattern ≡ 30
pattern_run = refl
